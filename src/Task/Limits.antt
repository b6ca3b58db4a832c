-- ===== src/Task/Limits.antt =====
-- The size of the queue and the number of workers, step by step (task/task.go).
use agent_go.Prelude.{
  ℕ, ◌+◌, ◌≤◌, ◌<◌, ◌≡◌, refl, ap, subst, Bool, true, false, ◌||◌, ◌&&◌, not, List, [], ◌∷◌, Option,
  arith, Bool-cases, Option-cases, inl, inr, length, length-append, ltb, ltb→lt, if◌then◌else◌, suc,
  ◌∙◌,
}
use agent_go.Text.{Text, text_eq}
use agent_go.Text.Table.{lookup, mem, remove}
use agent_go.Errors.{Error}
use agent_go.Task.{Task, Status, queued, running, succeeded, failed, cancelled, is_queued}
use agent_go.Task.Manager.{
  Manager, register, enqueue, set_terminal, cancel, cancel_found, cancel_job, start, finish,
  release, stop,
}
use agent_go.Task.System.{
  System, Step, registers, enqueues, cancels, dequeues, starts, finishes, leaves, stops, Reach,
  here, next,
}
use agent_go.Task.Safety.{cancel_job-queue}

length-remove_le : (id : Text) (xs : List Text) → length (remove id xs) ≤ length xs
unfolding remove
length-remove_le id [] = omega arith
length-remove_le id (x ∷ xs) = let h = length-remove_le id xs in ground arith

length-remove_lt :
    (id : Text) (xs : List Text) → mem id xs ≡ true → length (remove id xs) < length xs
unfolding remove mem
length-remove_lt id [] m = cc
length-remove_lt id (x ∷ xs) m = elim (Bool-cases (text_eq x id)) [
  | inl e ↦ rw e (let h = length-remove_le id xs in omega arith)
  | inr e ↦
      rw e
        (let h = length-remove_lt id xs (subst (λ b. (b || mem id xs) ≡ true) e m) in omega arith)
]

module _ {S : Type 0} where
  -- A manager's queue, unchanged, in a manager of the same size
  SameQueue : Manager S → Manager S → Type 0
  SameQueue m m' = (m'.queue ≡ m.queue) × (m'.queue_size ≡ m.queue_size)

  -- The queue has room for `q`, and there are `n` workers at most, wherever they are.
  pub record IsLimited (q n : ℕ) (s : System S) : Type 0 where
    pub size : s.manager.queue_size ≡ q
    pub queue : length s.manager.queue ≤ s.manager.queue_size
    pub crew : s.idle + (length s.held + length s.working) ≤ n

module _ {S : Type 0} (put : Task → S → S) where
  set_terminal-SameQueue :
      (id : Text) (st : Status) (result error : Text) (now : ℕ) (m : Manager S)
      → SameQueue m (set_terminal put id st result error now m)
  unfolding set_terminal SameQueue
  set_terminal-SameQueue id st result error now m = elim (Option-cases (lookup id m.tasks)) [
    | inl e ↦ rw (set_terminal, e) (refl, refl)
    | inr (t, e) ↦ rw (set_terminal, e) (refl, refl)
  ]

  cancel_job-size : (id : Text) (m : Manager S) → (cancel_job id m).queue_size ≡ m.queue_size
  cancel_job-size id m = ground arith

  cancel_found-SameQueue :
      (id : Text) (now : ℕ) (t : Task) (st : Status) (m : Manager S)
      → SameQueue m (cancel_found put id now t st m).1
  unfolding cancel_found SameQueue
  cancel_found-SameQueue id now t succeeded m = (refl, refl)
  cancel_found-SameQueue id now t failed m = (refl, refl)
  cancel_found-SameQueue id now t cancelled m = (refl, refl)
  cancel_found-SameQueue id now t queued m = (refl, refl)
  cancel_found-SameQueue id now t running m = (cancel_job-queue put id m, cancel_job-size id m)

  cancel-SameQueue : (id : Text) (now : ℕ) (m : Manager S) → SameQueue m (cancel put id now m).1
  unfolding cancel SameQueue
  cancel-SameQueue id now m = elim (Option-cases (lookup id m.tasks)) [
    | inl e ↦ rw (cancel, e) (refl, refl)
    | inr (t, e) ↦ rw (cancel, e) (cancel_found-SameQueue id now t t.status m)
  ]

  finish-SameQueue :
      (id : Text) (now : ℕ) (r : Text × Option Error) (m : Manager S)
      → SameQueue m (finish put id now r m)
  unfolding finish SameQueue
  finish-SameQueue id now r m = elim (Option-cases (lookup id m.tasks)) [
    | inl e ↦ rw (finish, e) (refl, refl)
    | inr (t, e) ↦ rw (finish, e) (refl, refl)
  ]

  start-SameQueue : (id : Text) (now : ℕ) (m : Manager S) → SameQueue m (start put id now m).1
  unfolding start SameQueue
  start-SameQueue id now m = elim (Option-cases (lookup id m.tasks)) [
    | inl e ↦ rw (start, e) (refl, refl)
    | inr (t, e) ↦ elim (Bool-cases (is_queued t.status)) [
      | inl d ↦ rw (start, e) (rw d (refl, refl))
      | inr d ↦ rw (start, e) (rw d (refl, refl))
    ]
  ]

  -- Room is kept by a manager with the same queue.
  SameQueue-room :
      (m m' : Manager S)
      → SameQueue m m'
      → length m.queue ≤ m.queue_size
      → length m'.queue ≤ m'.queue_size
  unfolding SameQueue
  SameQueue-room m m' (q, n) h = rw (q, n) h

  enqueue-room :
      (first : Bool) (id : Text) (now : ℕ) (m : Manager S)
      → length m.queue ≤ m.queue_size
      → length (enqueue put first id now m).1.queue ≤ (enqueue put first id now m).1.queue_size
  unfolding enqueue
  enqueue-room first id now m h =
      elim (Bool-cases (m.stopped && (first || not (ltb (length m.queue) m.queue_size)))) [
        | inl stopped ↦ rw stopped (SameQueue-room m _ (set_terminal-SameQueue id _ _ _ now m) h)
        | inr go ↦ rw go (elim (Bool-cases (ltb (length m.queue) m.queue_size)) [
          | inr full ↦ rw full (SameQueue-room m _ (set_terminal-SameQueue id _ _ _ now m) h)
          | inl room ↦ rw room (
              omega
                (arith, ltb→lt (length m.queue) m.queue_size room, length-append m.queue (id ∷ [])))
        ])
      ]

  enqueue-size :
      (first : Bool) (id : Text) (now : ℕ) (m : Manager S)
      → (enqueue put first id now m).1.queue_size ≡ m.queue_size
  unfolding enqueue SameQueue
  enqueue-size first id now m =
      elim (Bool-cases (m.stopped && (first || not (ltb (length m.queue) m.queue_size)))) [
        | inl stopped ↦ rw stopped (set_terminal-SameQueue id _ _ _ now m).1
        | inr go ↦ rw go (elim (Bool-cases (ltb (length m.queue) m.queue_size)) [
          | inr full ↦ rw full (set_terminal-SameQueue id _ _ _ now m).1
          | inl room ↦ rw room refl
        ])
      ]

  -- A worker that starts, or finds nothing to start, leaves those that hold an id.
  starts-crew :
      (runs : Bool) (id : Text) (held working : List Text) (idle n : ℕ)
      → mem id held ≡ true
      → idle + (length held + length working) ≤ n
      → (if runs then idle else suc idle)
          + (length (remove id held) + length (if runs then id ∷ working else working))
        ≤ n
  starts-crew true id held working idle n m h = omega (arith, length-remove_lt id held m)
  starts-crew false id held working idle n m h = omega (arith, length-remove_lt id held m)

  same-IsLimited :
      (q n : ℕ) (s t : System S)
      → SameQueue s.manager t.manager
      → t.idle + (length t.held + length t.working) ≤ n
      → IsLimited q n s
      → IsLimited q n t
  unfolding SameQueue
  same-IsLimited q n s t same crew h = record {
    size = same.1 ∙ h.size;
    queue = SameQueue-room s.manager t.manager same h.queue;
    crew = crew;
  }

  Step-IsLimited : {q n : ℕ} {s t : System S} → Step put s t → IsLimited q n s → IsLimited q n t
  unfolding register release stop SameQueue
  Step-IsLimited (registers id goal now g e) h = record {
    size = h.size;
    queue = h.queue;
    crew = h.crew;
  }
  Step-IsLimited {s} (enqueues first id now m) h = record {
    size = enqueue-size first id now s.manager ∙ h.size;
    queue = enqueue-room first id now s.manager h.queue;
    crew = h.crew;
  }
  Step-IsLimited {q} {n} {s} (cancels id now) h =
      same-IsLimited q n s _ (cancel-SameQueue id now s.manager) h.crew h
  Step-IsLimited {s} (dequeues id rest e waits) h = record {
    size = h.size;
    queue = omega (arith, h.queue, ap length e);
    crew = omega (arith, h.crew, waits);
  }
  Step-IsLimited {q} {n} {s} (starts id now m) h =
      same-IsLimited q n s _ (start-SameQueue id now s.manager)
        (starts-crew (start put id now s.manager).0 id s.held s.working s.idle n m h.crew) h
  Step-IsLimited {q} {n} {s} (finishes id now r m) h =
      same-IsLimited q n s _ (finish-SameQueue id now r s.manager)
        (omega (arith, h.crew, length-remove_lt id s.working m)) h
  Step-IsLimited (leaves waits) h = record {
    size = h.size;
    queue = h.queue;
    crew = omega (arith, h.crew);
  }
  Step-IsLimited stops h = record { size = h.size; queue = h.queue; crew = h.crew }

  pub Reach-IsLimited :
      {q n : ℕ} {s t : System S} → Reach put s t → IsLimited q n s → IsLimited q n t
  Reach-IsLimited here h = h
  Reach-IsLimited (next r st) h = Step-IsLimited st (Reach-IsLimited r h)
