-- ===== src/Task/Saved.antt =====
-- The tasks of a manager and those of its MemoryStore (task/task.go, task/store.go).
use agent_go.Prelude.{
  ℕ, ◌≡◌, refl, sym, ap, ◌∙◌, Bool, ◌||◌, ◌&&◌, not, Option, none, some, arith, Bool-cases,
  Option-cases, inl, inr, length, ltb,
}
use agent_go.Text.{Text, text_eq, text_eq_iff}
use agent_go.Text.Table.{lookup, insert, lookup-insert_self, lookup-insert_ne}
use agent_go.Errors.{Error}
use agent_go.Task.{Task, Status, queued, running, succeeded, failed, cancelled, is_queued}
use agent_go.Task.Manager.{
  Manager, register, enqueue, set_terminal, cancel, cancel_found, cancel_job, start, finish,
  release, stop, settle, write_task,
}
use agent_go.Task.System.{
  System, Step, registers, enqueues, cancels, dequeues, starts, finishes, leaves, stops, Reach,
  here, next,
}
use agent_go.Task.Safety.{cancel_job-tasks}
use agent_go.Task.Store.{MemoryStore, memory_put}

-- The store has the tasks that the manager has, and each task stands under its own id.
pub record IsSaved (m : Manager MemoryStore) : Type 0 where
  pub kept : MemoryStore
  pub store : m.store ≡ some kept
  pub same : (id : Text) → lookup id kept.tasks ≡ lookup id m.tasks
  pub named : (id : Text) (t : Task) → lookup id m.tasks ≡ some t → t.id ≡ id

write_task-IsSaved :
    (id : Text) (t : Task) (m : Manager MemoryStore)
    → t.id ≡ id
    → IsSaved m
    → IsSaved (write_task memory_put id t m)
unfolding memory_put
write_task-IsSaved id t m e h = record {
  kept = memory_put t h.kept;
  store = rw (h.store) refl;
  same = λ i. ap (λ j. lookup i (insert j t h.kept.tasks)) e ∙ elim (Bool-cases (text_eq id i)) [
    | inl s ↦
        rw (← (text_eq_iff id i).0 s)
          (lookup-insert_self id t h.kept.tasks ∙ sym (lookup-insert_self id t m.tasks))
    | inr ne ↦
        lookup-insert_ne id i t h.kept.tasks ne
        ∙ h.same i
        ∙ sym (lookup-insert_ne id i t m.tasks ne)
  ];
  named = λ i u k. elim (Bool-cases (text_eq id i)) [
    | inl s ↦
        let eq : id ≡ i = (text_eq_iff id i).0 s in
        let found : some t ≡ some u =
          sym (lookup-insert_self id t m.tasks) ∙ ap (λ j. lookup j (insert id t m.tasks)) eq ∙ k in
        let here_t : t ≡ u = cc in ap (λ (x : Task). x.id) (sym here_t) ∙ e ∙ eq
    | inr ne ↦ h.named i u (sym (lookup-insert_ne id i t m.tasks ne) ∙ k)
  ];
}

set_terminal-IsSaved :
    (id : Text) (st : Status) (result error : Text) (now : ℕ) (m : Manager MemoryStore)
    → IsSaved m
    → IsSaved (set_terminal memory_put id st result error now m)
unfolding set_terminal
set_terminal-IsSaved id st result error now m h = elim (Option-cases (lookup id m.tasks)) [
  | inl e ↦ rw (set_terminal, e) h
  | inr (t, e) ↦ rw (set_terminal, e) (write_task-IsSaved id _ m (h.named id t e) h)
]

enqueue-IsSaved :
    (first : Bool) (id : Text) (now : ℕ) (m : Manager MemoryStore)
    → IsSaved m
    → IsSaved (enqueue memory_put first id now m).1
unfolding enqueue
enqueue-IsSaved first id now m h =
    elim (Bool-cases (m.stopped && (first || not (ltb (length m.queue) m.queue_size)))) [
      | inl stopped ↦ rw stopped (set_terminal-IsSaved id _ _ _ now m h)
      | inr go ↦ rw go (elim (Bool-cases (ltb (length m.queue) m.queue_size)) [
        | inr full ↦ rw full (set_terminal-IsSaved id _ _ _ now m h)
        | inl room ↦
            rw room (record { kept = h.kept; store = h.store; same = h.same; named = h.named })
      ])
    ]

-- A change of what is not stored
moved-IsSaved :
    (m m' : Manager MemoryStore) → m'.tasks ≡ m.tasks → m'.store ≡ m.store → IsSaved m → IsSaved m'
moved-IsSaved m m' e d h = record {
  kept = h.kept;
  store = d ∙ h.store;
  same = λ id. h.same id ∙ ap (lookup id) (sym e);
  named = λ id t k. h.named id t (ap (lookup id) (sym e) ∙ k);
}

cancel_job-store : (id : Text) (m : Manager MemoryStore) → (cancel_job id m).store ≡ m.store
cancel_job-store id m = ground arith

cancel_found-IsSaved :
    (id : Text) (now : ℕ) (t : Task) (st : Status) (m : Manager MemoryStore)
    → lookup id m.tasks ≡ some t
    → IsSaved m
    → IsSaved (cancel_found memory_put id now t st m).1
unfolding cancel_found
cancel_found-IsSaved id now t succeeded m e h = h
cancel_found-IsSaved id now t failed m e h = h
cancel_found-IsSaved id now t cancelled m e h = h
cancel_found-IsSaved id now t queued m e h = write_task-IsSaved id _ m (h.named id t e) h
cancel_found-IsSaved id now t running m e h =
    moved-IsSaved m _ (cancel_job-tasks memory_put id m) (cancel_job-store id m) h

cancel-IsSaved :
    (id : Text) (now : ℕ) (m : Manager MemoryStore)
    → IsSaved m
    → IsSaved (cancel memory_put id now m).1
unfolding cancel
cancel-IsSaved id now m h = elim (Option-cases (lookup id m.tasks)) [
  | inl e ↦ rw (cancel, e) h
  | inr (t, e) ↦ rw (cancel, e) (cancel_found-IsSaved id now t t.status m e h)
]

start-IsSaved :
    (id : Text) (now : ℕ) (m : Manager MemoryStore)
    → IsSaved m
    → IsSaved (start memory_put id now m).1
unfolding start
start-IsSaved id now m h = elim (Option-cases (lookup id m.tasks)) [
  | inl e ↦ rw (start, e) h
  | inr (t, e) ↦ elim (Bool-cases (is_queued t.status)) [
    | inr d ↦ rw (start, e) (rw d h)
    | inl d ↦
        rw (start, e)
          (rw d (
            moved-IsSaved (write_task memory_put id _ m) _ refl refl
              (write_task-IsSaved id _ m (h.named id t e) h)))
  ]
]

settle-id :
    (over : Bool) (now : ℕ) (r : Text × Option Error) (t : Task) → (settle over now r t).id ≡ t.id
unfolding settle
settle-id over now (result, some e) t = ground arith
settle-id over now (result, none) t = ground arith

finish-IsSaved :
    (id : Text) (now : ℕ) (r : Text × Option Error) (m : Manager MemoryStore)
    → IsSaved m
    → IsSaved (finish memory_put id now r m)
unfolding finish
finish-IsSaved id now r m h = elim (Option-cases (lookup id m.tasks)) [
  | inl e ↦ rw (finish, e) h
  | inr (t, e) ↦ rw (finish, e) (write_task-IsSaved id _ m (settle-id _ now r t ∙ h.named id t e) h)
]

Step-IsSaved :
    {s t : System MemoryStore} → Step memory_put s t → IsSaved s.manager → IsSaved t.manager
unfolding register release stop
Step-IsSaved {s} (registers id goal now g e) h =
    moved-IsSaved (write_task memory_put id _ s.manager) _ refl refl
      (write_task-IsSaved id _ s.manager refl h)
Step-IsSaved {s} (enqueues first id now m) h = enqueue-IsSaved first id now s.manager h
Step-IsSaved {s} (cancels id now) h = cancel-IsSaved id now s.manager h
Step-IsSaved {s} (dequeues id rest e b) h = moved-IsSaved s.manager _ refl refl h
Step-IsSaved {s} (starts id now m) h = start-IsSaved id now s.manager h
Step-IsSaved {s} (finishes id now r m) h =
    moved-IsSaved (finish memory_put id now r s.manager) _ refl refl
      (finish-IsSaved id now r s.manager h)
Step-IsSaved (leaves waits) h = h
Step-IsSaved {s} stops h = moved-IsSaved s.manager _ refl refl h

-- If a manager over a MemoryStore has all its tasks in the store as they stand, each under its own
-- id, then this is so in each state that any interleaving reaches.
pub Reach-IsSaved :
    {s t : System MemoryStore} → Reach memory_put s t → IsSaved s.manager → IsSaved t.manager
Reach-IsSaved here h = h
Reach-IsSaved (next r st) h = Step-IsSaved st (Reach-IsSaved r h)
