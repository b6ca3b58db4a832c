-- ===== src/Task/Safety.antt =====
-- Where tasks are, step by step of the goroutines around a manager (task/task.go).
use agent_go.Prelude.{
  ℕ, ◌≡◌, refl, sym, ap, ◌∙◌, subst, Bool, true, ◌&&◌, ◌||◌, not, List, ◌∷◌, Option, none, some,
  arith, length, Bool-cases, Option-cases, inl, inr, ltb,
}
use agent_go.Text.{Text, text_eq, text_eq_iff, text_eq_refl}
use agent_go.Text.Table.{lookup, mem, remove, mem-remove_self, mem-remove_ne}
use agent_go.Errors.{Error}
use agent_go.Task.{Task, Status, queued, running, succeeded, failed, cancelled, is_queued}
use agent_go.Task.Manager.{
  Manager, register, enqueue, set_terminal, cancel, cancel_found, cancel_job, start, finish,
  release, stop, context_over,
}
use agent_go.Task.System.{
  System, Step, registers, enqueues, cancels, dequeues, starts, finishes, leaves, stops, Reach,
  here, next, after_register, after_enqueue, after_dequeue, after_start, after_finish,
}
use agent_go.Task.Places.{
  IsPlaced, allowed, cancel-allowed, fail-allowed, launch-allowed, placed, push-allowed, pushed,
  pushed_ne, settle-allowed, settle-terminal, skip-allowed, status_in, status_in-insert_ne,
  status_in-insert_self, status_none, status_of, status_some, take-allowed, unheld-absurd,
  unknown-absurd, unworking-absurd,
}

module _ {S : Type 0} (put : Task → S → S) where
  registers-IsPlaced :
      (id goal i : Text) (now : ℕ) (s : System S)
      → lookup id s.manager.tasks ≡ none
      → IsPlaced id s
      → IsPlaced i s
      → IsPlaced i (after_register put id goal now s)
  unfolding register mem
  registers-IsPlaced id goal i now s fresh p q = elim (Bool-cases (text_eq id i)) [
    | inl e ↦
        let same : id ≡ i = (text_eq_iff id i).0 e in
        let p' =
          subst
            (λ st.
              allowed st (mem id s.manager.queue) (mem id s.held) (mem id s.submitting)
                (mem id s.working)
              ≡ true)
            (ap (λ (o : Option Task). elim o [ none ↦ none | some t ↦ some t.status ]) fresh) p in
        rw (← same)
          (rw (text_eq_refl id) (rw (status_in-insert_self id _ s.manager.tasks) (ground arith)))
    | inr e ↦ rw e (rw (status_in-insert_ne id i _ s.manager.tasks e) q)
  ]

  set_terminal-IsPlaced :
      (id i : Text) (result error : Text) (now : ℕ) (s : System S)
      → mem id s.submitting ≡ true
      → IsPlaced id s
      → IsPlaced i s
      → IsPlaced i (record s {
        manager = set_terminal put id failed result error now s.manager;
        submitting = remove id s.submitting;
      })
  unfolding set_terminal
  set_terminal-IsPlaced id i result error now s m p q =
      elim (Option-cases (lookup id s.manager.tasks)) [
        | inl e ↦ absurd (
            unknown-absurd (mem id s.manager.queue) (mem id s.held) (mem id s.working)
              (placed (sym (status_none id s.manager.tasks e)) refl refl (sym m) refl p))
        | inr (t, e) ↦
            rw (set_terminal, e)
              (elim (Bool-cases (text_eq id i)) [
                | inl same ↦ rw (← (text_eq_iff id i).0 same) (
                    placed (status_in-insert_self id _ s.manager.tasks) refl refl
                      (mem-remove_self id s.submitting) refl
                      (fail-allowed _ _ _ _ (placed refl refl refl (sym m) refl p)))
                | inr ne ↦
                    placed (status_in-insert_ne id i _ s.manager.tasks ne) refl refl
                      (mem-remove_ne id i s.submitting ne) refl q
              ])
      ]

  enqueues-IsPlaced :
      (first : Bool) (id i : Text) (now : ℕ) (s : System S)
      → mem id s.submitting ≡ true
      → IsPlaced id s
      → IsPlaced i s
      → IsPlaced i (after_enqueue put first id now s)
  unfolding enqueue
  enqueues-IsPlaced first id i now s m p q =
      elim (Bool-cases
        (s.manager.stopped && (first || not (ltb (length s.manager.queue) s.manager.queue_size)))) [
          | inl stopped ↦ rw stopped (set_terminal-IsPlaced id i _ _ now s m p q)
          | inr go ↦ rw go (elim (Bool-cases (ltb (length s.manager.queue) s.manager.queue_size)) [
            | inr full ↦ rw full (set_terminal-IsPlaced id i _ _ now s m p q)
            | inl room ↦ rw room (elim (Bool-cases (text_eq id i)) [
              | inl same ↦ rw (← (text_eq_iff id i).0 same) (
                  placed refl (pushed id s.manager.queue) refl (mem-remove_self id s.submitting)
                    refl (push-allowed _ _ _ _ (placed refl refl refl (sym m) refl p)))
              | inr ne ↦
                  placed refl (pushed_ne id i s.manager.queue ne) refl
                    (mem-remove_ne id i s.submitting ne) refl q
            ])
          ])
        ]

  -- Cancelling a context moves no task.
  pub cancel_job-tasks : (id : Text) (m : Manager S) → (cancel_job id m).tasks ≡ m.tasks
  cancel_job-tasks id m = ground arith

  pub cancel_job-queue : (id : Text) (m : Manager S) → (cancel_job id m).queue ≡ m.queue
  cancel_job-queue id m = ground arith

  cancel_found-IsPlaced :
      (id i : Text) (now : ℕ) (t : Task) (st : Status) (s : System S)
      → lookup id s.manager.tasks ≡ some t
      → t.status ≡ st
      → IsPlaced id s
      → IsPlaced i s
      → IsPlaced i (record s { manager = (cancel_found put id now t st s.manager).1 })
  unfolding cancel_found
  cancel_found-IsPlaced id i now t succeeded s e d p q = q
  cancel_found-IsPlaced id i now t failed s e d p q = q
  cancel_found-IsPlaced id i now t cancelled s e d p q = q
  cancel_found-IsPlaced id i now t running s e d p q =
      placed (ap (status_in i) (cancel_job-tasks id s.manager))
        (ap (mem i) (cancel_job-queue id s.manager)) refl refl refl q
  cancel_found-IsPlaced id i now t queued s e d p q = elim (Bool-cases (text_eq id i)) [
    | inl same ↦ rw (← (text_eq_iff id i).0 same) (
        placed (status_in-insert_self id _ s.manager.tasks) refl refl refl refl (
          cancel-allowed (mem id s.manager.queue) (mem id s.held) (mem id s.submitting) _
            (placed (sym (status_some id s.manager.tasks t e ∙ ap some d)) refl refl refl refl p)))
    | inr ne ↦ placed (status_in-insert_ne id i _ s.manager.tasks ne) refl refl refl refl q
  ]

  cancels-IsPlaced :
      (id i : Text) (now : ℕ) (s : System S)
      → IsPlaced id s
      → IsPlaced i s
      → IsPlaced i (record s { manager = (cancel put id now s.manager).1 })
  unfolding cancel
  cancels-IsPlaced id i now s p q = elim (Option-cases (lookup id s.manager.tasks)) [
    | inl e ↦ rw (cancel, e) q
    | inr (t, e) ↦ rw (cancel, e) (cancel_found-IsPlaced id i now t t.status s e refl p q)
  ]

  dequeues-IsPlaced :
      (id i : Text) (rest : List Text) (s : System S)
      → s.manager.queue ≡ id ∷ rest
      → IsPlaced id s
      → IsPlaced i s
      → IsPlaced i (after_dequeue put id rest s)
  unfolding mem
  dequeues-IsPlaced id i rest s e p q = elim (Bool-cases (text_eq id i)) [
    | inl same ↦
        subst (λ k. IsPlaced k (after_dequeue put id rest s)) ((text_eq_iff id i).0 same)
          (placed refl refl (ap (λ b. b || mem id s.held) (text_eq_refl id)) refl refl (
            take-allowed (status_of id s) (mem id rest) (mem id s.held) _ _ (
              placed refl (sym (ap (mem id) e ∙ ap (λ b. b || mem id rest) (text_eq_refl id))) refl
                refl refl p)))
    | inr ne ↦
        placed refl (sym (ap (mem i) e ∙ ap (λ b. b || mem i rest) ne))
          (ap (λ b. b || mem i s.held) ne) refl refl q
  ]

  starts-IsPlaced :
      (id i : Text) (now : ℕ) (s : System S)
      → mem id s.held ≡ true
      → IsPlaced id s
      → IsPlaced i s
      → IsPlaced i (after_start put id now s)
  unfolding start mem
  starts-IsPlaced id i now s m p q = elim (Option-cases (lookup id s.manager.tasks)) [
    | inl e ↦ absurd (
        unheld-absurd (mem id s.manager.queue) (mem id s.submitting) (mem id s.working)
          (placed (sym (status_none id s.manager.tasks e)) refl (sym m) refl refl p))
    | inr (t, e) ↦
        let p' = placed (sym (status_some id s.manager.tasks t e)) refl (sym m) refl refl p in
        elim (Bool-cases (is_queued t.status)) [
          | inl d ↦ elim (Bool-cases (text_eq id i)) [
            | inl same ↦
                subst (λ k. IsPlaced k (after_start put id now s)) ((text_eq_iff id i).0 same)
                  (rw (start, e)
                    (rw d (
                      placed (status_in-insert_self id _ s.manager.tasks) refl
                        (mem-remove_self id s.held) refl
                        (ap (λ b. b || mem id s.working) (text_eq_refl id))
                        (launch-allowed t.status _ _ (mem id s.working) d p'))))
            | inr ne ↦
                rw (start, e)
                  (rw d (
                    placed (status_in-insert_ne id i _ s.manager.tasks ne) refl
                      (mem-remove_ne id i s.held ne) refl (ap (λ b. b || mem i s.working) ne) q))
          ]
          | inr d ↦
              rw (start, e)
                (rw d (elim (Bool-cases (text_eq id i)) [
                  | inl same ↦ rw (← (text_eq_iff id i).0 same) (
                      placed (status_some id s.manager.tasks t e) refl (mem-remove_self id s.held)
                        refl refl (skip-allowed t.status _ _ _ d p'))
                  | inr ne ↦ placed refl refl (mem-remove_ne id i s.held ne) refl refl q
                ]))
        ]
  ]

  finishes-IsPlaced :
      (id i : Text) (now : ℕ) (r : Text × Option Error) (s : System S)
      → mem id s.working ≡ true
      → IsPlaced id s
      → IsPlaced i s
      → IsPlaced i (after_finish put id now r s)
  unfolding finish release
  finishes-IsPlaced id i now r s m p q = elim (Option-cases (lookup id s.manager.tasks)) [
    | inl e ↦ absurd (
        unworking-absurd (mem id s.manager.queue) (mem id s.held) (mem id s.submitting)
          (placed (sym (status_none id s.manager.tasks e)) refl refl refl (sym m) p))
    | inr (t, e) ↦
        rw (finish, e)
          (elim (Bool-cases (text_eq id i)) [
            | inl same ↦ rw (← (text_eq_iff id i).0 same) (
                placed (status_in-insert_self id _ s.manager.tasks) refl refl refl
                  (mem-remove_self id s.working)
                  (settle-allowed (status_of id s) _ _ _ _
                    (settle-terminal (context_over id s.manager) now r t)
                    (placed refl refl refl refl (sym m) p)))
            | inr ne ↦
                placed (status_in-insert_ne id i _ s.manager.tasks ne) refl refl refl
                  (mem-remove_ne id i s.working ne) q
          ])
  ]

  Step-IsPlaced :
      {s t : System S} → Step put s t → ((id : Text) → IsPlaced id s) → (id : Text) → IsPlaced id t
  unfolding stop
  Step-IsPlaced {s} (registers id goal now g e) p i =
      registers-IsPlaced id goal i now s e (p id) (p i)
  Step-IsPlaced {s} (enqueues first id now m) p i =
      enqueues-IsPlaced first id i now s m (p id) (p i)
  Step-IsPlaced {s} (cancels id now) p i = cancels-IsPlaced id i now s (p id) (p i)
  Step-IsPlaced {s} (dequeues id rest e b) p i = dequeues-IsPlaced id i rest s e (p id) (p i)
  Step-IsPlaced {s} (starts id now m) p i = starts-IsPlaced id i now s m (p id) (p i)
  Step-IsPlaced {s} (finishes id now r m) p i = finishes-IsPlaced id i now r s m (p id) (p i)
  Step-IsPlaced (leaves waits) p i = p i
  Step-IsPlaced stops p i = p i

  -- If every id is placed in one state of the manager and its goroutines, then every id is placed
  -- in each state that any interleaving of their critical sections reaches: a queued task is in
  -- the queue, with a worker that has taken it or with a Submit that will enqueue it, and nothing
  -- runs it; a running task is run by a worker; a finished task is run by none; an unknown id is
  -- nowhere.
  pub Reach-IsPlaced :
      {s t : System S} → ((id : Text) → IsPlaced id s) → Reach put s t → (id : Text) → IsPlaced id t
  Reach-IsPlaced p here = p
  Reach-IsPlaced p (next r st) = Step-IsPlaced st (Reach-IsPlaced p r)
