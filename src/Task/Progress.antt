-- ===== src/Task/Progress.antt =====
-- How the status of a task moves (task/task.go).
use agent_go.Prelude.{
  ℕ, ◌≡◌, refl, sym, ap, ◌∙◌, subst, Bool, true, ◌||◌, ◌&&◌, not, Option, none, some, arith,
  Bool-cases, Option-cases, inl, inr, length, ltb,
}
use agent_go.Text.{Text, text_eq, text_eq_iff}
use agent_go.Text.Table.{Table, lookup, insert, mem}
use agent_go.Errors.{Error}
use agent_go.Task.{
  Task, Status, queued, running, succeeded, failed, cancelled, is_terminal, is_queued,
}
use agent_go.Task.Manager.{
  Manager, register, enqueue, set_terminal, cancel, cancel_found, start, finish, release, stop,
  context_over,
}
use agent_go.Task.System.{
  System, Step, registers, enqueues, cancels, dequeues, starts, finishes, leaves, stops,
}
use agent_go.Task.Places.{
  allowed, IsPlaced, status_of, status_in, status_in-insert_self, status_in-insert_ne,
  settle-terminal, status_some, status_none,
}
use agent_go.Task.Safety.{cancel_job-tasks}

-- A finished task stays as it finished, but for one that was cancelled before its Submit enqueued it:
-- when there is no room or the manager is stopped, this Submit makes it failed.
pub data Advances : Option Status → Option Status → Type 0 where
  stays : (a : Option Status) → Advances a a
  submitted : Advances none (some queued)
  started : Advances (some queued) (some running)
  refused : Advances (some queued) (some failed)
  withdrawn : Advances (some queued) (some cancelled)
  overtaken : Advances (some cancelled) (some failed)
  ended : (st : Status) → is_terminal st ≡ true → Advances (some running) (some st)

Advances-eq : (a b c : Option Status) → b ≡ c → Advances a b → Advances a c
Advances-eq a b c e h = subst (Advances a) e h

same-Advances : (a b : Option Status) → b ≡ a → Advances a b
same-Advances a b e = subst (Advances a) (sym e) (stays a)

refused-Advances :
    (st : Option Status) (q h w : Bool) → allowed st q h true w ≡ true → Advances st (some failed)
refused-Advances none q h w p = absurd (ground arith)
refused-Advances (some queued) q h w p = refused
refused-Advances (some running) q h w p = absurd (ground arith)
refused-Advances (some cancelled) q h w p = overtaken
refused-Advances (some succeeded) q h w p = absurd (ground arith)
refused-Advances (some failed) q h w p = stays (some failed)

ended-Advances :
    (st : Option Status) (new : Status) (q h s : Bool)
    → is_terminal new ≡ true
    → allowed st q h s true ≡ true
    → Advances st (some new)
ended-Advances none new q h s n p = absurd (ground arith)
ended-Advances (some queued) new q h s n p = absurd (ground arith)
ended-Advances (some running) new q h s n p = ended new n
ended-Advances (some cancelled) new q h s n p = absurd (ground arith)
ended-Advances (some succeeded) new q h s n p = absurd (ground arith)
ended-Advances (some failed) new q h s n p = absurd (ground arith)

-- One entry of the table is written.
insert-Advances :
    (id i : Text) (t : Task) (m : Table Task)
    → Advances (status_in id m) (some t.status)
    → Advances (status_in i m) (status_in i (insert id t m))
insert-Advances id i t m h = elim (Bool-cases (text_eq id i)) [
  | inl same ↦
      subst (λ k. Advances (status_in k m) (status_in k (insert id t m)))
        ((text_eq_iff id i).0 same)
        (subst (Advances (status_in id m)) (sym (status_in-insert_self id t m)) h)
  | inr ne ↦ same-Advances _ _ (status_in-insert_ne id i t m ne)
]

module _ {S : Type 0} (put : Task → S → S) where
  set_terminal-Advances :
      (id i : Text) (result error : Text) (now : ℕ) (s : System S)
      → mem id s.submitting ≡ true
      → IsPlaced id s
      → Advances
          (status_of i s)
          (status_in i (set_terminal put id failed result error now s.manager).tasks)
  unfolding set_terminal
  set_terminal-Advances id i result error now s m p =
      elim (Option-cases (lookup id s.manager.tasks)) [
        | inl e ↦ rw (set_terminal, e) (stays (status_of i s))
        | inr (t, e) ↦
            rw (set_terminal, e)
              (insert-Advances id i _ s.manager.tasks (
                refused-Advances (status_of id s) (mem id s.manager.queue) (mem id s.held)
                  (mem id s.working)
                  (subst
                    (λ b.
                      allowed (status_of id s) (mem id s.manager.queue) (mem id s.held) b
                        (mem id s.working)
                      ≡ true)
                    m p)))
      ]

  enqueue-Advances :
      (first : Bool) (id i : Text) (now : ℕ) (s : System S)
      → mem id s.submitting ≡ true
      → IsPlaced id s
      → Advances (status_of i s) (status_in i (enqueue put first id now s.manager).1.tasks)
  unfolding enqueue
  enqueue-Advances first id i now s m p =
      elim (Bool-cases
        (s.manager.stopped && (first || not (ltb (length s.manager.queue) s.manager.queue_size)))) [
          | inl stopped ↦ rw stopped (set_terminal-Advances id i _ _ now s m p)
          | inr go ↦ rw go (elim (Bool-cases (ltb (length s.manager.queue) s.manager.queue_size)) [
            | inr full ↦ rw full (set_terminal-Advances id i _ _ now s m p)
            | inl room ↦ rw room (stays (status_of i s))
          ])
        ]

  cancel_found-Advances :
      (id i : Text) (now : ℕ) (t : Task) (st : Status) (m : Manager S)
      → lookup id m.tasks ≡ some t
      → t.status ≡ st
      → Advances (status_in i m.tasks) (status_in i (cancel_found put id now t st m).1.tasks)
  unfolding cancel_found
  cancel_found-Advances id i now t succeeded m e d = stays (status_in i m.tasks)
  cancel_found-Advances id i now t failed m e d = stays (status_in i m.tasks)
  cancel_found-Advances id i now t cancelled m e d = stays (status_in i m.tasks)
  cancel_found-Advances id i now t running m e d =
      same-Advances _ _ (ap (status_in i) (cancel_job-tasks put id m))
  cancel_found-Advances id i now t queued m e d = insert-Advances id i _ m.tasks (
      subst (λ a. Advances a (some cancelled)) (sym (status_some id m.tasks t e ∙ ap some d))
        withdrawn)

  cancel-Advances :
      (id i : Text) (now : ℕ) (m : Manager S)
      → Advances (status_in i m.tasks) (status_in i (cancel put id now m).1.tasks)
  unfolding cancel
  cancel-Advances id i now m = elim (Option-cases (lookup id m.tasks)) [
    | inl e ↦ rw (cancel, e) (stays (status_in i m.tasks))
    | inr (t, e) ↦ rw (cancel, e) (cancel_found-Advances id i now t t.status m e refl)
  ]

  started-Advances : (st : Status) → is_queued st ≡ true → Advances (some st) (some running)
  started-Advances queued h = started
  started-Advances running h = cc
  started-Advances succeeded h = cc
  started-Advances failed h = cc
  started-Advances cancelled h = cc

  start-Advances :
      (id i : Text) (now : ℕ) (m : Manager S)
      → Advances (status_in i m.tasks) (status_in i (start put id now m).1.tasks)
  unfolding start
  start-Advances id i now m = elim (Option-cases (lookup id m.tasks)) [
    | inl e ↦ rw (start, e) (stays (status_in i m.tasks))
    | inr (t, e) ↦ elim (Bool-cases (is_queued t.status)) [
      | inr d ↦ rw (start, e) (rw d (stays (status_in i m.tasks)))
      | inl d ↦
          rw (start, e)
            (rw d (
              insert-Advances id i _ m.tasks (
                subst (λ a. Advances a (some running)) (sym (status_some id m.tasks t e))
                  (started-Advances t.status d))))
    ]
  ]

  finish-Advances :
      (id i : Text) (now : ℕ) (r : Text × Option Error) (s : System S)
      → mem id s.working ≡ true
      → IsPlaced id s
      → Advances (status_of i s) (status_in i (finish put id now r s.manager).tasks)
  unfolding finish
  finish-Advances id i now r s m p = elim (Option-cases (lookup id s.manager.tasks)) [
    | inl e ↦ rw (finish, e) (stays (status_of i s))
    | inr (t, e) ↦
        rw (finish, e)
          (insert-Advances id i _ s.manager.tasks (
            ended-Advances (status_of id s) _ (mem id s.manager.queue) (mem id s.held)
              (mem id s.submitting) (settle-terminal (context_over id s.manager) now r t)
              (subst
                (λ b.
                  allowed (status_of id s) (mem id s.manager.queue) (mem id s.held)
                    (mem id s.submitting) b
                  ≡ true)
                m p)))
  ]

  -- If every id is placed, then in one step of any goroutine the status of a task stays, or goes
  -- from unknown to queued, from queued to running, failed or cancelled, from running to a
  -- terminal status, or from cancelled to failed: succeeded and failed never change.
  pub Step-Advances :
      {s t : System S}
      → Step put s t
      → ((id : Text) → IsPlaced id s)
      → (id : Text) → Advances (status_of id s) (status_of id t)
  unfolding register release stop
  Step-Advances {s} (registers id goal now g e) p i =
      insert-Advances id i _ s.manager.tasks
        (subst (λ a. Advances a (some queued)) (sym (status_none id s.manager.tasks e)) submitted)
  Step-Advances {s} (enqueues first id now m) p i = enqueue-Advances first id i now s m (p id)
  Step-Advances {s} (cancels id now) p i = cancel-Advances id i now s.manager
  Step-Advances {s} (dequeues id rest e b) p i = stays (status_of i s)
  Step-Advances {s} (starts id now m) p i = start-Advances id i now s.manager
  Step-Advances {s} (finishes id now r m) p i = finish-Advances id i now r s m (p id)
  Step-Advances {s} (leaves waits) p i = stays (status_of i s)
  Step-Advances {s} stops p i = stays (status_of i s)
