-- ===== src/Task/Restart.antt =====
-- NewManager and restoreLocked of task/task.go: the tasks that a store has kept.
use agent_go.Prelude.{
  ℕ, suc, ◌+◌, ◌≤◌, ◌<◌, ◌≡◌, refl, subst, Bool, true, false, ◌&&◌, List, [], ◌∷◌, Option, some,
  arith, Bool-cases, inl, inr, length, length-append, ltb, lt→ltb,
}
use agent_go.Prelude.Int.{ℤ}
use agent_go.Text.{Text, text_eq, text_eq_iff}
use agent_go.Text.Table.{lookup, mem}
use agent_go.Task.{
  Task, Status, queued, running, succeeded, failed, cancelled, is_queued, is_running,
}
use agent_go.Task.Manager.{
  Manager, restored_task, requeued, restore_one, restore, or_default, empty_manager, new_manager,
}
use agent_go.Task.System.{launched}
use agent_go.Task.Places.{
  allowed, IsPlaced, status_in, status_in-insert_self, status_in-insert_ne, pushed, pushed_ne,
  placed,
}

-- A task that was read is queued and in the queue, or finished.
read-allowed :
    (st : Status) (q : Bool)
    → is_running st ≡ false
    → (is_queued st ≡ true → q ≡ true)
    → allowed (some st) q false false false ≡ true
read-allowed queued q r h = rw (h refl) refl
read-allowed running q r h = cc
read-allowed succeeded q r h = refl
read-allowed failed q r h = refl
read-allowed cancelled q r h = refl

restored-not_running : (t : Task) → is_running (restored_task t).status ≡ false
restored-not_running t = elim (Bool-cases (is_running t.status)) [
  | inl e ↦ rw e refl
  | inr e ↦ rw e e
]

module _ {S : Type 0} where
  abbrev IsStill : Manager S → Text → Type 0
  IsStill m id = allowed (status_in id m.tasks) (mem id m.queue) false false false ≡ true

  requeued-mem :
      (r : Task) (m : Manager S)
      → length m.queue < m.queue_size
      → is_queued r.status ≡ true
      → mem r.id (requeued r m) ≡ true
  requeued-mem r m room q = rw q (rw (lt→ltb _ _ room) (pushed r.id m.queue))

  requeued_ne :
      (r : Task) (m : Manager S) (i : Text)
      → text_eq r.id i ≡ false
      → mem i (requeued r m) ≡ mem i m.queue
  requeued_ne r m i ne =
      elim (Bool-cases (is_queued r.status && ltb (length m.queue) m.queue_size)) [
        | inl e ↦ rw e (pushed_ne r.id i m.queue ne)
        | inr e ↦ rw e refl
      ]

  length-requeued : (r : Task) (m : Manager S) → length (requeued r m) ≤ suc (length m.queue)
  length-requeued r m =
      elim (Bool-cases (is_queued r.status && ltb (length m.queue) m.queue_size)) [
        | inl e ↦ rw e (omega (arith, length-append m.queue (r.id ∷ [])))
        | inr e ↦ rw e (omega arith)
      ]

module _ {S : Type 0} (put : Task → S → S) where
  restore_one-IsStill :
      (t : Task) (m : Manager S)
      → length m.queue < m.queue_size
      → ((id : Text) → IsStill m id)
      → (id : Text) → IsStill (restore_one put t m) id
  unfolding restore_one
  restore_one-IsStill t m room h i =
      let r : Task = restored_task t in
      elim (Bool-cases (text_eq r.id i)) [
        | inl same ↦
            subst (λ k. IsStill (restore_one put t m) k) ((text_eq_iff r.id i).0 same)
              (placed (status_in-insert_self r.id r m.tasks) refl refl refl refl
                (read-allowed r.status _ (restored-not_running t) (requeued-mem r m room)))
        | inr ne ↦
            placed (status_in-insert_ne r.id i r m.tasks ne) (requeued_ne r m i ne) refl refl refl
              (h i)
      ]

  restore-IsStill :
      (ts : List Task) (m : Manager S)
      → length m.queue + length ts ≤ m.queue_size
      → ((id : Text) → IsStill m id)
      → (id : Text) → IsStill (restore put (some ts) m) id
  unfolding restore restore_one
  restore-IsStill [] m room h = h
  restore-IsStill (t ∷ ts) m room h =
      restore-IsStill ts (restore_one put t m) (omega (arith, length-requeued (restored_task t) m))
        (restore_one-IsStill t m (omega arith) h)

  -- If the store lists its tasks without an error, and they are no more than the queue has room
  -- for, then in a new manager whose workers have not begun every id is placed: each task that was
  -- queued is in the queue again, and no task is left running.
  pub new_manager-IsPlaced :
      (list : S → Option (List Task)) (queue_size : ℤ) (workers : ℕ) (s : S) (ts : List Task)
      (id : Text)
      → list s ≡ some ts
      → length ts ≤ or_default 64 queue_size
      → IsPlaced id (launched workers (new_manager put list queue_size (some s)))
  unfolding new_manager lookup mem
  new_manager-IsPlaced list queue_size workers s ts id e room =
      rw (new_manager, e)
        (restore-IsStill ts (empty_manager queue_size (some s)) (omega (arith, room)) (λ i. refl)
          id)
