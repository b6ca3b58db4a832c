-- ===== src/Task/Crew.antt =====
-- NewManager of task/task.go: how many workers it starts, and what they can take on.
use agent_go.Prelude.{
  ℕ, zero, suc, ◌+◌, ◌≤◌, ◌≡◌, refl, sym, subst, Bool, true, false, ◌&&◌, List, [], ◌∷◌, Option,
  none, some, arith, Bool-cases, inl, inr, length, length-append, ltb, ltb→lt,
}
use agent_go.Prelude.Int.{ℤ, pos, negsuc}
use agent_go.Task.{Task, is_queued}
use agent_go.Task.Manager.{
  Manager, restored_task, requeued, restore_one, restore, or_default, empty_manager, new_manager,
}
use agent_go.Task.System.{System, Reach, launched, start_workers, new_system}
use agent_go.Task.Limits.{IsLimited, Reach-IsLimited}

-- An option of NewManager is what was asked for, or the default if that is not positive.
abbrev pub IsOption : ℕ → ℤ → ℕ → Type 0
IsOption default (pos zero) n = n ≡ default
IsOption default (pos (suc k)) n = n ≡ suc k
IsOption default (negsuc k) n = n ≡ default

or_default-IsOption : (d : ℕ) (z : ℤ) (n : ℕ) → IsOption d z n → or_default d z ≡ n
or_default-IsOption d (pos zero) n h = sym h
or_default-IsOption d (pos (suc k)) n h = sym h
or_default-IsOption d (negsuc k) n h = sym h

module _ {S : Type 0} where
  -- The queue is within its size, which is `q`.
  abbrev HasRoom : ℕ → Manager S → Type 0
  HasRoom q m = (m.queue_size ≡ q) × (length m.queue ≤ m.queue_size)

  requeued-room :
      (t : Task) (m : Manager S)
      → length m.queue ≤ m.queue_size
      → length (requeued t m) ≤ m.queue_size
  requeued-room t m h =
      elim (Bool-cases (is_queued t.status && ltb (length m.queue) m.queue_size)) [
        | inr e ↦ rw e h
        | inl e ↦ rw e (
            omega (
              arith,
              ltb→lt (length m.queue) m.queue_size
                  (second (is_queued t.status) (ltb (length m.queue) m.queue_size) e),
              length-append m.queue (t.id ∷ []),
            ))
      ]
    where
      second : (a b : Bool) → (a && b) ≡ true → b ≡ true
      second true b e = e
      second false b e = cc

  start_workers-crew :
      (k q n : ℕ) (s : System S) → IsLimited q n s → IsLimited q (n + k) (start_workers k s)
  unfolding start_workers
  start_workers-crew zero q n s h = record {
    size = h.size;
    queue = h.queue;
    crew = omega (arith, h.crew);
  }
  start_workers-crew (suc k) q n s h =
      let one : System S = record s { idle = suc s.idle } in
      let more : IsLimited q (suc n) one = record {
        size = h.size;
        queue = h.queue;
        crew = omega (arith, h.crew);
      } in
      subst (λ m. IsLimited q m (start_workers k one)) (omega arith)
        (start_workers-crew k q (suc n) one more)

module _ {S : Type 0} (put : Task → S → S) where
  restore-HasRoom :
      (q : ℕ) (ts : List Task) (m : Manager S) → HasRoom q m → HasRoom q (restore put (some ts) m)
  unfolding restore restore_one
  restore-HasRoom q [] m h = h
  restore-HasRoom q (t ∷ ts) m h =
      restore-HasRoom q ts (restore_one put t m) (h.0, requeued-room (restored_task t) m h.1)

  loaded-HasRoom :
      (q : ℕ) (kept : Option (List Task)) (m : Manager S)
      → HasRoom q m
      → HasRoom q (restore put kept m)
  unfolding restore
  loaded-HasRoom q none m h = h
  loaded-HasRoom q (some ts) m h = restore-HasRoom q ts m h

  new_manager-HasRoom :
      (list : S → Option (List Task)) (queue_size : ℤ) (store : Option S)
      → HasRoom (or_default 64 queue_size) (new_manager put list queue_size store)
  unfolding new_manager
  new_manager-HasRoom list queue_size none = (refl, omega arith)
  new_manager-HasRoom list queue_size (some s) =
      loaded-HasRoom _ (list s) (empty_manager queue_size (some s)) (refl, omega arith)

  new_system-IsLimited :
      (list : S → Option (List Task)) (queue_size workers : ℤ) (store : Option S)
      → IsLimited
          (or_default 64 queue_size)
          (or_default 1 workers)
          (new_system put list queue_size workers store)
  unfolding new_system
  new_system-IsLimited list queue_size workers store =
      let m = new_manager put list queue_size store in
      let room = new_manager-HasRoom list queue_size store in
      subst
        (λ n.
          IsLimited (or_default 64 queue_size) n
            (start_workers (or_default 1 workers) (launched 0 m)))
        (omega arith)
        (start_workers-crew (or_default 1 workers) (or_default 64 queue_size) 0 (launched 0 m)
          (record { size = room.0; queue = room.1; crew = omega arith }))

  -- Whatever the store lists: in each state that any interleaving reaches from a new manager and
  -- the workers that it starts, the queue has at most QueueSize ids, and the workers hold and run
  -- at most Workers tasks together, where an option that is not positive stands for 64 and for 1.
  pub Reach-new_system :
      (list : S → Option (List Task)) (queue_size workers : ℤ) (store : Option S) (q n : ℕ)
      {t : System S}
      → IsOption 64 queue_size q
      → IsOption 1 workers n
      → Reach put (new_system put list queue_size workers store) t
      → (length t.manager.queue ≤ q) × (length t.held + length t.working ≤ n)
  Reach-new_system list queue_size workers store q n hq hn r =
      let h = Reach-IsLimited put r (new_system-IsLimited list queue_size workers store) in
      let room = or_default-IsOption 64 queue_size q hq in
      let crew = or_default-IsOption 1 workers n hn in
      (omega (arith, h.queue, h.size, room), omega (arith, h.crew, crew))
