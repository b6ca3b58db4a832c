-- ===== src/Run/Eviction.antt =====
-- Which records evictLocked of run/registry.go removes.
use agent_go.Prelude.{
  ℕ, ◌-◌, ◌≡◌, sym, ap, ◌∙◌, true, false, List, [], ◌∷◌, none, some, Bool-cases, Option-cases, inl,
  inr, length, take, All, All-take, ltb,
}
use agent_go.Text.{Text, text_eq, text_eq_iff}
use agent_go.Text.Table.{Table, lookup, delete, lookup-delete_self, lookup-delete_ne}
use agent_go.Run.{is_running}
use agent_go.Run.Registry.{
  Live, Registry, finished, sort_in, sort_items, drop_items, evict, record_limit,
}

module _ (m : Table Live) where
  -- The run is there and is finished.
  abbrev IsFinished : Text × ℕ → Type 0
  IsFinished (id, t) = (lv : Live) × (lookup id m ≡ some lv) × (is_running lv.rec.status ≡ false)

  finished-IsFinished : (visit : List Text) → All IsFinished (finished visit m)
  unfolding finished
  finished-IsFinished [] = tt
  finished-IsFinished (id ∷ visit) = elim (Option-cases (lookup id m)) [
    | inl e ↦ rw (finished, e) (finished-IsFinished visit)
    | inr (lv, e) ↦ elim (Bool-cases (is_running lv.rec.status)) [
      | inl r ↦ rw (finished, e) (rw r (finished-IsFinished visit))
      | inr r ↦ rw (finished, e) (rw r ((lv, e, r), finished-IsFinished visit))
    ]
  ]

  sort_in-IsFinished :
      (x : Text × ℕ) (ys : List (Text × ℕ))
      → IsFinished x
      → All IsFinished ys
      → All IsFinished (sort_in x ys)
  unfolding sort_in
  sort_in-IsFinished x [] h hs = (h, tt)
  sort_in-IsFinished x (y ∷ ys) h hs = elim (Bool-cases (ltb y.1 x.1)) [
    | inl e ↦ rw e (hs.0, sort_in-IsFinished x ys h hs.1)
    | inr e ↦ rw e (h, hs)
  ]

  sort_items-IsFinished :
      (xs : List (Text × ℕ)) → All IsFinished xs → All IsFinished (sort_items xs)
  unfolding sort_items
  sort_items-IsFinished [] h = tt
  sort_items-IsFinished (x ∷ xs) h = sort_in-IsFinished x _ h.0 (sort_items-IsFinished xs h.1)

  -- What stays in the table is what was there, and a running run stays.
  pub record IsEvicted (m' : Table Live) : Type 0 where
    pub there : (id : Text) (lv : Live) → lookup id m' ≡ some lv → lookup id m ≡ some lv
    pub running :
        (id : Text) (lv : Live)
        → lookup id m ≡ some lv
        → is_running lv.rec.status ≡ true
        → lookup id m' ≡ some lv

  delete-IsEvicted :
      (x : Text × ℕ) (m' : Table Live) → IsFinished x → IsEvicted m' → IsEvicted (delete x.0 m')
  delete-IsEvicted (id, t) m' (lv, e, f) h = record {
    there = λ i u k. elim (Bool-cases (text_eq id i)) [
      | inl same ↦
          let gone : none ≡ some u =
            sym (lookup-delete_self id m')
            ∙ ap (λ j. lookup j (delete id m')) ((text_eq_iff id i).0 same)
            ∙ k in
          cc
      | inr ne ↦ h.there i u (sym (lookup-delete_ne id i m' ne) ∙ k)
    ];
    running = λ i u k r. elim (Bool-cases (text_eq id i)) [
      | inl same ↦
          let one : some lv ≡ some u =
            sym e ∙ ap (λ j. lookup j m) ((text_eq_iff id i).0 same) ∙ k in
          let eq : lv ≡ u = cc in cc (sym f ∙ ap (λ (v : Live). is_running v.rec.status) eq ∙ r)
      | inr ne ↦ lookup-delete_ne id i m' ne ∙ h.running i u k r
    ];
  }

  drop_items-IsEvicted :
      (xs : List (Text × ℕ)) (m' : Table Live)
      → All IsFinished xs
      → IsEvicted m'
      → IsEvicted (drop_items xs m')
  unfolding drop_items
  drop_items-IsEvicted [] m' f h = h
  drop_items-IsEvicted ((id, t) ∷ xs) m' f h =
      drop_items-IsEvicted xs (delete id m') f.1 (delete-IsEvicted (id, t) m' f.0 h)

-- Whatever the order in which the map is visited, eviction changes no record and removes no
-- running run: what is there afterwards was there before, and each running run is still there.
pub evict-IsEvicted : (visit : List Text) (g : Registry) → IsEvicted g.by_id (evict visit g).by_id
unfolding evict
evict-IsEvicted visit g =
    let items : List (Text × ℕ) = finished visit g.by_id in
    let n : ℕ = length items - record_limit g.max_records in
    drop_items-IsEvicted g.by_id (take n (sort_items items)) g.by_id
      (All-take (IsFinished g.by_id) n (sort_items items)
        (sort_items-IsFinished g.by_id items (finished-IsFinished g.by_id visit)))
      (record { there = λ id lv k. k; running = λ id lv k r. k })
