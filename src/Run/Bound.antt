-- ===== src/Run/Bound.antt =====
-- How many finished runs evictLocked of run/registry.go leaves.
use agent_go.Prelude.{
  ℕ, suc, ◌+◌, ◌-◌, ◌≤◌, ◌≡◌, refl, sym, ap, ◌∙◌, subst, Bool, true, false, ◌||◌, List, [], ◌∷◌,
  none, arith, Bool-cases, Option-cases, inl, inr, length, length-take, min, take,
}
use agent_go.Text.{Text, text_ne_sym, text_eq, text_eq_iff}
use agent_go.Text.Table.{Table, lookup, delete, mem, lookup-delete_self, lookup-delete_ne}
use agent_go.Run.{is_running}
use agent_go.Run.Registry.{Live, Registry, finished, sort_items, drop_items, evict, record_limit}
use agent_go.Run.Keys.{
  keys, Once, or_false, length-sort_items, sort_items-Once, take-Once, AreAmong, AreAmong-take,
  AreAmong-sort_items,
}

-- What is not visited is not found.
mem-finished_visit :
    (k : Text) (visit : List Text) (m : Table Live)
    → mem k visit ≡ false
    → mem k (keys (finished visit m)) ≡ false
unfolding finished mem
mem-finished_visit k [] m h = refl
mem-finished_visit k (id ∷ visit) m h =
    let (a, b) = or_false (text_eq id k) (mem k visit) h in
    let rest = mem-finished_visit k visit m b in
    elim (Option-cases (lookup id m)) [
      | inl e ↦ rw (finished, e) rest
      | inr (lv, e) ↦ elim (Bool-cases (is_running lv.rec.status)) [
        | inl r ↦ rw (finished, e) (rw r rest)
        | inr r ↦ rw (finished, e) (rw r (ap (λ c. c || mem k (keys (finished visit m))) a ∙ rest))
      ]
    ]

finished-Once : (visit : List Text) (m : Table Live) → Once visit → Once (keys (finished visit m))
unfolding finished
finished-Once [] m h = tt
finished-Once (id ∷ visit) m h = elim (Option-cases (lookup id m)) [
  | inl e ↦ rw (finished, e) (finished-Once visit m h.1)
  | inr (lv, e) ↦ elim (Bool-cases (is_running lv.rec.status)) [
    | inl r ↦ rw (finished, e) (rw r (finished-Once visit m h.1))
    | inr r ↦ rw (finished, e) (rw r (mem-finished_visit id visit m h.0, finished-Once visit m h.1))
  ]
]

-- A deleted run is visited no more, and the others are.
finished-delete_le :
    (id : Text) (visit : List Text) (m : Table Live)
    → length (finished visit (delete id m)) ≤ length (finished visit m)
unfolding finished
finished-delete_le id [] m = omega arith
finished-delete_le id (v ∷ visit) m =
    let rest = finished-delete_le id visit m in
    elim (Bool-cases (text_eq id v)) [
      | inl same ↦
          let gone : lookup v (delete id m) ≡ none =
            subst (λ k. lookup k (delete id m) ≡ none) ((text_eq_iff id v).0 same)
              (lookup-delete_self id m) in
          rw (finished, gone)
            (elim (Option-cases (lookup v m)) [
              | inl e ↦ rw (finished, e) rest
              | inr (lv, e) ↦ elim (Bool-cases (is_running lv.rec.status)) [
                | inl r ↦ rw (finished, e) (rw r rest)
                | inr r ↦ rw (finished, e) (rw r (omega (arith, rest)))
              ]
            ])
      | inr ne ↦
          rw (finished, lookup-delete_ne id v m ne)
            (elim (Option-cases (lookup v m)) [
              | inl e ↦ rw (finished, e) rest
              | inr (lv, e) ↦ elim (Bool-cases (is_running lv.rec.status)) [
                | inl r ↦ rw (finished, e) (rw r rest)
                | inr r ↦ rw (finished, e) (rw r (omega (arith, rest)))
              ]
            ])
    ]

gone : (id v : Text) (m : Table Live) → text_eq id v ≡ true → lookup v (delete id m) ≡ none
gone id v m same =
    subst (λ k. lookup k (delete id m) ≡ none) ((text_eq_iff id v).0 same) (lookup-delete_self id m)

or_right : (a b : Bool) → a ≡ false → (a || b) ≡ true → b ≡ true
or_right false b e h = h
or_right true b e h = cc

finished-delete_lt :
    (id : Text) (visit : List Text) (m : Table Live)
    → mem id (keys (finished visit m)) ≡ true
    → suc (length (finished visit (delete id m))) ≤ length (finished visit m)
unfolding finished mem
finished-delete_lt id [] m h = cc
finished-delete_lt id (v ∷ visit) m h =
    let le = finished-delete_le id visit m in
    elim (Bool-cases (text_eq id v)) [
      | inl same ↦
          rw (finished, gone id v m same)
            (elim (Option-cases (lookup v m)) [
              | inl e ↦ rw (finished, e) (finished-delete_lt id visit m (rw (finished, e) at h))
              | inr (lv, e) ↦ elim (Bool-cases (is_running lv.rec.status)) [
                | inl r ↦
                    rw (finished, e)
                      (rw r (finished-delete_lt id visit m (rw r at (rw (finished, e) at h))))
                | inr r ↦ rw (finished, e) (rw r (omega (arith, le)))
              ]
            ])
      | inr ne ↦
          rw (finished, lookup-delete_ne id v m ne)
            (elim (Option-cases (lookup v m)) [
              | inl e ↦ rw (finished, e) (finished-delete_lt id visit m (rw (finished, e) at h))
              | inr (lv, e) ↦ elim (Bool-cases (is_running lv.rec.status)) [
                | inl r ↦
                    rw (finished, e)
                      (rw r (finished-delete_lt id visit m (rw r at (rw (finished, e) at h))))
                | inr r ↦
                    let h' : (text_eq v id || mem id (keys (finished visit m))) ≡ true =
                      rw r at (rw (finished, e) at h) in
                    let lt =
                      finished-delete_lt id visit m (or_right _ _ (text_ne_sym id v ne) h') in
                    rw (finished, e) (rw r (omega (arith, lt)))
              ]
            ])
    ]

mem-finished-delete :
    (id k : Text) (visit : List Text) (m : Table Live)
    → text_eq id k ≡ false
    → mem k (keys (finished visit (delete id m))) ≡ mem k (keys (finished visit m))
unfolding finished mem
mem-finished-delete id k [] m ne = refl
mem-finished-delete id k (v ∷ visit) m ne =
    let rest = mem-finished-delete id k visit m ne in
    elim (Bool-cases (text_eq id v)) [
      | inl same ↦
          rw (finished, gone id v m same)
            (elim (Option-cases (lookup v m)) [
              | inl e ↦ rw (finished, e) rest
              | inr (lv, e) ↦ elim (Bool-cases (is_running lv.rec.status)) [
                | inl r ↦ rw (finished, e) (rw r rest)
                | inr r ↦
                    let other : text_eq v k ≡ false =
                      subst (λ i. text_eq i k ≡ false) ((text_eq_iff id v).0 same) ne in
                    rw (finished, e)
                      (rw r (rest ∙ ap (λ c. c || mem k (keys (finished visit m))) (sym other)))
              ]
            ])
      | inr d ↦
          rw (finished, lookup-delete_ne id v m d)
            (elim (Option-cases (lookup v m)) [
              | inl e ↦ rw (finished, e) rest
              | inr (lv, e) ↦ elim (Bool-cases (is_running lv.rec.status)) [
                | inl r ↦ rw (finished, e) (rw r rest)
                | inr r ↦ rw (finished, e) (rw r (ap (λ b. text_eq v k || b) rest))
              ]
            ])
    ]

AreAmong-delete :
    (id : Text) (ks : List Text) (visit : List Text) (m : Table Live)
    → mem id ks ≡ false
    → AreAmong ks (keys (finished visit m))
    → AreAmong ks (keys (finished visit (delete id m)))
unfolding mem
AreAmong-delete id [] visit m n h = tt
AreAmong-delete id (k ∷ ks) visit m n h =
    let (a, b) = or_false (text_eq k id) (mem id ks) n in
    (
      mem-finished-delete id k visit m (text_ne_sym k id a) ∙ h.0,
      AreAmong-delete id ks visit m b h.1,
    )

-- Each run that is dropped is one less.
length-drop_items :
    (xs : List (Text × ℕ)) (visit : List Text) (m : Table Live)
    → Once (keys xs)
    → AreAmong (keys xs) (keys (finished visit m))
    → length (finished visit (drop_items xs m)) + length xs ≤ length (finished visit m)
unfolding drop_items
length-drop_items [] visit m o h = omega arith
length-drop_items ((id, t) ∷ xs) visit m o h =
    let rest =
      length-drop_items xs visit (delete id m) o.1 (AreAmong-delete id (keys xs) visit m o.0 h.1) in
    let lt = finished-delete_lt id visit m h.0 in omega (arith, rest, lt)

-- If the visit of the map lists no key twice, then after an eviction at most MaxRecords finished
-- runs are found by this visit, or 512 if MaxRecords is not positive.
pub length-evict :
    (visit : List Text) (g : Registry)
    → Once visit
    → length (finished visit (evict visit g).by_id) ≤ record_limit g.max_records
unfolding evict
length-evict visit g once =
    let items : List (Text × ℕ) = finished visit g.by_id in
    let n : ℕ = length items - record_limit g.max_records in
    let dropped : List (Text × ℕ) = take n (sort_items items) in
    let le =
      length-drop_items dropped visit g.by_id
        (take-Once n (sort_items items) (sort_items-Once items (finished-Once visit g.by_id once)))
        (AreAmong-sort_items (keys dropped) items (AreAmong-take n (sort_items items))) in
    let long : length dropped ≡ min n (length (sort_items items)) =
      length-take n (sort_items items) in
    omega (arith, le, long, length-sort_items items)
