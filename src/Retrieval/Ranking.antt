-- ===== src/Retrieval/Ranking.antt =====
-- retrieve/grep.go: the order of the hits, and the best needle of a line.
use agent_go.Prelude.{
  ℕ, ◌≤◌, ◌<◌, ◌≡◌, refl, sym, ◌∙◌, ap, subst, Bool, true, false, ◌&&◌, List, [], ◌∷◌, ◌++◌, filter,
  All, arith, Bool-cases, inl, inr, ◌⊎◌, ltb, ◌==◌, ==_iff, ltb→lt, ltb→le, append-nil,
  append_assoc, filter-append, if◌then◌else◌, min, drop, length, length-take, take-append-drop,
}
use agent_go.Text.{Text, contains}
use agent_go.Retrieval.{Chunk}
use agent_go.Retrieval.Needles.{Needle, best_of}
use agent_go.Retrieval.Grep.{insert_hit, sort_hits, ranked}

-- No hit scores more than one before it.
abbrev pub Falls : List Chunk → Type 0
Falls [] = Unit
Falls (c ∷ cs) = All (λ (d : Chunk). d.score ≤ c.score) cs × Falls cs

abbrev pub of_score : ℕ → List Chunk → List Chunk
of_score s cs = filter (λ c. c.score == s) cs

All-weaken :
    (m n : ℕ) (cs : List Chunk)
    → m ≤ n
    → All (λ (d : Chunk). d.score ≤ m) cs
    → All (λ (d : Chunk). d.score ≤ n) cs
All-weaken m n [] h g = tt
All-weaken m n (c ∷ cs) h g = (omega (arith, g.0), All-weaken m n cs h g.1)

insert_hit-All :
    (n : ℕ) (c : Chunk) (cs : List Chunk)
    → c.score ≤ n
    → All (λ (d : Chunk). d.score ≤ n) cs
    → All (λ (d : Chunk). d.score ≤ n) (insert_hit c cs)
unfolding insert_hit
insert_hit-All n c [] h g = (h, tt)
insert_hit-All n c (d ∷ ds) h g = elim (Bool-cases (ltb d.score c.score)) [
  | inl e ↦ rw e (h, g)
  | inr e ↦ rw e (g.0, insert_hit-All n c ds h g.1)
]

insert_hit-Falls : (c : Chunk) (cs : List Chunk) → Falls cs → Falls (insert_hit c cs)
unfolding insert_hit
insert_hit-Falls c [] h = (tt, tt)
insert_hit-Falls c (d ∷ ds) h = elim (Bool-cases (ltb d.score c.score)) [
  | inl e ↦
      let lower : d.score ≤ c.score = omega (arith, ltb→lt d.score c.score e) in
      rw e ((lower, All-weaken d.score c.score ds lower h.0), h)
  | inr e ↦
      rw e (insert_hit-All d.score c ds (ltb→le d.score c.score e) h.0, insert_hit-Falls c ds h.1)
]

sort_hits-Falls : (done cs : List Chunk) → Falls done → Falls (sort_hits done cs)
unfolding sort_hits
sort_hits-Falls done [] h = h
sort_hits-Falls done (c ∷ cs) h = sort_hits-Falls (insert_hit c done) cs (insert_hit-Falls c done h)

-- Hits of lower scores have none of a higher score.
of_score-lower :
    (n s : ℕ) (cs : List Chunk) → All (λ (d : Chunk). d.score ≤ n) cs → n < s → of_score s cs ≡ []
of_score-lower n s [] h g = refl
of_score-lower n s (c ∷ cs) h g = ground (arith, of_score-lower n s cs h.1 g)

none-lower :
    (s : ℕ) (c d : Chunk) (ds : List Chunk)
    → Falls (d ∷ ds)
    → ltb d.score c.score ≡ true
    → (c.score == s) ≡ true
    → of_score s (d ∷ ds) ≡ []
none-lower s c d ds h e g =
    of_score-lower d.score s (d ∷ ds) (omega arith, h.0)
      (below (ltb→lt d.score c.score e) ((==_iff c.score s).0 g))
  where
    below : {l m n : ℕ} → l < m → m ≡ n → l < n
    below h e = omega arith

of_score-insert_hit :
    (s : ℕ) (c : Chunk) (cs : List Chunk)
    → Falls cs
    → of_score s (insert_hit c cs) ≡ of_score s cs ++ of_score s (c ∷ [])
unfolding insert_hit
of_score-insert_hit s c [] h = refl
of_score-insert_hit s c (d ∷ ds) h = elim (Bool-cases (ltb d.score c.score)) [
  | inl e ↦ rw e (elim (Bool-cases (c.score == s)) [
    | inl g ↦ rw g (
        ap (λ (l : List Chunk). c ∷ l) (none-lower s c d ds h e g)
        ∙ ap (λ (l : List Chunk). l ++ (c ∷ [])) (sym (none-lower s c d ds h e g)))
    | inr g ↦ rw g (sym (append-nil (of_score s (d ∷ ds))))
  ])
  | inr e ↦ rw e (elim (Bool-cases (d.score == s)) [
    | inl g ↦ rw g (ap (λ (l : List Chunk). d ∷ l) (of_score-insert_hit s c ds h.1))
    | inr g ↦ rw g (of_score-insert_hit s c ds h.1)
  ])
]

pub of_score-sort_hits :
    (s : ℕ) (done cs : List Chunk)
    → Falls done
    → of_score s (sort_hits done cs) ≡ of_score s done ++ of_score s cs
unfolding sort_hits
of_score-sort_hits s done [] h = sym (append-nil (of_score s done))
of_score-sort_hits s done (c ∷ cs) h =
    of_score-sort_hits s (insert_hit c done) cs (insert_hit-Falls c done h)
    ∙ ap (λ (l : List Chunk). l ++ of_score s cs) (of_score-insert_hit s c done h)
    ∙ append_assoc (of_score s done) (of_score s (c ∷ [])) (of_score s cs)
    ∙ ap (λ (l : List Chunk). of_score s done ++ l)
        (sym (filter-append (λ c. c.score == s) (c ∷ []) cs))

-- The first `k` hits of a stable order of all, by falling score.
pub record IsRanked (k : ℕ) (all hits : List Chunk) : Type 0 where
  pub rest : List Chunk
  pub falls : Falls (hits ++ rest)
  pub stable : (s : ℕ) → of_score s (hits ++ rest) ≡ of_score s all
  pub most : length hits ≡ min k (length (hits ++ rest))

pub ranked-IsRanked : (k : ℕ) (all : List Chunk) → IsRanked k all (ranked k all)
ranked-IsRanked k all =
    let sorted = sort_hits [] all in
    let whole = take-append-drop k sorted in
    record {
      rest = drop k sorted;
      falls = subst Falls (sym whole) (sort_hits-Falls [] all tt);
      stable = λ s. ap (of_score s) whole ∙ of_score-sort_hits s [] all tt;
      most = length-take k sorted ∙ ap (λ (l : List Chunk). min k (length l)) (sym whole);
    }

abbrev pub InList : Needle → List Needle → Type 0
InList n [] = ⊥
InList n (m ∷ ms) = (n ≡ m) ⊎ InList n ms

-- The highest score of the needles that a line has.
pub record IsBest (line : Text) (ns : List Needle) (best : ℕ) : Type 0 where
  pub needle : Needle
  pub among : InList needle ns
  pub found : contains line needle.text ≡ true
  pub score : needle.score ≡ best
  pub highest : All (λ (n : Needle). contains line n.text ≡ true → n.score ≤ best) ns

-- What the loop over the needles comes to.
abbrev Comes : Text → List Needle → ℕ × Bool → ℕ × Bool → Type 0
Comes line ns from result =
    (from.0 ≤ result.0)
    × All (λ (n : Needle). contains line n.text ≡ true → n.score ≤ result.0) ns
    × ((result ≡ from)
        ⊎ ((n : Needle) × InList n ns × (contains line n.text ≡ true) × (n.score ≡ result.0)))

-- A needle that the line has, and that scores more than what stood.
Comes-taken :
    (line : Text) (n : Needle) (ns : List Needle) (from result : ℕ × Bool)
    → (contains line n.text && ltb from.0 n.score) ≡ true
    → Comes line ns (n.score, true) result
    → Comes line (n ∷ ns) from result
Comes-taken line n ns from result e (le, all, last) =
    let (has, more) = both (contains line n.text) from.0 n.score e in
    (
      omega arith,
      ((λ h. le), all),
      inr (elim last [
        | inl same ↦ (n, inl refl, has, sym (ap (λ (r : ℕ × Bool). r.0) same))
        | inr (m, among, found, score) ↦ (m, inr among, found, score)
      ]),
    )
  where
    both : (b : Bool) (m k : ℕ) → (b && ltb m k) ≡ true → (b ≡ true) × (m < k)
    both b m k e = ground arith

Comes-passed :
    (line : Text) (n : Needle) (ns : List Needle) (from result : ℕ × Bool)
    → (contains line n.text && ltb from.0 n.score) ≡ false
    → Comes line ns from result
    → Comes line (n ∷ ns) from result
Comes-passed line n ns from result e (le, all, last) = (
  le,
  ((λ h. low (contains line n.text) from.0 n.score result.0 e h le), all),
  elim last [
    | inl same ↦ inl same
    | inr (m, among, found, score) ↦ inr (m, inr among, found, score)
  ],
)
  where
    low : (b : Bool) (m k r : ℕ) → (b && ltb m k) ≡ false → b ≡ true → m ≤ r → k ≤ r
    low b m k r e h le = ground arith

best_of-Comes :
    (line : Text) (ns : List Needle) (from : ℕ × Bool) → Comes line ns from (best_of line ns from)
best_of-Comes line [] from = (omega arith, tt, inl refl)
best_of-Comes line (n ∷ ns) from =
    let next = λ (b : Bool). if b then (n.score, true) else from in
    let P = λ (b : Bool). Comes line (n ∷ ns) from (best_of line ns (next b)) in
    elim (Bool-cases (contains line n.text && ltb from.0 n.score)) [
      | inl e ↦ subst P (sym e) (
          Comes-taken line n ns from (best_of line ns (n.score, true)) e
            (best_of-Comes line ns (n.score, true)))
      | inr e ↦
          subst P (sym e)
            (Comes-passed line n ns from (best_of line ns from) e (best_of-Comes line ns from))
    ]

pub best_of-IsBest :
    (line : Text) (ns : List Needle)
    → (best_of line ns (0, false)).1 ≡ true
    → IsBest line ns (best_of line ns (0, false)).0
best_of-IsBest line ns h =
    let (le, all, last) = best_of-Comes line ns (0, false) in
    elim last [
      | inl same ↦ absurd (not_found (sym (ap (λ (r : ℕ × Bool). r.1) same) ∙ h))
      | inr (n, among, found, score) ↦ record {
        needle = n;
        among = among;
        found = found;
        score = score;
        highest = all;
      }
    ]
  where
    not_found : false ≡ true → ⊥
    not_found e = ground arith
