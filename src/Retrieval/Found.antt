-- ===== src/Retrieval/Found.antt =====
-- retrieve/grep.go: what Retrieve finds.
use agent_go.Prelude.{
  ℕ, suc, ◌≡◌, refl, subst, true, List, [], ◌∷◌, All, All-append, Option, none, some, ◌⊎◌, inl, inr,
  Bool-cases, Option-cases, ltb,
}
use agent_go.Prelude.Int.{ℤ}
use agent_go.Text.{Text, codes, trim_space, to_lower, is_empty, has_prefix}
use agent_go.Errors.{Error}
use agent_go.Retrieval.{Chunk}
use agent_go.Retrieval.Needles.{Scripts, Needle, line_score, grep_needles}
use agent_go.Retrieval.Grep.{
  Node, Nodes, file, dir, nil, more, GrepLimits, file_limit, hit_limit, snippet, Walk, Walked, on,
  stopped, failed, line_hits, file_hits, is_skipped, scan_file, under, seeing, and_on, at_file,
  at_dir, walk_node, walk_nodes, empty_walk, grep_walk, grep_retrieve, walk_result,
}
use agent_go.Retrieval.Ranking.{IsRanked, ranked-IsRanked, IsBest, best_of-IsBest}

-- A hit shows a line, with the score of the best needle in it.
abbrev pub IsHit : Scripts → List Needle → Chunk → Type 0
IsHit u needles c =
    (line : Text) × IsBest (to_lower u.tables line) needles c.score × (c.text ≡ snippet line)

abbrev pub found_by : Walked → List Chunk
found_by (on w) = w.out
found_by (stopped w) = w.out
found_by (failed e) = []

line_score-IsBest :
    (u : Scripts) (needles : List Needle) (line : Text)
    → (line_score u line needles).1 ≡ true
    → IsBest (to_lower u.tables line) needles (line_score u line needles).0
unfolding line_score
line_score-IsBest u needles line h = best_of-IsBest (to_lower u.tables line) needles h

module _ (u : Scripts) (limits : GrepLimits) (needles : List Needle)
    (ctx_err : ℕ → Option Error) where
  line_hits-IsHit :
      (rel : Text) (n : ℕ) (ls : List Text)
      → All (IsHit u needles) (line_hits u limits needles ctx_err rel n ls)
  unfolding line_hits
  line_hits-IsHit rel n [] = tt
  line_hits-IsHit rel n (l ∷ ls) = elim (Bool-cases (line_score u l needles).1) [
    | inl e ↦ rw e ((l, line_score-IsBest u needles l e, refl), line_hits-IsHit rel (suc n) ls)
    | inr e ↦ rw e (line_hits-IsHit rel (suc n) ls)
  ]

  file_hits-IsHit :
      (rel : Text) (content : Option Text)
      → All (IsHit u needles) (file_hits u limits needles ctx_err rel content)
  file_hits-IsHit rel none = tt
  file_hits-IsHit rel (some s) = line_hits-IsHit rel 1 _

  abbrev Sound : Walked → Type 0
  Sound r = All (IsHit u needles) (found_by r)

  scan_file-Sound :
      (rel : Text) (content : Option Text) (w : Walk)
      → All (IsHit u needles) w.out
      → Sound (scan_file u limits needles ctx_err rel content w)
  scan_file-Sound rel content w h = elim (Bool-cases (ltb (file_limit limits) (suc w.scanned))) [
    | inl e ↦ rw e h
    | inr e ↦ rw e (All-append (IsHit u needles) w.out _ h (file_hits-IsHit rel content))
  ]

  seeing-Sound :
      (w : Walk) (f : Walk → Walked)
      → All (IsHit u needles) w.out
      → ((v : Walk) → All (IsHit u needles) v.out → Sound (f v))
      → Sound (seeing u limits needles ctx_err w f)
  seeing-Sound w f h g = elim (Option-cases (ctx_err w.seen)) [
    | inl e ↦ rw (seeing, e) (g (record w { seen = suc w.seen }) h)
    | inr (x, e) ↦ rw (seeing, e) tt
  ]

  and_on-Sound :
      (r : Walked) (f : Walk → Walked)
      → Sound r
      → ((v : Walk) → All (IsHit u needles) v.out → Sound (f v))
      → Sound (and_on u limits needles ctx_err r f)
  and_on-Sound (on w) f h g = g w h
  and_on-Sound (stopped w) f h g = h
  and_on-Sound (failed e) f h g = tt

  at_file-Sound :
      (base name : Text) (content : Option Text) (w : Walk)
      → All (IsHit u needles) w.out
      → Sound (at_file u limits needles ctx_err base name content w)
  at_file-Sound base name content w h =
      elim (Bool-cases (is_skipped u limits needles ctx_err name)) [
        | inl e ↦ rw e h
        | inr e ↦ rw e (scan_file-Sound _ content w h)
      ]

  at_dir-Sound :
      (name : Text) (below : Walk → Walked) (w : Walk)
      → All (IsHit u needles) w.out
      → Sound (below w)
      → Sound (at_dir u limits needles ctx_err name below w)
  at_dir-Sound name below w h g = elim (Bool-cases (has_prefix name (codes "."))) [
    | inl e ↦ rw e h
    | inr e ↦ rw e g
  ]

  mutual
    unfolding walk_node walk_nodes

    walk_node-Sound :
        (base : Text) (n : Node) (w : Walk)
        → All (IsHit u needles) w.out
        → Sound (walk_node u limits needles ctx_err base n w)
    walk_node-Sound base (file name content) w h =
        seeing-Sound w (at_file u limits needles ctx_err base name content) h
          (at_file-Sound base name content)
    walk_node-Sound base (dir name below) w h =
        let inside =
          walk_nodes u limits needles ctx_err (under u limits needles ctx_err base name) below in
        seeing-Sound w (at_dir u limits needles ctx_err name inside) h
          (λ v g. at_dir-Sound name inside v g (walk_nodes-Sound _ below v g))

    walk_nodes-Sound :
        (base : Text) (ns : Nodes) (w : Walk)
        → All (IsHit u needles) w.out
        → Sound (walk_nodes u limits needles ctx_err base ns w)
    walk_nodes-Sound base nil w h = h
    walk_nodes-Sound base (more n ns) w h =
        and_on-Sound (walk_node u limits needles ctx_err base n w)
          (walk_nodes u limits needles ctx_err base ns) (walk_node-Sound base n w h)
          (λ v g. walk_nodes-Sound base ns v g)

ok-inj : (a b : List Chunk) → ◌≡◌ {A = List Chunk ⊎ Error} (inl a) (inl b) → a ≡ b
ok-inj a b h = cc

no_error : (a : List Chunk) (e : Error) → ◌≡◌ {A = List Chunk ⊎ Error} (inr e) (inl a) → ⊥
no_error a e h = cc

grep_walk-Sound :
    (u : Scripts) (limits : GrepLimits) (ctx_err : ℕ → Option Error) (tree : Nodes) (query : Text)
    → All (IsHit u (grep_needles u query)) (found_by (grep_walk u limits ctx_err tree query))
unfolding walk_nodes
grep_walk-Sound u limits ctx_err tree query =
    let needles = grep_needles u query in
    seeing-Sound u limits needles ctx_err empty_walk (walk_nodes u limits needles ctx_err [] tree)
      tt (λ v h. walk_nodes-Sound u limits needles ctx_err [] tree v h)

walk_result-IsRanked :
    (k : ℕ) (r : Walked) (hits : List Chunk)
    → walk_result k r ≡ inl hits
    → IsRanked k (found_by r) hits
walk_result-IsRanked k (on w) hits e =
    subst (IsRanked k w.out) (ok-inj _ hits e) (ranked-IsRanked k w.out)
walk_result-IsRanked k (stopped w) hits e =
    subst (IsRanked k w.out) (ok-inj _ hits e) (ranked-IsRanked k w.out)
walk_result-IsRanked k (failed x) hits e = absurd (no_error hits x e)

-- If Retrieve gives hits and no error, then they are the first k, or all, of an order of the hits
-- that the walk found by falling score, stable within each score (k is that of the query, or else
-- MaxHits, or else 20), and each hit found shows a line, cut to its length, with the score of a
-- needle that the line has and that no needle it has exceeds.
pub grep_retrieve-IsRanked :
    (u : Scripts) (limits : GrepLimits) (now : Option Error) (ctx_err : ℕ → Option Error)
    (tree : Nodes) (text : Text) (k : ℤ) (hits : List Chunk)
    → grep_retrieve u limits now ctx_err tree text k ≡ inl hits
    → let all = found_by (grep_walk u limits ctx_err tree (trim_space text)) in
      IsRanked (hit_limit limits k) all hits × All (IsHit u (grep_needles u (trim_space text))) all
unfolding grep_retrieve
grep_retrieve-IsRanked u limits now ctx_err tree text k hits h = elim (Option-cases now) [
  | inr (x, e) ↦ absurd (no_error hits x (rw e at h))
  | inl e ↦ elim (Bool-cases (is_empty (trim_space text))) [
    | inl d ↦ absurd (no_error hits _ (rw d at (rw e at h)))
    | inr d ↦ (
      walk_result-IsRanked (hit_limit limits k) _ hits (rw d at (rw e at h)),
      grep_walk-Sound u limits ctx_err tree (trim_space text),
    )
  ]
]
