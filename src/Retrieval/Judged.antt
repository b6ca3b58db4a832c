-- ===== src/Retrieval/Judged.antt =====
-- rag/eval.go: what is counted.
use agent_go.Prelude.{
  ℕ, ◌+◌, ◌≡◌, refl, sym, ◌∙◌, ap, ap₂, Bool, true, false, ◌&&◌, ◌||◌, List, [], ◌∷◌, ◌++◌, ◌⊎◌,
  inl, inr, if◌then◌else◌, any, length, Bool-cases, arith, append_assoc, append-nil,
}
use agent_go.Prelude.Int.{ℤ}
use agent_go.Text.{Text, CaseTables, trim_space, is_nil, to_lower}
use agent_go.Errors.{Error}
use agent_go.Retrieval.{Chunk}
use agent_go.Retrieval.Evaluation.{
  Case, Result, Report, path_matches, no_substr, matches_first, with_first, empty_result, cases_k,
  is_inside, scan_substr, scan_hits, set_hit, set_top1, judge, one_if, add_result, evaluate_from,
  evaluate,
}

-- A case with what the retriever answered.
abbrev pub Answered : Type 0
Answered = Case × (List Chunk ⊎ Error)

module _ (u : CaseTables) where
  -- A hit has a path that matches, if one is expected, and a hit has one of the texts, if any are.
  abbrev pub should_hit : Answered → Bool
  should_hit (c, inr e) = false
  should_hit (c, inl hits) =
      (is_nil (trim_space c.expect_path)
        || any (λ (h : Chunk). path_matches h.path (trim_space c.expect_path)) hits)
      && (no_substr c.expect_substr
          || any (λ (h : Chunk). any (is_inside u (to_lower u h.text)) c.expect_substr) hits)

  abbrev pub should_top1 : Answered → Bool
  should_top1 (c, inr e) = false
  should_top1 (c, inl hits) = matches_first (trim_space c.expect_path) hits

  scan_substr-any :
      (blob : Text) (ss : List Text) (ok : Bool)
      → scan_substr u blob ss ok ≡ (ok || any (is_inside u blob) ss)
  unfolding scan_substr
  scan_substr-any blob [] true = refl
  scan_substr-any blob [] false = refl
  scan_substr-any blob (s ∷ ss) ok = elim (Bool-cases (is_inside u blob s)) [
    | inl e ↦ rw e (scan_substr-any blob ss true ∙ or_true ok)
    | inr e ↦ rw e (scan_substr-any blob ss ok)
  ]
    where
      or_true : (b : Bool) → true ≡ (b || true)
      or_true true = refl
      or_true false = refl

  or_later : (a b r : Bool) → ((if a then true else b) || r) ≡ (b || (a || r))
  or_later true true r = refl
  or_later true false r = refl
  or_later false b r = refl

  or_inside : (a b r : Bool) → ((b || a) || r) ≡ (b || (a || r))
  or_inside a true r = refl
  or_inside a false r = refl

  scan_hits-any :
      (want : Text) (ss : List Text) (hits : List Chunk) (p s : Bool)
      → scan_hits u want ss hits p s ≡ (
        p || any (λ (h : Chunk). path_matches h.path want) hits,
        s || any (λ (h : Chunk). any (is_inside u (to_lower u h.text)) ss) hits,
      )
  unfolding scan_hits
  scan_hits-any want ss [] true true = refl
  scan_hits-any want ss [] true false = refl
  scan_hits-any want ss [] false true = refl
  scan_hits-any want ss [] false false = refl
  scan_hits-any want ss (h ∷ hs) p s =
      let later = scan_substr-any (to_lower u h.text) ss s in
      let texts : Bool = any (λ (h : Chunk). any (is_inside u (to_lower u h.text)) ss) hs in
      let paths : Bool = any (λ (h : Chunk). path_matches h.path want) hs in
      let here : Bool = any (is_inside u (to_lower u h.text)) ss in
      scan_hits-any want ss hs (if path_matches h.path want then true else p)
        (scan_substr u (to_lower u h.text) ss s)
      ∙ ap₂ (λ (a b : Bool). (a, b)) (or_later (path_matches h.path want) p paths)
          (ap (λ (b : Bool). b || texts) later ∙ or_inside here s texts)

  set_hit-hit :
      (v : Bool × Bool) (item : Result) → item.hit ≡ false → (set_hit u v item).hit ≡ (v.0 && v.1)
  set_hit-hit (true, true) item h = refl
  set_hit-hit (true, false) item h = h
  set_hit-hit (false, s) item h = h

  set_hit-rest :
      (v : Bool × Bool) (item : Result)
      → ((set_hit u v item).top1 ≡ item.top1) × ((set_hit u v item).id ≡ item.id)
  set_hit-rest (true, true) item = (refl, refl)
  set_hit-rest (true, false) item = (refl, refl)
  set_hit-rest (false, s) item = (refl, refl)

  with_first-rest :
      (hits : List Chunk) (id : Text)
      → ((with_first hits (empty_result id)).hit ≡ false)
        × ((with_first hits (empty_result id)).top1 ≡ false)
        × ((with_first hits (empty_result id)).id ≡ id)
  with_first-rest [] id = (refl, refl, refl)
  with_first-rest (h ∷ hs) id = (refl, refl, refl)

  set_top1-rest :
      (b : Bool) (item : Result)
      → item.top1 ≡ false
      → ((set_top1 u b item).hit ≡ item.hit)
        × ((set_top1 u b item).top1 ≡ b)
        × ((set_top1 u b item).id ≡ item.id)
  set_top1-rest true item h = (refl, refl, refl)
  set_top1-rest false item h = (refl, h, refl)

  -- What is kept of an item, and what it should be.
  abbrev pub verdict : Result → Text × (Bool × Bool)
  verdict r = (r.id, (r.hit, r.top1))

  abbrev pub should_be : Answered → Text × (Bool × Bool)
  should_be a = (a.0.id, (should_hit a, should_top1 a))

  judge-verdict : (c : Case) (a : List Chunk ⊎ Error) → verdict (judge u c a) ≡ should_be (c, a)
  unfolding judge
  judge-verdict c (inr e) = refl
  judge-verdict c (inl hits) =
      let want = trim_space c.expect_path in
      let first = with_first hits (empty_result c.id) in
      let (no_hit, no_top1, same_id) = with_first-rest hits c.id in
      let (kept_hit, top1, kept_id) = set_top1-rest (matches_first want hits) first no_top1 in
      let item = set_top1 u (matches_first want hits) first in
      let v = scan_hits u want c.expect_substr hits (is_nil want) (no_substr c.expect_substr) in
      let (rest_top1, rest_id) = set_hit-rest v item in
      let found =
        scan_hits-any want c.expect_substr hits (is_nil want) (no_substr c.expect_substr) in
      ap₂ (λ (i : Text) (b : Bool × Bool). (i, b)) (rest_id ∙ kept_id ∙ same_id)
        (ap₂ (λ (a b : Bool). (a, b))
          (set_hit-hit v item (kept_hit ∙ no_hit) ∙ ap (λ (b : Bool × Bool). b.0 && b.1) found)
          (rest_top1 ∙ top1))

  abbrev pub verdicts : List Result → List (Text × (Bool × Bool))
  verdicts [] = []
  verdicts (r ∷ rs) = verdict r ∷ verdicts rs

  abbrev pub should_all : List Answered → List (Text × (Bool × Bool))
  should_all [] = []
  should_all (a ∷ got) = should_be a ∷ should_all got

  abbrev pub count : (Answered → Bool) → List Answered → ℕ
  count p [] = 0
  count p (a ∷ got) = one_if u (p a) + count p got

  add_moved : {x y : ℕ} (a r : ℕ) → x ≡ y → a + x + r ≡ a + (y + r)
  add_moved a r e = omega (arith, e)

  verdicts-append : (xs ys : List Result) → verdicts (xs ++ ys) ≡ verdicts xs ++ verdicts ys
  verdicts-append [] ys = refl
  verdicts-append (x ∷ xs) ys = ap (λ l. verdict x ∷ l) (verdicts-append xs ys)

  module _ {W : Type 0} (retrieve : Text → ℤ → W → (List Chunk ⊎ Error) × W) where
    -- The answers to the questions, one after the other.
    abbrev pub answers : ℤ → List Case → W → List Answered
    answers k [] w = []
    answers k (c ∷ cs) w =
        (c, (retrieve c.question k w).0) ∷ answers k cs (retrieve c.question k w).1

    -- A report counts what these answers should count, and has an item for each in their order.
    pub record IsReport (total hits top1_hits : ℕ) (items : List Result) (got : List Answered)
        (rep : Report) : Type 0 where
      pub all : rep.total ≡ total
      pub found : rep.hits ≡ hits + count should_hit got
      pub first : rep.top1_hits ≡ top1_hits + count should_top1 got
      pub each : verdicts rep.items ≡ verdicts items ++ should_all got

    evaluate_from-IsReport :
        (k : ℤ) (cs : List Case) (rep : Report) (w : W)
        → IsReport rep.total rep.hits rep.top1_hits rep.items
            (answers k cs w)
            (evaluate_from u retrieve k cs rep w).0
    unfolding evaluate_from
    evaluate_from-IsReport k [] rep w = record {
      all = refl;
      found = omega arith;
      first = omega arith;
      each = sym (append-nil (verdicts rep.items));
    }
    evaluate_from-IsReport k (c ∷ cs) rep w =
        let answer = (retrieve c.question k w).0 in
        let item = judge u c answer in
        let v = judge-verdict c answer in
        let hit : one_if u item.hit ≡ one_if u (should_hit (c, answer)) =
          ap (λ (t : Text × (Bool × Bool)). one_if u t.1.0) v in
        let top1 : one_if u item.top1 ≡ one_if u (should_top1 (c, answer)) =
          ap (λ (t : Text × (Bool × Bool)). one_if u t.1.1) v in
        let rest = answers k cs (retrieve c.question k w).1 in
        let later =
          evaluate_from-IsReport k cs (add_result u item rep) (retrieve c.question k w).1 in
        record {
          all = later.all;
          found = later.found ∙ add_moved rep.hits (count should_hit rest) hit;
          first = later.first ∙ add_moved rep.top1_hits (count should_top1 rest) top1;
          each =
              later.each
              ∙ (ap (λ l. l ++ should_all rest) (verdicts-append rep.items (item ∷ []))
                  ∙ (append_assoc (verdicts rep.items) (verdict item ∷ []) (should_all rest)
                      ∙ ap (λ x. verdicts rep.items ++ (x ∷ should_all rest)) v));
        }

    -- Whatever the cases, the limit and the retriever, Evaluate gives a report whose total is the
    -- number of cases, whose items name the cases in their order, and whose items and counts say
    -- of exactly those cases hit that were answered without an error, by some path that matches,
    -- if one is expected, and some text with one of the expected parts that are not empty, if
    -- parts are expected; and top1 of exactly those whose first answer has a matching path.
    pub evaluate-IsReport :
        (cases : List Case) (k : ℤ) (w : W)
        → IsReport
            (length cases)
            0
            0
            []
            (answers (cases_k k) cases w)
            (evaluate u retrieve cases k w).0
    unfolding evaluate
    evaluate-IsReport cases k w =
        evaluate_from-IsReport (cases_k k) cases
          (record { total = length cases; hits = 0; top1_hits = 0; items = [] }) w
