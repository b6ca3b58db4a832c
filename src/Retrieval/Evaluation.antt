-- ===== src/Retrieval/Evaluation.antt =====
-- rag/eval.go: how well a retriever answers questions whose documents are known.
use agent_go.Prelude.{
  ℕ, suc, zero, ◌+◌, Bool, true, false, ◌&&◌, ◌||◌, List, [], ◌∷◌, ◌++◌, ◌⊎◌, inl, inr,
  if◌then◌else◌, ◌==◌, not, length,
}
use agent_go.Prelude.Int.{ℤ, pos, negsuc}
use agent_go.Text.{
  Text, CaseTables, codes, trim_space, is_nil, text_eq, contains, to_lower, decimal, join,
}
use agent_go.Errors.{Error}
use agent_go.Retrieval.{Chunk}

pub record Case : Type 0 where
  pub id : Text
  pub question : Text
  pub expect_path : Text
  pub expect_substr : List Text

pub record Result : Type 0 where
  pub id : Text
  pub hit : Bool
  pub top1 : Bool
  pub path : Text
  pub snippet : Text
  pub score : ℕ
  pub reason : Text

pub record Report : Type 0 where
  pub total : ℕ
  pub hits : ℕ
  pub top1_hits : ℕ
  pub items : List Result

-- `strings.HasSuffix`
unfoldable pub has_suffix : Text → Text → Bool
unfolding text_eq
has_suffix [] suffix = text_eq [] suffix
has_suffix (c ∷ s) suffix = text_eq (c ∷ s) suffix || has_suffix s suffix

-- pathMatches
unfoldable pub path_matches : Text → Text → Bool
unfolding text_eq has_suffix contains is_nil
path_matches got want =
    if is_nil want
    then true
    else text_eq got want || (has_suffix got (47 ∷ want) || contains got want)

abbrev pub no_substr : List Text → Bool
no_substr [] = true
no_substr (s ∷ ss) = false

abbrev pub matches_first : Text → List Chunk → Bool
matches_first want [] = false
matches_first want (h ∷ hs) = path_matches h.path want

abbrev pub with_first : List Chunk → Result → Result
with_first [] item = item
with_first (h ∷ hs) item = record item { path = h.path; snippet = h.text; score = h.score }

abbrev pub empty_result : Text → Result
empty_result id = record {
  id = id;
  hit = false;
  top1 = false;
  path = [];
  snippet = [];
  score = 0;
  reason = [];
}

-- `if k <= 0 { k = 5 }`
abbrev pub cases_k : ℤ → ℤ
cases_k (pos zero) = pos 5
cases_k (pos (suc n)) = pos (suc n)
cases_k (negsuc n) = pos 5

module _ (u : CaseTables) where
  abbrev pub is_inside : Text → Text → Bool
  is_inside blob s = not (is_nil s) && contains blob (to_lower u s)

  -- The loop over ExpectSubstr, with substrOK.
  unfoldable pub scan_substr : Text → List Text → Bool → Bool
  unfolding contains to_lower is_nil
  scan_substr blob [] ok = ok
  scan_substr blob (s ∷ ss) ok = scan_substr blob ss (if is_inside blob s then true else ok)

  -- The loop over the hits, with pathOK and substrOK.
  unfoldable pub scan_hits : Text → List Text → List Chunk → Bool → Bool → Bool × Bool
  unfolding scan_substr path_matches to_lower
  scan_hits want subs [] path_ok substr_ok = (path_ok, substr_ok)
  scan_hits want subs (h ∷ hs) path_ok substr_ok =
      scan_hits want subs hs (if path_matches h.path want then true else path_ok)
        (scan_substr (to_lower u h.text) subs substr_ok)

  abbrev pub set_hit : Bool × Bool → Result → Result
  set_hit (path_ok, substr_ok) item =
      if path_ok && substr_ok
      then record item { hit = true }
      else record item { reason = codes "miss" }

  abbrev pub set_top1 : Bool → Result → Result
  set_top1 matches item = if matches then record item { top1 = true } else item

  -- The body of the loop over the cases.
  unfoldable pub judge : Case → List Chunk ⊎ Error → Result
  unfolding scan_hits trim_space is_nil
  judge c (inr e) = record (empty_result c.id) { reason = e.text }
  judge c (inl hits) =
      let want = trim_space c.expect_path in
      set_hit (scan_hits want c.expect_substr hits (is_nil want) (no_substr c.expect_substr))
        (set_top1 (matches_first want hits) (with_first hits (empty_result c.id)))

  abbrev pub one_if : Bool → ℕ
  one_if b = if b then 1 else 0

  abbrev pub add_result : Result → Report → Report
  add_result item rep = record rep {
    hits = rep.hits + one_if item.hit;
    top1_hits = rep.top1_hits + one_if item.top1;
    items = rep.items ++ (item ∷ []);
  }

  module _ {W : Type 0} (retrieve : Text → ℤ → W → (List Chunk ⊎ Error) × W) where
    unfoldable pub evaluate_from : ℤ → List Case → Report → W → Report × W
    unfolding judge
    evaluate_from k [] rep w = (rep, w)
    evaluate_from k (c ∷ cs) rep w =
        let (answer, v) = retrieve c.question k w in
        evaluate_from k cs (add_result (judge c answer) rep) v

    -- Evaluate
    unfoldable pub evaluate : List Case → ℤ → W → Report × W
    unfolding evaluate_from
    evaluate cases k w =
        evaluate_from (cases_k k) cases
          (record { total = length cases; hits = 0; top1_hits = 0; items = [] }) w

abbrev pub missed : List Result → List Text
missed [] = []
missed (r ∷ rs) = if r.hit then missed rs else r.id ∷ missed rs

abbrev pub scores : Report → Text
scores r =
    codes "recall@k="
    ++ (decimal r.hits
        ++ (codes "/"
            ++ (decimal r.total
                ++ (codes " top1=" ++ (decimal r.top1_hits ++ (codes "/" ++ decimal r.total))))))

-- (Report).Format
unfoldable pub format_report : Report → Text
unfolding decimal join
format_report r =
    if r.total == r.hits
    then scores r
    else scores r ++ (codes " miss=" ++ join (codes ",") (missed r.items))
