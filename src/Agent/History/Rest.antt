-- ===== src/Agent/History/Rest.antt =====
-- What one removal of turns leaves of a history, and what a new summary changes.
use agent_go.Prelude.{
  ℕ, ◌+◌, ◌≤◌, ◌<◌, ◌≡◌, refl, sym, ap, ◌∙◌, ◌⊎◌, inl, inr, false, List, [], ◌∷◌, ◌++◌, arith,
  length, All, All-append_right, concat, concat-append, append_assoc, subst, length-append,
}
use agent_go.Prelude.Int.{ℤ}
use agent_go.Text.{Text}
use agent_go.Llm.{Message}
use agent_go.Agent.Turns.{Turn, Trimmed, split_user_turns, join_turns}
use agent_go.Agent.Turns.Shape.{
  IsTurn, IsSplit, split_user_turns-IsSplit, join_turns-split_user_turns,
}
use agent_go.Agent.Turns.Trim.{Trims}
use agent_go.Agent.Protocol.{IsPaired}
use agent_go.Agent.Protocol.Cutting.{split_user_turns-IsPaired, join_turns-IsPaired}
use agent_go.Agent.Summary.{upsert_summary}
use agent_go.Agent.Summary.Sticky.{upsert_summary-IsPaired, spoken-upsert_summary}
use agent_go.Agent.Spoken.{
  spoken, user_count, StartsWithUser, spoken-append, user_count-spoken, user_count-join_turns,
  spoken-prefix, spoken-concat-StartsWithUser,
}
use agent_go.Agent.History.{over_limit}

-- `h` is what is left of `whole`: calls and results are together, a user speaks first, and what is
-- said is the end of what was said, the newest user message with it.
pub record IsRest (whole h : List Message) : Type 0 where
  pub paired : IsPaired h
  pub start : StartsWithUser (spoken h)
  pub said : (older : List Message) × (spoken whole ≡ older ++ spoken h)
  pub users : 0 < user_count whole → 0 < user_count h

pub IsRest-refl : (h : List Message) → IsPaired h → StartsWithUser (spoken h) → IsRest h h
IsRest-refl h p s = record { paired = p; start = s; said = ([], refl); users = λ lt. lt }

module _ (msgs : List Message) (max : ℕ) (r : Trimmed) (t : Trims msgs max r) where
  shape : IsSplit (split_user_turns msgs).0 (split_user_turns msgs).1
  shape = split_user_turns-IsSplit msgs

  kept_turns : All IsTurn t.kept
  kept_turns =
      All-append_right IsTurn t.removed t.kept (subst (All IsTurn) (sym t.whole) shape.all_turns)

  user_count_out : user_count r.out ≡ length t.kept
  user_count_out =
      ap user_count t.out_eq ∙ user_count-join_turns _ t.kept shape.bare_prefix kept_turns

  user_count_msgs : user_count msgs ≡ length (split_user_turns msgs).1
  user_count_msgs =
      ap user_count (sym (join_turns-split_user_turns msgs))
      ∙ user_count-join_turns _ _ shape.bare_prefix shape.all_turns

  turns_length : length (split_user_turns msgs).1 ≡ length t.removed + length t.kept
  turns_length = ap length (sym t.whole) ∙ length-append t.removed t.kept

  pub Trims-user_count : user_count r.out + r.dropped_turns ≡ user_count msgs
  Trims-user_count = omega (arith, user_count_out, user_count_msgs, turns_length, t.count_eq)

  pub Trims-done : r.dropped_turns ≡ 0 → (length msgs ≤ max) ⊎ (user_count msgs ≤ 1)
  Trims-done e = go t.removed t.whole (omega (arith, t.count_eq)) t.fits
    where
      go :
          (removed : List Turn)
          → removed ++ t.kept ≡ (split_user_turns msgs).1
          → length removed ≡ 0
          → (length r.out ≤ max) ⊎ (length t.kept ≤ 1)
          → (length msgs ≤ max) ⊎ (user_count msgs ≤ 1)
      go [] w z (inl fits) = inl (
          subst (λ h. length h ≤ max)
            (t.out_eq
              ∙ ap (join_turns (split_user_turns msgs).0) w
              ∙ join_turns-split_user_turns msgs)
            fits)
      go [] w z (inr one) = inr (omega (arith, user_count_msgs, ap length w))
      go (x ∷ removed) w z f = absurd (omega arith)

  pub Trims-IsRest : IsPaired msgs → StartsWithUser (spoken msgs) → IsRest msgs r.out
  unfolding join_turns
  Trims-IsRest p s =
      let (pp, pt) = split_user_turns-IsPaired msgs p in
      let bare = spoken-prefix msgs s in
      record {
        paired = subst IsPaired (sym t.out_eq) (
            join_turns-IsPaired _ t.kept pp
              (All-append_right IsPaired t.removed t.kept (subst (All IsPaired) (sym t.whole) pt)));
        start =
            subst StartsWithUser (sym (out_said bare))
              (spoken-concat-StartsWithUser t.kept kept_turns);
        said = (
          spoken (concat t.removed),
          msgs_said bare ∙ ap (λ l. spoken (concat t.removed) ++ l) (sym (out_said bare)),
        );
        users = λ lt. omega (arith, user_count_out, user_count_msgs, t.one_left);
      }
    where
      out_said : spoken (split_user_turns msgs).0 ≡ [] → spoken r.out ≡ spoken (concat t.kept)
      out_said bare =
          ap spoken t.out_eq
          ∙ spoken-append (split_user_turns msgs).0 (concat t.kept)
          ∙ ap (λ l. l ++ spoken (concat t.kept)) bare

      msgs_said :
          spoken (split_user_turns msgs).0 ≡ []
          → spoken msgs ≡ spoken (concat t.removed) ++ spoken (concat t.kept)
      msgs_said bare =
          ap spoken (sym (join_turns-split_user_turns msgs))
          ∙ spoken-append (split_user_turns msgs).0 (concat (split_user_turns msgs).1)
          ∙ ap (λ l. l ++ spoken (concat (split_user_turns msgs).1)) bare
          ∙ ap (λ l. spoken (concat l)) (sym t.whole)
          ∙ ap spoken (concat-append t.removed t.kept)
          ∙ spoken-append (concat t.removed) (concat t.kept)

pub IsRest-trans : (a b c : List Message) → IsRest a b → IsRest b c → IsRest a c
IsRest-trans a b c x y = record {
  paired = y.paired;
  start = y.start;
  said = (
    x.said.0 ++ y.said.0,
    x.said.1 ∙ ap (λ l. x.said.0 ++ l) y.said.1 ∙ sym (append_assoc x.said.0 y.said.0 (spoken c)),
  );
  users = λ lt. y.users (x.users lt);
}

pub user_count-upsert_summary :
    (h : List Message) (body : Text) → user_count (upsert_summary h body) ≡ user_count h
user_count-upsert_summary h body =
    sym (user_count-spoken (upsert_summary h body))
    ∙ ap user_count (spoken-upsert_summary h body)
    ∙ user_count-spoken h

pub IsRest-upsert_summary :
    (whole h : List Message) (body : Text) → IsRest whole h → IsRest whole (upsert_summary h body)
IsRest-upsert_summary whole h body x = record {
  paired = upsert_summary-IsPaired h body x.paired;
  start = subst StartsWithUser (sym (spoken-upsert_summary h body)) x.start;
  said = (x.said.0, x.said.1 ∙ ap (λ l. x.said.0 ++ l) (sym (spoken-upsert_summary h body)));
  users = λ lt. omega (arith, user_count-upsert_summary h body, x.users lt);
}

-- Trimmed as far as whole turns allow.
abbrev pub IsTrimmed : ℤ → List Message → Type 0
IsTrimmed max h = (over_limit max h ≡ false) ⊎ (user_count h ≤ 1)
