-- ===== src/Agent/Fold/Folding.antt =====
-- foldOldTurns of agent/fold.go against its description.
use agent_go.Prelude.{
  ℕ, zero, suc, ◌-◌, ◌≤◌, ◌<◌, ◌≡◌, refl, sym, ap, ◌∙◌, List, [], ◌∷◌, ◌++◌, map, arith, length,
  All, All-append, All-append_right, Bool-cases, inl, inr, leb, leb→le, leb→lt, take, drop,
  take-append-drop, length-drop, subst, concat, filter, All-drop, All-take,
}
use agent_go.Llm.{Message, is_user}
use agent_go.Agent.Turns.{Turn, split_user_turns, join_turns}
use agent_go.Agent.Turns.Shape.{
  IsTurn, IsSplit, split_user_turns-IsSplit, join_turns-split_user_turns,
  split_user_turns-join_turns,
}
use agent_go.Agent.Protocol.{IsPaired}
use agent_go.Agent.Protocol.Cutting.{split_user_turns-IsPaired, join_turns-IsPaired}
use agent_go.Agent.Spoken.{
  StartsWithUser, spoken, spoken-append, spoken-prefix, spoken-concat-StartsWithUser,
}
use agent_go.Agent.Fold.{fold_one_user_turn, fold_turns, fold_but}
use agent_go.Agent.Fold.Shape.{
  IsExchange, fold_one_user_turn-IsExchange, IsExchange-IsTurn, IsExchange-IsPaired,
}

pub fold_turns-eq-map :
    (n : ℕ) (turns : List Turn)
    → (fold_turns n turns).0 ≡ map fold_one_user_turn (take n turns) ++ drop n turns
unfolding fold_turns
fold_turns-eq-map zero turns = refl
fold_turns-eq-map (suc n) [] = refl
fold_turns-eq-map (suc n) (t ∷ turns) =
    ap (λ (l : List Turn). fold_one_user_turn t ∷ l) (fold_turns-eq-map n turns)

exchanges : (old : List Turn) → All IsTurn old → All IsExchange (map fold_one_user_turn old)
exchanges [] h = tt
exchanges (t ∷ old) h = (fold_one_user_turn-IsExchange t h.0, exchanges old h.1)

All-map {ℓ κ} :
    {A : Type ℓ} (P Q : A → Type κ) (xs : List A) → ((x : A) → P x → Q x) → All P xs → All Q xs
All-map P Q [] f h = tt
All-map P Q (x ∷ xs) f h = (f x h.0, All-map P Q xs f h.1)

-- foldOldTurns against its description.
pub record Folds (keep : ℕ) (msgs out : List Message) : Type 0 where
  pub old : List Turn
  pub recent : List Turn
  pub whole : old ++ recent ≡ (split_user_turns msgs).1
  pub few : length recent ≤ keep
  pub exact : 0 < length old → length recent ≡ keep
  pub split :
      split_user_turns out ≡ ((split_user_turns msgs).0, map fold_one_user_turn old ++ recent)

Folds-none :
    (keep : ℕ) (msgs : List Message)
    → length (split_user_turns msgs).1 ≤ keep
    → Folds keep msgs msgs
Folds-none keep msgs h = record {
  old = [];
  recent = (split_user_turns msgs).1;
  whole = refl;
  few = h;
  exact = λ lt. absurd (omega arith);
  split = refl;
}

folded-IsSplit :
    (n : ℕ) (prefix : List Message) (turns : List Turn)
    → IsSplit prefix turns
    → IsSplit prefix (map fold_one_user_turn (take n turns) ++ drop n turns)
folded-IsSplit n prefix turns s = record {
  bare_prefix = s.bare_prefix;
  all_turns =
      All-append IsTurn (map fold_one_user_turn (take n turns)) (drop n turns)
        (All-map IsExchange IsTurn _ IsExchange-IsTurn
          (exchanges (take n turns) (All-take IsTurn n turns s.all_turns)))
        (All-drop IsTurn n turns s.all_turns);
}

-- Folding all but the newest `keep` turns: the turns of the result are the old turns, each folded,
-- and then the recent turns unchanged, after the same prefix; at most `keep` turns are recent, and
-- exactly `keep` if any is old.
pub fold_but-Folds : (keep : ℕ) (msgs : List Message) → Folds keep msgs (fold_but keep msgs).0
unfolding fold_but
fold_but-Folds keep msgs =
    let turns : List Turn = (split_user_turns msgs).1 in
    let n : ℕ = length turns - keep in
    elim (Bool-cases (leb (length turns) keep)) [
      | inl e ↦ rw e (Folds-none keep msgs (leb→le _ _ e))
      | inr e ↦ rw e (record {
        old = take n turns;
        recent = drop n turns;
        whole = take-append-drop n turns;
        few = omega (arith, length-drop n turns, leb→lt _ _ e);
        exact = λ _. omega (arith, length-drop n turns, leb→lt _ _ e);
        split =
            ap split_user_turns
              (ap (join_turns (split_user_turns msgs).0) (fold_turns-eq-map n turns))
            ∙ split_user_turns-join_turns _ _
                (folded-IsSplit n _ turns (split_user_turns-IsSplit msgs));
      })
    ]

abbrev pub users_of : List Message → List Message
users_of msgs = filter (λ m. is_user m.role) msgs

module _ {keep : ℕ} {msgs out : List Message} (f : Folds keep msgs out) where
  pub old_turns : All IsTurn (f.old ++ f.recent)
  old_turns = subst (All IsTurn) (sym f.whole) (split_user_turns-IsSplit msgs).all_turns

  pub out_eq : out ≡ join_turns (split_user_turns msgs).0 (map fold_one_user_turn f.old ++ f.recent)
  out_eq =
      sym (join_turns-split_user_turns out)
      ∙ ap (λ (s : List Message × List Turn). join_turns s.0 s.1) f.split

  pub All-exchanges :
      (old recent : List Turn)
      → All IsTurn (old ++ recent)
      → All IsExchange (map fold_one_user_turn old)
  All-exchanges [] recent h = tt
  All-exchanges (t ∷ old) recent h =
      (fold_one_user_turn-IsExchange t h.0, All-exchanges old recent h.1)

  pub Folds-IsPaired : IsPaired msgs → IsPaired out
  Folds-IsPaired p =
      let (pp, pt) = split_user_turns-IsPaired msgs p in
      subst IsPaired (sym out_eq) (
        join_turns-IsPaired _ _ pp (
          All-append IsPaired (map fold_one_user_turn f.old) f.recent
            (All-map IsExchange IsPaired _ IsExchange-IsPaired
              (All-exchanges f.old f.recent old_turns))
            (All-append_right IsPaired f.old f.recent (subst (All IsPaired) (sym f.whole) pt))))

  pub Folds-StartsWithUser : StartsWithUser (spoken msgs) → StartsWithUser (spoken out)
  unfolding join_turns
  Folds-StartsWithUser s =
      let turns : List Turn = map fold_one_user_turn f.old ++ f.recent in
      let prefix : List Message = (split_user_turns msgs).0 in
      let all : All IsTurn turns =
        All-append IsTurn (map fold_one_user_turn f.old) f.recent
          (All-map IsExchange IsTurn _ IsExchange-IsTurn (All-exchanges f.old f.recent old_turns))
          (All-append_right IsTurn f.old f.recent old_turns) in
      subst StartsWithUser
        (sym (
          ap spoken out_eq
          ∙ spoken-append prefix (concat turns)
          ∙ ap (λ l. l ++ spoken (concat turns)) (spoken-prefix msgs s)))
        (spoken-concat-StartsWithUser turns all)
