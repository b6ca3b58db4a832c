-- ===== src/Agent/Fold/Whole.antt =====
-- foldOldTurns of agent/fold.go: the user messages, and folding a second time.
use agent_go.Prelude.{
  ℕ, ◌-◌, ◌≤◌, ◌<◌, ◌≡◌, refl, sym, ap, ap₂, ◌∙◌, Bool, List, [], ◌∷◌, ◌++◌, map, arith, length,
  All, Bool-cases, inl, inr, leb, leb→lt, take, length-append, subst, concat, filter-append,
  take-length-append, drop-length-append, length-map,
}
use agent_go.Llm.{Message, is_user}
use agent_go.Agent.Turns.{Turn, split_user_turns, join_turns}
use agent_go.Agent.Turns.Shape.{IsTurn, NotUser, join_turns-split_user_turns}
use agent_go.Agent.Fold.{fold_one_user_turn, fold_turns, fold_but}
use agent_go.Agent.Fold.Shape.{
  IsExchange, fold_one_user_turn-IsExchange, IsExchange-IsTurn, fold_one_user_turn-IsExchange_id,
}
use agent_go.Agent.Fold.Folding.{
  fold_turns-eq-map, Folds, fold_but-Folds, users_of, old_turns, out_eq, All-exchanges,
}

users_bare : (msgs : List Message) → All NotUser msgs → users_of msgs ≡ []
users_bare [] h = refl
users_bare (m ∷ msgs) h = rw (h.0) (users_bare msgs h.1)

users_of-fold_one : (t : Turn) → IsTurn t → users_of (fold_one_user_turn t) ≡ users_of t
users_of-fold_one t h =
    same (fold_one_user_turn t) (IsExchange-IsTurn _ (fold_one_user_turn-IsExchange t h)) t h
      (head t h)
  where
    head : (t : Turn) → IsTurn t → take 1 (fold_one_user_turn t) ≡ take 1 t
    head [] h = absurd h
    head (u ∷ rest) h = unfold fold_one_user_turn in rw (h.0)

    same :
        (a : Turn)
        → IsTurn a
        → (b : Turn) → IsTurn b
        → take 1 a ≡ take 1 b
        → users_of a ≡ users_of b
    same [] ha b hb e = absurd ha
    same (x ∷ a) ha [] hb e = absurd hb
    same (x ∷ a) ha (y ∷ b) hb e = rw (ha.0, hb.0) (rw (users_bare a ha.1, users_bare b hb.1) e)

users_of-concat :
    (old recent : List Turn)
    → All IsTurn (old ++ recent)
    → users_of (concat (map fold_one_user_turn old ++ recent)) ≡ users_of (concat (old ++ recent))
users_of-concat [] recent h = refl
users_of-concat (t ∷ old) recent h =
    filter-append is_user_message (fold_one_user_turn t)
      (concat (map fold_one_user_turn old ++ recent))
    ∙ ap₂ (λ (a b : List Message). a ++ b) (users_of-fold_one t h.0)
        (users_of-concat old recent h.1)
    ∙ sym (filter-append is_user_message t (concat (old ++ recent)))
  where
    is_user_message : Message → Bool
    is_user_message m = is_user m.role

module _ {keep : ℕ} {msgs out : List Message} (f : Folds keep msgs out) where
  -- Every user message stays, and none comes.
  pub Folds-users_of : users_of out ≡ users_of msgs
  unfolding join_turns
  Folds-users_of =
      ap users_of (out_eq f)
      ∙ filter-append is_user_message prefix (concat (map fold_one_user_turn f.old ++ f.recent))
      ∙ ap (λ l. users_of prefix ++ l)
          (users_of-concat f.old f.recent (old_turns f) ∙ ap (λ l. users_of (concat l)) f.whole)
      ∙ sym (filter-append is_user_message prefix (concat (split_user_turns msgs).1))
      ∙ ap users_of (join_turns-split_user_turns msgs)
    where
      is_user_message : Message → Bool
      is_user_message m = is_user m.role

      prefix : List Message
      prefix = (split_user_turns msgs).0

exchanges_id : (ts : List Turn) → All IsExchange ts → map fold_one_user_turn ts ≡ ts
exchanges_id [] h = refl
exchanges_id (t ∷ ts) h =
    ap₂ (λ (a : Turn) (b : List Turn). a ∷ b) (fold_one_user_turn-IsExchange_id t h.0)
      (exchanges_id ts h.1)

fold_turns_fixed :
    (done recent : List Turn) (keep : ℕ)
    → All IsExchange done
    → keep < length (done ++ recent)
    → length recent ≤ keep
    → (0 < length done → length recent ≡ keep)
    → (fold_turns (length (done ++ recent) - keep) (done ++ recent)).0 ≡ done ++ recent
fold_turns_fixed done recent keep x long few exact =
    let n : length (done ++ recent) - keep ≡ length done =
      omega (arith, length-append done recent, exact (omega (arith, length-append done recent))) in
    rw n (
      fold_turns-eq-map (length done) (done ++ recent)
      ∙ ap₂ (λ (a b : List Turn). map fold_one_user_turn a ++ b) (take-length-append done recent)
          (drop-length-append done recent)
      ∙ ap (λ (l : List Turn). l ++ recent) (exchanges_id done x))

fold_but_again :
    (keep : ℕ) (msgs out : List Message) → Folds keep msgs out → (fold_but keep out).0 ≡ out
unfolding fold_but
fold_but_again keep msgs out f =
    let turns : List Turn = map fold_one_user_turn f.old ++ f.recent in
    let found : (split_user_turns out).1 ≡ turns =
      ap (λ (s : List Message × List Turn). s.1) f.split in
    elim (Bool-cases (leb (length (split_user_turns out).1) keep)) [
      | inl e ↦ rw e
      | inr e ↦ rw e (
          ap (join_turns (split_user_turns out).0) (
            subst (λ (ts : List Turn). (fold_turns (length ts - keep) ts).0 ≡ ts) (sym found)
              (fold_turns_fixed (map fold_one_user_turn f.old) f.recent keep
                (All-exchanges f f.old f.recent (old_turns f))
                (subst (λ (ts : List Turn). keep < length ts) found (leb→lt _ _ e)) f.few
                (λ lt. f.exact (omega (arith, length-map fold_one_user_turn f.old)))))
          ∙ join_turns-split_user_turns out)
    ]

-- Folding a conversation a second time, with the same number of recent turns, changes nothing.
pub fold_but_idem :
    (keep : ℕ) (msgs : List Message)
    → (fold_but keep (fold_but keep msgs).0).0 ≡ (fold_but keep msgs).0
fold_but_idem keep msgs = fold_but_again keep msgs (fold_but keep msgs).0 (fold_but-Folds keep msgs)
