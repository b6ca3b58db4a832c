-- ===== src/Agent/Turns/Trim.antt =====
-- trimByUserTurns of agent/history.go: what goes, and what is left.
use agent_go.Prelude.{
  ℕ, zero, suc, ◌≤◌, ◌<◌, ◌≡◌, refl, sym, ap, ◌∙◌, ◌⊎◌, inl, inr, List, [], ◌∷◌, ◌++◌, arith, ltb,
  leb, length, concat, drop, Bool-cases, leb→le, ltb→lt, ltb→le,
}
use agent_go.Prelude.Int.{pos}
use agent_go.Llm.{Message}
use agent_go.Agent.Turns.{
  Turn, split_user_turns, join_turns, count_messages, drop_turns, trim_split, trim_by_user_turns,
  Trimmed, untrimmed,
}
use agent_go.Agent.Turns.Shape.{join_turns-split_user_turns, count_messages-eq-length}

-- What one pass over the turns does: oldest turns go, the newest stays, and no more go than must.
pub record Drops (prefix : List Message) (max : ℕ) (turns removed rest : List Turn) : Type 0 where
  pub whole : removed ++ rest ≡ turns
  pub one_left : 0 < length turns → 0 < length rest
  pub fits : (count_messages prefix rest ≤ max) ⊎ (length rest ≤ 1)
  pub needed : (k : ℕ) → k < length removed → max < count_messages prefix (drop k turns)

-- `(removed, rest)` as one value.
abbrev pub DropsPair : List Message → ℕ → List Turn → List Turn × List Turn → Type 0
DropsPair prefix max turns (removed, rest) = Drops prefix max turns removed rest

abbrev keep_turn : Turn → List Turn × List Turn → List Turn × List Turn
keep_turn t (removed, rest) = (t ∷ removed, rest)

Drops-keep :
    (prefix : List Message) (max : ℕ) (t u : Turn) (turns : List Turn) (r : List Turn × List Turn)
    → DropsPair prefix max (u ∷ turns) r
    → max < count_messages prefix (t ∷ u ∷ turns)
    → DropsPair prefix max (t ∷ u ∷ turns) (keep_turn t r)
Drops-keep prefix max t u turns (removed, rest) h over = record {
  whole = ap (λ (l : List Turn). t ∷ l) h.whole;
  one_left = λ _. h.one_left (omega arith);
  fits = h.fits;
  needed = elim [ zero ↦ λ _. over | suc k ↦ λ lt. h.needed k (omega arith) ];
}

Drops-stop :
    (prefix : List Message) (max : ℕ) (turns : List Turn)
    → (count_messages prefix turns ≤ max) ⊎ (length turns ≤ 1)
    → DropsPair prefix max turns ([], turns)
Drops-stop prefix max turns h = record {
  whole = refl;
  one_left = λ lt. lt;
  fits = h;
  needed = λ k lt. absurd (omega arith);
}

pub drop_turns-Drops :
    (prefix : List Message) (max : ℕ) (turns : List Turn)
    → DropsPair prefix max turns (drop_turns prefix max turns)
unfolding drop_turns
drop_turns-Drops prefix max [] = Drops-stop prefix max [] (inr (omega arith))
drop_turns-Drops prefix max (t ∷ []) = Drops-stop prefix max (t ∷ []) (inr (omega arith))
drop_turns-Drops prefix max (t ∷ u ∷ turns) =
    elim (Bool-cases (ltb max (count_messages prefix (t ∷ u ∷ turns)))) [
      | inl e ↦ rw e (
          Drops-keep prefix max t u turns (drop_turns prefix max (u ∷ turns))
            (drop_turns-Drops prefix max (u ∷ turns)) (ltb→lt _ _ e))
      | inr e ↦ rw e (Drops-stop prefix max (t ∷ u ∷ turns) (inl (ltb→le _ _ e)))
    ]

-- trimByUserTurns against its description: the oldest turns go, whole, and no more than must; the
-- prefix and the newest turn stay; what is left fits the limit or is a single turn.
pub record Trims (msgs : List Message) (max : ℕ) (r : Trimmed) : Type 0 where
  pub removed : List Turn
  pub kept : List Turn
  pub whole : removed ++ kept ≡ (split_user_turns msgs).1
  pub out_eq : r.out ≡ join_turns (split_user_turns msgs).0 kept
  pub dropped_eq : r.dropped ≡ concat removed
  pub count_eq : r.dropped_turns ≡ length removed
  pub one_left : 0 < length (split_user_turns msgs).1 → 0 < length kept
  pub fits : (length r.out ≤ max) ⊎ (length kept ≤ 1)
  pub needed :
      (k : ℕ)
      → k < length removed
      → max < length (join_turns (split_user_turns msgs).0 (drop k (split_user_turns msgs).1))

Trims-untrimmed :
    (msgs : List Message) (max : ℕ)
    → (length msgs ≤ max) ⊎ (length (split_user_turns msgs).1 ≤ 1)
    → Trims msgs max (untrimmed msgs)
Trims-untrimmed msgs max h = record {
  removed = [];
  kept = (split_user_turns msgs).1;
  whole = refl;
  out_eq = sym (join_turns-split_user_turns msgs);
  dropped_eq = refl;
  count_eq = refl;
  one_left = λ lt. lt;
  fits = h;
  needed = λ k lt. absurd (omega arith);
}

Trims-trim_split :
    (msgs : List Message) (max : ℕ) (s : List Message × List Turn)
    → split_user_turns msgs ≡ s
    → Trims msgs max (trim_split max msgs s)
Trims-trim_split msgs max (prefix, []) e = Trims-untrimmed msgs max (inr (rw e (omega arith)))
Trims-trim_split msgs max (prefix, t ∷ turns) e =
    let d = drop_turns-Drops prefix max (t ∷ turns) in
    let r : List Turn × List Turn = drop_turns prefix max (t ∷ turns) in
    record {
      removed = r.0;
      kept = r.1;
      whole = d.whole ∙ ap (λ (s : List Message × List Turn). s.1) (sym e);
      out_eq = rw e;
      dropped_eq = refl;
      count_eq = refl;
      one_left = λ lt. d.one_left (omega arith);
      fits = rw (← count_messages-eq-length prefix r.1) d.fits;
      needed =
          λ k lt. rw (e, ← count_messages-eq-length prefix (drop k (t ∷ turns))) (d.needed k lt);
    }

-- With a positive limit, trimByUserTurns removes oldest turns as a whole: the removed and the kept
-- turns together are the turns of the conversation, the prefix stays, what is reported as dropped
-- is the removed turns and their number, the newest turn stays, what is left fits the limit or is
-- one turn, and each removed turn went while the rest was above the limit.
pub trim_by_user_turns-Trims :
    (msgs : List Message) (n : ℕ) → Trims msgs (suc n) (trim_by_user_turns msgs (pos (suc n)))
unfolding trim_by_user_turns
trim_by_user_turns-Trims msgs n = elim (Bool-cases (leb (length msgs) (suc n))) [
  | inl e ↦ rw e (Trims-untrimmed msgs (suc n) (inl (leb→le _ _ e)))
  | inr e ↦ rw e (Trims-trim_split msgs (suc n) (split_user_turns msgs) refl)
]
