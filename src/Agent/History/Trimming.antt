-- ===== src/Agent/History/Trimming.antt =====
-- trimHistory of agent/history.go, round by round.
use agent_go.Prelude.{
  ℕ, zero, suc, ◌+◌, ◌≤◌, ◌≡◌, ◌⊎◌, inl, inr, true, false, List, arith, length, ◌==◌, ==_iff, ltb,
  Bool-cases, ltb→lt,
}
use agent_go.Prelude.Int.{ℤ, pos, negsuc}
use agent_go.Llm.{Message}
use agent_go.Agent.Settings.{Settings}
use agent_go.Agent.Turns.{trim_by_user_turns}
use agent_go.Agent.Turns.Trim.{trim_by_user_turns-Trims}
use agent_go.Agent.Protocol.{IsPaired}
use agent_go.Agent.Summary.{extract_summary_body}
use agent_go.Agent.Compress.{finalize_summary}
use agent_go.Agent.Spoken.{spoken, user_count, StartsWithUser}
use agent_go.Agent.History.{over_limit, trim_round, dropped_by_round, trim_rounds, trim_history}
use agent_go.Agent.History.Rest.{
  IsRest, IsRest-refl, Trims-user_count, Trims-done, Trims-IsRest, IsRest-trans,
  user_count-upsert_summary, IsRest-upsert_summary, IsTrimmed,
}

module _ {W : Type 0} (c : Settings W) where
  trim_out : List Message → List Message
  trim_out h = (trim_by_user_turns h c.max_history_messages).out

  trim_out-facts :
      (h : List Message)
      → over_limit c.max_history_messages h ≡ true
      → (user_count (trim_out h) + dropped_by_round c h ≡ user_count h)
        × (dropped_by_round c h ≡ 0 → user_count h ≤ 1)
        × (IsPaired h → StartsWithUser (spoken h) → IsRest h (trim_out h))
  unfolding trim_out
  trim_out-facts h = facts c.max_history_messages
    where
      facts :
          (max : ℤ)
          → over_limit max h ≡ true
          → (user_count (trim_by_user_turns h max).out + (trim_by_user_turns h max).dropped_turns
              ≡ user_count h)
            × ((trim_by_user_turns h max).dropped_turns ≡ 0 → user_count h ≤ 1)
            × (IsPaired h → StartsWithUser (spoken h) → IsRest h (trim_by_user_turns h max).out)
      facts (negsuc n) o = cc
      facts (pos zero) o = cc
      facts (pos (suc n)) o =
          let t = trim_by_user_turns-Trims h n in
          (
            Trims-user_count h (suc n) _ t,
            λ z. one_turn n o (Trims-done h (suc n) _ t z),
            Trims-IsRest h (suc n) _ t,
          )
        where
          one_turn :
              (n : ℕ)
              → ltb (suc n) (length h) ≡ true
              → (length h ≤ suc n) ⊎ (user_count h ≤ 1)
              → user_count h ≤ 1
          one_turn n o (inl fits) = absurd (omega (arith, ltb→lt (suc n) (length h)))
          one_turn n o (inr one) = one

  trim_round-user_count :
      (h : List Message) (w : W)
      → over_limit c.max_history_messages h ≡ true
      → user_count (trim_round c h w).0 + dropped_by_round c h ≡ user_count h
  unfolding trim_out
  trim_round-user_count h w o = omega (
    arith,
    trim_out-facts h o,
    user_count-upsert_summary (trim_out h)
        (finalize_summary c (extract_summary_body h)
          (trim_by_user_turns h c.max_history_messages).dropped w).0,
  )

  trim_round-IsRest :
      (whole h : List Message) (w : W)
      → over_limit c.max_history_messages h ≡ true
      → IsRest whole h
      → IsRest whole (trim_round c h w).0
  unfolding trim_out
  trim_round-IsRest whole h w o x =
      IsRest-upsert_summary whole (trim_out h) _
        (IsRest-trans whole h (trim_out h) x ((trim_out-facts h o).2 x.paired x.start))

  -- The rest of a history, trimmed.
  pub record IsTrimmedRest (whole h : List Message) : Type 0 where
    pub rest : IsRest whole h
    pub trimmed : IsTrimmed c.max_history_messages h

  trim_rounds-IsTrimmedRest :
      (whole : List Message) (fuel : ℕ) (h : List Message) (n : ℕ) (w : W)
      → IsRest whole h
      → user_count h ≤ fuel
      → IsTrimmedRest whole (trim_rounds c fuel h n w).0
  unfolding trim_rounds
  trim_rounds-IsTrimmedRest whole zero h n w x f = record { rest = x; trimmed = inr (omega arith) }
  trim_rounds-IsTrimmedRest whole (suc fuel) h n w x f =
      elim (Bool-cases (over_limit c.max_history_messages h)) [
        | inr o ↦ rw (o, trim_rounds) (record { rest = x; trimmed = inl o })
        | inl o ↦ elim (Bool-cases (dropped_by_round c h == 0)) [
          | inl z ↦
              rw (o, trim_rounds)
                (rw z
                  (record { rest = x; trimmed = inr ((trim_out-facts h o).1 ((==_iff _ _).0 z)) }))
          | inr s ↦
              rw (o, trim_rounds)
                (rw s (
                  trim_rounds-IsTrimmedRest whole fuel (trim_round c h w).0
                    (n + dropped_by_round c h) (trim_round c h w).1
                    (trim_round-IsRest whole h w o x) (fewer (trim_round-user_count h w o) s)))
        ]
      ]
    where
      fewer :
          user_count (trim_round c h w).0 + dropped_by_round c h ≡ user_count h
          → (dropped_by_round c h == 0) ≡ false
          → user_count (trim_round c h w).0 ≤ fuel
      fewer e s = let d : ℕ = dropped_by_round c h in ground arith

  -- For a history whose calls and results are together and in which a user speaks first,
  -- trimHistory, which drops oldest turns round by round, ends with the fuel it is given: what is
  -- left has its calls and results together, a user speaks first in it, what is said in it is the
  -- end of what was said, a user message is left if there was one, and it is within the limit or
  -- has at most one user message.
  pub trim_history-IsTrimmedRest :
      (h : List Message) (w : W)
      → IsPaired h
      → StartsWithUser (spoken h)
      → IsTrimmedRest h (trim_history c h w).0
  unfolding trim_history trim_out
  trim_history-IsTrimmedRest h w p s = elim (Bool-cases (over_limit c.max_history_messages h)) [
    | inr o ↦ rw o (record { rest = IsRest-refl h p s; trimmed = inl o })
    | inl o ↦ elim (Bool-cases (dropped_by_round c h == 0)) [
      | inl z ↦ rw o (
          rw z (record {
            rest = (trim_out-facts h o).2 p s;
            trimmed = inr (few z (trim_out-facts h o));
          }))
      | inr d ↦ rw o (
          rw d (
            trim_rounds-IsTrimmedRest h (user_count h) (trim_round c h w).0 (dropped_by_round c h)
              (trim_round c h w).1 (trim_round-IsRest h h w o (IsRest-refl h p s))
              (omega (arith, trim_round-user_count h w o))))
    ]
  ]
    where
      few :
          (dropped_by_round c h == 0) ≡ true
          → (user_count (trim_out h) + dropped_by_round c h ≡ user_count h)
            × (dropped_by_round c h ≡ 0 → user_count h ≤ 1)
            × (IsPaired h → StartsWithUser (spoken h) → IsRest h (trim_out h))
          → user_count (trim_out h) ≤ 1
      few z (e, one, r) = omega (arith, one ((==_iff _ _).0 z))
