-- ===== src/Agent/Protocol/Systems.antt =====
-- Paired conversations, and system messages that are taken out of them or put in.
use agent_go.Prelude.{
  ℕ, ◌≡◌, refl, sym, ◌∙◌, ap, Bool, true, false, List, [], ◌∷◌, ◌++◌, some, arith, Bool-cases, inl,
  inr, All, filter, take, drop, take-append-drop, subst,
}
use agent_go.Text.{Text}
use agent_go.Llm.{Message, Role, system, user, assistant, tool, other, is_system}
use agent_go.Agent.Protocol.{next, pending, IsPaired}
use agent_go.Agent.Protocol.Cutting.{pending-cons}

-- A system message comes only where nothing waits, and then nothing waits.
next-system :
    (r : Role) (p : List Text) (m : Message) (q : List Text)
    → is_system r ≡ true
    → next r p m ≡ some q
    → (p ≡ []) × (q ≡ [])
next-system system [] m q h e = ground arith
next-system system (i ∷ p) m q h e = cc
next-system user p m q h e = cc
next-system assistant p m q h e = cc
next-system tool p m q h e = cc
next-system (other r) p m q h e = cc

pending-system :
    (m : Message) (msgs : List Message)
    → is_system m.role ≡ true
    → pending [] (m ∷ msgs) ≡ pending [] msgs
unfolding pending
pending-system m msgs h = rw (next_nil m.role m h)
  where
    next_nil : (r : Role) (m : Message) → is_system r ≡ true → next r [] m ≡ some []
    next_nil system m h = refl
    next_nil user m h = cc
    next_nil assistant m h = cc
    next_nil tool m h = cc
    next_nil (other r) m h = cc

module _ (keep : Message → Bool)
    (out : (m : Message) → keep m ≡ false → is_system m.role ≡ true) where
  filter-pending :
      (p : List Text) (msgs : List Message)
      → pending p msgs ≡ some []
      → pending p (filter keep msgs) ≡ some []
  unfolding pending
  filter-pending p [] h = h
  filter-pending p (m ∷ msgs) h =
      let (q, e, rest) = pending-cons p m msgs h in
      elim (Bool-cases (keep m)) [
        | inl k ↦ rw k (rw e (filter-pending q msgs rest))
        | inr k ↦
            let (pe, qe) = next-system m.role p m q (out m k) e in
            rw k (
              subst (λ r. pending r (filter keep msgs) ≡ some []) (qe ∙ sym pe)
                (filter-pending q msgs rest))
      ]

  -- A filter that takes out system messages only.
  pub filter-IsPaired : (msgs : List Message) → IsPaired msgs → IsPaired (filter keep msgs)
  filter-IsPaired msgs h = filter-pending [] msgs h

abbrev pub IsSystem : Message → Type 0
IsSystem m = is_system m.role ≡ true

pending-systems :
    (front rest : List Message) → All IsSystem front → pending [] (front ++ rest) ≡ pending [] rest
pending-systems [] rest h = refl
pending-systems (m ∷ front) rest h =
    pending-system m (front ++ rest) h.0 ∙ pending-systems front rest h.1

-- A system message put in behind `n` others.
pub insert-IsPaired :
    (n : ℕ) (m : Message) (msgs : List Message)
    → All IsSystem (take n msgs)
    → is_system m.role ≡ true
    → IsPaired msgs
    → IsPaired (take n msgs ++ m ∷ drop n msgs)
insert-IsPaired n m msgs front sys h =
    pending-systems (take n msgs) (m ∷ drop n msgs) front
    ∙ pending-system m (drop n msgs) sys
    ∙ sym (pending-systems (take n msgs) (drop n msgs) front)
    ∙ ap (pending []) (take-append-drop n msgs)
    ∙ h
