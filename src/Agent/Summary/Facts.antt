-- ===== src/Agent/Summary/Facts.antt =====
-- dedupeBullets and buildConversationSummary of agent/history.go: the bullets and their keys.
use agent_go.Prelude.{
  ℕ, zero, suc, ◌-◌, ◌^◌, ◌≤◌, ◌<◌, ◌≡◌, refl, ap, Bool, false, ◌||◌, List, [], ◌∷◌, ◌++◌, arith,
  length, drop, length-drop, any, Bool-cases, inl, inr,
}
use agent_go.Text.{Text, CaseTables, is_empty, text_eq, text_eq_iff, trim_space}
use agent_go.Llm.{Message}
use agent_go.Agent.Clip.{length-truncate_at}
use agent_go.Agent.Summary.{
  bullet_key, dedupe_from, dedupe_bullets, bullet_text, summary_bullets, summary_header,
  build_conversation_summary, max_summary_bullets, parse_summary_bullets, facts_from_dropped,
}

module _ (u : CaseTables) where
  -- Every key is written, is none of `seen`, and differs from those before it.
  abbrev pub Fresh : List Text → List Text → Type 0
  Fresh seen [] = Unit
  Fresh seen (b ∷ bs) =
      (is_empty (bullet_key u b) ≡ false)
      × (any (text_eq (bullet_key u b)) seen ≡ false)
      × Fresh (bullet_key u b ∷ seen) bs

  dedupe_from-Fresh : (seen bs : List Text) → Fresh seen (dedupe_from u seen bs)
  unfolding dedupe_from
  dedupe_from-Fresh seen [] = tt
  dedupe_from-Fresh seen (b ∷ bs) =
      let key : Text = bullet_key u b in
      elim (Bool-cases (is_empty key)) [
        | inl e ↦ rw e (dedupe_from-Fresh seen bs)
        | inr e ↦ elim (Bool-cases (any (text_eq key) seen)) [
          | inl d ↦ rw e (rw d (dedupe_from-Fresh seen bs))
          | inr d ↦ rw e (rw d (e, d, dedupe_from-Fresh (key ∷ seen) bs))
        ]
      ]

  dedupe_from-Fresh_id : (seen bs : List Text) → Fresh seen bs → dedupe_from u seen bs ≡ bs
  unfolding dedupe_from
  dedupe_from-Fresh_id seen [] h = refl
  dedupe_from-Fresh_id seen (b ∷ bs) (e, d, h) =
      rw e
        (rw d (ap (λ (l : List Text). b ∷ l) (dedupe_from-Fresh_id (bullet_key u b ∷ seen) bs h)))

  -- Deduplicating bullets a second time changes nothing.
  pub dedupe_bullets_idem :
      (bs : List Text) → dedupe_bullets u (dedupe_bullets u bs) ≡ dedupe_bullets u bs
  unfolding dedupe_bullets
  dedupe_bullets_idem bs = dedupe_from-Fresh_id [] _ (dedupe_from-Fresh [] bs)

  abbrev pub has_key : Text → List Text → Bool
  has_key k [] = false
  has_key k (b ∷ bs) = text_eq k (bullet_key u b) || has_key k bs

  has_key-dedupe_from :
      (k : Text) (seen bs : List Text)
      → is_empty k ≡ false
      → (any (text_eq k) seen || has_key k (dedupe_from u seen bs))
        ≡ (any (text_eq k) seen || has_key k bs)
  unfolding dedupe_from
  has_key-dedupe_from k seen [] h = refl
  has_key-dedupe_from k seen (b ∷ bs) h =
      let key : Text = bullet_key u b in
      ground (
        arith,
        text_eq_iff k key,
        has_key-dedupe_from k seen bs h,
        has_key-dedupe_from k (key ∷ seen) bs h,
      )

  -- For a key that is not empty, some bullet has this key after dedupeBullets exactly when some
  -- bullet had it before.
  pub has_key-dedupe_bullets :
      (k : Text) (bs : List Text)
      → is_empty k ≡ false
      → has_key k (dedupe_bullets u bs) ≡ has_key k bs
  unfolding dedupe_bullets
  has_key-dedupe_bullets k bs h = has_key-dedupe_from k [] bs h

  Fresh-weaken :
      (seen more bs : List Text)
      → ((k : Text) → any (text_eq k) more ≡ false → any (text_eq k) seen ≡ false)
      → Fresh more bs
      → Fresh seen bs
  Fresh-weaken seen more [] w h = tt
  Fresh-weaken seen more (b ∷ bs) w (e, d, h) =
      (e, w _ d, Fresh-weaken (bullet_key u b ∷ seen) (bullet_key u b ∷ more) bs keep h)
    where
      keep :
          (k : Text)
          → any (text_eq k) (bullet_key u b ∷ more) ≡ false
          → any (text_eq k) (bullet_key u b ∷ seen) ≡ false
      keep k c = let back = w k in ground arith

  Fresh-drop : (n : ℕ) (bs : List Text) → Fresh [] bs → Fresh [] (drop n bs)
  Fresh-drop zero bs h = h
  Fresh-drop (suc n) [] h = tt
  Fresh-drop (suc n) (b ∷ bs) (e, d, h) =
      Fresh-drop n bs (Fresh-weaken [] (bullet_key u b ∷ []) bs (λ k _. refl) h)

  -- Whatever the previous summary and the dropped messages, the bullets of the next summary are at
  -- most twelve, their keys are not empty, and no two have the same key.
  pub summary_bullets-Fresh :
      (prev : Text) (dropped : List Message)
      → Fresh [] (summary_bullets u prev dropped)
        × (length (summary_bullets u prev dropped) ≤ max_summary_bullets)
  unfolding summary_bullets dedupe_bullets
  summary_bullets-Fresh prev dropped =
      let all : List Text =
        dedupe_from u [] (parse_summary_bullets prev ++ facts_from_dropped dropped) in
      (
        Fresh-drop (length all - max_summary_bullets) all (dedupe_from-Fresh [] _),
        omega (arith, length-drop (length all - max_summary_bullets) all),
      )

  -- The text before it is cut.
  abbrev pub summary_draft : Text → List Message → Text
  summary_draft prev dropped =
      trim_space (summary_header ++ 10 ∷ bullet_text u (summary_bullets u prev dropped))

  -- A draft of fewer than 10 ^ 19 runes, which every Go string is, ends up within the limit.
  pub length-build_conversation_summary :
      (prev : Text) (dropped : List Message)
      → length (summary_draft prev dropped) < 10 ^ 19
      → length (build_conversation_summary u prev dropped) ≤ 512
  unfolding build_conversation_summary
  length-build_conversation_summary prev dropped h =
      length-truncate_at (summary_draft prev dropped) 512 18 h (omega arith)
