-- ===== src/Docs/Resolve.antt =====
-- tool/docs.go: what resolve gives for a root of plain names.
use agent_go.Prelude.{
  ◌≡◌, refl, sym, ◌∙◌, ap, subst, Bool, true, false, ◌||◌, List, [], ◌∷◌, ◌++◌, ◌⊎◌, inl, inr,
  arith, Bool-cases, All, All-append_right, append-nil, append_assoc,
}
use agent_go.Text.{
  Text, codes, text_eq, text_eq_iff, has_prefix, has_prefix-rest, trim_space, is_empty, join,
}
use agent_go.Errors.{Error}
use agent_go.Docs.Paths.{
  segments, slash, is_abs, rooted_path, clean, within, resolve_clean, resolve_trimmed,
  resolve_relative, resolve, full_path,
}
use agent_go.Docs.Inside.{IsPlain, is_plain, IsUnder, segments-append, segments-join, clean-IsPlain}

ok-inj : (a b : Text) → ◌≡◌ {A = Text ⊎ Error} (inl a) (inl b) → a ≡ b
ok-inj a b h = cc

no_error : (a : Text) (e : Error) → ◌≡◌ {A = Text ⊎ Error} (inr e) (inl a) → ⊥
no_error a e h = cc

within-ok :
    (root full out : Text)
    → within root out ≡ inl full
    → (full ≡ out) × ((full ≡ root) ⊎ (has_prefix full (root ++ slash) ≡ true))
unfolding within
within-ok root full out h = elim (Bool-cases (text_eq out root)) [
  | inl e ↦
      let same = ok-inj out full (rw e at h) in
      (sym same, inl (sym same ∙ (text_eq_iff out root).0 e))
  | inr e ↦ elim (Bool-cases (has_prefix out (root ++ slash))) [
    | inl d ↦
        let same = ok-inj out full (rw d at (rw e at h)) in
        (sym same, inr (subst (λ p. has_prefix p (root ++ slash) ≡ true) same d))
    | inr d ↦ absurd (no_error full _ (rw d at (rw e at h)))
  ]
]

-- What is known of a path that is let through.
abbrev Checked : Text → Text → Type 0
Checked root full =
    (full ≡ root)
    ⊎ ((q : Text) × (full ≡ full_path root q) × (has_prefix full (root ++ slash) ≡ true))

resolve_clean-Checked :
    (root full cleaned : Text) → resolve_clean root cleaned ≡ inl full → Checked root full
unfolding resolve_clean
resolve_clean-Checked root full cleaned h =
    elim (Bool-cases (text_eq cleaned (codes "..") || has_prefix cleaned (codes "../"))) [
      | inl e ↦ absurd (no_error full _ (rw e at h))
      | inr e ↦
          let (same, at) = within-ok root full (full_path root cleaned) (rw e at h) in
          elim at [ inl r ↦ inl r | inr p ↦ inr (cleaned, same, p) ]
    ]

resolve_relative-Checked :
    (root full : Text) (abs : Bool) (cleaned : Text)
    → resolve_relative root abs cleaned ≡ inl full
    → Checked root full
resolve_relative-Checked root full true cleaned h = absurd (no_error full _ h)
resolve_relative-Checked root full false cleaned h = resolve_clean-Checked root full cleaned h

resolve_trimmed-Checked :
    (root full rel : Text) → resolve_trimmed root rel ≡ inl full → Checked root full
unfolding resolve_trimmed
resolve_trimmed-Checked root full rel h =
    elim (Bool-cases (is_empty rel || text_eq rel (codes "."))) [
      | inl e ↦ inl (sym (ok-inj root full (rw e at h)))
      | inr e ↦ resolve_relative-Checked root full (is_abs rel) (clean rel) (rw e at h)
    ]

tail-eq : (a b : Text) → 47 ∷ a ≡ 47 ∷ b → a ≡ b
tail-eq a b h = cc

not_plain : (r : Text) (l m : List Text) → [] ∷ l ≡ r ∷ m → is_plain r ≡ true → ⊥
unfolding is_empty
not_plain r l m e h = cc_plain (subst (λ w. is_plain w ≡ true) (sym (first r l m e)) h)
  where
    first : (r : Text) (l m : List Text) → [] ∷ l ≡ r ∷ m → [] ≡ r
    first r l m e = cc

    cc_plain : is_plain [] ≡ true → ⊥
    cc_plain f = ground arith

-- The parts of a cleaned path that starts with the root.
parts-under :
    (r : Text) (rs ps tail : List Text)
    → All IsPlain (r ∷ rs)
    → All IsPlain ps
    → segments (join slash ps) ≡ (r ∷ rs) ++ tail
    → ps ≡ (r ∷ rs) ++ tail
unfolding segments join
parts-under r rs [] tail hr hp e = absurd (not_plain r [] (rs ++ tail) e hr.0.1)
parts-under r rs (p ∷ ps) tail hr hp e = sym (segments-join p ps hp) ∙ e

-- A root of plain names, and a rest that was cleaned away to plain names.
rooted-cancel :
    (r : Text) (rs ps : List Text) (rest : Text)
    → All IsPlain (r ∷ rs)
    → All IsPlain ps
    → rooted_path ps ≡ (rooted_path (r ∷ rs) ++ slash) ++ rest
    → IsUnder (r ∷ rs) (rooted_path ps)
rooted-cancel r rs ps rest hr hp e =
    let rooted = join slash (r ∷ rs) in
    let inner : join slash ps ≡ rooted ++ (47 ∷ rest) =
      tail-eq (join slash ps) (rooted ++ (47 ∷ rest)) (e ∙ append_assoc (47 ∷ rooted) slash rest) in
    let parts = parts-under r rs ps (segments rest) hr hp (
      ap segments inner
      ∙ segments-append rooted rest
      ∙ ap (λ (l : List Text). l ++ segments rest) (segments-join r rs hr)) in
    (
      segments rest,
      All-append_right IsPlain (r ∷ rs) (segments rest) (subst (All IsPlain) parts hp),
      ap rooted_path parts,
    )

full_path-IsPlain :
    (ws : List Text) (q : Text)
    → (ps : List Text) × All IsPlain ps × (full_path (rooted_path ws) q ≡ rooted_path ps)
unfolding has_prefix
full_path-IsPlain ws q =
    let (ps, hp, e) = clean-IsPlain (rooted_path ws ++ (slash ++ q)) refl in
    let (qs, hq, d) = clean-IsPlain (clean (rooted_path ws ++ (slash ++ q))) (ap is_abs e) in
    (qs, hq, d)

-- If the docs root is "/" and plain names joined by "/" (none of them empty, ".", ".." or with a
-- "/" in it), and resolve gives a path, then this path is the root followed by plain names: it is
-- the root or lies under it.
pub resolve-IsUnder :
    (r : Text) (rs : List Text) (given full : Text)
    → All IsPlain (r ∷ rs)
    → resolve (rooted_path (r ∷ rs)) given ≡ inl full
    → IsUnder (r ∷ rs) full
unfolding resolve
resolve-IsUnder r rs given full h e =
    elim (resolve_trimmed-Checked (rooted_path (r ∷ rs)) full (trim_space given) e) [
      | inl same ↦ ([], tt, same ∙ ap rooted_path (sym (append-nil (r ∷ rs))))
      | inr (q, c, p) ↦
          let (ps, hp, d) = full_path-IsPlain (r ∷ rs) q in
          let (rest, f) = has_prefix-rest full (rooted_path (r ∷ rs) ++ slash) p in
          subst (IsUnder (r ∷ rs)) (sym (c ∙ d)) (rooted-cancel r rs ps rest h hp (sym (c ∙ d) ∙ f))
    ]
