-- ===== src/Run/Ownership.antt =====
-- The two maps of run.Registry (run/registry.go) against each other, in Start, Cancel and
-- Annotate.
use agent_go.Prelude.{
  ℕ, ◌≡◌, refl, sym, ap, ◌∙◌, true, none, some, Bool-cases, Option-cases, inl, inr,
}
use agent_go.Text.{Text, text_eq, text_eq_iff}
use agent_go.Text.Table.{
  lookup, insert, lookup-insert_self, lookup-insert_ne, lookup-insert_cases, lookup-ne,
}
use agent_go.Run.{Record, is_running}
use agent_go.Run.Registry.{Live, new_live, Registry, register, cancel, annotate}

-- The session of the map is the session of a running run, and each running run has its session there.
pub record IsExclusive (g : Registry) : Type 0 where
  pub owned :
      (s id : Text)
      → lookup s g.by_session ≡ some id
      → (lv : Live) × (lookup id g.by_id ≡ some lv)
        × (is_running lv.rec.status ≡ true)
        × (lv.rec.session_id ≡ s)
  pub listed :
      (id : Text) (lv : Live)
      → lookup id g.by_id ≡ some lv
      → is_running lv.rec.status ≡ true
      → lookup lv.rec.session_id g.by_session ≡ some id

pub some_inj : (a b : Live) → some a ≡ some b → a ≡ b
some_inj a b e = cc

pub id_inj : (a b : Text) → some a ≡ some b → a ≡ b
id_inj a b e = cc

module _ (id session request input : Text) (now : ℕ) (g : Registry) where
  pub register-IsExclusive :
      lookup id g.by_id ≡ none
      → IsExclusive g
      → IsExclusive (register id session request input now g).1
  unfolding register
  register-IsExclusive fresh h = elim (Option-cases (lookup session g.by_session)) [
    | inr (other, e) ↦ rw (register, e) h
    | inl e ↦
        rw (register, e)
          (record {
            owned = λ s i k. elim (lookup-insert_cases session s id i g.by_session k) [
              | inl (eq, mine) ↦ (
                started,
                ap (λ j. lookup j (insert id started g.by_id)) (sym (id_inj id i mine))
                    ∙ lookup-insert_self id started g.by_id,
                refl,
                eq,
              )
              | inr (ne, k') ↦
                  let (lv, f, r, q) = h.owned s i k' in
                  (
                    lv,
                    lookup-insert_ne id i started g.by_id (lookup-ne id i lv g.by_id fresh f) ∙ f,
                    r,
                    q,
                  )
            ];
            listed = λ i lv k r. elim (lookup-insert_cases id i started lv g.by_id k) [
              | inl (eq, one) ↦
                  ap (λ (v : Live). lookup v.rec.session_id (insert session id g.by_session))
                    (sym (some_inj started lv one))
                  ∙ lookup-insert_self session id g.by_session
                  ∙ ap some eq
              | inr (ne, k') ↦
                  let old = h.listed i lv k' r in
                  lookup-insert_ne session lv.rec.session_id id g.by_session
                    (lookup-ne session lv.rec.session_id i g.by_session e old)
                  ∙ old
            ];
          })
  ]
    where
      started : Live
      started = new_live id session request input now

-- A record is changed, but for its session and whether it runs.
rewrite-IsExclusive :
    (id : Text) (lv lv' : Live) (g : Registry)
    → lookup id g.by_id ≡ some lv
    → is_running lv'.rec.status ≡ is_running lv.rec.status
    → lv'.rec.session_id ≡ lv.rec.session_id
    → IsExclusive g
    → IsExclusive (record g { by_id = insert id lv' g.by_id })
rewrite-IsExclusive id lv lv' g e st se h = record {
  owned = λ s i k.
      (let (u, f, r, q) = h.owned s i k in
        elim (Bool-cases (text_eq id i)) [
          | inl same ↦
              let eq : id ≡ i = (text_eq_iff id i).0 same in
              let one : lv ≡ u = some_inj lv u (sym e ∙ ap (λ j. lookup j g.by_id) eq ∙ f) in
              (
                lv',
                ap (λ j. lookup j (insert id lv' g.by_id)) (sym eq)
                    ∙ lookup-insert_self id lv' g.by_id,
                st ∙ ap (λ (v : Live). is_running v.rec.status) one ∙ r,
                se ∙ ap (λ (v : Live). v.rec.session_id) one ∙ q,
              )
          | inr ne ↦ (u, lookup-insert_ne id i lv' g.by_id ne ∙ f, r, q)
        ]);
  listed = λ i u k r. elim (lookup-insert_cases id i lv' u g.by_id k) [
    | inl (eq, one) ↦
        let same : lv' ≡ u = some_inj lv' u one in
        ap (λ s. lookup s g.by_session) (ap (λ (v : Live). v.rec.session_id) (sym same) ∙ se)
        ∙ h.listed id lv e (sym st ∙ ap (λ (v : Live). is_running v.rec.status) same ∙ r)
        ∙ ap some eq
    | inr (ne, k') ↦ h.listed i u k' r
  ];
}

pub cancel-IsExclusive : (id : Text) (g : Registry) → IsExclusive g → IsExclusive (cancel id g).1
unfolding cancel
cancel-IsExclusive id g h = elim (Option-cases (lookup id g.by_id)) [
  | inl e ↦ rw (cancel, e) h
  | inr (lv, e) ↦ elim (Bool-cases (is_running lv.rec.status)) [
    | inl r ↦ rw (cancel, e) (rw r (rewrite-IsExclusive id lv _ g e refl refl h))
    | inr r ↦ rw (cancel, e) (rw r h)
  ]
]

pub annotate-IsExclusive :
    (id : Text) (f : Record → Record) (g : Registry)
    → ((r : Record) → ((f r).status ≡ r.status) × ((f r).session_id ≡ r.session_id))
    → IsExclusive g
    → IsExclusive (annotate id f g)
unfolding annotate
annotate-IsExclusive id f g keeps h = elim (Option-cases (lookup id g.by_id)) [
  | inl e ↦ rw (annotate, e) h
  | inr (lv, e) ↦
      rw (annotate, e)
        (rewrite-IsExclusive id lv _ g e (ap is_running (keeps lv.rec).0) (keeps lv.rec).1 h)
]
