-- ===== src/Run/Exclusive.antt =====
-- Interleavings of the methods of run.Registry (run/registry.go), and who holds a session.
use agent_go.Prelude.{
  ℕ, ◌≡◌, ◌↔◌, refl, sym, ap, ◌∙◌, subst, true, false, List, Option, none, some, Bool-cases,
  Option-cases, inl, inr,
}
use agent_go.Text.{Text, text_eq, text_eq_iff, text_eq_refl}
use agent_go.Text.Table.{
  Table, lookup, insert, delete, lookup-insert_ne, lookup-delete_ne, lookup-insert_cases,
  lookup-delete_cases,
}
use agent_go.Errors.{Error}
use agent_go.Llm.{Usage}
use agent_go.Run.{Record, is_running}
use agent_go.Run.Registry.{
  Live, Registry, refused, conflict, register, cancel, annotate, finish, free_session, outcome,
  closed, evict,
}
use agent_go.Run.Eviction.{evict-IsEvicted}
use agent_go.Run.Ownership.{
  IsExclusive, some_inj, id_inj, register-IsExclusive, cancel-IsExclusive, annotate-IsExclusive,
}

-- Eviction leaves the running runs.
evict-IsExclusive : (visit : List Text) (g : Registry) → IsExclusive g → IsExclusive (evict visit g)
unfolding evict
evict-IsExclusive visit g h =
    let v = evict-IsEvicted visit g in
    record {
      owned = λ s i k. (let (lv, f, r, q) = h.owned s i k in (lv, v.running i lv f r, r, q));
      listed = λ i lv k r. h.listed i lv (v.there i lv k) r;
    }

outcome-finished :
    (over : Option Error) (out : Text) (err : Option Error) (r : Record)
    → is_running (outcome over out err r).status ≡ false
unfolding outcome
outcome-finished (some e) out err r = refl
outcome-finished none out (some e) r = refl
outcome-finished none out none r = refl

free_session-own :
    (session id : Text) (m : Table Text)
    → lookup session m ≡ some id
    → free_session session id m ≡ delete session m
free_session-own session id m e = rw (free_session, e) (rw (text_eq_refl id) refl)

-- A run ends, and its session with it.
close-IsExclusive :
    (id : Text) (lv lv' : Live) (g : Registry)
    → lookup id g.by_id ≡ some lv
    → is_running lv.rec.status ≡ true
    → is_running lv'.rec.status ≡ false
    → IsExclusive g
    → IsExclusive (record g {
      by_id = insert id lv' g.by_id;
      by_session = delete lv.rec.session_id g.by_session;
    })
close-IsExclusive id lv lv' g e run over h = record {
  owned = λ s i k.
      (let (ne, k') = lookup-delete_cases lv.rec.session_id s i g.by_session k in
        let (u, f, r, q) = h.owned s i k' in
        elim (Bool-cases (text_eq id i)) [
          | inl same ↦
              let one : lv ≡ u =
                some_inj lv u
                  (sym e ∙ ap (λ j. lookup j g.by_id) ((text_eq_iff id i).0 same) ∙ f) in
              let bad : lv.rec.session_id ≡ s = ap (λ (v : Live). v.rec.session_id) one ∙ q in
              cc (sym ne ∙ (text_eq_iff lv.rec.session_id s).1 bad)
          | inr d ↦ (u, lookup-insert_ne id i lv' g.by_id d ∙ f, r, q)
        ]);
  listed = λ i u k r. elim (lookup-insert_cases id i lv' u g.by_id k) [
    | inl (eq, one) ↦
        cc (sym over ∙ ap (λ (v : Live). is_running v.rec.status) (some_inj lv' u one) ∙ r)
    | inr (ne, k') ↦
        let old : lookup u.rec.session_id g.by_session ≡ some i = h.listed i u k' r in
        lookup-delete_ne lv.rec.session_id u.rec.session_id g.by_session
          (elim (Bool-cases (text_eq lv.rec.session_id u.rec.session_id)) [
            | inl same ↦
                let both : some id ≡ some i =
                  sym (h.listed id lv e run)
                  ∙ ap (λ s. lookup s g.by_session) ((text_eq_iff _ _).0 same)
                  ∙ old in
                cc (sym ne ∙ (text_eq_iff id i).1 (id_inj id i both))
            | inr d ↦ d
          ])
        ∙ old
  ];
}

finish-IsExclusive :
    (visit : List Text) (id request out : Text) (usage : Usage) (err over : Option Error) (now : ℕ)
    (lv : Live) (g : Registry)
    → lookup id g.by_id ≡ some lv
    → is_running lv.rec.status ≡ true
    → IsExclusive g
    → IsExclusive (finish visit id lv.rec.session_id request usage out err over now g).1
unfolding finish
finish-IsExclusive visit id request out usage err over now lv g e run h =
    rw (finish, e)
      (evict-IsExclusive visit _ (
        subst
          (λ m. IsExclusive (record g {
            by_id =
                insert id
                  (record lv { rec = outcome over out err (closed request usage now lv.rec) })
                  g.by_id;
            by_session = m;
          }))
          (sym (free_session-own lv.rec.session_id id g.by_session (h.listed id lv e run)))
          (close-IsExclusive id lv _ g e run (outcome-finished over out err _) h)))

-- One critical section of a caller or a runner. An id is random, so it is new; a runner finishes once,
-- while its run is running; what Annotate is given touches neither status nor session.
pub data Step (g : Registry) : Registry → Type 0 where
  registers :
      (id session request input : Text) (now : ℕ)
      → lookup id g.by_id ≡ none
      → Step g (register id session request input now g).1
  cancels : (id : Text) → Step g (cancel id g).1
  annotates :
      (id : Text) (f : Record → Record)
      → ((r : Record) → ((f r).status ≡ r.status) × ((f r).session_id ≡ r.session_id))
      → Step g (annotate id f g)
  finishes :
      (visit : List Text) (id request out : Text) (usage : Usage) (err over : Option Error)
      (now : ℕ) (lv : Live)
      → lookup id g.by_id ≡ some lv
      → is_running lv.rec.status ≡ true
      → Step g (finish visit id lv.rec.session_id request usage out err over now g).1

pub data Reach (g : Registry) : Registry → Type 0 where
  here : Reach g g
  next : {h k : Registry} → Reach g h → Step h k → Reach g k

Step-IsExclusive : {g h : Registry} → Step g h → IsExclusive g → IsExclusive h
Step-IsExclusive {g} (registers id session request input now fresh) x =
    register-IsExclusive id session request input now g fresh x
Step-IsExclusive {g} (cancels id) x = cancel-IsExclusive id g x
Step-IsExclusive {g} (annotates id f keeps) x = annotate-IsExclusive id f g keeps x
Step-IsExclusive {g} (finishes visit id request out usage err over now lv e run) x =
    finish-IsExclusive visit id request out usage err over now lv g e run x

-- If in a registry the sessions that are taken are just those of its running runs, each by that
-- run, then this is so after any interleaving of Start, Cancel, Annotate, which touches neither
-- status nor session, and the end of runners, with eviction at each end.
pub Reach-IsExclusive : {g h : Registry} → Reach g h → IsExclusive g → IsExclusive h
Reach-IsExclusive here x = x
Reach-IsExclusive (next r st) x = Step-IsExclusive st (Reach-IsExclusive r x)

-- The run that holds a session, if it is running
abbrev pub IsHeldBy : Registry → Text → Text → Type 0
IsHeldBy g session id =
    (lv : Live) × (lookup id g.by_id ≡ some lv)
    × (is_running lv.rec.status ≡ true)
    × (lv.rec.session_id ≡ session)

-- If the taken sessions of a registry are just those of its running runs, then two running runs of
-- one session are the same run.
pub IsHeldBy-unique :
    (g : Registry) (session i j : Text)
    → IsExclusive g
    → IsHeldBy g session i
    → IsHeldBy g session j
    → i ≡ j
IsHeldBy-unique g session i j x (a, ea, ra, qa) (b, eb, rb, qb) =
    id_inj i j (
      sym (x.listed i a ea ra) ∙ ap (λ s. lookup s g.by_session) (qa ∙ sym qb) ∙ x.listed j b eb rb)

-- If the taken sessions of a registry are just those of its running runs, then Start refuses a
-- session with the id of another run exactly when this run is running for this session.
pub register_refuses :
    (id session request input : Text) (now : ℕ) (other : Text) (g : Registry)
    → IsExclusive g
    → IsHeldBy g session other
      ↔ ((register id session request input now g).0 ≡ refused (conflict session other))
unfolding register
register_refuses id session request input now other g x = (
  λ (lv, e, r, q).
      (let held : lookup session g.by_session ≡ some other =
          ap (λ s. lookup s g.by_session) (sym q) ∙ x.listed other lv e r in
        rw (register, held) refl),
  λ k. elim (Option-cases (lookup session g.by_session)) [
    | inl e ↦ cc (rw (register, e) at k)
    | inr (o, e) ↦
        (let same : o ≡ other = cc (rw (register, e) at k) in
          x.owned session other (e ∙ ap some same))
  ],
)
