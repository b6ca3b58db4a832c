-- ===== src/Docs/Confined.antt =====
-- tool/docs.go: what the tools can learn of the files.
use agent_go.Prelude.{ℕ, ◌≡◌, refl, ap, ap₂, List, ◌∷◌, ◌⊎◌, inl, inr, some, All, Option-cases}
use agent_go.Text.{Text}
use agent_go.Errors.{Error}
use agent_go.Docs.Paths.{rooted_path, resolve}
use agent_go.Docs.Inside.{IsPlain, IsUnder}
use agent_go.Docs.Resolve.{resolve-IsUnder}
use agent_go.Docs.Reading.{
  Kb, Disk, Stat, Entry, and_then, with_args, read_at, read_doc, read_stat, listing, list_at,
  list_docs,
}

-- Two states of the files that are the same on the root and under it.
abbrev pub AgreeUnder : List Text → Disk → Disk → Type 0
AgreeUnder rs d e =
    (full : Text)
    → IsUnder rs full
    → (d.stat full ≡ e.stat full)
      × (d.read_dir full ≡ e.read_dir full)
      × (d.read_file full ≡ e.read_file full)

and_then-cong {ℓ} :
    {A : Type ℓ} (x : A ⊎ Error) (f g : A → Text ⊎ Error)
    → ((a : A) → x ≡ inl a → f a ≡ g a)
    → and_then x f ≡ and_then x g
and_then-cong (inl a) f g h = h a refl
and_then-cong (inr e) f g h = refl

with_args-cong :
    (kb : Kb) (args root : Text) (f g : Text → Text → Text ⊎ Error)
    → kb.root ≡ some root
    → ((path : Text) → f root path ≡ g root path)
    → with_args kb args f ≡ with_args kb args g
with_args-cong kb args root f g e h = elim (Option-cases kb.ctx_err) [
  | inr (x, d) ↦ rw d refl
  | inl d ↦ rw d (rw e (and_then-cong (kb.parse args) (f root) (g root) (λ path q. h path)))
]

read_at-cong :
    (kb : Kb) (d e : Disk) (root full : Text)
    → d.stat full ≡ e.stat full
    → d.read_file full ≡ e.read_file full
    → read_at kb d root full ≡ read_at kb e root full
unfolding read_at
read_at-cong kb d e root full h g =
    ap₂ (λ (st : Stat ⊎ Error) (b : List ℕ ⊎ Error). and_then st (read_stat kb root full b)) h g

list_at-cong :
    (kb : Kb) (d e : Disk) (root full : Text)
    → d.read_dir full ≡ e.read_dir full
    → list_at kb d root full ≡ list_at kb e root full
unfolding list_at
list_at-cong kb d e root full h =
    ap (λ (x : List Entry ⊎ Error). and_then x (listing kb root full)) h

-- If the configured docs root is "/" and plain names joined by "/", and two states of the files
-- have the same stat, directory and content at every path that is the root or lies under it by
-- plain names, then read_doc gives the same on both, and so does list_docs, whatever the
-- arguments.
pub docs-confined :
    (kb : Kb) (r : Text) (rs : List Text) (d e : Disk) (args : Text)
    → All IsPlain (r ∷ rs)
    → kb.root ≡ some (rooted_path (r ∷ rs))
    → AgreeUnder (r ∷ rs) d e
    → (read_doc kb d args ≡ read_doc kb e args) × (list_docs kb d args ≡ list_docs kb e args)
unfolding read_doc list_docs
docs-confined kb r rs d e args plain configured agree =
    let root = rooted_path (r ∷ rs) in
    (
      with_args-cong kb args root _ _ configured (λ path.
          and_then-cong (resolve root path) (read_at kb d root) (read_at kb e root) (λ full q.
            let same = agree full (resolve-IsUnder r rs path full plain q) in
            read_at-cong kb d e root full same.0 same.2)),
      with_args-cong kb args root _ _ configured (λ path.
          and_then-cong (resolve root path) (list_at kb d root) (list_at kb e root) (λ full q.
            list_at-cong kb d e root full (agree full (resolve-IsUnder r rs path full plain q)).1)),
    )
