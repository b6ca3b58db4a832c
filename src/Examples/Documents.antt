-- ===== src/Examples/Documents.antt =====
-- A small knowledge base, for tool/docs.go.
use agent_go.Prelude.{ℕ, ◌≡◌, refl, false, List, [], ◌∷◌, inl, inr, none, some, All, if◌then◌else◌}
use agent_go.Text.{Text, codes, text_eq, has_prefix, trim_space, is_empty, is_space, join, is_nil}
use agent_go.Errors.{new_error}
use agent_go.Docs.Paths.{
  segments, walk_path, resolve, resolve_trimmed, resolve_clean, within, clean, rooted_path,
}
use agent_go.Docs.Inside.{IsPlain, IsUnder}
use agent_go.Docs.Resolve.{resolve-IsUnder}
use agent_go.Docs.Reading.{Kb, Disk, read_doc, list_docs}
use agent_go.Docs.Confined.{AgreeUnder, docs-confined}
use agent_go.Examples.Data.{ascii}

d-IsPlain : All IsPlain (codes "d" ∷ [])
unfolding segments text_eq is_empty
d-IsPlain = ((refl, refl), tt)

resolve-IsUnder_example : IsUnder (codes "d" ∷ []) (codes "/d/b")
unfolding segments text_eq is_empty join resolve resolve_trimmed resolve_clean within clean
    walk_path has_prefix trim_space is_space is_nil
resolve-IsUnder_example =
    resolve-IsUnder (codes "d") [] (codes "a/../b ") (codes "/d/b") d-IsPlain refl

abbrev kb : Kb
kb = record {
  root = some (codes "/d");
  ctx_err = none;
  parse = λ a. inl a;
  text_of = λ bytes. some bytes;
  tables = ascii;
}

-- The password file holds `b`; all other files are empty.
abbrev disk_with : List ℕ → Disk
disk_with b = record {
  stat = λ p. inl (record { is_dir = false; size = 1 });
  read_dir = λ p. inr (new_error (codes "not a directory"));
  read_file = λ p. inl (if text_eq p (codes "/etc/passwd") then b else []);
}

not_passwd : (ss : List Text) → text_eq (rooted_path (codes "d" ∷ ss)) (codes "/etc/passwd") ≡ false
unfolding text_eq join
not_passwd [] = refl
not_passwd (s ∷ ss) = refl

disks-AgreeUnder : (b c : List ℕ) → AgreeUnder (codes "d" ∷ []) (disk_with b) (disk_with c)
disks-AgreeUnder b c full (ss, plain, e) = (refl, refl, rw e (rw (not_passwd ss) refl))

docs-confined_example :
    (read_doc kb (disk_with (1 ∷ [])) (codes "../etc/passwd")
      ≡ read_doc kb (disk_with (2 ∷ [])) (codes "../etc/passwd"))
    × (list_docs kb (disk_with (1 ∷ [])) (codes "../etc/passwd")
        ≡ list_docs kb (disk_with (2 ∷ [])) (codes "../etc/passwd"))
unfolding join
docs-confined_example =
    docs-confined kb (codes "d") [] (disk_with (1 ∷ [])) (disk_with (2 ∷ []))
      (codes "../etc/passwd") d-IsPlain refl (disks-AgreeUnder (1 ∷ []) (2 ∷ []))
