-- ===== src/Agent/Memory.antt =====
-- agent/memory.go: the user's profile, bounded, and kept in a file if it has a path.
pub mod Distinct
pub mod Bounds
pub mod Disk
use agent_go.Prelude.{
  ℕ, Bool, true, false, ◌&&◌, ◌||◌, List, [], ◌∷◌, ◌++◌, if◌then◌else◌, length, ltb, keep_last, any,
}
use agent_go.Text.{
  Text, CaseTables, codes, is_empty, is_nil, trim_space, to_lower, text_eq, equal_fold, join,
  decimal,
}
use agent_go.Agent.Clip.{clip_runes}

abbrev pub max_likes : ℕ
max_likes = 12

abbrev pub max_notes : ℕ
max_notes = 16

abbrev pub max_note_runes : ℕ
max_note_runes = 120

abbrev pub max_like_runes : ℕ
max_like_runes = 40

abbrev pub max_name_runes : ℕ
max_name_runes = 40

-- The fields of Memory, and of the JSON document; MemoryView too.
pub record Fields : Type 0 where
  pub name : Text
  pub likes : List Text
  pub notes : List Text

-- The file at `path`: absent or blank, the document that a Save wrote, or bytes that do not parse.
pub data MemoryFile : Type 0 where
  missing : MemoryFile
  saved : Fields → MemoryFile
  unreadable : MemoryFile

pub record Memory : Type 0 where
  pub fields : Fields
  pub open fields use *
  pub path : Text
  pub disk : MemoryFile

-- What MkdirAll and os.WriteFile do with one Save: all, nothing, or a file cut short.
pub data Write : Type 0 where
  written refused torn : Write

pub data MemoryError : Type 0 where
  value_is_empty empty_patch bad_document : MemoryError
  unknown_field : Text → MemoryError

pub data Result {ℓ} (A : Type ℓ) : Type ℓ where
  ok : A → Result A
  err : MemoryError → Result A

-- The writing methods, by name.
pub data Call : Type 0 where
  clears : Call
  remembers : Text → Call
  sets : Text → Text → Call
  patches : Text → List Text → List Text → Call

abbrev pub no_fields : Fields
no_fields = record { name = []; likes = []; notes = [] }

-- readMemoryFile, LoadMemory
unfoldable pub load_memory : Text → MemoryFile → Result Memory
load_memory path missing = ok (record { fields = no_fields; path = path; disk = missing })
load_memory path (saved f) = ok (record { fields = f; path = path; disk = saved f })
load_memory path unreadable = err bad_document

abbrev pub after_write : Write → Fields → MemoryFile → MemoryFile
after_write written f disk = saved f
after_write refused f disk = disk
after_write torn f disk = unreadable

-- saveLocked, persistLocked: the error is dropped
unfoldable pub persist : Write → Memory → Memory
persist w m = if is_empty m.path then m else record m { disk = after_write w m.fields m.disk }

-- emptyLocked
unfoldable pub empty_fields : Fields → Bool
empty_fields f = is_empty f.name && (is_nil f.likes && is_nil f.notes)

-- setName
unfoldable pub set_name : Text → Fields → Fields
set_name v f = record f { name = clip_runes v max_name_runes }

-- `xs = append(xs, v); if len(xs) > max { xs = xs[len(xs)-max:] }`
abbrev pub push_bounded : ℕ → Text → List Text → List Text
push_bounded max v xs =
    let ys = xs ++ v ∷ [] in if ltb max (length ys) then keep_last max ys else ys

-- The body of addLike and addNote, for a test of sameness.
unfoldable pub add_distinct : (Text → Text → Bool) → ℕ → Text → List Text → List Text
add_distinct same max v xs =
    if is_empty v then xs else if any (λ x. same x v) xs then xs else push_bounded max v xs

-- shortStatus
abbrev status_parts : Fields → List Text
status_parts f =
    let likes = codes "likes=" ++ join (codes ",") f.likes in
    let notes = (codes "notes=" ++ decimal (length f.notes)) ∷ [] in
    let tail = if is_nil f.likes then notes else likes ∷ notes in
    if is_empty f.name then tail else (codes "name=" ++ f.name) ∷ tail

unfoldable pub short_status : Fields → Text
short_status f = join (codes "; ") (status_parts f)

-- Clear
unfoldable pub clear : Write → Memory → Memory
unfolding persist
clear w m = persist w (record m { fields = no_fields })

-- addNote
unfoldable pub add_note : Text → Fields → Fields
unfolding add_distinct
add_note v f = record f {
  notes = add_distinct text_eq max_notes (clip_runes v max_note_runes) f.notes;
}

-- Remember: the reply, and the memory
unfoldable pub remember : Write → Text → Memory → Text × Memory
unfolding persist add_note
remember w text m =
    let t = trim_space text in
    let m' = persist w (record m { fields = add_note t m.fields }) in
    if is_empty t then (codes "error: text is empty", m) else (
      codes "noted into profile notes: "
          ++ (clip_runes t 80 ++ (codes " | " ++ short_status m'.fields)),
      m',
    )

module _ (u : CaseTables) where
  -- addLike
  unfoldable pub add_like : Text → Fields → Fields
  unfolding add_distinct
  add_like v f = record f {
    likes = add_distinct (equal_fold u) max_likes (clip_runes v max_like_runes) f.likes;
  }

  -- The switch of SetField on the normalised field name.
  unfoldable pub set_named : Write → Text → Text → Memory → Result Text × Memory
  unfolding persist set_name add_like add_note
  set_named w field v m =
      let named = persist w (record m { fields = set_name v m.fields }) in
      let liked = persist w (record m { fields = add_like v m.fields }) in
      let noted = persist w (record m { fields = add_note v m.fields }) in
      if text_eq field (codes "name")
      then (ok (codes "profile updated: name=" ++ named.fields.name), named)
      else if text_eq field (codes "like") || text_eq field (codes "likes")
      then (ok (codes "profile updated: likes=" ++ join (codes "; ") liked.fields.likes), liked)
      else if text_eq field (codes "note") || text_eq field (codes "notes")
      then (
        ok (
            codes "profile updated: note recorded ("
            ++ (decimal (length noted.fields.notes) ++ codes " notes)")),
        noted,
      )
      else (err (unknown_field field), m)

  -- SetField
  unfoldable pub set_field : Write → Text → Text → Memory → Result Text × Memory
  unfolding set_named
  set_field w field value m =
      let v = trim_space value in
      if is_empty v
      then (err value_is_empty, m)
      else set_named w (to_lower u (trim_space field)) v m

  -- The loops of ApplyPatch: the fields, and whether something was given.
  unfoldable pub patch_like : Text → Fields × Bool → Fields × Bool
  unfolding add_like
  patch_like like (f, changed) =
      let v = trim_space like in if is_empty v then (f, changed) else (add_like v f, true)

  unfoldable pub patch_likes : List Text → Fields × Bool → Fields × Bool
  unfolding patch_like
  patch_likes [] s = s
  patch_likes (l ∷ ls) s = patch_likes ls (patch_like l s)

  unfoldable pub patch_note : Text → Fields × Bool → Fields × Bool
  unfolding add_note
  patch_note note (f, changed) =
      let v = trim_space note in if is_empty v then (f, changed) else (add_note v f, true)

  unfoldable pub patch_notes : List Text → Fields × Bool → Fields × Bool
  unfolding patch_note
  patch_notes [] s = s
  patch_notes (n ∷ ns) s = patch_notes ns (patch_note n s)

  abbrev patch_name : Text → Fields → Fields × Bool
  patch_name name f =
      let n = trim_space name in if is_empty n then (f, false) else (set_name n f, true)

  unfoldable pub patch_fields : Text → List Text → List Text → Fields → Fields × Bool
  unfolding patch_likes patch_notes set_name
  patch_fields name likes notes f = patch_notes notes (patch_likes likes (patch_name name f))

  abbrev finish_patch : Write → Memory → Fields × Bool → Result Text × Memory
  finish_patch w m (f, false) = (err empty_patch, record m { fields = f })
  finish_patch w m (f, true) =
      (ok (codes "profile patch applied | " ++ short_status f), persist w (record m { fields = f }))

  -- ApplyPatch
  unfoldable pub apply_patch : Write → Text → List Text → List Text → Memory → Result Text × Memory
  unfolding patch_fields persist
  apply_patch w name likes notes m = finish_patch w m (patch_fields name likes notes m.fields)

  -- One write by a tool or a command, with what the disk does.
  unfoldable pub update : Write × Call → Memory → Memory
  unfolding clear remember set_field apply_patch
  update (w, clears) m = clear w m
  update (w, remembers text) m = (remember w text m).1
  update (w, sets field value) m = (set_field w field value m).1
  update (w, patches name likes notes) m = (apply_patch w name likes notes m).1

  unfoldable pub run_updates : List (Write × Call) → Memory → Memory
  unfolding update
  run_updates [] m = m
  run_updates (c ∷ cs) m = run_updates cs (update c m)
