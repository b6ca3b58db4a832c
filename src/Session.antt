-- ===== src/Session.antt =====
-- session/store.go: the stores of conversations, in the process and in files.
pub mod Joined
pub mod Names
pub mod Filed
pub mod Laws
pub mod Restore
use agent_go.Prelude.{
  ℕ, Bool, true, false, ◌&&◌, ◌||◌, List, [], ◌∷◌, ◌++◌, Option, none, some, if◌then◌else◌, ◌==◌,
}
use agent_go.Text.{Text, codes, trim_space, is_empty, is_blank, is_nil}
use agent_go.Text.Table.{Table, lookup, insert, delete}
use agent_go.Errors.{Error, new_error}
use agent_go.Llm.{Message}
use agent_go.Docs.Paths.{clean, join_path}

-- normalizeID
unfoldable pub normalize_id : Text → Text
normalize_id id = let t = trim_space id in if is_empty t then codes "default" else t

abbrev pub Memory : Type 0
Memory = Table (List Message)

abbrev pub messages_of : Option (List Message) → List Message
messages_of none = []
messages_of (some msgs) = msgs

-- (*Memory).Load, which never fails
unfoldable pub memory_load : Text → Memory → List Message
memory_load id m = messages_of (lookup (normalize_id id) m)

-- (*Memory).Save
unfoldable pub memory_save : Text → List Message → Memory → Memory
memory_save id msgs m = insert (normalize_id id) msgs m

-- (*Memory).Delete
unfoldable pub memory_delete : Text → Memory → Memory
memory_delete id m = delete (normalize_id id) m

pub data Result (A : Type 0) : Type 0 where
  ok : A → Result A
  err : Error → Result A

-- `is_word` is `unicode.IsLetter(r) || unicode.IsDigit(r)`.
module _ (is_word : ℕ → Bool) where
  -- The loop of safeID
  unfoldable pub all_safe : Text → Bool
  all_safe [] = true
  all_safe (r ∷ s) = (is_word r || r == 95 || r == 45) && all_safe s

  -- safeID; the quoted id in the text of the error is left out
  unfoldable pub safe_id : Text → Result Text
  unfolding all_safe normalize_id
  safe_id id =
      let n = normalize_id id in
      if all_safe n then ok n else err (new_error (codes "session: invalid id"))

  -- `filepath.Join(f.Dir, id+".json")`, which leaves an empty directory out
  unfoldable pub file_of : Text → Text → Text
  unfolding clean is_nil
  file_of dir id =
      let name = id ++ codes ".json" in if is_nil dir then clean name else join_path dir name

  unfoldable pub path_of : Text → Result Text → Result Text
  unfolding file_of
  path_of dir (err e) = err e
  path_of dir (ok id) = ok (file_of dir id)

  -- (*File).path
  unfoldable pub path : Text → Text → Result Text
  unfolding safe_id path_of
  path dir id = path_of dir (safe_id id)

  abbrev pub empty_dir : Error
  empty_dir = new_error (codes "session: empty dir")

  abbrev pub load_at : Result Text → Table (List Message) → Result (List Message)
  load_at (err e) files = err e
  load_at (ok p) files = ok (messages_of (lookup p files))

  -- (*File).Load, of files that can be read: none without a file
  unfoldable pub file_load : Text → Text → Table (List Message) → Result (List Message)
  unfolding path
  file_load dir id files = if is_blank dir then err empty_dir else load_at (path dir id) files

  abbrev pub save_at :
      Result Text
      → List Message
      → Option Error
      → Table (List Message)
      → Option Error × Table (List Message)
  save_at (err e) msgs write files = (some e, files)
  save_at (ok p) msgs (some e) files = (some e, files)
  save_at (ok p) msgs none files = (none, insert p msgs files)

  -- (*File).Save: `made` is the error of MkdirAll, `write` that of the locks and of atomicWrite,
  -- which leaves the old file then.
  unfoldable pub file_save :
      Text
      → Text
      → List Message
      → Option Error
      → Option Error
      → Table (List Message)
      → Option Error × Table (List Message)
  unfolding path
  file_save dir id msgs made write files =
      if is_blank dir
      then (some empty_dir, files)
      else elim made [ some e ↦ (some e, files) | none ↦ save_at (path dir id) msgs write files ]

  abbrev pub delete_at :
      Result Text → Option Error → Table (List Message) → Option Error × Table (List Message)
  delete_at (err e) removed files = (some e, files)
  delete_at (ok p) (some e) files = (some e, files)
  delete_at (ok p) none files = (none, delete p files)

  -- (*File).Delete: `removed` is the error of the locks and of os.Remove, but that there is no file.
  unfoldable pub file_delete :
      Text → Text → Option Error → Table (List Message) → Option Error × Table (List Message)
  unfolding path
  file_delete dir id removed files = delete_at (path dir id) removed files
