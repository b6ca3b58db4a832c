-- ===== src/Session/Filed.antt =====
-- session/store.go: a store in files gives what a store in the process gives.
use agent_go.Prelude.{
  ℕ, ◌≡◌, refl, sym, ◌∙◌, ap, Bool, true, false, ◌||◌, List, [], ◌∷◌, Option, none, some,
  Bool-cases, inl, inr,
}
use agent_go.Text.{Text, text_eq, text_eq_iff, is_blank}
use agent_go.Text.Table.{
  Table, lookup, insert, delete, lookup-insert_self, lookup-insert_ne, lookup-delete_self,
  lookup-delete_ne,
}
use agent_go.Errors.{Error}
use agent_go.Llm.{Message}
use agent_go.Session.{
  Memory, normalize_id, messages_of, memory_load, memory_save, memory_delete, Result, ok, all_safe,
  safe_id, file_of, path, path_of, load_at, save_at, delete_at, file_load, file_save, file_delete,
}
use agent_go.Session.Names.{path-normalize_id, path-safe}

-- A call on a store, with the errors of the disk.
pub data Call : Type 0 where
  saves : Text → List Message → Option Error → Option Error → Call
  deletes : Text → Option Error → Call

abbrev pub on_memory : Call → Memory → Memory
on_memory (saves id msgs made write) m = memory_save id msgs m
on_memory (deletes id removed) m = memory_delete id m

-- Only a call that gave no error counts.
abbrev pub if_done : Option Error → Call → Memory → Memory
if_done none c m = on_memory c m
if_done (some e) c m = m

module _ (is_word : ℕ → Bool) (dir : Text) where
  abbrev pub on_files : Call → Table (List Message) → Option Error × Table (List Message)
  on_files (saves id msgs made write) files = file_save is_word dir id msgs made write files
  on_files (deletes id removed) files = file_delete is_word dir id removed files

  -- The calls on both stores, those on the store in the process only if they were done in files.
  unfoldable pub on_both : List Call → Table (List Message) → Memory → Table (List Message) × Memory
  unfolding file_save file_delete memory_save memory_delete
  on_both [] files m = (files, m)
  on_both (c ∷ cs) files m = let (e, files') = on_files c files in on_both cs files' (if_done e c m)

  abbrev IsSafe : Text → Type 0
  IsSafe id = all_safe is_word (normalize_id id) ≡ true

  abbrev file_named : Text → Text
  file_named id = file_of is_word dir (normalize_id id)

  -- Both hold the same under each id that has a file.
  abbrev Agrees : Table (List Message) → Memory → Type 0
  Agrees files m =
      (id : Text) → IsSafe id → lookup (file_named id) files ≡ lookup (normalize_id id) m

  module _ (no_separators : (is_word 47 || is_word 46) ≡ false) where
    file_named-ne :
        (a b : Text)
        → IsSafe a
        → IsSafe b
        → text_eq (normalize_id a) (normalize_id b) ≡ false
        → text_eq (file_named a) (file_named b) ≡ false
    file_named-ne a b ha hb ne = elim (Bool-cases (text_eq (file_named a) (file_named b))) [
      | inr e ↦ e
      | inl e ↦
          let same : file_named a ≡ file_named b =
            (text_eq_iff (file_named a) (file_named b)).0 e in
          let ids : normalize_id a ≡ normalize_id b =
            path-normalize_id is_word dir a b (file_named b) no_separators
              (path-safe is_word dir a ha ∙ ap ok same) (path-safe is_word dir b hb) in
          let equal : text_eq (normalize_id a) (normalize_id b) ≡ true =
            (text_eq_iff (normalize_id a) (normalize_id b)).1 ids in
          cc
    ]

    insert-Agrees :
        (id : Text) (msgs : List Message) (files : Table (List Message)) (m : Memory)
        → IsSafe id
        → Agrees files m
        → Agrees (insert (file_named id) msgs files) (memory_save id msgs m)
    unfolding memory_save
    insert-Agrees id msgs files m safe h j sj =
        elim (Bool-cases (text_eq (normalize_id id) (normalize_id j))) [
          | inl e ↦
              let same : normalize_id id ≡ normalize_id j =
                (text_eq_iff (normalize_id id) (normalize_id j)).0 e in
              ap (λ (n : Text). lookup (file_of is_word dir n) (insert (file_named id) msgs files))
                (sym same)
              ∙ lookup-insert_self (file_named id) msgs files
              ∙ sym (lookup-insert_self (normalize_id id) msgs m)
              ∙ ap (λ (n : Text). lookup n (insert (normalize_id id) msgs m)) same
          | inr e ↦
              lookup-insert_ne (file_named id) (file_named j) msgs files
                (file_named-ne id j safe sj e)
              ∙ h j sj
              ∙ sym (lookup-insert_ne (normalize_id id) (normalize_id j) msgs m e)
        ]

    delete-Agrees :
        (id : Text) (files : Table (List Message)) (m : Memory)
        → IsSafe id
        → Agrees files m
        → Agrees (delete (file_named id) files) (memory_delete id m)
    unfolding memory_delete
    delete-Agrees id files m safe h j sj =
        elim (Bool-cases (text_eq (normalize_id id) (normalize_id j))) [
          | inl e ↦
              let same : normalize_id id ≡ normalize_id j =
                (text_eq_iff (normalize_id id) (normalize_id j)).0 e in
              ap (λ (n : Text). lookup (file_of is_word dir n) (delete (file_named id) files))
                (sym same)
              ∙ lookup-delete_self (file_named id) files
              ∙ sym (lookup-delete_self (normalize_id id) m)
              ∙ ap (λ (n : Text). lookup n (delete (normalize_id id) m)) same
          | inr e ↦
              lookup-delete_ne (file_named id) (file_named j) files (file_named-ne id j safe sj e)
              ∙ h j sj
              ∙ sym (lookup-delete_ne (normalize_id id) (normalize_id j) m e)
        ]

    -- What a call comes to, by what its id is and what the disk does.
    abbrev StaysAgreed : Call → Memory → Option Error × Table (List Message) → Type 0
    StaysAgreed c m (e, files) = Agrees files (if_done e c m)

    save_at-Agrees :
        (id : Text) (msgs : List Message) (made write : Option Error) (files : Table (List Message))
        (m : Memory)
        → Agrees files m
        → StaysAgreed
            (saves id msgs made write)
            m
            (save_at is_word (path is_word dir id) msgs write files)
    unfolding path safe_id path_of
    save_at-Agrees id msgs made write files m h =
        elim (Bool-cases (all_safe is_word (normalize_id id))) [
          | inr e ↦ rw e h
          | inl e ↦ rw e (go write e)
        ]
      where
        go :
            (w : Option Error)
            → IsSafe id
            → StaysAgreed
                (saves id msgs made write)
                m
                (save_at is_word (ok (file_named id)) msgs w files)
        go none safe = insert-Agrees id msgs files m safe h
        go (some x) safe = h

    delete_at-Agrees :
        (id : Text) (removed : Option Error) (files : Table (List Message)) (m : Memory)
        → Agrees files m
        → StaysAgreed (deletes id removed) m (delete_at is_word (path is_word dir id) removed files)
    unfolding path safe_id path_of
    delete_at-Agrees id removed files m h = elim (Bool-cases (all_safe is_word (normalize_id id))) [
      | inr e ↦ rw e h
      | inl e ↦ rw e (go removed e)
    ]
      where
        go :
            (w : Option Error)
            → IsSafe id
            → StaysAgreed (deletes id removed) m (delete_at is_word (ok (file_named id)) w files)
        go none safe = delete-Agrees id files m safe h
        go (some x) safe = h

    on_files-Agrees :
        (c : Call) (files : Table (List Message)) (m : Memory)
        → is_blank dir ≡ false
        → Agrees files m
        → StaysAgreed c m (on_files c files)
    unfolding file_save file_delete
    on_files-Agrees (saves id msgs none write) files m d h =
        rw d (save_at-Agrees id msgs none write files m h)
    on_files-Agrees (saves id msgs (some e) write) files m d h = rw d h
    on_files-Agrees (deletes id removed) files m d h = delete_at-Agrees id removed files m h

    on_both-Agrees :
        (cs : List Call) (files : Table (List Message)) (m : Memory)
        → is_blank dir ≡ false
        → Agrees files m
        → Agrees (on_both cs files m).0 (on_both cs files m).1
    unfolding on_both
    on_both-Agrees [] files m d h = h
    on_both-Agrees (c ∷ cs) files m d h =
        on_both-Agrees cs (on_files c files).1 (if_done (on_files c files).0 c m) d
          (on_files-Agrees c files m d h)

    -- If neither "/" nor "." counts as a letter or digit, the directory is not blank, and an id
    -- has a file, then after any sequence of saves and deletes in files, whatever errors the disk
    -- gives and whatever the ids, Load of this id gives what the store in the process gives after
    -- those of the calls that returned no error.
    pub file_load-eq-memory_load :
        (cs : List Call) (id : Text)
        → is_blank dir ≡ false
        → all_safe is_word (normalize_id id) ≡ true
        → file_load is_word dir id (on_both cs [] []).0 ≡ ok (memory_load id (on_both cs [] []).1)
    unfolding file_load memory_load lookup
    file_load-eq-memory_load cs id d safe = rw d (
        ap (λ (p : Result Text). load_at is_word p (on_both cs [] []).0)
          (path-safe is_word dir id safe)
        ∙ ap (λ (o : Option (List Message)). ok (messages_of o))
            (on_both-Agrees cs [] [] d (λ j sj. refl) id safe))
