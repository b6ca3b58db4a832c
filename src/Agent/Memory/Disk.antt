-- ===== src/Agent/Memory/Disk.antt =====
-- The profile and its file (agent/memory.go): what a restart finds.
use agent_go.Prelude.{
  ◌≡◌, refl, ◌∙◌, Bool, true, false, ◌||◌, List, [], ◌∷◌, arith, Bool-cases, inl, inr,
}
use agent_go.Text.{Text, CaseTables, is_empty, text_eq, trim_space, codes, to_lower}
use agent_go.Agent.Memory.{
  Fields, Memory, Write, written, ok, load_memory, persist, clear, remember, set_named, set_field,
  patch_like, patch_likes, patch_note, patch_notes, patch_name, patch_fields, finish_patch,
  apply_patch, Call, clears, remembers, sets, patches, update, run_updates, add_note, add_like,
  set_name, no_fields,
}

-- A restart loads just this profile.
abbrev pub IsSaved : Memory → Type 0
IsSaved m = load_memory m.path m.disk ≡ ok m

-- The file has a name.
abbrev pub IsNamed : Memory → Type 0
IsNamed m = is_empty m.path ≡ false

persist-IsSaved : (m : Memory) → IsNamed m → IsSaved (persist written m)
unfolding persist load_memory
persist-IsSaved m h = rw h

path-persist : (w : Write) (m : Memory) → (persist w m).path ≡ m.path
unfolding persist
path-persist w m = ground arith

-- A write is saved whole, or changes nothing.
abbrev Keeps : Memory → Memory → Type 0
Keeps m m' = (IsSaved m') × (m'.path ≡ m.path)

persist-Keeps : (m m' : Memory) → IsNamed m → m'.path ≡ m.path → Keeps m (persist written m')
persist-Keeps m m' h e = (persist-IsSaved m' (rw e h), path-persist written m' ∙ e)

module _ (u : CaseTables) where
  remember-Keeps :
      (text : Text) (m : Memory) → IsNamed m → IsSaved m → Keeps m (remember written text m).1
  unfolding remember
  remember-Keeps text m h s = elim (Bool-cases (is_empty (trim_space text))) [
    | inl e ↦ rw e (s, refl)
    | inr e ↦
        rw e (persist-Keeps m (record m { fields = add_note (trim_space text) m.fields }) h refl)
  ]

  set_named-Keeps :
      (field v : Text) (m : Memory)
      → IsNamed m
      → IsSaved m
      → Keeps m (set_named u written field v m).1
  unfolding set_named
  set_named-Keeps field v m h s = elim (Bool-cases (text_eq field (codes "name"))) [
    | inl n ↦ rw n (persist-Keeps m (record m { fields = set_name v m.fields }) h refl)
    | inr n ↦ elim (Bool-cases (text_eq field (codes "like") || text_eq field (codes "likes"))) [
      | inl l ↦ rw n (rw l (persist-Keeps m (record m { fields = add_like u v m.fields }) h refl))
      | inr l ↦ elim (Bool-cases (text_eq field (codes "note") || text_eq field (codes "notes"))) [
        | inl k ↦
            rw n (rw l (rw k (persist-Keeps m (record m { fields = add_note v m.fields }) h refl)))
        | inr k ↦ rw n (rw l (rw k (s, refl)))
      ]
    ]
  ]

  set_field-Keeps :
      (field value : Text) (m : Memory)
      → IsNamed m
      → IsSaved m
      → Keeps m (set_field u written field value m).1
  unfolding set_field
  set_field-Keeps field value m h s = elim (Bool-cases (is_empty (trim_space value))) [
    | inl e ↦ rw e (s, refl)
    | inr e ↦ rw e (set_named-Keeps (to_lower u (trim_space field)) (trim_space value) m h s)
  ]

  -- A patch that reports nothing given has changed nothing.
  abbrev Untouched : Fields → Fields × Bool → Type 0
  Untouched f s = s.1 ≡ false → s.0 ≡ f

  patch_like-Untouched :
      (f : Fields) (l : Text) (s : Fields × Bool) → Untouched f s → Untouched f (patch_like u l s)
  unfolding patch_like
  patch_like-Untouched f l (g, changed) h = elim (Bool-cases (is_empty (trim_space l))) [
    | inl e ↦ rw e h
    | inr e ↦ rw e (λ c. cc)
  ]

  patch_note-Untouched :
      (f : Fields) (l : Text) (s : Fields × Bool) → Untouched f s → Untouched f (patch_note u l s)
  unfolding patch_note
  patch_note-Untouched f l (g, changed) h = elim (Bool-cases (is_empty (trim_space l))) [
    | inl e ↦ rw e h
    | inr e ↦ rw e (λ c. cc)
  ]

  patch_likes-Untouched :
      (f : Fields) (ls : List Text) (s : Fields × Bool)
      → Untouched f s
      → Untouched f (patch_likes u ls s)
  unfolding patch_likes
  patch_likes-Untouched f [] s h = h
  patch_likes-Untouched f (l ∷ ls) s h =
      patch_likes-Untouched f ls (patch_like u l s) (patch_like-Untouched f l s h)

  patch_notes-Untouched :
      (f : Fields) (ls : List Text) (s : Fields × Bool)
      → Untouched f s
      → Untouched f (patch_notes u ls s)
  unfolding patch_notes
  patch_notes-Untouched f [] s h = h
  patch_notes-Untouched f (l ∷ ls) s h =
      patch_notes-Untouched f ls (patch_note u l s) (patch_note-Untouched f l s h)

  patch_fields-Untouched :
      (name : Text) (likes notes : List Text) (f : Fields)
      → Untouched f (patch_fields u name likes notes f)
  unfolding patch_fields
  patch_fields-Untouched name likes notes f =
      patch_notes-Untouched f notes _ (patch_likes-Untouched f likes _ first)
    where
      first : Untouched f (patch_name u name f)
      first = elim (Bool-cases (is_empty (trim_space name))) [
        | inl e ↦ rw e (λ _. refl)
        | inr e ↦ rw e (λ c. cc)
      ]

  finish_patch-Keeps :
      (m : Memory) (s : Fields × Bool)
      → IsNamed m
      → IsSaved m
      → Untouched m.fields s
      → Keeps m (finish_patch u written m s).1
  finish_patch-Keeps m (f, true) h s k = persist-Keeps m (record m { fields = f }) h refl
  finish_patch-Keeps m (f, false) h s k = rw (k refl) (s, refl)

  apply_patch-Keeps :
      (name : Text) (likes notes : List Text) (m : Memory)
      → IsNamed m
      → IsSaved m
      → Keeps m (apply_patch u written name likes notes m).1
  unfolding apply_patch
  apply_patch-Keeps name likes notes m h s =
      finish_patch-Keeps m _ h s (patch_fields-Untouched name likes notes m.fields)

  update-Keeps : (c : Call) (m : Memory) → IsNamed m → IsSaved m → Keeps m (update u (written, c) m)
  unfolding update clear
  update-Keeps clears m h s = persist-Keeps m (record m { fields = no_fields }) h refl
  update-Keeps (remembers text) m h s = remember-Keeps text m h s
  update-Keeps (sets field value) m h s = set_field-Keeps field value m h s
  update-Keeps (patches name likes notes) m h s = apply_patch-Keeps name likes notes m h s

  abbrev pub all_written : List Call → List (Write × Call)
  all_written [] = []
  all_written (c ∷ cs) = (written, c) ∷ all_written cs

  -- If the profile has a file, the file holds the profile, and every write succeeds, then after
  -- any sequence of updates the file holds the profile as it then stands.
  pub run_updates-IsSaved :
      (cs : List Call) (m : Memory)
      → IsNamed m
      → IsSaved m
      → IsSaved (run_updates u (all_written cs) m)
  unfolding run_updates
  run_updates-IsSaved [] m h s = s
  run_updates-IsSaved (c ∷ cs) m h s =
      let (s', e) = update-Keeps c m h s in
      run_updates-IsSaved cs (update u (written, c) m) (rw e h) s'
