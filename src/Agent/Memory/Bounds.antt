-- ===== src/Agent/Memory/Bounds.antt =====
-- The bounds of the profile of agent/memory.go.
use agent_go.Prelude.{
  ◌≤◌, ◌≡◌, Bool, true, false, ◌||◌, List, [], ◌∷◌, arith, length, any, Bool-cases, inl, inr, subst,
  sym,
}
use agent_go.Text.{
  Text, CaseTables, is_empty, text_eq, equal_fold, trim_space, codes, to_lower, text_eq_refl,
  equal_fold_refl,
}
use agent_go.Agent.Clip.{clip_runes, length-clip_runes}
use agent_go.Agent.Memory.{
  Fields, Memory, Write, max_likes, max_notes, max_like_runes, max_note_runes, max_name_runes,
  set_name, add_like, add_note, persist, remember, set_named, set_field, patch_like, patch_likes,
  patch_note, patch_notes, patch_name, patch_fields, finish_patch, apply_patch, clear, no_fields,
  Call, clears, remembers, sets, patches, update, run_updates,
}
use agent_go.Agent.Memory.Distinct.{IsBoundedList, add_distinct-IsBoundedList, add_distinct_records}

module _ (u : CaseTables) where
  pub record IsBounded (f : Fields) : Type 0 where
    pub short_name : length f.name ≤ max_name_runes
    pub few_likes : IsBoundedList (equal_fold u) max_likes max_like_runes f.likes
    pub few_notes : IsBoundedList text_eq max_notes max_note_runes f.notes

  pub no_fields-IsBounded : IsBounded no_fields
  no_fields-IsBounded = record {
    short_name = omega arith;
    few_likes = record { few = omega arith; entries = tt; distinct = tt };
    few_notes = record { few = omega arith; entries = tt; distinct = tt };
  }

  set_name-IsBounded : (v : Text) (f : Fields) → IsBounded f → IsBounded (set_name v f)
  unfolding set_name
  set_name-IsBounded v f b = record {
    short_name = length-clip_runes v 39;
    few_likes = b.few_likes;
    few_notes = b.few_notes;
  }

  add_like-IsBounded : (v : Text) (f : Fields) → IsBounded f → IsBounded (add_like u v f)
  unfolding add_like
  add_like-IsBounded v f b = record {
    short_name = b.short_name;
    few_likes =
        add_distinct-IsBoundedList (equal_fold u) max_likes max_like_runes
          (clip_runes v max_like_runes) f.likes b.few_likes (length-clip_runes v 39);
    few_notes = b.few_notes;
  }

  add_note-IsBounded : (v : Text) (f : Fields) → IsBounded f → IsBounded (add_note v f)
  unfolding add_note
  add_note-IsBounded v f b = record {
    short_name = b.short_name;
    few_likes = b.few_likes;
    few_notes =
        add_distinct-IsBoundedList text_eq max_notes max_note_runes (clip_runes v max_note_runes)
          f.notes b.few_notes (length-clip_runes v 119);
  }

  fields-persist : (w : Write) (m : Memory) → (persist w m).fields ≡ m.fields
  unfolding persist
  fields-persist w m = ground arith

  persist-IsBounded : (w : Write) (m : Memory) → IsBounded m.fields → IsBounded (persist w m).fields
  persist-IsBounded w m b = subst IsBounded (sym (fields-persist w m)) b

  remember-IsBounded :
      (w : Write) (text : Text) (m : Memory)
      → IsBounded m.fields
      → IsBounded (remember w text m).1.fields
  unfolding remember
  remember-IsBounded w text m b = elim (Bool-cases (is_empty (trim_space text))) [
    | inl e ↦ rw e b
    | inr e ↦ rw e (persist-IsBounded w _ (add_note-IsBounded (trim_space text) m.fields b))
  ]

  set_named-IsBounded :
      (w : Write) (field v : Text) (m : Memory)
      → IsBounded m.fields
      → IsBounded (set_named u w field v m).1.fields
  unfolding set_named
  set_named-IsBounded w field v m b = elim (Bool-cases (text_eq field (codes "name"))) [
    | inl n ↦ rw n (persist-IsBounded w _ (set_name-IsBounded v m.fields b))
    | inr n ↦ elim (Bool-cases (text_eq field (codes "like") || text_eq field (codes "likes"))) [
      | inl l ↦ rw n (rw l (persist-IsBounded w _ (add_like-IsBounded v m.fields b)))
      | inr l ↦ elim (Bool-cases (text_eq field (codes "note") || text_eq field (codes "notes"))) [
        | inl k ↦ rw n (rw l (rw k (persist-IsBounded w _ (add_note-IsBounded v m.fields b))))
        | inr k ↦ rw n (rw l (rw k b))
      ]
    ]
  ]

  set_field-IsBounded :
      (w : Write) (field value : Text) (m : Memory)
      → IsBounded m.fields
      → IsBounded (set_field u w field value m).1.fields
  unfolding set_field
  set_field-IsBounded w field value m b = elim (Bool-cases (is_empty (trim_space value))) [
    | inl e ↦ rw e b
    | inr e ↦ rw e (set_named-IsBounded w (to_lower u (trim_space field)) (trim_space value) m b)
  ]

  patch_like-IsBounded :
      (like : Text) (s : Fields × Bool) → IsBounded s.0 → IsBounded (patch_like u like s).0
  unfolding patch_like
  patch_like-IsBounded like (f, changed) b = elim (Bool-cases (is_empty (trim_space like))) [
    | inl e ↦ rw e b
    | inr e ↦ rw e (add_like-IsBounded (trim_space like) f b)
  ]

  patch_likes-IsBounded :
      (ls : List Text) (s : Fields × Bool) → IsBounded s.0 → IsBounded (patch_likes u ls s).0
  unfolding patch_likes
  patch_likes-IsBounded [] s b = b
  patch_likes-IsBounded (l ∷ ls) s b =
      patch_likes-IsBounded ls (patch_like u l s) (patch_like-IsBounded l s b)

  patch_note-IsBounded :
      (note : Text) (s : Fields × Bool) → IsBounded s.0 → IsBounded (patch_note u note s).0
  unfolding patch_note
  patch_note-IsBounded note (f, changed) b = elim (Bool-cases (is_empty (trim_space note))) [
    | inl e ↦ rw e b
    | inr e ↦ rw e (add_note-IsBounded (trim_space note) f b)
  ]

  patch_notes-IsBounded :
      (ns : List Text) (s : Fields × Bool) → IsBounded s.0 → IsBounded (patch_notes u ns s).0
  unfolding patch_notes
  patch_notes-IsBounded [] s b = b
  patch_notes-IsBounded (n ∷ ns) s b =
      patch_notes-IsBounded ns (patch_note u n s) (patch_note-IsBounded n s b)

  patch_fields-IsBounded :
      (name : Text) (likes notes : List Text) (f : Fields)
      → IsBounded f
      → IsBounded (patch_fields u name likes notes f).0
  unfolding patch_fields
  patch_fields-IsBounded name likes notes f b =
      patch_notes-IsBounded notes _ (patch_likes-IsBounded likes _ first)
    where
      first : IsBounded (patch_name u name f).0
      first = elim (Bool-cases (is_empty (trim_space name))) [
        | inl e ↦ rw e b
        | inr e ↦ rw e (set_name-IsBounded (trim_space name) f b)
      ]

  finish_patch-IsBounded :
      (w : Write) (m : Memory) (s : Fields × Bool)
      → IsBounded s.0
      → IsBounded (finish_patch u w m s).1.fields
  finish_patch-IsBounded w m (f, true) b = persist-IsBounded w (record m { fields = f }) b
  finish_patch-IsBounded w m (f, false) b = b

  apply_patch-IsBounded :
      (w : Write) (name : Text) (likes notes : List Text) (m : Memory)
      → IsBounded m.fields
      → IsBounded (apply_patch u w name likes notes m).1.fields
  unfolding apply_patch
  apply_patch-IsBounded w name likes notes m b =
      finish_patch-IsBounded w m _ (patch_fields-IsBounded name likes notes m.fields b)

  clear-IsBounded : (w : Write) (m : Memory) → IsBounded (clear w m).fields
  unfolding clear
  clear-IsBounded w m = persist-IsBounded w (record m { fields = no_fields }) no_fields-IsBounded

  pub update-IsBounded :
      (c : Write × Call) (m : Memory) → IsBounded m.fields → IsBounded (update u c m).fields
  unfolding update
  update-IsBounded (w, clears) m h = clear-IsBounded w m
  update-IsBounded (w, remembers text) m h = remember-IsBounded w text m h
  update-IsBounded (w, sets field value) m h = set_field-IsBounded w field value m h
  update-IsBounded (w, patches name likes notes) m h = apply_patch-IsBounded w name likes notes m h

  -- If a profile is within its bounds, then it is so after any sequence of updates, whether each
  -- write succeeds or not: the name, the likes and the notes have at most their number of runes,
  -- there are at most 12 likes and 16 notes, none of them is empty, no two likes are equal under
  -- case folding and no two notes are equal.
  pub run_updates-IsBounded :
      (cs : List (Write × Call)) (m : Memory)
      → IsBounded m.fields
      → IsBounded (run_updates u cs m).fields
  unfolding run_updates
  run_updates-IsBounded [] m h = h
  run_updates-IsBounded (c ∷ cs) m h =
      run_updates-IsBounded cs (update u c m) (update-IsBounded c m h)

  -- If the clipped like is not empty, then after addLike the likes hold one that equals it under
  -- case folding.
  pub add_like_records :
      (v : Text) (f : Fields)
      → is_empty (clip_runes v max_like_runes) ≡ false
      → any (λ x. equal_fold u x (clip_runes v max_like_runes)) (add_like u v f).likes ≡ true
  unfolding add_like
  add_like_records v f e =
      add_distinct_records (equal_fold u) 11 (clip_runes v max_like_runes) f.likes
        (equal_fold_refl u (clip_runes v max_like_runes)) e

-- If the clipped note is not empty, then after addNote the notes hold it.
pub add_note_records :
    (v : Text) (f : Fields)
    → is_empty (clip_runes v max_note_runes) ≡ false
    → any (λ x. text_eq x (clip_runes v max_note_runes)) (add_note v f).notes ≡ true
unfolding add_note
add_note_records v f e =
    add_distinct_records text_eq 15 (clip_runes v max_note_runes) f.notes
      (text_eq_refl (clip_runes v max_note_runes)) e
