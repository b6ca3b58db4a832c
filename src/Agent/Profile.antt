-- ===== src/Agent/Profile.antt =====
-- The [user_profile] block of agent/memory.go: rendered from the fields, put in before every chat.
use agent_go.Prelude.{
  ℕ, suc, ◌≡◌, refl, ◌∙◌, Bool, true, false, ◌&&◌, not, List, [], ◌∷◌, ◌++◌, Option, none, some,
  arith, if◌then◌else◌, filter, take, drop, All, Bool-cases, inl, inr, map, concat,
}
use agent_go.Text.{Text, codes, is_empty, is_nil, has_prefix, join, trim_space}
use agent_go.Llm.{Message, is_system, system, text_message}
use agent_go.Agent.Memory.{Memory, Fields, empty_fields}
use agent_go.Agent.Protocol.{IsPaired}
use agent_go.Agent.Protocol.Systems.{filter-IsPaired, insert-IsPaired, IsSystem}
use agent_go.Agent.Spoken.{spoken, spoken-insert, spoken-filter}

unfoldable pub profile_marker : Text
profile_marker = codes "[user_profile]"

-- isProfileMessage
unfoldable pub is_profile_message : Message → Bool
is_profile_message m = is_system m.role && has_prefix m.content profile_marker

abbrev note_line : Text → Text
note_line n = codes "  - " ++ (n ++ codes "\n")

abbrev name_part : Fields → Text
name_part f = if is_empty f.name then [] else codes "- name: " ++ (f.name ++ codes "\n")

abbrev likes_part : Fields → Text
likes_part f =
    if is_nil f.likes then [] else codes "- likes: " ++ (join (codes "; ") f.likes ++ codes "\n")

abbrev notes_part : Fields → Text
notes_part f = if is_nil f.notes then [] else codes "- notes:\n" ++ concat (map note_line f.notes)

-- RenderSystemBlock
unfoldable pub render_system_block : Fields → Text
render_system_block f =
    if empty_fields f
    then []
    else trim_space (
        profile_marker
        ++ (codes "\nDurable user profile (structured fields; prefer over chat fluff):\n"
            ++ (name_part f ++ (likes_part f ++ notes_part f))))

abbrev block_of : Option Memory → Text
block_of none = []
block_of (some m) = render_system_block m.fields

-- The scan `for insertAt < len(filtered) && filtered[insertAt].Role == llm.RoleSystem`.
unfoldable pub leading_systems : List Message → ℕ
leading_systems [] = 0
leading_systems (m ∷ msgs) =
    let rest = leading_systems msgs in if is_system m.role then suc rest else 0

-- stripProfileMessages of agent/agent.go
unfoldable pub strip_profile_messages : List Message → List Message
strip_profile_messages msgs = filter (λ m. not (is_profile_message m)) msgs

abbrev put_block : Text → List Message → List Message
put_block block filtered =
    if is_empty block
    then filtered
    else take (leading_systems filtered) filtered
      ++ text_message system block ∷ drop (leading_systems filtered) filtered

-- upsertProfile
unfoldable pub upsert_profile : List Message → Option Memory → List Message
unfolding strip_profile_messages leading_systems render_system_block
upsert_profile msgs mem = put_block (block_of mem) (strip_profile_messages msgs)

not_profile : (m : Message) → not (is_profile_message m) ≡ false → is_system m.role ≡ true
unfolding is_profile_message
not_profile m h = ground arith

leading_systems-IsSystem : (msgs : List Message) → All IsSystem (take (leading_systems msgs) msgs)
unfolding leading_systems
leading_systems-IsSystem [] = tt
leading_systems-IsSystem (m ∷ msgs) = elim (Bool-cases (is_system m.role)) [
  | inl e ↦ rw e (e, leading_systems-IsSystem msgs)
  | inr e ↦ rw e tt
]

pub strip_profile_messages-IsPaired :
    (msgs : List Message) → IsPaired msgs → IsPaired (strip_profile_messages msgs)
unfolding strip_profile_messages
strip_profile_messages-IsPaired msgs h =
    filter-IsPaired (λ m. not (is_profile_message m)) not_profile msgs h

pub spoken-strip_profile_messages :
    (msgs : List Message) → spoken (strip_profile_messages msgs) ≡ spoken msgs
unfolding strip_profile_messages
spoken-strip_profile_messages msgs =
    spoken-filter (λ m. not (is_profile_message m)) msgs not_profile

put_block-IsPaired :
    (block : Text) (msgs : List Message) → IsPaired msgs → IsPaired (put_block block msgs)
put_block-IsPaired block msgs h = elim (Bool-cases (is_empty block)) [
  | inl e ↦ rw e h
  | inr e ↦ rw e (
      insert-IsPaired (leading_systems msgs) (text_message system block) msgs
        (leading_systems-IsSystem msgs) refl h)
]

spoken-put_block :
    (block : Text) (msgs : List Message) → spoken (put_block block msgs) ≡ spoken msgs
spoken-put_block block msgs = elim (Bool-cases (is_empty block)) [
  | inl e ↦ rw e
  | inr e ↦ rw e (spoken-insert (leading_systems msgs) (text_message system block) msgs refl)
]

-- Showing the profile to the model changes nothing that was said.
pub upsert_profile-IsPaired :
    (msgs : List Message) (mem : Option Memory) → IsPaired msgs → IsPaired (upsert_profile msgs mem)
unfolding upsert_profile
upsert_profile-IsPaired msgs mem h =
    put_block-IsPaired (block_of mem) _ (strip_profile_messages-IsPaired msgs h)

pub spoken-upsert_profile :
    (msgs : List Message) (mem : Option Memory) → spoken (upsert_profile msgs mem) ≡ spoken msgs
unfolding upsert_profile
spoken-upsert_profile msgs mem =
    spoken-put_block (block_of mem) (strip_profile_messages msgs)
    ∙ spoken-strip_profile_messages msgs
