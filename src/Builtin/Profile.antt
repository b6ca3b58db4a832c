-- ===== src/Builtin/Profile.antt =====
-- tool/builtin.go: the tools that write to the profile, over the profile of agent/memory.go.
use agent_go.Prelude.{List, ◌++◌, Option, none, some, ◌⊎◌, inl, inr, if◌then◌else◌, length}
use agent_go.Text.{Text, CaseTables, codes, is_blank, fields, decimal}
use agent_go.Errors.{Error, new_error}
use agent_go.Agent.Memory.{
  Memory, Write, Result, ok, err, MemoryError, remember, set_field, apply_patch,
}

-- A result of Run, with the profile after it.
abbrev pub Ran : Type 0
Ran = (Text ⊎ Error) × Option Memory

module _ (u : CaseTables) (error_text : MemoryError → Text) where
  abbrev pub stored : Result Text × Memory → Ran
  stored (ok t, m) = (inl t, some m)
  stored (err e, m) = (inr (new_error (error_text e)), some m)

  abbrev pub no_store : Error
  no_store = new_error (codes "no profile store configured")

  -- (EchoNote).Run, for ParseArgs and what the disk does
  unfoldable pub echo_note : (Text → Text ⊎ Error) → Write → Text → Option Memory → Ran
  unfolding remember is_blank
  echo_note parse w args store = elim (parse args) [
    | inr e ↦ (inr e, store)
    | inl text ↦
        if is_blank text then (inr (new_error (codes "text is empty")), store) else elim store [
          | none ↦ (inl (codes "noted (ephemeral, no profile store): " ++ text), none)
          | some m ↦ let (reply, n) = remember w text m in (inl reply, some n)
        ]
  ]

  -- (MemorySet).Run
  unfoldable pub memory_set : (Text → (Text × Text) ⊎ Error) → Write → Text → Option Memory → Ran
  unfolding set_field
  memory_set parse w args store = elim (parse args) [
    | inr e ↦ (inr e, store)
    | inl (field, value) ↦ elim store [
      | none ↦ (inr no_store, none)
      | some m ↦ stored (set_field u w field value m)
    ]
  ]

  -- (ProfileUpdate).Run
  unfoldable pub profile_update :
      (Text → (Text × List Text × List Text) ⊎ Error) → Write → Text → Option Memory → Ran
  unfolding apply_patch
  profile_update parse w args store = elim (parse args) [
    | inr e ↦ (inr e, store)
    | inl (name, likes, notes) ↦ elim store [
      | none ↦ (inr no_store, none)
      | some m ↦ stored (apply_patch u w name likes notes m)
    ]
  ]

-- (WordCount).Run
unfoldable pub word_count : (Text → Text ⊎ Error) → Text → Text ⊎ Error
unfolding fields decimal
word_count parse args = elim (parse args) [
  | inr e ↦ inr e
  | inl text ↦ inl (decimal (length (fields text)))
]
