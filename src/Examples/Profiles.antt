-- ===== src/Examples/Profiles.antt =====
-- The profile, written by tools.
use agent_go.Prelude.{◌≡◌, refl, List, [], ◌∷◌, length}
use agent_go.Text.{codes, is_empty, text_eq, equal_fold, trim_space, to_lower}
use agent_go.Agent.Clip.{clip_runes}
use agent_go.Agent.Memory.{
  Memory, Call, remembers, sets, patches, missing, saved, no_fields, run_updates, load_memory,
}
use agent_go.Agent.Memory.Bounds.{IsBounded, no_fields-IsBounded, run_updates-IsBounded}
use agent_go.Agent.Memory.Disk.{IsSaved, run_updates-IsSaved, all_written}
use agent_go.Examples.Data.{ascii}

abbrev empty_memory : Memory
empty_memory = record { fields = no_fields; path = codes ".agent_memory.json"; disk = missing }

abbrev calls : List Call
calls =
    sets (codes "name") (codes "Ann")
    ∷ patches [] (codes "tea" ∷ codes "TEA" ∷ []) []
    ∷ remembers (codes "works at night")
    ∷ []

run_updates-IsBounded_example :
    IsBounded ascii (run_updates ascii (all_written ascii calls) empty_memory).fields
run_updates-IsBounded_example =
    run_updates-IsBounded ascii (all_written ascii calls) empty_memory (no_fields-IsBounded ascii)

one_like : length (run_updates ascii (all_written ascii calls) empty_memory).fields.likes ≡ 1
unfolding run_updates clip_runes trim_space is_empty text_eq equal_fold to_lower
one_like = refl

run_updates-IsSaved_example :
    IsSaved
      (run_updates ascii (all_written ascii calls) (record empty_memory { disk = saved no_fields }))
unfolding is_empty load_memory
run_updates-IsSaved_example =
    run_updates-IsSaved ascii calls (record empty_memory { disk = saved no_fields }) refl refl
