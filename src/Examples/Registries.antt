-- ===== src/Examples/Registries.antt =====
-- Concrete runs of a registry.
use agent_go.Prelude.{length, ◌≤◌, ◌≡◌, refl, [], ◌∷◌, none}
use agent_go.Prelude.Int.{pos}
use agent_go.Text.{Text, codes, text_eq}
use agent_go.Text.Table.{lookup, insert, delete, mem}
use agent_go.Llm.{zero_usage}
use agent_go.Run.Registry.{
  Registry, Live, new_registry, new_live, register, finish, evict, outcome, finished, sort_items,
  drop_items,
}
use agent_go.Run.Eviction.{IsEvicted, evict-IsEvicted}
use agent_go.Run.Bound.{length-evict}
use agent_go.Run.Exclusive.{registers, finishes, Reach, here, next, Reach-IsExclusive, IsHeldBy}
use agent_go.Run.Ownership.{IsExclusive}

abbrev session : Text
session = codes "s_1"

abbrev run_id : Text
run_id = codes "r_1"

-- Room for one finished run
abbrev vacant : Registry
vacant = new_registry (pos 1)

abbrev busy : Registry
busy = (register run_id session [] (codes "hello") 5 vacant).1

abbrev first_run : Live
first_run = new_live run_id session [] (codes "hello") 5

abbrev after_first : Registry
after_first = (finish (run_id ∷ []) run_id session [] zero_usage (codes "hi") none none 9 busy).1

vacant-IsExclusive : IsExclusive vacant
unfolding lookup
vacant-IsExclusive = record { owned = λ s id e. cc; listed = λ id lv e r. cc }

busy_reach : Reach vacant busy
unfolding lookup
busy_reach = next here (registers run_id session [] (codes "hello") 5 refl)

done_reach : Reach vacant after_first
unfolding register lookup insert text_eq
done_reach =
    next busy_reach
      (finishes (run_id ∷ []) run_id [] (codes "hi") zero_usage none none 9 first_run refl refl)

Reach-IsExclusive_example : IsExclusive after_first
Reach-IsExclusive_example = Reach-IsExclusive done_reach vacant-IsExclusive

busy-IsExclusive : IsExclusive busy
busy-IsExclusive = Reach-IsExclusive busy_reach vacant-IsExclusive

busy_held : IsHeldBy busy session run_id
unfolding register lookup insert text_eq
busy_held = (first_run, refl, refl, refl)

-- The session is free again, and the run is kept.
free_again : lookup session after_first.by_session ≡ none
unfolding register finish evict lookup insert delete text_eq outcome finished sort_items drop_items
free_again = refl

evict-IsEvicted_example : IsEvicted after_first.by_id (evict (run_id ∷ []) after_first).by_id
evict-IsEvicted_example = evict-IsEvicted (run_id ∷ []) after_first

length-evict_example : length (finished (run_id ∷ []) (evict (run_id ∷ []) after_first).by_id) ≤ 1
unfolding mem finish lookup register insert text_eq
length-evict_example = length-evict (run_id ∷ []) after_first (refl, tt)
