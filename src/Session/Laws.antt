-- ===== src/Session/Laws.antt =====
-- What the agent relies on of a store of sessions (session/store.go), as an interface, and Memory
-- as an instance.
use agent_go.Prelude.{◌≡◌, refl, ap, List, [], none, some}
use agent_go.Text.{Text}
use agent_go.Text.Table.{lookup-insert_self, lookup-delete_self}
use agent_go.Llm.{Message}
use agent_go.Agent.Loop.{Env, Event}
use agent_go.Session.{Memory, messages_of, memory_load, memory_save, memory_delete}

-- What was saved is loaded, and nothing after a deletion; events leave the store alone.
pub record HasStore {W : Type 0} (env : Env W) : Type 0 where
  pub load-save :
      (id : Text) (msgs : List Message) (w : W)
      → env.load id (env.save id msgs w) ≡ some (msgs, none)
  pub load-forget : (id : Text) (w : W) → env.load id (env.forget id w) ≡ some ([], none)
  pub load-emit : (id : Text) (e : Event) (w : W) → env.load id (env.emit e w) ≡ env.load id w

-- An agent whose world is a Memory, and which has the rest from `env`.
abbrev pub with_memory : Env Memory → Env Memory
with_memory env = record env {
  emit = λ e w. w;
  save = memory_save;
  forget = memory_delete;
  load = λ id w. some (memory_load id w, none);
}

pub with_memory-HasStore : (env : Env Memory) → HasStore (with_memory env)
unfolding memory_load memory_save memory_delete
with_memory-HasStore env = record {
  load-save = λ id msgs w. ap (λ o. some (messages_of o, none)) (lookup-insert_self _ msgs w);
  load-forget = λ id w. ap (λ o. some (messages_of o, none)) (lookup-delete_self _ w);
  load-emit = λ id e w. refl;
}
