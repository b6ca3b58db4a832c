-- ===== src/Task/Store.antt =====
-- The stores of task/store.go: the map with an order, and the document in a file.
use agent_go.Prelude.{Bool, true, false, List, [], ◌∷◌, ◌++◌, Option, none, some, if◌then◌else◌}
use agent_go.Text.{Text, text_eq}
use agent_go.Text.Table.{Table, lookup, insert}
use agent_go.Errors.{Error}
use agent_go.Task.{Task}
use agent_go.Task.Manager.{list_from}

pub record MemoryStore : Type 0 where
  pub tasks : Table Task
  pub order : List Text

abbrev pub is_known : Option Task → Bool
is_known none = false
is_known (some t) = true

-- (*MemoryStore).Put
unfoldable pub memory_put : Task → MemoryStore → MemoryStore
memory_put t s = record {
  tasks = insert t.id t s.tasks;
  order = if is_known (lookup t.id s.tasks) then s.order else s.order ++ t.id ∷ [];
}

-- (*MemoryStore).List; it never fails.
abbrev pub memory_list : MemoryStore → List Task
memory_list s = list_from s.order s.tasks

-- The document of a FileStore: what it lists.
-- `for i, x := range doc.Tasks { if x.ID == t.ID { doc.Tasks[i] = t; ... break } }`, and the append
unfoldable pub put_doc : Task → List Task → List Task
put_doc t [] = t ∷ []
put_doc t (x ∷ xs) = let rest = put_doc t xs in if text_eq x.id t.id then t ∷ xs else x ∷ rest

-- The loop of (*FileStore).Get
unfoldable pub find_doc : Text → List Task → Option Task
find_doc id [] = none
find_doc id (x ∷ xs) = if text_eq x.id id then some x else find_doc id xs

-- (*FileStore).Put: what read gives, and whether write succeeds. The error, and the document on disk
unfoldable pub file_put :
    Task → (List Task → Option Error) → Option Error → List Task → Option Error × List Task
file_put t write (some e) doc = (some e, doc)
file_put t write none doc = elim (write (put_doc t doc)) [
  | some e ↦ (some e, doc)
  | none ↦ (none, put_doc t doc)
]
