-- ===== src/Task/Agreement.antt =====
-- The two stores of task/store.go against each other.
use agent_go.Prelude.{
  ◌≡◌, refl, sym, ap, ◌∙◌, subst, Bool, true, false, List, [], ◌∷◌, ◌++◌, Option, none, some,
  Bool-cases, inl, inr,
}
use agent_go.Text.{Text, text_ne_sym, text_eq, text_eq_iff}
use agent_go.Text.Table.{Table, lookup, insert, mem, lookup-insert_self, lookup-insert_ne}
use agent_go.Task.{Task}
use agent_go.Task.Manager.{list_from}
use agent_go.Task.Places.{pushed, pushed_ne}
use agent_go.Prelude.{◌||◌}
use agent_go.Task.Store.{MemoryStore, is_known, memory_put, memory_list, put_doc, find_doc}

-- A map and an order stand for a document: the same tasks in the same order, each under its id once.
abbrev AreIn : List Text → Table Task → List Task → Type 0
AreIn [] m [] = Unit
AreIn [] m (t ∷ ts) = ⊥
AreIn (id ∷ ids) m [] = ⊥
AreIn (id ∷ ids) m (t ∷ ts) =
    (lookup id m ≡ some t) × (t.id ≡ id) × (mem id ids ≡ false) × AreIn ids m ts

pub record Stands (s : MemoryStore) (doc : List Task) : Type 0 where
  pub listed : AreIn s.order s.tasks doc
  pub known : (id : Text) → mem id s.order ≡ is_known (lookup id s.tasks)

unknown_none : (o : Option Task) → is_known o ≡ false → o ≡ none
unknown_none none h = refl
unknown_none (some t) h = cc

AreIn-list :
    (ids : List Text) (m : Table Task) (doc : List Task) → AreIn ids m doc → list_from ids m ≡ doc
unfolding list_from
AreIn-list [] m [] h = refl
AreIn-list [] m (t ∷ ts) h = absurd h
AreIn-list (id ∷ ids) m [] h = absurd h
AreIn-list (id ∷ ids) m (t ∷ ts) (e, d, n, h) =
    rw (list_from, e) (ap (λ (l : List Task). t ∷ l) (AreIn-list ids m ts h))

-- The id of a document's task, tested
test_id : (t : Task) (j id : Text) (b : Bool) → t.id ≡ j → text_eq j id ≡ b → text_eq t.id id ≡ b
test_id t j id b d e = ap (λ i. text_eq i id) d ∙ e

AreIn-find :
    (ids : List Text) (m : Table Task) (doc : List Task) (id : Text)
    → AreIn ids m doc
    → mem id ids ≡ true
    → find_doc id doc ≡ lookup id m
unfolding find_doc mem
AreIn-find [] m [] id h k = cc
AreIn-find [] m (t ∷ ts) id h k = absurd h
AreIn-find (j ∷ ids) m [] id h k = absurd h
AreIn-find (j ∷ ids) m (t ∷ ts) id (e, d, n, h) k = elim (Bool-cases (text_eq j id)) [
  | inl same ↦
      rw (test_id t j id true d same) (sym e ∙ ap (λ i. lookup i m) ((text_eq_iff j id).0 same))
  | inr ne ↦
      rw (test_id t j id false d ne)
        (AreIn-find ids m ts id h (subst (λ b. (b || mem id ids) ≡ true) ne k))
]

AreIn-unknown :
    (ids : List Text) (m : Table Task) (doc : List Task) (id : Text)
    → AreIn ids m doc
    → mem id ids ≡ false
    → find_doc id doc ≡ none
unfolding find_doc mem
AreIn-unknown [] m [] id h k = refl
AreIn-unknown [] m (t ∷ ts) id h k = absurd h
AreIn-unknown (j ∷ ids) m [] id h k = absurd h
AreIn-unknown (j ∷ ids) m (t ∷ ts) id (e, d, n, h) k = elim (Bool-cases (text_eq j id)) [
  | inl same ↦ cc (subst (λ b. (b || mem id ids) ≡ false) same k)
  | inr ne ↦
      rw (test_id t j id false d ne)
        (AreIn-unknown ids m ts id h (subst (λ b. (b || mem id ids) ≡ false) ne k))
]

-- A write under an id that the order does not have
AreIn-insert :
    (ids : List Text) (m : Table Task) (doc : List Task) (id : Text) (u : Task)
    → mem id ids ≡ false
    → AreIn ids m doc
    → AreIn ids (insert id u m) doc
unfolding mem
AreIn-insert [] m [] id u n h = tt
AreIn-insert [] m (t ∷ ts) id u n h = absurd h
AreIn-insert (j ∷ ids) m [] id u n h = absurd h
AreIn-insert (j ∷ ids) m (t ∷ ts) id u n (e, d, k, h) = elim (Bool-cases (text_eq j id)) [
  | inl same ↦ cc (subst (λ b. (b || mem id ids) ≡ false) same n)
  | inr ne ↦ (
    lookup-insert_ne id j u m (text_ne_sym j id ne) ∙ e,
    d,
    k,
    AreIn-insert ids m ts id u (subst (λ b. (b || mem id ids) ≡ false) ne n) h,
  )
]

AreIn-put_known :
    (ids : List Text) (m : Table Task) (doc : List Task) (u : Task)
    → mem u.id ids ≡ true
    → AreIn ids m doc
    → AreIn ids (insert u.id u m) (put_doc u doc)
unfolding mem put_doc
AreIn-put_known [] m doc u k h = cc
AreIn-put_known (j ∷ ids) m [] u k h = absurd h
AreIn-put_known (j ∷ ids) m (t ∷ ts) u k (e, d, n, h) = elim (Bool-cases (text_eq j u.id)) [
  | inl same ↦
      let eq : j ≡ u.id = (text_eq_iff j u.id).0 same in
      rw (test_id t j u.id true d same) (
        ap (λ i. lookup i (insert u.id u m)) eq ∙ lookup-insert_self u.id u m,
        sym eq,
        n,
        AreIn-insert ids m ts u.id u (subst (λ i. mem i ids ≡ false) eq n) h,
      )
  | inr ne ↦ rw (test_id t j u.id false d ne) (
    lookup-insert_ne u.id j u m (text_ne_sym j u.id ne) ∙ e,
    d,
    n,
    AreIn-put_known ids m ts u (subst (λ b. (b || mem u.id ids) ≡ true) ne k) h,
  )
]

AreIn-put_new :
    (ids : List Text) (m : Table Task) (doc : List Task) (u : Task)
    → mem u.id ids ≡ false
    → AreIn ids m doc
    → AreIn (ids ++ u.id ∷ []) (insert u.id u m) (put_doc u doc)
unfolding mem put_doc
AreIn-put_new [] m [] u k h = (lookup-insert_self u.id u m, refl, refl, tt)
AreIn-put_new [] m (t ∷ ts) u k h = absurd h
AreIn-put_new (j ∷ ids) m [] u k h = absurd h
AreIn-put_new (j ∷ ids) m (t ∷ ts) u k (e, d, n, h) = elim (Bool-cases (text_eq j u.id)) [
  | inl same ↦ cc (subst (λ b. (b || mem u.id ids) ≡ false) same k)
  | inr ne ↦ rw (test_id t j u.id false d ne) (
    lookup-insert_ne u.id j u m (text_ne_sym j u.id ne) ∙ e,
    d,
    pushed_ne u.id j ids (text_ne_sym j u.id ne) ∙ n,
    AreIn-put_new ids m ts u (subst (λ b. (b || mem u.id ids) ≡ false) ne k) h,
  )
]

known-insert :
    (ids : List Text) (m : Table Task) (u : Task) (id : Text)
    → ((k : Text) → mem k ids ≡ is_known (lookup k m))
    → text_eq u.id id ≡ false
    → mem id ids ≡ is_known (lookup id (insert u.id u m))
known-insert ids m u id h ne = h id ∙ ap is_known (sym (lookup-insert_ne u.id id u m ne))

pub memory_put-Stands :
    (t : Task) (s : MemoryStore) (doc : List Task)
    → Stands s doc
    → Stands (memory_put t s) (put_doc t doc)
unfolding memory_put
memory_put-Stands t s doc h = elim (Bool-cases (is_known (lookup t.id s.tasks))) [
  | inl k ↦ rw k (record {
    listed = AreIn-put_known s.order s.tasks doc t (h.known t.id ∙ k) h.listed;
    known = λ id. elim (Bool-cases (text_eq t.id id)) [
      | inl same ↦
          subst (λ i. mem i s.order ≡ is_known (lookup i (insert t.id t s.tasks)))
            ((text_eq_iff t.id id).0 same)
            (h.known t.id ∙ k ∙ ap is_known (sym (lookup-insert_self t.id t s.tasks)))
      | inr ne ↦ known-insert s.order s.tasks t id h.known ne
    ];
  })
  | inr k ↦ rw k (record {
    listed = AreIn-put_new s.order s.tasks doc t (h.known t.id ∙ k) h.listed;
    known = λ id. elim (Bool-cases (text_eq t.id id)) [
      | inl same ↦
          subst (λ i. mem i (s.order ++ t.id ∷ []) ≡ is_known (lookup i (insert t.id t s.tasks)))
            ((text_eq_iff t.id id).0 same)
            (pushed t.id s.order ∙ ap is_known (sym (lookup-insert_self t.id t s.tasks)))
      | inr ne ↦ pushed_ne t.id id s.order ne ∙ known-insert s.order s.tasks t id h.known ne
    ];
  })
]

-- The two stores list and find the same.
pub Stands-list : (s : MemoryStore) (doc : List Task) → Stands s doc → memory_list s ≡ doc
Stands-list s doc h = AreIn-list s.order s.tasks doc h.listed

pub Stands-find :
    (s : MemoryStore) (doc : List Task) (id : Text)
    → Stands s doc
    → find_doc id doc ≡ lookup id s.tasks
Stands-find s doc id h = elim (Bool-cases (mem id s.order)) [
  | inl k ↦ AreIn-find s.order s.tasks doc id h.listed k
  | inr k ↦
      AreIn-unknown s.order s.tasks doc id h.listed k
      ∙ sym (unknown_none (lookup id s.tasks) (sym (h.known id) ∙ k))
]

-- Writes one after another, to either store
abbrev pub memory_puts : List Task → MemoryStore → MemoryStore
memory_puts [] s = s
memory_puts (t ∷ ts) s = memory_puts ts (memory_put t s)

abbrev pub doc_puts : List Task → List Task → List Task
doc_puts [] doc = doc
doc_puts (t ∷ ts) doc = doc_puts ts (put_doc t doc)

puts-Stands :
    (ts : List Task) (s : MemoryStore) (doc : List Task)
    → Stands s doc
    → Stands (memory_puts ts s) (doc_puts ts doc)
puts-Stands [] s doc h = h
puts-Stands (t ∷ ts) s doc h = puts-Stands ts _ _ (memory_put-Stands t s doc h)

abbrev pub empty_store : MemoryStore
empty_store = record { tasks = []; order = [] }

empty-Stands : Stands empty_store []
unfolding mem lookup
empty-Stands = record { listed = tt; known = λ id. refl }

-- After the same writes, in the same order, to an empty MemoryStore and to the empty document of a
-- FileStore, both list the same tasks in the same order, and find the same task or none under any
-- id.
pub memory_puts-eq-doc_puts :
    (ts : List Task) (id : Text)
    → (memory_list (memory_puts ts empty_store) ≡ doc_puts ts [])
      × (find_doc id (doc_puts ts []) ≡ lookup id (memory_puts ts empty_store).tasks)
memory_puts-eq-doc_puts ts id =
    let h : Stands (memory_puts ts empty_store) (doc_puts ts []) =
      puts-Stands ts empty_store [] empty-Stands in
    (Stands-list _ _ h, Stands-find _ _ id h)
