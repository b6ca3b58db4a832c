-- ===== src/Llm/Stream/Assembly.antt =====
-- llm/openai_stream.go: what a stream says, whatever its fragments.
use agent_go.Prelude.{
  ℕ, ◌≡◌, refl, ◌∙◌, ap, ap₂, subst, fun_ext, true, false, List, [], ◌∷◌, ◌++◌, map, filter, concat,
  Option, none, some, if◌then◌else◌, arith, Bool-cases, inl, inr, append-nil, append_assoc, ==_iff,
}
use agent_go.Prelude.Int.{ℤ, pos, negsuc}
use agent_go.Text.{Text, codes, is_empty}
use agent_go.Llm.{Message, assistant, ToolCall, zero_message}
use agent_go.Llm.Stream.{
  CallDelta, ChunkDelta, Chunk, int_eq, or_keep, extend_call, fresh_call, merge_call, merge_calls,
  role_of, find_call, raised, index_bound, collect,
}

-- The first delta of each chunk.
abbrev pub first_of : List ChunkDelta → List ChunkDelta
first_of [] = []
first_of (d ∷ ds) = d ∷ []

abbrev pub first_deltas : List Chunk → List ChunkDelta
first_deltas [] = []
first_deltas (c ∷ cs) = first_of c.choices ++ first_deltas cs

-- The last text that is not empty, or `d`.
abbrev pub last_set : Text → List Text → Text
last_set d [] = d
last_set d (x ∷ xs) = last_set (or_keep x d) xs

-- All fragments of the stream, in order.
abbrev pub fragments : List ChunkDelta → List CallDelta
fragments [] = []
fragments (d ∷ ds) = d.tool_calls ++ fragments ds

abbrev pub of_index : ℤ → List CallDelta → List CallDelta
of_index i fs = filter (λ f. int_eq f.index i) fs

-- A call from all of its fragments.
abbrev pub joined : List CallDelta → ToolCall
joined fs = record {
  id = last_set [] (map (λ f. f.id) fs);
  kind = last_set (codes "function") (map (λ f. f.kind) fs);
  function = record {
    name = last_set [] (map (λ f. f.name) fs);
    arguments = concat (map (λ f. f.arguments) fs);
  };
}

abbrev pub call_of : List CallDelta → Option ToolCall
call_of [] = none
call_of (f ∷ fs) = some (joined (f ∷ fs))

-- One more than the highest index, and at least `b`.
abbrev pub indexes_from : ℕ → List CallDelta → ℕ
indexes_from b [] = b
indexes_from b (f ∷ fs) = raised f.index (indexes_from b fs)

-- The message that the deltas say.
abbrev pub message_of : List ChunkDelta → Message
message_of ds = record zero_message {
  role = let r = last_set [] (map (λ d. d.role) ds) in if is_empty r then assistant else role_of r;
  content = concat (map (λ d. d.content) ds);
  tool_calls = collect (λ i. call_of (of_index i (fragments ds))) 0 (indexes_from 0 (fragments ds));
}

-- The calls that `fs` add to a call.
abbrev extended : List CallDelta → ToolCall → ToolCall
extended [] c = c
extended (f ∷ fs) c = extended fs (extend_call f c)

abbrev extended_at : List CallDelta → Option ToolCall → Option ToolCall
extended_at [] o = o
extended_at (f ∷ fs) none = some (extended (f ∷ fs) fresh_call)
extended_at (f ∷ fs) (some c) = some (extended (f ∷ fs) c)

int_eq_sound : (i j : ℤ) → int_eq i j ≡ true → i ≡ j
int_eq_sound (pos m) (pos n) h = ap pos ((==_iff m n).0 h)
int_eq_sound (negsuc m) (negsuc n) h = ap negsuc ((==_iff m n).0 h)
int_eq_sound (pos m) (negsuc n) h = cc
int_eq_sound (negsuc m) (pos n) h = cc

int_eq_refl : (i : ℤ) → int_eq i i ≡ true
int_eq_refl (pos m) = ground arith
int_eq_refl (negsuc m) = ground arith

find-merge_self :
    (f : CallDelta) (m : List (ℤ × ToolCall))
    → find_call f.index (merge_call f m) ≡ extended_at (f ∷ []) (find_call f.index m)
unfolding find_call merge_call
find-merge_self f [] = rw (int_eq_refl f.index) refl
find-merge_self f ((j, c) ∷ m) = elim (Bool-cases (int_eq j f.index)) [
  | inl e ↦ rw e (rw e refl)
  | inr e ↦ rw e (rw e (find-merge_self f m))
]

find-merge_ne :
    (f : CallDelta) (i : ℤ) (m : List (ℤ × ToolCall))
    → int_eq f.index i ≡ false
    → find_call i (merge_call f m) ≡ find_call i m
unfolding find_call merge_call
find-merge_ne f i [] h = rw h refl
find-merge_ne f i ((j, c) ∷ m) h = elim (Bool-cases (int_eq j f.index)) [
  | inl e ↦ rw e (rw (int_eq_sound j f.index e) (rw h refl))
  | inr e ↦
      rw e (elim (Bool-cases (int_eq j i)) [
        | inl d ↦ rw d refl
        | inr d ↦ rw d (find-merge_ne f i m h)
      ])
]

extended_at-cons :
    (f : CallDelta) (fs : List CallDelta) (o : Option ToolCall)
    → extended_at fs (extended_at (f ∷ []) o) ≡ extended_at (f ∷ fs) o
extended_at-cons f [] none = refl
extended_at-cons f [] (some c) = refl
extended_at-cons f (g ∷ fs) none = refl
extended_at-cons f (g ∷ fs) (some c) = refl

-- Each index sees its own fragments, in order.
find-merge_calls :
    (i : ℤ) (fs : List CallDelta) (m : List (ℤ × ToolCall))
    → find_call i (merge_calls fs m) ≡ extended_at (of_index i fs) (find_call i m)
unfolding merge_calls
find-merge_calls i [] m = refl
find-merge_calls i (f ∷ fs) m = elim (Bool-cases (int_eq f.index i)) [
  | inl e ↦
      let same : f.index ≡ i = int_eq_sound f.index i e in
      rw e (
        find-merge_calls i fs (merge_call f m)
        ∙ ap (extended_at (of_index i fs)) (
            subst (λ j. find_call j (merge_call f m) ≡ extended_at (f ∷ []) (find_call j m)) same
              (find-merge_self f m))
        ∙ extended_at-cons f (of_index i fs) (find_call i m))
  | inr e ↦ rw e (
      find-merge_calls i fs (merge_call f m)
      ∙ ap (extended_at (of_index i fs)) (find-merge_ne f i m e))
]

extended-joined :
    (fs : List CallDelta) (c : ToolCall)
    → extended fs c ≡ record {
      id = last_set c.id (map (λ f. f.id) fs);
      kind = last_set c.kind (map (λ f. f.kind) fs);
      function = record {
        name = last_set c.function.name (map (λ f. f.name) fs);
        arguments = c.function.arguments ++ concat (map (λ f. f.arguments) fs);
      };
    }
extended-joined [] c = rw (append-nil c.function.arguments) refl
extended-joined (f ∷ fs) c =
    extended-joined fs (extend_call f c)
    ∙ rw (append_assoc c.function.arguments f.arguments (concat (map (λ f. f.arguments) fs))) refl

extended_at-call_of : (fs : List CallDelta) → extended_at fs none ≡ call_of fs
extended_at-call_of [] = refl
extended_at-call_of (f ∷ fs) = ap some (extended-joined (f ∷ fs) fresh_call)

raised_comm : (i j : ℤ) (n : ℕ) → raised i (raised j n) ≡ raised j (raised i n)
raised_comm (pos a) (pos b) n = ground arith
raised_comm (pos a) (negsuc b) n = refl
raised_comm (negsuc a) (pos b) n = refl
raised_comm (negsuc a) (negsuc b) n = refl

raised_idem : (i : ℤ) (n : ℕ) → raised i n ≡ raised i (raised i n)
raised_idem (pos a) n = ground arith
raised_idem (negsuc a) n = refl

index_bound-merge_call :
    (f : CallDelta) (m : List (ℤ × ToolCall))
    → index_bound (merge_call f m) ≡ raised f.index (index_bound m)
unfolding index_bound merge_call
index_bound-merge_call f [] = refl
index_bound-merge_call f ((j, c) ∷ m) = elim (Bool-cases (int_eq j f.index)) [
  | inl e ↦ rw e (
      subst (λ k. raised j (index_bound m) ≡ raised k (raised j (index_bound m)))
        (int_eq_sound j f.index e) (raised_idem j (index_bound m)))
  | inr e ↦
      rw e (ap (raised j) (index_bound-merge_call f m) ∙ raised_comm j f.index (index_bound m))
]

indexes_from-raised :
    (i : ℤ) (b : ℕ) (fs : List CallDelta)
    → indexes_from (raised i b) fs ≡ raised i (indexes_from b fs)
indexes_from-raised i b [] = refl
indexes_from-raised i b (f ∷ fs) =
    ap (raised f.index) (indexes_from-raised i b fs) ∙ raised_comm f.index i (indexes_from b fs)

index_bound-merge_calls :
    (fs : List CallDelta) (m : List (ℤ × ToolCall))
    → index_bound (merge_calls fs m) ≡ indexes_from (index_bound m) fs
unfolding merge_calls
index_bound-merge_calls [] m = refl
index_bound-merge_calls (f ∷ fs) m =
    index_bound-merge_calls fs (merge_call f m)
    ∙ ap (λ (b : ℕ). indexes_from b fs) (index_bound-merge_call f m)
    ∙ indexes_from-raised f.index (index_bound m) fs

pub collect-merge_calls :
    (fs : List CallDelta)
    → collect (λ i. find_call i (merge_calls fs [])) 0 (index_bound (merge_calls fs []))
      ≡ collect (λ i. call_of (of_index i fs)) 0 (indexes_from 0 fs)
unfolding find_call index_bound
collect-merge_calls fs =
    ap₂ (λ (at : ℤ → Option ToolCall) (n : ℕ). collect at 0 n)
      (fun_ext (λ i. find-merge_calls i fs [] ∙ extended_at-call_of (of_index i fs)))
      (index_bound-merge_calls fs [])

pub merge_calls-append :
    (xs ys : List CallDelta) (m : List (ℤ × ToolCall))
    → merge_calls (xs ++ ys) m ≡ merge_calls ys (merge_calls xs m)
unfolding merge_calls
merge_calls-append [] ys m = refl
merge_calls-append (x ∷ xs) ys m = merge_calls-append xs ys (merge_call x m)
