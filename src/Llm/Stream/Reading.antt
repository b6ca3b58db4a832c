-- ===== src/Llm/Stream/Reading.antt =====
-- llm/openai_stream.go: readSSE over the lines of a whole stream.
use agent_go.Prelude.{
  ◌≡◌, refl, sym, ◌∙◌, ap, true, false, List, [], ◌∷◌, ◌++◌, map, concat, Option, none, some,
  Bool-cases, inl, inr, append-nil, append_assoc, ◌⊎◌,
}
use agent_go.Text.{Text, codes, is_empty, text_eq, is_empty-eq}
use agent_go.Errors.{Error}
use agent_go.Llm.{Message, Usage, zero_usage}
use agent_go.Llm.Client.{usage_from, api_error}
use agent_go.Llm.Stream.{
  ChunkDelta, Chunk, Acc, new_acc, or_keep, merge_calls, tell, apply_delta, apply_chunk,
  acc_message, Body, counted, read_result, is_event, payload, read_lines, read_sse,
}
use agent_go.Llm.Stream.Assembly.{
  first_of, first_deltas, last_set, fragments, message_of, collect-merge_calls, merge_calls-append,
}

-- The usage of the last chunk that has one.
abbrev pub last_usage : Usage → List Chunk → Usage
last_usage u [] = u
last_usage u (c ∷ cs) = last_usage (counted c.usage u) cs

-- The accumulator after deltas, with usage `u`.
abbrev after_deltas : List ChunkDelta → Usage → Acc → Acc
after_deltas ds u a = record {
  role = last_set a.role (map (λ d. d.role) ds);
  content = a.content ++ concat (map (λ d. d.content) ds);
  tools = merge_calls (fragments ds) a.tools;
  usage = u;
}

acc_message-after_deltas :
    (ds : List ChunkDelta) (u : Usage) → acc_message (after_deltas ds u new_acc) ≡ message_of ds
unfolding acc_message
acc_message-after_deltas ds u =
    ap (λ calls. let m = message_of ds in record m { tool_calls = calls })
      (collect-merge_calls (fragments ds))

abbrev said : List ChunkDelta → Text
said ds = concat (map (λ d. d.content) ds)

said-append : (xs ys : List ChunkDelta) → said (xs ++ ys) ≡ said xs ++ said ys
said-append [] ys = refl
said-append (x ∷ xs) ys =
    ap (λ t. x.content ++ t) (said-append xs ys) ∙ sym (append_assoc x.content (said xs) (said ys))

module _ (decode : Text → Chunk ⊎ Error) where
  -- The lines are the events of the chunks, up to the mark of the end or the end itself, among comments and blanks.
  pub data Streams : List (Text × Option Error) → List Chunk → Type 0 where
    ends : Streams [] []
    done :
        {l : Text} {ls : List (Text × Option Error)}
        → is_event l ≡ true
        → text_eq (payload l) (codes "[DONE]") ≡ true
        → Streams ((l, none) ∷ ls) []
    skip :
        {l : Text} {now : Option Error} {ls : List (Text × Option Error)} {cs : List Chunk}
        → is_event l ≡ false
        → Streams ls cs
        → Streams ((l, now) ∷ ls) cs
    event :
        {l : Text} {now : Option Error} {c : Chunk} {ls : List (Text × Option Error)}
        {cs : List Chunk}
        → is_event l ≡ true
        → text_eq (payload l) (codes "[DONE]") ≡ false
        → decode (payload l) ≡ inl c
        → api_error c.error ≡ none
        → Streams ls cs
        → Streams ((l, now) ∷ ls) (c ∷ cs)

module _ {W : Type 0} (decode : Text → Chunk ⊎ Error) (on_delta : Option (Text → W → W)) where
  abbrev pub applied : List Chunk → Acc → W → Acc × W
  applied [] a w = (a, w)
  applied (c ∷ cs) a w = let (b, v) = apply_chunk on_delta c a w in applied cs b v

  read_lines-Streams :
      {ls : List (Text × Option Error)} {cs : List Chunk} (a : Acc) (w : W)
      → Streams decode ls cs
      → read_lines decode on_delta ls none a w ≡ (inl (applied cs a w).0, (applied cs a w).1)
  unfolding read_lines
  read_lines-Streams a w ends = refl
  read_lines-Streams a w (done h g) = rw (read_lines, h) (rw g refl)
  read_lines-Streams a w (skip h s) = rw (read_lines, h) (read_lines-Streams a w s)
  read_lines-Streams a w (event {c = c} h g d e s) =
      rw (read_lines, h) (rw g (rw d (rw e (read_lines-Streams _ _ s))))

  after_deltas-apply :
      (choices rest : List ChunkDelta) (u : Usage) (a : Acc) (w : W)
      → after_deltas rest u (apply_delta on_delta choices a w).0
        ≡ after_deltas (first_of choices ++ rest) u a
  after_deltas-apply [] rest u a w = refl
  after_deltas-apply (d ∷ ds) rest u a w = λ i. record {
    role = last_set (or_keep d.role a.role) (map (λ e. e.role) rest);
    content = append_assoc a.content d.content (concat (map (λ e. e.content) rest)) i;
    tools = sym (merge_calls-append d.tool_calls (fragments rest) a.tools) i;
    usage = u;
  }

  usage-apply_delta :
      (choices : List ChunkDelta) (a : Acc) (w : W)
      → (apply_delta on_delta choices a w).0.usage ≡ a.usage
  usage-apply_delta [] a w = refl
  usage-apply_delta (d ∷ ds) a w = refl

  applied-after_deltas :
      (cs : List Chunk) (a : Acc) (w : W)
      → (applied cs a w).0 ≡ after_deltas (first_deltas cs) (last_usage a.usage cs) a
  unfolding apply_chunk merge_calls usage_from
  applied-after_deltas [] a w = λ i. record a { content = sym (append-nil a.content) i }
  applied-after_deltas (c ∷ cs) a w =
      let a1 : Acc = record a { usage = counted c.usage a.usage } in
      let (b, v) = apply_delta on_delta c.choices a1 w in
      applied-after_deltas cs b v
      ∙ ap (λ (u : Usage). after_deltas (first_deltas cs) (last_usage u cs) b)
          (usage-apply_delta c.choices a1 w)
      ∙ after_deltas-apply c.choices (first_deltas cs) (last_usage a1.usage cs) a1 w

  -- The accumulator, the message and the usage of a whole stream.
  pub read_sse-Streams :
      (body : Body) {cs : List Chunk} (w : W)
      → body.err ≡ none
      → Streams decode body.lines cs
      → read_sse decode on_delta body w
        ≡ (message_of (first_deltas cs), last_usage zero_usage cs, none, (applied cs new_acc w).1)
  unfolding read_sse
  read_sse-Streams body {cs} w h s =
      let v = (applied cs new_acc w).1 in
      ap (λ (e : Option Error). read_result (read_lines decode on_delta body.lines e new_acc w)) h
      ∙ ap (λ r. read_result r) (read_lines-Streams new_acc w s)
      ∙ ap (λ (a : Acc). (acc_message a, a.usage, none, v)) (applied-after_deltas cs new_acc w)
      ∙ ap (λ (m : Message). (m, last_usage zero_usage cs, none, v))
          (acc_message-after_deltas (first_deltas cs) (last_usage zero_usage cs))

  module _ (f : Text → W → W) (told : W → Text)
      (all-told : (t : Text) (w : W) → told (f t w) ≡ told w ++ t) (sink : on_delta ≡ some f) where
    told-tell : (t : Text) (w : W) → told (tell on_delta t w) ≡ told w ++ t
    told-tell t w = elim (Bool-cases (is_empty t)) [
      | inl e ↦ rw e (sym (append-nil (told w)) ∙ ap (λ u. told w ++ u) (sym (is_empty-eq t e)))
      | inr e ↦ rw e (rw sink (all-told t w))
    ]

    told-apply_delta :
        (choices : List ChunkDelta) (a : Acc) (w : W)
        → told (apply_delta on_delta choices a w).1
          ≡ told w ++ concat (map (λ d. d.content) (first_of choices))
    told-apply_delta [] a w = sym (append-nil (told w))
    told-apply_delta (d ∷ ds) a w =
        told-tell d.content w ∙ ap (λ u. told w ++ u) (sym (append-nil d.content))

    told-applied :
        (cs : List Chunk) (a : Acc) (w : W)
        → told (applied cs a w).1 ≡ told w ++ concat (map (λ d. d.content) (first_deltas cs))
    unfolding apply_chunk usage_from
    told-applied [] a w = sym (append-nil (told w))
    told-applied (c ∷ cs) a w =
        let a1 : Acc = record a { usage = counted c.usage a.usage } in
        let (b, v) = apply_delta on_delta c.choices a1 w in
        let first = first_of c.choices in
        told-applied cs b v
        ∙ ap (λ t. t ++ said (first_deltas cs)) (told-apply_delta c.choices a1 w)
        ∙ append_assoc (told w) (said first) (said (first_deltas cs))
        ∙ ap (λ t. told w ++ t) (sym (said-append first (first_deltas cs)))

    -- If each call of onDelta adds its text to a text that the world holds, and the lines of a
    -- body are the events of some chunks without an error, then reading the body adds to this text
    -- exactly the content of the message that is returned.
    pub told-read_sse :
        (body : Body) {cs : List Chunk} (w : W)
        → body.err ≡ none
        → Streams decode body.lines cs
        → told (read_sse decode on_delta body w).3
          ≡ told w ++ (read_sse decode on_delta body w).0.content
    told-read_sse body {cs} w h s =
        let r = read_sse-Streams body w h s in
        ap (λ q. told q.3) r ∙ told-applied cs new_acc w ∙ sym (ap (λ q. told w ++ q.0.content) r)
