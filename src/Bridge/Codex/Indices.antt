-- ===== src/Bridge/Codex/Indices.antt =====
-- The index that a streamed tool call names.
use openllms.Prelude.{
  ℕ, List, [], ◌∷◌, inl, inr, ◌≡◌, Option, none, some, Bool, true, false, ◌||◌, Text, lit, text_eq,
  is_empty, arith, Bool-cases, Option-cases, All, All-append, All-map,
}
use openllms.Config.{Fields, get, get_str, as_obj, as_items, objects}
use openllms.Number.{Float}
use openllms.Bridge.Stream.{
  Event, Chunk, content, tool_delta, hosted_event, last_chunk, done_mark, Writer, write_chunk,
}
use openllms.Bridge.Merge.{
  id_of, codex_hosted_tool_from_item, codex_tool_call_from_item, merge_tool_call,
  tool_call_stream_index,
}
use openllms.Bridge.Merge.Ids.{HasId, merge_tool_call-HasId, stream_index-HasId}
use openllms.Bridge.Codex.{
  CodexState, new_codex_state, ingest_output_item, announce, phase_of, ingest_all,
  parse_completed_output, extract_completed_text, complete, call_of, on_delta, on_item, write_call,
  codex_step, parse_codex,
}
use openllms.Bridge.Codex.Content.{write_chunk-out}

module _ {F : Type 0} where
  -- A tool call's chunk names the place of its id.
  abbrev pub Placed : List (Fields F) → Chunk F → Type 0
  Placed calls (tool_delta i tc) = HasId calls i (id_of tc)
  Placed calls (content t) = Unit {0}
  Placed calls (hosted_event phase h) = Unit {0}
  Placed calls (last_chunk finish usage meta) = Unit {0}
  Placed calls done_mark = Unit {0}

  write_chunk-All :
      (P : Chunk F → Type 0) (w : Writer F) (c : Chunk F)
      → All P w.out
      → P c
      → All P (write_chunk w c).1.out
  write_chunk-All P w c h p = elim (Bool-cases (write_chunk w c).0) [
    | inl e ↦ rw (write_chunk-out w c, e) (All-append P w.out (c ∷ []) h (p, tt))
    | inr e ↦ rw (write_chunk-out w c, e) h
  ]

  Placed-merge :
      (calls : List (Fields F)) (tc : Fields F) (c : Chunk F)
      → Placed calls c
      → Placed (merge_tool_call calls tc) c
  Placed-merge calls tc (tool_delta i t) h = merge_tool_call-HasId calls tc i (id_of t) h
  Placed-merge calls tc (content t) h = tt
  Placed-merge calls tc (hosted_event phase t) h = tt
  Placed-merge calls tc (last_chunk finish usage meta) h = tt
  Placed-merge calls tc done_mark h = tt

  -- All chunks that were written name the places of their ids.
  abbrev pub AllPlaced : CodexState F × Writer F → Type 0
  AllPlaced (st, w) = All (Placed st.tool_calls) w.out

  abbrev calls_with : Option (Fields F) → List (Fields F) → List (Fields F)
  calls_with none calls = calls
  calls_with (some tc) calls = merge_tool_call calls tc

  ingest_calls :
      (item : Fields F) (st : CodexState F)
      → (ingest_output_item item st).tool_calls
        ≡ calls_with (codex_tool_call_from_item item) st.tool_calls
  unfolding ingest_output_item
  ingest_calls item st = ground arith

  Placed-calls_with :
      (tc : Option (Fields F)) (calls : List (Fields F)) (cs : List (Chunk F))
      → All (Placed calls) cs
      → All (Placed (calls_with tc calls)) cs
  Placed-calls_with none calls cs h = h
  Placed-calls_with (some tc) calls cs h =
      All-map (Placed calls) (Placed (merge_tool_call calls tc)) cs (Placed-merge calls tc) h

  ingest-AllPlaced :
      (item : Fields F) (st : CodexState F) (w : Writer F)
      → AllPlaced (st, w)
      → AllPlaced (ingest_output_item item st, w)
  ingest-AllPlaced item st w h =
      rw (ingest_calls item st)
        (Placed-calls_with (codex_tool_call_from_item item) st.tool_calls w.out h)

  ingest_all-AllPlaced :
      (items : List (Fields F)) (st : CodexState F) (w : Writer F)
      → AllPlaced (st, w)
      → AllPlaced (ingest_all items st, w)
  unfolding ingest_all
  ingest_all-AllPlaced [] st w h = h
  ingest_all-AllPlaced (item ∷ items) st w h =
      ingest_all-AllPlaced items (ingest_output_item item st) w (ingest-AllPlaced item st w h)

  completed-AllPlaced :
      (resp : Fields F) (st : CodexState F) (w : Writer F)
      → AllPlaced (st, w)
      → AllPlaced (parse_completed_output resp st, w)
  unfolding parse_completed_output
  completed-AllPlaced resp st w h = elim (Bool-cases (is_empty (extract_completed_text resp))) [
    | inl e ↦ rw e (ingest_all-AllPlaced (objects (as_items (get (lit "output") resp))) st w h)
    | inr e ↦ rw e (ingest_all-AllPlaced (objects (as_items (get (lit "output") resp))) st w h)
  ]

  announce-All :
      (P : Chunk F → Type 0) (streaming : Bool) (item : Fields F) (ht : Option (Fields F))
      (w : Writer F)
      → ((phase : Text) (h : Fields F) → P (hosted_event phase h))
      → All P w.out
      → All P (announce streaming item ht w).out
  unfolding announce
  announce-All P false item ht w p h = h
  announce-All P true item none w p h = h
  announce-All P true item (some t) w p h = write_chunk-All P w _ h (p (phase_of item) t)

module _ (fl : Float) where
  open fl use {F}

  complete-AllPlaced :
      (resp : Option (Fields F)) (st : CodexState F) (w : Writer F)
      → AllPlaced (st, w)
      → AllPlaced (complete fl resp st, w)
  unfolding complete
  complete-AllPlaced none st w h = h
  complete-AllPlaced (some resp) st w h = elim (Option-cases (as_obj (get (lit "usage") resp))) [
    | inl e ↦ rw e (completed-AllPlaced resp st w h)
    | inr (u, e) ↦ rw e (completed-AllPlaced resp _ w h)
  ]

  on_item-AllPlaced :
      (item : Option (Fields F)) (st : CodexState F) (w : Writer F)
      → AllPlaced (st, w)
      → AllPlaced (on_item fl true item st w)
  unfolding on_item
  on_item-AllPlaced none st w h = h
  on_item-AllPlaced (some item) st w h =
      let st' = ingest_output_item item st in
      announce-All (Placed st'.tool_calls) true item (codex_hosted_tool_from_item item) w
        (λ phase t. tt) (ingest-AllPlaced item st w h)

  call-placed :
      (item : Fields F) (st : CodexState F) (w : Writer F) (tc : Fields F)
      → codex_tool_call_from_item item ≡ some tc
      → let calls = (on_item fl true (some item) st w).0.tool_calls in
        HasId calls (tool_call_stream_index calls tc) (id_of tc)
  unfolding on_item
  call-placed item st w tc e = rw (ingest_calls item st, e) (stream_index-HasId st.tool_calls tc)

  -- The call of a finished item, behind its merge.
  finished-AllPlaced :
      (item : Option (Fields F)) (st : CodexState F) (w : Writer F)
      → AllPlaced (st, w)
      → AllPlaced (write_call fl true (call_of fl item) (on_item fl true item st w)).1
  unfolding write_call
  finished-AllPlaced none st w h = on_item-AllPlaced none st w h
  finished-AllPlaced (some item) st w h = elim (Option-cases (codex_tool_call_from_item item)) [
    | inl e ↦ rw e (on_item-AllPlaced (some item) st w h)
    | inr (tc, e) ↦
        let n = on_item fl true (some item) st w in
        rw e (
          write_chunk-All (Placed n.0.tool_calls) n.1 _ (on_item-AllPlaced (some item) st w h)
            (call-placed item st w tc e))
  ]

  on_delta-AllPlaced :
      (t : Text) (st : CodexState F) (w : Writer F)
      → AllPlaced (st, w)
      → AllPlaced (on_delta fl true t st w).1
  unfolding on_delta is_empty
  on_delta-AllPlaced [] st w h = h
  on_delta-AllPlaced (c ∷ t) st w h =
      write_chunk-All (Placed st.tool_calls) w (content (c ∷ t)) h tt

  step-AllPlaced :
      (e : Event F) (st : CodexState F) (w : Writer F)
      → AllPlaced (st, w)
      → AllPlaced (codex_step fl true e st w).1
  unfolding codex_step
  step-AllPlaced (typ, o) st w h =
      let item = as_obj (get (lit "item") o) in
      let added = on_item-AllPlaced item st w h in
      elim (Bool-cases (text_eq typ (lit "response.output_text.delta"))) [
        | inl e0 ↦ rw e0 (on_delta-AllPlaced (get_str (lit "delta") o) st w h)
        | inr e0 ↦ elim (Bool-cases (text_eq typ (lit "response.output_item.added"))) [
          | inl e1 ↦ rw (e0, e1) added
          | inr e1 ↦ elim (Bool-cases (text_eq typ (lit "response.output_item.done"))) [
            | inl e2 ↦ rw (e0, e1, e2) (finished-AllPlaced item st w h)
            | inr e2 ↦
                elim (Bool-cases (
                  text_eq typ (lit "response.completed")
                  || text_eq typ (lit "response.incomplete"))) [
                    | inl e3 ↦
                        rw (e0, e1, e2, e3)
                          (complete-AllPlaced (as_obj (get (lit "response") o)) st w h)
                    | inr e3 ↦ rw (e0, e1, e2, e3) added
                  ]
          ]
        ]
      ]

  parse-AllPlaced :
      (events : List (Event F)) (st : CodexState F) (w : Writer F)
      → AllPlaced (st, w)
      → AllPlaced (parse_codex fl true events st w).1
  unfolding parse_codex
  parse-AllPlaced [] st w h = h
  parse-AllPlaced (e ∷ events) st w h =
      let (ok, p) = codex_step fl true e st w in
      elim (Bool-cases ok) [
        | inl k ↦ rw k (parse-AllPlaced events p.0 p.1 (step-AllPlaced e st w h))
        | inr k ↦ rw k (step-AllPlaced e st w h)
      ]

  -- Whatever the upstream sends and whenever the client leaves: every tool call that was streamed
  -- names the place at which its id stands among the calls of the state.
  pub parse_codex-AllPlaced :
      (events : List (Event F)) (room : ℕ)
      → let (st, w) =
          (parse_codex fl true events new_codex_state (record { out = []; room = room })).1 in
        All (Placed st.tool_calls) w.out
  parse_codex-AllPlaced events room = parse-AllPlaced events new_codex_state _ tt
