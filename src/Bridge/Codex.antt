-- ===== src/Bridge/Codex.antt =====
-- internal/proxy/codex_bridge_parse.go, codex_bridge.go and codex_tools.go: the state that the parse of a
-- Responses stream keeps, for a client that streams and for one that waits.
pub mod Same
pub mod Content
pub mod Final
pub mod Indices
use openllms.Prelude.{
  ℕ, zero, suc, ◌+◌, List, [], ◌∷◌, ◌++◌, Option, none, some, Bool, true, false, ◌&&◌, ◌||◌, not,
  if◌then◌else◌, Text, lit, text_eq, is_empty,
}
use openllms.Prelude.Int.{ℤ, pos}
use openllms.Config.{
  Any, Items, Fields, end, str, obj, null, get, get_str, put, fields, as_obj, as_items, objects,
}
use openllms.Number.{Float}
use openllms.Bridge.Merge.{
  codex_hosted_tool_from_item, codex_tool_call_from_item, merge_hosted_tool, merge_tool_call,
  tool_call_stream_index,
}
use openllms.Bridge.Completion.{llms_meta, finish_of, usage_part, build_completion}
use openllms.Bridge.Stream.{
  BridgeOpts, Event, Chunk, content, tool_delta, hosted_event, last_chunk, done_mark, Writer,
  write_chunk,
}

-- `codexParseState`, less its constants.
pub record CodexState (F : Type 0) : Type 0 where
  pub text : Text
  pub tin : ℤ
  pub tout : ℤ
  pub hosted_tools : List (Fields F)
  pub tool_calls : List (Fields F)
  pub content_emitted : Bool

-- `newCodexParseState`.
abbrev pub new_codex_state : {F : Type 0} → CodexState F
new_codex_state = record {
  text = [];
  tin = pos 0;
  tout = pos 0;
  hosted_tools = [];
  tool_calls = [];
  content_emitted = false;
}

module _ {F : Type 0} where
  -- `messageItemText`.
  unfoldable pub texts_of : List (Fields F) → Text
  texts_of [] = []
  texts_of (c ∷ cs) = get_str (lit "text") c ++ texts_of cs

  unfoldable pub message_item_text : Fields F → Text
  message_item_text m = texts_of (objects (as_items (get (lit "content") m)))

  -- The loop of `extractCompletedText`.
  unfoldable pub message_texts : List (Fields F) → Text
  message_texts [] = []
  message_texts (m ∷ ms) =
      let typ = get_str (lit "type") m in
      let rest = message_texts ms in
      if not (is_empty typ) && not (text_eq typ (lit "message"))
      then rest
      else message_item_text m ++ rest

  -- `extractCompletedText`.
  unfoldable pub extract_completed_text : Fields F → Text
  extract_completed_text resp = message_texts (objects (as_items (get (lit "output") resp)))

  abbrev add_hosted : Option (Fields F) → CodexState F → CodexState F
  add_hosted none st = st
  add_hosted (some ht) st = record st { hosted_tools = merge_hosted_tool st.hosted_tools ht }

  abbrev add_call : Option (Fields F) → CodexState F → CodexState F
  add_call none st = st
  add_call (some tc) st = record st { tool_calls = merge_tool_call st.tool_calls tc }

  -- What `ingestOutputItem` does to the state.
  unfoldable pub ingest_output_item : Fields F → CodexState F → CodexState F
  ingest_output_item item st =
      add_call (codex_tool_call_from_item item) (add_hosted (codex_hosted_tool_from_item item) st)

  abbrev pub phase_of : Fields F → Text
  phase_of item =
      if text_eq (get_str (lit "status") item) (lit "completed")
      then lit "completed"
      else lit "started"

  -- What it writes; the error of the write is dropped.
  unfoldable pub announce : Bool → Fields F → Option (Fields F) → Writer F → Writer F
  announce false item hosted w = w
  announce true item none w = w
  announce true item (some ht) w = (write_chunk w (hosted_event (phase_of item) ht)).1

  -- The loop of `parseCompletedOutput` over the output items.
  unfoldable pub ingest_all : List (Fields F) → CodexState F → CodexState F
  ingest_all [] st = st
  ingest_all (item ∷ items) st = ingest_all items (ingest_output_item item st)

  -- `parseCompletedOutput`: the text of the finished response replaces the deltas'.
  unfoldable pub parse_completed_output : Fields F → CodexState F → CodexState F
  parse_completed_output resp st =
      let st' = ingest_all (objects (as_items (get (lit "output") resp))) st in
      let final = extract_completed_text resp in
      if is_empty final then st' else record st' { text = final }

module _ (fl : Float) where
  open fl use {F, to_int}

  -- `anyInt`.
  unfoldable pub any_int : Option (Any F) → ℤ
  any_int (some (Any.float x)) = to_int x
  any_int (some (Any.int n)) = n
  any_int (some (Any.number (some n) _)) = n
  any_int _ = pos 0

  abbrev with_usage : Option (Fields F) → CodexState F → CodexState F
  with_usage none st = st
  with_usage (some u) st = record st {
    tin = any_int (get (lit "input_tokens") u);
    tout = any_int (get (lit "output_tokens") u);
  }

  unfoldable pub complete : Option (Fields F) → CodexState F → CodexState F
  complete none st = st
  complete (some resp) st =
      parse_completed_output resp (with_usage (as_obj (get (lit "usage") resp)) st)

  -- A step of the parse: whether it goes on, the state, and the client's pipe.
  abbrev pub CodexStep : Type 0
  CodexStep = Bool × (CodexState F × Writer F)

  abbrev pub after_write : CodexState F → Bool × Writer F → CodexStep
  after_write st (ok, w) = (ok, (st, w))

  -- `response.output_text.delta`.
  unfoldable pub on_delta : Bool → Text → CodexState F → Writer F → CodexStep
  on_delta streaming delta st w =
      if is_empty delta
      then (true, (st, w))
      else if streaming
      then after_write (record st { text = st.text ++ delta; content_emitted = true })
          (write_chunk w (content delta))
      else (true, (record st { text = st.text ++ delta }, w))

  -- `ingestOutputItem` on the item of an event.
  unfoldable pub on_item :
      Bool → Option (Fields F) → CodexState F → Writer F → CodexState F × Writer F
  on_item streaming none st w = (st, w)
  on_item streaming (some item) st w =
      (ingest_output_item item st, announce streaming item (codex_hosted_tool_from_item item) w)

  abbrev pub call_of : Option (Fields F) → Option (Fields F)
  call_of none = none
  call_of (some item) = codex_tool_call_from_item item

  -- The chunk of a finished tool call.
  unfoldable pub write_call : Bool → Option (Fields F) → CodexState F × Writer F → CodexStep
  write_call false tc (st, w) = (true, (st, w))
  write_call true none (st, w) = (true, (st, w))
  write_call true (some tc) (st, w) =
      after_write st (write_chunk w (tool_delta (tool_call_stream_index st.tool_calls tc) tc))

  -- The handler of `parseCodexSSE`.
  unfoldable pub codex_step : Bool → Event F → CodexState F → Writer F → CodexStep
  codex_step streaming (typ, o) st w =
      let item = as_obj (get (lit "item") o) in
      if text_eq typ (lit "response.output_text.delta")
      then on_delta streaming (get_str (lit "delta") o) st w
      else if text_eq typ (lit "response.output_item.added")
      then (true, on_item streaming item st w)
      else if text_eq typ (lit "response.output_item.done")
      then write_call streaming (call_of item) (on_item streaming item st w)
      else if text_eq typ (lit "response.completed") || text_eq typ (lit "response.incomplete")
      then (true, (complete (as_obj (get (lit "response") o)) st, w))
      else (true, on_item streaming item st w)

  -- `parseCodexSSE`: it stops at the first write that fails.
  unfoldable pub parse_codex : Bool → List (Event F) → CodexState F → Writer F → CodexStep
  parse_codex streaming [] st w = (true, (st, w))
  parse_codex streaming (e ∷ events) st w =
      let (ok, (st', w')) = codex_step streaming e st w in
      let rest = parse_codex streaming events st' w' in if ok then rest else (false, (st', w'))

  -- The text that was not streamed, of `writeCodexStreamFinale`.
  unfoldable pub backfill : CodexState F → Writer F → CodexStep
  backfill st w =
      if st.content_emitted || is_empty st.text
      then (true, (st, w))
      else after_write (record st { content_emitted = true }) (write_chunk w (content st.text))

  abbrev pub write_two : Chunk F → Chunk F → Writer F → Bool × Writer F
  write_two c d w =
      let (ok, w1) = write_chunk w c in
      let next = write_chunk w1 d in if ok then next else (false, w1)

  -- `writeCodexStreamFinale`.
  unfoldable pub codex_finale : BridgeOpts → CodexState F → Writer F → CodexStep
  codex_finale opts st w =
      let (ok, (st1, w1)) = backfill st w in
      let ends = after_write st1 (
        write_two
          (last_chunk (finish_of st1.tool_calls) (usage_part st1.tin st1.tout)
            (llms_meta opts st1.hosted_tools))
          done_mark w1) in
      if ok then ends else (false, (st1, w1))

  -- `convertCodexSSEToChat` with a writer, on the events of the upstream. (An error of the scan ends it
  -- as a write's does.)
  unfoldable pub stream_codex : BridgeOpts → List (Event F) → Writer F → CodexStep
  stream_codex opts events w =
      let (ok, (st, w1)) = parse_codex true events new_codex_state w in
      let ends = codex_finale opts st w1 in if ok then ends else (false, (st, w1))

  -- The state that `aggregateCodexSSE` builds its completion from.
  unfoldable pub aggregate_codex : List (Event F) → CodexState F
  aggregate_codex events =
      (parse_codex false events new_codex_state (record { out = []; room = 0 })).1.0

  -- `aggregateCodexSSE`, with the time of its answer.
  unfoldable pub aggregate_codex_body : BridgeOpts → List (Event F) → ℤ → Fields F
  aggregate_codex_body opts events now =
      let st = aggregate_codex events in
      build_completion opts now st.text st.tool_calls st.hosted_tools (finish_of st.tool_calls)
        st.tin st.tout
