-- ===== src/Bridge/Anthropic/Parse.antt =====
-- internal/proxy/anthropic_bridge_parse.go: the events of a Messages stream, and how a streamed answer ends.
use openllms.Prelude.{
  List, [], ◌∷◌, ◌++◌, Option, none, some, Bool, true, false, ◌||◌, if◌then◌else◌, Text, lit,
  text_eq, is_empty, trim_space,
}
use openllms.Prelude.Int.{ℤ}
use openllms.Assoc.{lookup, insert, delete, text_instance, int_instance}
use openllms.Config.{Any, Fields, str, obj, get, get_str, put, fields, as_obj}
use openllms.Number.{Float}
use openllms.Bridge.Merge.{merge_hosted_tool, merge_tool_call, tool_call_stream_index}
use openllms.Bridge.Completion.{llms_meta, usage_part}
use openllms.Bridge.Codex.{any_int}
use openllms.Bridge.Stream.{
  BridgeOpts, Event, content, tool_delta, last_chunk, done_mark, Writer, write_chunk,
}
use openllms.Bridge.Codex.{write_two}
use openllms.Bridge.Anthropic.{
  AnthropicState, new_anthropic_state, Emit, silent, checked_write, unchecked_write, upstream_error,
  anthropic_finish_reason, anthropic_tool_call_from_block, search_action_from_input,
  ingest_content_block, with_stop, has_calls,
}

module _ (fl : Float) where
  open fl use {F}

  module _ (decode : Text → Option (Any F)) (encode : Any F → Text) where
    abbrev or_empty : Option Text → Text
    or_empty none = []
    or_empty (some s) = s

    abbrev started : Fields F → ℤ → AnthropicState F → AnthropicState F
    started block idx st = record st {
      block_types = insert idx (get_str (lit "type") block) st.block_types;
      block_starts = insert idx block st.block_starts;
    }

    abbrev start_step : Option (Fields F) → ℤ → AnthropicState F → AnthropicState F × Emit F
    start_step none idx st = (st, silent)
    start_step (some block) idx st =
        let btyp = get_str (lit "type") block in
        if text_eq btyp (lit "server_tool_use") || text_eq btyp (lit "web_search_tool_result")
        then ingest_content_block fl decode encode block (started block idx st)
        else (started block idx st, silent)

    abbrev text_step : Bool → Text → AnthropicState F → AnthropicState F × Emit F
    text_step streaming t st = if is_empty t then (st, silent) else (
      record st { text = st.text ++ t; content_emitted = st.content_emitted || streaming },
      checked_write (content t),
    )

    -- `mergePartialJSON` on the input of a block.
    abbrev add_partial : ℤ → Text → AnthropicState F → AnthropicState F
    add_partial idx partial st = record st {
      block_input_json =
          insert idx (or_empty (lookup idx st.block_input_json) ++ partial) st.block_input_json;
    }

    abbrev delta_step : Bool → Option (Fields F) → ℤ → AnthropicState F → AnthropicState F × Emit F
    delta_step streaming none idx st = (st, silent)
    delta_step streaming (some delta) idx st =
        let dtyp = get_str (lit "type") delta in
        if text_eq dtyp (lit "text_delta")
        then text_step streaming (get_str (lit "text") delta) st
        else if text_eq dtyp (lit "input_json_delta")
        then (add_partial idx (get_str (lit "partial_json") delta) st, silent)
        else (st, silent)

    abbrev put_input : Option (Any F) → Fields F → Fields F
    put_input none block = block
    put_input (some v) block = put (lit "input") v block

    -- The block of a stop with the input that was collected.
    abbrev stopped_block : Option (Fields F) → Text → Fields F
    stopped_block none raw =
        let block = fields ((lit "type", str (lit "tool_use")) ∷ []) in
        if is_empty raw then block else put_input (decode raw) block
    stopped_block (some block) raw = if is_empty raw then block else put_input (decode raw) block

    abbrev call_step : Option (Fields F) → AnthropicState F → AnthropicState F × Emit F
    call_step none st = (st, silent)
    call_step (some tc) st =
        let calls = merge_tool_call st.tool_calls tc in
        (
          record st { tool_calls = calls },
          checked_write (tool_delta (tool_call_stream_index calls tc) tc),
        )

    abbrev act : Option (Fields F) → Text → Option (Fields F) → AnthropicState F → AnthropicState F
    act (some action) id (some ht) st =
        let entry = put (lit "action") (obj action) ht in
        record st {
          pending_search = insert id entry st.pending_search;
          hosted_tools = merge_hosted_tool st.hosted_tools entry;
        }
    act _ id _ st = st

    -- The search of a stopped server tool gets the action that its input names.
    abbrev search_step : Option (Fields F) → Text → AnthropicState F → AnthropicState F
    search_step none raw st = st
    search_step (some block) raw st =
        let id = get_str (lit "id") block in
        if is_empty id
        then st
        else act (search_action_from_input decode (some (str raw))) id (lookup id st.pending_search)
            st

    abbrev forget_block : ℤ → AnthropicState F → AnthropicState F
    forget_block idx st = record st {
      block_starts = delete idx st.block_starts;
      block_input_json = delete idx st.block_input_json;
      block_types = delete idx st.block_types;
    }

    -- `content_block_stop`.
    unfoldable pub stop_step : ℤ → AnthropicState F → AnthropicState F × Emit F
    stop_step idx st =
        let btyp = or_empty (lookup idx st.block_types) in
        let raw = or_empty (lookup idx st.block_input_json) in
        let start = lookup idx st.block_starts in
        let (called, emit) =
          call_step (anthropic_tool_call_from_block encode (stopped_block start (trim_space raw)))
            st in
        if text_eq btyp (lit "tool_use")
        then (forget_block idx called, emit)
        else if text_eq btyp (lit "server_tool_use")
        then (forget_block idx (search_step start raw st), silent)
        else (forget_block idx st, silent)

    abbrev start_usage : Option (Fields F) → AnthropicState F → AnthropicState F
    start_usage none st = st
    start_usage (some msg) st = elim (as_obj (get (lit "usage") msg)) [
      | none ↦ st
      | some u ↦ record st { tin = any_int fl (get (lit "input_tokens") u) }
    ]

    abbrev delta_usage : Option (Fields F) → AnthropicState F → AnthropicState F
    delta_usage none st = st
    delta_usage (some u) st = record st { tout = any_int fl (get (lit "output_tokens") u) }

    abbrev delta_stop : Option (Fields F) → AnthropicState F → AnthropicState F
    delta_stop none st = st
    delta_stop (some delta) st = with_stop (get_str (lit "stop_reason") delta) st

    abbrev error_emit : Option (Fields F) → Emit F
    error_emit none = silent
    error_emit (some e) = if is_empty (get_str (lit "message") e) then silent else upstream_error

    -- The handler of `parseAnthropicSSE`. (A tool call's chunk goes out before its block is forgotten; its
    -- error ends the parse, so that the order shows nowhere.)
    unfoldable pub anthropic_step : Bool → Event F → AnthropicState F → AnthropicState F × Emit F
    anthropic_step streaming (typ, o) st =
        let idx = any_int fl (get (lit "index") o) in
        if text_eq typ (lit "message_start")
        then (start_usage (as_obj (get (lit "message") o)) st, silent)
        else if text_eq typ (lit "content_block_start")
        then start_step (as_obj (get (lit "content_block") o)) idx st
        else if text_eq typ (lit "content_block_delta")
        then delta_step streaming (as_obj (get (lit "delta") o)) idx st
        else if text_eq typ (lit "content_block_stop")
        then stop_step idx st
        else if text_eq typ (lit "message_delta")
        then (
          delta_usage (as_obj (get (lit "usage") o)) (delta_stop (as_obj (get (lit "delta") o)) st),
          silent,
        )
        else if text_eq typ (lit "error")
        then (st, error_emit (as_obj (get (lit "error") o)))
        else (st, silent)

    -- The write of a step; false ends the parse.
    unfoldable pub emit_to : Bool → Emit F → Writer F → Bool × Writer F
    emit_to streaming silent w = (true, w)
    emit_to streaming upstream_error w = (false, w)
    emit_to false (checked_write c) w = (true, w)
    emit_to false (unchecked_write c) w = (true, w)
    emit_to true (checked_write c) w = write_chunk w c
    emit_to true (unchecked_write c) w = (true, (write_chunk w c).1)

    -- `parseAnthropicSSE`.
    unfoldable pub parse_anthropic :
        Bool → List (Event F) → AnthropicState F → Writer F → Bool × (AnthropicState F × Writer F)
    parse_anthropic streaming [] st w = (true, (st, w))
    parse_anthropic streaming (e ∷ events) st w =
        let (st', emit) = anthropic_step streaming e st in
        let (ok, w') = emit_to streaming emit w in
        let rest = parse_anthropic streaming events st' w' in
        if ok then rest else (false, (st', w'))

  abbrev pub AnthropicStep : Type 0
  AnthropicStep = Bool × (AnthropicState F × Writer F)

  abbrev put_write : AnthropicState F → Bool × Writer F → AnthropicStep
  put_write st (ok, w) = (ok, (st, w))

  -- The text that was not streamed, of `writeAnthropicStreamFinale`.
  unfoldable pub anthropic_backfill : AnthropicState F → Writer F → AnthropicStep
  anthropic_backfill st w =
      if st.content_emitted || is_empty st.text
      then (true, (st, w))
      else put_write (record st { content_emitted = true }) (write_chunk w (content st.text))

  -- `writeAnthropicStreamFinale`.
  unfoldable pub anthropic_finale : BridgeOpts → AnthropicState F → Writer F → AnthropicStep
  anthropic_finale opts st w =
      let (ok, (st1, w1)) = anthropic_backfill st w in
      let finish = anthropic_finish_reason st1.stop_reason (has_calls st1.tool_calls) in
      let ends = put_write st1 (
        write_two fl
          (last_chunk finish (usage_part st1.tin st1.tout) (llms_meta opts st1.hosted_tools))
          done_mark w1) in
      if ok then ends else (false, (st1, w1))

  -- `convertAnthropicSSEToChat` with a writer, on the events of the upstream.
  unfoldable pub stream_anthropic :
      (Text → Option (Any F))
      → (Any F → Text)
      → BridgeOpts
      → List (Event F)
      → Writer F
      → AnthropicStep
  stream_anthropic decode encode opts events w =
      let (ok, (st, w1)) = parse_anthropic decode encode true events new_anthropic_state w in
      let ends = anthropic_finale opts st w1 in if ok then ends else (false, (st, w1))
