-- ===== src/Bridge/Anthropic.antt =====
-- internal/proxy/anthropic_bridge_parse.go and anthropic_tools.go: the state that the parse of a Messages
-- stream or of a whole message keeps. `decode` and `encode` are json.Unmarshal into an `any` and
-- json.Marshal of one.
pub mod Parse
use openllms.Prelude.{
  ℕ, zero, suc, ◌+◌, List, [], ◌∷◌, ◌++◌, Option, none, some, Bool, true, false, ◌&&◌, ◌||◌, ◌==◌,
  not, if◌then◌else◌, Text, lit, text_eq, is_empty, trim_space, map,
}
use openllms.Prelude.Int.{ℤ, pos}
use openllms.Assoc.{lookup, insert, delete, text_instance, int_instance}
use openllms.Config.{
  Any, Items, Fields, end, str, obj, null, get, get_str, put, fields, as_obj, as_items, objects,
}
use openllms.Number.{Float}
use openllms.Bridge.Merge.{
  merge_hosted_tool, merge_tool_call, tool_call, tool_call_stream_index, put_text,
}
use openllms.Bridge.Completion.{llms_meta, build_completion}
use openllms.Bridge.Codex.{any_int}
use openllms.Bridge.Stream.{
  BridgeOpts, Event, Chunk, content, tool_delta, hosted_event, last_chunk, done_mark, Writer,
  write_chunk,
}

-- `anthropicParseState`, less its constants.
pub record AnthropicState (F : Type 0) : Type 0 where
  pub text : Text
  pub tin : ℤ
  pub tout : ℤ
  pub hosted_tools : List (Fields F)
  pub tool_calls : List (Fields F)
  pub pending_search : List (Text × Fields F)
  pub block_starts : List (ℤ × Fields F)
  pub block_input_json : List (ℤ × Text)
  pub block_types : List (ℤ × Text)
  pub stop_reason : Text
  pub content_emitted : Bool

-- `newAnthropicParseState`.
abbrev pub new_anthropic_state : {F : Type 0} → AnthropicState F
new_anthropic_state = record {
  text = [];
  tin = pos 0;
  tout = pos 0;
  hosted_tools = [];
  tool_calls = [];
  pending_search = [];
  block_starts = [];
  block_input_json = [];
  block_types = [];
  stop_reason = [];
  content_emitted = false;
}

-- What a step writes to a client that streams: nothing, a chunk whose error ends the parse, a chunk whose
-- error is dropped; or the parse ends in an error of the upstream.
pub data Emit (F : Type 0) : Type 0 where
  silent : Emit F
  checked_write : Chunk F → Emit F
  unchecked_write : Chunk F → Emit F
  upstream_error : Emit F

-- `anthropicFinishReason`.
unfoldable pub anthropic_finish_reason : Text → Bool → Text
anthropic_finish_reason stop has_tool_calls =
    if text_eq stop (lit "tool_use")
    then lit "tool_calls"
    else if text_eq stop (lit "max_tokens")
    then lit "length"
    else if has_tool_calls
    then lit "tool_calls"
    else lit "stop"

module _ {F : Type 0} (encode : Any F → Text) where
  abbrev arguments_of : Option (Any F) → Text
  arguments_of none = lit "{}"
  arguments_of (some null) = lit "{}"
  arguments_of (some v) = encode v

  -- `anthropicToolCallFromBlock`.
  unfoldable pub anthropic_tool_call_from_block : Fields F → Option (Fields F)
  anthropic_tool_call_from_block block =
      let name = get_str (lit "name") block in
      if not (text_eq (get_str (lit "type") block) (lit "tool_use")) || is_empty name
      then none
      else some (tool_call (get_str (lit "id") block) name (arguments_of (get (lit "input") block)))

module _ {F : Type 0} (decode : Text → Option (Any F)) where
  -- The map case of `searchActionFromInput`.
  unfoldable pub search_action_from_map : Fields F → Option (Fields F)
  search_action_from_map m =
      let q = get_str (lit "query") m in
      if is_empty (trim_space q)
      then none
      else some (fields ((lit "type", str (lit "search")) ∷ (lit "query", str q) ∷ []))

  abbrev search_action_from_json : Option (Any F) → Option (Fields F)
  search_action_from_json (some (obj m)) = search_action_from_map m
  search_action_from_json _ = none

  -- `searchActionFromInput`.
  unfoldable pub search_action_from_input : Option (Any F) → Option (Fields F)
  search_action_from_input (some (obj m)) = search_action_from_map m
  search_action_from_input (some (str s)) =
      if is_empty (trim_space s) then none else search_action_from_json (decode s)
  search_action_from_input _ = none

  abbrev pub put_action : Option (Fields F) → Fields F → Fields F
  put_action none entry = entry
  put_action (some action) entry = put (lit "action") (obj action) entry

  -- `anthropicHostedToolFromServerUse`.
  unfoldable pub hosted_from_server_use : Fields F → Option (Fields F)
  hosted_from_server_use block =
      if not (text_eq (get_str (lit "type") block) (lit "server_tool_use"))
        || not (text_eq (get_str (lit "name") block) (lit "web_search"))
      then none
      else some (
          put_action (search_action_from_input (get (lit "input") block)) (
            put_text (lit "id") (get_str (lit "id") block) (
              fields (
                (lit "name", str (lit "web_search"))
                ∷ (lit "status", str (lit "in_progress"))
                ∷ []))))

module _ {F : Type 0} where
  abbrev pub has_calls : List (Fields F) → Bool
  has_calls [] = false
  has_calls (c ∷ calls) = true

  abbrev pub with_stop : Text → AnthropicState F → AnthropicState F
  with_stop sr st = if is_empty sr then st else record st { stop_reason = sr }

  abbrev completed_search : Fields F
  completed_search =
      fields ((lit "name", str (lit "web_search")) ∷ (lit "status", str (lit "completed")) ∷ [])

  -- The action of the search that a result answers.
  abbrev copy_action : Option (Fields F) → Fields F → Fields F
  copy_action none entry = entry
  copy_action (some prev) entry = elim (get (lit "action") prev) [
    | none ↦ entry
    | some action ↦ put (lit "action") action entry
  ]

  -- `anthropicHostedToolFromSearchResult`.
  unfoldable pub hosted_from_search_result : Fields F → List (Text × Fields F) → Option (Fields F)
  hosted_from_search_result block pending =
      let id = get_str (lit "tool_use_id") block in
      if not (text_eq (get_str (lit "type") block) (lit "web_search_tool_result"))
      then none
      else if is_empty id
      then some completed_search
      else some (copy_action (lookup id pending) (put (lit "id") (str id) completed_search))

  abbrev add_tool_call : Option (Fields F) → AnthropicState F → AnthropicState F
  add_tool_call none st = st
  add_tool_call (some tc) st = record st { tool_calls = merge_tool_call st.tool_calls tc }

  abbrev add_result : Option (Fields F) → AnthropicState F → AnthropicState F × Emit F
  add_result none st = (st, silent)
  add_result (some ht) st = (
    record st { hosted_tools = merge_hosted_tool st.hosted_tools ht },
    unchecked_write (hosted_event (lit "completed") ht),
  )

  abbrev remember : Fields F → AnthropicState F → AnthropicState F
  remember ht st =
      let id = get_str (lit "id") ht in
      if is_empty id then st else record st { pending_search = insert id ht st.pending_search }

  abbrev add_search : Option (Fields F) → AnthropicState F → AnthropicState F × Emit F
  add_search none st = (st, silent)
  add_search (some ht) st = (
    record (remember ht st) { hosted_tools = merge_hosted_tool st.hosted_tools ht },
    unchecked_write (hosted_event (lit "started") ht),
  )

module _ (fl : Float) where
  open fl use {F}

  module _ (decode : Text → Option (Any F)) (encode : Any F → Text) where
    -- `ingestContentBlock`.
    unfoldable pub ingest_content_block : Fields F → AnthropicState F → AnthropicState F × Emit F
    ingest_content_block block st =
        let typ = get_str (lit "type") block in
        if text_eq typ (lit "text")
        then (record st { text = st.text ++ get_str (lit "text") block }, silent)
        else if text_eq typ (lit "tool_use")
        then (add_tool_call (anthropic_tool_call_from_block encode block) st, silent)
        else if text_eq typ (lit "server_tool_use")
        then add_search (hosted_from_server_use decode block) st
        else if text_eq typ (lit "web_search_tool_result")
        then add_result (hosted_from_search_result block st.pending_search) st
        else (st, silent)

    unfoldable pub ingest_blocks : List (Fields F) → AnthropicState F → AnthropicState F
    ingest_blocks [] st = st
    ingest_blocks (b ∷ bs) st = ingest_blocks bs (ingest_content_block b st).0

    abbrev message_usage : Option (Fields F) → AnthropicState F → AnthropicState F
    message_usage none st = st
    message_usage (some u) st = record st {
      tin = any_int fl (get (lit "input_tokens") u);
      tout = any_int fl (get (lit "output_tokens") u);
    }

    -- `ingestMessage`.
    unfoldable pub ingest_message : Fields F → AnthropicState F → AnthropicState F
    ingest_message msg st = ingest_blocks (objects (as_items (get (lit "content") msg))) (
        with_stop (get_str (lit "stop_reason") msg)
          (message_usage (as_obj (get (lit "usage") msg)) st))

    -- `convertAnthropicMessageToChat`, with the time of its answer.
    unfoldable pub convert_anthropic_message : BridgeOpts → Fields F → ℤ → Fields F
    convert_anthropic_message opts msg now =
        let st = ingest_message msg new_anthropic_state in
        build_completion opts now st.text st.tool_calls st.hosted_tools
          (anthropic_finish_reason st.stop_reason (has_calls st.tool_calls)) st.tin st.tout
