-- ===== src/Bridge/Merge.antt =====
-- internal/proxy/codex_tools.go and internal/proxy/anthropic_tools.go: the tool entries that the parse of
-- a stream collects, and how entries of the same tool are merged.
pub mod Ids
use openllms.Prelude.{
  ℕ, suc, ◌+◌, ◌-◌, List, [], ◌∷◌, ◌++◌, Option, none, some, Bool, true, false, ◌&&◌, ◌||◌, not,
  if◌then◌else◌, Text, lit, text_eq, is_empty, trim_space, length,
}
use openllms.Config.{
  Any, Items, Fields, end, field, str, obj, get, get_str, put, put_all, as_obj, fields,
}

module _ {F : Type 0} where
  -- `if s != "" { entry[k] = s }`.
  abbrev pub put_text : Text → Text → Fields F → Fields F
  put_text k s entry = if is_empty s then entry else put k (str s) entry

  -- `if m, ok := v.(map[string]any); ok && len(m) > 0 { entry[k] = m }`.
  abbrev pub put_obj : Text → Option (Fields F) → Fields F → Fields F
  put_obj k none entry = entry
  put_obj k (some end) entry = entry
  put_obj k (some (field j v fs)) entry = put k (obj (field j v fs)) entry

  -- `imageGenerationB64`.
  unfoldable pub image_generation_b64 : Fields F → Text
  image_generation_b64 item =
      if text_eq (get_str (lit "type") item) (lit "image_generation_call")
      then trim_space (get_str (lit "result") item)
      else []

  abbrev web_search_entry : Fields F → Fields F
  web_search_entry item = put_obj (lit "action") (as_obj (get (lit "action") item)) (
      put_text (lit "status") (get_str (lit "status") item) (
        put_text (lit "id") (get_str (lit "id") item)
          (fields ((lit "name", str (lit "web_search")) ∷ []))))

  abbrev put_image : Text → Fields F → Fields F
  put_image b64 entry =
      if is_empty b64
      then entry
      else put (lit "result")
          (obj (fields ((lit "b64_json", str b64) ∷ (lit "mime_type", str (lit "image/png")) ∷ [])))
          entry

  abbrev image_entry : Fields F → Fields F
  image_entry item =
      let status = get_str (lit "status") item in
      put_image (image_generation_b64 item) (
        put (lit "status") (str (if is_empty status then lit "completed" else status)) (
          put_text (lit "id") (get_str (lit "id") item)
            (fields ((lit "name", str (lit "generate_image")) ∷ []))))

  -- `codexHostedToolFromItem`; `none` is the result that is not ok.
  unfoldable pub codex_hosted_tool_from_item : Fields F → Option (Fields F)
  codex_hosted_tool_from_item item =
      let typ = get_str (lit "type") item in
      if text_eq typ (lit "web_search_call")
      then some (web_search_entry item)
      else if text_eq typ (lit "image_generation_call")
      then some (image_entry item)
      else none

  -- A `tool_calls` entry.
  abbrev pub tool_call : Text → Text → Text → Fields F
  tool_call id name args = fields (
      (lit "id", str id)
      ∷ (lit "type", str (lit "function"))
      ∷ (lit "function", obj (fields ((lit "name", str name) ∷ (lit "arguments", str args) ∷ [])))
      ∷ [])

  -- `codexToolCallFromItem`.
  unfoldable pub codex_tool_call_from_item : Fields F → Option (Fields F)
  codex_tool_call_from_item item =
      let call_id = get_str (lit "call_id") item in
      let id = if is_empty call_id then get_str (lit "id") item else call_id in
      let name = get_str (lit "name") item in
      if not (text_eq (get_str (lit "type") item) (lit "function_call")) || is_empty name
      then none
      else some (tool_call id name (get_str (lit "arguments") item))

  -- The `id` of an entry.
  abbrev pub id_of : Fields F → Text
  id_of e = get_str (lit "id") e

  abbrev same_hosted : Fields F → Fields F → Bool
  same_hosted entry h =
      let id = id_of entry in
      let name = get_str (lit "name") entry in
      (not (is_empty id) && text_eq (id_of h) id)
      || (is_empty id && (not (is_empty name) && text_eq (get_str (lit "name") h) name))

  -- `mergeHostedTool`.
  unfoldable pub merge_hosted_tool : List (Fields F) → Fields F → List (Fields F)
  merge_hosted_tool [] entry = entry ∷ []
  merge_hosted_tool (h ∷ existing) entry =
      let later = merge_hosted_tool existing entry in
      if same_hosted entry h then put_all entry h ∷ existing else h ∷ later

  abbrev pub same_call : Fields F → Fields F → Bool
  same_call tc e = not (is_empty (id_of tc)) && text_eq (id_of e) (id_of tc)

  -- `mergeToolCall`.
  unfoldable pub merge_tool_call : List (Fields F) → Fields F → List (Fields F)
  merge_tool_call [] tc = tc ∷ []
  merge_tool_call (e ∷ existing) tc =
      let later = merge_tool_call existing tc in if same_call tc e then tc ∷ existing else e ∷ later

  -- The search of `toolCallStreamIndex` from a position on.
  unfoldable pub position_of : Fields F → List (Fields F) → Option ℕ
  position_of tc [] = none
  position_of tc (e ∷ calls) =
      let later = position_of tc calls in
      if same_call tc e then some 0 else elim later [ none ↦ none | some i ↦ some (suc i) ]

  -- `toolCallStreamIndex`.
  unfoldable pub tool_call_stream_index : List (Fields F) → Fields F → ℕ
  tool_call_stream_index calls tc = elim (position_of tc calls) [
    | none ↦ length calls - 1
    | some i ↦ i
  ]
