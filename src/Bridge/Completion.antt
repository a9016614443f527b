-- ===== src/Bridge/Completion.antt =====
-- internal/proxy: the chat completion that a client gets, whole (`buildCompletionJSON`) or in chunks.
use openllms.Prelude.{Option, none, some, List, [], ◌∷◌, if◌then◌else◌, Text, lit, is_empty, map}
use openllms.Prelude.Int.{ℤ, pos, ltb_ℤ, ◌+ℤ◌}
use openllms.Number.{wrap64}
use openllms.Config.{Any, Fields, str, int, null, obj, arr, put, fields, items_of}
use openllms.Bridge.Stream.{BridgeOpts}

module _ {F : Type 0} where
  abbrev list_of : List (Fields F) → Any F
  list_of fs = arr (items_of (map obj fs))

  abbrev put_list : Text → List (Fields F) → Fields F → Fields F
  put_list k [] m = m
  put_list k (f ∷ fs) m = put k (list_of (f ∷ fs)) m

  abbrev put_some : Text → Text → Fields F → Fields F
  put_some k s m = if is_empty s then m else put k (str s) m

  -- `llmsMeta`.
  unfoldable pub llms_meta : BridgeOpts → List (Fields F) → Fields F
  llms_meta opts hosted = put_list (lit "hosted_tools") hosted (
      put_some (lit "provider") opts.provider
        (put_some (lit "account_id") opts.account_id Fields.end))

  -- The finish reason by the tool calls.
  abbrev pub finish_of : List (Fields F) → Text
  finish_of [] = lit "stop"
  finish_of (c ∷ calls) = lit "tool_calls"

  -- The `message` of a completion.
  abbrev message_of : Text → List (Fields F) → Fields F
  message_of text [] = fields ((lit "role", str (lit "assistant")) ∷ (lit "content", str text) ∷ [])
  message_of text (c ∷ calls) = fields (
      (lit "role", str (lit "assistant"))
      ∷ (lit "content", if is_empty text then null else str text)
      ∷ (lit "tool_calls", list_of (c ∷ calls))
      ∷ [])

  unfoldable pub usage_of : ℤ → ℤ → Fields F
  usage_of tin tout = fields (
      (lit "prompt_tokens", int tin)
      ∷ (lit "completion_tokens", int tout)
      ∷ (lit "total_tokens", int (wrap64 (tin +ℤ tout)))
      ∷ [])

  -- The usage of a last chunk: none where no tokens were counted.
  abbrev pub usage_part : ℤ → ℤ → Option (Fields F)
  usage_part tin tout =
      if ltb_ℤ (pos 0) (wrap64 (tin +ℤ tout)) then some (usage_of tin tout) else none

  abbrev put_meta : Fields F → Fields F → Fields F
  put_meta Fields.end m = m
  put_meta (Fields.field k v fs) m = put (lit "llms") (obj (Fields.field k v fs)) m

  -- `buildCompletionJSON`, on the parts of the state that it reads.
  unfoldable pub build_completion :
      BridgeOpts → ℤ → Text → List (Fields F) → List (Fields F) → Text → ℤ → ℤ → Fields F
  build_completion opts now text calls hosted finish tin tout = put_meta (llms_meta opts hosted) (
      fields (
        (lit "id", str opts.id)
        ∷ (lit "object", str (lit "chat.completion"))
        ∷ (lit "created", int now)
        ∷ (lit "model", str opts.model)
        ∷ (
          lit "choices",
          list_of (
              fields (
                (lit "index", int (pos 0))
                ∷ (lit "message", obj (message_of text calls))
                ∷ (lit "finish_reason", str finish)
                ∷ [])
              ∷ []),
        )
        ∷ (lit "usage", obj (usage_of tin tout))
        ∷ []))
