-- ===== src/Bridge/Stream.antt =====
-- internal/proxy: the reading of server-sent events (codex_sse.go, anthropic_sse.go), and the chunks that
-- are written to a client (`sseWriter` of codex_tools.go). A line's JSON is read by `decode`, which is
-- `json.Unmarshal` into a map. Writes succeed as long as the client's pipe has room.
use openllms.Prelude.{
  ℕ, zero, suc, List, [], ◌∷◌, ◌++◌, Option, none, some, Bool, true, false, ◌||◌, not,
  if◌then◌else◌, Text, lit, text_eq, is_empty, trim_space, has_prefix, drop,
}
use openllms.Config.{Fields, get_str}

-- The options of a bridge.
pub record BridgeOpts : Type 0 where
  pub model : Text
  pub id : Text
  pub account_id : Text
  pub provider : Text

-- An event: its type and its object.
abbrev pub Event : Type 0 → Type 0
Event F = Text × Fields F

module _ {F : Type 0} (decode : Text → Option (Fields F)) where
  abbrev payload_of : Text → Text
  payload_of line = trim_space (drop 5 line)

  abbrev no_payload : Text → Bool
  no_payload p = is_empty p || text_eq p (lit "[DONE]")

  -- `forEachCodexSSEEvent` with the name of the last `event:` line.
  unfoldable pub codex_events : Text → List Text → List (Event F)
  codex_events name [] = []
  codex_events name (line ∷ lines) = elim (has_prefix line (lit "event:")) [
    | true ↦ codex_events (trim_space (drop 6 line)) lines
    | false ↦ elim (has_prefix line (lit "data:")) [
      | false ↦ codex_events (if is_empty line then [] else name) lines
      | true ↦
          let rest = codex_events name lines in
          if no_payload (payload_of line) then rest else elim (decode (payload_of line)) [
            | none ↦ rest
            | some o ↦
                let typ = get_str (lit "type") o in (if is_empty typ then name else typ, o) ∷ rest
          ]
    ]
  ]

  -- `forEachAnthropicSSEEvent`.
  unfoldable pub anthropic_events : List Text → List (Event F)
  anthropic_events [] = []
  anthropic_events (line ∷ lines) =
      let rest = anthropic_events lines in
      if not (has_prefix line (lit "data:")) || no_payload (payload_of line)
      then rest
      else elim (decode (payload_of line)) [
        | none ↦ rest
        | some o ↦
            let typ = get_str (lit "type") o in if is_empty typ then rest else (typ, o) ∷ rest
      ]

-- What a bridge writes to the client: a piece of text, a tool call at its index, a hosted tool with its
-- phase, the last chunk (finish reason, usage if it has one, metadata), and the end mark.
pub data Chunk (F : Type 0) : Type 0 where
  content : Text → Chunk F
  tool_delta : ℕ → Fields F → Chunk F
  hosted_event : Text → Fields F → Chunk F
  last_chunk : Text → Option (Fields F) → Fields F → Chunk F
  done_mark : Chunk F

-- The client's pipe: what was written, and how many writes succeed before the client is gone.
pub record Writer (F : Type 0) : Type 0 where
  pub out : List (Chunk F)
  pub room : ℕ

abbrev full : {F : Type 0} → Writer F → ℕ → Chunk F → Bool × Writer F
full w zero c = (false, w)
full w (suc n) c = (true, record w { out = w.out ++ (c ∷ []); room = n })

-- `WriteChunk`; false is the error.
unfoldable pub write_chunk : {F : Type 0} → Writer F → Chunk F → Bool × Writer F
write_chunk w c = full w w.room c
