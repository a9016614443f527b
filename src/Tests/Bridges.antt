-- ===== src/Tests/Bridges.antt =====
-- The theorems on the bridges of internal/proxy, at sample data.
use openllms.Prelude.{
  ◌≡◌, List, [], ◌∷◌, ◌++◌, All, Option, none, true, Text, lit, text_eq, refl, is_empty, has,
  distinct, ◌&&◌, not, trim_space, trim_left, is_space,
}
use openllms.Prelude.Int.{ℤ}
use openllms.Config.{Any, Fields, str, obj, fields, get, get_str}
use openllms.Oauth.{ok}
use openllms.Bridge.Merge.{
  image_generation_b64, codex_hosted_tool_from_item, codex_tool_call_from_item,
}
use openllms.Bridge.Stream.{BridgeOpts, Event, Chunk, Writer, write_chunk}
use openllms.Bridge.Codex.{
  new_codex_state, parse_codex, codex_step, on_delta, on_item, write_call, backfill, codex_finale,
  stream_codex, aggregate_codex, announce, ingest_output_item,
}
use openllms.Bridge.Codex.Same.{Alike}
use openllms.Bridge.Codex.Content.{content_of}
use openllms.Bridge.Codex.Final.{ending, streamed_text, stream_codex-aggregate}
use openllms.Bridge.Codex.Indices.{Placed, parse_codex-AllPlaced}
use openllms.Bridge.Content.{plain_text}
use openllms.Bridge.Messages.{ChatMessage, turns_from}
use openllms.Bridge.Messages.Turns.{spoken, said_by, alternates, turns_from-alternates}
use openllms.Bridge.Tools.{
  ChatTool, no_parameters, map_client_tools_to_codex, map_client_tools_to_anthropic,
  web_search_disabled,
}
use openllms.Bridge.Tools.Search.{has_type, asks_search, search-sent}
use openllms.Bridge.Images.{aggregate_images, images_of_event, image_of_item}
use openllms.Bridge.Images.Once.{images_of_events, aggregate_images-distinct}
use openllms.Tests.{scaled}

abbrev delta : Text → Event ℤ
delta s = (lit "response.output_text.delta", fields ((lit "delta", str s) ∷ []))

abbrev call_item : Fields ℤ
call_item = fields (
    (lit "type", str (lit "function_call"))
    ∷ (lit "call_id", str (lit "c1"))
    ∷ (lit "name", str (lit "look"))
    ∷ (lit "arguments", str (lit "{}"))
    ∷ [])

abbrev events : List (Event ℤ)
events =
    delta (lit "Hel")
    ∷ delta (lit "lo")
    ∷ (lit "response.output_item.done", fields ((lit "item", obj call_item) ∷ []))
    ∷ []

abbrev opts : BridgeOpts
opts = record { model = lit "gpt-5"; id = lit "x"; account_id = lit "a"; provider = lit "codex" }

abbrev pipe : Writer ℤ
pipe = record { out = []; room = 9 }

streamed : (stream_codex scaled opts events pipe).0 ≡ true
unfolding stream_codex parse_codex codex_step on_delta on_item write_call codex_finale backfill
    write_chunk text_eq is_empty get get_str announce codex_hosted_tool_from_item
    codex_tool_call_from_item ingest_output_item
streamed = refl

stream_codex-aggregate_example :
    let (st, w') = (stream_codex scaled opts events pipe).1 in
    (before : List (Chunk ℤ)) × (w'.out
      ≡ before ++ ending scaled opts (aggregate_codex scaled events))
    × (content_of before ≡ streamed_text scaled events)
    × Alike scaled st (aggregate_codex scaled events)
stream_codex-aggregate_example = stream_codex-aggregate scaled opts events pipe refl streamed

parse_codex-AllPlaced_example :
    let (st, w) =
      (parse_codex scaled true events new_codex_state (record { out = []; room = 5 })).1 in
    All (Placed st.tool_calls) w.out
parse_codex-AllPlaced_example = parse_codex-AllPlaced scaled events 5

abbrev says : Text → Text → ChatMessage
says role text = record {
  role = role;
  content = plain_text text;
  tool_calls = [];
  tool_call_id = [];
}

abbrev chat : List ChatMessage
chat =
    says (lit "system") (lit "Be brief.")
    ∷ says (lit "user") (lit "Hi")
    ∷ says (lit "user") (lit "there")
    ∷ says (lit "assistant") (lit "Hello")
    ∷ []

abbrev no_json : Text → Option (Any ℤ)
no_json s = none

turns_from-alternates_example :
    (spoken (turns_from no_json chat []) ≡ said_by no_json chat)
    × (alternates (turns_from no_json chat []) ≡ true)
turns_from-alternates_example = turns_from-alternates no_json chat

abbrev search_tool : List (ChatTool ℤ)
search_tool =
    record {
      typ = lit "function";
      name = lit "web_search";
      description = [];
      params = no_parameters;
    }
    ∷ []

search-sent_example :
    (has_type (lit "web_search") (map_client_tools_to_codex search_tool none (lit "Disabled")).0
      ≡ asks_search search_tool && not (web_search_disabled (lit "Disabled")))
    × (has_type
          (lit "web_search_20250305")
          (map_client_tools_to_anthropic search_tool none (lit "Disabled")).0
        ≡ asks_search search_tool && not (web_search_disabled (lit "Disabled")))
search-sent_example = search-sent search_tool none (lit "Disabled")

abbrev image_event : Event ℤ
image_event = (
  lit "response.output_item.done",
  fields (
      (
        lit "item",
        obj (
            fields (
              (lit "type", str (lit "image_generation_call"))
              ∷ (lit "result", str (lit "QUJD"))
              ∷ [])),
      )
      ∷ []),
)

abbrev image_events : List (Event ℤ)
image_events = image_event ∷ image_event ∷ []

carried : images_of_events image_events ≡ lit "QUJD" ∷ lit "QUJD" ∷ []
unfolding images_of_events images_of_event image_of_item image_generation_b64 text_eq is_empty get
    get_str trim_space trim_left is_space
carried = refl

aggregate_images-distinct_example :
    (images : List Text) × (aggregate_images image_events ≡ ok images)
    × (distinct images ≡ true)
    × ((b64 : Text) → has b64 images ≡ has b64 (images_of_events image_events))
aggregate_images-distinct_example =
    aggregate_images-distinct image_events (lit "QUJD") (lit "QUJD" ∷ []) carried
