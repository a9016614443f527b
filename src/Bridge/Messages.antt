-- ===== src/Bridge/Messages.antt =====
-- internal/proxy/anthropic_bridge.go and codex_bridge.go: the messages of a request, as a Messages body
-- and as a Responses body. `decode` is json.Unmarshal into an `any`; a map literal of the code is the
-- constructor of its `type`.
pub mod Turns
use openllms.Prelude.{
  ℕ, List, [], ◌∷◌, ◌++◌, map, Option, none, some, Bool, true, false, ◌&&◌, ◌||◌, not,
  if◌then◌else◌, Text, lit, text_eq, is_empty, to_lower, trim_space, has_prefix,
}
use openllms.Config.{Any, Fields, obj, end}
use openllms.Bridge.Content.{
  Content, ImageRef, parse_chat_content_parts, flatten_chat_content, CodexPart, codex_parts,
  parse_data_uri,
}

-- A tool call of a chat message, as `json.Unmarshal` reads it.
pub record ChatCall : Type 0 where
  pub id : Text
  pub name : Text
  pub arguments : Text

pub record ChatMessage : Type 0 where
  pub role : Text
  pub content : Content
  pub tool_calls : List ChatCall
  pub tool_call_id : Text

-- The content blocks of a Messages body.
pub data Block (F : Type 0) : Type 0 where
  text_block : Text → Block F
  image_base64 : Text → Text → Block F
  image_url : Text → Block F
  tool_use : Text → Text → Any F → Block F
  tool_result : Text → Text → Block F

pub data Speaker : Type 0 where
  user : Speaker
  assistant : Speaker

-- A turn of a Messages body.
abbrev pub Turn : Type 0 → Type 0
Turn F = Speaker × List (Block F)

unfoldable pub same_speaker : Speaker → Speaker → Bool
same_speaker user user = true
same_speaker assistant assistant = true
same_speaker _ _ = false

module _ {F : Type 0} where
  abbrev image_of : Text → Option (Text × Text) → Block F
  image_of url none = image_url url
  image_of url (some (media, data_)) = image_base64 media data_

  -- `anthropicImageBlock`.
  unfoldable pub anthropic_image_block : ImageRef → Block F
  anthropic_image_block img =
      if has_prefix img.url (lit "data:")
      then image_of img.url (parse_data_uri img.url)
      else image_url img.url

  -- `chatContentToAnthropicBlocks`.
  unfoldable pub anthropic_blocks : Content → List (Block F)
  anthropic_blocks c =
      let (texts, images) = parse_chat_content_parts c in
      map text_block texts ++ map anthropic_image_block images

  -- `filterAnthropicTextAndToolBlocks`.
  unfoldable pub text_and_tool_blocks : List (Block F) → List (Block F)
  text_and_tool_blocks [] = []
  text_and_tool_blocks (text_block t ∷ bs) = text_block t ∷ text_and_tool_blocks bs
  text_and_tool_blocks (tool_use id name input ∷ bs) =
      tool_use id name input ∷ text_and_tool_blocks bs
  text_and_tool_blocks (_ ∷ bs) = text_and_tool_blocks bs

  -- `appendAnthropicMessage`.
  unfoldable pub append_anthropic_message : List (Turn F) → Speaker → List (Block F) → List (Turn F)
  append_anthropic_message turns role [] = turns
  append_anthropic_message [] role (b ∷ bs) = (role, b ∷ bs) ∷ []
  append_anthropic_message ((r, content) ∷ []) role (b ∷ bs) =
      if same_speaker r role
      then (r, content ++ (b ∷ bs)) ∷ []
      else (r, content) ∷ (role, b ∷ bs) ∷ []
  append_anthropic_message (t ∷ u ∷ turns) role (b ∷ bs) =
      t ∷ append_anthropic_message (u ∷ turns) role (b ∷ bs)

  abbrev or_no_input : Option (Any F) → Any F
  or_no_input none = obj end
  or_no_input (some v) = v

  module _ (decode : Text → Option (Any F)) where
    -- `anthropicToolUseBlocks`.
    unfoldable pub tool_use_blocks : List ChatCall → List (Block F)
    tool_use_blocks [] = []
    tool_use_blocks (c ∷ cs) =
        let rest = tool_use_blocks cs in
        let args = trim_space c.arguments in
        let input = if is_empty args then obj end else or_no_input (decode args) in
        if is_empty (trim_space c.name)
        then rest
        else tool_use c.id (trim_space c.name) input ∷ rest

    -- The turn that a message of a chat adds; a system message adds none.
    unfoldable pub turn_of : ChatMessage → Option (Turn F)
    turn_of m =
        let role = to_lower (trim_space m.role) in
        if text_eq role (lit "system") || text_eq role (lit "developer")
        then none
        else if text_eq role (lit "tool")
        then some
            (user, tool_result (trim_space m.tool_call_id) (flatten_chat_content m.content) ∷ [])
        else if text_eq role (lit "assistant")
        then some (
          assistant,
          text_and_tool_blocks (anthropic_blocks m.content) ++ tool_use_blocks m.tool_calls,
        )
        else some (user, anthropic_blocks m.content)

    abbrev pub add_turn : Option (Turn F) → List (Turn F) → List (Turn F)
    add_turn none turns = turns
    add_turn (some (role, blocks)) turns = append_anthropic_message turns role blocks

    -- The loop of `chatToAnthropicMessages` over the messages.
    unfoldable pub turns_from : List ChatMessage → List (Turn F) → List (Turn F)
    turns_from [] turns = turns
    turns_from (m ∷ ms) turns = turns_from ms (add_turn (turn_of m) turns)

-- The text that a message adds to the system text.
unfoldable pub is_system : ChatMessage → Bool
is_system m =
    let role = to_lower (trim_space m.role) in
    text_eq role (lit "system") || text_eq role (lit "developer")

-- The system text that the loop builds (also the instructions of a Responses body).
unfoldable pub system_from : List ChatMessage → Text → Text
system_from [] system = system
system_from (m ∷ ms) system =
    let text = flatten_chat_content m.content in
    if not (is_system m) || is_empty text
    then system_from ms system
    else system_from ms (if is_empty system then text else system ++ lit "\n" ++ text)

-- The items of a Responses body's `input`.
pub data InputItem : Type 0 where
  message : Speaker → List CodexPart → InputItem
  function_call : Text → Text → Text → InputItem
  function_call_output : Text → Text → InputItem

-- `responsesFunctionCallsFromToolCalls`: the id, the name and the arguments of a call.
unfoldable pub function_calls : List ChatCall → List InputItem
function_calls [] = []
function_calls (c ∷ cs) =
    let rest = function_calls cs in
    let args = trim_space c.arguments in
    if is_empty (trim_space c.name) || is_empty (trim_space c.id)
    then rest
    else function_call (trim_space c.id) (trim_space c.name)
        (if is_empty args then lit "{}" else args)
      ∷ rest

unfoldable pub said : Speaker → List CodexPart → List InputItem
said who [] = []
said who (p ∷ ps) = message who (p ∷ ps) ∷ []

-- The items that a message of a chat adds.
unfoldable pub items_of_message : ChatMessage → List InputItem
items_of_message m =
    let role = to_lower (trim_space m.role) in
    let call_id = trim_space m.tool_call_id in
    if is_system m
    then []
    else if text_eq role (lit "tool")
    then (if is_empty call_id
        then []
        else function_call_output call_id (flatten_chat_content m.content) ∷ [])
    else if text_eq role (lit "assistant")
    then said assistant (codex_parts m.content true) ++ function_calls m.tool_calls
    else said user (codex_parts m.content false)

-- The loop of `chatToCodexResponses` over the messages.
unfoldable pub input_from : List ChatMessage → List InputItem → List InputItem
input_from [] input = input
input_from (m ∷ ms) input = input_from ms (input ++ items_of_message m)

-- The instructions of a Responses body.
unfoldable pub instructions : List ChatMessage → Text
instructions ms =
    let instr = trim_space (system_from ms []) in
    if is_empty instr then lit "You are a helpful assistant." else instr
