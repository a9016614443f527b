-- ===== src/Bridge/Tools.antt =====
-- internal/proxy/codex_tools.go, anthropic_tools.go and llms_tools.go: the tools of a chat request as
-- the tools of Codex and of Anthropic, and the choice among them.
pub mod Search
use openllms.Prelude.{
  ℕ, List, [], ◌∷◌, ◌++◌, map, Option, none, some, Bool, true, false, ◌&&◌, ◌||◌, not,
  if◌then◌else◌, Text, lit, text_eq, is_empty, to_lower, trim_space,
}
use openllms.Config.{Any, Fields, str, bool, null, obj, end, get, get_str, put, fields, as_obj}

-- The parameters of a function: missing or null, not JSON, or a value.
pub data Parameters (F : Type 0) : Type 0 where
  no_parameters : Parameters F
  bad_parameters : Parameters F
  parameters : Any F → Parameters F

-- A tool of a chat request.
pub record ChatTool (F : Type 0) : Type 0 where
  pub typ : Text
  pub name : Text
  pub description : Text
  pub params : Parameters F

-- `llmsWebSearchMode`, of the mode that the extension decodes to (the empty text where it does not).
unfoldable pub web_search_mode : Text → Text
web_search_mode mode = to_lower (trim_space mode)

unfoldable pub web_search_disabled : Text → Bool
web_search_disabled mode = text_eq (web_search_mode mode) (lit "disabled")

-- `codexWebSearchLive`.
unfoldable pub codex_web_search_live : Text → Option Bool
codex_web_search_live mode =
    let m = web_search_mode mode in
    if text_eq m (lit "disabled")
    then none
    else if text_eq m (lit "cached")
    then some false
    else some true

abbrev or_auto : Text → Text
or_auto s = if is_empty s then lit "auto" else s

abbrev pub is_live : Option Bool → Bool
is_live none = false
is_live (some _) = true

abbrev pub live_unless : Bool → Option Bool
live_unless true = none
live_unless false = some true

module _ {F : Type 0} where
  -- A tool that the loops do not skip.
  unfoldable pub usable : ChatTool F → Bool
  usable t =
      (is_empty t.typ || text_eq t.typ (lit "function")) && not (is_empty (trim_space t.name))

  abbrev pub names_search : ChatTool F → Bool
  names_search t = text_eq (trim_space t.name) (lit "web_search")

  abbrev empty_schema : Any F
  empty_schema = obj (fields ((lit "type", str (lit "object")) ∷ (lit "properties", obj end) ∷ []))

  abbrev describe : Text → Fields F → Fields F
  describe description t =
      if is_empty description then t else put (lit "description") (str description) t

  abbrev put_params : Parameters F → Fields F → Fields F
  put_params no_parameters t = put (lit "parameters") empty_schema t
  put_params bad_parameters t = t
  put_params (parameters v) t = put (lit "parameters") v t

  -- `codexFunctionTool`.
  unfoldable pub codex_function_tool : Text → Text → Parameters F → Fields F
  codex_function_tool name description params = put_params params (
      describe description (
        fields (
          (lit "type", str (lit "function"))
          ∷ (lit "name", str name)
          ∷ (lit "strict", bool false)
          ∷ [])))

  -- `codexWebSearchTool`.
  unfoldable pub codex_web_search_tool : Bool → Fields F
  codex_web_search_tool live =
      fields ((lit "type", str (lit "web_search")) ∷ (lit "external_web_access", bool live) ∷ [])

  -- `codexImageGenerationToolOpts`.
  unfoldable pub codex_image_generation_tool : Text → Text → Text → Fields F
  codex_image_generation_tool size quality background = fields (
      (lit "type", str (lit "image_generation"))
      ∷ (lit "output_format", str (lit "png"))
      ∷ (lit "size", str (or_auto size))
      ∷ (lit "quality", str (or_auto quality))
      ∷ (lit "background", str (or_auto background))
      ∷ [])

  abbrev pub cons_search : Option Bool → List (Fields F) → List (Fields F)
  cons_search none rest = rest
  cons_search (some live) rest = codex_web_search_tool live ∷ rest

  -- The tools that the loop of `mapClientToolsToCodex` makes.
  unfoldable pub codex_tools : Option Bool → List (ChatTool F) → List (Fields F)
  codex_tools live [] = []
  codex_tools live (t ∷ ts) =
      let rest = codex_tools live ts in
      let name = trim_space t.name in
      if not (usable t)
      then rest
      else if names_search t
      then cons_search live rest
      else if text_eq name (lit "generate_image")
      then codex_image_generation_tool (lit "auto") (lit "auto") (lit "auto") ∷ rest
      else codex_function_tool name t.description t.params ∷ rest

  -- `hasWebSearch` and `hasImageGen` of the loop.
  unfoldable pub has_web_search : Option Bool → List (ChatTool F) → Bool
  has_web_search live [] = false
  has_web_search live (t ∷ ts) =
      usable t && names_search t && is_live live || has_web_search live ts

  unfoldable pub has_image_gen : List (ChatTool F) → Bool
  has_image_gen [] = false
  has_image_gen (t ∷ ts) =
      usable t && text_eq (trim_space t.name) (lit "generate_image") || has_image_gen ts

  abbrev pub typed : Text → Any F
  typed typ = obj (fields ((lit "type", str typ) ∷ []))

  abbrev pub named : Text → Text → Any F
  named typ name = obj (fields ((lit "type", str typ) ∷ (lit "name", str name) ∷ []))

  abbrev choice_typ : Fields F → Option (Any F)
  choice_typ o = if is_empty (get_str (lit "type") o) then none else some (obj o)

  abbrev choice_fn : Option (Fields F) → Fields F → Option (Any F)
  choice_fn none o = choice_typ o
  choice_fn (some fn) o =
      let name = get_str (lit "name") fn in
      if is_empty name
      then choice_typ o
      else if text_eq name (lit "web_search")
      then some (typed (lit "web_search"))
      else if text_eq name (lit "generate_image")
      then some (typed (lit "image_generation"))
      else some (named (lit "function") name)

  -- `mapToolChoice`; `none` leaves the field out.
  unfoldable pub map_tool_choice : Option (Any F) → Bool → Bool → Option (Any F)
  map_tool_choice (some (str s)) search image =
      let v = to_lower s in
      if text_eq v (lit "none")
      then some (str (lit "none"))
      else if text_eq v (lit "required")
      then (if image && not search
          then some (typed (lit "image_generation"))
          else if search && not image
          then some (typed (lit "web_search"))
          else some (str (lit "required")))
      else none
  map_tool_choice (some (obj o)) search image = choice_fn (as_obj (get (lit "function") o)) o
  map_tool_choice _ search image = none

  abbrev pub unless_none : List (Fields F) → Option (Any F) → List (Fields F) × Option (Any F)
  unless_none [] tc = ([], none)
  unless_none (t ∷ ts) tc = (t ∷ ts, tc)

  -- `mapClientToolsToCodex` of the decoded tools.
  unfoldable pub map_client_tools_to_codex :
      List (ChatTool F) → Option (Any F) → Text → List (Fields F) × Option (Any F)
  map_client_tools_to_codex tools choice mode =
      let live = codex_web_search_live mode in
      unless_none (codex_tools live tools)
        (map_tool_choice choice (has_web_search live tools) (has_image_gen tools))

  abbrev schema_of : Parameters F → Any F
  schema_of (parameters (obj p)) = obj p
  schema_of _ = empty_schema

  -- `anthropicCustomTool`.
  unfoldable pub anthropic_custom_tool : Text → Text → Parameters F → Fields F
  anthropic_custom_tool name description params =
      put (lit "input_schema") (schema_of params)
        (describe description (fields ((lit "name", str name) ∷ [])))

  -- The tools that `mapClientToolsToAnthropic` makes; a disabled web search is filtered out first.
  unfoldable pub anthropic_tools : Bool → List (ChatTool F) → List (Fields F)
  anthropic_tools disabled [] = []
  anthropic_tools disabled (t ∷ ts) =
      let rest = anthropic_tools disabled ts in
      if disabled && names_search t || not (usable t)
      then rest
      else if names_search t
      then fields (
          (lit "type", str (lit "web_search_20250305")) ∷ (lit "name", str (lit "web_search")) ∷ [])
        ∷ rest
      else anthropic_custom_tool (trim_space t.name) t.description t.params ∷ rest

  abbrev anthropic_choice_fn : Option (Fields F) → Option (Any F)
  anthropic_choice_fn none = none
  anthropic_choice_fn (some fn) =
      let name = get_str (lit "name") fn in
      if is_empty name then none else some (named (lit "tool") name)

  -- `mapAnthropicToolChoice`.
  unfoldable pub map_anthropic_tool_choice : Option (Any F) → Bool → Option (Any F)
  map_anthropic_tool_choice (some (str s)) search =
      let v = to_lower s in
      if text_eq v (lit "none")
      then some (typed (lit "none"))
      else if text_eq v (lit "required")
      then (if search
          then some (named (lit "tool") (lit "web_search"))
          else some (typed (lit "any")))
      else if text_eq v (lit "auto") || is_empty v
      then some (typed (lit "auto"))
      else none
  map_anthropic_tool_choice (some (obj o)) search =
      anthropic_choice_fn (as_obj (get (lit "function") o))
  map_anthropic_tool_choice _ search = none

  -- `mapClientToolsToAnthropic` of the decoded tools.
  unfoldable pub map_client_tools_to_anthropic :
      List (ChatTool F) → Option (Any F) → Text → List (Fields F) × Option (Any F)
  map_client_tools_to_anthropic tools choice mode =
      let disabled = web_search_disabled mode in
      unless_none (anthropic_tools disabled tools)
        (map_anthropic_tool_choice choice (has_web_search (live_unless disabled) tools))
