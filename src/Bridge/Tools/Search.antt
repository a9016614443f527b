-- ===== src/Bridge/Tools/Search.antt =====
-- internal/proxy/codex_tools.go and anthropic_tools.go: when a request's web search reaches an upstream.
use openllms.Prelude.{
  List, [], ◌∷◌, Option, none, some, Bool, true, false, ◌≡◌, refl, inl, inr, ◌&&◌, ◌||◌, not, Text,
  lit, text_eq, is_empty, trim_space, arith, Bool-cases,
}
use openllms.Config.{Any, Fields, str, fields, get, get_str, put}
use openllms.Bridge.Tools.{
  ChatTool, Parameters, no_parameters, bad_parameters, parameters, usable, names_search,
  web_search_disabled, codex_web_search_live, codex_tools, anthropic_tools, codex_function_tool,
  codex_web_search_tool, codex_image_generation_tool, anthropic_custom_tool, cons_search, is_live,
  unless_none, map_client_tools_to_codex, map_client_tools_to_anthropic,
}

type-web_search :
    (F : Type 0) (live : Bool)
    → text_eq (get_str (lit "type") (codex_web_search_tool {F = F} live)) (lit "web_search") ≡ true
unfolding text_eq get_str get codex_web_search_tool
type-web_search F live = refl

type-image :
    (F : Type 0)
    → text_eq
        (get_str
          (lit "type")
          (codex_image_generation_tool {F = F} (lit "auto") (lit "auto") (lit "auto")))
        (lit "web_search")
      ≡ false
unfolding text_eq get_str get codex_image_generation_tool
type-image F = refl

type-anthropic_search :
    (F : Type 0)
    → text_eq
        (get_str {F = F} (lit "type") (
          fields (
            (lit "type", str (lit "web_search_20250305"))
            ∷ (lit "name", str (lit "web_search"))
            ∷ [])))
        (lit "web_search_20250305")
      ≡ true
unfolding text_eq get_str get
type-anthropic_search F = refl

is_live-codex_web_search_live :
    (mode : Text) → is_live (codex_web_search_live mode) ≡ not (web_search_disabled mode)
unfolding codex_web_search_live web_search_disabled
is_live-codex_web_search_live mode = ground arith

module _ {F : Type 0} where
  unfoldable pub has_type : Text → List (Fields F) → Bool
  has_type typ [] = false
  has_type typ (t ∷ ts) = text_eq (get_str (lit "type") t) typ || has_type typ ts

  -- Whether a request has a usable tool that is named web_search.
  unfoldable pub asks_search : List (ChatTool F) → Bool
  asks_search [] = false
  asks_search (t ∷ ts) = usable t && names_search t || asks_search ts

  type-codex_function_tool :
      (name description : Text) (params : Parameters F)
      → text_eq
          (get_str (lit "type") (codex_function_tool name description params))
          (lit "web_search")
        ≡ false
  unfolding text_eq get_str get codex_function_tool put
  type-codex_function_tool name description no_parameters =
      elim (Bool-cases (is_empty description)) [ inl e ↦ rw e refl | inr e ↦ rw e refl ]
  type-codex_function_tool name description bad_parameters =
      elim (Bool-cases (is_empty description)) [ inl e ↦ rw e refl | inr e ↦ rw e refl ]
  type-codex_function_tool name description (parameters v) =
      elim (Bool-cases (is_empty description)) [ inl e ↦ rw e refl | inr e ↦ rw e refl ]

  type-anthropic_custom_tool :
      (name description : Text) (params : Parameters F)
      → text_eq
          (get_str (lit "type") (anthropic_custom_tool name description params))
          (lit "web_search_20250305")
        ≡ false
  unfolding text_eq get_str get anthropic_custom_tool put
  type-anthropic_custom_tool name description params = elim (Bool-cases (is_empty description)) [
    | inl e ↦ rw e refl
    | inr e ↦ rw e refl
  ]

  has_type-cons_search :
      (live : Option Bool) (rest : List (Fields F)) (asked : Bool)
      → has_type (lit "web_search") rest ≡ asked && is_live live
      → has_type (lit "web_search") (cons_search live rest) ≡ is_live live
  unfolding has_type
  has_type-cons_search none rest asked h = ground arith
  has_type-cons_search (some live) rest asked h = rw (type-web_search F live) refl

  has_type-codex_tools :
      (live : Option Bool) (tools : List (ChatTool F))
      → has_type (lit "web_search") (codex_tools live tools) ≡ asks_search tools && is_live live
  unfolding has_type codex_tools asks_search
  has_type-codex_tools live [] = refl
  has_type-codex_tools live (t ∷ ts) =
      let ih = has_type-codex_tools live ts in
      elim (Bool-cases (usable t)) [
        | inr u ↦ rw u (ground (arith, ih))
        | inl u ↦ elim (Bool-cases (names_search t)) [
          | inl s ↦ rw (u, s) (has_type-cons_search live (codex_tools live ts) (asks_search ts) ih)
          | inr s ↦ elim (Bool-cases (text_eq (trim_space t.name) (lit "generate_image"))) [
            | inl g ↦ rw (u, s, g) (rw (type-image F, ih) (ground arith))
            | inr g ↦
                rw (u, s, g)
                  (rw (type-codex_function_tool (trim_space t.name) t.description t.params, ih)
                    (ground arith))
          ]
        ]
      ]

  has_type-anthropic_tools :
      (disabled : Bool) (tools : List (ChatTool F))
      → has_type (lit "web_search_20250305") (anthropic_tools disabled tools)
        ≡ asks_search tools && not disabled
  unfolding has_type anthropic_tools asks_search
  has_type-anthropic_tools disabled [] = refl
  has_type-anthropic_tools true (t ∷ ts) =
      let ih = has_type-anthropic_tools true ts in
      elim (Bool-cases (usable t)) [
        | inr u ↦ rw u (ground (arith, ih))
        | inl u ↦ elim (Bool-cases (names_search t)) [
          | inl s ↦ rw (u, s) (ground (arith, ih))
          | inr s ↦
              rw (u, s)
                (rw (type-anthropic_custom_tool (trim_space t.name) t.description t.params, ih)
                  (ground arith))
        ]
      ]
  has_type-anthropic_tools false (t ∷ ts) =
      let ih = has_type-anthropic_tools false ts in
      elim (Bool-cases (usable t)) [
        | inr u ↦ rw u (ground (arith, ih))
        | inl u ↦ elim (Bool-cases (names_search t)) [
          | inl s ↦ rw (u, s) (rw (type-anthropic_search F) refl)
          | inr s ↦
              rw (u, s)
                (rw (type-anthropic_custom_tool (trim_space t.name) t.description t.params, ih)
                  (ground arith))
        ]
      ]

  unless_none-tools :
      (tools : List (Fields F)) (tc : Option (Any F)) → (unless_none tools tc).0 ≡ tools
  unless_none-tools [] tc = refl
  unless_none-tools (t ∷ ts) tc = refl

  -- A web search is among the tools that Codex and Anthropic get exactly where the request has a
  -- usable tool of that name and its mode does not disable it.
  pub search-sent :
      (tools : List (ChatTool F)) (choice : Option (Any F)) (mode : Text)
      → (has_type (lit "web_search") (map_client_tools_to_codex tools choice mode).0
          ≡ asks_search tools && not (web_search_disabled mode))
        × (has_type (lit "web_search_20250305") (map_client_tools_to_anthropic tools choice mode).0
            ≡ asks_search tools && not (web_search_disabled mode))
  unfolding map_client_tools_to_codex map_client_tools_to_anthropic
  search-sent tools choice mode =
      let live = codex_web_search_live mode in
      let disabled = web_search_disabled mode in
      (
        rw (unless_none-tools (codex_tools live tools) _, has_type-codex_tools live tools)
            (rw (is_live-codex_web_search_live mode) refl),
        rw (unless_none-tools (anthropic_tools disabled tools) _)
            (has_type-anthropic_tools disabled tools),
      )
