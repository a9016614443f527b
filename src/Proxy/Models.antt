-- ===== src/Proxy/Models.antt =====
-- internal/proxy/account_model.go: which model a seat is asked for, and which seats can serve a request.
-- A request body is what encoding/json makes of its bytes.
pub mod Serves
pub mod Rewrite
use openllms.Prelude.{
  List, [], ◌∷◌, Option, none, some, Bool, true, false, ◌&&◌, ◌||◌, not, if◌then◌else◌, Text, lit,
  text_eq, is_empty, trim_space, to_lower, has_prefix, contains,
}
use openllms.Account.{Account}
use openllms.Config.{Any, Fields, get_str, put}

-- The bytes of a request: none at all, no JSON document, or a document.
pub data Body (F : Type 0) : Type 0 where
  empty : Body F
  malformed : Body F
  json : Any F → Body F

-- What `ApplyAccountModel` does: a new body, or a write to the nil map that `null` decodes to.
pub data Applied (F : Type 0) : Type 0 where
  applied : Body F → Applied F
  nil_map_panic : Applied F

-- `VendorFamily`.
unfoldable pub vendor_family : Text → Text
vendor_family vendor =
    let v = to_lower (trim_space vendor) in
    if text_eq v (lit "claude") || text_eq v (lit "anthropic")
    then lit "claude"
    else if text_eq v (lit "codex") || text_eq v (lit "openai")
    then lit "openai"
    else v

-- `modelFamily`; the empty text stands for an unknown family.
unfoldable pub model_family : Text → Text
model_family model =
    let m = to_lower (trim_space model) in
    if has_prefix m (lit "claude")
    then lit "claude"
    else if has_prefix m (lit "gpt")
        || has_prefix m (lit "o1")
        || has_prefix m (lit "o3")
        || has_prefix m (lit "o4")
        || contains m (lit "codex")
    then lit "openai"
    else []

module _ {F : Type 0} where
  -- `AccountServesModel`; `none` is the nil account.
  unfoldable pub account_serves_model : Option (Account F) → Text → Bool
  account_serves_model none model = true
  account_serves_model (some acc) model =
      let mf = model_family model in
      let vf = vendor_family acc.vendor in
      is_empty (trim_space model) || is_empty mf || is_empty vf || text_eq mf vf

  -- The route's default model, or the request's as the last resort.
  unfoldable pub route_or_request : Text → Option (Account F) → Text → Text × Bool
  route_or_request req acc route_default =
      let d = trim_space route_default in
      if not (is_empty d) && account_serves_model acc d
      then (d, true)
      else (req, account_serves_model acc req)

  -- `resolveOutboundModel`: the model, and whether the seat can serve it.
  unfoldable pub resolve_outbound_model : Text → Option (Account F) → Text → Text × Bool
  unfolding route_or_request
  resolve_outbound_model request_model none route_default =
      let req = trim_space request_model in
      if not (is_empty req) then (req, true) else route_or_request req none route_default
  resolve_outbound_model request_model (some acc) route_default =
      let req = trim_space request_model in
      let d = trim_space acc.default_model in
      if not (is_empty req) && account_serves_model (some acc) req
      then (req, true)
      else if not (is_empty d)
      then (d, true)
      else route_or_request req (some acc) route_default

  -- The `model` text of a body, empty where there is none.
  unfoldable pub peek_model : Body F → Text
  peek_model (json (Any.obj fs)) = get_str (lit "model") fs
  peek_model _ = []

  -- The loop of `FilterServableAccounts`.
  unfoldable pub servable : Text → Text → List (Account F) → List (Account F)
  servable model route_default [] = []
  servable model route_default (a ∷ rest) =
      let out = servable model route_default rest in
      if (resolve_outbound_model model (some a) route_default).1 then a ∷ out else out

  abbrev pub or_all : List (Account F) → List (Account F) → List (Account F)
  or_all accounts [] = accounts
  or_all accounts (a ∷ out) = a ∷ out

  -- `FilterServableAccounts`.
  unfoldable pub filter_servable_accounts : List (Account F) → Body F → Text → List (Account F)
  filter_servable_accounts accounts body route_default =
      or_all accounts (servable (peek_model body) route_default accounts)

  abbrev set_model : Text → Body F → Applied F
  set_model next (json (Any.obj fs)) =
      applied (json (Any.obj (put (lit "model") (Any.str next) fs)))
  set_model next (json Any.null) = nil_map_panic
  set_model next body = applied body

  -- `ApplyAccountModel`.
  unfoldable pub apply_account_model : Body F → Option (Account F) → Text → Applied F
  apply_account_model empty acc route_default = applied empty
  apply_account_model body none route_default = applied body
  apply_account_model body (some acc) route_default =
      let next = (resolve_outbound_model (peek_model body) (some acc) route_default).0 in
      if is_empty next || text_eq next (trim_space (peek_model body))
      then applied body
      else set_model next body
