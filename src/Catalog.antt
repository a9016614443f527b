-- ===== src/Catalog.antt =====
-- internal/modelcatalog/catalog.go: the chat models that a route offers, from what its accounts list.
-- The loop over the accounts keeps the union as a map and the order of first appearance as a slice.
pub mod Parse
pub mod Requests
pub mod Discover
pub mod Cached
pub mod Union
pub mod Collected
pub mod Listed
pub mod Codex
use openllms.Prelude.{
  has, ℕ, List, [], ◌∷◌, ◌++◌, Option, none, some, Bool, true, false, ◌&&◌, ◌||◌, ◌==◌, not,
  if◌then◌else◌, Text, lit, text_eq, is_empty, to_lower, contains,
}
use openllms.Account.{Account, Route}
use openllms.Assoc.{lookup, insert, text_instance}

pub record Model : Type 0 where
  pub id : Text
  pub owned_by : Text

pub record AccountModels : Type 0 where
  pub id : Text
  pub provider : Text
  pub label : Text
  pub models : List Model
  pub default_model : Text
  pub status : Text
  pub err : Text

pub record UnionModel : Type 0 where
  pub id : Text
  pub providers : List Text
  pub account_ids : List Text

pub record RouteModels : Type 0 where
  pub route : Text
  pub strategy : Text
  pub accounts : List AccountModels
  pub models : List UnionModel
  pub suggested_model : Text

-- `accountRef`.
unfoldable pub account_ref : {F : Type 0} → Account F → Text
account_ref a = a.vendor ++ lit ":" ++ a.name

-- The text in front of the first colon, as `strings.Cut` finds it.
unfoldable pub cut_left : Text → Text
cut_left [] = []
cut_left (c ∷ s) = let rest = cut_left s in if c == b':' then [] else c ∷ rest

-- `looksLikeAccountRef`.
unfoldable pub looks_like_account_ref : Text → Bool
looks_like_account_ref id =
    let v = to_lower (cut_left id) in
    contains id (lit ":")
    && (text_eq v (lit "codex")
        || text_eq v (lit "openai")
        || text_eq v (lit "claude")
        || text_eq v (lit "anthropic")
        || text_eq v (lit "deepseek")
        || text_eq v (lit "kimi")
        || text_eq v (lit "moonshot")
        || text_eq v (lit "glm"))

-- `appendUnique`.
unfoldable pub append_unique : List Text → Text → List Text
append_unique ss v = if has v ss then ss else ss ++ (v ∷ [])

-- `defaultOf`.
unfoldable pub default_of : List Model → Text
default_of [] = []
default_of (m ∷ _) = m.id

-- A model that the union takes: its id is neither empty nor a reference to an account.
unfoldable pub callable : Model → Bool
callable m = not (is_empty m.id) && not (looks_like_account_ref m.id)

abbrev pub Union : Type 0
Union = List (Text × UnionModel)

abbrev pub or_new : Text → Option UnionModel → UnionModel
or_new id none = record { id = id; providers = []; account_ids = [] }
or_new id (some e) = e

-- `union[m.ID]`, or the new entry.
unfoldable pub entry_of : Text → Union → UnionModel
entry_of id u = or_new id (lookup id u)

-- The order behind a model: a new entry's id comes last.
abbrev pub placed : Option UnionModel → Text → List Text → List Text
placed none id order = order ++ (id ∷ [])
placed (some _) id order = order

-- One model of an account in the loop over its models: the new union and order.
unfoldable pub add_model : Text → Text → Model → Union × List Text → Union × List Text
add_model provider account m (u, order) =
    let e = entry_of m.id u in
    let e' = record e {
      providers = append_unique e.providers provider;
      account_ids = append_unique e.account_ids account;
    } in
    (insert m.id e' u, placed (lookup m.id u) m.id order)

-- The loop over an account's models.
unfoldable pub add_models : Text → Text → List Model → Union × List Text → Union × List Text
add_models provider account [] s = s
add_models provider account (m ∷ ms) s =
    if callable m
    then add_models provider account ms (add_model provider account m s)
    else add_models provider account ms s

abbrev pub add_read : Option UnionModel → Option (List UnionModel) → Option (List UnionModel)
add_read (some e) (some es) = some (e ∷ es)
add_read _ _ = none

-- `*union[id]` for each id of the order; `none` is the dereference of a nil pointer.
unfoldable pub read_union : List Text → Union → Option (List UnionModel)
read_union [] u = some []
read_union (id ∷ ids) u = add_read (lookup id u) (read_union ids u)

-- The first account of a catalog with a default model.
unfoldable pub first_default : List AccountModels → Text
first_default [] = []
first_default (a ∷ rest) =
    let later = first_default rest in
    if not (is_empty a.default_model) then a.default_model else later

unfoldable pub offers_model : Text → List UnionModel → Bool
offers_model id [] = false
offers_model id (m ∷ ms) = text_eq m.id id || offers_model id ms

unfoldable pub first_model : List UnionModel → List AccountModels → Text
first_model [] accounts = first_default accounts
first_model (m ∷ ms) accounts = m.id

-- `suggest`.
unfoldable pub suggest : Text → List UnionModel → List AccountModels → Text
suggest route_default models accounts =
    if not (is_empty route_default)
      && not (looks_like_account_ref route_default)
      && offers_model route_default models
    then route_default
    else first_model models accounts

module _ {F W : Type 0} (for_account : Account F → W → AccountModels × W) where
  -- The loop over the accounts: their answers in order, the union and the order, the world behind it.
  unfoldable pub collect :
      List (Account F) → Union × List Text → W → List AccountModels × ((Union × List Text) × W)
  collect [] s w = ([], (s, w))
  collect (a ∷ rest) s w =
      let (am, w1) = for_account a w in
      let s1 =
        if text_eq am.status (lit "ok")
        then add_models (to_lower a.vendor) am.id am.models s
        else s in
      let (ams, end) = collect rest s1 w1 in (am ∷ ams, end)

  abbrev catalog : Route F → List AccountModels → Option (List UnionModel) → Option RouteModels
  catalog rt ams none = none
  catalog rt ams (some models) = some (record {
    route = rt.slug;
    strategy = rt.strategy;
    accounts = ams;
    models = models;
    suggested_model = suggest rt.default_model models ams;
  })

  -- `ForRoute`.
  unfoldable pub for_route : Route F → List (Account F) → W → Option RouteModels × W
  for_route rt accounts w =
      let (ams, ((u, order), w1)) = collect accounts ([], []) w in
      (catalog rt ams (read_union order u), w1)

-- `OpenAIList`: the id and the owner of each model.
unfoldable pub openai_list : List UnionModel → List (Text × Text)
openai_list [] = []
openai_list (m ∷ ms) = (m.id, elim m.providers [ [] ↦ [] | p ∷ _ ↦ p ]) ∷ openai_list ms
