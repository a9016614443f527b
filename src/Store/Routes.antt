-- ===== src/Store/Routes.antt =====
-- internal/store/store.go: the routes table and its cache. The text of a uuid is a parameter, and so is
-- the database's error on a row that is there; the id that a call draws is its argument.
pub mod Rows
pub mod Table
pub mod Calls
pub mod Refine
use openllms.Prelude.{
  ◌≡◌, List, [], ◌∷◌, ◌++◌, Option, none, some, Bool, true, false, not, ◌&&◌, ◌||◌, ◌==◌,
  if◌then◌else◌, Text, lit, text_eq, is_empty, length, keep,
}
use openllms.Assoc.{text_instance}
use openllms.Config.{Fields, end}
use openllms.Number.{Time}
use openllms.Account.{Uuid, Route}
use openllms.Cache.{Cache, set_cached, delete_cached}
use openllms.Oauth.{Fallible, ok, error}
use openllms.Store.{read_through}
use openllms.Store.Keys.{AuthContext}

-- `uuid.UUID.String`: 36 letters, and another text for another uuid.
pub record UuidText : Type 0 where
  pub uuid_string : Uuid → Text
  pub length-uuid_string : (a : Uuid) → length (uuid_string a) ≡ 36
  pub uuid_string_inj : (a b : Uuid) → uuid_string a ≡ uuid_string b → a ≡ b

-- The strategy of a row that names none.
abbrev pub or_sequential : Text → Text
or_sequential strategy = if is_empty strategy then lit "sequential" else strategy

-- Whether a key that is for one route, or for all, is for this one.
unfoldable pub allows : Option Uuid → Uuid → Bool
allows none id = true
allows (some only) id = only == id

module _ {F : Type 0} where
  -- `AuthorizeRoute`.
  unfoldable pub authorize_route : AuthContext → Route F → Fallible Unit
  authorize_route ac rt =
      if not (ac.project_id == rt.project_id)
      then error (lit "forbidden")
      else if not (allows ac.route_id rt.id)
      then error (lit "forbidden")
      else ok tt

  abbrev pub is_route : Uuid → Text → Route F → Bool
  is_route project slug rt = rt.project_id == project && text_eq rt.slug slug

  -- The SELECT of GetRouteBySlug.
  unfoldable pub select_route : Uuid → Text → List (Route F) → Option (Route F)
  select_route project slug [] = none
  select_route project slug (rt ∷ rows) =
      let rest = select_route project slug rows in
      if is_route project slug rt then some rt else rest

  -- The SELECT of GetRouteByID.
  unfoldable pub select_route_by_id : Uuid → List (Route F) → Option (Route F)
  select_route_by_id id [] = none
  select_route_by_id id (rt ∷ rows) =
      let rest = select_route_by_id id rows in if rt.id == id then some rt else rest

  -- Whether a row has the id, and whether one has the id or the project and the slug: the primary key,
  -- and the unique pair.
  unfoldable pub id_taken : Uuid → List (Route F) → Bool
  id_taken id [] = false
  id_taken id (rt ∷ rows) = rt.id == id || id_taken id rows

  unfoldable pub route_taken : Uuid → Uuid → Text → List (Route F) → Bool
  route_taken id project slug [] = false
  route_taken id project slug (rt ∷ rows) =
      (rt.id == id || is_route project slug rt) || route_taken id project slug rows

  unfoldable pub behind_route :
      Route F → Option (Route F × List (Route F)) → Option (Route F × List (Route F))
  behind_route rt none = none
  behind_route rt (some (found, rows)) = some (found, rt ∷ rows)

  -- The UPDATE of UpdateRoute, with the row that it returns.
  unfoldable pub update_row :
      Uuid
      → Text
      → Text
      → Text
      → Option (Fields F)
      → List (Route F)
      → Option (Route F × List (Route F))
  update_row project slug strategy default_model config [] = none
  update_row project slug strategy default_model config (rt ∷ rows) =
      let rest = update_row project slug strategy default_model config rows in
      let rt' : Route F = record rt {
        strategy = strategy;
        config = config;
        default_model = default_model;
      } in
      if is_route project slug rt then some (rt', rt' ∷ rows) else behind_route rt rest

  abbrev pub or_no_config : Option (Fields F) → Option (Fields F)
  or_no_config none = some end
  or_no_config (some config) = some config

  unfoldable pub or_not_found : Option (Route F) → Fallible (Route F)
  or_not_found none = error (lit "route not found")
  or_not_found (some rt) = ok rt

  -- `GetRouteByID`.
  unfoldable pub get_route_by_id : List (Route F) → Uuid → Fallible (Route F)
  get_route_by_id rows id = or_not_found (select_route_by_id id rows)

  -- The DELETE of DeleteRoute, which fails where it removes no row.
  abbrev pub is_deleted : Uuid → Uuid → Route F → Bool
  is_deleted id project rt = rt.id == id && rt.project_id == project

  unfoldable pub deletes : Uuid → Uuid → List (Route F) → Bool
  deletes id project [] = false
  deletes id project (rt ∷ rows) = is_deleted id project rt || deletes id project rows

  unfoldable pub delete_rows : Uuid → Uuid → List (Route F) → List (Route F)
  delete_rows id project rows = keep (λ rt. not (is_deleted id project rt)) rows

-- The table, and the cache of its rows.
pub record RouteStore (F : Type 0) : Type 0 where
  pub rows : List (Route F)
  pub route_cache : Cache Text (Route F)

module _ (u : UuidText) where
  -- `routeCacheKey`.
  unfoldable pub route_cache_key : Uuid → Text → Text
  route_cache_key project slug = u.uuid_string project ++ (lit "|" ++ slug)

module _ {F : Type 0} (u : UuidText) (conflict : Text) where
  -- `CreateRoute`.
  unfoldable pub create_route :
      RouteStore F
      → Uuid
      → Text
      → Text
      → Text
      → Option (Fields F)
      → Uuid
      → Time
      → Fallible (Route F) × RouteStore F
  create_route s project slug strategy default_model config id now =
      let rt : Route F = record {
        id = id;
        project_id = project;
        slug = slug;
        strategy = or_sequential strategy;
        config = or_no_config config;
        default_model = default_model;
      } in
      if route_taken id project slug s.rows then (error conflict, s) else (
        ok rt,
        record {
          rows = rt ∷ s.rows;
          route_cache = set_cached s.route_cache (route_cache_key u project slug) rt now;
        },
      )

module _ {F : Type 0} (u : UuidText) where
  -- `GetRouteBySlug`.
  unfoldable pub get_route_by_slug :
      RouteStore F → Uuid → Text → Time → Fallible (Route F) × RouteStore F
  get_route_by_slug s project slug now =
      let (found, c) =
        read_through s.route_cache (route_cache_key u project slug) now
          (select_route project slug s.rows) in
      (or_not_found found, record s { route_cache = c })

  unfoldable pub settle_update :
      RouteStore F
      → Text
      → Time
      → Option (Route F × List (Route F))
      → Fallible (Route F) × RouteStore F
  settle_update s key now none = (error (lit "route not found"), s)
  settle_update s key now (some (rt, rows)) =
      (ok rt, record { rows = rows; route_cache = set_cached s.route_cache key rt now })

  -- `UpdateRoute`.
  unfoldable pub update_route :
      RouteStore F
      → Uuid
      → Text
      → Text
      → Text
      → Option (Fields F)
      → Time
      → Fallible (Route F) × RouteStore F
  update_route s project slug strategy default_model config now =
      settle_update s (route_cache_key u project slug) now (
        update_row project slug (or_sequential strategy) default_model (or_no_config config) s.rows)

  unfoldable pub settle_delete :
      Uuid → Text → Fallible (Route F) × RouteStore F → Fallible Unit × RouteStore F
  settle_delete project key (error e, s) = (error e, s)
  settle_delete project key (ok rt, s) =
      if not (deletes rt.id project s.rows) then (error (lit "route not found"), s) else (
        ok tt,
        record {
          rows = delete_rows rt.id project s.rows;
          route_cache = delete_cached s.route_cache key;
        },
      )

  -- `DeleteRoute`.
  unfoldable pub delete_route : RouteStore F → Uuid → Text → Time → Fallible Unit × RouteStore F
  delete_route s project slug now =
      settle_delete project (route_cache_key u project slug) (get_route_by_slug s project slug now)
