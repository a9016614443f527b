-- ===== src/Store/Routes/Calls.antt =====
-- internal/store/store.go: the calls on the routes, on the Store and on the routes table alone.
use openllms.Prelude.{List, [], ◌∷◌, Option, none, some, not, if◌then◌else◌, Text, lit}
use openllms.Assoc.{text_instance}
use openllms.Config.{Fields}
use openllms.Number.{Time}
use openllms.Account.{Uuid, Route}
use openllms.Oauth.{Fallible, ok, error}
use openllms.Store.Routes.{
  UuidText, select_route, route_taken, update_row, or_sequential, or_no_config, or_not_found,
  get_route_by_id, deletes, delete_rows, RouteStore, create_route, get_route_by_slug, update_route,
  delete_route,
}

pub data RouteCall (F : Type 0) : Type 0 where
  create_call : Uuid → Text → Text → Text → Option (Fields F) → Uuid → Time → RouteCall F
  get_call : Uuid → Text → Time → RouteCall F
  get_by_id_call : Uuid → RouteCall F
  update_call : Uuid → Text → Text → Text → Option (Fields F) → Time → RouteCall F
  delete_call : Uuid → Text → Time → RouteCall F

pub data RouteReply (F : Type 0) : Type 0 where
  returned : Fallible (Route F) → RouteReply F
  deleted : Fallible Unit → RouteReply F

module _ {F : Type 0} (u : UuidText) (conflict : Text) where
  unfoldable pub call_routes : RouteStore F → RouteCall F → RouteReply F × RouteStore F
  call_routes s (create_call project slug strategy model config id now) =
      let (reply, s') = create_route u conflict s project slug strategy model config id now in
      (returned reply, s')
  call_routes s (get_call project slug now) =
      let (reply, s') = get_route_by_slug u s project slug now in (returned reply, s')
  call_routes s (get_by_id_call id) = (returned (get_route_by_id s.rows id), s)
  call_routes s (update_call project slug strategy model config now) =
      let (reply, s') = update_route u s project slug strategy model config now in
      (returned reply, s')
  call_routes s (delete_call project slug now) =
      let (reply, s') = delete_route u s project slug now in (deleted reply, s')

module _ {F : Type 0} where
  unfoldable pub update_alone :
      List (Route F) → Option (Route F × List (Route F)) → RouteReply F × List (Route F)
  update_alone rows none = (returned (error (lit "route not found")), rows)
  update_alone rows (some (rt, rows')) = (returned (ok rt), rows')

  unfoldable pub delete_alone :
      Uuid → List (Route F) → Option (Route F) → RouteReply F × List (Route F)
  delete_alone project rows none = (deleted (error (lit "route not found")), rows)
  delete_alone project rows (some rt) =
      if not (deletes rt.id project rows)
      then (deleted (error (lit "route not found")), rows)
      else (deleted (ok tt), delete_rows rt.id project rows)

module _ {F : Type 0} (conflict : Text) where
  -- The same call on the table alone.
  unfoldable pub call_table : List (Route F) → RouteCall F → RouteReply F × List (Route F)
  call_table rows (create_call project slug strategy model config id now) =
      let rt : Route F = record {
        id = id;
        project_id = project;
        slug = slug;
        strategy = or_sequential strategy;
        config = or_no_config config;
        default_model = model;
      } in
      if route_taken id project slug rows
      then (returned (error conflict), rows)
      else (returned (ok rt), rt ∷ rows)
  call_table rows (get_call project slug now) =
      (returned (or_not_found (select_route project slug rows)), rows)
  call_table rows (get_by_id_call id) = (returned (get_route_by_id rows id), rows)
  call_table rows (update_call project slug strategy model config now) =
      update_alone rows
        (update_row project slug (or_sequential strategy) model (or_no_config config) rows)
  call_table rows (delete_call project slug now) =
      delete_alone project rows (select_route project slug rows)

module _ {F : Type 0} (u : UuidText) (conflict : Text) where
  unfoldable pub run_routes : RouteStore F → List (RouteCall F) → List (RouteReply F)
  run_routes s [] = []
  run_routes s (c ∷ calls) =
      let (reply, s') = call_routes u conflict s c in reply ∷ run_routes s' calls

module _ {F : Type 0} (conflict : Text) where
  unfoldable pub run_table : List (Route F) → List (RouteCall F) → List (RouteReply F)
  run_table rows [] = []
  run_table rows (c ∷ calls) =
      let (reply, rows') = call_table conflict rows c in reply ∷ run_table rows' calls
