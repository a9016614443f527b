-- ===== src/Store/Routes/Refine.antt =====
-- internal/store/store.go: the calls on the routes next to the same calls on the routes table alone.
use openllms.Prelude.{
  ◌≡◌, List, [], ◌∷◌, Option, none, some, true, Text, text_eq_refl, arith, refl, sym, ◌∙◌, ap, inl,
  inr, Bool-cases,
}
use openllms.Assoc.{text_instance}
use openllms.Config.{Fields}
use openllms.Number.{Time, Duration}
use openllms.Account.{Uuid, Route}
use openllms.Cache.{new_cache}
use openllms.Oauth.{Fallible}
use openllms.Store.{read_through}
use openllms.Store.Coherent.{
  Coherent, Coherent-new_cache, Coherent-set_cached, Coherent-delete_cached, read_through_row,
}
use openllms.Store.Routes.{
  UuidText, select_route, route_taken, update_row, or_sequential, or_no_config, or_not_found,
  get_route_by_id, deletes, delete_rows, RouteStore, route_cache_key, create_route,
  get_route_by_slug, settle_update, update_route, settle_delete, delete_route,
}
use openllms.Store.Routes.Rows.{
  ids_distinct, by_key, select_route-by_key, by_key-other, by_key-own, Updates, Updates-update_row,
}
use openllms.Store.Routes.Table.{
  route_taken-id_taken, by_key-belongs, by_key-delete_rows, ids_distinct-delete_rows,
}
use openllms.Store.Routes.Calls.{
  RouteCall, create_call, get_call, get_by_id_call, update_call, delete_call, RouteReply, returned,
  deleted, call_routes, update_alone, delete_alone, call_table, run_routes, run_table,
}

module _ {F : Type 0} (u : UuidText) where
  -- What the cache of the routes has to hold, and the primary key.
  pub Fits : RouteStore F → Type 0
  Fits s = Coherent (λ k. by_key u k s.rows) s.route_cache × (ids_distinct s.rows ≡ true)

  -- What a call answers and does to the rows, on the store and on the table.
  pub Refines : RouteReply F × RouteStore F → RouteReply F × List (Route F) → Type 0
  Refines p q = (p.0 ≡ q.0) × (p.1.rows ≡ q.1) × Fits p.1

  abbrev as_returned : Fallible (Route F) × RouteStore F → RouteReply F × RouteStore F
  as_returned (reply, s) = (returned reply, s)

  abbrev as_deleted : Fallible Unit × RouteStore F → RouteReply F × RouteStore F
  as_deleted (reply, s) = (deleted reply, s)

  pub new_cache-Fits :
      (ttl : Duration) (rows : List (Route F))
      → ids_distinct rows ≡ true
      → Fits (record { rows = rows; route_cache = new_cache ttl })
  unfolding Fits
  new_cache-Fits ttl rows d = (Coherent-new_cache (λ k. by_key u k rows) ttl, d)

  -- The cached SELECT of a route.
  read_row :
      (s : RouteStore F) (project : Uuid) (slug : Text) (now : Time)
      → Fits s
      → ((read_through s.route_cache
            (route_cache_key u project slug)
            now
            (select_route project slug s.rows)).0
          ≡ select_route project slug s.rows)
        × Coherent
            (λ k. by_key u k s.rows)
            (read_through s.route_cache
              (route_cache_key u project slug)
              now
              (select_route project slug s.rows)).1
  unfolding Fits
  read_row s project slug now h = rw (select_route-by_key u project slug s.rows) (
      read_through_row (λ k. by_key u k s.rows) s.route_cache (route_cache_key u project slug) now
        h.0)

  settle_update-Refines :
      (s : RouteStore F) (key : Text) (now : Time) (o : Option (Route F × List (Route F)))
      → Updates u key s.rows o
      → Fits s
      → Refines (as_returned (settle_update u s key now o)) (update_alone s.rows o)
  unfolding settle_update update_alone Refines Updates Fits
  settle_update-Refines s key now none h fits = (refl, refl, fits)
  settle_update-Refines s key now (some (rt, rows)) h fits = (
    refl,
    refl,
    (
      Coherent-set_cached (λ k. by_key u k s.rows) (λ k. by_key u k rows) s.route_cache key rt now
          h.1 h.0 fits.0,
      h.3 fits.1,
    ),
  )

  settle_delete-Refines :
      (s : RouteStore F) (project : Uuid) (key : Text) (o : Option (Route F))
      → o ≡ by_key u key s.rows
      → Fits s
      → Refines
          (as_deleted (settle_delete u project key (or_not_found o, s)))
          (delete_alone project s.rows o)
  unfolding settle_delete delete_alone or_not_found Refines Fits
  settle_delete-Refines s project key none e fits = (refl, refl, fits)
  settle_delete-Refines s project key (some rt) e fits =
      elim (Bool-cases (deletes rt.id project s.rows)) [
        | inr d ↦ rw d (refl, refl, fits)
        | inl d ↦
            let owned = by_key-belongs u key rt s.rows fits.1 (sym e) in
            rw d (
              refl,
              refl,
              (
                Coherent-delete_cached (λ k. by_key u k s.rows)
                    (λ k. by_key u k (delete_rows rt.id project s.rows)) s.route_cache key
                    (λ k other. by_key-delete_rows u rt.id project key k s.rows owned other) fits.0,
                ids_distinct-delete_rows rt.id project s.rows fits.1,
              ),
            )
      ]

  get_route_by_slug-Refines :
      (s : RouteStore F) (project : Uuid) (slug : Text) (now : Time)
      → Fits s
      → Refines
          (as_returned (get_route_by_slug u s project slug now))
          (returned (or_not_found (select_route project slug s.rows)), s.rows)
  unfolding get_route_by_slug Refines Fits
  get_route_by_slug-Refines s project slug now h =
      let (found, fits) = read_row s project slug now h in
      (ap (λ o. returned (or_not_found o)) found, refl, (fits, h.1))

  delete_route-Refines :
      (s : RouteStore F) (project : Uuid) (slug : Text) (now : Time)
      → Fits s
      → Refines
          (as_deleted (delete_route u s project slug now))
          (delete_alone project s.rows (select_route project slug s.rows))
  unfolding delete_route get_route_by_slug Fits
  delete_route-Refines s project slug now h =
      let key = route_cache_key u project slug in
      let (found, fits) = read_row s project slug now h in
      let s' : RouteStore F = record s {
        route_cache = (read_through s.route_cache key now (select_route project slug s.rows)).1;
      } in
      rw found (
        settle_delete-Refines s' project key (select_route project slug s.rows)
          (select_route-by_key u project slug s.rows) (fits, h.1))

  create_route-Refines :
      (conflict : Text) (s : RouteStore F) (project : Uuid) (slug strategy model : Text)
      (config : Option (Fields F)) (id : Uuid) (now : Time)
      → Fits s
      → Refines
          (as_returned (create_route u conflict s project slug strategy model config id now))
          (call_table conflict s.rows (create_call project slug strategy model config id now))
  unfolding create_route call_table Refines Fits ids_distinct
  create_route-Refines conflict s project slug strategy model config id now h =
      elim (Bool-cases (route_taken id project slug s.rows)) [
        | inl e ↦ rw e (refl, refl, h)
        | inr e ↦
            let rt : Route F = record {
              id = id;
              project_id = project;
              slug = slug;
              strategy = or_sequential strategy;
              config = or_no_config config;
              default_model = model;
            } in
            let key = route_cache_key u project slug in
            let free = route_taken-id_taken id project slug s.rows e in
            rw e (
              refl,
              refl,
              (
                Coherent-set_cached (λ k. by_key u k s.rows) (λ k. by_key u k (rt ∷ s.rows))
                    s.route_cache key rt now (λ k other. by_key-other u k rt s.rows other)
                    (by_key-own u key rt s.rows (text_eq_refl key)) h.0,
                ground (arith, free, h.1),
              ),
            )
      ]

  update_route-Refines :
      (s : RouteStore F) (project : Uuid) (slug strategy model : Text) (config : Option (Fields F))
      (now : Time)
      → Fits s
      → Refines (as_returned (update_route u s project slug strategy model config now)) (
          update_alone s.rows
            (update_row project slug (or_sequential strategy) model (or_no_config config) s.rows))
  unfolding update_route
  update_route-Refines s project slug strategy model config now h =
      settle_update-Refines s (route_cache_key u project slug) now
        (update_row project slug (or_sequential strategy) model (or_no_config config) s.rows)
        (Updates-update_row u project slug (or_sequential strategy) model (or_no_config config)
          s.rows)
        h

  same_id :
      (s : RouteStore F) (id : Uuid)
      → Fits s
      → Refines
          (returned (get_route_by_id s.rows id), s)
          (returned (get_route_by_id s.rows id), s.rows)
  unfolding Refines
  same_id s id h = (refl, refl, h)

  call_routes-Refines :
      (conflict : Text) (s : RouteStore F) (c : RouteCall F)
      → Fits s
      → Refines (call_routes u conflict s c) (call_table conflict s.rows c)
  unfolding call_routes call_table
  call_routes-Refines conflict s (create_call project slug strategy model config id now) h =
      create_route-Refines conflict s project slug strategy model config id now h
  call_routes-Refines conflict s (get_call project slug now) h =
      get_route_by_slug-Refines s project slug now h
  call_routes-Refines conflict s (get_by_id_call id) h = same_id s id h
  call_routes-Refines conflict s (update_call project slug strategy model config now) h =
      update_route-Refines s project slug strategy model config now h
  call_routes-Refines conflict s (delete_call project slug now) h =
      delete_route-Refines s project slug now h

  run_routes-Refines :
      (conflict : Text) (s : RouteStore F) (rows : List (Route F)) (calls : List (RouteCall F))
      → s.rows ≡ rows
      → Fits s
      → run_routes u conflict s calls ≡ run_table conflict rows calls
  unfolding run_routes run_table Refines
  run_routes-Refines conflict s rows [] e h = refl
  run_routes-Refines conflict s rows (c ∷ calls) e h =
      let (reply, kept, fits) = call_routes-Refines conflict s c h in
      let head = reply ∙ ap (λ r. (call_table conflict r c).0) e in
      let tail = kept ∙ ap (λ r. (call_table conflict r c).1) e in
      let rest =
        run_routes-Refines conflict (call_routes u conflict s c).1 (call_table conflict rows c).1
          calls tail fits in
      rw (head, rest) refl

  -- From an empty cache and a table of distinct ids, every run of CreateRoute, GetRouteBySlug,
  -- GetRouteByID, UpdateRoute and DeleteRoute, at any times, is answered as the table alone would
  -- answer it: the cache never shows a row that was changed or deleted.
  pub run_routes-run_table :
      (conflict : Text) (ttl : Duration) (rows : List (Route F)) (calls : List (RouteCall F))
      → ids_distinct rows ≡ true
      → run_routes u conflict (record { rows = rows; route_cache = new_cache ttl }) calls
        ≡ run_table conflict rows calls
  run_routes-run_table conflict ttl rows calls d =
      run_routes-Refines conflict (record { rows = rows; route_cache = new_cache ttl }) rows calls
        refl (new_cache-Fits ttl rows d)
