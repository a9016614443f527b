-- ===== src/Gateway/Handle.antt =====
-- internal/httpserver/server.go: `handleUpstream` behind `authn.WithAuth`, guard by guard.
use openllms.Prelude.{◌++◌, Option, none, some, Bool, not, if◌then◌else◌, Text, lit}
use openllms.Assoc.{nat_eq, lookup, insert}
use openllms.Number.{Time}
use openllms.Account.{Uuid, Route}
use openllms.Oauth.{Fallible, ok, error}
use openllms.Billing.Plans.{entitled}
use openllms.Billing.Rows.{ProjectBilling, entitlement, ensure_free_plan}
use openllms.Store.Keys.{AuthContext, lookup_by_plaintext}
use openllms.Store.Routes.{UuidText, get_route_by_slug, authorize_route}
use openllms.Proxy.Engine.{Engine, Exit, returned, raised, panicked, out_of_fuel}
use openllms.Proxy.Dispatch.{Run}
use openllms.Proxy.Upstream.{parse_bearer}
use openllms.Gateway.{
  GatewayConfig, UpstreamKind, Request, Refusal, Response, refused, failed, served, crashed,
  Gateway, refusal, usage_rows, over_soft_token_cap, plan_soft_cap, plan_rpm_limit, limited,
}

module _ {F W : Type 0} where
  -- An early return, or what comes behind it.
  unfoldable pub refuse_or :
      Option Refusal → Gateway F W → Response × Gateway F W → Response × Gateway F W
  refuse_or none g next = next
  refuse_or (some r) g next = (refused r, g)

module _ {F W : Type 0} where
  -- The guard of the plan, by whether EnsureFreePlan fails.
  unfoldable pub on_plan :
      Bool → Gateway F W → Uuid → Time → Option ProjectBilling → Option Refusal × Gateway F W
  on_plan fails g project now none = (some (refusal 500 (lit "billing_lookup_failed")), g)
  on_plan fails g project now (some b) =
      if entitled (entitlement b) now
      then (none, g)
      else if fails
      then (some (refusal 402 (lit "plan_required")), g)
      else (none, record g { billing = insert project (ensure_free_plan b now) g.billing })

abbrev pub only_if : Bool → Refusal → Option Refusal
only_if passes r = if passes then none else some r

abbrev pub rate_limited : Refusal
rate_limited = record { status = 429; reason = lit "rate_limited"; retry_after = some 60 }

abbrev pub soft_cap_exceeded : Refusal
soft_cap_exceeded = record {
  status = 429;
  reason = lit "soft_cap_exceeded";
  retry_after = some 3600;
}

-- The parameters of the server.
pub record Server (F W : Type 0) : Type 0 where
  pub cfg : GatewayConfig
  pub hash : Text → Text
  pub uuids : UuidText
  pub month_start : Time → Time
  pub clock : W → Time
  pub free_plan_fails : Uuid → Bool
  pub dispatch : UpstreamKind → Route F → Text → Engine → W → Run W

module _ {F W : Type 0} (srv : Server F W) where
  -- `requirePlanEntitled`.
  unfoldable pub require_plan_entitled : Gateway F W → Uuid → Time → Option Refusal × Gateway F W
  require_plan_entitled g project now =
      if not srv.cfg.billing_enforce
      then (none, g)
      else on_plan (srv.free_plan_fails project) g project now (lookup project g.billing)

  -- Behind the dispatch: the usage is booked for a result. (A dispatch has the fuel that it needs.)
  unfoldable pub on_exit : AuthContext → Route F → Gateway F W → Exit → Response × Gateway F W
  on_exit ac rt g (returned (some r)) =
      (served r, record g { usage = g.usage ++ usage_rows ac rt.id (srv.clock g.world) r })
  on_exit ac rt g (returned none) = (crashed, g)
  on_exit ac rt g (raised why) = (failed why, g)
  on_exit ac rt g panicked = (crashed, g)
  on_exit ac rt g out_of_fuel = (crashed, g)

  unfoldable pub call_upstream :
      AuthContext → Request → Route F → Gateway F W → Option Text → Response × Gateway F W
  call_upstream ac req rt g none = (refused (refusal 400 (lit "bad body")), g)
  call_upstream ac req rt g (some body) =
      let run = srv.dispatch req.kind rt body g.engine g.world in
      on_exit ac rt (record g { engine = run.engine; world = run.world }) run.exit

  unfoldable pub check_route :
      AuthContext → Request → Route F → Gateway F W → Fallible Unit → Response × Gateway F W
  check_route ac req rt g (error why) = (refused (refusal 403 (lit "forbidden")), g)
  check_route ac req rt g (ok x) = call_upstream ac req rt g req.body

  unfoldable pub on_route :
      AuthContext → Request → Gateway F W → Fallible (Route F) → Response × Gateway F W
  on_route ac req g (error why) = (refused (refusal 404 (lit "route not found")), g)
  on_route ac req g (ok rt) = check_route ac req rt g (authorize_route ac rt)

  unfoldable pub find_route : AuthContext → Request → Gateway F W → Response × Gateway F W
  find_route ac req g =
      let (found, routes) =
        get_route_by_slug srv.uuids g.routes ac.project_id req.slug (srv.clock g.world) in
      on_route ac req (record g { routes = routes }) found

  unfoldable pub check_secrets : AuthContext → Request → Gateway F W → Response × Gateway F W
  check_secrets ac req g =
      refuse_or (only_if srv.cfg.secrets (refusal 503 (lit "infisical_not_configured"))) g
        (find_route ac req g)

  unfoldable pub check_cap : AuthContext → Request → Gateway F W → Response × Gateway F W
  check_cap ac req g =
      let now = srv.clock g.world in
      let cap = plan_soft_cap srv.cfg g.billing ac.project_id now in
      let over = over_soft_token_cap g.usage ac.project_id cap (srv.month_start now) in
      refuse_or (only_if (not over) soft_cap_exceeded) g (check_secrets ac req g)

  unfoldable pub check_rate : AuthContext → Request → Gateway F W → Response × Gateway F W
  check_rate ac req g =
      let now = srv.clock g.world in
      let rpm = plan_rpm_limit srv.cfg g.billing ac.project_id now in
      let (passes, limiter) = limited g.limiter (srv.uuids.uuid_string ac.key_id) rpm now in
      let g' : Gateway F W = record g { limiter = limiter } in
      refuse_or (only_if passes rate_limited) g' (check_cap ac req g')

  -- `handleUpstream`.
  unfoldable pub handle_upstream : AuthContext → Request → Gateway F W → Response × Gateway F W
  handle_upstream ac req g =
      let (denied, g') = require_plan_entitled g ac.project_id (srv.clock g.world) in
      refuse_or denied g' (check_rate ac req g')

  unfoldable pub on_key : Request → Gateway F W → Fallible AuthContext → Response × Gateway F W
  on_key req g (error why) = (refused (refusal 401 (lit "unauthorized")), g)
  on_key req g (ok ac) = handle_upstream ac req g

  unfoldable pub on_token : Request → Gateway F W → Fallible Text → Response × Gateway F W
  on_token req g (error why) = (refused (refusal 401 (lit "unauthorized")), g)
  on_token req g (ok tok) =
      let (found, keys) = lookup_by_plaintext srv.hash g.keys tok (srv.clock g.world) in
      on_key req (record g { keys = keys }) found

  -- `WithAuth` in front of the handler.
  unfoldable pub serve_request : Request → Gateway F W → Response × Gateway F W
  serve_request req g = on_token req g (parse_bearer req.authorization)
