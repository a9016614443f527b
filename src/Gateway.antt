-- ===== src/Gateway.antt =====
-- internal/httpserver/server.go, internal/httpserver/billing.go and internal/authn: what a request has to
-- pass before an upstream is called, and what is booked behind the call. The dispatch, the start of the
-- month and the digest of a key are parameters; so is whether the transaction of EnsureFreePlan fails.
-- The clock is a function of the world, which only the dispatch changes. The database answers every SELECT,
-- and a soft cap that is null is 0 here.
pub mod Handle
pub mod Booked
pub mod Stages
pub mod Admitted
pub mod Revoked
use openllms.Prelude.{
  ℕ, ◌+◌, ◌/◌, List, [], ◌∷◌, ◌++◌, Option, none, some, Bool, true, false, not, ◌&&◌, ◌||◌, ◌==◌,
  leb, if◌then◌else◌, Text, lit, is_empty, map,
}
use openllms.Prelude.Int.{ℤ, pos, ltb_ℤ}
use openllms.Assoc.{nat_eq, lookup, insert}
use openllms.Number.{Time, before}
use openllms.Account.{Uuid, uuid_nil, Route}
use openllms.Oauth.{Fallible, ok, error}
use openllms.Limiter.{MemoryLimiter, allow_with_limit}
use openllms.Billing.Plans.{entitled, entitlement_limits}
use openllms.Billing.Rows.{ProjectBilling, entitlement, ensure_free_plan}
use openllms.Store.Keys.{AuthContext, KeyStore, lookup_by_plaintext}
use openllms.Store.Routes.{UuidText, RouteStore, get_route_by_slug, authorize_route}
use openllms.Proxy.Engine.{
  Result, FailoverAttempt, Engine, Exit, returned, raised, panicked, out_of_fuel,
}
use openllms.Proxy.Dispatch.{Run}
use openllms.Proxy.Upstream.{parse_bearer}

-- The fields of config.Config that a request meets.
pub record GatewayConfig : Type 0 where
  pub billing_enforce : Bool
  pub rate_limit_per_min : ℤ
  pub secrets : Bool

pub data UpstreamKind : Type 0 where
  chat : UpstreamKind
  anthropic : UpstreamKind
  images : UpstreamKind

-- The Authorization header, the slug of the path, and the body, `none` where it cannot be read.
pub record Request : Type 0 where
  pub authorization : Text
  pub slug : Text
  pub body : Option Text
  pub kind : UpstreamKind

-- A row of usage_events; the latency is in milliseconds.
pub record UsageRow : Type 0 where
  pub project_id : Uuid
  pub route_id : Uuid
  pub account_id : Option Uuid
  pub api_key_id : Uuid
  pub model : Text
  pub status_code : ℕ
  pub latency_ms : ℕ
  pub tokens_in : ℕ
  pub tokens_out : ℕ
  pub error : Text
  pub created_at : Time

-- A refusal: its status, its `error`, and its Retry-After in seconds.
pub record Refusal : Type 0 where
  pub status : ℕ
  pub reason : Text
  pub retry_after : Option ℕ

-- What the client gets: a refusal, a 502 with the error of the dispatch, or its result. A nil result ends the
-- request in a panic.
pub data Response : Type 0 where
  refused : Refusal → Response
  failed : Text → Response
  served : Result → Response
  crashed : Response

pub record Gateway (F W : Type 0) : Type 0 where
  pub keys : KeyStore
  pub routes : RouteStore F
  pub limiter : Option MemoryLimiter
  pub billing : List (Uuid × ProjectBilling)
  pub usage : List UsageRow
  pub engine : Engine
  pub world : W

abbrev pub refusal : ℕ → Text → Refusal
refusal status reason = record { status = status; reason = reason; retry_after = none }

abbrev pub unless_nil : Uuid → Option Uuid
unless_nil id = if id == uuid_nil then none else some id

-- The `error` of the row of a failover.
abbrev pub failover_error : Text → Text
failover_error why = if is_empty why then lit "failover" else lit "failover:" ++ why

abbrev pub milliseconds : ℕ → ℕ
milliseconds latency = latency / 1000000

-- The rows that `handleUpstream` inserts for a result: one for it, and one per failover.
unfoldable pub failover_row : AuthContext → Uuid → Time → FailoverAttempt → UsageRow
failover_row ac route now fo = record {
  project_id = ac.project_id;
  route_id = route;
  account_id = unless_nil fo.account_id;
  api_key_id = ac.key_id;
  model = fo.model;
  status_code = fo.status_code;
  latency_ms = milliseconds fo.latency;
  tokens_in = 0;
  tokens_out = 0;
  error = failover_error fo.error;
  created_at = now;
}

unfoldable pub result_row : AuthContext → Uuid → Time → Result → UsageRow
result_row ac route now r = record {
  project_id = ac.project_id;
  route_id = route;
  account_id = unless_nil r.account_id;
  api_key_id = ac.key_id;
  model = r.model;
  status_code = r.status_code;
  latency_ms = milliseconds r.latency;
  tokens_in = r.tokens_in;
  tokens_out = r.tokens_out;
  error = r.error;
  created_at = now;
}

unfoldable pub usage_rows : AuthContext → Uuid → Time → Result → List UsageRow
usage_rows ac route now r = result_row ac route now r ∷ map (failover_row ac route now) r.failovers

-- `UsageTotals`, the tokens.
unfoldable pub usage_totals : List UsageRow → Uuid → Time → ℕ
usage_totals [] project since = 0
usage_totals (row ∷ rows) project since =
    let rest = usage_totals rows project since in
    if row.project_id == project && not (before row.created_at since)
    then row.tokens_in + row.tokens_out + rest
    else rest

-- `OverSoftTokenCap`, from the start of the month.
unfoldable pub over_soft_token_cap : List UsageRow → Uuid → ℤ → Time → Bool
over_soft_token_cap usage project cap since =
    if not (ltb_ℤ (pos 0) cap)
    then false
    else not (ltb_ℤ (pos (usage_totals usage project since)) cap)

unfoldable pub soft_cap_of : GatewayConfig → Time → Option ProjectBilling → ℤ
soft_cap_of cfg now none = pos 0
soft_cap_of cfg now (some b) =
    if cfg.billing_enforce
    then (entitlement_limits (entitlement b) now).soft_cap
    else b.soft_cap_tokens

-- `planSoftCap`.
unfoldable pub plan_soft_cap : GatewayConfig → List (Uuid × ProjectBilling) → Uuid → Time → ℤ
plan_soft_cap cfg billing project now = soft_cap_of cfg now (lookup project billing)

unfoldable pub rpm_of : GatewayConfig → Time → Option ProjectBilling → ℤ
rpm_of cfg now none = cfg.rate_limit_per_min
rpm_of cfg now (some b) =
    let rpm = (entitlement_limits (entitlement b) now).rpm in
    if ltb_ℤ (pos 0) rpm then rpm else cfg.rate_limit_per_min

-- `planRPMLimit`.
unfoldable pub plan_rpm_limit : GatewayConfig → List (Uuid × ProjectBilling) → Uuid → Time → ℤ
plan_rpm_limit cfg billing project now =
    if not cfg.billing_enforce
    then cfg.rate_limit_per_min
    else rpm_of cfg now (lookup project billing)

-- The limiter, where the server has one.
unfoldable pub limited : Option MemoryLimiter → Text → ℤ → Time → Bool × Option MemoryLimiter
limited none key rpm now = (true, none)
limited (some m) key rpm now =
    let (passes, m') = allow_with_limit m key rpm now in (passes, some m')
