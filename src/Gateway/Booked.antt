-- ===== src/Gateway/Booked.antt =====
-- internal/httpserver/server.go: what handleUpstream owes for each way a dispatch may end, written
-- out without the code's own rows.
use openllms.Prelude.{
  ℕ, ◌≡◌, List, [], ◌∷◌, ◌++◌, none, some, Text, lit, refl, map, is_empty, ◌==◌, if◌then◌else◌, ◌/◌,
}
use openllms.Number.{Time}
use openllms.Account.{Uuid, uuid_nil}
use openllms.Store.Keys.{AuthContext}
use openllms.Proxy.Engine.{FailoverAttempt, Result, Exit, returned, raised, panicked, out_of_fuel}
use openllms.Gateway.{
  Response, failed, served, crashed, UsageRow, failover_error, failover_row, result_row, usage_rows,
}

-- The response for an exit of the dispatch.
abbrev pub response_for : Exit → Response
response_for (returned (some r)) = served r
response_for (returned none) = crashed
response_for (raised why) = failed why
response_for panicked = crashed
response_for out_of_fuel = crashed

-- What one call of a seat is billed as: the zero uuid stands for no account, and a nanosecond count
-- for its whole milliseconds.
abbrev billed : AuthContext → Uuid → Time → Uuid → Text → ℕ → ℕ → ℕ × ℕ → Text → UsageRow
billed ac route now account model status latency tokens why = record {
  project_id = ac.project_id;
  route_id = route;
  account_id = if account == uuid_nil then none else some account;
  api_key_id = ac.key_id;
  model = model;
  status_code = status;
  latency_ms = latency / 1000000;
  tokens_in = tokens.0;
  tokens_out = tokens.1;
  error = why;
  created_at = now;
}

-- The error of a failover, behind its label.
abbrev after_label : Text → Text
after_label [] = []
after_label (c ∷ why) = lit ":" ++ (c ∷ why)

abbrev billed_failovers : AuthContext → Uuid → Time → List FailoverAttempt → List UsageRow
billed_failovers ac route now [] = []
billed_failovers ac route now (fo ∷ fos) =
    billed ac route now fo.account_id fo.model fo.status_code fo.latency (0, 0)
      (lit "failover" ++ after_label fo.error)
    ∷ billed_failovers ac route now fos

-- The rows that are owed for an exit: those of its result, and none without one.
abbrev pub rows_for : AuthContext → Uuid → Time → Exit → List UsageRow
rows_for ac route now (returned (some r)) =
    billed ac route now r.account_id r.model r.status_code r.latency (r.tokens_in, r.tokens_out)
      r.error
    ∷ billed_failovers ac route now r.failovers
rows_for ac route now _ = []

failover_error_lem : (why : Text) → failover_error why ≡ lit "failover" ++ after_label why
unfolding is_empty
failover_error_lem [] = refl
failover_error_lem (c ∷ why) = refl

map-failover_row :
    (ac : AuthContext) (route : Uuid) (now : Time) (fos : List FailoverAttempt)
    → map (failover_row ac route now) fos ≡ billed_failovers ac route now fos
unfolding failover_row
map-failover_row ac route now [] = refl
map-failover_row ac route now (fo ∷ fos) =
    rw (map-failover_row ac route now fos, failover_error_lem fo.error) refl

pub usage_rows_for :
    (ac : AuthContext) (route : Uuid) (now : Time) (r : Result)
    → usage_rows ac route now r ≡ rows_for ac route now (returned (some r))
unfolding usage_rows result_row
usage_rows_for ac route now r = rw (map-failover_row ac route now r.failovers) refl
