-- ===== src/Proxy/Engine.antt =====
-- internal/proxy/proxy.go: the results of a dispatch, the state of the engine that routing changes,
-- and what the loop does with the answer of one seat.
use openllms.Prelude.{
  ℕ, List, [], ◌∷◌, ◌++◌, Option, none, some, Bool, false, ◌==◌, ◌||◌, ◌&&◌, if◌then◌else◌, Text,
}
use openllms.Prelude.Int.{pos}
use openllms.Account.{Uuid}
use openllms.Number.{Time, Duration, time_add}
use openllms.Router.Presets.{Strategy}
use openllms.Router.Selector.{Selector, note_soft_fail, clear_soft_fail}
use openllms.Router.Status.{
  is_retryable_status, is_success_status, cooldown_for_status, cooldown_from_headers, RetryAfter,
}
use openllms.Proxy.Affinity.{Affinity, set_affinity}
use openllms.Proxy.Commit.{Stream, Verdict, Commit, forward, retry, await_commit}

-- `FailoverAttempt`.
pub record FailoverAttempt : Type 0 where
  pub account_id : Uuid
  pub status_code : ℕ
  pub error : Text
  pub latency : ℕ
  pub model : Text

-- `Result`; of the header it keeps what Retry-After says.
pub record Result : Type 0 where
  pub status_code : ℕ
  pub body : Text
  pub latency : ℕ
  pub tokens_in : ℕ
  pub tokens_out : ℕ
  pub account_id : Uuid
  pub model : Text
  pub error : Text
  pub stream : Option Stream
  pub retry_after : RetryAfter
  pub attempts : ℕ
  pub strategy : Strategy
  pub session_key : Text
  pub sticky_hit : Bool
  pub failovers : List FailoverAttempt

-- The selector and the affinity of `Engine`, and the calls of `SetCooldown` and `MarkAccountHealthy`
-- that reached the store, in order.
pub record Engine : Type 0 where
  pub selector : Selector
  pub affinity : Affinity
  pub cooldowns : List (Uuid × Time)
  pub healthy : List Uuid

-- How a dispatch ends: it returns a result or nil, it returns an error, it panics.
pub data Exit : Type 0 where
  returned : Option Result → Exit
  raised : Text → Exit
  panicked : Exit
  out_of_fuel : Exit

-- What a round of the loop does: it ends the loop, or goes on with a last result and the failovers.
pub data Round : Type 0 where
  stop : Exit → Engine → Round
  next : Option Result → List FailoverAttempt → Engine → Round

-- What the rounds of one dispatch share: the strategy, the session and the sticky account.
pub record Session : Type 0 where
  pub strategy : Strategy
  pub session_key : Text
  pub sticky : Uuid
  pub sticky_ok : Bool

abbrev failover : Uuid → Result → FailoverAttempt
failover id r = record {
  account_id = id;
  status_code = r.status_code;
  error = r.error;
  latency = r.latency;
  model = r.model;
}

-- The result that stands for a stream which failed before its first token.
abbrev ttft_failure : Session → ℕ → Uuid → Result → Text → Result
ttft_failure ses attempts id r why = record {
  status_code = 502;
  body = [];
  latency = 0;
  tokens_in = 0;
  tokens_out = 0;
  account_id = id;
  model = r.model;
  error = why;
  stream = none;
  retry_after = r.retry_after;
  attempts = attempts;
  strategy = ses.strategy;
  session_key = ses.session_key;
  sticky_hit = false;
  failovers = [];
}

-- `NoteSoftFail` and `SetCooldown` for a seat that failed softly.
unfoldable pub soft_fail_seat : Engine → Uuid → Time → Duration → Engine
soft_fail_seat e id now wait = record e {
  selector = note_soft_fail e.selector id now;
  cooldowns = e.cooldowns ++ ((id, time_add now wait) ∷ []);
}

-- `ClearSoftFail`, `MarkAccountHealthy` and the affinity of a seat that succeeded.
unfoldable pub succeed_seat : Engine → Text → Uuid → Time → Engine
succeed_seat e session_key id now = record e {
  selector = clear_soft_fail e.selector id;
  affinity = set_affinity e.affinity session_key id now;
  healthy = e.healthy ++ (id ∷ []);
}

-- The branch of a success with a stream, on what `awaitCommit` says.
unfoldable pub on_commit :
    Commit → Session → ℕ → Uuid → Time → Result → List FailoverAttempt → Engine → Round
on_commit (forward out) ses attempts id now r failovers e =
    stop (returned (some (record r { stream = some out; failovers = failovers })))
      (succeed_seat e ses.session_key id now)
on_commit (retry why) ses attempts id now r failovers e =
    let fail = ttft_failure ses attempts id r why in
    next (some fail) (failovers ++ (failover id fail ∷ []))
      (soft_fail_seat e id now (cooldown_for_status 502 (pos 0)))

module _ (inspect : Text → Verdict) where
  unfoldable pub on_success :
      Session → ℕ → Uuid → Time → Result → Option Stream → List FailoverAttempt → Engine → Round
  on_success ses attempts id now r none failovers e =
      stop (returned (some (record r { failovers = failovers })))
        (succeed_seat e ses.session_key id now)
  on_success ses attempts id now r (some s) failovers e =
      on_commit (await_commit inspect (some s)) ses attempts id now r failovers e

  -- The part of the loop behind a call that gave a result.
  unfoldable pub on_result :
      Session → ℕ → Uuid → Time → Result → List FailoverAttempt → Engine → Round
  on_result ses attempts id now answer failovers e =
      let r = record answer {
        attempts = attempts;
        strategy = ses.strategy;
        session_key = ses.session_key;
        sticky_hit = ses.sticky_ok && ses.sticky == id;
      } in
      if is_retryable_status r.status_code || r.status_code == 0
      then next (some (record r { stream = none })) (failovers ++ (failover id r ∷ []))
          (soft_fail_seat e id now (cooldown_from_headers now r.status_code r.retry_after (pos 0)))
      else if is_success_status r.status_code
      then on_success ses attempts id now r r.stream failovers e
      else stop (returned (some (record r { failovers = failovers })))
          (record e { selector = clear_soft_fail e.selector id })

  -- The part behind any call: an error without a result ends the dispatch, nil tries the next seat.
  unfoldable pub on_call :
      Session
      → ℕ
      → Uuid
      → Time
      → Option Result × Option Text
      → Option Result
      → List FailoverAttempt
      → Engine
      → Round
  on_call ses attempts id now (some r, err) last failovers e =
      on_result ses attempts id now r failovers e
  on_call ses attempts id now (none, some err) last failovers e = stop (raised err) e
  on_call ses attempts id now (none, none) last failovers e = next last failovers e
