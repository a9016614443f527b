-- ===== src/Proxy/Race.antt =====
-- internal/proxy/proxy.go: `dispatchParallel`, which asks all seats of a pool at once and takes the first
-- answer that counts. The race is the list of what arrives on the channel, in the order in which it does.
pub mod First
use openllms.Prelude.{
  ℕ, List, [], ◌∷◌, Option, none, some, Bool, true, false, ◌&&◌, ◌||◌, ◌==◌, not, if◌then◌else◌,
  Text, lit, is_empty, length,
}
use openllms.Account.{Uuid, uuid_nil, Account, Route}
use openllms.Number.{Time}
use openllms.Router.Presets.{Strategy, parallel, sequential}
use openllms.Router.Pool.{prefer_account}
use openllms.Router.Status.{RetryAfter, absent, is_retryable_status, is_success_status}
use openllms.Proxy.Affinity.{set_affinity}
use openllms.Proxy.Commit.{Stream, Verdict, Commit, forward, retry, await_commit}
use openllms.Proxy.Models.{Body, Applied, apply_account_model}
use openllms.Proxy.Engine.{Result, Engine, Exit, returned, raised, panicked}
use openllms.Proxy.Dispatch.{Run}
use openllms.Proxy.Overflow.{filter_parallel_accounts, parallel_allow_oauth}

-- What a racer sends: an error, or a result.
pub data Raced : Type 0 where
  failed : Text → Raced
  answered : Result → Raced

-- What the aggregator sees next: a racer's message, or the end of the request's context.
pub data Arrival : Type 0 where
  message : Raced → Arrival
  cancelled : Text → Arrival

-- The result of a racer that has nothing else to show.
abbrev pub bad_gateway : Text → Uuid → Result
bad_gateway why id = record {
  status_code = 502;
  body = [];
  latency = 0;
  tokens_in = 0;
  tokens_out = 0;
  account_id = id;
  model = [];
  error = why;
  stream = none;
  retry_after = absent;
  attempts = 0;
  strategy = [];
  session_key = [];
  sticky_hit = false;
  failovers = [];
}

abbrev committed_result : Commit → Result → Uuid → Result
committed_result (forward out) r id = record r { stream = some out }
committed_result (retry why) r id = bad_gateway (lit "ttft_failed") id

module _ (inspect : Text → Verdict) where
  unfoldable pub success_message : Option Stream → Result → Uuid → Raced
  success_message none r id = answered r
  success_message (some s) r id = answered (committed_result (await_commit inspect (some s)) r id)

  -- The goroutine of a seat behind its call. (A closed stream stays in a result that is retried.)
  unfoldable pub racer : Uuid → Option Result × Option Text → Raced
  racer id (none, some err) = failed err
  racer id (none, none) = answered (bad_gateway (lit "empty") id)
  racer id (some r, err) =
      if is_success_status r.status_code
      then success_message r.stream r id
      else if not (r.status_code == 0) && not (is_retryable_status r.status_code)
      then answered (record r { stream = none })
      else answered r

-- What a race shares: the size of the pool, the session and the sticky account.
pub record Field : Type 0 where
  pub size : ℕ
  pub session_key : Text
  pub sticky : Uuid

abbrev pub mark : Field → Result → Result
mark f r = record r { attempts = f.size; strategy = parallel; session_key = f.session_key }

abbrev pub win : Field → Result → Result
win f r = record r {
  attempts = f.size;
  strategy = parallel;
  session_key = f.session_key;
  sticky_hit = not (f.sticky == uuid_nil) && f.sticky == r.account_id;
}

abbrev pub last_marked : Field → Option Result → Option Result
last_marked f none = none
last_marked f (some r) = some (mark f r)

-- The loop of the aggregator, over what arrives; its list holds a message per racer, or less where the
-- context ends. `now` is when a winner is remembered.
unfoldable pub aggregate : List Arrival → Field → Time → Option Result → Engine → Exit × Engine
aggregate [] f now last e = (returned (last_marked f last), e)
aggregate (cancelled why ∷ rest) f now last e = (raised why, e)
aggregate (message (failed err) ∷ rest) f now last e = aggregate rest f now last e
aggregate (message (answered r) ∷ rest) f now last e =
    let later = aggregate rest f now (some r) e in
    if is_success_status r.status_code
    then (
      returned (some (win f r)),
      record e { affinity = set_affinity e.affinity f.session_key r.account_id now },
    )
    else if not (r.status_code == 0) && not (is_retryable_status r.status_code)
    then (returned (some (mark f r)), e)
    else later

-- The seats that race: the sticky one in front.
unfoldable pub racing_pool : {F : Type 0} → List (Account F) → Route F → Uuid → List (Account F)
racing_pool accounts rt sticky =
    let pool = filter_parallel_accounts accounts (parallel_allow_oauth rt.config) in
    if not (sticky == uuid_nil) then prefer_account pool sticky else pool

module _ {F W : Type 0} (dispatch : Route F → Engine → W → Run W)
    (race : List (Account F) → W → List Arrival × (Time × W)) where
  unfoldable pub run_race : List (Account F) → Route F → Text → Uuid → Engine → W → Run W
  run_race [] rt session_key sticky e w = dispatch (record rt { strategy = sequential }) e w
  run_race (a ∷ pool) rt session_key sticky e w =
      let (arrivals, (now, w1)) = race (a ∷ pool) w in
      let f : Field = record {
        size = length (a ∷ pool);
        session_key = session_key;
        sticky = sticky;
      } in
      let (exit, e1) = aggregate arrivals f now none e in
      record { exit = exit; engine = e1; world = w1; tried = [] }

  -- `dispatchParallel`; a pool without racers goes the sequential way.
  unfoldable pub dispatch_parallel : List (Account F) → Route F → Text → Uuid → Engine → W → Run W
  dispatch_parallel accounts rt session_key sticky e w =
      run_race (racing_pool accounts rt sticky) rt session_key sticky e w
