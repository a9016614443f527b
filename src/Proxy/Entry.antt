-- ===== src/Proxy/Entry.antt =====
-- internal/proxy/proxy.go: the head of `dispatch`, from the accounts of a route to its strategy, and
-- `emptyAccountsResult`. The store's tables are part of the world. json.Marshal is a parameter, and so is
-- the float arithmetic of `int(d.Seconds() + 0.999)`; the database answers every SELECT.
pub mod Empty
use openllms.Prelude.{
  ℕ, List, [], ◌∷◌, Option, none, some, Bool, true, false, if◌then◌else◌, Text, lit, text_eq,
  length,
}
use openllms.Prelude.Int.{ℤ, pos, ltb_ℤ}
use openllms.Account.{Uuid, uuid_nil, Account, Route}
use openllms.Config.{Any, Fields, str, int, fields}
use openllms.Number.{Float, Time, Duration, time_sub}
use openllms.Router.Presets.{Strategy, parallel, sequential}
use openllms.Router.Status.{RetryAfter, absent, atoi}
use openllms.Store.Seats.{SeatTables, list_route_accounts, list_route_pool, earliest_route_cooldown}
use openllms.Proxy.Affinity.{get_affinity}
use openllms.Proxy.Commit.{Verdict}
use openllms.Proxy.Models.{Body, filter_servable_accounts}
use openllms.Proxy.Engine.{Result, Engine, Exit, returned}
use openllms.Proxy.Dispatch.{World, Run, dispatch_accounts}
use openllms.Proxy.Race.{Arrival, dispatch_parallel}

-- A filter of the accounts, where the caller has one.
abbrev pub filtered_by : {A : Type 0} → Option (A → A) → A → A
filtered_by none accounts = accounts
filtered_by (some f) accounts = f accounts

abbrev pub is_filtered : {A : Type 0} → Option A → Bool
is_filtered none = false
is_filtered (some f) = true

-- A result with a body that the program writes itself.
abbrev pub own_result : ℕ → Text → Text → RetryAfter → Result
own_result status body error retry = record {
  status_code = status;
  body = body;
  latency = 0;
  tokens_in = 0;
  tokens_out = 0;
  account_id = uuid_nil;
  model = [];
  error = error;
  stream = none;
  retry_after = retry;
  attempts = 0;
  strategy = [];
  session_key = [];
  sticky_hit = false;
  failovers = [];
}

abbrev pub clamp_seconds : ℤ → ℤ
clamp_seconds sec =
    let low = if ltb_ℤ sec (pos 1) then pos 1 else sec in
    if ltb_ℤ (pos 3600) low then pos 3600 else low

-- The seconds up to the end of a cooldown, or 30 where none is known.
unfoldable pub retry_seconds : (Duration → ℤ) → Time → Option Time → ℤ
retry_seconds round_up now none = pos 30
retry_seconds round_up now (some until) = clamp_seconds (round_up (time_sub until now))

module _ {F : Type 0} (marshal : Fields F → Text) (round_up : Duration → ℤ) where
  unfoldable pub no_accounts : Text → Result
  no_accounts hint =
      own_result 400
        (marshal
          (fields ((lit "error", str (lit "route has no accounts")) ∷ (lit "hint", str hint) ∷ [])))
        (lit "no_accounts") absent

  unfoldable pub no_usable_accounts : ℕ → ℤ → Result
  no_usable_accounts size sec =
      own_result 503
        (marshal (
          fields (
            (lit "error", str (lit "no_usable_accounts"))
            ∷ (
              lit "hint",
              str (lit "all attached accounts are in cooldown; retry after Retry-After"),
            )
            ∷ (lit "pool_size", int (pos size))
            ∷ (lit "retry_after", int sec)
            ∷ [])))
        (lit "no_usable_accounts") (atoi sec)

  unfoldable pub on_pool : List (Account F) → ℤ → Result
  on_pool [] sec = no_accounts (lit "attach accounts to this route")
  on_pool (a ∷ pool) sec = no_usable_accounts (length (a ∷ pool)) sec

  -- `emptyAccountsResult`.
  unfoldable pub empty_accounts_result : SeatTables F → Route F → Bool → Time → Result
  empty_accounts_result t rt filtered now =
      if filtered
      then no_accounts
          (lit "for images, attach an OpenAI-compatible API key account (not Claude/Codex OAuth)")
      else on_pool (list_route_pool t rt.id)
          (retry_seconds round_up now (earliest_route_cooldown t rt.id now now))

module _ (fl : Float) (world : World (fl.F)) (inspect : Text → Verdict) (body : Body (fl.F))
    (marshal : Fields (fl.F) → Text) (round_up : Duration → ℤ)
    (tables : world.W → SeatTables (fl.F)) (session_key : Text) where
  open fl use {F}
  open world use {W, now}

  unfoldable pub on_accounts :
      Route F → Bool → (List (Account F) → Run W) → Engine → W → List (Account F) → Run W
  on_accounts rt filtered loop e w [] = record {
    exit = returned (some (empty_accounts_result marshal round_up (tables w) rt filtered (now w)));
    engine = e;
    world = w;
    tried = [];
  }
  on_accounts rt filtered loop e w (a ∷ accounts) = loop (a ∷ accounts)

  -- The accounts that `dispatch` starts with.
  unfoldable pub listed :
      Option (List (Account F) → List (Account F)) → Route F → W → List (Account F)
  listed filter rt w = filtered_by filter (list_route_accounts (tables w) rt.id (now w))

  -- `dispatch` with any strategy but parallel.
  unfoldable pub dispatch_in_turn :
      Option (List (Account F) → List (Account F)) → Route F → Engine → W → Run W
  dispatch_in_turn filter rt e w =
      on_accounts rt (is_filtered filter)
        (λ accounts. dispatch_accounts fl world inspect rt body session_key accounts e w) e w
        (listed filter rt w)

  module _ (race : List (Account F) → W → List Arrival × (Time × W)) where
    -- `dispatch` with the strategy parallel; a pool without racers is dispatched again, in turn and
    -- without the filter.
    unfoldable pub dispatch_race :
        Option (List (Account F) → List (Account F)) → Route F → Engine → W → Run W
    dispatch_race filter rt e w =
        let ((sticky, sticky_ok), affinity) = get_affinity e.affinity session_key (now w) in
        on_accounts rt (is_filtered filter)
          (λ accounts.
            dispatch_parallel (dispatch_in_turn none) race
              (filter_servable_accounts accounts body rt.default_model) rt session_key sticky
              (record e { affinity = affinity }) w)
          e w (listed filter rt w)

    -- `dispatch`.
    unfoldable pub dispatch_route :
        Option (List (Account F) → List (Account F)) → Route F → Engine → W → Run W
    dispatch_route filter rt e w =
        if text_eq rt.strategy parallel
        then dispatch_race filter rt e w
        else dispatch_in_turn filter rt e w
