-- ===== src/Proxy/Entry/Empty.antt =====
-- internal/proxy/proxy.go: what a dispatch does with the pool of its route, a pool that is empty included.
use openllms.Prelude.{
  ◌≡◌, List, [], ◌∷◌, Option, none, some, Bool, true, false, Text, lit, arith, refl,
}
use openllms.Prelude.Int.{ℤ, pos, ◌≤ℤ◌}
use openllms.Account.{Account, Route}
use openllms.Config.{Fields}
use openllms.Number.{Float, Time, Duration, time_sub}
use openllms.Router.Status.{RetryAfter, absent, atoi}
use openllms.Store.Seats.{SeatTables, list_route_pool, earliest_route_cooldown}
use openllms.Proxy.Commit.{Verdict}
use openllms.Proxy.Models.{Body, filter_servable_accounts}
use openllms.Proxy.Engine.{Result, Engine, returned}
use openllms.Proxy.Dispatch.{World, Run, dispatch_accounts}
use openllms.Proxy.Dispatch.Ends.{Settled, AllNew, dispatch_accounts_ends}
use openllms.Proxy.Entry.{
  clamp_seconds, retry_seconds, no_accounts, no_usable_accounts, on_pool, empty_accounts_result,
  on_accounts, listed, is_filtered, dispatch_in_turn,
}

-- The wait of a Retry-After header, in seconds.
abbrev pub WaitsUpToAnHour : RetryAfter → Type 0
WaitsUpToAnHour (atoi sec) = (pos 1 ≤ℤ sec) × (sec ≤ℤ pos 3600)
WaitsUpToAnHour _ = ⊥

clamp_seconds-bounds : (sec : ℤ) → (pos 1 ≤ℤ clamp_seconds sec) × (clamp_seconds sec ≤ℤ pos 3600)
clamp_seconds-bounds sec = ground arith

retry_seconds-bounds :
    (round_up : Duration → ℤ) (now : Time) (until : Option Time)
    → (pos 1 ≤ℤ retry_seconds round_up now until) × (retry_seconds round_up now until ≤ℤ pos 3600)
unfolding retry_seconds
retry_seconds-bounds round_up now none = (omega arith, omega arith)
retry_seconds-bounds round_up now (some until) =
    clamp_seconds-bounds (round_up (time_sub until now))

module _ {F : Type 0} where
  -- The answer for no accounts: a 400 where the caller filters the accounts or the pool is empty, and
  -- else a 503 with a wait.
  unfoldable pub EmptyAnswer : Bool → List (Account F) → Result → Type 0
  EmptyAnswer true pool r =
      (r.status_code ≡ 400) × (r.error ≡ lit "no_accounts") × (r.retry_after ≡ absent)
  EmptyAnswer false [] r =
      (r.status_code ≡ 400) × (r.error ≡ lit "no_accounts") × (r.retry_after ≡ absent)
  EmptyAnswer false (a ∷ pool) r =
      (r.status_code ≡ 503) × (r.error ≡ lit "no_usable_accounts") × WaitsUpToAnHour r.retry_after

  on_pool-EmptyAnswer :
      (marshal : Fields F → Text) (round_up : Duration → ℤ) (pool : List (Account F)) (now : Time)
      (until : Option Time)
      → EmptyAnswer false pool (on_pool marshal round_up pool (retry_seconds round_up now until))
  unfolding EmptyAnswer on_pool no_accounts no_usable_accounts
  on_pool-EmptyAnswer marshal round_up [] now until = (refl, refl, refl)
  on_pool-EmptyAnswer marshal round_up (a ∷ pool) now until =
      (refl, refl, retry_seconds-bounds round_up now until)

  empty_accounts_result-EmptyAnswer :
      (marshal : Fields F → Text) (round_up : Duration → ℤ) (t : SeatTables F) (rt : Route F)
      (filtered : Bool) (now : Time)
      → EmptyAnswer filtered
          (list_route_pool t rt.id)
          (empty_accounts_result marshal round_up t rt filtered now)
  unfolding EmptyAnswer empty_accounts_result no_accounts
  empty_accounts_result-EmptyAnswer marshal round_up t rt true now = (refl, refl, refl)
  empty_accounts_result-EmptyAnswer marshal round_up t rt false now =
      on_pool-EmptyAnswer marshal round_up (list_route_pool t rt.id) now
        (earliest_route_cooldown t rt.id now now)

module _ (fl : Float) (world : World (fl.F)) (inspect : Text → Verdict) (body : Body (fl.F))
    (marshal : Fields (fl.F) → Text) (round_up : Duration → ℤ)
    (tables : world.W → SeatTables (fl.F)) (session_key : Text) where
  open fl use {F}
  open world use {W, now}

  -- How a dispatch in turn ends, by the accounts that it starts with and the whole pool of the route.
  unfoldable pub Enters : Bool → Route F → List (Account F) → List (Account F) → Run W → Type 0
  Enters filtered rt pool [] run =
      (r : Result) × (run.exit ≡ returned (some r)) × EmptyAnswer filtered pool r
  Enters filtered rt pool (a ∷ accounts) run =
      Settled (filter_servable_accounts (a ∷ accounts) body rt.default_model) run.tried run.exit
      × AllNew run.tried

  on_accounts-Enters :
      (rt : Route F) (filtered : Bool) (e : Engine) (w : W) (accounts : List (Account F))
      → Enters filtered rt (list_route_pool (tables w) rt.id) accounts (
          on_accounts fl world inspect body marshal round_up tables session_key rt filtered
            (λ seats. dispatch_accounts fl world inspect rt body session_key seats e w)
            e
            w
            accounts)
  unfolding Enters on_accounts
  on_accounts-Enters rt filtered e w [] = (
    empty_accounts_result marshal round_up (tables w) rt filtered (now w),
    refl,
    empty_accounts_result-EmptyAnswer marshal round_up (tables w) rt filtered (now w),
  )
  on_accounts-Enters rt filtered e w (a ∷ accounts) =
      dispatch_accounts_ends fl world inspect rt body session_key (a ∷ accounts) e w

  -- A dispatch that tries its seats in turn always ends. With no account to start with it returns
  -- a 400 "no_accounts" without a Retry-After where the caller filters the accounts (even if the
  -- whole pool is in cooldown) or the pool is empty, and else a 503 "no_usable_accounts" whose
  -- Retry-After is from one second to one hour. With accounts, it ends in a result, an error or a
  -- panic before its fuel runs out and calls no seat twice, and it returns a status that asks for
  -- another seat, or no result, only when every seat that the servable filter left was tried.
  pub dispatch_in_turn-Enters :
      (filter : Option (List (Account F) → List (Account F))) (rt : Route F) (e : Engine) (w : W)
      → Enters
          (is_filtered filter)
          rt
          (list_route_pool (tables w) rt.id)
          (listed fl world inspect body marshal round_up tables session_key filter rt w)
          (dispatch_in_turn fl world inspect body marshal round_up tables session_key filter rt e w)
  unfolding dispatch_in_turn
  dispatch_in_turn-Enters filter rt e w =
      on_accounts-Enters rt (is_filtered filter) e w
        (listed fl world inspect body marshal round_up tables session_key filter rt w)
