-- ===== src/Router/Pick.antt =====
-- internal/router/router.go: the strategies, each a loop over the candidate list, and `PickWithConfig`.
pub mod Best
pub mod Quota
pub mod Reset
pub mod Score
pub mod Turns
pub mod Shares
pub mod Member
use openllms.Prelude.{
  ℕ, zero, suc, ◌+◌, ◌-◌, ◌*◌, ◌/◌, ◌%◌, ◌<◌, List, [], ◌∷◌, Option, none, some, Bool, true, false,
  ◌==◌, ◌||◌, ◌&&◌, if◌then◌else◌, ltb, length, get_elem?, Text, lit, text_eq, to_lower, equal_fold,
  is_empty,
}
use openllms.Prelude.Int.{ℤ, pos, negsuc, sub_ℕ}
use openllms.Account.{Uuid, Account}
use openllms.Config.{Fields, get_str, get_bool, config_float}
use openllms.Number.{Float, Time, Duration, second, time_sub, before}
use openllms.Router.Presets.{Strategy, round_robin, weighted, quota_aware, reset_soon, steward}
use openllms.Router.Pool.{prefer_fresh}
use openllms.Router.Selector.{Selector, recently_failed, next_rr, intn}

-- `earlierReset`, on the reset times of `a` and `b`.
unfoldable pub earlier_reset : Option Time → Option Time → Bool
earlier_reset none b = false
earlier_reset (some t) none = true
earlier_reset (some t) (some u) = before t u

-- The weight that `pickWeighted` reads: 1 where the column is not positive.
unfoldable pub seat_weight : ℤ → ℕ
seat_weight (pos zero) = 1
seat_weight (pos (suc n)) = suc n
seat_weight (negsuc n) = 1

-- `d.Seconds()`: whole seconds, and the rest of the nanoseconds.
abbrev whole_seconds : Duration → ℤ
whole_seconds (pos n) = pos (n / second)
whole_seconds (negsuc n) = sub_ℕ 0 (suc n / second)

abbrev rest_nanoseconds : Duration → ℤ
rest_nanoseconds (pos n) = pos (n % second)
rest_nanoseconds (negsuc n) = sub_ℕ 0 (suc n % second)

module _ {F : Type 0} where
  -- The sum of `pickWeighted`'s first loop.
  unfoldable pub total_weight : ℕ → List (Account F) → ℕ
  unfolding seat_weight
  total_weight total [] = total
  total_weight total (a ∷ rest) = total_weight (total + seat_weight a.weight) rest

  -- Its second loop, with the last account as the fallback.
  unfoldable pub draw : ℕ → Account F → List (Account F) → Account F
  unfolding seat_weight
  draw r last [] = last
  draw r last (a ∷ rest) =
      let w = seat_weight a.weight in
      let later = draw (r - w) a rest in if ltb r w then a else later

  -- `pickWeighted`, on a list that is not empty.
  unfoldable pub pick_weighted : Selector → Account F → List (Account F) → Account F × Selector
  pick_weighted s a rest =
      let (r, state) = intn s.rand (total_weight 0 (a ∷ rest)) in
      (draw r a (a ∷ rest), record s { rand = state })

  -- `pickRR`.
  unfoldable pub pick_rr : Selector → Uuid → List (Account F) → Option (Account F) × Selector
  pick_rr s route accounts =
      let (n, s') = next_rr s route in (get_elem? accounts (n % length accounts), s')

module _ (fl : Float) where
  open fl use {F, lt, le, add, sub, mul, div, ratio, of_int, neg_infinity}

  -- `quotaPct`.
  unfoldable pub quota_pct : Account F → F
  quota_pct a = elim a.quota_remaining_pct [ none ↦ sub (ratio 0 1) (ratio 1 1) | some p ↦ p ]

  -- The loop of `pickQuotaAware`.
  unfoldable pub quota_loop : Account F → F → List (Account F) → Account F
  quota_loop best best_pct [] = best
  quota_loop best best_pct (a ∷ rest) =
      let p = quota_pct a in
      let higher = lt best_pct p in
      let taken =
        higher
        || (if lt p best_pct then false else earlier_reset a.quota_reset_at best.quota_reset_at) in
      quota_loop (if taken then a else best) (if higher then p else best_pct) rest

  -- `pickQuotaAware`, on a list that is not empty.
  unfoldable pub pick_quota_aware : Account F → List (Account F) → Account F
  pick_quota_aware a rest = quota_loop a (quota_pct a) rest

  -- `windowQuota`: the remaining percentage and the reset time of a window.
  unfoldable pub window_quota : Account F → Text → F × Option Time
  window_quota a window =
      let legacy : F × Option Time = (quota_pct a, a.quota_reset_at) in
      if text_eq window (lit "5h") || text_eq window (lit "5hr") || text_eq window (lit "five_hour")
      then elim a.quota_5h_remaining_pct [ none ↦ legacy | some p ↦ (p, a.quota_5h_reset_at) ]
      else elim a.quota_7d_remaining_pct [ none ↦ legacy | some p ↦ (p, a.quota_7d_reset_at) ]

  -- The window that a config names, `7d` by default.
  unfoldable pub config_window : Option (Fields F) → Text
  unfolding get_str is_empty to_lower
  config_window none = lit "7d"
  config_window (some cfg) =
      let w = get_str (lit "window") cfg in if is_empty w then lit "7d" else to_lower w

  -- `reset.Before(*bestReset)`, or no best so far.
  abbrev pub resets_sooner : Text → Time → Option (Account F) → Bool
  resets_sooner window reset none = true
  resets_sooner window reset (some best) = elim (window_quota best window).1 [
    | none ↦ true
    | some r ↦ before reset r
  ]

  -- The loop of `pickResetSoon`.
  unfoldable pub reset_loop : Text → F → Option (Account F) → List (Account F) → Option (Account F)
  reset_loop window min_rem best [] = best
  reset_loop window min_rem best (a ∷ rest) =
      let (pct, reset) = window_quota a window in
      let best' : Option (Account F) = if lt pct min_rem then best else elim reset [
        | none ↦ best
        | some r ↦ if resets_sooner window r best then some a else best
      ] in
      reset_loop window min_rem best' rest

  abbrev pub min_remaining : Option (Fields F) → F
  min_remaining none = ratio 1 1
  min_remaining (some cfg) = config_float fl cfg (lit "min_remaining_pct") (ratio 1 1)

  -- `pickResetSoon`, on a list that is not empty.
  unfoldable pub pick_reset_soon : Option (Fields F) → Account F → List (Account F) → Account F
  pick_reset_soon cfg a rest =
      elim (reset_loop (config_window cfg) (min_remaining cfg) none (a ∷ rest)) [
        | none ↦ pick_quota_aware a rest
        | some best ↦ best
      ]

  -- The settings that `pickSteward` reads: window, three weights and `prefer_oauth`.
  pub record StewardConfig : Type 0 where
    pub window : Text
    pub w_remaining : F
    pub w_urgency : F
    pub w_soft_fail : F
    pub prefer_oauth : Bool

  abbrev pub steward_config : Option (Fields F) → StewardConfig
  steward_config none = record {
    window = lit "7d";
    w_remaining = ratio 3 10;
    w_urgency = ratio 6 10;
    w_soft_fail = ratio 1 10;
    prefer_oauth = true;
  }
  steward_config (some cfg) = record {
    window = config_window (some cfg);
    w_remaining = config_float fl cfg (lit "w_remaining") (ratio 3 10);
    w_urgency = config_float fl cfg (lit "w_urgency") (ratio 6 10);
    w_soft_fail = config_float fl cfg (lit "w_soft_fail") (ratio 1 10);
    prefer_oauth = elim (get_bool (lit "prefer_oauth") cfg) [ none ↦ true | some b ↦ b ];
  }

  -- How soon a window resets, between 0 and 1.
  unfoldable pub urgency : Time → Option Time → F
  urgency now none = ratio 0 1
  urgency now (some reset) =
      let d = time_sub reset now in
      let secs0 =
        add (of_int (whole_seconds d)) (div (of_int (rest_nanoseconds d)) (ratio second 1)) in
      let secs = if lt secs0 (ratio 60 1) then ratio 60 1 else secs0 in
      let hours = div secs (ratio 3600 1) in
      let u = div (ratio 1 1) (add hours (ratio 25 100)) in
      if lt (ratio 1 1) u then ratio 1 1 else u

  -- The score that one round of `pickSteward` computes.
  unfoldable pub steward_score : Selector → Time → StewardConfig → Account F → F
  steward_score s now c a =
      let (pct, reset) = window_quota a c.window in
      let rem = if le (ratio 0 1) pct then div pct (ratio 100 1) else ratio 0 1 in
      let soft = if recently_failed s a.id now then ratio 1 1 else ratio 0 1 in
      let score =
        sub (add (mul c.w_remaining rem) (mul c.w_urgency (urgency now reset)))
          (mul c.w_soft_fail soft) in
      if c.prefer_oauth && equal_fold a.auth_type (lit "oauth")
      then add score (ratio 5 100)
      else score

  -- The loop of `pickSteward`, over the function that scores an account.
  unfoldable pub steward_loop :
      (Account F → F) → Option (Account F) → F → List (Account F) → Option (Account F)
  steward_loop score best best_score [] = best
  steward_loop score best best_score (a ∷ rest) =
      let higher = lt best_score (score a) in
      steward_loop score (if higher then some a else best) (if higher then score a else best_score)
        rest

  -- `pickSteward`, on a list that is not empty.
  unfoldable pub pick_steward :
      Selector → Time → Option (Fields F) → Account F → List (Account F) → Account F
  pick_steward s now cfg a rest =
      elim (steward_loop (steward_score s now (steward_config cfg)) none neg_infinity (a ∷ rest)) [
        | none ↦ pick_quota_aware a rest
        | some best ↦ best
      ]

  -- The `switch` of `PickWithConfig`, on the list that `PreferFresh` returned.
  unfoldable pub pick_by :
      Selector
      → Time
      → Uuid
      → Strategy
      → Option (Fields F)
      → List (Account F)
      → Option (Account F) × Selector
  pick_by s now route strategy cfg [] = (none, s)
  pick_by s now route strategy cfg (a ∷ rest) =
      if text_eq strategy round_robin
      then pick_rr s route (a ∷ rest)
      else if text_eq strategy weighted
      then (let (best, s') = pick_weighted s a rest in (some best, s'))
      else if text_eq strategy quota_aware
      then (some (pick_quota_aware a rest), s)
      else if text_eq strategy reset_soon
      then (some (pick_reset_soon cfg a rest), s)
      else if text_eq strategy steward
      then (some (pick_steward s now cfg a rest), s)
      else (some a, s)

  -- `PickWithConfig`.
  unfoldable pub pick_with_config :
      Selector
      → Time
      → Uuid
      → Strategy
      → List (Account F)
      → Option (Fields F)
      → Option (Account F) × Selector
  pick_with_config s now route strategy accounts cfg =
      pick_by s now route strategy cfg (prefer_fresh s now accounts)
