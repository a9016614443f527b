-- ===== src/Tests/RouterPicks.antt =====
-- The theorems on the strategies of internal/router/router.go, at sample pools.
use openllms.Prelude.{
  ℕ, ◌%◌, ◌<◌, ◌≡◌, refl, ◌⊎◌, [], ◌++◌, map, none, some, arith, equal_fold, to_lower, text_eq,
  take, drop, length,
}
use openllms.Prelude.Int.{◌+ℤ◌, ◌-ℤ◌}
use openllms.Assoc.{lookup}
use openllms.Router.Selector.{intn, recently_failed}
use openllms.Router.Presets.{quota_aware}
use openllms.Router.Pick.{
  pick_with_config, pick_quota_aware, pick_reset_soon, pick_steward, pick_weighted, urgency,
  window_quota, config_window, min_remaining, steward_score, steward_config, quota_pct,
}
use openllms.Router.Pick.Best.{IsFirstBest}
use openllms.Router.Pick.Member.{PicksFrom, pick_with_config_member}
use openllms.Router.Pick.Quota.{quota_better, pick_quota_aware_first}
use openllms.Router.Pick.Reset.{eligible, sooner, pick_reset_soon_earliest}
use openllms.Router.Pick.Score.{scores_higher, pick_steward_first}
use openllms.Router.Pick.Turns.{counter, rr_picks, pick_rr_rotates}
use openllms.Router.Pick.Shares.{weights, Share, pick_weighted-Share}
use openllms.Tests.{scaled, first, seats, others, selector}

pick_with_config_member_example :
    PicksFrom scaled seats (pick_with_config scaled selector 2000000000 7 quota_aware seats none)
pick_with_config_member_example =
    pick_with_config_member scaled selector 2000000000 7 quota_aware seats none (λ e. cc)

pick_quota_aware_first_example :
    IsFirstBest (quota_better scaled) (pick_quota_aware scaled first others) seats
pick_quota_aware_first_example =
    pick_quota_aware_first scaled first others (refl, (refl, (refl, tt)))

pick_reset_soon_earliest_example :
    ((eligible scaled (config_window scaled none) (min_remaining scaled none) seats ≡ [])
      × (pick_reset_soon scaled none first others ≡ pick_quota_aware scaled first others))
    ⊎ ((t : ℕ) × IsFirstBest
          (sooner scaled (config_window scaled none) (min_remaining scaled none))
          (pick_reset_soon scaled none first others, t)
          (eligible scaled (config_window scaled none) (min_remaining scaled none) seats))
pick_reset_soon_earliest_example = pick_reset_soon_earliest scaled none first others

pick_steward_first_example :
    IsFirstBest
      (scores_higher scaled (steward_score scaled selector 2000000000 (steward_config scaled none)))
      (pick_steward scaled selector 2000000000 none first others)
      seats
unfolding steward_score urgency window_quota quota_pct recently_failed lookup equal_fold to_lower
    text_eq ◌+ℤ◌ ◌-ℤ◌
pick_steward_first_example =
    pick_steward_first scaled selector 2000000000 none first others
      ((refl, refl), ((refl, refl), ((refl, refl), tt)))

pick_rr_rotates_example :
    let r = counter selector 7 % length seats in
    rr_picks (length seats) selector 7 seats ≡ map some (drop r seats ++ take r seats)
unfolding lookup
pick_rr_rotates_example = pick_rr_rotates selector 7 seats (omega arith) (omega arith)

pick_weighted-Share_example :
    let r = (intn selector.rand (weights seats)).0 in
    (r < weights seats) × Share seats r (pick_weighted selector first others).0
pick_weighted-Share_example = pick_weighted-Share selector first others
