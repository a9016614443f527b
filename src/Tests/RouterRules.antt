-- ===== src/Tests/RouterRules.antt =====
-- The theorems on presets, status codes and cooldowns of internal/router/router.go, at sample values.
use openllms.Prelude.{◌≡◌, arith, lit}
use openllms.Prelude.Int.{pos, ◌≤ℤ◌}
use openllms.Router.Presets.{apply_preset, preset_from_route}
use openllms.Router.Presets.Laws.{apply_preset_returns}
use openllms.Router.Status.{seconds, cooldown_for_status}
use openllms.Router.Status.Backoff.{cooldown_for_status_bounds}
use openllms.Tests.{scaled}

apply_preset_returns_example :
    (apply_preset scaled (
      preset_from_route scaled
        (apply_preset scaled (lit "race")).0
        (apply_preset scaled (lit "race")).1)).0
    ≡ (apply_preset scaled (lit "race")).0
apply_preset_returns_example = apply_preset_returns scaled (lit "race")

cooldown_for_status_bounds_example :
    (seconds 1 ≤ℤ cooldown_for_status 429 (pos 3))
    × (cooldown_for_status 429 (pos 3) ≤ℤ seconds 1800)
cooldown_for_status_bounds_example = cooldown_for_status_bounds 429 3 (omega arith)
