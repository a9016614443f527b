-- ===== src/Router/Status/Bounds.antt =====
-- Bounds of the cooldowns.
use openllms.Prelude.{ℕ, arith}
use openllms.Prelude.Int.{ℤ, pos, ◌≤ℤ◌, ◌*ℤ◌}
use openllms.Number.{Duration, Time, second, wrap64, time_sub}
use openllms.Router.Status.{clamp_wait, seconds, two_hours, cooldown_from_headers, atoi, date}

clamp_wait_bounds : (d : Duration) → (seconds 1 ≤ℤ clamp_wait d) × (clamp_wait d ≤ℤ two_hours)
clamp_wait_bounds d = ground arith

-- A Retry-After that names a wait keeps the cooldown between one second and two hours.
cooldown_from_headers_bounds :
    (now : Time) (status : ℕ) (level : ℤ) (secs : ℕ) (t : Time)
    → (seconds 1 ≤ℤ cooldown_from_headers now status (atoi (pos secs)) level)
      × (cooldown_from_headers now status (atoi (pos secs)) level ≤ℤ two_hours)
      × (seconds 1 ≤ℤ cooldown_from_headers now status (date t) level)
      × (cooldown_from_headers now status (date t) level ≤ℤ two_hours)
unfolding cooldown_from_headers
cooldown_from_headers_bounds now status level secs t =
    let (a, b) = clamp_wait_bounds (wrap64 (pos secs *ℤ pos second)) in
    let (c, d) = clamp_wait_bounds (time_sub t now) in (a, b, c, d)
