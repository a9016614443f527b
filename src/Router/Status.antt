-- ===== src/Router/Status.antt =====
-- internal/router/router.go: what a status code means for routing, and how long a seat cools down.
pub mod Bounds
pub mod Backoff
use openllms.Prelude.{
  ℕ, zero, suc, ◌+◌, ◌-◌, ◌*◌, ◌^◌, Bool, true, false, ◌&&◌, ◌||◌, ◌==◌, if◌then◌else◌, ltb, leb,
  Option, none, some,
}
use openllms.Prelude.Int.{ℤ, pos, negsuc, ltb_ℤ, ◌*ℤ◌}
use openllms.Number.{Duration, Time, second, wrap64, time_sub}

-- HTTP status codes are not negative.
-- `IsRetryableStatus`.
unfoldable pub is_retryable_status : ℕ → Bool
is_retryable_status code = if code == 401 || code == 403 || code == 429 then true else leb 500 code

-- `IsSuccessStatus`.
unfoldable pub is_success_status : ℕ → Bool
is_success_status code = leb 200 code && ltb code 300

abbrev pub seconds : ℕ → Duration
seconds n = pos (n * second)

abbrev pub two_minutes : Duration
two_minutes = seconds 120

abbrev pub two_hours : Duration
two_hours = seconds 7200

-- The float64 power of two as an int64: exact below 2^63, and the minimum of int64 above, which is
-- what the conversion gives on amd64 (on arm64 it gives the maximum; the language leaves it open).
abbrev pow_int64 : ℕ → ℤ
pow_int64 level = if ltb level 63 then pos (2 ^ level) else negsuc (2 ^ 63 - 1)

-- `ExponentialBackoff`; a negative level counts as 0.
unfoldable pub exponential_backoff : ℤ → Duration
exponential_backoff (negsuc level) = seconds 1
exponential_backoff (pos level) =
    let d = wrap64 (pow_int64 level *ℤ pos second) in if ltb_ℤ two_minutes d then two_minutes else d

-- `CooldownForStatus`.
unfoldable pub cooldown_for_status : ℕ → ℤ → Duration
cooldown_for_status code level =
    if code == 401
    then seconds 300
    else if code == 402 || code == 403
    then seconds 1800
    else if code == 429
    then exponential_backoff level
    else if code == 500 || code == 502 || code == 504
    then seconds 10
    else if code == 503
    then seconds 30
    else if leb 400 code
    then seconds 30
    else seconds 5

-- A Retry-After header, as `strconv.Atoi` and `http.ParseTime` read its trimmed text.
pub data RetryAfter : Type 0 where
  absent : RetryAfter
  atoi : ℤ → RetryAfter
  date : Time → RetryAfter
  unreadable : RetryAfter

abbrev pub clamp_wait : Duration → Duration
clamp_wait d =
    let low = if ltb_ℤ d (seconds 1) then seconds 1 else d in
    if ltb_ℤ two_hours low then two_hours else low

-- `CooldownFromHeaders`. A negative number of seconds is no HTTP date either.
unfoldable pub cooldown_from_headers : Time → ℕ → RetryAfter → ℤ → Duration
cooldown_from_headers now status (atoi (pos secs)) level =
    clamp_wait (wrap64 (pos secs *ℤ pos second))
cooldown_from_headers now status (date t) level = clamp_wait (time_sub t now)
cooldown_from_headers now status _ level = cooldown_for_status status level
