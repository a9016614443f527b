-- ===== src/Limiter.antt =====
-- internal/ratelimit/limiter.go: `MemoryLimiter`, a fixed window of calls per key. The lock makes a call
-- one step; the clock is an argument.
pub mod Laws
use openllms.Prelude.{
  ℕ, ◌+◌, ◌*◌, List, [], ◌∷◌, Option, none, some, Bool, true, false, not, if◌then◌else◌, Text,
}
use openllms.Prelude.Int.{ℤ, pos, ltb_ℤ}
use openllms.Assoc.{lookup, insert, text_instance}
use openllms.Number.{Time, Duration, second, time_sub}

-- `bucket`.
pub record Bucket : Type 0 where
  pub start : Time
  pub count : ℕ

pub record MemoryLimiter : Type 0 where
  pub limit : ℤ
  pub window : Duration
  pub buckets : List (Text × Bucket)

-- `NewMemory`.
unfoldable pub new_memory : ℤ → Duration → MemoryLimiter
new_memory limit window = record {
  limit = if ltb_ℤ (pos 0) limit then limit else pos 60;
  window = if ltb_ℤ (pos 0) window then window else pos (60 * second);
  buckets = [];
}

-- The state with another bucket under the key.
unfoldable pub put_bucket : MemoryLimiter → Text → Bucket → MemoryLimiter
put_bucket m key b = record m { buckets = insert key b m.buckets }

-- The limit that counts: the caller's, or the default one where that is not positive.
unfoldable pub limit_or_default : MemoryLimiter → ℤ → ℤ
limit_or_default m limit = if ltb_ℤ (pos 0) limit then limit else m.limit

unfoldable pub allow_bucket : MemoryLimiter → Text → ℤ → Time → Option Bucket → Bool × MemoryLimiter
allow_bucket m key limit now none = (true, put_bucket m key (record { start = now; count = 1 }))
allow_bucket m key limit now (some b) =
    if not (ltb_ℤ (time_sub now b.start) m.window)
    then (true, put_bucket m key (record { start = now; count = 1 }))
    else if not (ltb_ℤ (pos b.count) limit)
    then (false, m)
    else (true, put_bucket m key (record b { count = b.count + 1 }))

-- `AllowWithLimit`.
unfoldable pub allow_with_limit : MemoryLimiter → Text → ℤ → Time → Bool × MemoryLimiter
allow_with_limit m key limit now =
    allow_bucket m key (limit_or_default m limit) now (lookup key m.buckets)

-- `Allow`.
unfoldable pub allow : MemoryLimiter → Text → Time → Bool × MemoryLimiter
allow m key now = allow_with_limit m key m.limit now
