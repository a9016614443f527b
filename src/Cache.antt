-- ===== src/Cache.antt =====
-- internal/ttlcache/ttlcache.go: `Cache`, a map whose entries expire. A method's lock makes it one step;
-- the clock is an argument. (The store never calls the methods on a nil pointer.)
pub mod Laws
pub mod Runs
use openllms.Prelude.{List, [], Option, none, some, Bool, ltb, if◌then◌else◌}
use openllms.Prelude.Int.{pos, ltb_ℤ}
use openllms.Assoc.{Key, lookup, insert, delete}
use openllms.Number.{Time, Duration, time_add, after}

-- `entry`.
pub record Entry (V : Type 0) : Type 0 where
  pub v : V
  pub exp : Time

pub record Cache (K V : Type 0) : Type 0 where
  pub ttl : Duration
  pub m : List (K × Entry V)

module _ {K V : Type 0} where
  -- `New`.
  unfoldable pub new_cache : Duration → Cache K V
  new_cache ttl = record { ttl = ttl; m = [] }

  -- `Enabled`.
  unfoldable pub enabled : Cache K V → Bool
  enabled c = ltb_ℤ (pos 0) c.ttl

module _ {K V : Type 0} ⦃key : Key K⦄ where
  unfoldable pub get_live : Cache K V → K → Time → Option (Entry V) → Option V × Cache K V
  get_live c k now none = (none, c)
  get_live c k now (some e) =
      if after now e.exp then (none, record c { m = delete k c.m }) else (some e.v, c)

  -- `Get`; an entry that has expired is deleted.
  unfoldable pub get_cached : Cache K V → K → Time → Option V × Cache K V
  get_cached c k now = if enabled c then get_live c k now (lookup k c.m) else (none, c)

  -- `Set`.
  unfoldable pub set_cached : Cache K V → K → V → Time → Cache K V
  set_cached c k val now =
      if enabled c
      then record c { m = insert k (record { v = val; exp = time_add now c.ttl }) c.m }
      else c

  -- `Delete`.
  unfoldable pub delete_cached : Cache K V → K → Cache K V
  delete_cached c k = record c { m = delete k c.m }
