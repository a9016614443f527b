-- ===== src/Store.antt =====
-- internal/store/store.go: the tables as lists of rows behind the two caches of the Store. A statement is
-- what it does to the rows, with the keys of internal/db/migrations; the database answers every statement.
pub mod Coherent
pub mod Keys
pub mod Routes
pub mod Seats
use openllms.Prelude.{List, Option, none, some}
use openllms.Assoc.{Key}
use openllms.Number.{Time}
use openllms.Cache.{Cache, get_cached, set_cached}

module _ {K V : Type 0} ⦃key : Key K⦄ where
  unfoldable pub cache_row : K → Time → Cache K V → Option V → Option V × Cache K V
  cache_row k now c none = (none, c)
  cache_row k now c (some v) = (some v, set_cached c k v now)

  unfoldable pub cached_or : K → Time → Option V → Option V × Cache K V → Option V × Cache K V
  cached_or k now row (some v, c) = (some v, c)
  cached_or k now row (none, c) = cache_row k now c row

  -- The head of LookupByPlaintext and of GetRouteBySlug: the cache, or else the row, which is cached.
  unfoldable pub read_through : Cache K V → K → Time → Option V → Option V × Cache K V
  read_through c k now row = cached_or k now row (get_cached c k now)
