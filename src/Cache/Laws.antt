-- ===== src/Cache/Laws.antt =====
-- What internal/ttlcache/ttlcache.go returns, and until when.
use openllms.Prelude.{none, some, ◌≡◌, arith, ◌&&◌, if◌then◌else◌}
use openllms.Assoc.{Key, lookup-insert, lookup-delete}
use openllms.Number.{Time, time_add, after}
use openllms.Cache.{Cache, Entry, enabled, get_live, get_cached, set_cached, delete_cached}

module _ {K V : Type 0} ⦃key : Key K⦄ where
  open key use {same, same_iff}

  -- A Get behind a Set returns the value under the key that was set while the entry lives and the cache
  -- is enabled, and under any other key what it returned before.
  pub get_cached-set_cached :
      (c : Cache K V) (k other : K) (val : V) (t0 t : Time)
      → (get_cached (set_cached c k val t0) other t).0 ≡ (
          if enabled c && same k other
          then (if after t (time_add t0 c.ttl) then none else some val)
          else (get_cached c other t).0)
  unfolding get_cached set_cached get_live enabled
  get_cached-set_cached c k other val t0 t =
      let entry : Entry V = record { v = val; exp = time_add t0 c.ttl } in
      ground (arith, lookup-insert k other entry c.m)

  -- A Get behind a Delete finds nothing under the key, and under any other what it found before.
  pub get_cached-delete_cached :
      (c : Cache K V) (k other : K) (t : Time)
      → (get_cached (delete_cached c k) other t).0
        ≡ (if same k other then none else (get_cached c other t).0)
  unfolding get_cached delete_cached get_live enabled
  get_cached-delete_cached c k other t = ground (arith, lookup-delete k other c.m)
