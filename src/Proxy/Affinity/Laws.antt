-- ===== src/Proxy/Affinity/Laws.antt =====
-- What internal/proxy/affinity.go remembers, and for how long.
use openllms.Prelude.{
  inl, inr, Bool-cases, true, false, if◌then◌else◌, Text, is_empty, text_eq, ◌≡◌, ◌≢◌, arith,
  text_eq_refl, eq-text_eq,
}
use openllms.Assoc.{text_instance, lookup-insert, lookup-delete}
use openllms.Number.{Time, time_add, after}
use openllms.Account.{Uuid, uuid_nil}
use openllms.Proxy.Affinity.{Affinity, AffinityEntry, get_affinity, set_affinity}

-- After a Set of a session that is not empty and of an account that is not the zero uuid, a Get of
-- that session at any time returns the account, and none where the entry's time is over then; a
-- Get of any other session returns what it returned before.
pub get_affinity-set_affinity :
    (a : Affinity) (key other : Text) (account : Uuid) (t0 t : Time)
    → is_empty key ≡ false
    → account ≢ uuid_nil
    → (get_affinity (set_affinity a key account t0) other t).0 ≡ (
        if text_eq key other
        then (if after t (time_add t0 a.ttl) then (uuid_nil, false) else (account, true))
        else (get_affinity a other t).0)
unfolding get_affinity set_affinity
get_affinity-set_affinity a key other account t0 t h n = elim (Bool-cases (text_eq key other)) [
  | inl e ↦
      let found = lookup-insert key other entry a.m in
      rw e (ground (arith, found, eq-text_eq key other, text_eq_refl key))
  | inr e ↦ let found = lookup-insert key other entry a.m in rw e (ground (arith, found))
]
  where
    entry : AffinityEntry
    entry = record { account_id = account; expires = time_add t0 a.ttl }

-- What Get forgets does not change what a later Get at the same time returns, of the same session
-- or of any other.
get_affinity_again :
    (a : Affinity) (key other : Text) (t : Time)
    → (get_affinity (get_affinity a key t).1 other t).0 ≡ (get_affinity a other t).0
unfolding get_affinity
get_affinity_again a key other t = ground (arith, lookup-delete key other a.m, eq-text_eq key other)
