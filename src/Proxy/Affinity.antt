-- ===== src/Proxy/Affinity.antt =====
-- internal/proxy/affinity.go: `Affinity`, the account that last served each session. (The engine never
-- calls its methods on a nil pointer.)
pub mod Laws
use openllms.Prelude.{
  ◌*◌, List, [], Option, none, some, Bool, true, false, ◌==◌, ◌||◌, if◌then◌else◌, Text, is_empty,
}
use openllms.Prelude.Int.{pos, ltb_ℤ}
use openllms.Assoc.{lookup, insert, delete, text_instance}
use openllms.Number.{Time, Duration, second, time_add, after}
use openllms.Account.{Uuid, uuid_nil}

pub record AffinityEntry : Type 0 where
  pub account_id : Uuid
  pub expires : Time

pub record Affinity : Type 0 where
  pub ttl : Duration
  pub m : List (Text × AffinityEntry)

abbrev pub default_affinity_ttl : Duration
default_affinity_ttl = pos (3600 * second)

-- `NewAffinity`.
unfoldable pub new_affinity : Duration → Affinity
new_affinity ttl = record { ttl = if ltb_ℤ (pos 0) ttl then ttl else default_affinity_ttl; m = [] }

abbrev miss : Affinity → (Uuid × Bool) × Affinity
miss a = ((uuid_nil, false), a)

-- `Get`; an entry that has expired is deleted.
unfoldable pub get_affinity : Affinity → Text → Time → (Uuid × Bool) × Affinity
get_affinity a key now = if is_empty key then miss a else elim (lookup key a.m) [
  | none ↦ miss a
  | some e ↦
      if after now e.expires
      then miss (record a { m = delete key a.m })
      else ((e.account_id, true), a)
]

-- `Set`.
unfoldable pub set_affinity : Affinity → Text → Uuid → Time → Affinity
set_affinity a key account now = if is_empty key || account == uuid_nil then a else record a {
  m = insert key (record { account_id = account; expires = time_add now a.ttl }) a.m;
}
