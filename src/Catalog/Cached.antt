-- ===== src/Catalog/Cached.antt =====
-- internal/modelcatalog/catalog.go: `forAccount` over its cache: an answer that was found is given again
-- without a call until the entry expires, and no seat is ok without models.
use openllms.Prelude.{
  ℕ, List, [], ◌∷◌, Option, none, some, Bool, true, false, ◌≡◌, refl, inl, inr, ◌||◌, ◌==◌, ==_iff,
  ◌&&◌, not, Text, lit, text_eq, arith, Bool-cases, Option-cases,
}
use openllms.Number.{Time, time_add, after}
use openllms.Account.{Account, Uuid}
use openllms.Assoc.{lookup, insert, delete, nat_eq, lookup-insert}
use openllms.Cache.{Cache, Entry, enabled, get_live, get_cached, set_cached}
use openllms.Oauth.{Outside, Fallible, ok, error}
use openllms.Catalog.{Model, AccountModels}
use openllms.Catalog.Parse.{Rows, fallback_models}
use openllms.Catalog.Requests.{ListRequest}
use openllms.Catalog.Discover.{
  CacheEntry, entry_for, or_fallback, from_entry, blank_models, for_account, discover_live,
}

no_models : List Model → Bool
no_models [] = true
no_models (_ ∷ _) = false

-- An entry is ok only with models, and a row likewise.
unfoldable pub entry_sound : CacheEntry → Bool
unfolding no_models
entry_sound e = not (text_eq e.status (lit "ok")) || not (no_models e.models)

unfoldable pub row_sound : AccountModels → Bool
unfolding no_models
row_sound am = not (text_eq am.status (lit "ok")) || not (no_models am.models)

-- Every entry of the cache is sound.
unfoldable pub cache_sound : List (Uuid × Entry CacheEntry) → Bool
cache_sound [] = true
cache_sound ((id, e) ∷ rest) = entry_sound e.v && cache_sound rest

or_fallback_sound :
    (ms : List Model) (live : Fallible (List Model)) → entry_sound (or_fallback ms live) ≡ true
unfolding entry_sound no_models text_eq
or_fallback_sound [] live = refl
or_fallback_sound (m ∷ ms) live = refl

entry_for_sound :
    {F : Type 0} (a : Account F) (live : Fallible (List Model))
    → entry_sound (entry_for a live) ≡ true
unfolding entry_sound entry_for no_models text_eq
entry_for_sound a (ok (m ∷ ms)) = refl
entry_for_sound a (ok []) = or_fallback_sound (fallback_models a.vendor a.auth_type) (ok [])
entry_for_sound a (error e) = or_fallback_sound (fallback_models a.vendor a.auth_type) (error e)

lookup_sound :
    (id : Uuid) (m : List (Uuid × Entry CacheEntry)) (e : Entry CacheEntry)
    → cache_sound m ≡ true
    → lookup id m ≡ some e
    → entry_sound e.v ≡ true
unfolding lookup cache_sound
lookup_sound id [] e s h = ground arith
lookup_sound id ((k, x) ∷ rest) e s h = ground (arith, lookup_sound id rest e)

insert_sound :
    (id : Uuid) (e : Entry CacheEntry) (m : List (Uuid × Entry CacheEntry))
    → cache_sound m ≡ true
    → entry_sound e.v ≡ true
    → cache_sound (insert id e m) ≡ true
unfolding insert cache_sound
insert_sound id e [] s h = rw h refl
insert_sound id e ((k, x) ∷ rest) s h = ground (arith, insert_sound id e rest)

delete_sound :
    (id : Uuid) (m : List (Uuid × Entry CacheEntry))
    → cache_sound m ≡ true
    → cache_sound (delete id m) ≡ true
unfolding delete cache_sound
delete_sound id [] s = refl
delete_sound id ((k, x) ∷ rest) s = ground (arith, delete_sound id rest)

from_entry_sound :
    {F : Type 0} (a : Account F) (e : CacheEntry)
    → entry_sound e ≡ true
    → row_sound (from_entry a e) ≡ true
unfolding entry_sound row_sound from_entry blank_models
from_entry_sound a e h = h

-- A read of a sound cache leaves it sound, and returns a sound entry.
get_cached_sound :
    (c : Cache Uuid CacheEntry) (id : Uuid) (now : Time)
    → cache_sound c.m ≡ true
    → cache_sound (get_cached c id now).1.m ≡ true
unfolding get_cached get_live
get_cached_sound c id now s = elim (Bool-cases (enabled c)) [
  | inr h ↦ rw h s
  | inl h ↦ elim (Option-cases (lookup id c.m)) [
    | inl e ↦ rw (h, e) s
    | inr (x, e) ↦ elim (Bool-cases (after now x.exp)) [
      | inl t ↦ rw (h, e, t) (delete_sound id c.m s)
      | inr t ↦ rw (h, e, t) s
    ]
  ]
]

got_sound :
    (c : Cache Uuid CacheEntry) (id : Uuid) (now : Time) (v : CacheEntry)
    → cache_sound c.m ≡ true
    → (get_cached c id now).0 ≡ some v
    → entry_sound v ≡ true
unfolding get_cached get_live
got_sound c id now v s g = elim (Option-cases (lookup id c.m)) [
  | inl e ↦ let g' = rw e at (g) in ground arith
  | inr (x, e) ↦ let g' = rw e at (g) in let h = lookup_sound id c.m x s e in ground (arith, h)
]

set_cached_sound :
    (c : Cache Uuid CacheEntry) (id : Uuid) (v : CacheEntry) (now : Time)
    → cache_sound c.m ≡ true
    → entry_sound v ≡ true
    → cache_sound (set_cached c id v now).m ≡ true
unfolding set_cached
set_cached_sound c id v now s h =
    let e : Entry CacheEntry = record { v = v; exp = time_add now c.ttl } in
    ground (arith, insert_sound id e c.m s h)

ttl-get_cached :
    (c : Cache Uuid CacheEntry) (id : Uuid) (now : Time) → (get_cached c id now).1.ttl ≡ c.ttl
unfolding get_cached get_live
ttl-get_cached c id now = elim (Option-cases (lookup id c.m)) [
  | inl e ↦ rw e (ground arith)
  | inr (x, e) ↦ rw e (ground arith)
]

enabled-ttl : (c1 c : Cache Uuid CacheEntry) → c1.ttl ≡ c.ttl → enabled c ≡ true → enabled c1 ≡ true
unfolding enabled
enabled-ttl c1 c e h = rw e h

-- A read behind a write, while the entry lives.
get_cached-hit :
    (c : Cache Uuid CacheEntry) (id : Uuid) (v : CacheEntry) (t0 t : Time)
    → enabled c ≡ true
    → after t (time_add t0 c.ttl) ≡ false
    → get_cached (set_cached c id v t0) id t ≡ (some v, set_cached c id v t0)
unfolding get_cached get_live set_cached
get_cached-hit c id v t0 t on live =
    let e : Entry CacheEntry = record { v = v; exp = time_add t0 c.ttl } in
    let found = lookup-insert id id e c.m in
    let c2 : Cache Uuid CacheEntry = record { ttl = c.ttl; m = insert id e c.m } in
    let same : (id == id) ≡ true = (==_iff id id).1 refl in
    rw (on, enabled-ttl c2 c refl on, found, same, live) refl

-- The models of a seat that is not cached: the live ones, or the known ones where there are none, and
-- the status they have.
abbrev models_or_known : Fallible (List Model) → List Model → List Model
models_or_known (ok (m ∷ ms)) known = m ∷ ms
models_or_known (ok []) known = known
models_or_known (error e) known = known

abbrev status_for : List Model → Text
status_for [] = lit "error"
status_for (_ ∷ _) = lit "ok"

-- The models and the status of a row, by whether there are secrets and by what the cache had.
unfoldable pub Shows :
    Bool → Option CacheEntry → Fallible (List Model) → List Model → AccountModels → Type 0
Shows false hit live known am = (am.models ≡ []) × (am.status ≡ lit "error")
Shows true (some v) live known am = (am.models ≡ v.models) × (am.status ≡ v.status)
Shows true none live known am =
    (am.models ≡ models_or_known live known) × (am.status ≡ status_for (models_or_known live known))

known_lem :
    {F : Type 0} (a : Account F) (known : List Model) (live : Fallible (List Model))
    → let am = from_entry a (or_fallback known live) in
      (am.models ≡ known) × (am.status ≡ status_for known)
unfolding from_entry
known_lem a [] live = (refl, refl)
known_lem a (k ∷ ks) live = (refl, refl)

fresh-Shows :
    {F : Type 0} (a : Account F) (live : Fallible (List Model))
    → Shows true none live (fallback_models a.vendor a.auth_type) (from_entry a (entry_for a live))
unfolding Shows from_entry entry_for
fresh-Shows a (ok (m ∷ ms)) = (refl, refl)
fresh-Shows a (ok []) = known_lem a (fallback_models a.vendor a.auth_type) (ok [])
fresh-Shows a (error e) = known_lem a (fallback_models a.vendor a.auth_type) (error e)

blank_sound :
    {F : Type 0} (a : Account F)
    → row_sound (record (blank_models a) { status = lit "error"; err = lit "secrets_unavailable" })
      ≡ true
unfolding row_sound blank_models no_models text_eq
blank_sound a = refl

module _ (out : Outside) (json : Rows)
    (do_http : ListRequest → out.W → Fallible (ℕ × Text) × out.W) where
  open out use {W, now}

  -- Over a sound cache, an account's row is ok only with models, and the cache stays sound.
  -- Without the secrets the row is an error without models; where the cache has the account, the
  -- row has its models and status; and else it has the live models, or the known list where the
  -- live one is missing or empty, and is ok exactly where that leaves some model.
  pub for_account_sound :
      {F : Type 0} (has_secrets : Bool) (a : Account F) (c : Cache Uuid CacheEntry) (w : W)
      → cache_sound c.m ≡ true
      → (row_sound (for_account out json do_http has_secrets a (c, w)).0 ≡ true)
        × (cache_sound (for_account out json do_http has_secrets a (c, w)).1.0.m ≡ true)
        × Shows has_secrets
            (get_cached c a.id (now w)).0
            (discover_live out json do_http a w).0
            (fallback_models a.vendor a.auth_type)
            (for_account out json do_http has_secrets a (c, w)).0
  unfolding for_account Shows from_entry blank_models
  for_account_sound false a c w s = (blank_sound a, s, (refl, refl))
  for_account_sound true a c w s =
      let c1 = (get_cached c a.id (now w)).1 in
      let s1 = get_cached_sound c a.id (now w) s in
      let (live, w1) = discover_live out json do_http a w in
      let fresh = entry_for_sound a live in
      elim (Option-cases (get_cached c a.id (now w)).0) [
        | inl e ↦ rw e (
          from_entry_sound a (entry_for a live) fresh,
          set_cached_sound c1 a.id (entry_for a live) (now w1) s1 fresh,
          fresh-Shows a live,
        )
        | inr (v, e) ↦
            rw e (from_entry_sound a v (got_sound c a.id (now w) v s e), s1, (refl, refl))
      ]

  -- Where the secrets are there and the first call misses an enabled cache, a second call for the
  -- account that comes before the entry of the first one expires gives the same row, and changes
  -- neither the cache nor the world: it calls neither the secrets nor the vendor.
  pub for_account-again :
      {F : Type 0} (a : Account F) (c : Cache Uuid CacheEntry) (w later : W)
      → enabled c ≡ true
      → (get_cached c a.id (now w)).0 ≡ none
      → after (now later) (time_add (now (for_account out json do_http true a (c, w)).1.1) c.ttl)
        ≡ false
      → let (am, (c1, w1)) = for_account out json do_http true a (c, w) in
        for_account out json do_http true a (c1, later) ≡ (am, (c1, later))
  unfolding for_account
  for_account-again a c w later on miss live =
      let c1 = (get_cached c a.id (now w)).1 in
      let (got, w1) = discover_live out json do_http a w in
      let kept = ttl-get_cached c a.id (now w) in
      let live' = rw miss at (live) in
      let hit =
        get_cached-hit c1 a.id (entry_for a got) (now w1) (now later) (enabled-ttl c1 c kept on)
          (rw kept live') in
      rw miss (rw hit refl)
