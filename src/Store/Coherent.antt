-- ===== src/Store/Coherent.antt =====
-- The caches of internal/store/store.go: when what a cache holds is what the table holds.
use openllms.Prelude.{
  ◌≡◌, Option, none, some, true, false, arith, refl, sym, ap, ◌∙◌, inl, inr, Bool-cases,
  Option-cases,
}
use openllms.Assoc.{Key, lookup, lookup-insert, lookup-delete}
use openllms.Number.{Time, Duration, time_add, after}
use openllms.Cache.{
  Cache, Entry, new_cache, enabled, get_live, get_cached, set_cached, delete_cached,
}
use openllms.Cache.Runs.{get_cached-off, get_cached-missing, get_cached-live, get_cached-old}
use openllms.Store.{cache_row, cached_or, read_through}

module _ {V : Type 0} where
  abbrev value_of : Option (Entry V) → Option V
  value_of none = none
  value_of (some e) = some e.v

module _ {K V : Type 0} ⦃key : Key K⦄ where
  open key use {same, same_iff}

  -- Every entry of the cache, live or not, is the row that the table has under the key.
  pub Coherent : (K → Option V) → Cache K V → Type 0
  Coherent row c =
      (k : K) (e : Entry V) → enabled c ≡ true → lookup k c.m ≡ some e → row k ≡ some e.v

  pub Coherent-new_cache : (row : K → Option V) (ttl : Duration) → Coherent row (new_cache ttl)
  unfolding Coherent new_cache lookup
  Coherent-new_cache row ttl = λ k e on found. ground arith

  -- A table that still has the rows it had.
  pub Coherent-wider :
      (row row' : K → Option V) (c : Cache K V)
      → ((k : K) (v : V) → row k ≡ some v → row' k ≡ some v)
      → Coherent row c
      → Coherent row' c
  unfolding Coherent
  Coherent-wider row row' c more h = λ k e on found. more k e.v (h k e on found)

  pub Coherent-delete_cached :
      (row row' : K → Option V) (c : Cache K V) (gone : K)
      → ((k : K) → same gone k ≡ false → row' k ≡ row k)
      → Coherent row c
      → Coherent row' (delete_cached c gone)
  unfolding Coherent delete_cached enabled
  Coherent-delete_cached row row' c gone kept h = λ k e on found.
      let found' = rw (lookup-delete gone k c.m) at (found) in
      elim (Bool-cases (same gone k)) [
        | inl s ↦ let none' = rw s at (found') in ground arith
        | inr s ↦ let there = rw s at (found') in kept k s ∙ h k e on there
      ]

  pub Coherent-set_cached :
      (row row' : K → Option V) (c : Cache K V) (k : K) (v : V) (now : Time)
      → ((j : K) → same k j ≡ false → row' j ≡ row j)
      → row' k ≡ some v
      → Coherent row c
      → Coherent row' (set_cached c k v now)
  unfolding Coherent set_cached
  Coherent-set_cached row row' c k v now kept own h = λ j e on found.
      elim (Bool-cases (enabled c)) [
        | inr off ↦ let off' = rw off at (on) in ground (arith, off)
        | inl on' ↦
            let entry : Entry V = record { v = v; exp = time_add now c.ttl } in
            let there = rw on' at (found) in
            let there' = rw (lookup-insert k j entry c.m) at (there) in
            elim (Bool-cases (same k j)) [
              | inl s ↦
                  let held = rw s at (there') in
                  rw (sym ((same_iff k j).0 s)) (own ∙ ap value_of held)
              | inr s ↦ let held = rw s at (there') in kept j s ∙ h j e on' held
            ]
      ]

  pub Coherent-get_cached :
      (row : K → Option V) (c : Cache K V) (k : K) (now : Time)
      → Coherent row c
      → Coherent row (get_cached c k now).1
  Coherent-get_cached row c k now h = elim (Bool-cases (enabled c)) [
    | inr off ↦ rw (get_cached-off c k now off) h
    | inl on ↦ elim (Option-cases (lookup k c.m)) [
      | inl e ↦ rw (get_cached-missing c k now e) h
      | inr (x, e) ↦ elim (Bool-cases (after now x.exp)) [
        | inr live ↦ rw (get_cached-live c k x now e live) h
        | inl old ↦
            rw (get_cached-old c k x now on e old)
              (Coherent-delete_cached row row c k (λ j s. refl) h)
      ]
    ]
  ]

  pub row-get_cached :
      (row : K → Option V) (c : Cache K V) (k : K) (now : Time) (v : V)
      → Coherent row c
      → (get_cached c k now).0 ≡ some v
      → row k ≡ some v
  unfolding Coherent get_cached get_live
  row-get_cached row c k now v h found = elim (Bool-cases (enabled c)) [
    | inr off ↦ let off' = rw off at (found) in ground arith
    | inl on ↦ elim (Option-cases (lookup k c.m)) [
      | inl e ↦ let none' = rw (on, e) at (found) in ground arith
      | inr (x, e) ↦ elim (Bool-cases (after now x.exp)) [
        | inl old ↦ let none' = rw (on, e, old) at (found) in ground arith
        | inr live ↦ let held = rw (on, e, live) at (found) in h k x on e ∙ held
      ]
    ]
  ]

  cached_or_row :
      (row : K → Option V) (k : K) (now : Time) (p : Option V × Cache K V)
      → ((v : V) → p.0 ≡ some v → row k ≡ some v)
      → Coherent row p.1
      → ((cached_or k now (row k) p).0 ≡ row k) × Coherent row (cached_or k now (row k) p).1
  unfolding cached_or cache_row
  cached_or_row row k now (some v, c) held h = (sym (held v refl), h)
  cached_or_row row k now (none, c) held h = elim (Option-cases (row k)) [
    | inl e ↦ rw e (refl, h)
    | inr (v, e) ↦ rw e (refl, Coherent-set_cached row row c k v now (λ j s. refl) e h)
  ]

  -- Over a coherent cache a read gives the row, and the cache stays coherent.
  pub read_through_row :
      (row : K → Option V) (c : Cache K V) (k : K) (now : Time)
      → Coherent row c
      → ((read_through c k now (row k)).0 ≡ row k) × Coherent row (read_through c k now (row k)).1
  unfolding read_through
  read_through_row row c k now h =
      cached_or_row row k now (get_cached c k now) (λ v. row-get_cached row c k now v h)
        (Coherent-get_cached row c k now h)
