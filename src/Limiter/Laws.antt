-- ===== src/Limiter/Laws.antt =====
-- How many calls internal/ratelimit/limiter.go lets through.
use openllms.Prelude.{
  ℕ, ◌⊎◌, suc, ◌+◌, ◌*◌, ◌-◌, ◌≤◌, ◌<◌, ◌≡◌, List, [], ◌∷◌, Option, none, some, true, false, ◌&&◌,
  if◌then◌else◌, Text, text_eq, text_eq_refl, eq-text_eq, arith, min, All, Option-cases, inl, inr,
  Bool-cases, ltb, ◌∙◌,
}
use openllms.Prelude.Int.{ℤ, pos}
use openllms.Assoc.{lookup, text_instance, lookup-insert}
use openllms.Number.{Time}
use openllms.Limiter.{
  Bucket, MemoryLimiter, put_bucket, limit_or_default, allow_bucket, allow_with_limit,
}

-- The calls of one key in a run of calls.
pub calls_of : Text → List (Text × Time) → ℕ
calls_of key [] = 0
calls_of key ((k, now) ∷ calls) =
    let rest = calls_of key calls in if text_eq k key then suc rest else rest

-- How many calls of one key a run of calls lets through.
pub let_through : List (Text × Time) → MemoryLimiter → Text → ℤ → ℕ
let_through [] m key limit = 0
let_through ((k, now) ∷ calls) m key limit =
    let (ok, m') = allow_with_limit m k limit now in
    let rest = let_through calls m' key limit in if ok && text_eq k key then suc rest else rest

abbrev pub Before : Time → List (Text × Time) → Type 0
Before end calls = All (λ c. c.1 < end) calls

-- A call of another key does not touch the bucket of the key.
other_key :
    (m : MemoryLimiter) (k key : Text) (limit : ℤ) (now : Time)
    → text_eq k key ≡ false
    → (lookup key (allow_with_limit m k limit now).1.buckets ≡ lookup key m.buckets)
      × ((allow_with_limit m k limit now).1.window ≡ m.window)
unfolding allow_with_limit allow_bucket put_bucket
other_key m k key limit now h = elim (Option-cases (lookup k m.buckets)) [
  | inl e ↦ rw e (ground (arith, lookup-insert k key (record { start = now; count = 1 }) m.buckets))
  | inr (b, e) ↦
      let reset = lookup-insert k key (record { start = now; count = 1 }) m.buckets in
      let counted = lookup-insert k key (record b { count = b.count + 1 }) m.buckets in
      rw e (ground (arith, reset, counted))
]

-- The bucket behind a call within its window.
abbrev counted : Bucket → ℕ → Bucket
counted b n = if ltb b.count n then record b { count = b.count + 1 } else b

-- A call of the key within the window of its bucket.
same_key :
    (m : MemoryLimiter) (k key : Text) (n w : ℕ) (now : Time) (b : Bucket)
    → text_eq k key ≡ true
    → 1 ≤ n
    → m.window ≡ pos w
    → lookup key m.buckets ≡ some b
    → now < b.start + w
    → let r = allow_with_limit m k (pos n) now in
      (r.0 ≡ ltb b.count n) × ((lookup key r.1.buckets ≡ some (counted b n)) × (r.1.window ≡ pos w))
unfolding allow_with_limit allow_bucket put_bucket limit_or_default
same_key m k key n w now b t h hw e lt =
    let next = lookup-insert key key (record b { count = b.count + 1 }) m.buckets in
    rw (eq-text_eq k key t) (rw e (ground (arith, next, text_eq_refl key)))

-- While the window of a key's bucket is open, for a positive limit that its count does not exceed,
-- exactly the calls that are left of the limit pass, in any interleaving with the calls of other
-- keys.
let_through_in_window :
    (calls : List (Text × Time)) (m : MemoryLimiter) (key : Text) (n w end : ℕ) (b : Bucket)
    → 1 ≤ n
    → m.window ≡ pos w
    → lookup key m.buckets ≡ some b
    → b.count ≤ n
    → end ≤ b.start + w
    → Before end calls
    → let_through calls m key (pos n) ≡ min (n - b.count) (calls_of key calls)
unfolding let_through calls_of
let_through_in_window [] m key n w end b h hw e c until l = ground arith
let_through_in_window ((k, now) ∷ calls) m key n w end b h hw e c until (l, ls) =
    let m' : MemoryLimiter = (allow_with_limit m k (pos n) now).1 in
    elim (Bool-cases (text_eq k key)) [
      | inl t ↦
          let (ok, (e', hw')) = same_key m k key n w now b t h hw e (omega arith) in
          let ih =
            let_through_in_window calls m' key n w end (counted b n) h hw' e' (ground arith)
              (ground arith) ls in
          ground (arith, ih, t, ok)
      | inr t ↦
          let s = other_key m k key (pos n) now t in
          let ih = let_through_in_window calls m' key n w end b h (s.1 ∙ hw) (s.0 ∙ e) c until ls in
          ground (arith, ih, t)
    ]

-- Where the key has no bucket yet: the first call opens it.
opens :
    (m : MemoryLimiter) (k key : Text) (n w : ℕ) (now : Time)
    → text_eq k key ≡ true
    → m.window ≡ pos w
    → lookup key m.buckets ≡ none
    → let r = allow_with_limit m k (pos n) now in
      (r.0 ≡ true)
      × ((lookup key r.1.buckets ≡ some (record { start = now; count = 1 })) × (r.1.window ≡ pos w))
unfolding allow_with_limit allow_bucket put_bucket limit_or_default
opens m k key n w now t hw e =
    let next = lookup-insert key key (record { start = now; count = 1 }) m.buckets in
    rw (eq-text_eq k key t) (rw e (ground (arith, next, text_eq_refl key)))

-- A call of the key at any state: it is let through and opens a window, or its bucket stays.
any_call :
    (m : MemoryLimiter) (k key : Text) (n w : ℕ) (now : Time) (b : Bucket)
    → text_eq k key ≡ true
    → 1 ≤ n
    → m.window ≡ pos w
    → lookup key m.buckets ≡ some b
    → let r = allow_with_limit m k (pos n) now in
      (r.1.window ≡ pos w)
      × (((r.0 ≡ true) × (lookup key r.1.buckets ≡ some (record { start = now; count = 1 })))
          ⊎ ((r.0 ≡ ltb b.count n) × (lookup key r.1.buckets ≡ some (counted b n))))
unfolding allow_with_limit allow_bucket put_bucket limit_or_default
any_call m k key n w now b t h hw e =
    let fresh = lookup-insert key key (record { start = now; count = 1 }) m.buckets in
    let next = lookup-insert key key (record b { count = b.count + 1 }) m.buckets in
    rw (eq-text_eq k key t) (rw e (ground (arith, fresh, next, text_eq_refl key)))

abbrev pub Within : Time → Time → List (Text × Time) → Type 0
Within from end calls = All (λ c. (from ≤ c.1) × (c.1 < end)) calls

Within-Before :
    (from end : Time) (calls : List (Text × Time)) → Within from end calls → Before end calls
Within-Before from end [] h = tt
Within-Before from end (c ∷ calls) ((_, h), hs) = (h, Within-Before from end calls hs)

-- From any bucket, a span of a window's length sees the calls left of the limit, and then a whole limit.
from_bucket :
    (calls : List (Text × Time)) (m : MemoryLimiter) (key : Text) (n w from : ℕ) (b : Bucket)
    → 1 ≤ n
    → m.window ≡ pos w
    → lookup key m.buckets ≡ some b
    → b.count ≤ n
    → Within from (from + w) calls
    → let_through calls m key (pos n) ≤ (n - b.count) + n
unfolding let_through calls_of
from_bucket [] m key n w from b h hw e c l = omega arith
from_bucket ((k, now) ∷ calls) m key n w from b h hw e c ((f, l), ls) =
    let m' : MemoryLimiter = (allow_with_limit m k (pos n) now).1 in
    elim (Bool-cases (text_eq k key)) [
      | inl t ↦
          let (hw', cases) = any_call m k key n w now b t h hw e in
          elim cases [
            | inl (ok, e') ↦
                let ih =
                  let_through_in_window calls m' key n w (from + w)
                    (record { start = now; count = 1 }) h hw' e' h (omega arith)
                    (Within-Before from (from + w) calls ls) in
                ground (arith, ih, t, ok)
            | inr (ok, e') ↦
                let ih =
                  from_bucket calls m' key n w from (counted b n) h hw' e' (ground arith) ls in
                ground (arith, ih, t, ok)
          ]
      | inr t ↦
          let s = other_key m k key (pos n) now t in
          let ih = from_bucket calls m' key n w from b h (s.1 ∙ hw) (s.0 ∙ e) c ls in
          ground (arith, ih, t)
    ]

from_none :
    (calls : List (Text × Time)) (m : MemoryLimiter) (key : Text) (n w from : ℕ)
    → 1 ≤ n
    → m.window ≡ pos w
    → lookup key m.buckets ≡ none
    → Within from (from + w) calls
    → let_through calls m key (pos n) ≤ n
unfolding let_through calls_of
from_none [] m key n w from h hw e l = omega arith
from_none ((k, now) ∷ calls) m key n w from h hw e ((f, l), ls) =
    let m' : MemoryLimiter = (allow_with_limit m k (pos n) now).1 in
    elim (Bool-cases (text_eq k key)) [
      | inl t ↦
          let (ok, (e', hw')) = opens m k key n w now t hw e in
          let ih =
            let_through_in_window calls m' key n w (from + w) (record { start = now; count = 1 }) h
              hw' e' h (omega arith) (Within-Before from (from + w) calls ls) in
          ground (arith, ih, t, ok)
      | inr t ↦
          let s = other_key m k key (pos n) now t in
          let ih = from_none calls m' key n w from h (s.1 ∙ hw) (s.0 ∙ e) ls in
          ground (arith, ih, t)
    ]

abbrev pub CountUpTo : ℕ → Option Bucket → Type 0
CountUpTo n none = Unit
CountUpTo n (some b) = b.count ≤ n

-- In any span as long as the window at most twice the limit of a key's calls pass, for a positive
-- limit and whatever the calls of other keys, where the key's bucket counts no more than the limit
-- at the start.
pub let_through_bounded :
    (calls : List (Text × Time)) (m : MemoryLimiter) (key : Text) (n w from : ℕ)
    → 1 ≤ n
    → m.window ≡ pos w
    → CountUpTo n (lookup key m.buckets)
    → Within from (from + w) calls
    → let_through calls m key (pos n) ≤ 2 * n
let_through_bounded calls m key n w from h hw c ls = elim (Option-cases (lookup key m.buckets)) [
  | inl e ↦ ground (arith, from_none calls m key n w from h hw e ls)
  | inr (b, e) ↦ ground (arith, from_bucket calls m key n w from b h hw e (rw e at c) ls)
]
