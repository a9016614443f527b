-- ===== src/Router/Status/Backoff.antt =====
-- `ExponentialBackoff` doubles up to two minutes while its product fits an int64, and not beyond.
use openllms.Prelude.{
  ℕ, zero, suc, ◌^◌, ◌≤◌, ◌<◌, Bool, true, false, ◌&&◌, ◌||◌, ◌==◌, if◌then◌else◌, ltb, leb, ◌≡◌,
  refl, arith, inl, inr, Bool-cases,
}
use openllms.Prelude.Int.{ℤ, pos, negsuc, ◌*ℤ◌, ◌≤ℤ◌}
use openllms.Number.{Duration, wrap64}
use openllms.Router.Status.{seconds, two_minutes, cooldown_for_status, exponential_backoff}

-- Whether a table of the first levels holds, by evaluation.
table : (ℕ → Bool) → ℕ → Bool
table row zero = true
table row (suc top) = let lower = table row top in row top && lower

row_holds :
    (row : ℕ → Bool) (levels level : ℕ)
    → table row levels ≡ true
    → level < levels
    → row level ≡ true
unfolding table
row_holds row zero level h below = absurd (omega arith)
row_holds row (suc top) level h below = let ih = row_holds row top level in ground (arith, ih)

abbrev int_eq : ℤ → ℤ → Bool
int_eq (pos a) (pos b) = a == b
int_eq (negsuc a) (negsuc b) = a == b
int_eq _ _ = false

int_eq-eq : (a b : ℤ) → int_eq a b ≡ true → a ≡ b
int_eq-eq a b h = ground arith

-- What the backoff is meant to be: 2 ^ level seconds, and two minutes at most.
abbrev pub ideal_backoff : ℕ → Duration
ideal_backoff level = if ltb level 7 then seconds (2 ^ level) else two_minutes

exact_table : table (λ l. int_eq (exponential_backoff (pos l)) (ideal_backoff l)) 34 ≡ true
unfolding table exponential_backoff wrap64 ◌*ℤ◌
exact_table = refl

-- Up to level 33 the backoff is 2 ^ level seconds, cut off at two minutes.
exponential_backoff_exact :
    (level : ℕ) → level < 34 → exponential_backoff (pos level) ≡ ideal_backoff level
exponential_backoff_exact level h =
    int_eq-eq _ _ (
      row_holds (λ l. int_eq (exponential_backoff (pos l)) (ideal_backoff l)) 34 level exact_table
        h)

zero_table : table (λ l. ltb l 55 || int_eq (exponential_backoff (pos l)) (pos 0)) 63 ≡ true
unfolding table exponential_backoff wrap64 ◌*ℤ◌
zero_table = refl

-- From level 55 on the int64 product wraps around to zero, and the backoff is no wait at all.
exponential_backoff_wraps : (level : ℕ) → 55 ≤ level → exponential_backoff (pos level) ≡ pos 0
unfolding exponential_backoff wrap64 ◌*ℤ◌
exponential_backoff_wraps level h = elim (Bool-cases (ltb level 63)) [
  | inl e ↦ int_eq-eq _ _ (
      ground (
        arith,
        row_holds (λ l. ltb l 55 || int_eq (exponential_backoff (pos l)) (pos 0)) 63 level
            zero_table,
      ))
  | inr e ↦ rw e
]

pow_table : table (λ l. leb 1 (2 ^ l) && leb (2 ^ l) 64) 7 ≡ true
unfolding table
pow_table = refl

pow_range : (l : ℕ) → l < 7 → (1 ≤ 2 ^ l) × (2 ^ l ≤ 64)
pow_range l h = ground (arith, row_holds (λ l. leb 1 (2 ^ l) && leb (2 ^ l) 64) 7 l pow_table h)

ideal_backoff_range :
    (level : ℕ) → (seconds 1 ≤ℤ ideal_backoff level) × (ideal_backoff level ≤ℤ two_minutes)
ideal_backoff_range level = ground (arith, pow_range level)

cooldown_in_range :
    (status : ℕ) (level : ℤ)
    → seconds 1 ≤ℤ exponential_backoff level
    → exponential_backoff level ≤ℤ two_minutes
    → (seconds 1 ≤ℤ cooldown_for_status status level)
      × (cooldown_for_status status level ≤ℤ seconds 1800)
unfolding cooldown_for_status
cooldown_in_range status level lo hi = ground arith

-- Up to backoff level 33 every status puts a seat aside for one second to half an hour.
pub cooldown_for_status_bounds :
    (status level : ℕ)
    → level < 34
    → (seconds 1 ≤ℤ cooldown_for_status status (pos level))
      × (cooldown_for_status status (pos level) ≤ℤ seconds 1800)
cooldown_for_status_bounds status level h =
    let e = exponential_backoff_exact level h in
    let (lo, hi) = ideal_backoff_range level in
    cooldown_in_range status (pos level) (rw e lo) (rw e hi)
