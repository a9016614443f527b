-- ===== src/Number.antt =====
-- Numbers of the program: Go's int64 arithmetic, time and durations, and float64 as an interface.
use openllms.Prelude.{
  ℕ, ◌+◌, ◌-◌, ◌%◌, ◌^◌, ◌≡◌, ◌⊎◌, Bool, true, false, not, arith, ltb, if◌then◌else◌,
}
use openllms.Prelude.Int.{ℤ, pos, negsuc, sub_ℕ, pos_part, neg_part}

-- The bit pattern of an integer in 64 bits, and the int64 of a bit pattern.
abbrev pub to_bits64 : ℤ → ℕ
to_bits64 (pos n) = n % 2 ^ 64
to_bits64 (negsuc n) = 2 ^ 64 - 1 - n % 2 ^ 64

abbrev pub of_bits64 : ℕ → ℤ
of_bits64 u = if ltb u (2 ^ 63) then pos u else negsuc (2 ^ 64 - 1 - u)

-- Two's complement wrap-around of int64 arithmetic.
unfoldable pub wrap64 : ℤ → ℤ
wrap64 z = of_bits64 (to_bits64 z)

-- A value in the range of int64 is kept.
pub wrap64-pos : (n : ℕ) → ltb n (2 ^ 63) ≡ true → wrap64 (pos n) ≡ pos n
unfolding wrap64
wrap64-pos n h = ground arith

-- A time.Time in nanoseconds, and a time.Duration (an int64 of nanoseconds).
abbrev pub Time : Type 0
Time = ℕ

abbrev pub Duration : Type 0
Duration = ℤ

abbrev pub second : ℕ
second = 1000000000

-- `t.Sub(u)`. (Go saturates at 292 years, beyond every span that the program compares.)
abbrev pub time_sub : Time → Time → Duration
time_sub t u = sub_ℕ t u

-- `t.Add(d)`.
abbrev pub time_add : Time → Duration → Time
time_add t d = t + pos_part d - neg_part d

-- `t.Before(u)` and `t.After(u)`.
abbrev pub before : Time → Time → Bool
before t u = ltb t u

abbrev pub after : Time → Time → Bool
after t u = ltb u t

-- float64 with the operations that the program uses. The laws are those of IEEE 754 comparison:
-- `<` is a strict order, and total up to ties on what is not NaN.
pub record Float : Type 1 where
  pub F : Type 0
  pub lt : F → F → Bool
  pub le : F → F → Bool
  pub add : F → F → F
  pub sub : F → F → F
  pub mul : F → F → F
  pub div : F → F → F
  -- The literal n / d, and the conversions float64(n) and int(x).
  pub ratio : ℕ → ℕ → F
  pub of_int : ℤ → F
  pub to_int : F → ℤ
  pub neg_infinity : F
  pub is_nan : F → Bool
  pub lt_irrefl : (x : F) → lt x x ≡ false
  pub lt_trans : (x y z : F) → lt x y ≡ true → lt y z ≡ true → lt x z ≡ true
  pub lt_cotrans :
      (x y z : F) → is_nan y ≡ false → lt x z ≡ true → (lt x y ≡ true) ⊎ (lt y z ≡ true)
  pub le_lt : (x y : F) → is_nan x ≡ false → is_nan y ≡ false → le x y ≡ not (lt y x)
