-- ===== src/Prelude/Strings.antt =====
-- Text as a list of code points, with the functions of Go's `strings` package that the program uses.
-- `to_lower` is exact wherever the result is ASCII (the Kelvin sign and the dotted capital I are the
-- two letters outside ASCII whose lower case is inside), and leaves every other code point as it is.
use Prim.Native.Nat.{ℕ, ◌+◌, compare, Ordering}
use Prim.Native.Char.{code}
use Prim.Native.String.{String}
use mathlib.Core.Path.{◌≡◌, refl}
use mathlib.Core.Bool.{Bool, true, false, ◌&&◌, ◌||◌, not}
use mathlib.Core.List.{List, [], ◌∷◌, map, reverse}
use native.Mathlib.Omega.{arith}

abbrev pub Text : Type 0
Text = List ℕ

-- The code points of a literal.
abbrev pub lit : String → Text
lit String.[] = []
lit (String.◌∷◌ c s) = code c ∷ lit s

abbrev code_eq : ℕ → ℕ → Bool
code_eq a b = elim (compare a b) [ Ordering.eq ↦ true | _ ↦ false ]

abbrev code_le : ℕ → ℕ → Bool
code_le a b = elim (compare a b) [ Ordering.gt ↦ false | _ ↦ true ]

unfoldable pub text_eq : Text → Text → Bool
text_eq [] [] = true
text_eq (a ∷ s) (b ∷ t) = code_eq a b && text_eq s t
text_eq _ _ = false

pub text_eq_refl : (s : Text) → text_eq s s ≡ true
unfolding text_eq
text_eq_refl [] = refl
text_eq_refl (a ∷ s) = ground (arith, text_eq_refl s)

pub eq-text_eq : (s t : Text) → text_eq s t ≡ true → s ≡ t
unfolding text_eq
eq-text_eq [] [] h = refl
eq-text_eq [] (b ∷ t) h = ground arith
eq-text_eq (a ∷ s) [] h = ground arith
eq-text_eq (a ∷ s) (b ∷ t) h = ground (arith, eq-text_eq s t)

-- `s == ""`.
unfoldable pub is_empty : Text → Bool
is_empty [] = true
is_empty (_ ∷ _) = false

-- `unicode.IsSpace`.
unfoldable pub is_space : ℕ → Bool
is_space c =
    code_le 9 c && code_le c 13
    || code_eq c 32
    || code_eq c 0x85
    || code_eq c 0xA0
    || code_eq c 0x1680
    || code_le 0x2000 c && code_le c 0x200A
    || code_eq c 0x2028
    || code_eq c 0x2029
    || code_eq c 0x202F
    || code_eq c 0x205F
    || code_eq c 0x3000

unfoldable pub trim_left : Text → Text
unfolding is_space
trim_left [] = []
trim_left (c ∷ s) = elim (is_space c) [ true ↦ trim_left s | false ↦ c ∷ s ]

-- `strings.TrimSpace`.
unfoldable pub trim_space : Text → Text
unfolding trim_left
trim_space s = reverse (trim_left (reverse (trim_left s)))

unfoldable pub lower_code : ℕ → ℕ
lower_code c = elim (code_le b'A' c && code_le c b'Z') [
  | true ↦ c + 32
  | false ↦ elim (code_eq c 0x212A) [
    | true ↦ b'k'
    | false ↦ elim (code_eq c 0x130) [ true ↦ b'i' | false ↦ c ]
  ]
]

-- `strings.ToLower`.
unfoldable pub to_lower : Text → Text
unfolding lower_code
to_lower = map lower_code

pub lower_code_idem : (c : ℕ) → lower_code (lower_code c) ≡ lower_code c
unfolding lower_code
lower_code_idem c = ground arith

pub to_lower_idem : (s : Text) → to_lower (to_lower s) ≡ to_lower s
unfolding to_lower
to_lower_idem [] = refl
to_lower_idem (c ∷ s) = ground (arith, lower_code_idem c, to_lower_idem s)

-- `strings.EqualFold` against a text of ASCII letters without k and s.
unfoldable pub equal_fold : Text → Text → Bool
unfolding to_lower text_eq
equal_fold s t = text_eq (to_lower s) (to_lower t)

unfoldable pub has_prefix : Text → Text → Bool
has_prefix s [] = true
has_prefix [] (_ ∷ _) = false
has_prefix (a ∷ s) (b ∷ t) = code_eq a b && has_prefix s t

-- `strings.Contains`.
unfoldable pub contains : Text → Text → Bool
unfolding has_prefix
contains [] t = has_prefix [] t
contains (a ∷ s) t = has_prefix (a ∷ s) t || contains s t

-- Membership of a list of texts.
unfoldable pub has : Text → List Text → Bool
has v [] = false
has v (s ∷ ss) = text_eq s v || has v ss

-- Whether no text occurs twice.
unfoldable pub distinct : List Text → Bool
distinct [] = true
distinct (x ∷ xs) = not (has x xs) && distinct xs

pub text_eq_sym : (s t : Text) → text_eq s t ≡ text_eq t s
unfolding text_eq
text_eq_sym [] [] = refl
text_eq_sym [] (b ∷ t) = refl
text_eq_sym (a ∷ s) [] = refl
text_eq_sym (a ∷ s) (b ∷ t) = ground (arith, text_eq_sym s t)
