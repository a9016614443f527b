-- ===== src/Assoc.antt =====
-- Go maps as association lists, over keys with a Boolean equality: `m[k]`, `m[k] = v`, `delete(m, k)`.
use openllms.Prelude.Int.{ℤ, pos, negsuc}
use openllms.Prelude.{
  false, ℕ, ◌≡◌, ◌↔◌, Bool, true, List, [], ◌∷◌, Option, none, some, arith, ◌==◌, ==_iff,
  if◌then◌else◌, Text, text_eq, text_eq_refl, eq-text_eq,
}

-- A key type of a map: a Boolean test that decides equality.
pub record Key {κ} (K : Type κ) : Type κ where
  pub same : K → K → Bool
  pub same_iff : (j k : K) → (same j k ≡ true) ↔ (j ≡ k)

instance abbrev pub nat_eq : Key ℕ
nat_eq = record { same = ◌==◌; same_iff = ==_iff }

pub text_eq_iff : (s t : Text) → (text_eq s t ≡ true) ↔ (s ≡ t)
text_eq_iff s t = (eq-text_eq s t, λ e. rw e (text_eq_refl t))

instance abbrev pub text_instance : Key Text
text_instance = record { same = text_eq; same_iff = text_eq_iff }

unfoldable pub int_same : ℤ → ℤ → Bool
int_same (pos a) (pos b) = a == b
int_same (negsuc a) (negsuc b) = a == b
int_same _ _ = false

pub int_same_iff : (a b : ℤ) → (int_same a b ≡ true) ↔ (a ≡ b)
unfolding int_same
int_same_iff a b = ground arith

instance abbrev pub int_instance : Key ℤ
int_instance = record { same = int_same; same_iff = int_same_iff }

module _ {κ ℓ} {K : Type κ} {V : Type ℓ} ⦃key : Key K⦄ where
  open key use {same, same_iff}

  unfoldable pub lookup : K → List (K × V) → Option V
  lookup wanted [] = none
  lookup wanted (entry ∷ rest) =
      let found = lookup wanted rest in if same entry.0 wanted then some entry.1 else found

  unfoldable pub insert : K → V → List (K × V) → List (K × V)
  insert at value [] = (at, value) ∷ []
  insert at value (entry ∷ rest) =
      let later = insert at value rest in
      if same entry.0 at then (at, value) ∷ rest else entry ∷ later

  unfoldable pub delete : K → List (K × V) → List (K × V)
  delete gone [] = []
  delete gone (entry ∷ rest) =
      let kept = delete gone rest in if same entry.0 gone then kept else entry ∷ kept

  -- Reading behind a write: the written value under its own key, and else what was there.
  pub lookup-insert :
      (at wanted : K) (value : V) (m : List (K × V))
      → lookup wanted (insert at value m) ≡ (if same at wanted then some value else lookup wanted m)
  unfolding lookup insert
  lookup-insert at wanted value [] = ground arith
  lookup-insert at wanted value (entry ∷ rest) =
      let ih = lookup-insert at wanted value rest in
      ground (arith, ih, same_iff at wanted, same_iff entry.0 at, same_iff entry.0 wanted)

  pub lookup-delete :
      (gone wanted : K) (m : List (K × V))
      → lookup wanted (delete gone m) ≡ (if same gone wanted then none else lookup wanted m)
  unfolding lookup delete
  lookup-delete gone wanted [] = ground arith
  lookup-delete gone wanted (entry ∷ rest) =
      let ih = lookup-delete gone wanted rest in
      ground (arith, ih, same_iff gone wanted, same_iff entry.0 gone, same_iff entry.0 wanted)
