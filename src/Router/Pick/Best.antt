-- ===== src/Router/Pick/Best.antt =====
-- The shape that the picking loops share: walk a list, keep the best so far, replace it when the next
-- element is better. On a strict weak order the result is the first of the best elements.
use openllms.Prelude.{
  List, [], ◌∷◌, ◌++◌, Bool, true, false, if◌then◌else◌, ◌≡◌, ◌⊎◌, inl, inr, All, All-append,
  Bool-cases, arith,
}
use mathlib.Core.List.{append-nil, append_assoc}

module _ {ℓ} {A : Type ℓ} (better : A → A → Bool) where
  unfoldable pub best_from : A → List A → A
  best_from best [] = best
  best_from best (a ∷ rest) = best_from (if better a best then a else best) rest

  -- `w` is better than all that stand before it, and nothing behind it is better than `w`.
  pub record IsFirstBest (w : A) (xs : List A) : Type ℓ where
    pub before : List A
    pub behind : List A
    pub split : xs ≡ before ++ (w ∷ behind)
    pub beats : All (λ a. better w a ≡ true) before
    pub unbeaten : All (λ a. better a w ≡ false) behind

  module _ {κ} (P : A → Type κ)
      (trans : (a b c : A)
        → P a
        → P b
        → P c
        → better a b ≡ true
        → better b c ≡ true
        → better a c ≡ true)
      (cotrans : (a b c : A)
        → P a
        → P b
        → P c
        → better a c ≡ true
        → (better a b ≡ true) ⊎ (better b c ≡ true)) where
    beats_behind :
        (a w : A) (ys : List A)
        → P a
        → P w
        → All P ys
        → better a w ≡ true
        → All (λ y. better y w ≡ false) ys
        → All (λ y. better a y ≡ true) ys
    beats_behind a w [] pa pw h ab un = tt
    beats_behind a w (y ∷ ys) pa pw h ab un = (
      elim (cotrans a y w pa h.0 pw ab) [ inl e ↦ e | inr e ↦ absurd (ground arith) ],
      beats_behind a w ys pa pw h.1 ab un.1,
    )

    beats_before :
        (a w : A) (xs : List A)
        → P a
        → P w
        → All P xs
        → better a w ≡ true
        → All (λ x. better w x ≡ true) xs
        → All (λ x. better a x ≡ true) xs
    beats_before a w [] pa pw h ab bt = tt
    beats_before a w (x ∷ xs) pa pw h ab bt =
        (trans a w x pa pw h.0 ab bt.0, beats_before a w xs pa pw h.1 ab bt.1)

    best_from_invariant :
        (w : A) (before behind rest : List A)
        → P w
        → All P before
        → All P behind
        → All P rest
        → All (λ a. better w a ≡ true) before
        → All (λ a. better a w ≡ false) behind
        → IsFirstBest (best_from w rest) (before ++ (w ∷ (behind ++ rest)))
    unfolding best_from
    best_from_invariant w before behind [] pw hb hh hr bt un = record {
      before = before;
      behind = behind;
      split = rw (append-nil behind);
      beats = bt;
      unbeaten = un;
    }
    best_from_invariant w before behind (a ∷ rest) pw hb hh hr bt un =
        elim (Bool-cases (better a w)) [
          | inl e ↦ rw e (
              rw append_assoc at (
                best_from_invariant a (before ++ (w ∷ behind)) [] rest hr.0
                  (All-append P before (w ∷ behind) hb (pw, hh)) tt hr.1
                  (All-append _ before (w ∷ behind) (beats_before a w before hr.0 pw hb e bt)
                    (e, beats_behind a w behind hr.0 pw hh e un))
                  tt))
          | inr e ↦ rw e (
              rw append_assoc at (
                best_from_invariant w before (behind ++ (a ∷ [])) rest pw hb
                  (All-append P behind (a ∷ []) hh (hr.0, tt)) hr.1 bt
                  (All-append _ behind (a ∷ []) un (e, tt))))
        ]

    pub best_from_first :
        (w : A) (rest : List A) → P w → All P rest → IsFirstBest (best_from w rest) (w ∷ rest)
    best_from_first w rest pw h = best_from_invariant w [] [] rest pw tt tt h tt tt
