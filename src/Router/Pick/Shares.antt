-- ===== src/Router/Pick/Shares.antt =====
-- `pickWeighted` gives every seat its share of the draws.
use openllms.Prelude.{
  ℕ, zero, suc, ◌+◌, ◌-◌, ◌≤◌, ◌<◌, List, [], ◌∷◌, ◌++◌, ltb, ◌≡◌, refl, inl, inr, Bool-cases,
  arith, ap,
}
use openllms.Prelude.Int.{ℤ, pos, negsuc}
use openllms.Account.{Account}
use openllms.Router.Selector.{Selector, intn}
use openllms.Router.Pick.{seat_weight, total_weight, draw, pick_weighted}
use native.Mathlib.Nat.{mod-lt, zero-add}

seat_weight_pos : (z : ℤ) → 0 < seat_weight z
unfolding seat_weight
seat_weight_pos (pos zero) = omega arith
seat_weight_pos (pos (suc n)) = omega arith
seat_weight_pos (negsuc n) = omega arith

-- `Intn` draws below its bound.
pub intn-lt : (state n : ℕ) → 0 < n → (intn state n).0 < n
unfolding intn
intn-lt state n h = ground (arith, mod-lt _ h)

module _ {F : Type 0} where
  -- The weights of a list, added up.
  abbrev pub weights : List (Account F) → ℕ
  weights [] = 0
  weights (a ∷ xs) = seat_weight a.weight + weights xs

  total_weight-eq : (t : ℕ) (xs : List (Account F)) → total_weight t xs ≡ t + weights xs
  unfolding total_weight
  total_weight-eq t [] = omega arith
  total_weight-eq t (a ∷ xs) = omega (arith, total_weight-eq (t + seat_weight a.weight) xs)

  -- What a draw below the total weight lands on: the seat whose share contains it.
  pub record Share (xs : List (Account F)) (r : ℕ) (w : Account F) : Type 0 where
    pub before : List (Account F)
    pub behind : List (Account F)
    pub split : xs ≡ before ++ (w ∷ behind)
    pub above : weights before ≤ r
    pub below : r < weights before + seat_weight w.weight

  draw-Share :
      (r : ℕ) (last : Account F) (xs : List (Account F))
      → r < weights xs
      → Share xs r (draw r last xs)
  unfolding draw
  draw-Share r last [] h = absurd (omega arith)
  draw-Share r last (a ∷ xs) h = elim (Bool-cases (ltb r (seat_weight a.weight))) [
    | inl e ↦ rw e (record {
      before = [];
      behind = xs;
      split = refl;
      above = omega arith;
      below = ground arith;
    })
    | inr e ↦
        let share = draw-Share (r - seat_weight a.weight) a xs (ground arith) in
        rw e (record {
          before = a ∷ share.before;
          behind = share.behind;
          split = ap (◌∷◌ a) share.split;
          above = ground (arith, share.above);
          below = ground (arith, share.below);
        })
  ]

  -- pickWeighted draws a number below the sum of the weights (1 for a weight that is not positive)
  -- and returns the seat whose share contains it.
  pub pick_weighted-Share :
      (s : Selector) (a : Account F) (rest : List (Account F))
      → let r = (intn s.rand (weights (a ∷ rest))).0 in
        (r < weights (a ∷ rest)) × Share (a ∷ rest) r (pick_weighted s a rest).0
  unfolding pick_weighted
  pick_weighted-Share s a rest =
      let lt = intn-lt s.rand (weights (a ∷ rest)) (omega (arith, seat_weight_pos a.weight)) in
      (lt, rw (total_weight-eq 0 (a ∷ rest), zero-add) (draw-Share _ a (a ∷ rest) lt))
