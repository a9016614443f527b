-- ===== src/Router/Pick/Quota.antt =====
-- `pickQuotaAware` returns the first of the seats with the most quota left, ties broken by the
-- earliest reset.
use openllms.Prelude.{
  List, [], ◌∷◌, Option, Bool, true, false, ◌||◌, if◌then◌else◌, ◌≡◌, ◌∙◌, refl, ◌⊎◌, inl, inr, All,
  Bool-cases, arith,
}
use openllms.Number.{Float, Time}
use openllms.Account.{Account}
use openllms.Router.Pick.{earlier_reset, quota_pct, quota_loop, pick_quota_aware}
use openllms.Router.Pick.Best.{best_from, IsFirstBest, best_from_first}

earlier_reset_trans :
    (t u v : Option Time)
    → earlier_reset t u ≡ true
    → earlier_reset u v ≡ true
    → earlier_reset t v ≡ true
unfolding earlier_reset
earlier_reset_trans t u v h k = ground arith

earlier_reset-cotrans :
    (t u v : Option Time)
    → earlier_reset t v ≡ true
    → (earlier_reset t u ≡ true) ⊎ (earlier_reset u v ≡ true)
unfolding earlier_reset
earlier_reset-cotrans t u v h = ground arith

module _ (fl : Float) where
  open fl use {F, lt, is_nan, lt_irrefl, lt_trans, lt_cotrans}

  -- More quota left, or as much and an earlier reset.
  abbrev lex : F → Option Time → F → Option Time → Bool
  lex x t y u = lt y x || (if lt x y then false else earlier_reset t u)

  lex_trans :
      (x y z : F) (t u v : Option Time)
      → is_nan x ≡ false
      → is_nan y ≡ false
      → is_nan z ≡ false
      → lex x t y u ≡ true
      → lex y u z v ≡ true
      → lex x t z v ≡ true
  lex_trans x y z t u v hx hy hz p q = ground (
    arith,
    lt_trans z y x,
    lt_trans x z y,
    lt_trans y x z,
    lt_cotrans z x y hx,
    lt_cotrans y z x hz,
    lt_cotrans x y z hy,
    lt_cotrans x z y hz,
    lt_cotrans y x z hx,
    lt_cotrans z y x hy,
    earlier_reset_trans t u v,
  )

  lex-cotrans :
      (x y z : F) (t u v : Option Time)
      → is_nan x ≡ false
      → is_nan y ≡ false
      → is_nan z ≡ false
      → lex x t z v ≡ true
      → (lex x t y u ≡ true) ⊎ (lex y u z v ≡ true)
  lex-cotrans x y z t u v hx hy hz p = ground (
    arith,
    lt_trans z y x,
    lt_trans x y z,
    lt_cotrans z y x hy,
    lt_cotrans x y z hy,
    lt_cotrans x z y hz,
    lt_cotrans y x z hx,
    lt_cotrans y z x hz,
    lt_cotrans z x y hx,
    earlier_reset-cotrans t u v,
  )

  -- `a` is preferred to `b`.
  abbrev pub quota_better : Account F → Account F → Bool
  quota_better a b = lex (quota_pct fl a) a.quota_reset_at (quota_pct fl b) b.quota_reset_at

  abbrev pub IsKnown : Account F → Type 0
  IsKnown a = is_nan (quota_pct fl a) ≡ false

  -- A tie, and what does not tell tied values apart.
  abbrev Tied : F → F → Type 0
  Tied x y = (lt x y ≡ false) × (lt y x ≡ false)

  lt-Tied_left : (x y z : F) → is_nan x ≡ false → is_nan y ≡ false → Tied x y → lt x z ≡ lt y z
  lt-Tied_left x y z hx hy t = ground (arith, lt_cotrans x y z hy, lt_cotrans y x z hx)

  lt-Tied_right : (x y z : F) → is_nan x ≡ false → is_nan y ≡ false → Tied x y → lt z x ≡ lt z y
  lt-Tied_right x y z hx hy t = ground (arith, lt_cotrans z y x hy, lt_cotrans z x y hx)

  -- The loop keeps `best_pct` tied with the percentage of `best`: on a tie it updates only `best`.
  quota_loop-best :
      (best : Account F) (best_pct : F) (xs : List (Account F))
      → IsKnown best
      → is_nan best_pct ≡ false
      → Tied best_pct (quota_pct fl best)
      → All IsKnown xs
      → quota_loop fl best best_pct xs ≡ best_from quota_better best xs
  unfolding quota_loop best_from
  quota_loop-best best bp [] hb hp t h = refl
  quota_loop-best best bp (a ∷ xs) hb hp t h =
      let left = lt-Tied_left bp (quota_pct fl best) (quota_pct fl a) hp hb t in
      let right = lt-Tied_right bp (quota_pct fl best) (quota_pct fl a) hp hb t in
      let irr = lt_irrefl (quota_pct fl a) in
      elim (Bool-cases (lt (quota_pct fl best) (quota_pct fl a))) [
        | inl e ↦ rw (left, right, e) (quota_loop-best a (quota_pct fl a) xs h.0 h.0 (irr, irr) h.1)
        | inr e ↦ elim (Bool-cases (lt (quota_pct fl a) (quota_pct fl best))) [
          | inl f ↦ rw (left, right, e, f) (quota_loop-best best bp xs hb hp t h.1)
          | inr f ↦ elim (Bool-cases (earlier_reset a.quota_reset_at best.quota_reset_at)) [
            | inl g ↦
                rw (left, right, e, f, g) (quota_loop-best a bp xs h.0 hp (left ∙ e, right ∙ f) h.1)
            | inr g ↦ rw (left, right, e, f, g) (quota_loop-best best bp xs hb hp t h.1)
          ]
        ]
      ]

  -- Where no percentage is NaN, the quota-aware pick is better than every seat in front of it, by
  -- more quota left or by an earlier reset at equal quota, and no seat behind it is better.
  pub pick_quota_aware_first :
      (a : Account F) (rest : List (Account F))
      → All IsKnown (a ∷ rest)
      → IsFirstBest quota_better (pick_quota_aware fl a rest) (a ∷ rest)
  unfolding pick_quota_aware
  pick_quota_aware_first a rest h =
      rw (quota_loop-best a (quota_pct fl a) rest h.0 h.0 (lt_irrefl _, lt_irrefl _) h.1) (
        best_from_first quota_better IsKnown
          (λ x y z hx hy hz.
            lex_trans (quota_pct fl x) (quota_pct fl y) (quota_pct fl z) x.quota_reset_at
              y.quota_reset_at z.quota_reset_at hx hy hz)
          (λ x y z hx hy hz.
            lex-cotrans (quota_pct fl x) (quota_pct fl y) (quota_pct fl z) x.quota_reset_at
              y.quota_reset_at z.quota_reset_at hx hy hz)
          a rest h.0 h.1)
