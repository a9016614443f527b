-- ===== src/Router/Pick/Reset.antt =====
-- `pickResetSoon` returns the first of the eligible seats with the earliest reset.
use openllms.Prelude.{
  List, [], ◌∷◌, Option, none, some, Bool, if◌then◌else◌, ◌≡◌, refl, ◌⊎◌, inl, inr, All, Bool-cases,
  Option-cases, arith, Text,
}
use openllms.Number.{Float, Time, before}
use openllms.Account.{Account}
use openllms.Config.{Fields}
use openllms.Router.Pick.{
  window_quota, config_window, min_remaining, reset_loop, pick_reset_soon, pick_quota_aware,
}
use openllms.Router.Pick.Best.{best_from, IsFirstBest, best_from_first}

pub List-cases {ℓ} :
    {A : Type ℓ} (xs : List A) → (xs ≡ []) ⊎ ((y : A) × (ys : List A) × (xs ≡ y ∷ ys))
List-cases [] = inl refl
List-cases (y ∷ ys) = inr (y, ys, refl)

module _ (fl : Float) (window : Text) (min_rem : fl.F) where
  open fl use {F, lt}

  -- The reset time of a seat that has at least the wanted quota left and a known reset.
  abbrev pub eligible_reset : Account F → Option Time
  eligible_reset a =
      if lt (window_quota fl a window).0 min_rem then none else (window_quota fl a window).1

  -- The eligible seats with their reset times, in order.
  abbrev pub tagged : Account F → Option Time → List (Account F × Time) → List (Account F × Time)
  tagged a none rest = rest
  tagged a (some t) rest = (a, t) ∷ rest

  abbrev pub eligible : List (Account F) → List (Account F × Time)
  eligible [] = []
  eligible (a ∷ rest) = tagged a (eligible_reset a) (eligible rest)

  abbrev pub sooner : Account F × Time → Account F × Time → Bool
  sooner a b = before a.1 b.1

  All-unit : (xs : List (Account F × Time)) → All (λ _. Unit {0}) xs
  All-unit [] = tt
  All-unit (_ ∷ xs) = (tt, All-unit xs)

  reset_loop-best :
      (best : Account F) (r : Time) (xs : List (Account F))
      → (window_quota fl best window).1 ≡ some r
      → reset_loop fl window min_rem (some best) xs
        ≡ some (best_from sooner (best, r) (eligible xs)).0
  unfolding reset_loop best_from
  reset_loop-best best r [] h = refl
  reset_loop-best best r (a ∷ xs) h = elim (Bool-cases (lt (window_quota fl a window).0 min_rem)) [
    | inl low ↦ rw low (reset_loop-best best r xs h)
    | inr high ↦ elim (Option-cases (window_quota fl a window).1) [
      | inl n ↦ rw (high, n) (reset_loop-best best r xs h)
      | inr (t, e) ↦ elim (Bool-cases (before t r)) [
        | inl soon ↦ let ih = reset_loop-best a t xs e in ground (arith, ih)
        | inr late ↦ let ih = reset_loop-best best r xs h in ground (arith, ih)
      ]
    ]
  ]

  reset_loop-start :
      (xs : List (Account F))
      → reset_loop fl window min_rem none xs
        ≡ elim (eligible xs) [ [] ↦ none | e ∷ es ↦ some (best_from sooner e es).0 ]
  unfolding reset_loop
  reset_loop-start [] = refl
  reset_loop-start (a ∷ xs) = elim (Bool-cases (lt (window_quota fl a window).0 min_rem)) [
    | inl low ↦ rw low (reset_loop-start xs)
    | inr high ↦ elim (Option-cases (window_quota fl a window).1) [
      | inl n ↦ rw (high, n) (reset_loop-start xs)
      | inr (t, e) ↦ rw (high, e) (reset_loop-best a t xs e)
    ]
  ]

  all_first :
      (e : Account F × Time) (es : List (Account F × Time))
      → IsFirstBest sooner (best_from sooner e es) (e ∷ es)
  all_first e es =
      best_from_first sooner (λ _. Unit {0}) (λ a b c _ _ _ h k. ground arith)
        (λ a b c _ _ _ h. ground arith) e es tt (All-unit es)

module _ (fl : Float) where
  open fl use {F}

  -- Where some seat has the wanted quota left and a known reset, the reset-soon pick is the first
  -- of those that reset the earliest; where none has, it is the pick of quota-first.
  pub pick_reset_soon_earliest :
      (cfg : Option (Fields F)) (a : Account F) (rest : List (Account F))
      → ((eligible fl (config_window fl cfg) (min_remaining fl cfg) (a ∷ rest) ≡ [])
          × (pick_reset_soon fl cfg a rest ≡ pick_quota_aware fl a rest))
        ⊎ ((t : Time) × IsFirstBest
              (sooner fl (config_window fl cfg) (min_remaining fl cfg))
              (pick_reset_soon fl cfg a rest, t)
              (eligible fl (config_window fl cfg) (min_remaining fl cfg) (a ∷ rest)))
  unfolding pick_reset_soon
  pick_reset_soon_earliest cfg a rest =
      elim (List-cases (eligible fl (config_window fl cfg) (min_remaining fl cfg) (a ∷ rest))) [
        | inl e ↦ inl (
          e,
          ground (
            arith,
            reset_loop-start fl (config_window fl cfg) (min_remaining fl cfg) (a ∷ rest),
            e,
          ),
        )
        | inr (e, es, q) ↦
            let w = config_window fl cfg in
            let m = min_remaining fl cfg in
            let pe : pick_reset_soon fl cfg a rest ≡ (best_from (sooner fl w m) e es).0 =
              ground (arith, reset_loop-start fl w m (a ∷ rest), q) in
            inr ((best_from (sooner fl w m) e es).1, rw (pe, q) (all_first fl w m e es))
      ]
