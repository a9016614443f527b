-- ===== src/Router/Pick/Score.antt =====
-- `pickSteward` returns the first of the seats with the highest score.
use openllms.Prelude.{
  List, [], ◌∷◌, Option, some, none, Bool, true, false, ◌≡◌, refl, inl, inr, All, Bool-cases,
}
use openllms.Number.{Float, Time}
use openllms.Account.{Account}
use openllms.Config.{Fields}
use openllms.Router.Selector.{Selector}
use openllms.Router.Pick.{steward_score, steward_config, steward_loop, pick_steward}
use openllms.Router.Pick.Best.{best_from, IsFirstBest, best_from_first}

module _ (fl : Float) where
  open fl use {F, lt, is_nan, neg_infinity, lt_trans, lt_cotrans}

  abbrev pub scores_higher : (Account F → F) → Account F → Account F → Bool
  scores_higher score a b = lt (score b) (score a)

  -- A score that is a number above minus infinity.
  abbrev pub HasScore : (Account F → F) → Account F → Type 0
  HasScore score a = (is_nan (score a) ≡ false) × (lt neg_infinity (score a) ≡ true)

  steward_loop-best :
      (score : Account F → F) (best : Account F) (xs : List (Account F))
      → steward_loop fl score (some best) (score best) xs
        ≡ some (best_from (scores_higher score) best xs)
  unfolding steward_loop best_from
  steward_loop-best score best [] = refl
  steward_loop-best score best (a ∷ xs) = elim (Bool-cases (lt (score best) (score a))) [
    | inl e ↦ rw e (steward_loop-best score a xs)
    | inr e ↦ rw e (steward_loop-best score best xs)
  ]

  steward_loop-start :
      (score : Account F → F) (a : Account F) (xs : List (Account F))
      → lt neg_infinity (score a) ≡ true
      → steward_loop fl score none neg_infinity (a ∷ xs)
        ≡ some (best_from (scores_higher score) a xs)
  unfolding steward_loop
  steward_loop-start score a xs h = rw h (steward_loop-best score a xs)

  -- Where every score is a number above minus infinity, the steward pick has a higher score than
  -- all seats in front of it, and no seat behind it scores higher.
  pub pick_steward_first :
      (s : Selector) (now : Time) (cfg : Option (Fields F)) (a : Account F)
      (rest : List (Account F))
      → All (HasScore (steward_score fl s now (steward_config fl cfg))) (a ∷ rest)
      → IsFirstBest
          (scores_higher (steward_score fl s now (steward_config fl cfg)))
          (pick_steward fl s now cfg a rest)
          (a ∷ rest)
  unfolding pick_steward
  pick_steward_first s now cfg a rest h =
      let score = steward_score fl s now (steward_config fl cfg) in
      rw (steward_loop-start score a rest h.0.1, pick_steward)
        (best_from_first (scores_higher score) (HasScore score)
          (λ x y z _ _ _ p q. lt_trans (score z) (score y) (score x) q p)
          (λ x y z _ hy _ p. elim (lt_cotrans (score z) (score y) (score x) hy.0 p) [
            | inl e ↦ inr e
            | inr e ↦ inl e
          ])
          a rest h.0 h.1)
