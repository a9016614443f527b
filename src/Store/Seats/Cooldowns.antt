-- ===== src/Store/Seats/Cooldowns.antt =====
-- internal/store/store.go: which cooldown EarliestRouteCooldown returns.
use openllms.Prelude.{
  ◌≡◌, List, [], ◌∷◌, Option, none, some, Bool, true, false, not, ◌&&◌, ◌||◌, ◌==◌, keep, arith,
  refl, inl, inr, Bool-cases,
}
use openllms.Number.{Time, before, after}
use openllms.Account.{Uuid}
use openllms.Store.Seats.{
  AccountRow, SeatTables, join_seats, cooling_after, cools_after, earlier_of, earliest_loop,
  earliest_route_cooldown,
}

-- A cooldown that is no candidate, or does not end before a time.
abbrev pub not_sooner : Time → Time → Option Time → Bool
not_sooner now t none = true
not_sooner now t (some s) = not (after s now) || not (before s t)

abbrev pub ends_at : Time → Option Time → Bool
ends_at t none = false
ends_at t (some s) = s == t

abbrev LiveOrNone : Time → Option Time → Type 0
LiveOrNone now none = Unit
LiveOrNone now (some t) = after t now ≡ true

LiveOrNone-earlier_of :
    (now : Time) (o best : Option Time)
    → LiveOrNone now best
    → LiveOrNone now (earlier_of now o best)
unfolding earlier_of
LiveOrNone-earlier_of now none best h = h
LiveOrNone-earlier_of now (some t) none h = elim (Bool-cases (after t now)) [
  | inl e ↦ rw e e
  | inr e ↦ rw e tt
]
LiveOrNone-earlier_of now (some t) (some b) h = elim (Bool-cases (after t now && before t b)) [
  | inl e ↦ rw e (ground (arith, e))
  | inr e ↦ rw e h
]

module _ {F : Type 0} where
  unfoldable pub none_sooner : Time → Time → List (AccountRow F) → Bool
  none_sooner now t [] = true
  none_sooner now t (row ∷ rows) = not_sooner now t row.cooldown_until && none_sooner now t rows

  unfoldable pub one_ends_at : Time → List (AccountRow F) → Bool
  one_ends_at t [] = false
  one_ends_at t (row ∷ rows) = ends_at t row.cooldown_until || one_ends_at t rows

  unfoldable pub none_cools : Time → List (AccountRow F) → Bool
  none_cools now [] = true
  none_cools now (row ∷ rows) = not (cooling_after now row.cooldown_until) && none_cools now rows

  -- What the loop gives for the rows that are left, from the best one so far.
  Best : Time → List (AccountRow F) → Option Time → Option Time → Type 0
  Best now rows best none = (best ≡ none) × (none_cools now rows ≡ true)
  Best now rows best (some t) =
      ((ends_at t best || one_ends_at t rows) ≡ true)
      × ((not_sooner now t best && none_sooner now t rows) ≡ true)
      × (after t now ≡ true)

  Best-step :
      (now : Time) (o best r : Option Time) (row : AccountRow F) (rows : List (AccountRow F))
      → row.cooldown_until ≡ o
      → LiveOrNone now best
      → Best now rows (earlier_of now o best) r
      → Best now (row ∷ rows) best r
  unfolding Best none_sooner one_ends_at none_cools earlier_of
  Best-step now none best none row rows e live h = (h.0, ground (arith, e, h.1))
  Best-step now none best (some t) row rows e live h =
      (ground (arith, e, h.0), ground (arith, e, h.1), h.2)
  Best-step now (some s) none none row rows e live h = elim (Bool-cases (after s now)) [
    | inl a ↦ let h' = rw a at (h) in ground (arith, h'.0)
    | inr a ↦ let h' = rw a at (h) in (refl, rw e (ground (arith, a, h'.1)))
  ]
  Best-step now (some s) none (some t) row rows e live h = elim (Bool-cases (after s now)) [
    | inl a ↦
        let h' = rw a at (h) in (rw e (ground (arith, h'.0)), rw e (ground (arith, h'.1)), h'.2)
    | inr a ↦
        let h' = rw a at (h) in (rw e (ground (arith, h'.0)), rw e (ground (arith, a, h'.1)), h'.2)
  ]
  Best-step now (some s) (some b) none row rows e live h =
      elim (Bool-cases (after s now && before s b)) [
        | inl a ↦ let h' = rw a at (h) in ground (arith, h'.0)
        | inr a ↦ let h' = rw a at (h) in ground (arith, h'.0)
      ]
  Best-step now (some s) (some b) (some t) row rows e live h =
      elim (Bool-cases (after s now && before s b)) [
        | inl a ↦
            let h' = rw a at (h) in
            (rw e (ground (arith, h'.0)), rw e (ground (arith, a, h'.1)), h'.2)
        | inr a ↦
            let h' = rw a at (h) in
            (rw e (ground (arith, h'.0)), rw e (ground (arith, a, live, h'.1)), h'.2)
      ]

  earliest_loop-Best :
      (now : Time) (rows : List (AccountRow F)) (best : Option Time)
      → LiveOrNone now best
      → Best now rows best (earliest_loop now rows best)
  unfolding earliest_loop Best one_ends_at none_sooner none_cools
  earliest_loop-Best now [] none h = (refl, refl)
  earliest_loop-Best now [] (some t) h = (ground arith, ground arith, h)
  earliest_loop-Best now (row ∷ rows) best h =
      let o = row.cooldown_until in
      Best-step now o best (earliest_loop now rows (earlier_of now o best)) row rows refl h
        (earliest_loop-Best now rows (earlier_of now o best) (LiveOrNone-earlier_of now o best h))

  -- The cooldown of a route's pool that ends first.
  unfoldable pub EndsFirst : Time → List (AccountRow F) → Option Time → Type 0
  EndsFirst now rows none = none_cools now rows ≡ true
  EndsFirst now rows (some t) =
      (one_ends_at t rows ≡ true) × (none_sooner now t rows ≡ true) × (after t now ≡ true)

  first_of :
      (now : Time) (rows : List (AccountRow F)) (r : Option Time)
      → Best now rows none r
      → EndsFirst now rows r
  unfolding Best EndsFirst
  first_of now rows none h = h.1
  first_of now rows (some t) h = h

  -- EarliestRouteCooldown returns the end of a cooldown in the pool that is still to come, by the
  -- clocks of the database and of the program, and no other such one ends sooner; it returns none
  -- exactly where there is none.
  pub earliest_route_cooldown-EndsFirst :
      (t : SeatTables F) (route : Uuid) (db_now now : Time)
      → EndsFirst now
          (keep (cools_after db_now) (join_seats route t.accounts t.attached))
          (earliest_route_cooldown t route db_now now)
  unfolding earliest_route_cooldown
  earliest_route_cooldown-EndsFirst t route db_now now =
      let rows = keep (cools_after db_now) (join_seats route t.accounts t.attached) in
      first_of now rows (earliest_loop now rows none) (earliest_loop-Best now rows none tt)
