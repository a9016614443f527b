-- ===== src/Store/Seats/Replaced.antt =====
-- internal/store/store.go: the rows that ReplaceRouteAccounts writes, and how ORDER BY reads them.
use openllms.Prelude.{
  ℕ, zero, suc, ap, sym, ◌≡◌, List, [], ◌∷◌, Option, none, some, Bool, true, not, ◌&&◌, ◌||◌, ◌==◌,
  keep, arith, refl, inl, inr, Bool-cases, Option-cases,
}
use openllms.Prelude.Int.{ℤ, pos, negsuc, ltb_ℤ}
use openllms.Account.{Uuid}
use openllms.Store.Seats.{
  AccountRow, Attachment, next_weight, later_weights, names, find_account, is_found, seat_of,
  join_seat, join_seats, insert_seat, order_seats, behind_attachment, attach_all,
}

ahead : (i : ℕ) (a b : ℤ) → a ≡ pos i → not (ltb_ℤ b (pos (suc i))) ≡ true → ltb_ℤ a b ≡ true
ahead i a b e h = ground arith

-- The weight of the seat at a place: 1 for a weight that is missing, zero or negative.
abbrev pub weight_at : List ℤ → ℕ → ℤ
weight_at [] i = pos 1
weight_at (pos (suc n) ∷ weights) zero = pos (suc n)
weight_at (pos zero ∷ weights) zero = pos 1
weight_at (negsuc n ∷ weights) zero = pos 1
weight_at (w ∷ weights) (suc i) = weight_at weights i

-- What is left of a list of weights at a place.
abbrev pub weights_from : List ℤ → ℕ → List ℤ
weights_from weights zero = weights
weights_from weights (suc i) = later_weights (weights_from weights i)

weights_from-later_weights :
    (weights : List ℤ) (i : ℕ)
    → weights_from (later_weights weights) i ≡ later_weights (weights_from weights i)
weights_from-later_weights weights zero = refl
weights_from-later_weights weights (suc i) = ap later_weights (weights_from-later_weights weights i)

weights_from_none : (i : ℕ) → weights_from [] i ≡ []
weights_from_none zero = refl
weights_from_none (suc i) = ap later_weights (weights_from_none i)

weight_at_lem :
    (weights : List ℤ) (i : ℕ) → next_weight (weights_from weights i) ≡ weight_at weights i
weight_at_lem [] i = rw (weights_from_none i) refl
weight_at_lem (pos (suc n) ∷ weights) zero = ground arith
weight_at_lem (pos zero ∷ weights) zero = ground arith
weight_at_lem (negsuc n ∷ weights) zero = ground arith
weight_at_lem (w ∷ weights) (suc i) =
    rw (sym (weights_from-later_weights (w ∷ weights) i)) (weight_at_lem weights i)

module _ {F : Type 0} where
  -- The rows of a list of ids, from a position on.
  unfoldable pub place : Option (AccountRow F) → ℤ → ℤ → List (AccountRow F) → List (AccountRow F)
  place none position weight rest = rest
  place (some row) position weight rest =
      (record row { account = record row.account { position = position; weight = weight } }) ∷ rest

  -- The weights are those of the whole call, read at the place.
  unfoldable pub seats_at : List (AccountRow F) → List Uuid → List ℤ → ℕ → List (AccountRow F)
  seats_at accounts [] weights i = []
  seats_at accounts (id ∷ ids) weights i =
      place (find_account id accounts) (pos i) (weight_at weights i)
        (seats_at accounts ids weights (suc i))

  -- Whether every seat of a list stands at a position or behind it.
  unfoldable from_on : ℕ → List (AccountRow F) → Bool
  from_on i [] = true
  from_on i (x ∷ xs) = not (ltb_ℤ x.account.position (pos i)) && from_on i xs

  from_on-earlier :
      (i : ℕ) (xs : List (AccountRow F)) → from_on (suc i) xs ≡ true → from_on i xs ≡ true
  unfolding from_on
  from_on-earlier i [] h = refl
  from_on-earlier i (x ∷ xs) h = ground (arith, from_on-earlier i xs)

  from_on-seats_at :
      (accounts : List (AccountRow F)) (ids : List Uuid) (weights : List ℤ) (i : ℕ)
      → from_on i (seats_at accounts ids weights i) ≡ true
  unfolding seats_at from_on place
  from_on-seats_at accounts [] weights i = refl
  from_on-seats_at accounts (id ∷ ids) weights i =
      let rest = seats_at accounts ids weights (suc i) in
      let ih = from_on-earlier i rest (from_on-seats_at accounts ids weights (suc i)) in
      elim (Option-cases (find_account id accounts)) [
        | inl e ↦ rw e ih
        | inr (row, e) ↦ rw e (ground (arith, ih))
      ]

  from_on-keep :
      (p : AccountRow F → Bool) (i : ℕ) (xs : List (AccountRow F))
      → from_on i xs ≡ true
      → from_on i (keep p xs) ≡ true
  unfolding from_on
  from_on-keep p i [] h = refl
  from_on-keep p i (x ∷ xs) h = ground (arith, from_on-keep p i xs)

  -- A seat in front of all others is inserted in front.
  insert_seat-front :
      (i : ℕ) (x : AccountRow F) (xs : List (AccountRow F))
      → x.account.position ≡ pos i
      → from_on (suc i) xs ≡ true
      → insert_seat x xs ≡ x ∷ xs
  unfolding insert_seat from_on
  insert_seat-front i x [] e h = refl
  insert_seat-front i x (y ∷ ys) e h =
      let first = ahead i x.account.position y.account.position e (ground arith) in rw first refl

  pub order_seats-at :
      (p : AccountRow F → Bool) (accounts : List (AccountRow F)) (ids : List Uuid)
      (weights : List ℤ) (i : ℕ)
      → order_seats (keep p (seats_at accounts ids weights i))
        ≡ keep p (seats_at accounts ids weights i)
  unfolding seats_at order_seats place
  order_seats-at p accounts [] weights i = refl
  order_seats-at p accounts (id ∷ ids) weights i =
      let rest = seats_at accounts ids weights (suc i) in
      let ih = order_seats-at p accounts ids weights (suc i) in
      let behind = from_on-keep p (suc i) rest (from_on-seats_at accounts ids weights (suc i)) in
      elim (Option-cases (find_account id accounts)) [
        | inl e ↦ rw e ih
        | inr (row, e) ↦
            let x = seat_of (pos i) (weight_at weights i) row in
            elim (Bool-cases (p x)) [
              | inl y ↦ rw (e, y, ih) (insert_seat-front i x (keep p rest) refl behind)
              | inr n ↦ rw (e, n) ih
            ]
      ]

  -- What the INSERTs wrote is what the JOIN reads.
  unfoldable pub Joins :
      Uuid → List (AccountRow F) → List (AccountRow F) → Option (List Attachment) → Type 0
  Joins route accounts seats none = Unit
  Joins route accounts seats (some rows) =
      (join_seats route accounts rows ≡ seats) × (keep (λ a. not (a.route_id == route)) rows ≡ [])

  Joins-behind_attachment :
      (a : Attachment) (accounts : List (AccountRow F)) (row : AccountRow F)
      (seats : List (AccountRow F)) (o : Option (List Attachment))
      → find_account a.account_id accounts ≡ some row
      → Joins a.route_id accounts seats o
      → Joins a.route_id accounts (seat_of a.position a.weight row ∷ seats) (behind_attachment a o)
  unfolding Joins behind_attachment join_seats join_seat
  Joins-behind_attachment a accounts row seats none e h = tt
  Joins-behind_attachment a accounts row seats (some rows) e h = ground (arith, e, h.0, h.1)

  pub attach_all-Joins :
      (route : Uuid) (accounts : List (AccountRow F)) (ids : List Uuid) (weights : List ℤ) (i : ℕ)
      (seen : List Uuid)
      → Joins route accounts
          (seats_at accounts ids weights i)
          (attach_all route accounts ids (weights_from weights i) i seen)
  unfolding Joins attach_all seats_at place join_seats
  attach_all-Joins route accounts [] weights i seen = (refl, refl)
  attach_all-Joins route accounts (id ∷ ids) weights i seen =
      let ws = weights_from weights (suc i) in
      let a : Attachment = record {
        route_id = route;
        account_id = id;
        position = pos i;
        weight = next_weight (weights_from weights i);
      } in
      elim (Bool-cases (names seen id || not (is_found (find_account id accounts)))) [
        | inl bad ↦ rw bad tt
        | inr good ↦ elim (Option-cases (find_account id accounts)) [
          | inl e ↦ let good' = rw e at (good) in ground arith
          | inr (row, e) ↦
              rw (good, e, sym (weight_at_lem weights i))
                (Joins-behind_attachment a accounts row (seats_at accounts ids weights (suc i))
                  (attach_all route accounts ids ws (suc i) (id ∷ seen)) e
                  (attach_all-Joins route accounts ids weights (suc i) (id ∷ seen)))
        ]
      ]
