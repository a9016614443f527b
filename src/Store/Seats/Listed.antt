-- ===== src/Store/Seats/Listed.antt =====
-- internal/store/store.go: what a replaced membership leaves of the pools that ListRouteAccounts reads.
use openllms.Prelude.{
  ◌≡◌, List, [], ◌∷◌, ◌++◌, Option, none, some, Bool, true, false, not, ◌==◌, Text, keep, map,
  arith, refl, ap, inl, inr, Bool-cases,
}
use mathlib.Core.List.{append-nil}
use openllms.Prelude.Int.{ℤ}
use openllms.Number.{Time}
use openllms.Account.{Uuid}
use openllms.Oauth.{Fallible, ok, error}
use openllms.Store.Seats.{
  AccountRow, Attachment, SeatTables, find_account, join_seat, join_seats, account_of, is_usable,
  list_route_accounts, attach_all, commit_replaced, replace_route_accounts,
}
use openllms.Store.Seats.Replaced.{seats_at, order_seats-at, Joins, attach_all-Joins}

abbrev is_ok : Fallible Unit → Bool
is_ok (ok x) = true
is_ok (error e) = false

module _ {F : Type 0} where
  join_seat-append :
      (o : Option (AccountRow F)) (a : Attachment) (xs ys : List (AccountRow F))
      → join_seat o a (xs ++ ys) ≡ join_seat o a xs ++ ys
  unfolding join_seat
  join_seat-append none a xs ys = refl
  join_seat-append (some row) a xs ys = refl

  join_seats-append :
      (route : Uuid) (accounts : List (AccountRow F)) (xs ys : List Attachment)
      → join_seats route accounts (xs ++ ys)
        ≡ join_seats route accounts xs ++ join_seats route accounts ys
  unfolding join_seats
  join_seats-append route accounts [] ys = refl
  join_seats-append route accounts (a ∷ xs) ys =
      let ih = join_seats-append route accounts xs ys in
      let o = find_account a.account_id accounts in
      elim (Bool-cases (a.route_id == route)) [
        | inr n ↦ rw n ih
        | inl y ↦
            rw (y, ih)
              (join_seat-append o a (join_seats route accounts xs) (join_seats route accounts ys))
      ]

  -- A DELETE of a route's rows empties its pool and keeps the others.
  join_seats-deleted :
      (route : Uuid) (accounts : List (AccountRow F)) (old : List Attachment)
      → join_seats route accounts (keep (λ a. not (a.route_id == route)) old) ≡ []
  unfolding join_seats
  join_seats-deleted route accounts [] = refl
  join_seats-deleted route accounts (a ∷ old) =
      let ih = join_seats-deleted route accounts old in
      elim (Bool-cases (a.route_id == route)) [ inl y ↦ rw y ih | inr n ↦ rw (n, n) ih ]

  join_seats-kept :
      (route other : Uuid) (accounts : List (AccountRow F)) (old : List Attachment)
      → (route == other) ≡ false
      → join_seats other accounts (keep (λ a. not (a.route_id == route)) old)
        ≡ join_seats other accounts old
  unfolding join_seats
  join_seats-kept route other accounts [] ne = refl
  join_seats-kept route other accounts (a ∷ old) ne =
      let ih = join_seats-kept route other accounts old ne in
      elim (Bool-cases (a.route_id == route)) [
        | inr n ↦ rw (n, ih) refl
        | inl y ↦
            let away : (a.route_id == other) ≡ false = ground (arith, y, ne) in rw (y, away) ih
      ]

  join_seats-foreign :
      (route other : Uuid) (accounts : List (AccountRow F)) (rows : List Attachment)
      → (route == other) ≡ false
      → keep (λ a. not (a.route_id == route)) rows ≡ []
      → join_seats other accounts rows ≡ []
  unfolding join_seats
  join_seats-foreign route other accounts [] ne own = refl
  join_seats-foreign route other accounts (a ∷ rows) ne own =
      elim (Bool-cases (a.route_id == route)) [
        | inr n ↦ let own' = rw n at (own) in ground arith
        | inl y ↦
            let own' = rw y at (own) in
            let away : (a.route_id == other) ≡ false = ground (arith, y, ne) in
            rw away (join_seats-foreign route other accounts rows ne own')
      ]

  -- What the COMMIT leaves of every pool.
  Pools : SeatTables F → Uuid → List (AccountRow F) → Fallible Unit × SeatTables F → Type 0
  Pools t route seats p =
      (p.1.accounts ≡ t.accounts)
      × (p.0 ≡ ok tt → join_seats route t.accounts p.1.attached ≡ seats)
      × ((other : Uuid)
          → (route == other) ≡ false
          → join_seats other t.accounts p.1.attached ≡ join_seats other t.accounts t.attached)

  commit_replaced-Pools :
      (conflict : Text) (t : SeatTables F) (route : Uuid) (seats : List (AccountRow F))
      (o : Option (List Attachment))
      → Joins route t.accounts seats o
      → Pools t route seats (commit_replaced conflict t route o)
  unfolding commit_replaced Joins Pools
  commit_replaced-Pools conflict t route seats none j =
      (refl, λ h. let h' = ap is_ok h in ground arith, λ other ne. refl)
  commit_replaced-Pools conflict t route seats (some rows) j =
      let others = keep (λ a. not (a.route_id == route)) t.attached in
      (
        refl,
        λ h.
            rw
              (
                join_seats-append route t.accounts rows others,
                join_seats-deleted route t.accounts t.attached,
                j.0,
              )
              (append-nil seats),
        λ other ne.
            rw
              (
                join_seats-append other t.accounts rows others,
                join_seats-foreign route other t.accounts rows ne j.1,
              )
              (join_seats-kept route other t.accounts t.attached ne),
      )

  -- Where ReplaceRouteAccounts gives no error, the accounts listed for the route are those of the
  -- ids that are not cooling down, in the order of the ids, each with its place and its weight (1
  -- for a weight that is missing or not positive); and the list of any other route is as before.
  pub replace_route_accounts_lists :
      (conflict : Text) (t : SeatTables F) (route other : Uuid) (ids : List Uuid) (weights : List ℤ)
      (now : Time)
      → (replace_route_accounts conflict t route ids weights).0 ≡ ok tt
      → (route == other) ≡ false
      → (list_route_accounts (replace_route_accounts conflict t route ids weights).1 route now
          ≡ map account_of (keep (is_usable now) (seats_at t.accounts ids weights 0)))
        × (list_route_accounts (replace_route_accounts conflict t route ids weights).1 other now
            ≡ list_route_accounts t other now)
  unfolding replace_route_accounts list_route_accounts Pools
  replace_route_accounts_lists conflict t route other ids weights now h ne =
      let seats = seats_at t.accounts ids weights 0 in
      let o = attach_all route t.accounts ids weights 0 [] in
      let (accounts, own, others) =
        commit_replaced-Pools conflict t route seats o
          (attach_all-Joins route t.accounts ids weights 0 []) in
      (
        rw (accounts, own h)
            (ap (map account_of) (order_seats-at (is_usable now) t.accounts ids weights 0)),
        rw (accounts, others other ne) refl,
      )
