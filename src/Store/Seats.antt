-- ===== src/Store/Seats.antt =====
-- internal/store/store.go: the accounts of a project and the pools of its routes, which are the tables
-- accounts and route_accounts. The text of the database's error is a parameter. (That a route is in its
-- table is not checked here.)
pub mod Replaced
pub mod Listed
pub mod Cooldowns
use openllms.Prelude.{
  ℕ, suc, List, [], ◌∷◌, ◌++◌, Option, none, some, Bool, true, false, not, ◌&&◌, ◌||◌, ◌==◌,
  if◌then◌else◌, Text, lit, keep, map,
}
use openllms.Prelude.Int.{ℤ, pos, ltb_ℤ}
use openllms.Assoc.{int_same}
use openllms.Number.{Time, before, after}
use openllms.Account.{Uuid, Account}
use openllms.Oauth.{Fallible, ok, error}

-- A row of accounts, and one of route_accounts.
pub record AccountRow (F : Type 0) : Type 0 where
  pub account : Account F
  pub cooldown_until : Option Time
  pub created_at : Time

pub record Attachment : Type 0 where
  pub route_id : Uuid
  pub account_id : Uuid
  pub position : ℤ
  pub weight : ℤ

pub record SeatTables (F : Type 0) : Type 0 where
  pub accounts : List (AccountRow F)
  pub attached : List Attachment

abbrev pub is_attached : Uuid → Uuid → Attachment → Bool
is_attached route account a = a.route_id == route && a.account_id == account

-- `cooldown_until IS NULL OR cooldown_until < now()`.
abbrev pub usable_at : Time → Option Time → Bool
usable_at now none = true
usable_at now (some until) = before until now

-- The weight that an attachment gets for the first of the weights that are left.
abbrev pub positive_or_one : ℤ → ℤ
positive_or_one w = if ltb_ℤ (pos 0) w then w else pos 1

abbrev pub next_weight : List ℤ → ℤ
next_weight [] = pos 1
next_weight (w ∷ weights) = positive_or_one w

abbrev pub later_weights : List ℤ → List ℤ
later_weights [] = []
later_weights (w ∷ weights) = weights

abbrev pub names : List Uuid → Uuid → Bool
names [] id = false
names (x ∷ xs) id = x == id || names xs id

unfoldable pub detaches : Uuid → Uuid → List Attachment → Bool
detaches route account [] = false
detaches route account (a ∷ attached) =
    is_attached route account a || detaches route account attached

unfoldable pub behind_attachment : Attachment → Option (List Attachment) → Option (List Attachment)
behind_attachment a none = none
behind_attachment a (some rows) = some (a ∷ rows)

-- The upsert of AttachAccount.
unfoldable pub upsert : Attachment → List Attachment → List Attachment
upsert a [] = a ∷ []
upsert a (b ∷ attached) =
    let later = upsert a attached in
    if is_attached a.route_id a.account_id b then a ∷ attached else b ∷ later

unfoldable pub earlier_of : Time → Option Time → Option Time → Option Time
earlier_of now none best = best
earlier_of now (some t) none = if after t now then some t else none
earlier_of now (some t) (some best) = if after t now && before t best then some t else some best

abbrev pub cooling_after : Time → Option Time → Bool
cooling_after now none = false
cooling_after now (some until) = after until now

module _ {F : Type 0} where
  unfoldable pub find_account : Uuid → List (AccountRow F) → Option (AccountRow F)
  find_account id [] = none
  find_account id (row ∷ rows) =
      let rest = find_account id rows in if row.account.id == id then some row else rest

  abbrev pub is_found : Option (AccountRow F) → Bool
  is_found none = false
  is_found (some row) = true

  -- An UPDATE of the row of an account.
  unfoldable pub update_account :
      Uuid → (AccountRow F → AccountRow F) → List (AccountRow F) → List (AccountRow F)
  update_account id change [] = []
  update_account id change (row ∷ rows) =
      let rest = update_account id change rows in
      (if row.account.id == id then change row else row) ∷ rest

  unfoldable pub mark_row : Option Time → Text → AccountRow F → AccountRow F
  mark_row until health row = record row {
    account = record row.account { health = health };
    cooldown_until = until;
  }

  -- `SetCooldown`, `MarkAccountHealthy` and `MarkAccountUnhealthy`.
  unfoldable pub set_cooldown : SeatTables F → Uuid → Time → SeatTables F
  set_cooldown t id until = record t {
    accounts = update_account id (mark_row (some until) (lit "cooldown")) t.accounts;
  }

  unfoldable pub mark_account_healthy : SeatTables F → Uuid → SeatTables F
  mark_account_healthy t id = record t {
    accounts = update_account id (mark_row none (lit "ok")) t.accounts;
  }

  unfoldable pub mark_account_unhealthy : SeatTables F → Uuid → Time → SeatTables F
  mark_account_unhealthy t id until = record t {
    accounts = update_account id (mark_row (some until) (lit "error")) t.accounts;
  }

  -- The JOIN of a route's attachments with the accounts; a seat carries its position and its weight.
  abbrev pub seat_of : ℤ → ℤ → AccountRow F → AccountRow F
  seat_of position weight row = record row {
    account = record row.account { position = position; weight = weight };
  }

  unfoldable pub join_seat :
      Option (AccountRow F) → Attachment → List (AccountRow F) → List (AccountRow F)
  join_seat none a rest = rest
  join_seat (some row) a rest = seat_of a.position a.weight row ∷ rest

  unfoldable pub join_seats : Uuid → List (AccountRow F) → List Attachment → List (AccountRow F)
  join_seats route accounts [] = []
  join_seats route accounts (a ∷ attached) =
      let rest = join_seats route accounts attached in
      if a.route_id == route then join_seat (find_account a.account_id accounts) a rest else rest

  -- `ORDER BY ra.position ASC, a.created_at ASC`.
  abbrev pub in_front : AccountRow F → AccountRow F → Bool
  in_front x y =
      ltb_ℤ x.account.position y.account.position
      || int_same x.account.position y.account.position && not (before y.created_at x.created_at)

  unfoldable pub insert_seat : AccountRow F → List (AccountRow F) → List (AccountRow F)
  insert_seat x [] = x ∷ []
  insert_seat x (y ∷ ys) =
      let later = insert_seat x ys in if in_front x y then x ∷ y ∷ ys else y ∷ later

  unfoldable pub order_seats : List (AccountRow F) → List (AccountRow F)
  order_seats [] = []
  order_seats (x ∷ xs) = insert_seat x (order_seats xs)

  abbrev pub account_of : AccountRow F → Account F
  account_of row = row.account

  -- `ListRoutePool`.
  unfoldable pub list_route_pool : SeatTables F → Uuid → List (Account F)
  list_route_pool t route = map account_of (order_seats (join_seats route t.accounts t.attached))

  abbrev pub is_usable : Time → AccountRow F → Bool
  is_usable now row = usable_at now row.cooldown_until

  -- `ListRouteAccounts`.
  unfoldable pub list_route_accounts : SeatTables F → Uuid → Time → List (Account F)
  list_route_accounts t route now =
      map account_of (order_seats (keep (is_usable now) (join_seats route t.accounts t.attached)))

  -- `DetachRouteAccount`.
  unfoldable pub detach_route_account : SeatTables F → Uuid → Uuid → Fallible Unit × SeatTables F
  detach_route_account t route account =
      if not (detaches route account t.attached)
      then (error (lit "not attached"), t)
      else (ok tt, record t { attached = keep (λ a. not (is_attached route account a)) t.attached })

  -- The INSERTs of ReplaceRouteAccounts: the new rows in order, or none where one of them fails on an
  -- account that is there already or is no row of accounts.
  unfoldable pub attach_all :
      Uuid → List (AccountRow F) → List Uuid → List ℤ → ℕ → List Uuid → Option (List Attachment)
  attach_all route accounts [] weights i seen = some []
  attach_all route accounts (id ∷ ids) weights i seen =
      let rest = attach_all route accounts ids (later_weights weights) (suc i) (id ∷ seen) in
      let a : Attachment = record {
        route_id = route;
        account_id = id;
        position = pos i;
        weight = next_weight weights;
      } in
      if names seen id || not (is_found (find_account id accounts))
      then none
      else behind_attachment a rest

module _ {F : Type 0} (conflict : Text) where
  -- The COMMIT, or the ROLLBACK.
  unfoldable pub commit_replaced :
      SeatTables F → Uuid → Option (List Attachment) → Fallible Unit × SeatTables F
  commit_replaced t route none = (error conflict, t)
  commit_replaced t route (some rows) =
      (ok tt, record t { attached = rows ++ keep (λ a. not (a.route_id == route)) t.attached })

  -- `ReplaceRouteAccounts`.
  unfoldable pub replace_route_accounts :
      SeatTables F → Uuid → List Uuid → List ℤ → Fallible Unit × SeatTables F
  replace_route_accounts t route ids weights =
      commit_replaced t route (attach_all route t.accounts ids weights 0 [])

  -- `AttachAccount`.
  unfoldable pub attach_account : SeatTables F → Uuid → Uuid → ℤ → ℤ → Fallible Unit × SeatTables F
  attach_account t route account position weight =
      let a : Attachment = record {
        route_id = route;
        account_id = account;
        position = position;
        weight = positive_or_one weight;
      } in
      if not (is_found (find_account account t.accounts))
      then (error conflict, t)
      else (ok tt, record t { attached = upsert a t.attached })

module _ {F : Type 0} where
  -- The loop of EarliestRouteCooldown, over the cooldowns that the SELECT returns.
  unfoldable pub earliest_loop : Time → List (AccountRow F) → Option Time → Option Time
  earliest_loop now [] best = best
  earliest_loop now (row ∷ rows) best =
      earliest_loop now rows (earlier_of now row.cooldown_until best)

  abbrev pub cools_after : Time → AccountRow F → Bool
  cools_after now row = cooling_after now row.cooldown_until

  -- `EarliestRouteCooldown`, with the clock of the database and that of the program.
  unfoldable pub earliest_route_cooldown : SeatTables F → Uuid → Time → Time → Option Time
  earliest_route_cooldown t route db_now now =
      earliest_loop now (keep (cools_after db_now) (join_seats route t.accounts t.attached)) none
