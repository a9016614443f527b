-- ===== src/Router/Pool.antt =====
-- internal/router/router.go: the candidate list of a route, before a strategy picks from it.
pub mod Stable
pub mod Tried
pub mod Prefer
use openllms.Prelude.{
  List, [], ◌∷◌, ◌++◌, Option, none, some, Bool, false, ◌==◌, ◌||◌, if◌then◌else◌, ltb, length,
}
use openllms.Account.{Uuid, uuid_nil, Account}
use openllms.Number.{Time}
use openllms.Router.Selector.{Selector, recently_failed}

-- `_, ok := tried[id]`.
unfoldable pub was_tried : List Uuid → Uuid → Bool
was_tried [] id = false
was_tried (t ∷ tried) id = t == id || was_tried tried id

module _ {F : Type 0} where
  -- The loop of `PreferAccount`: the last account with the id, and the others in order.
  unfoldable pub split_off :
      Uuid → Option (Account F) → List (Account F) → Option (Account F) × List (Account F)
  split_off prefer found [] = (found, [])
  split_off prefer found (a ∷ rest) =
      let hit = a.id == prefer in
      let (f, out) = split_off prefer (if hit then some a else found) rest in
      (f, if hit then out else a ∷ out)

  -- `PreferAccount`.
  unfoldable pub prefer_account : List (Account F) → Uuid → List (Account F)
  unfolding split_off
  prefer_account accounts prefer =
      if prefer == uuid_nil || ltb (length accounts) 2
      then accounts
      else (let (found, out) = split_off prefer none accounts in
          elim found [ none ↦ accounts | some a ↦ a ∷ out ])

  -- The loop of `Exclude`.
  unfoldable pub drop_tried : List Uuid → List (Account F) → List (Account F)
  unfolding was_tried
  drop_tried tried [] = []
  drop_tried tried (a ∷ rest) =
      let out = drop_tried tried rest in if was_tried tried a.id then out else a ∷ out

  -- `Exclude`; the set of tried accounts is a list of their ids.
  unfoldable pub exclude : List (Account F) → List Uuid → List (Account F)
  unfolding drop_tried
  exclude accounts [] = accounts
  exclude accounts (t ∷ tried) = drop_tried (t ∷ tried) accounts

  -- The loop of `PreferFresh`: the fresh and the stale accounts, in order.
  unfoldable pub split_fresh :
      Selector → Time → List (Account F) → List (Account F) × List (Account F)
  split_fresh s now [] = ([], [])
  split_fresh s now (a ∷ rest) =
      let (fresh, stale) = split_fresh s now rest in
      if recently_failed s a.id now then (fresh, a ∷ stale) else (a ∷ fresh, stale)

  -- `PreferFresh`.
  unfoldable pub prefer_fresh : Selector → Time → List (Account F) → List (Account F)
  unfolding split_fresh
  prefer_fresh s now accounts =
      if ltb (length accounts) 2
      then accounts
      else (let (fresh, stale) = split_fresh s now accounts in fresh ++ stale)
