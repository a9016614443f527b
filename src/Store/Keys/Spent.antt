-- ===== src/Store/Keys/Spent.antt =====
-- internal/store/store.go: hashes of the api_keys table that are in no active row of it.
use openllms.Prelude.{
  ◌≡◌, List, [], ◌∷◌, Option, none, some, Bool, true, false, ◌&&◌, ◌||◌, ◌==◌, Text, text_eq, arith,
  refl, ◌∙◌, inl, inr, Bool-cases,
}
use openllms.Assoc.{text_instance}
use openllms.Number.{Time}
use openllms.Account.{Uuid}
use openllms.Store.Keys.{
  KeyRow, is_null, select_active, taken, behind_row, revoke_row, active_as, revoke_named,
}
use openllms.Store.Keys.Rows.{revoke_alone}

unfoldable pub has_hash : Text → List KeyRow → Bool
has_hash h [] = false
has_hash h (row ∷ rows) = text_eq row.key_hash h || has_hash h rows

-- A hash that is in the table, and in no active row of it.
unfoldable pub Spent : Text → List KeyRow → Type 0
Spent h rows = (has_hash h rows ≡ true) × (select_active h rows ≡ none)

pub has_hash-taken :
    (id : Uuid) (h : Text) (rows : List KeyRow) → has_hash h rows ≡ true → taken id h rows ≡ true
unfolding has_hash taken
has_hash-taken id h [] e = ground arith
has_hash-taken id h (row ∷ rows) e = ground (arith, has_hash-taken id h rows)

-- What an UPDATE that only revokes does to a hash.
unfoldable pub Dims : Text → List KeyRow → List KeyRow → Type 0
Dims h rows rows' =
    (has_hash h rows' ≡ has_hash h rows)
    × (select_active h rows ≡ none → select_active h rows' ≡ none)

Dims-kept :
    (h : Text) (row : KeyRow) (rows rows' : List KeyRow)
    → Dims h rows rows'
    → Dims h (row ∷ rows) (row ∷ rows')
unfolding Dims has_hash select_active
Dims-kept h row rows rows' d = (
  rw d.0 refl,
  λ e. elim (Bool-cases (text_eq row.key_hash h && is_null row.revoked_at)) [
    | inl a ↦ let e' = rw a at (e) in ground arith
    | inr a ↦ let e' = rw a at (e) in rw a (d.1 e')
  ],
)

Dims-marked :
    (h : Text) (row : KeyRow) (now : Time) (rows rows' : List KeyRow)
    → Dims h rows rows'
    → Dims h (row ∷ rows) (record row { revoked_at = some now } ∷ rows')
unfolding Dims has_hash select_active
Dims-marked h row now rows rows' d = (
  rw d.0 refl,
  λ e. elim (Bool-cases (text_eq row.key_hash h && is_null row.revoked_at)) [
    | inl a ↦ let e' = rw a at (e) in ground arith
    | inr a ↦ let e' = rw a at (e) in ground (arith, d.1 e')
  ],
)

Dims-same : (h : Text) (rows : List KeyRow) → Dims h rows rows
unfolding Dims
Dims-same h rows = (refl, λ e. e)

unfoldable pub DimsTo : Text → List KeyRow → Option (Text × List KeyRow) → Type 0
DimsTo h rows none = Unit
DimsTo h rows (some (k, rows')) = Dims h rows rows'

DimsTo-behind_row :
    (h : Text) (row : KeyRow) (rows : List KeyRow) (o : Option (Text × List KeyRow))
    → DimsTo h rows o
    → DimsTo h (row ∷ rows) (behind_row row o)
unfolding DimsTo behind_row
DimsTo-behind_row h row rows none d = tt
DimsTo-behind_row h row rows (some (k, rows')) d = Dims-kept h row rows rows' d

pub DimsTo-revoke_row :
    (h : Text) (project id : Uuid) (now : Time) (rows : List KeyRow)
    → DimsTo h rows (revoke_row project id now rows)
unfolding DimsTo revoke_row
DimsTo-revoke_row h project id now [] = tt
DimsTo-revoke_row h project id now (row ∷ rows) =
    elim (Bool-cases (row.id == id && (row.project_id == project && is_null row.revoked_at))) [
      | inl e ↦ rw e (Dims-marked h row now rows rows (Dims-same h rows))
      | inr e ↦ rw e (
          DimsTo-behind_row h row rows (revoke_row project id now rows)
            (DimsTo-revoke_row h project id now rows))
    ]

pub Dims-revoke_named :
    (h : Text) (project : Uuid) (name : Text) (now : Time) (rows : List KeyRow)
    → Dims h rows (revoke_named project name now rows).1
unfolding revoke_named
Dims-revoke_named h project name now [] = Dims-same h []
Dims-revoke_named h project name now (row ∷ rows) =
    let ih = Dims-revoke_named h project name now rows in
    let rows' = (revoke_named project name now rows).1 in
    elim (Bool-cases (active_as project name row)) [
      | inl e ↦ rw e (Dims-marked h row now rows rows' ih)
      | inr e ↦ rw e (Dims-kept h row rows rows' ih)
    ]

pub Spent-Dims :
    (h : Text) (rows rows' : List KeyRow) → Dims h rows rows' → Spent h rows → Spent h rows'
unfolding Dims Spent
Spent-Dims h rows rows' d s = (d.0 ∙ s.0, d.1 s.1)

pub Spent-alone :
    (h : Text) (rows : List KeyRow) (o : Option (Text × List KeyRow))
    → DimsTo h rows o
    → Spent h rows
    → Spent h (revoke_alone rows o).1
unfolding DimsTo revoke_alone
Spent-alone h rows none d s = s
Spent-alone h rows (some (k, rows')) d s = Spent-Dims h rows rows' d s
