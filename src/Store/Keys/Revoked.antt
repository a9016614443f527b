-- ===== src/Store/Keys/Revoked.antt =====
-- internal/store/store.go: lookups of a key behind its RevokeKey.
use openllms.Prelude.{
  ◌≡◌, List, [], ◌∷◌, Option, none, some, Bool, true, false, not, ◌&&◌, ◌==◌, ==_iff, ◌≢◌, ◌⊎◌,
  Text, lit, text_eq, eq-text_eq, arith, refl, sym, ◌∙◌, ap, inl, inr, Bool-cases,
}
use openllms.Assoc.{text_instance}
use openllms.Number.{Time}
use openllms.Account.{Uuid}
use openllms.Oauth.{Fallible, ok, error}
use openllms.Store.Keys.{
  KeyRow, AuthContext, is_null, select_active, taken, behind_row, revoke_row, revoke_named,
  KeyStore, or_invalid, settle_revoke, revoke_key, insert_key, lookup_by_plaintext,
}
use openllms.Store.Keys.Rows.{
  bootstrap_call, KeyCall, create_call, lookup_call, revoke_call, revoke_named_call, call_rows,
  run_keys, run_rows,
}
use openllms.Store.Keys.Spent.{
  has_hash, Spent, has_hash-taken, DimsTo-revoke_row, Dims-revoke_named, Spent-Dims, Spent-alone,
}
use openllms.Store.Keys.Refine.{
  Fits, select_active-fresh, lookup_by_plaintext_row, settle_revoke-Fits, revoke_row-Behind,
  run_keys-Refines,
}

-- The primary key and the unique column of api_keys: no two rows share an id or a hash.
unfoldable pub keyed : List KeyRow → Bool
keyed [] = true
keyed (row ∷ rows) = not (taken row.id row.key_hash rows) && keyed rows

abbrev id_of : Option AuthContext → Uuid
id_of none = 0
id_of (some ac) = ac.key_id

abbrev project_of : Option AuthContext → Uuid
project_of none = 0
project_of (some ac) = ac.project_id

-- The row of a SELECT is in the table, with its id.
select_active-taken :
    (h k : Text) (rows : List KeyRow) (ac : AuthContext)
    → select_active h rows ≡ some ac
    → taken ac.key_id k rows ≡ true
unfolding select_active taken
select_active-taken h k [] ac e = ground arith
select_active-taken h k (row ∷ rows) ac e =
    elim (Bool-cases (text_eq row.key_hash h && is_null row.revoked_at)) [
      | inl a ↦
          let e' = rw a at (e) in
          let same_id : row.id ≡ ac.key_id = ap id_of e' in ground (arith, same_id)
      | inr a ↦ let e' = rw a at (e) in ground (arith, select_active-taken h k rows ac e')
    ]

select_active-nil : (h : Text) (ac : AuthContext) → select_active h [] ≢ some ac
unfolding select_active
select_active-nil h ac e = ground arith

keyed-head :
    (row : KeyRow) (rows : List KeyRow)
    → keyed (row ∷ rows) ≡ true
    → (taken row.id row.key_hash rows ≡ false) × (keyed rows ≡ true)
unfolding keyed
keyed-head row rows u = (ground arith, ground arith)

-- Whether an entry of the table has an active row of the hash in front.
select_active-head :
    (h : Text) (row : KeyRow) (rows : List KeyRow) (ac : AuthContext)
    → select_active h (row ∷ rows) ≡ some ac
    → ((text_eq row.key_hash h && is_null row.revoked_at ≡ true)
        × (row.id ≡ ac.key_id)
        × (row.project_id ≡ ac.project_id))
      ⊎ ((text_eq row.key_hash h && is_null row.revoked_at ≡ false)
          × (select_active h rows ≡ some ac))
unfolding select_active
select_active-head h row rows ac e =
    elim (Bool-cases (text_eq row.key_hash h && is_null row.revoked_at)) [
      | inl a ↦ let e' = rw a at (e) in inl (a, ap id_of e', ap project_of e')
      | inr a ↦ let e' = rw a at (e) in inr (a, e')
    ]

Spent-marked :
    (h : Text) (row : KeyRow) (now : Time) (rows : List KeyRow)
    → text_eq row.key_hash h ≡ true
    → taken row.id row.key_hash rows ≡ false
    → Spent h (record row { revoked_at = some now } ∷ rows)
unfolding Spent has_hash select_active
Spent-marked h row now rows own free =
    let free' = rw (eq-text_eq row.key_hash h own) at (free) in
    (ground (arith, own), ground (arith, select_active-fresh row.id h rows free'))

-- A row of another id is not the one that the UPDATE names.
misses :
    (row : KeyRow) (rows : List KeyRow) (id : Uuid) (rest : Bool)
    → taken row.id row.key_hash rows ≡ false
    → taken id row.key_hash rows ≡ true
    → (row.id == id && rest) ≡ false
misses row rows id rest free there = elim (Bool-cases (row.id == id)) [
  | inl same ↦ let free' = rw ((==_iff row.id id).0 same) at (free) in ground (arith, free', there)
  | inr other ↦ ground (arith, other)
]

-- Revoking the row that a SELECT found returns its hash, which is then spent.
RevokesTo : Text → Option (Text × List KeyRow) → Type 0
RevokesTo h none = ⊥
RevokesTo h (some (k, rows)) = (k ≡ h) × Spent h rows

RevokesTo-behind_row :
    (h : Text) (row : KeyRow) (o : Option (Text × List KeyRow))
    → (text_eq row.key_hash h && is_null row.revoked_at) ≡ false
    → RevokesTo h o
    → RevokesTo h (behind_row row o)
unfolding RevokesTo behind_row Spent has_hash select_active
RevokesTo-behind_row h row none other r = r
RevokesTo-behind_row h row (some (k, rows)) other r = (r.0, (ground (arith, r.1.0), rw other r.1.1))

revoke_row-RevokesTo :
    (h : Text) (rows : List KeyRow) (ac : AuthContext) (now : Time)
    → keyed rows ≡ true
    → select_active h rows ≡ some ac
    → RevokesTo h (revoke_row ac.project_id ac.key_id now rows)
unfolding revoke_row RevokesTo
revoke_row-RevokesTo h [] ac now u e = ground (arith, select_active-nil h ac e)
revoke_row-RevokesTo h (row ∷ rows) ac now u e =
    let (free, u') = keyed-head row rows u in
    let matches =
      row.id == ac.key_id && (row.project_id == ac.project_id && is_null row.revoked_at) in
    elim (select_active-head h row rows ac e) [
      | inl (a, same_id, same_project) ↦
          let hit : matches ≡ true = ground (arith, a, same_id, same_project) in
          let own : text_eq row.key_hash h ≡ true = ground (arith, a) in
          rw hit (eq-text_eq row.key_hash h own, Spent-marked h row now rows own free)
      | inr (a, e') ↦
          let there = select_active-taken h row.key_hash rows ac e' in
          let miss : matches ≡ false =
            misses row rows ac.key_id (row.project_id == ac.project_id && is_null row.revoked_at)
              free there in
          rw miss (
            RevokesTo-behind_row h row (revoke_row ac.project_id ac.key_id now rows) a
              (revoke_row-RevokesTo h rows ac now u' e'))
    ]

abbrev found_of : Fallible AuthContext → Option AuthContext
found_of (ok ac) = some ac
found_of (error e) = none

or_invalid-ok : (o : Option AuthContext) (ac : AuthContext) → or_invalid o ≡ ok ac → o ≡ some ac
unfolding or_invalid
or_invalid-ok none ac e = let e' = ap found_of e in ground arith
or_invalid-ok (some found) ac e = ap found_of e

settle_revoke-Spent :
    (s : KeyStore) (h : Text) (o : Option (Text × List KeyRow))
    → RevokesTo h o
    → ((settle_revoke s o).0 ≡ ok tt) × Spent h (settle_revoke s o).1.rows
unfolding settle_revoke RevokesTo
settle_revoke-Spent s h none r = elim r [ ]
settle_revoke-Spent s h (some (k, rows)) r = (refl, r.1)

module _ (hash : Text → Text) (conflict : Text) where
  Spent-insert_key :
      (h : Text) (rows : List KeyRow) (project : Uuid) (name : Text) (route : Option Uuid)
      (id : Uuid) (plaintext : Text) (now : Time)
      → Spent h rows
      → Spent h (insert_key hash conflict rows project name route id plaintext now).1
  unfolding insert_key Spent select_active has_hash
  Spent-insert_key h rows project name route id plaintext now s =
      elim (Bool-cases (taken id (hash plaintext) rows)) [
        | inl e ↦ rw e s
        | inr e ↦ elim (Bool-cases (text_eq (hash plaintext) h)) [
          | inl own ↦
              let e' = rw (eq-text_eq (hash plaintext) h own) at (e) in
              ground (arith, has_hash-taken id h rows s.0)
          | inr other ↦ rw (e, other) s
        ]
      ]

  Spent-call_rows :
      (h : Text) (rows : List KeyRow) (c : KeyCall)
      → Spent h rows
      → Spent h (call_rows hash conflict rows c).1
  unfolding call_rows
  Spent-call_rows h rows (create_call project name route id plaintext now) s =
      Spent-insert_key h rows project name route id plaintext now s
  Spent-call_rows h rows (bootstrap_call project key_name id plaintext now) s =
      Spent-insert_key h rows project key_name none id plaintext now s
  Spent-call_rows h rows (lookup_call plaintext now) s = s
  Spent-call_rows h rows (revoke_call project id now) s =
      Spent-alone h rows (revoke_row project id now rows) (DimsTo-revoke_row h project id now rows)
        s
  Spent-call_rows h rows (revoke_named_call project name now) s =
      Spent-Dims h rows (revoke_named project name now rows).1
        (Dims-revoke_named h project name now rows) s

  Spent-run_rows :
      (h : Text) (rows : List KeyRow) (calls : List KeyCall)
      → Spent h rows
      → Spent h (run_rows hash conflict rows calls).1
  unfolding run_rows
  Spent-run_rows h rows [] s = s
  Spent-run_rows h rows (c ∷ calls) s =
      Spent-run_rows h (call_rows hash conflict rows c).1 calls (Spent-call_rows h rows c s)

  -- While its hash is spent a key does not authenticate, whatever is called.
  stays_out :
      (s : KeyStore) (plaintext : Text) (calls : List KeyCall) (now : Time)
      → Fits s
      → Spent (hash plaintext) s.rows
      → (lookup_by_plaintext hash (run_keys hash conflict s calls).1 plaintext now).0
        ≡ error (lit "invalid api key")
  unfolding Spent or_invalid
  stays_out s plaintext calls now fits spent =
      let (_, rows, fits') = run_keys-Refines hash conflict s s.rows calls refl fits in
      let s' = (run_keys hash conflict s calls).1 in
      let out = (Spent-run_rows (hash plaintext) s.rows calls spent).1 in
      let (read, _, _) = lookup_by_plaintext_row hash conflict s' plaintext now fits' in
      read ∙ ap (λ r. or_invalid (select_active (hash plaintext) r)) rows ∙ ap or_invalid out

  -- Where the cache fits the table and ids and hashes are unique, a key that a lookup finds is
  -- revoked by its project and id without an error, and no lookup finds it again, whatever calls
  -- come in between.
  pub revoke_key_final :
      (s : KeyStore) (plaintext : Text) (ac : AuthContext) (calls : List KeyCall) (t0 t1 t2 : Time)
      → Fits s
      → keyed s.rows ≡ true
      → (lookup_by_plaintext hash s plaintext t0).0 ≡ ok ac
      → ((revoke_key (lookup_by_plaintext hash s plaintext t0).1 ac.project_id ac.key_id t1).0
          ≡ ok tt)
        × ((lookup_by_plaintext hash
              (run_keys hash conflict
                (revoke_key
                  (lookup_by_plaintext hash s plaintext t0).1
                  ac.project_id
                  ac.key_id
                  t1).1
                calls).1
              plaintext
              t2).0
            ≡ error (lit "invalid api key"))
  unfolding revoke_key
  revoke_key_final s plaintext ac calls t0 t1 t2 fits u e =
      let (read, kept, fits1) = lookup_by_plaintext_row hash conflict s plaintext t0 fits in
      let h = hash plaintext in
      let s1 = (lookup_by_plaintext hash s plaintext t0).1 in
      let active = or_invalid-ok (select_active h s.rows) ac (sym read ∙ e) in
      let o = revoke_row ac.project_id ac.key_id t1 s1.rows in
      let to = rw (sym kept) at (revoke_row-RevokesTo h s.rows ac t1 u active) in
      let (replied, spent) = settle_revoke-Spent s1 h o to in
      (
        replied,
        stays_out (settle_revoke s1 o).1 plaintext calls t2
            (settle_revoke-Fits s1 o (revoke_row-Behind ac.project_id ac.key_id t1 s1.rows) fits1)
            spent,
      )
