-- ===== src/Store/Keys/Refine.antt =====
-- internal/store/store.go: the calls on the keys next to the same calls on the api_keys table alone.
use openllms.Prelude.{
  ◌≡◌, List, [], ◌∷◌, Option, none, some, Bool, false, ◌&&◌, ◌||◌, ◌==◌, if◌then◌else◌, Text, take,
  text_eq, eq-text_eq, arith, refl, sym, ◌∙◌, ap, inl, inr, Bool-cases,
}
use openllms.Assoc.{text_instance}
use openllms.Number.{Time, Duration}
use openllms.Account.{Uuid}
use openllms.Cache.{Cache, new_cache, delete_cached}
use openllms.Store.Coherent.{
  Coherent, Coherent-wider, Coherent-new_cache, Coherent-delete_cached, read_through_row,
}
use openllms.Store.Keys.{
  bootstrap, KeyRow, AuthContext, is_null, select_active, taken, behind_row, revoke_row, active_as,
  revoke_named, KeyStore, invalidate_all, or_invalid, settle_revoke, revoke_key,
  revoke_keys_by_name, insert_key, create_key, lookup_by_plaintext,
}
use openllms.Store.Keys.Rows.{
  bootstrap_call, KeyCall, create_call, lookup_call, revoke_call, revoke_named_call, KeyReply,
  found, revoked, revoke_alone, call_keys, call_rows, run_keys, run_rows,
}

-- What the cache of the keys has to hold.
pub Fits : KeyStore → Type 0
Fits s = Coherent (λ h. select_active h s.rows) s.auth_cache

-- A hash that no row has is in no SELECT.
pub select_active-fresh :
    (id : Uuid) (h : Text) (rows : List KeyRow)
    → taken id h rows ≡ false
    → select_active h rows ≡ none
unfolding taken select_active
select_active-fresh id h [] e = refl
select_active-fresh id h (row ∷ rows) e = ground (arith, select_active-fresh id h rows)

-- A row of another hash does not enter the SELECT.
pub select_active-other :
    (h : Text) (row : KeyRow) (rows : List KeyRow)
    → text_eq row.key_hash h ≡ false
    → select_active h (row ∷ rows) ≡ select_active h rows
unfolding select_active
select_active-other h row rows e = rw e refl

-- An INSERT of a hash that is free hides no row.
select_active-insert :
    (row : KeyRow) (rows : List KeyRow) (k : Text) (ac : AuthContext)
    → taken row.id row.key_hash rows ≡ false
    → select_active k rows ≡ some ac
    → select_active k (row ∷ rows) ≡ some ac
select_active-insert row rows k ac free e = elim (Bool-cases (text_eq row.key_hash k)) [
  | inr other ↦ select_active-other k row rows other ∙ e
  | inl own ↦
      let free' = rw (eq-text_eq row.key_hash k own) at (free) in
      let gone = select_active-fresh row.id k rows free' in ground (arith, gone, e)
]

-- The UPDATE of RevokeKey leaves the other hashes as they are.
pub Behind : List KeyRow → Option (Text × List KeyRow) → Type 0
Behind rows none = Unit
Behind rows (some (h, rows')) =
    (k : Text) → text_eq h k ≡ false → select_active k rows' ≡ select_active k rows

Behind-behind_row :
    (row : KeyRow) (rows : List KeyRow) (o : Option (Text × List KeyRow))
    → Behind rows o
    → Behind (row ∷ rows) (behind_row row o)
unfolding Behind behind_row select_active
Behind-behind_row row rows none b = tt
Behind-behind_row row rows (some (h, rows')) b = λ k e. rw (b k e) refl

pub revoke_row-Behind :
    (project id : Uuid) (now : Time) (rows : List KeyRow)
    → Behind rows (revoke_row project id now rows)
unfolding revoke_row Behind
revoke_row-Behind project id now [] = tt
revoke_row-Behind project id now (row ∷ rows) =
    elim (Bool-cases (row.id == id && (row.project_id == project && is_null row.revoked_at))) [
      | inl e ↦ rw e (λ k other.
          select_active-other k (record row { revoked_at = some now }) rows other
          ∙ sym (select_active-other k row rows other))
      | inr e ↦ rw e (
          Behind-behind_row row rows (revoke_row project id now rows)
            (revoke_row-Behind project id now rows))
    ]

pub settle_revoke-Fits :
    (s : KeyStore) (o : Option (Text × List KeyRow))
    → Behind s.rows o
    → Fits s
    → Fits (settle_revoke s o).1
unfolding settle_revoke Fits Behind
settle_revoke-Fits s none b h = h
settle_revoke-Fits s (some (hash, rows)) b h =
    Coherent-delete_cached (λ k. select_active k s.rows) (λ k. select_active k rows) s.auth_cache
      hash b h

settle_revoke-alone :
    (s : KeyStore) (o : Option (Text × List KeyRow))
    → (revoked (settle_revoke s o).0 ≡ (revoke_alone s.rows o).0)
      × ((settle_revoke s o).1.rows ≡ (revoke_alone s.rows o).1)
unfolding settle_revoke revoke_alone
settle_revoke-alone s none = (refl, refl)
settle_revoke-alone s (some (hash, rows)) = (refl, refl)

-- The UPDATE of RevokeKeysByName leaves the hashes as they are that it does not return.
unfoldable has_among : List Text → Text → Bool
has_among [] k = false
has_among (h ∷ hs) k = text_eq h k || has_among hs k

revoke_named-other :
    (project : Uuid) (name : Text) (now : Time) (rows : List KeyRow) (k : Text)
    → has_among (revoke_named project name now rows).0 k ≡ false
    → select_active k (revoke_named project name now rows).1 ≡ select_active k rows
unfolding revoke_named has_among select_active
revoke_named-other project name now [] k e = refl
revoke_named-other project name now (row ∷ rows) k e =
    let ih = revoke_named-other project name now rows k in
    elim (Bool-cases (active_as project name row)) [
      | inl a ↦ let e' = rw a at (e) in rw a (ground (arith, ih))
      | inr a ↦ let e' = rw a at (e) in rw a (rw (ih e') refl)
    ]

invalidate_all-Coherent :
    (row row' : Text → Option AuthContext) (hashes : List Text) (c : Cache Text AuthContext)
    → ((k : Text) → has_among hashes k ≡ false → row' k ≡ row k)
    → Coherent row c
    → Coherent row' (invalidate_all hashes c)
unfolding invalidate_all has_among
invalidate_all-Coherent row row' [] c kept h =
    Coherent-wider row row' c (λ k v e. kept k refl ∙ e) h
invalidate_all-Coherent row row' (g ∷ hashes) c kept h =
    let mid : Text → Option AuthContext = λ k. if has_among hashes k then row k else row' k in
    invalidate_all-Coherent mid row' hashes (delete_cached c g) (λ k e. rw e refl)
      (Coherent-delete_cached row mid c g
        (λ k e. elim (Bool-cases (has_among hashes k)) [
          | inl l ↦ rw l refl
          | inr l ↦ rw l (kept k (ground (arith, e, l)))
        ])
        h)

revoke_keys_by_name-Fits :
    (s : KeyStore) (project : Uuid) (name : Text) (now : Time)
    → Fits s
    → Fits (revoke_keys_by_name s project name now).1
unfolding revoke_keys_by_name Fits
revoke_keys_by_name-Fits s project name now h =
    let (hashes, rows') = revoke_named project name now s.rows in
    invalidate_all-Coherent (λ k. select_active k s.rows) (λ k. select_active k rows') hashes
      s.auth_cache (revoke_named-other project name now s.rows) h

pub new_cache-Fits :
    (ttl : Duration) (rows : List KeyRow)
    → Fits (record { rows = rows; auth_cache = new_cache ttl })
unfolding Fits
new_cache-Fits ttl rows = Coherent-new_cache (λ h. select_active h rows) ttl

module _ (hash : Text → Text) (conflict : Text) where
  create_key-Fits :
      (s : KeyStore) (project : Uuid) (name : Text) (route : Option Uuid) (id : Uuid)
      (plaintext : Text) (now : Time)
      → Fits s
      → Fits (create_key hash conflict s project name route id plaintext now).1
  unfolding create_key insert_key Fits
  create_key-Fits s project name route id plaintext now h =
      elim (Bool-cases (taken id (hash plaintext) s.rows)) [
        | inl e ↦ rw e h
        | inr e ↦ rw e (
            let row : KeyRow = record {
              id = id;
              project_id = project;
              name = name;
              key_prefix = take 12 plaintext;
              key_hash = hash plaintext;
              route_id = route;
              revoked_at = none;
              created_at = now;
            } in
            Coherent-wider (λ k. select_active k s.rows) (λ k. select_active k (row ∷ s.rows))
              s.auth_cache (λ k ac. select_active-insert row s.rows k ac e) h)
      ]

  pub lookup_by_plaintext_row :
      (s : KeyStore) (plaintext : Text) (now : Time)
      → Fits s
      → ((lookup_by_plaintext hash s plaintext now).0
          ≡ or_invalid (select_active (hash plaintext) s.rows))
        × ((lookup_by_plaintext hash s plaintext now).1.rows ≡ s.rows)
        × Fits (lookup_by_plaintext hash s plaintext now).1
  unfolding lookup_by_plaintext Fits
  lookup_by_plaintext_row s plaintext now h =
      let read =
        read_through_row (λ k. select_active k s.rows) s.auth_cache (hash plaintext) now h in
      (ap or_invalid read.0, refl, read.1)

  -- What a call answers and does to the rows, on the store and on the table.
  pub Refines : KeyStore → KeyReply × KeyStore → KeyReply × List KeyRow → Type 0
  Refines s p q = (p.0 ≡ q.0) × (p.1.rows ≡ q.1) × Fits p.1

  call_keys-Refines :
      (s : KeyStore) (c : KeyCall)
      → Fits s
      → Refines s (call_keys hash conflict s c) (call_rows hash conflict s.rows c)
  unfolding Refines call_keys call_rows bootstrap create_key revoke_key revoke_keys_by_name
  call_keys-Refines s (create_call project name route id plaintext now) h =
      (refl, refl, create_key-Fits s project name route id plaintext now h)
  call_keys-Refines s (bootstrap_call project key_name id plaintext now) h =
      (refl, refl, create_key-Fits s project key_name none id plaintext now h)
  call_keys-Refines s (lookup_call plaintext now) h =
      let (e, rows, fits) = lookup_by_plaintext_row s plaintext now h in (ap found e, rows, fits)
  call_keys-Refines s (revoke_call project id now) h =
      let o = revoke_row project id now s.rows in
      let (reply, rows) = settle_revoke-alone s o in
      (reply, rows, settle_revoke-Fits s o (revoke_row-Behind project id now s.rows) h)
  call_keys-Refines s (revoke_named_call project name now) h =
      (refl, refl, revoke_keys_by_name-Fits s project name now h)

  pub run_keys-Refines :
      (s : KeyStore) (rows : List KeyRow) (calls : List KeyCall)
      → s.rows ≡ rows
      → Fits s
      → ((run_keys hash conflict s calls).0 ≡ (run_rows hash conflict rows calls).0)
        × ((run_keys hash conflict s calls).1.rows ≡ (run_rows hash conflict rows calls).1)
        × Fits (run_keys hash conflict s calls).1
  unfolding run_keys run_rows Refines
  run_keys-Refines s rows [] e h = (refl, e, h)
  run_keys-Refines s rows (c ∷ calls) e h =
      let (reply, kept, fits) = call_keys-Refines s c h in
      let ih =
        run_keys-Refines (call_keys hash conflict s c).1 (call_rows hash conflict rows c).1 calls
          (kept ∙ ap (λ r. (call_rows hash conflict r c).1) e) fits in
      let head = reply ∙ ap (λ r. (call_rows hash conflict r c).0) e in
      (rw (head, ih.0) refl, ih.1, ih.2)

  -- From an empty cache, every run of CreateKey, Bootstrap, LookupByPlaintext, RevokeKey and
  -- RevokeKeysByName, at any times, is answered as the api_keys table alone would answer it.
  pub run_keys-run_rows :
      (ttl : Duration) (rows : List KeyRow) (calls : List KeyCall)
      → (run_keys hash conflict (record { rows = rows; auth_cache = new_cache ttl }) calls).0
        ≡ (run_rows hash conflict rows calls).0
  run_keys-run_rows ttl rows calls =
      let s : KeyStore = record { rows = rows; auth_cache = new_cache ttl } in
      (run_keys-Refines s rows calls refl (new_cache-Fits ttl rows)).0
