-- ===== src/Store/Keys.antt =====
-- internal/store/store.go: the api_keys table and its cache. The digest of internal/apikey is a
-- parameter, and so is the text of the database's error on a row that is there; the id, the key and the
-- time that a call draws are its arguments. (The foreign keys of the table are left out.)
pub mod Rows
pub mod Refine
pub mod Spent
pub mod Revoked
use openllms.Prelude.{
  ℕ, List, [], ◌∷◌, Option, none, some, Bool, true, false, not, ◌&&◌, ◌||◌, ◌==◌, if◌then◌else◌,
  Text, lit, text_eq, take, length, keep,
}
use openllms.Assoc.{text_instance}
use openllms.Number.{Time}
use openllms.Account.{Uuid}
use openllms.Cache.{Cache, delete_cached}
use openllms.Oauth.{Fallible, ok, error}
use openllms.Store.{read_through}

-- A row of api_keys.
pub record KeyRow : Type 0 where
  pub id : Uuid
  pub project_id : Uuid
  pub name : Text
  pub key_prefix : Text
  pub key_hash : Text
  pub route_id : Option Uuid
  pub revoked_at : Option Time
  pub created_at : Time

-- `AuthContext`.
pub record AuthContext : Type 0 where
  pub key_id : Uuid
  pub project_id : Uuid
  pub key_name : Text
  pub prefix : Text
  pub route_id : Option Uuid

-- `revoked_at IS NULL`.
abbrev pub is_null : Option Time → Bool
is_null none = true
is_null (some t) = false

abbrev pub auth_context : KeyRow → AuthContext
auth_context row = record {
  key_id = row.id;
  project_id = row.project_id;
  key_name = row.name;
  prefix = row.key_prefix;
  route_id = row.route_id;
}

-- The SELECT of LookupByPlaintext.
unfoldable pub select_active : Text → List KeyRow → Option AuthContext
select_active hash [] = none
select_active hash (row ∷ rows) =
    let rest = select_active hash rows in
    if text_eq row.key_hash hash && is_null row.revoked_at then some (auth_context row) else rest

-- Whether a row has the id or the hash: the primary key, and the unique column.
unfoldable pub taken : Uuid → Text → List KeyRow → Bool
taken id hash [] = false
taken id hash (row ∷ rows) = (row.id == id || text_eq row.key_hash hash) || taken id hash rows

unfoldable pub behind_row : KeyRow → Option (Text × List KeyRow) → Option (Text × List KeyRow)
behind_row row none = none
behind_row row (some (hash, rows)) = some (hash, row ∷ rows)

-- The UPDATE of RevokeKey, with the hash that it returns; an id is in one row at most.
unfoldable pub revoke_row : Uuid → Uuid → Time → List KeyRow → Option (Text × List KeyRow)
revoke_row project id now [] = none
revoke_row project id now (row ∷ rows) =
    let rest = revoke_row project id now rows in
    if row.id == id && (row.project_id == project && is_null row.revoked_at)
    then some (row.key_hash, record row { revoked_at = some now } ∷ rows)
    else behind_row row rest

-- The rows that are `active` under a name.
unfoldable pub active_as : Uuid → Text → KeyRow → Bool
active_as project name row =
    row.project_id == project && (text_eq row.name name && is_null row.revoked_at)

-- The UPDATE of RevokeKeysByName, with the hashes that it returns.
unfoldable pub revoke_named : Uuid → Text → Time → List KeyRow → List Text × List KeyRow
revoke_named project name now [] = ([], [])
revoke_named project name now (row ∷ rows) =
    let (hashes, rest) = revoke_named project name now rows in
    if active_as project name row
    then (row.key_hash ∷ hashes, record row { revoked_at = some now } ∷ rest)
    else (hashes, row ∷ rest)

-- `CountActiveKeysByName`.
unfoldable pub count_active_keys_by_name : List KeyRow → Uuid → Text → ℕ
count_active_keys_by_name rows project name = length (keep (active_as project name) rows)

-- The table, and the cache of what LookupByPlaintext found.
pub record KeyStore : Type 0 where
  pub rows : List KeyRow
  pub auth_cache : Cache Text AuthContext

unfoldable pub invalidate_all : List Text → Cache Text AuthContext → Cache Text AuthContext
invalidate_all [] c = c
invalidate_all (hash ∷ hashes) c = invalidate_all hashes (delete_cached c hash)

unfoldable pub or_invalid : Option AuthContext → Fallible AuthContext
or_invalid none = error (lit "invalid api key")
or_invalid (some ac) = ok ac

unfoldable pub settle_revoke : KeyStore → Option (Text × List KeyRow) → Fallible Unit × KeyStore
settle_revoke s none = (error (lit "key not found"), s)
settle_revoke s (some (hash, rows)) =
    (ok tt, record { rows = rows; auth_cache = delete_cached s.auth_cache hash })

-- `RevokeKey`.
unfoldable pub revoke_key : KeyStore → Uuid → Uuid → Time → Fallible Unit × KeyStore
revoke_key s project id now = settle_revoke s (revoke_row project id now s.rows)

-- `RevokeKeysByName`.
unfoldable pub revoke_keys_by_name : KeyStore → Uuid → Text → Time → ℕ × KeyStore
revoke_keys_by_name s project name now =
    let (hashes, rows) = revoke_named project name now s.rows in
    (length hashes, record { rows = rows; auth_cache = invalidate_all hashes s.auth_cache })

module _ (hash : Text → Text) (conflict : Text) where
  -- The INSERT of CreateKey.
  unfoldable pub insert_key :
      List KeyRow → Uuid → Text → Option Uuid → Uuid → Text → Time → Fallible Text × List KeyRow
  insert_key rows project name route id plaintext now =
      if taken id (hash plaintext) rows then (error conflict, rows) else (
        ok plaintext,
        record {
          id = id;
          project_id = project;
          name = name;
          key_prefix = take 12 plaintext;
          key_hash = hash plaintext;
          route_id = route;
          revoked_at = none;
          created_at = now;
        }
            ∷ rows,
      )

  -- `CreateKey`, of what uuid.New and apikey.Generate draw.
  unfoldable pub create_key :
      KeyStore → Uuid → Text → Option Uuid → Uuid → Text → Time → Fallible Text × KeyStore
  create_key s project name route id plaintext now =
      let (reply, rows) = insert_key s.rows project name route id plaintext now in
      (reply, record s { rows = rows })

  -- The key that `Bootstrap` inserts, which is for no single route; the user and the project that it
  -- inserts with it are in other tables.
  unfoldable pub bootstrap : KeyStore → Uuid → Text → Uuid → Text → Time → Fallible Text × KeyStore
  bootstrap s project key_name id plaintext now =
      create_key s project key_name none id plaintext now

module _ (hash : Text → Text) where
  -- `LookupByPlaintext`.
  unfoldable pub lookup_by_plaintext : KeyStore → Text → Time → Fallible AuthContext × KeyStore
  lookup_by_plaintext s plaintext now =
      let h = hash plaintext in
      let (found, c) = read_through s.auth_cache h now (select_active h s.rows) in
      (or_invalid found, record s { auth_cache = c })
