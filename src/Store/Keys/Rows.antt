-- ===== src/Store/Keys/Rows.antt =====
-- internal/store/store.go: the calls on the keys against the api_keys table alone, which knows no cache.
use openllms.Prelude.{ℕ, List, [], ◌∷◌, Option, none, some, Text, lit, length}
use openllms.Assoc.{text_instance}
use openllms.Number.{Time}
use openllms.Account.{Uuid}
use openllms.Oauth.{Fallible, ok, error}
use openllms.Store.Keys.{
  bootstrap, KeyRow, AuthContext, select_active, revoke_row, revoke_named, KeyStore, or_invalid,
  revoke_key, revoke_keys_by_name, insert_key, create_key, lookup_by_plaintext,
}

pub data KeyCall : Type 0 where
  create_call : Uuid → Text → Option Uuid → Uuid → Text → Time → KeyCall
  bootstrap_call : Uuid → Text → Uuid → Text → Time → KeyCall
  lookup_call : Text → Time → KeyCall
  revoke_call : Uuid → Uuid → Time → KeyCall
  revoke_named_call : Uuid → Text → Time → KeyCall

pub data KeyReply : Type 0 where
  created : Fallible Text → KeyReply
  found : Fallible AuthContext → KeyReply
  revoked : Fallible Unit → KeyReply
  counted : ℕ → KeyReply

unfoldable pub revoke_alone : List KeyRow → Option (Text × List KeyRow) → KeyReply × List KeyRow
revoke_alone rows none = (revoked (error (lit "key not found")), rows)
revoke_alone rows (some (hash, rows')) = (revoked (ok tt), rows')

module _ (hash : Text → Text) (conflict : Text) where
  unfoldable pub call_keys : KeyStore → KeyCall → KeyReply × KeyStore
  call_keys s (create_call project name route id plaintext now) =
      let (reply, s') = create_key hash conflict s project name route id plaintext now in
      (created reply, s')
  call_keys s (bootstrap_call project key_name id plaintext now) =
      let (reply, s') = bootstrap hash conflict s project key_name id plaintext now in
      (created reply, s')
  call_keys s (lookup_call plaintext now) =
      let (reply, s') = lookup_by_plaintext hash s plaintext now in (found reply, s')
  call_keys s (revoke_call project id now) =
      let (reply, s') = revoke_key s project id now in (revoked reply, s')
  call_keys s (revoke_named_call project name now) =
      let (n, s') = revoke_keys_by_name s project name now in (counted n, s')

  -- The same call on the table alone.
  unfoldable pub call_rows : List KeyRow → KeyCall → KeyReply × List KeyRow
  call_rows rows (create_call project name route id plaintext now) =
      let (reply, rows') = insert_key hash conflict rows project name route id plaintext now in
      (created reply, rows')
  call_rows rows (bootstrap_call project key_name id plaintext now) =
      let (reply, rows') = insert_key hash conflict rows project key_name none id plaintext now in
      (created reply, rows')
  call_rows rows (lookup_call plaintext now) =
      (found (or_invalid (select_active (hash plaintext) rows)), rows)
  call_rows rows (revoke_call project id now) = revoke_alone rows (revoke_row project id now rows)
  call_rows rows (revoke_named_call project name now) =
      let (hashes, rows') = revoke_named project name now rows in (counted (length hashes), rows')

  unfoldable pub run_keys : KeyStore → List KeyCall → List KeyReply × KeyStore
  run_keys s [] = ([], s)
  run_keys s (c ∷ calls) =
      let (reply, s') = call_keys s c in
      let (replies, s'') = run_keys s' calls in (reply ∷ replies, s'')

  unfoldable pub run_rows : List KeyRow → List KeyCall → List KeyReply × List KeyRow
  run_rows rows [] = ([], rows)
  run_rows rows (c ∷ calls) =
      let (reply, rows') = call_rows rows c in
      let (replies, rows'') = run_rows rows' calls in (reply ∷ replies, rows'')
