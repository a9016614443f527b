-- ===== src/Oauth/Refresh.antt =====
-- internal/proxy/oauth_refresh.go: `refreshOAuthCredential`, and what it calls.
use openllms.Prelude.{
  ℕ, zero, suc, [], List, Option, none, some, Bool, false, ◌||◌, not, if◌then◌else◌, Text, lit,
  is_empty, trim_space,
}
use openllms.Assoc.{lookup, insert, delete, nat_eq}
use openllms.Account.{Uuid, Account}
use openllms.Oauth.{Credential, Tokens, Fallible, ok, error, Outside, bearer_token, creds_rotated}

-- The new tokens that could not be put, by account (`pendingCreds`).
abbrev pub Pending : Type 0
Pending = List (Uuid × Credential)

-- The credential that an error leaves.
abbrev pub no_credential : Credential
no_credential = record {
  api_key = [];
  access_token = [];
  refresh_token = [];
  expires_at = [];
  id_token = [];
  chatgpt_account_id = [];
}

abbrev pub or_no_credential : Fallible Credential → Credential
or_no_credential (ok c) = c
or_no_credential (error e) = no_credential

-- The refresh token that is used: the stored one before the caller's.
unfoldable pub refresh_token_of : Fallible Credential → Credential → Text
refresh_token_of (ok fresh) old =
    if not (is_empty fresh.refresh_token) then fresh.refresh_token else old.refresh_token
refresh_token_of (error e) old = old.refresh_token

-- The new credential: what the vendor left out is taken from the credentials before.
unfoldable pub new_credential : Tokens → Text → Credential → Credential → Credential
new_credential toks refresh_tok fresh old = record {
  api_key = [];
  access_token = toks.access_token;
  refresh_token = if is_empty toks.refresh_token then refresh_tok else toks.refresh_token;
  expires_at = toks.expires_at;
  id_token = toks.id_token;
  chatgpt_account_id =
      if is_empty toks.chatgpt_account_id
      then (if not (is_empty fresh.chatgpt_account_id)
          then fresh.chatgpt_account_id
          else old.chatgpt_account_id)
      else toks.chatgpt_account_id;
}

unfoldable pub already_rotated : Fallible Credential → Credential → Bool
already_rotated (ok fresh) old = creds_rotated fresh old
already_rotated (error e) old = false

-- What a put leaves pending: the credential where it failed, nothing where it did not.
unfoldable pub settle : Uuid → Credential → Option Text → Pending → Pending
settle id cred none pending = delete id pending
settle id cred (some err) pending = insert id cred pending

module _ (out : Outside) where
  open out use {W, get, put, pause, invalidate, refresh, encode, decode}

  unfoldable pub checked : Option Credential → Fallible Credential
  checked none = error (lit "bad_secret")
  checked (some cred) =
      if is_empty (bearer_token cred)
      then error (lit "credential missing api_key/access_token")
      else ok cred

  unfoldable pub read_secret : Fallible Text → Fallible Credential
  read_secret (error e) = error (lit "secret_fetch")
  read_secret (ok raw) = checked (decode raw)

  -- `loadCredential`; the token is the `bearer_token` of the credential.
  unfoldable pub load_credential : {F : Type 0} → Account F → W → Fallible Credential × W
  load_credential acc w = let (raw, w1) = get acc.infisical_path w in (read_secret raw, w1)

  -- The loop of `putCredentialWithRetry`, with the attempts that are left and the last error.
  unfoldable pub put_loop : ℕ → Text → Text → Option Text → W → Option Text × W
  put_loop zero path raw last w = (last, w)
  put_loop (suc n) path raw last w =
      let (err, w1) = put path raw w in
      elim err [
        | none ↦ (none, w1)
        | some e ↦
            let (over, w2) = pause w1 in
            elim over [ none ↦ put_loop n path raw (some e) w2 | some x ↦ (some x, w2) ]
      ]

  -- `putCredentialWithRetry`.
  unfoldable pub put_with_retry : Text → Text → W → Option Text × W
  put_with_retry path raw w = put_loop 3 path raw none w

  -- The part of a refresh behind the call of the vendor.
  unfoldable pub keep_tokens :
      {F : Type 0}
      → Account F
      → Text
      → Credential
      → Credential
      → Pending
      → Fallible Tokens × W
      → Fallible Credential × (Pending × W)
  keep_tokens acc refresh_tok fresh old pending (error e, w) = (error e, (pending, w))
  keep_tokens acc refresh_tok fresh old pending (ok toks, w) =
      let cred = new_credential toks refresh_tok fresh old in
      let (err, w1) = put_with_retry acc.infisical_path (encode cred) w in
      (ok cred, (settle acc.id cred err pending, w1))

  -- The part of a refresh behind the pending credential.
  unfoldable pub rotate :
      {F : Type 0} → Account F → Credential → Pending → W → Fallible Credential × (Pending × W)
  rotate acc old pending w =
      let (loaded, w1) = load_credential acc (invalidate acc.infisical_path w) in
      let fresh = or_no_credential loaded in
      let refresh_tok = refresh_token_of loaded old in
      if already_rotated loaded old
      then (loaded, (pending, w1))
      else if is_empty (trim_space refresh_tok)
      then (error (lit "missing refresh_token"), (pending, w1))
      else keep_tokens acc refresh_tok fresh old pending (refresh acc.vendor refresh_tok w1)

  -- A pending credential is put again, and used.
  unfoldable pub from_pending :
      {F : Type 0}
      → Option Credential
      → Account F
      → Credential
      → Pending
      → W
      → Fallible Credential × (Pending × W)
  from_pending none acc old pending w = rotate acc old pending w
  from_pending (some p) acc old pending w =
      let (err, w1) = put_with_retry acc.infisical_path (encode p) w in
      let pending1 = settle acc.id p err pending in
      if creds_rotated p old || not (is_empty p.access_token)
      then (ok p, (pending1, w1))
      else rotate acc old pending1 w1

  -- `refreshOAuthCredential`.
  unfoldable pub refresh_oauth_credential :
      {F : Type 0} → Account F → Credential → Pending → W → Fallible Credential × (Pending × W)
  refresh_oauth_credential acc old pending w =
      from_pending (lookup acc.id pending) acc old pending w
