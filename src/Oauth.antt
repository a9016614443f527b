-- ===== src/Oauth.antt =====
-- internal/proxy/oauth_refresh.go, with loadCredential and doUpstreamOnce of internal/proxy/proxy.go and
-- the credentials of internal/secrets: the renewal of the tokens of a seat. The lock of an account makes
-- a refresh one step; the secret store, the vendor, the clock and JSON are the outside.
pub mod Refresh
pub mod Kept
pub mod Expiring
use openllms.Prelude.{
  ◌*◌, [], List, Option, none, some, Bool, true, false, ◌&&◌, ◌||◌, not, if◌then◌else◌, Text,
  text_eq, is_empty,
}
use openllms.Account.{Uuid, Account}
use openllms.Number.{Time, Duration}

-- `CredentialJSON`.
pub record Credential : Type 0 where
  pub api_key : Text
  pub access_token : Text
  pub refresh_token : Text
  pub expires_at : Text
  pub id_token : Text
  pub chatgpt_account_id : Text

-- What `vendorauth.Refresh` returns.
pub record Tokens : Type 0 where
  pub access_token : Text
  pub refresh_token : Text
  pub expires_at : Text
  pub id_token : Text
  pub chatgpt_account_id : Text

-- A value, or the text of an error.
pub data Fallible (A : Type 0) : Type 0 where
  ok : A → Fallible A
  error : Text → Fallible A

-- The outside: `Get`, `Put` and `Invalidate` of the secrets at a path, the pause between two puts (with
-- the error of a context that is over), `vendorauth.Refresh`, the clock, and the JSON of a credential.
-- `holds w path raw` says that the durable secret at the path is `raw`.
pub record Outside : Type 1 where
  pub W : Type 0
  pub get : Text → W → Fallible Text × W
  pub put : Text → Text → W → Option Text × W
  pub pause : W → Option Text × W
  pub invalidate : Text → W → W
  pub refresh : Text → Text → W → Fallible Tokens × W
  pub now : W → Time
  pub encode : Credential → Text
  pub decode : Text → Option Credential
  pub parse_time : Text → Option Time
  pub holds : W → Text → Text → Bool

-- `BearerToken`.
unfoldable pub bearer_token : Credential → Text
bearer_token c = if not (is_empty c.access_token) then c.access_token else c.api_key

abbrev differ : Text → Text → Bool
differ fresh old = not (is_empty fresh) && not (is_empty old) && not (text_eq fresh old)

-- `credsRotated`.
unfoldable pub creds_rotated : Credential → Credential → Bool
creds_rotated fresh old =
    differ fresh.access_token old.access_token || differ fresh.refresh_token old.refresh_token
