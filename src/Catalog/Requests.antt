-- ===== src/Catalog/Requests.antt =====
-- internal/modelcatalog/catalog.go: the request for an account's list, its URL and its headers.
use openllms.Prelude.{
  ℕ, ◌+◌, ◌/◌, ◌%◌, List, [], ◌∷◌, ◌++◌, Bool, ◌&&◌, ◌||◌, ◌==◌, if◌then◌else◌, Text, lit, text_eq,
  is_empty, to_lower, equal_fold, contains, drop, has_prefix,
}
use mathlib.Core.List.{reverse}
use openllms.Account.{Account}
use openllms.Assoc.{nat_eq}
use openllms.Oauth.{Credential}
use openllms.Proxy.Upstream.{default_base_url_for, is_codex_oauth, trim_slashes}

pub record ListRequest : Type 0 where
  pub url : Text
  pub headers : List (Text × Text)

-- `codexClientVersion`.
abbrev codex_client_version : Text
codex_client_version = lit "0.144.1"

-- `strings.TrimSuffix(s, "/v1")`.
unfoldable pub trim_v1 : Text → Text
trim_v1 s = if has_prefix (reverse s) (lit "1v/") then reverse (drop 3 (reverse s)) else s

-- The three digits of an HTTP status.
abbrev pub status_digits : ℕ → Text
status_digits n = (48 + n / 100 % 10) ∷ (48 + n / 10 % 10) ∷ (48 + n % 10) ∷ []

-- `isAuthFailure`, of an error.
unfoldable pub is_auth_failure : ℕ → Text → Bool
is_auth_failure status err =
    status == 401
    || status == 403
    || contains err (lit "upstream_401")
    || contains err (lit "upstream_403")

abbrev account_header : Credential → List (Text × Text)
account_header cred =
    if is_empty cred.chatgpt_account_id
    then []
    else (lit "ChatGPT-Account-Id", cred.chatgpt_account_id) ∷ []

module _ {F : Type 0} where
  -- The base URL of `fetchModelsOnce`.
  unfoldable pub list_base : Account F → Text
  list_base a =
      let base = trim_slashes a.base_url in
      let def = default_base_url_for a.vendor a.auth_type in
      if is_codex_oauth a
      then (if is_empty base || contains base (lit "api.openai.com") then def else base)
      else if is_empty base
      then def
      else base

  abbrev is_claude : Account F → Bool
  is_claude a = let v = to_lower a.vendor in text_eq v (lit "claude") || text_eq v (lit "anthropic")

  -- The URL of `fetchModelsOnce`, of its base.
  unfoldable pub list_url : Account F → Text → Text
  list_url a base =
      if is_codex_oauth a
      then trim_slashes base ++ lit "/models?client_version=" ++ codex_client_version
      else if is_claude a
      then trim_slashes (trim_v1 base) ++ lit "/v1/models"
      else base ++ lit "/models"

  -- `applyListAuth`.
  unfoldable pub list_auth : Account F → Credential → Text → List (Text × Text)
  list_auth a cred token =
      let oauth = equal_fold a.auth_type (lit "oauth") in
      let bearer : Text × Text = (lit "Authorization", lit "Bearer " ++ token) in
      if oauth && is_claude a
      then bearer
        ∷ (lit "anthropic-version", lit "2023-06-01")
        ∷ (lit "anthropic-beta", lit "oauth-2025-04-20")
        ∷ (lit "User-Agent", lit "claude-code/1.0")
        ∷ (lit "Accept", lit "application/json")
        ∷ []
      else if is_codex_oauth a
      then bearer
        ∷ (lit "User-Agent", lit "codex_cli_rs/" ++ codex_client_version)
        ∷ (lit "originator", lit "codex_cli_rs")
        ∷ (lit "Accept", lit "application/json")
        ∷ account_header cred
      else if is_claude a
      then (lit "x-api-key", token)
        ∷ (lit "anthropic-version", lit "2023-06-01")
        ∷ (lit "Accept", lit "application/json")
        ∷ []
      else bearer ∷ (lit "Accept", lit "application/json") ∷ []
