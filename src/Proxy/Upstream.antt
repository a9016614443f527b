-- ===== src/Proxy/Upstream.antt =====
-- internal/proxy/proxy.go, internal/vendor/vendor.go and internal/apikey: which upstream an account is
-- sent to, the one retry behind a 401, and the key of a request.
use openllms.Prelude.{
  [], ◌∷◌, ◌++◌, Option, none, some, Bool, ◌&&◌, ◌||◌, ◌==◌, not, if◌then◌else◌, Text, lit, text_eq,
  is_empty, to_lower, equal_fold, trim_space, has_prefix, drop,
}
use mathlib.Core.List.{reverse}
use openllms.Account.{Account}
use openllms.Oauth.{Credential, Fallible, ok, error, Outside, bearer_token}
use openllms.Oauth.Refresh.{Pending, load_credential, refresh_oauth_credential}
use openllms.Proxy.Engine.{Result}
use openllms.Proxy.Race.{bad_gateway}

-- The host of a vendor for an API key, without the two that sign in.
abbrev key_base_url : Text → Text
key_base_url v =
    if text_eq v (lit "deepseek")
    then lit "https://api.deepseek.com/v1"
    else if text_eq v (lit "openai") || text_eq v (lit "codex")
    then lit "https://api.openai.com/v1"
    else if text_eq v (lit "claude") || text_eq v (lit "anthropic")
    then lit "https://api.anthropic.com"
    else if text_eq v (lit "kimi") || text_eq v (lit "moonshot")
    then lit "https://api.moonshot.cn/v1"
    else if text_eq v (lit "glm")
    then lit "https://open.bigmodel.cn/api/paas/v4"
    else []

-- `DefaultBaseURLFor`.
unfoldable pub default_base_url_for : Text → Text → Text
default_base_url_for vendor auth_type =
    let v = to_lower vendor in
    if equal_fold auth_type (lit "oauth") && (text_eq v (lit "openai") || text_eq v (lit "codex"))
    then lit "https://chatgpt.com/backend-api/codex"
    else key_base_url v

-- `strings.TrimRight(s, "/")`.
unfoldable pub trim_slashes_left : Text → Text
trim_slashes_left [] = []
trim_slashes_left (c ∷ s) = let rest = trim_slashes_left s in if c == b'/' then rest else c ∷ s

unfoldable pub trim_slashes : Text → Text
trim_slashes s = reverse (trim_slashes_left (reverse s))

-- `ParseBearer`.
unfoldable pub parse_bearer : Text → Fallible Text
parse_bearer text =
    let header = trim_space text in
    let tok = trim_space (drop 7 header) in
    if is_empty header
    then error (lit "missing Authorization")
    else if not (has_prefix header (lit "Bearer "))
    then error (lit "Authorization must be Bearer")
    else if is_empty tok || not (has_prefix tok (lit "sk-gt-"))
    then error (lit "invalid api key")
    else ok tok

module _ {F : Type 0} where
  -- `isCodexOAuth`.
  unfoldable pub is_codex_oauth : Account F → Bool
  is_codex_oauth acc =
      let v = to_lower acc.vendor in
      equal_fold acc.auth_type (lit "oauth")
      && (text_eq v (lit "codex") || text_eq v (lit "openai"))

  -- `isClaudeAccount`.
  unfoldable pub is_claude_account : Account F → Bool
  is_claude_account acc =
      let v = to_lower acc.vendor in text_eq v (lit "claude") || text_eq v (lit "anthropic")

  -- `isOpenAIAPIKey`.
  unfoldable pub is_openai_api_key : Account F → Bool
  is_openai_api_key acc =
      let v = to_lower acc.vendor in
      equal_fold acc.auth_type (lit "api_key")
      && (text_eq v (lit "openai") || text_eq v (lit "codex"))

  abbrev base_url_of : Account F → Text
  base_url_of acc =
      if is_empty acc.base_url then default_base_url_for acc.vendor acc.auth_type else acc.base_url

  -- `resolveResponsesURL`, `resolveOpenAIURL` and `resolveImagesURL`.
  unfoldable pub resolve_responses_url : Account F → Text
  resolve_responses_url acc = trim_slashes (base_url_of acc) ++ lit "/responses"

  unfoldable pub resolve_openai_url : Account F → Text
  resolve_openai_url acc = trim_slashes (base_url_of acc) ++ lit "/chat/completions"

  unfoldable pub resolve_images_url : Account F → Text
  resolve_images_url acc = trim_slashes (base_url_of acc) ++ lit "/images/generations"

-- Whether an answer is the 401 of a seat that can renew its tokens.
unfoldable pub wants_refresh : {F : Type 0} → Account F → Credential → Result → Bool
wants_refresh acc cred r =
    r.status_code == 401
    && equal_fold acc.auth_type (lit "oauth")
    && not (is_empty (trim_space cred.refresh_token))

module _ (out : Outside)
    (exec : Credential → Text → out.W → (Option Result × Option Text) × out.W) where
  open out use {W}

  -- Behind the refresh: one more call with the new credential, or the first answer.
  unfoldable pub call_again :
      Result → Fallible Credential × (Pending × W) → (Option Result × Option Text) × (Pending × W)
  call_again first (error e, s) = ((some first, none), s)
  call_again first (ok cred, (pending, w)) =
      let (answer, w1) = exec cred (bearer_token cred) w in (answer, (pending, w1))

  -- Behind the first call.
  unfoldable pub behind_first :
      {F : Type 0}
      → Account F
      → Credential
      → Pending
      → (Option Result × Option Text) × W
      → (Option Result × Option Text) × (Pending × W)
  behind_first acc cred pending ((r, some err), w) = ((r, some err), (pending, w))
  behind_first acc cred pending ((none, none), w) = ((none, none), (pending, w))
  behind_first acc cred pending ((some r, none), w) =
      if wants_refresh acc cred r
      then call_again (record r { stream = none }) (refresh_oauth_credential out acc cred pending w)
      else ((some r, none), (pending, w))

  unfoldable pub with_credential :
      {F : Type 0}
      → Account F
      → Fallible Credential × W
      → Pending
      → (Option Result × Option Text) × (Pending × W)
  with_credential acc (error e, w) pending = ((some (bad_gateway e acc.id), some e), (pending, w))
  with_credential acc (ok cred, w) pending =
      behind_first acc cred pending (exec cred (bearer_token cred) w)

  -- `doUpstreamOnce`, over `execUpstream`.
  unfoldable pub do_upstream_once :
      {F : Type 0} → Account F → Pending → W → (Option Result × Option Text) × (Pending × W)
  do_upstream_once acc pending w = with_credential acc (load_credential out acc w) pending
