-- ===== src/Health.antt =====
-- internal/health/probe.go: the probe of the accounts. The secret store, the HTTP client and the context
-- are parameters; the store's marks are the trace that a run leaves, since their errors are dropped.
pub mod Marks
use openllms.Prelude.{
  ℕ, zero, suc, List, [], ◌∷◌, ◌++◌, Option, none, some, Bool, true, false, ◌&&◌, ◌||◌, ◌==◌, not,
  if◌then◌else◌, ltb, leb, Text, lit, text_eq, is_empty, to_lower, equal_fold, trim_space, ◌*◌,
}
use openllms.Prelude.Int.{pos, ltb_ℤ}
use openllms.Number.{Time, Duration, time_add, second}
use openllms.Account.{Account, Uuid}
use openllms.Oauth.{Credential, Fallible, ok, error, Outside, bearer_token}
use openllms.Proxy.Upstream.{default_base_url_for, trim_slashes}

-- A request of a probe, and whether it is the chat's, with its fixed body.
pub record Probe : Type 0 where
  pub url : Text
  pub headers : List (Text × Text)
  pub chat : Bool

-- What `MarkAccountHealthy` and `MarkAccountUnhealthy` are called with.
pub data Mark : Type 0 where
  healthy : Uuid → Mark
  unhealthy : Uuid → Time → Mark

-- `cool`.
unfoldable pub cool : Duration → Duration
cool cool_for = if ltb_ℤ (pos 0) cool_for then cool_for else pos (60 * second)

-- `supportsChatProbe`.
unfoldable pub supports_chat_probe : Text → Bool
supports_chat_probe name =
    let v = to_lower (trim_space name) in
    text_eq v (lit "deepseek")
    || text_eq v (lit "openai")
    || text_eq v (lit "codex")
    || text_eq v (lit "kimi")
    || text_eq v (lit "moonshot")
    || text_eq v (lit "glm")

abbrev auth_dead : ℕ → Bool
auth_dead status = status == 401 || status == 403

abbrev below_500 : ℕ → Bool
below_500 status = not (auth_dead status) && (ltb 0 status && ltb status 500)

-- The answer of `probeChatCompletions`; `none` is an error of the client.
unfoldable pub chat_alive : Option ℕ → Bool
chat_alive none = false
chat_alive (some status) = below_500 status

-- The answer of `probeModels`, for an OAuth seat and for an API key.
unfoldable pub models_alive : Bool → Option ℕ → Bool
models_alive oauth none = false
models_alive oauth (some status) =
    if oauth then below_500 status else leb 200 status && ltb status 300

module _ {F : Type 0} where
  -- The base URL of `probeAccount`.
  unfoldable pub probe_base : Account F → Text
  probe_base a =
      let base = trim_slashes a.base_url in
      if is_empty base then default_base_url_for a.vendor a.auth_type else base

  abbrev oauth_headers : Account F → Credential → List (Text × Text)
  oauth_headers a cred =
      let v = to_lower a.vendor in
      let account : List (Text × Text) =
        if (text_eq v (lit "codex") || text_eq v (lit "openai"))
          && not (is_empty cred.chatgpt_account_id)
        then (lit "ChatGPT-Account-Id", cred.chatgpt_account_id) ∷ []
        else [] in
      let beta : List (Text × Text) =
        if text_eq v (lit "claude") || text_eq v (lit "anthropic")
        then (lit "anthropic-beta", lit "oauth-2025-04-20") ∷ []
        else [] in
      account ++ beta

  -- Whether `probeAccount` asks the chat.
  unfoldable pub asks_chat : Account F → Bool
  asks_chat a = not (equal_fold a.auth_type (lit "oauth")) && supports_chat_probe a.vendor

  -- The request of a probe.
  unfoldable pub probe_request : Account F → Credential → Probe
  probe_request a cred =
      let bearer : Text × Text = (lit "Authorization", lit "Bearer " ++ bearer_token cred) in
      if asks_chat a
      then record {
        url = trim_slashes (probe_base a) ++ lit "/chat/completions";
        headers = bearer ∷ (lit "Content-Type", lit "application/json") ∷ [];
        chat = true;
      }
      else record {
        url = trim_slashes (probe_base a) ++ lit "/models";
        headers =
            bearer ∷ (if equal_fold a.auth_type (lit "oauth") then oauth_headers a cred else []);
        chat = false;
      }

  -- The verdict on an answer.
  unfoldable pub alive : Account F → Option ℕ → Bool
  alive a answer =
      if asks_chat a
      then chat_alive answer
      else models_alive (equal_fold a.auth_type (lit "oauth")) answer

-- The counts behind a probe.
abbrev pub tally : Bool → ℕ × ℕ → ℕ × ℕ
tally true (good, bad) = (suc good, bad)
tally false (good, bad) = (good, suc bad)

abbrev pub unless_over : {A : Type 0} → Option Text → (Text → A) → A → A
unless_over none stop go = go
unless_over (some e) stop go = stop e

-- The mark of an account behind its probe at a time.
abbrev pub mark_of : Duration → Uuid → Bool → Time → Mark
mark_of cool_for id true t = healthy id
mark_of cool_for id false t = unhealthy id (time_add t (cool cool_for))

module _ (out : Outside) (send : Probe → out.W → Option ℕ × out.W)
    (over : out.W → Option Text) where
  open out use {W, get, now, decode}

  module _ {F : Type 0} where
    abbrev probe_with : Account F → Option Credential → W → Bool × W
    probe_with a none w = (false, w)
    probe_with a (some cred) w =
        let (answer, w1) = send (probe_request a cred) w in
        if is_empty (bearer_token cred) then (false, w) else (alive a answer, w1)

    abbrev probe_secret : Account F → Fallible Text × W → Bool × W
    probe_secret a (error e, w) = (false, w)
    probe_secret a (ok raw, w) = probe_with a (decode raw) w

    -- `probeAccount`.
    unfoldable pub probe_account : Account F → W → Bool × W
    probe_account a w = probe_secret a (get a.infisical_path w)

    -- The loop of `ProbeOnce`: the counts, the error of a context that is over, the marks in order.
    unfoldable pub probe_all :
        Duration → List (Account F) → ℕ × ℕ → W → (ℕ × ℕ) × (Option Text × (List Mark × W))
    probe_all cool_for [] counts w = (counts, (none, ([], w)))
    probe_all cool_for (a ∷ rest) counts w =
        let (up, w1) = probe_account a w in
        let (counts', (err, (marks, w2))) = probe_all cool_for rest (tally up counts) w1 in
        unless_over (over w) (λ e. (counts, (some e, ([], w))))
          (counts', (err, (mark_of cool_for a.id up (now w1) ∷ marks, w2)))

    -- `ProbeOnce`, behind `ListAllAccounts`; `configured` is false without a store or secrets.
    unfoldable pub probe_once :
        Bool
        → Duration
        → Fallible (List (Account F))
        → W
        → (ℕ × ℕ) × (Option Text × (List Mark × W))
    probe_once false cool_for listed w = ((0, 0), (none, ([], w)))
    probe_once true cool_for (error e) w = ((0, 0), (some e, ([], w)))
    probe_once true cool_for (ok accounts) w = probe_all cool_for accounts (0, 0) w
