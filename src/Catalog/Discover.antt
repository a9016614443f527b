-- ===== src/Catalog/Discover.antt =====
-- internal/modelcatalog/catalog.go: the list of one account, live, from the known lists or from the cache.
-- Secrets, the vendor's token endpoint and JSON are the `Outside`; `do_http` is the HTTP client with the
-- read of at most 1 MB of the body.
use openllms.Prelude.{
  ℕ, List, [], ◌∷◌, ◌++◌, Option, none, some, Bool, ◌&&◌, not, if◌then◌else◌, leb, Text, lit,
  is_empty, to_lower, equal_fold,
}
use openllms.Account.{Account, Uuid}
use openllms.Assoc.{nat_eq}
use openllms.Cache.{Cache, get_cached, set_cached}
use openllms.Oauth.{Credential, Tokens, Fallible, ok, error, Outside, bearer_token}
use openllms.Proxy.Upstream.{is_codex_oauth}
use openllms.Catalog.{Model, AccountModels, account_ref, default_of}
use openllms.Catalog.Parse.{Rows, parse_models_json, parse_codex_models_json, fallback_models}
use openllms.Catalog.Requests.{
  ListRequest, list_base, list_url, list_auth, is_auth_failure, status_digits,
}

-- `cacheEntry`.
pub record CacheEntry : Type 0 where
  pub models : List Model
  pub status : Text
  pub err : Text

-- What `fetchModelsOnce` returns: the models or the error, and the status.
abbrev pub Fetched : Type 0
Fetched = Fallible (List Model) × ℕ

-- The credential behind a refresh.
unfoldable pub fresh_credential : Tokens → Credential → Credential
fresh_credential toks old = record {
  api_key = [];
  access_token = toks.access_token;
  refresh_token = if is_empty toks.refresh_token then old.refresh_token else toks.refresh_token;
  expires_at = toks.expires_at;
  id_token = toks.id_token;
  chatgpt_account_id =
      if is_empty toks.chatgpt_account_id then old.chatgpt_account_id else toks.chatgpt_account_id;
}

module _ (json : Rows) {F : Type 0} where
  -- The part of `fetchModelsOnce` behind the answer.
  unfoldable pub read_list : Account F → Fallible (ℕ × Text) → Fetched
  read_list a (error e) = (error e, 0)
  read_list a (ok (status, b)) =
      if leb 300 status then (error (lit "upstream_" ++ status_digits status), status) else (
        (if is_codex_oauth a
            then parse_codex_models_json json b
            else parse_models_json json b a.vendor),
        status,
      )

-- The account's row before its list is known.
unfoldable pub blank_models : {F : Type 0} → Account F → AccountModels
blank_models a = record {
  id = account_ref a;
  provider = to_lower a.vendor;
  label = a.name;
  models = [];
  default_model = [];
  status = lit "ok";
  err = [];
}

-- The row of a hit.
unfoldable pub from_entry : {F : Type 0} → Account F → CacheEntry → AccountModels
from_entry a hit = record (blank_models a) {
  models = hit.models;
  status = hit.status;
  err = hit.err;
  default_model = default_of hit.models;
}

-- The error text of the known list, and of no list at all.
abbrev known_list_error : Fallible (List Model) → Text
known_list_error (error e) = lit "upstream_unavailable_using_known_list:" ++ e
known_list_error (ok _) = lit "upstream_unavailable_using_known_list:empty"

abbrev no_list_error : Fallible (List Model) → Text
no_list_error (error e) = e
no_list_error (ok _) = lit "no_models"

abbrev pub or_fallback : List Model → Fallible (List Model) → CacheEntry
or_fallback [] live = record { models = []; status = lit "error"; err = no_list_error live }
or_fallback (m ∷ ms) live = record {
  models = m ∷ ms;
  status = lit "ok";
  err = known_list_error live;
}

-- The entry of an account that is not cached: its live list, else the known one, else an error.
unfoldable pub entry_for : {F : Type 0} → Account F → Fallible (List Model) → CacheEntry
entry_for a (ok (m ∷ ms)) = record { models = m ∷ ms; status = lit "ok"; err = [] }
entry_for a live = or_fallback (fallback_models a.vendor a.auth_type) live

module _ (out : Outside) (json : Rows) where
  open out use {W, get, put, invalidate, refresh, now, encode, decode}

  module _ (do_http : ListRequest → W → Fallible (ℕ × Text) × W) {F : Type 0} where
    -- `fetchModelsOnce`.
    unfoldable pub fetch_models_once : Account F → Credential → Text → W → Fetched × W
    fetch_models_once a cred token w =
        let base = list_base a in
        let req : ListRequest = record {
          url = list_url a base;
          headers = list_auth a cred token;
        } in
        let (answer, w1) = do_http req w in
        if is_empty base then ((error (lit "no_base_url"), 0), w) else (read_list json a answer, w1)

    -- The put of a refreshed credential; its error is the refresh's.
    abbrev keep_fresh : Account F → Credential → Option Text × W → Fallible Credential × W
    keep_fresh a fresh (none, w) = (ok fresh, invalidate a.infisical_path w)
    keep_fresh a fresh (some e, w) = (error e, w)

    abbrev behind_refresh : Account F → Credential → Fallible Tokens × W → Fallible Credential × W
    behind_refresh a old (error e, w) = (error e, w)
    behind_refresh a old (ok toks, w) =
        let fresh = fresh_credential toks old in
        keep_fresh a fresh (put a.infisical_path (encode fresh) w)

    -- `refreshOAuthCred`.
    unfoldable pub refresh_oauth_cred : Account F → Credential → W → Fallible Credential × W
    refresh_oauth_cred a old w = behind_refresh a old (refresh a.vendor old.refresh_token w)

    abbrev second_fetch : Account F → Text → Fallible Credential × W → Fallible (List Model) × W
    second_fetch a err (error rerr, w) = (error (err ++ lit "; refresh_failed:" ++ rerr), w)
    second_fetch a err (ok fresh, w) =
        let ((models, _), w1) = fetch_models_once a fresh (bearer_token fresh) w in (models, w1)

    -- The part of `discoverLive` behind the first fetch: at most one refresh and a second fetch.
    unfoldable pub behind_fetch : Account F → Credential → Fetched × W → Fallible (List Model) × W
    behind_fetch a cred ((ok models, status), w) = (ok models, w)
    behind_fetch a cred ((error err, status), w) =
        let again = second_fetch a err (refresh_oauth_cred a cred w) in
        if equal_fold a.auth_type (lit "oauth")
          && is_auth_failure status err
          && not (is_empty cred.refresh_token)
        then again
        else (error err, w)

    abbrev with_secret : Account F → Option Credential → W → Fallible (List Model) × W
    with_secret a none w = (error (lit "bad_secret"), w)
    with_secret a (some cred) w =
        let token = bearer_token cred in
        let fetched = behind_fetch a cred (fetch_models_once a cred token w) in
        if is_empty token then (error (lit "missing_token"), w) else fetched

    abbrev behind_secret : Account F → Fallible Text × W → Fallible (List Model) × W
    behind_secret a (error e, w) = (error e, w)
    behind_secret a (ok raw, w) = with_secret a (decode raw) w

    -- `discoverLive`.
    unfoldable pub discover_live : Account F → W → Fallible (List Model) × W
    discover_live a w = behind_secret a (get a.infisical_path w)

    -- A miss: the new entry is cached, also where it is an error.
    abbrev pub fill :
        Account F → Cache Uuid CacheEntry → W → AccountModels × (Cache Uuid CacheEntry × W)
    fill a c w =
        let (live, w1) = discover_live a w in
        let entry = entry_for a live in (from_entry a entry, (set_cached c a.id entry (now w1), w1))

    abbrev pub hit_or :
        Account F
        → Option CacheEntry
        → Cache Uuid CacheEntry × W
        → AccountModels × (Cache Uuid CacheEntry × W)
        → AccountModels × (Cache Uuid CacheEntry × W)
    hit_or a none s missed = missed
    hit_or a (some e) s missed = (from_entry a e, s)

    -- `forAccount`; `has_secrets` is false for a discoverer without secrets.
    unfoldable pub for_account :
        Bool → Account F → Cache Uuid CacheEntry × W → AccountModels × (Cache Uuid CacheEntry × W)
    for_account has_secrets a (c, w) =
        let (hit, c1) = get_cached c a.id (now w) in
        let missed = fill a c1 w in
        if not has_secrets
        then (
          record (blank_models a) { status = lit "error"; err = lit "secrets_unavailable" },
          (c, w),
        )
        else hit_or a hit (c1, w) missed
