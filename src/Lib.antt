-- ===== src/Lib.antt =====
-- Open LLMS is a gateway that sends each request to one of several upstream seats. A request names a
-- route; the route has a pool of accounts (seats) and a strategy. A dispatch picks a seat, calls it with
-- a body that names the seat's model, reads the stream up to its first token, and on a soft failure puts
-- the seat aside and goes on with the next one; a session prefers the seat that served it last. Around
-- it stand the renewal of the seats' tokens, the limits of a key, and the plan of a project.
--
-- Which file models which part:
--   Account           the rows of internal/store/store.go that routing reads
--   Store/Keys        the api_keys table and the auth cache of internal/store/store.go
--   Store/Routes      its routes table and route cache
--   Store/Seats       its accounts and route_accounts tables: pools, cooldowns
--   Gateway           WithAuth of internal/authn/authn.go, handleUpstream of internal/httpserver/server.go and
--                     the plan's guards of internal/httpserver/billing.go
--   Config, Number    JSON values as encoding/json decodes them, int64 durations, float64
--   Router/Presets    ApplyPreset, PresetFromRoute, configInt and configFloat of internal/router/router.go
--   Router/Selector   the round-robin counters, the random source and the soft failures of its Selector
--   Router/Pool       PreferAccount, Exclude, PreferFresh
--   Router/Pick       PickWithConfig and the strategies behind it
--   Router/Status     retryable statuses, cooldowns, ExponentialBackoff, CooldownFromHeaders
--   Proxy/Models      internal/proxy/account_model.go
--   Proxy/Affinity    Affinity of internal/proxy/affinity.go
--   Proxy/Commit      awaitCommit and inspectTTFT of internal/proxy/ttft.go
--   Proxy/Engine      what the loop of dispatch in internal/proxy/proxy.go does with one answer
--   Proxy/Dispatch    that loop
--   Proxy/Entry       the head of dispatch, and emptyAccountsResult
--   Proxy/Overflow    dispatchWithFallbacks and the account filters of the same file
--   Proxy/Race        dispatchParallel
--   Proxy/Upstream    doUpstreamOnce and the URLs, internal/vendor/vendor.go, ParseBearer of internal/apikey
--   Oauth             internal/proxy/oauth_refresh.go and loadCredential
--   Billing           internal/billing, and the row updates of internal/store/billing.go
--   Bridge/Codex      codex_bridge.go, codex_bridge_parse.go and codex_tools.go of internal/proxy: an answer
--                     of Codex as a chat stream and as one body (Bridge/Stream, Merge and Completion are
--                     what it shares with the next)
--   Bridge/Anthropic  anthropic_bridge_parse.go and anthropic_tools.go, the same for Anthropic
--   Bridge/Content    chat_content.go; Bridge/Messages and Bridge/Tools the messages and tools of a request
--   Bridge/Images     codex_images.go
--   Catalog           internal/modelcatalog/catalog.go
--   Health            internal/health/probe.go
--   Cache, Limiter    internal/ttlcache/ttlcache.go and internal/ratelimit/limiter.go
--   Assoc, Prelude    Go maps as association lists, and the shared names
--   Tests             sample data, and each theorem at a sample
--
-- A method that mutates is a function from the state to the state behind it; what stands under one lock
-- is one step. Operations keep the names of the source in snake case: get_affinity is Affinity.Get,
-- dispatch_accounts is Engine.dispatch on the accounts that the store listed, refresh_oauth_credential
-- is Engine.refreshOAuthCredential. A time is a number of nanoseconds, read from a clock that is part of
-- the world, as are the answers of the seats. Text is a list of code points, a uuid.UUID the number of
-- its bytes.
--
-- Fuel: only the loop of dispatch has it, one round more than there are servable seats, because every
-- round calls a seat that was not tried. The three puts of putCredentialWithRetry are the program's own
-- bound. All other loops are structural.
--
-- Parameters and their hypotheses: Number.Float is float64 by its comparison laws; the JSON frames of a
-- stream, the secret store, the vendors' token endpoints, uuid.Parse and the HTTP call of a seat are
-- arguments. Oauth.Kept.Durable says that a put without an error stores, that a get returns what is
-- stored, and that the JSON of a credential reads back.
--
-- The bridges work on decoded JSON; a client's pipe is a list of chunks with room for so many writes, and
-- a chunk is what the code writes without its id, model and time. The HTTP clients of the catalog and of
-- the probe, and the rows that json.Unmarshal reads from a body, are arguments too.
--
-- The store is its tables: a call is one step on the rows and the cache, the database answers every
-- statement, and uuid.New, the random key and the clock are arguments. The gateway has the dispatch, the
-- start of the month and the failure of EnsureFreePlan as parameters. Store.Routes.UuidText says that the
-- text of a uuid has 36 letters and is another one for another uuid. Foreign keys are left out, but for
-- the accounts that ReplaceRouteAccounts and AttachAccount name. The key that UpsertGitHubUser inserts
-- is one of Bootstrap or of CreateKey.
--
-- Not modelled: SQL text, HTTP handlers and pages beside the way to an upstream, cryptography, the quota
-- fetchers and the command line. JSON keys match exactly, where encoding/json also
-- takes another letter case; strings.ToLower is exact where its result is ASCII; Sub of two times does
-- not saturate at 292 years; the sum of the weights of a pool is taken to fit an int; the store of the
-- engine is present; the time when a winner of a race is remembered is one value.
pub mod Prelude
pub mod Assoc
pub mod Number
pub mod Config
pub mod Account
pub mod Billing
pub mod Bridge
pub mod Catalog
pub mod Health
pub mod Cache
pub mod Limiter
pub mod Oauth
pub mod Router
pub mod Store
pub mod Proxy
pub mod Gateway
mod Tests
