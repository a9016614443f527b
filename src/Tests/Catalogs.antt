-- ===== src/Tests/Catalogs.antt =====
-- The theorems on internal/modelcatalog, internal/health and runs of internal/ttlcache, at sample data.
use openllms.Prelude.{
  ℕ, ◌≡◌, List, [], ◌∷◌, map, Option, none, some, Bool, true, false, Text, lit, text_eq, refl,
  is_empty, has, distinct, trim_space, trim_left, is_space, has_prefix, to_lower, contains,
}
use openllms.Prelude.Int.{ℤ, pos}
use openllms.Assoc.{nat_eq, lookup}
use openllms.Account.{Account, Uuid}
use openllms.Cache.{Cache, new_cache, enabled, get_cached, get_live}
use openllms.Cache.Runs.{
  Call, get_call, set_call, delete_call, in_order, run_cache, run_view, run_cache-run_view,
}
use openllms.Oauth.{Fallible, ok}
use openllms.Catalog.{looks_like_account_ref, Model, AccountModels, RouteModels, for_route, suggest}
use openllms.Catalog.Parse.{
  fallback_models, Rows, CodexRow, Cand, candidates, codex_models, skipped_row, row_id,
}
use openllms.Catalog.Requests.{ListRequest}
use openllms.Catalog.Discover.{CacheEntry, for_account, discover_live}
use openllms.Catalog.Union.{union_of}
use openllms.Catalog.Collected.{answers, answer_models, offers, for_route-union_of}
use openllms.Number.{after, time_add}
use openllms.Catalog.Listed.{sound, for_route-sound}
use openllms.Catalog.Codex.{model_id, listable_id, strict, codex_models-listable_id}
use openllms.Catalog.Cached.{row_sound, cache_sound, Shows, for_account_sound, for_account-again}
use openllms.Health.{Probe, probe_once}
use openllms.Health.Marks.{Told, Marked, probe_once-Told}
use openllms.Tests.{first, seats, route}
use openllms.Tests.Renewal.{store, secrets_up}

abbrev rows : Rows
rows = record {
  data_rows = λ b. some ((lit "gpt-5", []) ∷ (lit "gpt-5", []) ∷ (lit "codex:main", []) ∷ []);
  model_rows = λ b. none;
  codex_rows = λ b. none;
}

abbrev http : ListRequest → ℕ × Text → Fallible (ℕ × Text) × (ℕ × Text)
http req w = (ok (200, lit "{}"), w)

abbrev cache : Cache Uuid CacheEntry
cache = record { ttl = pos 300; m = [] }

abbrev account_models :
    Account ℤ
    → Cache Uuid CacheEntry × (ℕ × Text)
    → AccountModels × (Cache Uuid CacheEntry × (ℕ × Text))
account_models = for_account store rows http true

for_route-union_of_example :
    (for_route account_models (route (lit "quota-first")) seats (cache, secrets_up)).0 ≡ (
      let rt = route (lit "quota-first") in
      let ans = answers account_models seats (cache, secrets_up) in
      let models = union_of (offers ans) in
      some (record {
        route = rt.slug;
        strategy = rt.strategy;
        accounts = map answer_models ans;
        models = models;
        suggested_model = suggest rt.default_model models (map answer_models ans);
      }))
for_route-union_of_example =
    for_route-union_of account_models (route (lit "quota-first")) seats (cache, secrets_up)

for_route-sound_example :
    (cat : RouteModels) × ((for_route account_models
        (route (lit "quota-first"))
        seats
        (cache, secrets_up)).0
      ≡ some cat)
    × (sound cat ≡ true)
for_route-sound_example =
    for_route-sound account_models (route (lit "quota-first")) seats (cache, secrets_up)

abbrev row : Text → Option Bool → CodexRow
row slug flag = record { slug = slug; id = []; supported_in_api = flag; visibility = lit "list" }

abbrev codex_rows : List CodexRow
codex_rows = row (lit "gpt-5.5") (some true) ∷ row (lit "gpt-old") (some false) ∷ []

abbrev cand : Text → Bool → Cand
cand id flag = record { id = id; supported_in_api = flag }

kept_rows : candidates codex_rows ≡ cand (lit "gpt-5.5") true ∷ cand (lit "gpt-old") false ∷ []
unfolding candidates skipped_row row_id looks_like_account_ref contains has_prefix to_lower text_eq
    is_empty trim_space trim_left is_space
kept_rows = refl

codex_models-listable_id_example :
    (ms : List Model) × (codex_models codex_rows ≡ ok ms)
    × (distinct (map model_id ms) ≡ true)
    × ((id : Text)
        → has id (map model_id ms)
          ≡ listable_id
              (strict codex_rows)
              id
              (cand (lit "gpt-5.5") true ∷ cand (lit "gpt-old") false ∷ []))
codex_models-listable_id_example =
    codex_models-listable_id codex_rows (cand (lit "gpt-5.5") true)
      (cand (lit "gpt-old") false ∷ []) kept_rows

empty_cache_sound : cache_sound cache.m ≡ true
unfolding cache_sound
empty_cache_sound = refl

for_account_sound_example :
    (row_sound (for_account store rows http true first (cache, secrets_up)).0 ≡ true)
    × (cache_sound (for_account store rows http true first (cache, secrets_up)).1.0.m ≡ true)
    × Shows true
        (get_cached cache first.id (store.now secrets_up)).0
        (discover_live store rows http first secrets_up).0
        (fallback_models first.vendor first.auth_type)
        (for_account store rows http true first (cache, secrets_up)).0
for_account_sound_example =
    for_account_sound store rows http true first cache secrets_up empty_cache_sound

cache_on : enabled cache ≡ true
unfolding enabled
cache_on = refl

first_miss : (get_cached cache first.id 0).0 ≡ none
unfolding get_cached get_live lookup enabled
first_miss = refl

still_cached :
    after (store.now secrets_up) (
      time_add
        (store.now (for_account store rows http true first (cache, secrets_up)).1.1)
        cache.ttl)
    ≡ false
unfolding for_account
still_cached = refl

for_account-again_example :
    let (am, (c1, w1)) = for_account store rows http true first (cache, secrets_up) in
    for_account store rows http true first (c1, secrets_up) ≡ (am, (c1, secrets_up))
for_account-again_example =
    for_account-again store rows http first cache secrets_up secrets_up cache_on first_miss
      still_cached

abbrev send : Probe → ℕ × Text → Option ℕ × (ℕ × Text)
send p w = (some 429, w)

abbrev never : ℕ × Text → Option Text
never w = none

probe_once-Told_example :
    let (counts, (err, (marks, w'))) =
      probe_once store send never true (pos 60) (ok seats) secrets_up in
    Told seats (0, 0) (counts, (err, marks))
    × Marked store send never (pos 60) seats secrets_up marks w'
probe_once-Told_example = probe_once-Told store send never (pos 60) seats secrets_up

abbrev calls : List (Call ℕ ℕ)
calls =
    set_call 1 10 5
    ∷ get_call 1 6
    ∷ set_call 2 20 7
    ∷ delete_call 1 8
    ∷ get_call 1 9
    ∷ get_call 2 400
    ∷ []

calls-in_order : in_order 0 calls ≡ true
unfolding in_order
calls-in_order = refl

run_cache-run_view_example :
    run_cache (new_cache (pos 300)) calls
    ≡ run_view (enabled (new_cache {K = ℕ} {V = ℕ} (pos 300))) (pos 300) (λ k t. none) calls
run_cache-run_view_example = run_cache-run_view (pos 300) calls calls-in_order
