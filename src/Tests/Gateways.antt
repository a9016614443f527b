-- ===== src/Tests/Gateways.antt =====
-- The theorems on internal/store and on the way of a request, at a sample store and a sample server.
use openllms.Prelude.{
  ℕ, ◌+◌, ◌≡◌, refl, [], ◌∷◌, ◌++◌, List, Option, none, some, true, false, keep, map, lit, Text,
  is_empty, trim_space, trim_left, is_space, text_eq, has_prefix, ap, ◌*◌, ◌/◌,
}
use openllms.Prelude.Int.{ℤ, pos}
use openllms.Assoc.{text_instance, lookup, insert}
use openllms.Number.{Time, second}
use openllms.Account.{Account, Route}
use openllms.Config.{Fields, end}
use openllms.Oauth.{ok, error}
use openllms.Limiter.{new_memory}
use openllms.Cache.{new_cache, enabled, get_cached, get_live, set_cached}
use openllms.Store.{read_through, cached_or, cache_row}
use openllms.Store.Keys.{
  KeyRow, auth_context, select_active, taken, KeyStore, or_invalid, revoke_key, lookup_by_plaintext,
}
use openllms.Store.Keys.Rows.{
  bootstrap_call, KeyCall, create_call, lookup_call, revoke_call, revoke_named_call, run_keys,
  run_rows,
}
use openllms.Store.Keys.Refine.{new_cache-Fits, run_keys-run_rows}
use openllms.Store.Keys.Revoked.{keyed, revoke_key_final}
use openllms.Store.Routes.{UuidText, id_taken}
use openllms.Store.Routes.Rows.{ids_distinct}
use openllms.Store.Routes.Calls.{
  RouteCall, create_call, get_call, get_by_id_call, update_call, delete_call, run_routes, run_table,
}
use openllms.Store.Routes.Refine.{run_routes-run_table}
use openllms.Store.Seats.{
  AccountRow, SeatTables, account_of, is_usable, find_account, list_route_accounts, list_route_pool,
  join_seats, cools_after, behind_attachment, attach_all, commit_replaced, replace_route_accounts,
  earliest_route_cooldown,
}
use openllms.Store.Seats.Replaced.{seats_at}
use openllms.Store.Seats.Listed.{replace_route_accounts_lists}
use openllms.Store.Seats.Cooldowns.{EndsFirst, earliest_route_cooldown-EndsFirst}
use openllms.Router.Presets.{sequential}
use openllms.Proxy.Upstream.{parse_bearer}
use openllms.Proxy.Engine.{returned}
use openllms.Proxy.Entry.{listed, dispatch_in_turn}
use openllms.Proxy.Entry.Empty.{Enters, dispatch_in_turn-Enters}
use openllms.Gateway.{chat, Request, refused, Gateway, refusal}
use openllms.Gateway.Handle.{Server, serve_request}
use openllms.Gateway.Admitted.{Guarded, serve_request-Guarded}
use openllms.Gateway.Revoked.{after_revoking, revoked_key_refused}
use openllms.Tests.{scaled, seats, route}
use openllms.Tests.ProxyRuns.{clockwork, inspect, body, engine, answer}

-- A uuid as its number and 35 more letters.
abbrev write_uuid : ℕ → Text
write_uuid n = n ∷ lit "-----------------------------------"

abbrev first_letter : Text → ℕ
first_letter [] = 0
first_letter (c ∷ s) = c

abbrev uuids : UuidText
uuids = record {
  uuid_string = write_uuid;
  length-uuid_string = λ a. refl;
  uuid_string_inj = λ a b e. ap first_letter e;
}

abbrev digest : Text → Text
digest s = lit "#" ++ s

abbrev key : Text
key = lit "sk-gt-abc"

abbrev key_row : KeyRow
key_row = record {
  id = 7;
  project_id = 1;
  name = lit "ci";
  key_prefix = key;
  key_hash = digest key;
  route_id = none;
  revoked_at = none;
  created_at = 3;
}

abbrev ttl : ℤ
ttl = pos (30 * second)

abbrev key_store : KeyStore
key_store = record { rows = key_row ∷ []; auth_cache = new_cache ttl }

abbrev key_calls : List KeyCall
key_calls =
    lookup_call key 5
    ∷ create_call 1 (lit "other") none 8 (lit "sk-gt-def") 6
    ∷ lookup_call key 7
    ∷ revoke_call 1 7 8
    ∷ lookup_call key 9
    ∷ bootstrap_call 2 (lit "bootstrap") 9 (lit "sk-gt-ghi") 9
    ∷ revoke_named_call 1 (lit "other") 10
    ∷ []

run_keys-run_rows_example :
    (run_keys digest (lit "conflict") key_store key_calls).0
    ≡ (run_rows digest (lit "conflict") (key_row ∷ []) key_calls).0
run_keys-run_rows_example = run_keys-run_rows digest (lit "conflict") ttl (key_row ∷ []) key_calls

key_rows_keyed : keyed (key_row ∷ []) ≡ true
unfolding keyed taken
key_rows_keyed = refl

key_found : (lookup_by_plaintext digest key_store key 5).0 ≡ ok (auth_context key_row)
unfolding lookup_by_plaintext read_through cached_or cache_row get_cached get_live enabled new_cache
    set_cached lookup insert select_active or_invalid text_eq
key_found = refl

revoke_key_final_example :
    ((revoke_key (lookup_by_plaintext digest key_store key 5).1 1 7 6).0 ≡ ok tt)
    × ((lookup_by_plaintext digest
          (run_keys digest
            (lit "conflict")
            (revoke_key (lookup_by_plaintext digest key_store key 5).1 1 7 6).1
            key_calls).1
          key
          20).0
        ≡ error (lit "invalid api key"))
revoke_key_final_example =
    revoke_key_final digest (lit "conflict") key_store key (auth_context key_row) key_calls 5 6 20
      (new_cache-Fits ttl (key_row ∷ [])) key_rows_keyed key_found

abbrev routes : List (Route ℤ)
routes = route sequential ∷ []

routes_distinct : ids_distinct routes ≡ true
unfolding ids_distinct id_taken
routes_distinct = refl

abbrev route_calls : List (RouteCall ℤ)
route_calls =
    create_call 1 (lit "fast") [] [] none 50 5
    ∷ get_call 1 (lit "fast") 6
    ∷ update_call 1 (lit "fast") (lit "steward") (lit "gpt-5") (some end) 7
    ∷ get_call 1 (lit "fast") 8
    ∷ delete_call 1 (lit "fast") 9
    ∷ get_call 1 (lit "fast") 10
    ∷ get_by_id_call 50
    ∷ []

run_routes-run_table_example :
    run_routes uuids
      (lit "conflict")
      (record { rows = routes; route_cache = new_cache ttl })
      route_calls
    ≡ run_table (lit "conflict") routes route_calls
run_routes-run_table_example =
    run_routes-run_table uuids (lit "conflict") ttl routes route_calls routes_distinct

abbrev seat_row : Account ℤ → Option Time → AccountRow ℤ
seat_row a until = record { account = a; cooldown_until = until; created_at = 1 }

abbrev seat_rows : List (Account ℤ) → List (AccountRow ℤ)
seat_rows [] = []
seat_rows (a ∷ accounts) = seat_row a (some (a.id * 10)) ∷ seat_rows accounts

abbrev pools : SeatTables ℤ
pools = record {
  accounts = seat_rows seats;
  attached =
      record { route_id = 40; account_id = 11; position = pos 0; weight = pos 1 }
      ∷ record { route_id = 7; account_id = 11; position = pos 0; weight = pos 1 }
      ∷ record { route_id = 41; account_id = 12; position = pos 0; weight = pos 2 }
      ∷ [];
}

replaced : (replace_route_accounts (lit "conflict") pools 40 (13 ∷ 12 ∷ []) (pos 3 ∷ [])).0 ≡ ok tt
unfolding replace_route_accounts attach_all behind_attachment commit_replaced find_account
replaced = refl

replace_route_accounts_lists_example :
    (list_route_accounts
        (replace_route_accounts (lit "conflict") pools 40 (13 ∷ 12 ∷ []) (pos 3 ∷ [])).1
        40
        200
      ≡ map account_of
          (keep (is_usable 200) (seats_at (seat_rows seats) (13 ∷ 12 ∷ []) (pos 3 ∷ []) 0)))
    × (list_route_accounts
          (replace_route_accounts (lit "conflict") pools 40 (13 ∷ 12 ∷ []) (pos 3 ∷ [])).1
          41
          200
        ≡ list_route_accounts pools 41 200)
replace_route_accounts_lists_example =
    replace_route_accounts_lists (lit "conflict") pools 40 41 (13 ∷ 12 ∷ []) (pos 3 ∷ []) 200
      replaced refl

earliest_route_cooldown-EndsFirst_example :
    EndsFirst 100
      (keep (cools_after 100) (join_seats 40 (seat_rows seats) pools.attached))
      (earliest_route_cooldown pools 40 100 100)
earliest_route_cooldown-EndsFirst_example = earliest_route_cooldown-EndsFirst pools 40 100 100

abbrev marshal : Fields ℤ → Text
marshal fs = lit "{}"

abbrev whole_seconds : ℤ → ℤ
whole_seconds (pos d) = pos ((d + 999000000) / second)
whole_seconds d = d

dispatch_in_turn-Enters_example :
    Enters scaled clockwork inspect body marshal whole_seconds
      (λ w. pools)
      (lit "s")
      false
      (route sequential)
      (list_route_pool pools (route sequential).id)
      (listed scaled clockwork inspect body marshal whole_seconds
        (λ w. pools)
        (lit "s")
        none
        (route sequential)
        50)
      (dispatch_in_turn scaled clockwork inspect body marshal whole_seconds
        (λ w. pools)
        (lit "s")
        none
        (route sequential)
        engine
        50)
dispatch_in_turn-Enters_example =
    dispatch_in_turn-Enters scaled clockwork inspect body marshal whole_seconds (λ w. pools)
      (lit "s") none (route sequential) engine 50

abbrev server : Server ℤ ℕ
server = record {
  cfg = record { billing_enforce = false; rate_limit_per_min = pos 60; secrets = true };
  hash = digest;
  uuids = uuids;
  month_start = λ now. 0;
  clock = λ w. w;
  free_plan_fails = λ project. false;
  dispatch = λ kind rt b e w. record {
    exit = returned (some (answer 13 200));
    engine = e;
    world = w + second;
    tried = 13 ∷ [];
  };
}

abbrev gateway : KeyStore → Gateway ℤ ℕ
gateway keys = record {
  keys = keys;
  routes = record { rows = routes; route_cache = new_cache ttl };
  limiter = some (new_memory (pos 60) (pos (60 * second)));
  billing = [];
  usage = [];
  engine = engine;
  world = 50;
}

abbrev request : Request
request = record {
  authorization = lit "Bearer sk-gt-abc";
  slug = (route sequential).slug;
  body = some (lit "{}");
  kind = chat;
}

serve_request-Guarded_example :
    Guarded server request (gateway key_store) (serve_request server request (gateway key_store))
serve_request-Guarded_example = serve_request-Guarded server request (gateway key_store)

key_read : parse_bearer request.authorization ≡ ok key
unfolding parse_bearer trim_space trim_left is_space has_prefix is_empty
key_read = refl

revoked_key_refused_example :
    (serve_request server request (
      gateway (
        after_revoking server
          (lit "conflict")
          key_store
          key
          (auth_context key_row)
          5
          6
          key_calls))).0
    ≡ refused (refusal 401 (lit "unauthorized"))
revoked_key_refused_example =
    revoked_key_refused server (lit "conflict") request
      (gateway
        (after_revoking server (lit "conflict") key_store key (auth_context key_row) 5 6 key_calls))
      key_store key (auth_context key_row) key_calls 5 6 (new_cache-Fits ttl (key_row ∷ []))
      key_rows_keyed key_found key_read refl
