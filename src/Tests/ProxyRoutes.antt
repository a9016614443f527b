-- ===== src/Tests/ProxyRoutes.antt =====
-- The theorems on overflow routes, races and upstream calls of internal/proxy, at samples.
use openllms.Prelude.{
  ℕ, ◌+◌, ◌≡◌, List, [], ◌∷◌, ◌++◌, Option, none, some, true, false, Text, lit, refl, if◌then◌else◌,
  text_eq, has_prefix, trim_space, trim_left, is_space, is_empty, All,
}
use openllms.Prelude.Int.{ℤ, pos}
use openllms.Account.{Route}
use openllms.Router.Status.{absent, is_success_status, is_retryable_status}
use openllms.Proxy.Affinity.{Affinity, get_affinity, set_affinity}
use openllms.Proxy.Affinity.Laws.{get_affinity-set_affinity}
use openllms.Prelude.{is_empty, ◌≢◌, arith, true, false, if◌then◌else◌, text_eq}
use openllms.Account.{uuid_nil}
use openllms.Number.{after, time_add}
use openllms.Proxy.Commit.{Verdict, pending}
use openllms.Proxy.Engine.{Result, Engine, returned, Session}
use openllms.Proxy.Dispatch.{Run}
use openllms.Proxy.Overflow.{fallback_slugs, dispatch_with_fallbacks}
use openllms.Proxy.Overflow.Order.{
  first_settled, overflow_calls, dispatch_with_fallbacks-first_settled,
}
use openllms.Proxy.Race.{Field, Arrival, message, answered, failed, win, aggregate}
use openllms.Proxy.Race.First.{Passes, aggregate_first}
use openllms.Oauth.{Credential, ok, error, Outside}
use openllms.Oauth.Refresh.{load_credential, read_secret}
use openllms.Proxy.Upstream.{parse_bearer}
use openllms.Tests.{first, selector, route}

abbrev answer : ℕ → Result
answer code = record {
  status_code = code;
  body = [];
  latency = 1;
  tokens_in = 0;
  tokens_out = 0;
  account_id = 13;
  model = [];
  error = [];
  stream = none;
  retry_after = absent;
  attempts = 1;
  strategy = [];
  session_key = [];
  sticky_hit = false;
  failovers = [];
}

abbrev affinity : Affinity
affinity = record { ttl = pos 3600000000000; m = [] }

abbrev engine : Engine
engine = record { selector = selector; affinity = affinity; cooldowns = []; healthy = [] }

-- Every route answers 429; the route `spare` returns nil.
abbrev dispatch : Route ℤ → Engine → ℕ → Run ℕ
dispatch rt e w = record {
  exit = returned (if text_eq rt.slug (lit "spare") then none else some (answer 429));
  engine = e;
  world = w + 1;
  tried = [];
}

abbrev spare : Route ℤ
spare = record (route (lit "sequential")) { slug = lit "spare" }

abbrev by_slug : Text → ℕ → Option (Route ℤ)
by_slug slug w = if text_eq slug (lit "spare") then some spare else none

abbrev main_route : Route ℤ
main_route = route (lit "sequential")

dispatch_with_fallbacks-first_settled_example :
    dispatch_with_fallbacks dispatch by_slug main_route engine 0
    ≡ first_settled none (dispatch main_route engine 0) (
        dispatch main_route engine 0
        ∷ overflow_calls dispatch by_slug main_route
            (fallback_slugs main_route.config)
            (dispatch main_route engine 0))
dispatch_with_fallbacks-first_settled_example =
    dispatch_with_fallbacks-first_settled dispatch by_slug main_route engine 0

s_named : is_empty (lit "s") ≡ false
unfolding is_empty
s_named = refl

thirteen : 13 ≢ uuid_nil
thirteen e = absurd (ground arith)

get_affinity-set_affinity_example :
    (get_affinity (set_affinity affinity (lit "s") 13 0) (lit "s") 100).0 ≡ (
      if text_eq (lit "s") (lit "s")
      then (if after 100 (time_add 0 affinity.ttl) then (uuid_nil, false) else (13, true))
      else (get_affinity affinity (lit "s") 100).0)
get_affinity-set_affinity_example =
    get_affinity-set_affinity affinity (lit "s") (lit "s") 13 0 100 s_named thirteen

abbrev race_field : Field
race_field = record { size = 3; session_key = lit "s"; sticky = 13 }

abbrev early : List Arrival
early = message (failed (lit "refused")) ∷ message (answered (answer 503)) ∷ []

early-Passes : All Passes early
unfolding Passes is_success_status is_retryable_status
early-Passes = (tt, ((refl, refl), tt))

served : is_success_status 200 ≡ true
unfolding is_success_status
served = refl

aggregate_first_example :
    aggregate (early ++ (message (answered (answer 200)) ∷ [])) race_field 77 none engine ≡ (
      returned (some (win race_field (answer 200))),
      record engine { affinity = set_affinity affinity (lit "s") 13 77 },
    )
aggregate_first_example =
    aggregate_first early [] (answer 200) race_field 77 none engine early-Passes served

-- A secret store that is down.
abbrev closed : Outside
closed = record {
  W = ℕ;
  get = λ path w. (error (lit "down"), w + 1);
  put = λ path raw w. (some (lit "down"), w + 1);
  pause = λ w. (none, w);
  invalidate = λ path w. w;
  refresh = λ vendor token w. (error (lit "down"), w);
  now = λ w. w;
  encode = λ c. [];
  decode = λ raw. none;
  parse_time = λ t. none;
  holds = λ w path raw. false;
}

abbrev exec : Credential → Text → ℕ → (Option Result × Option Text) × ℕ
exec cred token w = ((some (answer 200), none), w)

abbrev session : Session
session = record {
  strategy = lit "sequential";
  session_key = lit "s";
  sticky = 0;
  sticky_ok = false;
}

abbrev inspect : Text → Verdict
inspect s = pending

closed_load : (load_credential closed first 0).0 ≡ error (lit "secret_fetch")
unfolding load_credential read_secret
closed_load = refl

parsed : parse_bearer (lit " Bearer sk-gt-abc ") ≡ ok (lit "sk-gt-abc")
unfolding parse_bearer trim_space trim_left is_space has_prefix is_empty
parsed = refl
