-- ===== src/Tests/Services.antt =====
-- The theorems on internal/billing, internal/ttlcache and internal/ratelimit, at sample data.
use openllms.Prelude.{
  ℕ, ◌+◌, ◌-◌, ◌*◌, ◌≤◌, ◌≡◌, inl, List, [], ◌∷◌, Option, none, some, false, arith, Text, lit, refl,
  text_eq,
}
use openllms.Prelude.Int.{pos}
use openllms.Assoc.{nat_eq, text_instance, lookup}
use openllms.Number.{Time}
use openllms.Account.{Uuid}
use openllms.Billing.Plans.{plan_starter, plan_pro}
use openllms.Billing.Rows.{ProjectBilling, apply_paid_period}
use openllms.Billing.Laws.{PaidUntil, apply_paid_period_runs}
use openllms.Billing.RequestId.{format_unifi_request_id, parse_unifi_request_id}
use openllms.Billing.RequestId.RoundTrip.{NoColon, parse-format_unifi_request_id}
use openllms.Cache.{Cache}
use openllms.Limiter.{MemoryLimiter}
use openllms.Limiter.Laws.{let_through, let_through_bounded}

-- A project whose paid period ends at 1000.
abbrev project : ProjectBilling
project = record {
  project_id = 1;
  owner_id = 2;
  github_id = lit "octo";
  plan = plan_starter;
  status = lit "past_due";
  trial_started_at = none;
  trial_ends_at = none;
  trial_used = false;
  user_trial_used = false;
  current_period_start = some 10;
  current_period_end = some 1000;
  cancel_at_period_end = false;
  billing_provider = lit "polar";
  provider_customer_id = lit "c1";
  provider_subscription_id = lit "s1";
  soft_cap_tokens = pos 0;
}

apply_paid_period_runs_example :
    PaidUntil plan_pro 3000 2500
      (apply_paid_period project plan_pro (lit "polar") (lit "c2") (lit "s2") 2000 3000)
apply_paid_period_runs_example =
    apply_paid_period_runs project plan_pro (lit "polar") (lit "c2") (lit "s2") 2000 3000 2500

-- Ids as one letter behind the ASCII digits.
abbrev write_id : Uuid → Text
write_id id = (id + 100) ∷ []

abbrev read_id : Text → Option Uuid
read_id (c ∷ []) = some (c - 100)
read_id _ = none

read_written : (id : Uuid) → read_id (write_id id) ≡ some id
read_written id = ground arith

written-NoColon : (id : Uuid) → NoColon (write_id id)
unfolding NoColon
written-NoColon id = (ground arith, tt)

parse-format_unifi_request_id_example :
    parse_unifi_request_id write_id read_id
      (format_unifi_request_id write_id read_id 7 plan_starter)
    ≡ some (7, plan_starter)
parse-format_unifi_request_id_example =
    parse-format_unifi_request_id write_id read_id 7 plan_starter read_written written-NoColon
      (inl refl)

abbrev cache : Cache ℕ ℕ
cache = record { ttl = pos 10; m = (1, record { v = 5; exp = 50 }) ∷ [] }

-- Key a has used one of its two calls in the window that started at 5.
abbrev limiter : MemoryLimiter
limiter = record {
  limit = pos 60;
  window = pos 100;
  buckets = (lit "a", record { start = 5; count = 1 }) ∷ [];
}

abbrev calls : List (Text × Time)
calls = (lit "a", 20) ∷ (lit "b", 30) ∷ (lit "a", 40) ∷ []

limiter_bucket : lookup (lit "a") limiter.buckets ≡ some (record { start = 5; count = 1 })
unfolding lookup text_eq
limiter_bucket = refl

let_through_bounded_example : let_through calls limiter (lit "a") (pos 2) ≤ 2 * 2
let_through_bounded_example =
    let_through_bounded calls limiter (lit "a") 2 100 15 (omega arith) refl
      (rw limiter_bucket (omega arith))
      ((omega arith, omega arith), ((omega arith, omega arith), ((omega arith, omega arith), tt)))
