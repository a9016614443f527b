-- ===== src/Billing/Plans.antt =====
-- internal/billing/plans.go and internal/billing/entitlement.go: what a plan allows, and whether a
-- project may use the gateway at a time.
use openllms.Prelude.{
  ◌*◌, ◌∷◌, [], List, Option, none, some, Bool, true, false, ◌&&◌, ◌||◌, not, if◌then◌else◌, Text,
  lit, text_eq,
}
use openllms.Prelude.Int.{ℤ, pos}
use openllms.Assoc.{lookup, text_instance}
use openllms.Number.{Time, Duration, second, time_add, after}

-- `Plan`, a string.
abbrev pub Plan : Type 0
Plan = Text

abbrev pub plan_none : Plan
plan_none = lit "none"

abbrev pub plan_free : Plan
plan_free = lit "free"

abbrev pub plan_trial : Plan
plan_trial = lit "trial"

abbrev pub plan_starter : Plan
plan_starter = lit "starter"

abbrev pub plan_pro : Plan
plan_pro = lit "pro"

-- `Limits`.
pub record Limits : Type 0 where
  pub accounts : ℤ
  pub routes : ℤ
  pub keys : ℤ
  pub rpm : ℤ
  pub soft_cap : ℤ

abbrev free_limits : Limits
free_limits = record {
  accounts = pos 1;
  routes = pos 1;
  keys = pos 1;
  rpm = pos 30;
  soft_cap = pos 5000000;
}

abbrev no_limits : Limits
no_limits = record { accounts = pos 0; routes = pos 0; keys = pos 0; rpm = pos 0; soft_cap = pos 0 }

-- The table `limits`.
unfoldable pub limits : List (Plan × Limits)
limits =
    (plan_free, free_limits)
    ∷ (plan_trial, free_limits)
    ∷ (
      plan_starter,
      record { accounts = pos 3; routes = pos 3; keys = pos 3; rpm = pos 0; soft_cap = pos 0 },
    )
    ∷ (plan_pro, no_limits)
    ∷ []

-- `Canonical`.
unfoldable pub canonical : Plan → Plan
canonical p = if text_eq p plan_trial then plan_free else p

-- `Plan.Limits`; a missing key is the zero value.
unfoldable pub plan_limits : Plan → Limits
unfolding canonical limits lookup
plan_limits p = elim (lookup (canonical p) limits) [ none ↦ no_limits | some l ↦ l ]

-- `ValidPaid`.
unfoldable pub valid_paid : Plan → Bool
unfolding canonical
valid_paid p = text_eq (canonical p) plan_starter || text_eq (canonical p) plan_pro

-- `NormalizePlan`.
unfoldable pub normalize_plan : Text → Plan
unfolding canonical
normalize_plan s =
    if text_eq s plan_free
      || text_eq s plan_trial
      || text_eq s plan_starter
      || text_eq s plan_pro
      || text_eq s plan_none
    then canonical s
    else plan_none

-- `UnifiGrace`.
abbrev pub unifi_grace : Duration
unifi_grace = pos (72 * 3600 * second)

-- `Entitlement`.
pub record Entitlement : Type 0 where
  pub plan : Plan
  pub status : Text
  pub trial_ends_at : Option Time
  pub current_period_start : Option Time
  pub current_period_end : Option Time
  pub cancel_at_period_end : Bool
  pub billing_provider : Text
  pub provider_customer_id : Text
  pub provider_subscription : Text
  pub trial_used : Bool

-- The end of the period with the grace that one provider has.
unfoldable pub grace_end : Entitlement → Time → Time
grace_end e end =
    if text_eq e.billing_provider (lit "unifi") && text_eq e.status (lit "past_due")
    then time_add end unifi_grace
    else end

-- The test of the period, for a status that has one.
unfoldable pub in_period : Entitlement → Option Time → Time → Bool
unfolding grace_end
in_period e none now = text_eq e.status (lit "active") || text_eq e.status (lit "trialing")
in_period e (some end) now = not (after now (grace_end e end))

-- `Entitled`.
unfoldable pub entitled : Entitlement → Time → Bool
unfolding canonical
entitled e now =
    if text_eq (canonical e.plan) plan_free
    then true
    else if text_eq e.status (lit "active")
        || text_eq e.status (lit "past_due")
        || text_eq e.status (lit "trialing")
    then in_period e e.current_period_end now
    else false

-- `EffectivePlan`.
unfoldable pub effective_plan : Entitlement → Time → Plan
unfolding canonical
effective_plan e now =
    let p = canonical e.plan in
    if not (entitled e now)
    then plan_none
    else if text_eq p plan_free || text_eq p plan_starter || text_eq p plan_pro
    then p
    else plan_none

-- `Entitlement.Limits`.
unfoldable pub entitlement_limits : Entitlement → Time → Limits
entitlement_limits e now = plan_limits (effective_plan e now)
