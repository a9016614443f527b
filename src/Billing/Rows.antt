-- ===== src/Billing/Rows.antt =====
-- internal/store/billing.go: the billing columns of a project and the updates of its row. A statement is
-- what it does to the row that it names; the begin and the commit around it are the database's.
use openllms.Prelude.{
  Option, none, some, Bool, true, false, ◌&&◌, ◌||◌, if◌then◌else◌, Text, lit, text_eq, is_empty,
}
use openllms.Prelude.Int.{ℤ}
use openllms.Number.{Time}
use openllms.Account.{Uuid}
use openllms.Billing.Plans.{
  Plan, plan_free, plan_starter, plan_pro, plan_limits, valid_paid, Entitlement, entitled,
  effective_plan,
}

-- `ProjectBilling`, with the column of the soft cap.
pub record ProjectBilling : Type 0 where
  pub project_id : Uuid
  pub owner_id : Uuid
  pub github_id : Text
  pub plan : Plan
  pub status : Text
  pub trial_started_at : Option Time
  pub trial_ends_at : Option Time
  pub trial_used : Bool
  pub user_trial_used : Bool
  pub current_period_start : Option Time
  pub current_period_end : Option Time
  pub cancel_at_period_end : Bool
  pub billing_provider : Text
  pub provider_customer_id : Text
  pub provider_subscription_id : Text
  pub soft_cap_tokens : ℤ

-- `ProjectBilling.Entitlement`.
unfoldable pub entitlement : ProjectBilling → Entitlement
entitlement b = record {
  plan = b.plan;
  status = b.status;
  trial_ends_at = b.trial_ends_at;
  current_period_start = b.current_period_start;
  current_period_end = b.current_period_end;
  cancel_at_period_end = b.cancel_at_period_end;
  billing_provider = b.billing_provider;
  provider_customer_id = b.provider_customer_id;
  provider_subscription = b.provider_subscription_id;
  trial_used = b.user_trial_used || b.trial_used;
}

-- `COALESCE(a, b)` of SQL, on a column that may be null.
abbrev pub coalesce : Option Time → Time → Option Time
coalesce none now = some now
coalesce (some t) now = some t

-- `COALESCE(NULLIF(new, ''), old)`.
abbrev pub unless_empty : Text → Text → Text
unless_empty new old = if is_empty new then old else new

-- The row that `EnsureFreePlan` writes.
unfoldable pub free_row : ProjectBilling → Time → ProjectBilling
free_row b now = record b {
  plan = plan_free;
  status = lit "active";
  trial_started_at = coalesce b.trial_started_at now;
  trial_ends_at = none;
  trial_used = true;
  current_period_start = coalesce b.current_period_start now;
  current_period_end = none;
  cancel_at_period_end = false;
  soft_cap_tokens = (plan_limits plan_free).soft_cap;
  user_trial_used = true;
}

-- `EnsureFreePlan`: a paid plan that runs is kept, and so is a free row that is clean.
unfoldable pub ensure_free_plan : ProjectBilling → Time → ProjectBilling
ensure_free_plan b now =
    let ent = entitlement b in
    let p = effective_plan ent now in
    if entitled ent now && (text_eq p plan_starter || text_eq p plan_pro)
    then b
    else if entitled ent now && text_eq p plan_free && text_eq b.status (lit "active")
    then b
    else free_row b now

-- `ApplyPaidPeriod` on the project's row; `none` is the error of a plan that is not paid.
unfoldable pub apply_paid_period :
    ProjectBilling → Plan → Text → Text → Text → Time → Time → Option ProjectBilling
apply_paid_period b plan provider customer_id sub_id start end =
    if valid_paid plan
    then some (record b {
      plan = plan;
      status = lit "active";
      billing_provider = provider;
      provider_customer_id = unless_empty customer_id b.provider_customer_id;
      provider_subscription_id = unless_empty sub_id b.provider_subscription_id;
      current_period_start = some start;
      current_period_end = some end;
      cancel_at_period_end = false;
      soft_cap_tokens = (plan_limits plan).soft_cap;
    })
    else none

-- `SetBillingPastDue`.
unfoldable pub set_billing_past_due : ProjectBilling → ProjectBilling
set_billing_past_due b = record b { status = lit "past_due" }

-- `SetBillingExpired`.
unfoldable pub set_billing_expired : ProjectBilling → ProjectBilling
set_billing_expired b = record b {
  plan = plan_free;
  status = lit "active";
  cancel_at_period_end = false;
  current_period_end = none;
  soft_cap_tokens = (plan_limits plan_free).soft_cap;
}
