-- ===== src/Billing/Laws.antt =====
-- What the billing rows of internal/store/billing.go promise, and for how long an entitlement holds.
use openllms.Prelude.{
  ◌≡◌, ◌⊎◌, inl, inr, ◌≤◌, Option, none, some, true, false, if◌then◌else◌, Text, text_eq, arith,
  refl, Option-cases, Bool-cases, ap, eq-text_eq,
}
use openllms.Number.{Time, after}
use openllms.Billing.Plans.{
  Plan, plan_none, plan_starter, plan_pro, plan_trial, plan_limits, canonical, valid_paid,
  Entitlement, entitled, in_period, grace_end, effective_plan,
}
use openllms.Billing.Rows.{
  ProjectBilling, entitlement, free_row, ensure_free_plan, apply_paid_period, set_billing_past_due,
  set_billing_expired,
}

-- An entitlement that has lapsed does not come back by the passing of time.
entitled_lapses :
    (e : Entitlement) (t later : Time) → t ≤ later → entitled e t ≡ false → entitled e later ≡ false
unfolding entitled in_period
entitled_lapses e t later h lapsed = elim (Option-cases e.current_period_end) [
  | inl n ↦ ground (arith, n)
  | inr (end, s) ↦ ground (arith, s)
]

-- What ApplyPaidPeriod leaves: an error exactly where the plan is not paid, or a row with the plan up to
-- the end of the period and no plan behind it.
pub PaidUntil : Plan → Time → Time → Option ProjectBilling → Type 0
PaidUntil plan end t none = valid_paid plan ≡ false
PaidUntil plan end t (some row) =
    (effective_plan (entitlement row) t ≡ (if after t end then plan_none else plan))
    × ((valid_paid plan ≡ true) × (row.soft_cap_tokens ≡ (plan_limits plan).soft_cap))

paid_cases : (plan : Plan) → valid_paid plan ≡ true → (plan ≡ plan_starter) ⊎ (plan ≡ plan_pro)
unfolding valid_paid canonical text_eq
paid_cases plan h =
    ground
      (arith, eq-text_eq plan plan_starter, eq-text_eq plan plan_pro, eq-text_eq plan plan_trial)

starter_runs :
    (b : ProjectBilling) (provider customer sub : Text) (start end t : Time)
    → PaidUntil plan_starter end t
        (apply_paid_period b plan_starter provider customer sub start end)
unfolding apply_paid_period PaidUntil valid_paid entitlement effective_plan entitled in_period
    grace_end canonical text_eq
starter_runs b provider customer sub start end t = ground arith

pro_runs :
    (b : ProjectBilling) (provider customer sub : Text) (start end t : Time)
    → PaidUntil plan_pro end t (apply_paid_period b plan_pro provider customer sub start end)
unfolding apply_paid_period PaidUntil valid_paid entitlement effective_plan entitled in_period
    grace_end canonical text_eq
pro_runs b provider customer sub start end t = ground arith

-- A paid period that is applied gives its plan up to the end of the period, whatever the provider,
-- with the plan's soft cap, and no plan later; ApplyPaidPeriod fails exactly where the plan is not
-- a paid one.
pub apply_paid_period_runs :
    (b : ProjectBilling) (plan : Plan) (provider customer sub : Text) (start end t : Time)
    → PaidUntil plan end t (apply_paid_period b plan provider customer sub start end)
unfolding apply_paid_period PaidUntil
apply_paid_period_runs b plan provider customer sub start end t =
    elim (Bool-cases (valid_paid plan)) [
      | inl h ↦ elim (paid_cases plan h) [
        | inl e ↦ rw e (starter_runs b provider customer sub start end t)
        | inr e ↦ rw e (pro_runs b provider customer sub start end t)
      ]
      | inr h ↦ rw h h
    ]

-- The row that EnsureFreePlan writes has the free plan at every time.
entitled-free_row :
    (b : ProjectBilling) (now t : Time) → entitled (entitlement (free_row b now)) t ≡ true
unfolding free_row entitlement entitled text_eq
entitled-free_row b now t = refl

free_row_fixed :
    (b : ProjectBilling) (now : Time) → ensure_free_plan (free_row b now) now ≡ free_row b now
unfolding ensure_free_plan free_row entitlement entitled effective_plan text_eq
free_row_fixed b now = refl

ensure_free_plan_cases :
    (b : ProjectBilling) (now : Time)
    → ((ensure_free_plan b now ≡ b) × (entitled (entitlement b) now ≡ true))
      ⊎ (ensure_free_plan b now ≡ free_row b now)
unfolding ensure_free_plan
ensure_free_plan_cases b now = ground arith

-- After EnsureFreePlan the project may use the gateway, and a second call changes nothing.
pub ensure_free_plan_settles :
    (b : ProjectBilling) (now : Time)
    → (entitled (entitlement (ensure_free_plan b now)) now ≡ true)
      × (ensure_free_plan (ensure_free_plan b now) now ≡ ensure_free_plan b now)
ensure_free_plan_settles b now = elim (ensure_free_plan_cases b now) [
  | inl (e, h) ↦ (rw e h, ap (λ x. ensure_free_plan x now) e)
  | inr e ↦ (rw e (entitled-free_row b now now), rw e (free_row_fixed b now))
]

-- The soft cap of a row is the one of its plan.
abbrev pub CapOfPlan : ProjectBilling → Type 0
CapOfPlan b = b.soft_cap_tokens ≡ (plan_limits b.plan).soft_cap

abbrev pub CapIfSome : Option ProjectBilling → Type 0
CapIfSome none = Unit
CapIfSome (some row) = CapOfPlan row

-- Every update of the billing columns leaves the soft cap that of the plan, where it was so
-- before.
updates-CapOfPlan :
    (b : ProjectBilling) (plan : Plan) (provider customer sub : Text) (start end now : Time)
    → CapOfPlan b
    → CapOfPlan (ensure_free_plan b now)
      × (CapIfSome (apply_paid_period b plan provider customer sub start end)
          × (CapOfPlan (set_billing_past_due b) × CapOfPlan (set_billing_expired b)))
unfolding ensure_free_plan apply_paid_period set_billing_past_due set_billing_expired free_row
updates-CapOfPlan b plan provider customer sub start end now h = ground arith
