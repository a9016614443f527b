-- ===== src/Billing/RequestId.antt =====
-- internal/billing/requestid.go: the request id that carries a project and a plan through a checkout.
-- uuid.UUID.String and uuid.Parse are parameters.
pub mod RoundTrip
use openllms.Prelude.{
  ℕ, zero, suc, List, [], ◌∷◌, ◌++◌, Option, none, some, Bool, ◌==◌, not, if◌then◌else◌, Text, lit,
  trim_space, has_prefix,
}
use openllms.Account.{Uuid}
use openllms.Billing.Plans.{Plan, normalize_plan, valid_paid}

-- A text up to a separator, and what follows the separator, if it is there.
unfoldable pub cut : ℕ → Text → Text × Option Text
cut sep [] = ([], none)
cut sep (c ∷ s) =
    let (before, after) = cut sep s in if c == sep then ([], some s) else (c ∷ before, after)

-- `strings.SplitN(s, sep, n)` for a separator of one letter and n not negative.
unfoldable pub split_n : Text → ℕ → ℕ → List Text
split_n s sep zero = []
split_n s sep (suc zero) = s ∷ []
split_n s sep (suc (suc n)) =
    let (before, after) = cut sep s in
    elim after [ none ↦ before ∷ [] | some rest ↦ before ∷ split_n rest sep (suc n) ]

module _ (uuid_string : Uuid → Text) (uuid_parse : Text → Option Uuid) where
  -- `FormatUnifiRequestID`.
  unfoldable pub format_unifi_request_id : Uuid → Plan → Text
  format_unifi_request_id project plan = lit "llms:" ++ (uuid_string project ++ (lit ":" ++ plan))

  -- The plan of a request id whose project is read; `none` is the result that is not ok.
  unfoldable pub with_plan : Option Uuid → Text → Option (Uuid × Plan)
  with_plan none text = none
  with_plan (some pid) text =
      let plan = normalize_plan text in if not (valid_paid plan) then none else some (pid, plan)

  unfoldable pub read_parts : List Text → Option (Uuid × Plan)
  read_parts (_ ∷ pid ∷ plan ∷ _) = with_plan (uuid_parse pid) plan
  read_parts _ = none

  -- `ParseUnifiRequestID`.
  unfoldable pub parse_unifi_request_id : Text → Option (Uuid × Plan)
  parse_unifi_request_id text =
      let raw = trim_space text in
      if not (has_prefix raw (lit "llms:")) then none else read_parts (split_n raw b':' 3)
