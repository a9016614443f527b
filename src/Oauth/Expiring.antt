-- ===== src/Oauth/Expiring.antt =====
-- internal/proxy/oauth_refresh.go: `RefreshExpiringOAuth`, the renewal ahead of time.
use openllms.Prelude.{
  ℕ, ◌+◌, ◌*◌, [], List, ◌∷◌, Option, none, some, Bool, false, not, if◌then◌else◌, Text, lit,
  is_empty, trim_space, equal_fold, ◌≡◌, length, arith,
}
use openllms.Prelude.Int.{pos, ltb_ℤ}
use openllms.Account.{Account}
use openllms.Number.{Time, Duration, second, time_add, after}
use openllms.Oauth.{Credential, Fallible, ok, error, Outside}
use openllms.Oauth.Refresh.{Pending, load_credential, refresh_oauth_credential}

-- How many accounts were renewed, failed and were left alone.
pub record Counts : Type 0 where
  pub updated : ℕ
  pub failed : ℕ
  pub skipped : ℕ

abbrev default_oauth_refresh_lead : Duration
default_oauth_refresh_lead = pos (3600 * second)

-- One account of the loop: nothing to do, an error, or done.
pub data Step : Type 0 where
  skip : Step
  fail : Step
  update : Step

unfoldable pub count : Step → Counts → Counts
count skip c = record c { skipped = c.skipped + 1 }
count fail c = record c { failed = c.failed + 1 }
count update c = record c { updated = c.updated + 1 }

abbrev step_of : Fallible Credential → Step
step_of (ok c) = update
step_of (error e) = fail

module _ (out : Outside) where
  open out use {W, now, parse_time}

  abbrev due : Option Time → Time → Duration → Bool
  due none t lead = false
  due (some expires) t lead = not (after expires (time_add t lead))

  -- `expiresWithin`.
  unfoldable pub expires_within : Text → Time → Duration → Bool
  expires_within expires_at t lead =
      if is_empty (trim_space expires_at)
      then false
      else due (parse_time (trim_space expires_at)) t lead

  -- The part of the loop behind the load of the credential.
  unfoldable pub renew :
      {F : Type 0}
      → Account F
      → Time
      → Duration
      → Fallible Credential
      → Pending
      → W
      → Step × (Pending × W)
  renew acc t lead (error e) pending w = (fail, (pending, w))
  renew acc t lead (ok cred) pending w =
      if not (expires_within cred.expires_at t lead)
      then (skip, (pending, w))
      else if is_empty (trim_space cred.refresh_token)
      then (skip, (pending, w))
      else let (answer, s) = refresh_oauth_credential out acc cred pending w in (step_of answer, s)

  unfoldable pub renew_account :
      {F : Type 0} → Account F → Time → Duration → Pending → W → Step × (Pending × W)
  renew_account acc t lead pending w =
      let (loaded, w1) = load_credential out acc w in
      if not (equal_fold acc.auth_type (lit "oauth"))
      then (skip, (pending, w))
      else renew acc t lead loaded pending w1

  unfoldable pub renew_loop :
      {F : Type 0}
      → List (Account F)
      → Time
      → Duration
      → Counts
      → Pending
      → W
      → Counts × (Pending × W)
  renew_loop [] t lead c pending w = (c, (pending, w))
  renew_loop (acc ∷ accounts) t lead c pending w =
      let (step, (pending1, w1)) = renew_account acc t lead pending w in
      renew_loop accounts t lead (count step c) pending1 w1

  -- `RefreshExpiringOAuth`.
  unfoldable pub refresh_expiring_oauth :
      {F : Type 0} → List (Account F) → Duration → Pending → W → Counts × (Pending × W)
  refresh_expiring_oauth accounts lead pending w =
      renew_loop accounts (now w) (if ltb_ℤ (pos 0) lead then lead else default_oauth_refresh_lead)
        (record { updated = 0; failed = 0; skipped = 0 }) pending w

  abbrev total : Counts → ℕ
  total c = c.updated + (c.failed + c.skipped)

  total-renew_loop :
      {F : Type 0} (accounts : List (Account F)) (t : Time) (lead : Duration) (c : Counts)
      (pending : Pending) (w : W)
      → total (renew_loop accounts t lead c pending w).0 ≡ total c + length accounts
  unfolding renew_loop count
  total-renew_loop [] t lead c pending w = omega arith
  total-renew_loop (acc ∷ accounts) t lead c pending w =
      let (step, (pending1, w1)) = renew_account acc t lead pending w in
      let ih = total-renew_loop accounts t lead (count step c) pending1 w1 in ground (arith, ih)

  -- Every account is counted once, as renewed, failed or left alone.
  refresh_expiring_oauth_counts :
      {F : Type 0} (accounts : List (Account F)) (lead : Duration) (pending : Pending) (w : W)
      → let c = (refresh_expiring_oauth accounts lead pending w).0 in
        c.updated + (c.failed + c.skipped) ≡ length accounts
  unfolding refresh_expiring_oauth
  refresh_expiring_oauth_counts accounts lead pending w =
      let lead' = if ltb_ℤ (pos 0) lead then lead else default_oauth_refresh_lead in
      let start : Counts = record { updated = 0; failed = 0; skipped = 0 } in
      omega (arith, total-renew_loop accounts (now w) lead' start pending w)
