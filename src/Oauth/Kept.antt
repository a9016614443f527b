-- ===== src/Oauth/Kept.antt =====
-- No credential that a refresh returned is lost.
use openllms.Prelude.{
  ℕ, zero, suc, [], ◌⊎◌, inl, inr, ◌≡◌, none, some, true, ◌||◌, not, Text, arith, refl, Bool-cases,
  Option-cases, is_empty, trim_space, ==_iff,
}
use openllms.Assoc.{lookup, nat_eq, lookup-insert}
use openllms.Account.{Uuid, Account}
use openllms.Oauth.{Credential, Fallible, ok, error, Outside, creds_rotated}
use openllms.Oauth.Refresh.{
  Pending, settle, put_loop, put_with_retry, keep_tokens, rotate, from_pending, or_no_credential,
  refresh_oauth_credential, load_credential, read_secret, checked, already_rotated, new_credential,
  refresh_token_of,
}

-- What the program relies on: a put without an error stores, a get returns what is stored, and the JSON of
-- a credential reads back.
pub record Durable (out : Outside) : Type 0 where
  pub put_stores :
      (path raw : Text) (w : out.W)
      → (out.put path raw w).0 ≡ none
      → out.holds (out.put path raw w).1 path raw ≡ true
  pub get_reads :
      (path raw : Text) (w : out.W)
      → (out.get path w).0 ≡ ok raw
      → out.holds (out.get path w).1 path raw ≡ true
  pub decode-encode : (c : Credential) → out.decode (out.encode c) ≡ some c

Fallible-cases :
    {A : Type 0} (x : Fallible A) → ((a : A) × (x ≡ ok a)) ⊎ ((e : Text) × (x ≡ error e))
Fallible-cases (ok a) = inl (a, refl)
Fallible-cases (error e) = inr (e, refl)

module _ (out : Outside) where
  open out use {W, get, put, pause, invalidate, refresh, encode, decode, holds}

  -- The durable secret at the path reads back to the credential.
  pub Stored : Text → Credential → W → Type 0
  Stored path c w = (raw : Text) × (holds w path raw ≡ true) × (decode raw ≡ some c)

  -- A credential that is returned is pending for its account, or stored.
  pub Kept : Uuid → Text → Fallible Credential × (Pending × W) → Type 0
  Kept id path (error e, s) = Unit
  Kept id path (ok c, (pending, w)) = (lookup id pending ≡ some c) ⊎ Stored path c w

  module _ (laws : Durable out) where
    open laws use {put_stores, get_reads, decode-encode}

    put_loop_stores :
        (n : ℕ) (path raw e : Text) (w : W)
        → (put_loop out n path raw (some e) w).0 ≡ none
        → holds (put_loop out n path raw (some e) w).1 path raw ≡ true
    unfolding put_loop
    put_loop_stores zero path raw e w h = ground arith
    put_loop_stores (suc n) path raw e w h = elim (Option-cases (put path raw w).0) [
      | inl p ↦ rw (put_loop, p) (put_stores path raw w p)
      | inr (x, p) ↦ elim (Option-cases (pause (put path raw w).1).0) [
        | inl q ↦
            rw (put_loop, p, q)
              (put_loop_stores n path raw x (pause (put path raw w).1).1 (ground (arith, h, p, q)))
        | inr (y, q) ↦ ground (arith, p, q)
      ]
    ]

    put_with_retry_stores :
        (path raw : Text) (w : W)
        → (put_with_retry out path raw w).0 ≡ none
        → holds (put_with_retry out path raw w).1 path raw ≡ true
    unfolding put_with_retry put_loop
    put_with_retry_stores path raw w h = put_loop_stores 3 path raw [] w h

    load-Stored :
        {F : Type 0} (acc : Account F) (c : Credential) (w : W)
        → (load_credential out acc w).0 ≡ ok c
        → Stored acc.infisical_path c (load_credential out acc w).1
    unfolding load_credential Stored read_secret checked
    load-Stored acc c w h =
        let path = acc.infisical_path in
        elim (Fallible-cases (get path w).0) [
          | inl (raw, e) ↦ (
            raw,
            get_reads path raw w e,
            elim (Option-cases (decode raw)) [
              | inl n ↦ ground (arith, h, e, n)
              | inr (d, n) ↦ ground (arith, h, e, n)
            ],
          )
          | inr (x, e) ↦ ground (arith, h, e)
        ]

    loaded-Kept :
        {F : Type 0} (acc : Account F) (pending : Pending) (w : W)
        → let (loaded, w1) = load_credential out acc w in
          Kept acc.id acc.infisical_path (loaded, (pending, w1))
    unfolding Kept
    loaded-Kept acc pending w = elim (Fallible-cases (load_credential out acc w).0) [
      | inl (c, e) ↦ rw e (inr (load-Stored acc c w e))
      | inr (x, e) ↦ rw e tt
    ]

    settle-Kept :
        (id : Uuid) (path : Text) (c : Credential) (pending : Pending) (w : W)
        → Kept id path (
          ok c,
          (
            settle id c (put_with_retry out path (encode c) w).0 pending,
            (put_with_retry out path (encode c) w).1,
          ),
        )
    unfolding Kept settle Stored
    settle-Kept id path c pending w = elim (Option-cases (put_with_retry out path (encode c) w).0) [
      | inl e ↦ inr (encode c, put_with_retry_stores path (encode c) w e, decode-encode c)
      | inr (x, e) ↦ rw e (inl (ground (arith, lookup-insert id id c pending, ==_iff id id)))
    ]

    rotate-Kept :
        {F : Type 0} (acc : Account F) (old : Credential) (pending : Pending) (w : W)
        → Kept acc.id acc.infisical_path (rotate out acc old pending w)
    unfolding rotate Kept keep_tokens
    rotate-Kept acc old pending w =
        let path = acc.infisical_path in
        let r = load_credential out acc (invalidate path w) in
        let tok = refresh_token_of r.0 old in
        elim (Bool-cases (already_rotated r.0 old)) [
          | inl e ↦ rw e (loaded-Kept acc pending (invalidate path w))
          | inr e ↦ elim (Bool-cases (is_empty (trim_space tok))) [
            | inl b ↦ rw (e, b) tt
            | inr b ↦ elim (Fallible-cases (refresh acc.vendor tok r.1).0) [
              | inl (toks, q) ↦
                  rw (e, b, keep_tokens, q)
                    (settle-Kept acc.id path (new_credential toks tok (or_no_credential r.0) old)
                      pending (refresh acc.vendor tok r.1).1)
              | inr (x, q) ↦ rw (e, b, keep_tokens, q) tt
            ]
          ]
        ]

    -- Where a put without an error stores, a get returns what is stored and the JSON of a
    -- credential reads back: whenever a refresh returns a credential, that credential is pending
    -- for the account or in the secret store, whatever failed.
    pub refresh_oauth_credential-Kept :
        {F : Type 0} (acc : Account F) (old : Credential) (pending : Pending) (w : W)
        → Kept acc.id acc.infisical_path (refresh_oauth_credential out acc old pending w)
    unfolding refresh_oauth_credential from_pending
    refresh_oauth_credential-Kept acc old pending w = elim (Option-cases (lookup acc.id pending)) [
      | inl e ↦ rw e (rotate-Kept acc old pending w)
      | inr (p, e) ↦
          let r = put_with_retry out acc.infisical_path (encode p) w in
          elim (Bool-cases (creds_rotated p old || not (is_empty p.access_token))) [
            | inl b ↦ rw (e, from_pending, b) (settle-Kept acc.id acc.infisical_path p pending w)
            | inr b ↦
                rw (e, from_pending, b) (rotate-Kept acc old (settle acc.id p r.0 pending) r.1)
          ]
    ]
