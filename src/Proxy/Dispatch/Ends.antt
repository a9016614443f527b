-- ===== src/Proxy/Dispatch/Ends.antt =====
-- The dispatch loop ends, and how: every seat is called once at most, and it gives up only when no seat
-- is left.
use openllms.Prelude.{
  ℕ, zero, suc, ◌+◌, ◌<◌, List, [], ◌∷◌, Option, none, some, Bool, true, false, ◌==◌, ◌||◌, ◌&&◌,
  not, if◌then◌else◌, Text, length, ◌≡◌, ◌≢◌, refl, ◌⊎◌, inl, inr, arith, Bool-cases, Option-cases,
  All,
}
use mathlib.Core.List.{Memᴰ}
use openllms.Account.{Uuid, uuid_nil, Account, Route}
use openllms.Number.{Float, Time}
use openllms.Router.Status.{is_retryable_status, is_success_status}
use openllms.Router.Pool.{was_tried, prefer_account, prefer_fresh, exclude}
use openllms.Router.Pool.Tried.{exclude-lt, exclude-untried}
use openllms.Router.Pool.Prefer.{prefer_account-mem, prefer_account-eq-nil}
use openllms.Router.Selector.{Selector}
use openllms.Router.Pick.{pick_with_config, pick_by}
use openllms.Router.Pick.Member.{pick_with_config_member}
use openllms.Router.Pick.Reset.{List-cases}
use openllms.Proxy.Commit.{Verdict, Commit, forward, retry, await_commit}
use openllms.Proxy.Models.{
  Body, Applied, filter_servable_accounts, applied, nil_map_panic, apply_account_model,
}
use openllms.Proxy.Engine.{
  Result, FailoverAttempt, Engine, Exit, returned, raised, panicked, out_of_fuel, Round, stop, next,
  Session, on_call, on_result, on_success, on_commit,
}
use openllms.Proxy.Dispatch.{
  World, Run, finish, run_round, choose, attempt, dispatch_loop, dispatch_accounts,
}

-- A status that ends the search for a seat.
abbrev pub IsFinal : Result → Type 0
IsFinal r = (is_retryable_status r.status_code ≡ false) × (r.status_code ≢ 0)

module _ {F : Type 0} where
  -- How a dispatch may end that has called the seats `tried`.
  abbrev pub Settled : List (Account F) → List Uuid → Exit → Type 0
  Settled accounts tried (returned none) = exclude accounts tried ≡ []
  Settled accounts tried (returned (some r)) = IsFinal r ⊎ (exclude accounts tried ≡ [])
  Settled accounts tried (raised err) = Unit {0}
  Settled accounts tried panicked = Unit {0}
  Settled accounts tried out_of_fuel = ⊥

-- What a round may end the loop with.
abbrev Stops : Round → Type 0
Stops (stop (returned none) e) = ⊥
Stops (stop (returned (some r)) e) = IsFinal r
Stops (stop (raised err) e) = Unit {0}
Stops (stop panicked e) = Unit {0}
Stops (stop out_of_fuel e) = ⊥
Stops (next last failovers e) = Unit {0}

success-IsFinal : (r : Result) → is_success_status r.status_code ≡ true → IsFinal r
unfolding is_success_status is_retryable_status
success-IsFinal r h = ground arith

on_commit-Stops :
    (c : Commit) (ses : Session) (n : ℕ) (id : Uuid) (t : Time) (r : Result)
    (fs : List FailoverAttempt) (e : Engine)
    → IsFinal r
    → Stops (on_commit c ses n id t r fs e)
unfolding on_commit
on_commit-Stops (forward out) ses n id t r fs e h = h
on_commit-Stops (retry why) ses n id t r fs e h = tt

module _ (inspect : Text → Verdict) where
  on_success-Stops :
      (ses : Session) (n : ℕ) (id : Uuid) (t : Time) (r : Result) (s : Option _)
      (fs : List FailoverAttempt) (e : Engine)
      → IsFinal r
      → Stops (on_success inspect ses n id t r s fs e)
  unfolding on_success
  on_success-Stops ses n id t r none fs e h = h
  on_success-Stops ses n id t r (some s) fs e h =
      on_commit-Stops (await_commit inspect (some s)) ses n id t r fs e h

  on_result-Stops :
      (ses : Session) (n : ℕ) (id : Uuid) (t : Time) (r : Result) (fs : List FailoverAttempt)
      (e : Engine)
      → Stops (on_result inspect ses n id t r fs e)
  unfolding on_result
  on_result-Stops ses n id t r fs e =
      elim (Bool-cases (is_retryable_status r.status_code || r.status_code == 0)) [
        | inl soft ↦ rw soft tt
        | inr hard ↦ elim (Bool-cases (is_success_status r.status_code)) [
          | inl good ↦
              rw (hard, good) (on_success-Stops ses n id t _ r.stream fs e (success-IsFinal r good))
          | inr bad ↦ rw (hard, bad) (ground arith)
        ]
      ]

  on_call-Stops :
      (ses : Session) (n : ℕ) (id : Uuid) (t : Time) (answer : Option Result × Option Text)
      (last : Option Result) (fs : List FailoverAttempt) (e : Engine)
      → Stops (on_call inspect ses n id t answer last fs e)
  unfolding on_call
  on_call-Stops ses n id t (some r, err) last fs e = on_result-Stops ses n id t r fs e
  on_call-Stops ses n id t (none, some err) last fs e = tt
  on_call-Stops ses n id t (none, none) last fs e = tt

-- No id stands in the list twice.
abbrev pub AllNew : List Uuid → Type 0
AllNew [] = Unit
AllNew (t ∷ ts) = (was_tried ts t ≡ false) × AllNew ts

module _ {F : Type 0} where
  ordered-mem :
      (c : Bool) (xs : List (Account F)) (p : Uuid) (x : Account F)
      → Memᴰ x (if c then prefer_account xs p else xs)
      → Memᴰ x xs
  ordered-mem true xs p x m = prefer_account-mem xs p x m
  ordered-mem false xs p x m = m

  ordered-eq-nil :
      (c : Bool) (xs : List (Account F)) (p : Uuid)
      → (if c then prefer_account xs p else xs) ≡ []
      → xs ≡ []
  ordered-eq-nil true xs p e = prefer_account-eq-nil xs p e
  ordered-eq-nil false xs p e = e

  -- What a choice says of the seats that are left.
  abbrev Chosen : List (Account F) → Option (Account F) → Type 0
  Chosen left none = left ≡ []
  Chosen left (some acc) = Memᴰ acc left

  untried-mem :
      (x : Account F) (ts : List Uuid) (xs : List (Account F))
      → All (λ a. was_tried ts a.id ≡ false) xs
      → Memᴰ x xs
      → was_tried ts x.id ≡ false
  untried-mem x ts [] h m = elim m [ ]
  untried-mem x ts (a ∷ xs) h (Memᴰ.head e) = rw e h.0
  untried-mem x ts (a ∷ xs) h (Memᴰ.tail m) = untried-mem x ts xs h.1 m

module _ (fl : Float) (world : World (fl.F)) (inspect : Text → Verdict) (rt : Route (fl.F))
    (body : Body (fl.F)) where
  open fl use {F}
  open world use {W, now, call}

  pick-nil :
      (s : Selector) (t : Time) (strategy : Text) (cfg : Option _)
      → (pick_with_config fl s t rt.id strategy [] cfg).0 ≡ none
  unfolding pick_with_config pick_by prefer_fresh
  pick-nil s t strategy cfg = refl

  choose-Chosen :
      (ses : Session) (accounts : List (Account F)) (e : Engine) (w : W) (tried : List Uuid)
      → Chosen (exclude accounts tried) (choose fl world inspect rt body ses accounts e w tried).0
  unfolding choose
  choose-Chosen ses accounts e w tried =
      let left = exclude accounts tried in
      let sticks = ses.sticky_ok && not (ses.sticky == uuid_nil) in
      let ordered = if sticks then prefer_account left ses.sticky else left in
      elim (List-cases ordered) [
        | inl none_left ↦
            rw (none_left, pick-nil e.selector (now w) ses.strategy rt.config)
              (ordered-eq-nil sticks left ses.sticky none_left)
        | inr (a, rest, q) ↦
            let (x, picked, m) =
              pick_with_config_member fl e.selector (now w) rt.id ses.strategy ordered rt.config
                (λ z. absurd (ground (arith, q, z))) in
            rw picked (ordered-mem sticks left ses.sticky x m)
      ]

  -- What is true of a run, whatever the seats answered.
  abbrev EndsWell : List (Account F) → Run W → Type 0
  EndsWell accounts r = Settled accounts r.tried r.exit × AllNew r.tried

  attempt-Stops :
      (ses : Session) (n : ℕ) (acc : Account F) (b : Applied F) (last : Option Result)
      (fs : List FailoverAttempt) (e : Engine) (w : W)
      → Stops (attempt fl world inspect rt body ses n acc b last fs e w).0
  unfolding attempt
  attempt-Stops ses n acc nil_map_panic last fs e w = tt
  attempt-Stops ses n acc (applied b) last fs e w =
      on_call-Stops inspect ses n acc.id (now (call acc b w).1) (call acc b w).0 last fs e

  run_round-ends :
      (accounts : List (Account F)) (tried : List Uuid) (r : Round × W)
      (loop : Option Result → List FailoverAttempt → Engine → W → Run W)
      → AllNew tried
      → Stops r.0
      → ((last : Option Result) (fs : List FailoverAttempt) (e : Engine) (w : W)
          → EndsWell accounts (loop last fs e w))
      → EndsWell accounts (run_round tried r loop)
  unfolding run_round
  run_round-ends accounts tried (stop (returned none) e, w) loop new s h = absurd s
  run_round-ends accounts tried (stop (returned (some r)) e, w) loop new s h = (inl s, new)
  run_round-ends accounts tried (stop (raised err) e, w) loop new s h = (tt, new)
  run_round-ends accounts tried (stop panicked e, w) loop new s h = (tt, new)
  run_round-ends accounts tried (stop out_of_fuel e, w) loop new s h = absurd s
  run_round-ends accounts tried (next last fs e, w) loop new s h = h last fs e w

  finish-Settled :
      (accounts : List (Account F)) (tried : List Uuid) (ses : Session) (n : ℕ)
      (last : Option Result) (fs : List FailoverAttempt)
      → exclude accounts tried ≡ []
      → Settled accounts tried (finish ses n last fs)
  finish-Settled accounts tried ses n none fs h = h
  finish-Settled accounts tried ses n (some r) fs h = inr h

  dispatch_loop-ends :
      (fuel : ℕ) (ses : Session) (accounts : List (Account F)) (tried : List Uuid) (n : ℕ)
      (last : Option Result) (fs : List FailoverAttempt) (e : Engine) (w : W)
      → length (exclude accounts tried) < fuel
      → AllNew tried
      → EndsWell accounts
          (dispatch_loop fl world inspect rt body fuel ses accounts tried n last fs e w)
  unfolding dispatch_loop
  dispatch_loop-ends zero ses accounts tried n last fs e w h new = absurd (omega arith)
  dispatch_loop-ends (suc fuel) ses accounts tried n last fs e w h new =
      let chosen = choose-Chosen ses accounts e w tried in
      elim (Option-cases (choose fl world inspect rt body ses accounts e w tried).0) [
        | inl q ↦
            rw (q, dispatch_loop)
              (finish-Settled accounts tried ses n last fs (rw q at chosen), new)
        | inr (acc, q) ↦
            let m = rw q at chosen in
            let new' : AllNew (acc.id ∷ tried) = (
              untried-mem acc tried (exclude accounts tried) (exclude-untried accounts tried) m,
              new,
            ) in
            rw (q, dispatch_loop)
              (run_round-ends accounts (acc.id ∷ tried) _ _ new'
                (attempt-Stops ses (n + 1) acc
                  (apply_account_model body (some acc) rt.default_model) last fs _ w)
                (λ last' fs' e' w'.
                  dispatch_loop-ends fuel ses accounts (acc.id ∷ tried) (n + 1) last' fs' e' w'
                    (omega (arith, exclude-lt acc tried accounts m)) new'))
      ]

  -- Whatever the seats answer, a dispatch ends (in a result, an error or a panic) before its fuel
  -- runs out and calls no seat twice; and it returns a status that asks for another seat, or no
  -- result, only when every seat that the servable filter left was tried.
  pub dispatch_accounts_ends :
      (session_key : Text) (accounts : List (Account F)) (e : Engine) (w : W)
      → let run = dispatch_accounts fl world inspect rt body session_key accounts e w in
        Settled (filter_servable_accounts accounts body rt.default_model) run.tried run.exit
        × AllNew run.tried
  unfolding dispatch_accounts exclude
  dispatch_accounts_ends session_key accounts e w =
      dispatch_loop-ends _ _ (filter_servable_accounts accounts body rt.default_model) [] 0 none []
        _ w (omega arith) tt
