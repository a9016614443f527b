-- ===== src/Proxy/Dispatch.antt =====
-- internal/proxy/proxy.go: the loop of `dispatch`, which tries the seats of a route until one serves the
-- request. The world is what the program cannot know: its clock and the answers of the seats.
pub mod Ends
use openllms.Prelude.{
  ℕ, zero, suc, ◌+◌, List, [], ◌∷◌, ◌++◌, Option, none, some, Bool, true, false, ◌==◌, ◌||◌, ◌&&◌,
  not, if◌then◌else◌, Text, length, is_empty,
}
use openllms.Account.{Uuid, uuid_nil, Account, Route}
use openllms.Number.{Float, Time}
use openllms.Router.Presets.{Strategy, sequential}
use openllms.Router.Pool.{prefer_account, exclude}
use openllms.Router.Selector.{Selector}
use openllms.Router.Pick.{pick_with_config}
use openllms.Proxy.Affinity.{get_affinity}
use openllms.Proxy.Commit.{Verdict}
use openllms.Proxy.Models.{
  Body, Applied, applied, nil_map_panic, apply_account_model, filter_servable_accounts,
}
use openllms.Proxy.Engine.{
  Result, FailoverAttempt, Engine, Exit, returned, raised, panicked, out_of_fuel, Round, stop, next,
  Session, on_call,
}

-- The clock, and the upstream call of a seat (`callFn`): a result, an error, or both.
pub record World (F : Type 0) : Type 1 where
  pub W : Type 0
  pub now : W → Time
  pub call : Account F → Body F → W → (Option Result × Option Text) × W

-- The end of a dispatch: how it ended, the engine, the world, and the ids of the seats it called.
pub record Run (W : Type 0) : Type 0 where
  pub exit : Exit
  pub engine : Engine
  pub world : W
  pub tried : List Uuid

-- The end of the loop when no seat is left: the last result, if there is one.
abbrev pub finish : Session → ℕ → Option Result → List FailoverAttempt → Exit
finish ses attempts none failovers = returned none
finish ses attempts (some last) failovers = returned (
    some (record last {
      attempts = attempts;
      strategy = ses.strategy;
      session_key = ses.session_key;
      failovers = failovers;
    }))

-- A round ends the loop, or goes on with what it leaves.
unfoldable pub run_round :
    {W : Type 0}
    → List Uuid
    → Round × W
    → (Option Result → List FailoverAttempt → Engine → W → Run W)
    → Run W
run_round tried (stop exit e, w) loop = record { exit = exit; engine = e; world = w; tried = tried }
run_round tried (next last failovers e, w) loop = loop last failovers e w

module _ (fl : Float) (world : World (fl.F)) (inspect : Text → Verdict) (rt : Route (fl.F))
    (body : Body (fl.F)) where
  open fl use {F}
  open world use {W, now, call}

  -- The candidate that a round picks, if one is left.
  unfoldable pub choose :
      Session → List (Account F) → Engine → W → List Uuid → Option (Account F) × Selector
  choose ses accounts e w tried =
      let candidates = exclude accounts tried in
      let ordered =
        if ses.sticky_ok && not (ses.sticky == uuid_nil)
        then prefer_account candidates ses.sticky
        else candidates in
      pick_with_config fl e.selector (now w) rt.id ses.strategy ordered rt.config

  -- The call of a seat with the body that names its model.
  unfoldable pub attempt :
      Session
      → ℕ
      → Account F
      → Applied F
      → Option Result
      → List FailoverAttempt
      → Engine
      → W
      → Round × W
  attempt ses attempts acc nil_map_panic last failovers e w = (stop panicked e, w)
  attempt ses attempts acc (applied b) last failovers e w =
      let (answer, w') = call acc b w in
      (on_call inspect ses attempts acc.id (now w') answer last failovers e, w')

  unfoldable pub dispatch_loop :
      ℕ
      → Session
      → List (Account F)
      → List Uuid
      → ℕ
      → Option Result
      → List FailoverAttempt
      → Engine
      → W
      → Run W
  dispatch_loop zero ses accounts tried attempts last failovers e w = record {
    exit = out_of_fuel;
    engine = e;
    world = w;
    tried = tried;
  }
  dispatch_loop (suc fuel) ses accounts tried attempts last failovers e w =
      let (picked, sel) = choose ses accounts e w tried in
      elim picked [
        | none ↦ record {
          exit = finish ses attempts last failovers;
          engine = record e { selector = sel };
          world = w;
          tried = tried;
        }
        | some acc ↦
            run_round (acc.id ∷ tried)
              (attempt ses (attempts + 1) acc (apply_account_model body (some acc) rt.default_model)
                last failovers (record e { selector = sel }) w)
              (λ last' failovers' e' w'.
                dispatch_loop fuel ses accounts (acc.id ∷ tried) (attempts + 1) last' failovers' e'
                  w')
      ]

  -- The sequential part of `dispatch`, on the accounts that the store listed. Every round tries another
  -- seat, so that one round more than there are seats is enough fuel.
  unfoldable pub dispatch_accounts : Text → List (Account F) → Engine → W → Run W
  dispatch_accounts session_key accounts e w =
      let servable = filter_servable_accounts accounts body rt.default_model in
      let ((sticky, sticky_ok), affinity) = get_affinity e.affinity session_key (now w) in
      let ses : Session = record {
        strategy = if is_empty rt.strategy then sequential else rt.strategy;
        session_key = session_key;
        sticky = sticky;
        sticky_ok = sticky_ok;
      } in
      dispatch_loop (suc (length servable)) ses servable [] 0 none []
        (record e { affinity = affinity }) w
