-- ===== src/Gateway/Stages.antt =====
-- internal/httpserver/server.go: what each guard of handleUpstream leaves to the ones behind it.
use openllms.Prelude.{
  ◌≡◌, List, ◌++◌, Option, none, some, Bool, true, false, not, ◌||◌, ◌==◌, if◌then◌else◌, Text, lit,
  arith, refl, sym, ◌∙◌, ap, inl, inr, Bool-cases, Option-cases,
}
use openllms.Assoc.{nat_eq, lookup, insert, lookup-insert}
use mathlib.Core.List.{append-nil}
use openllms.Limiter.{MemoryLimiter}
use openllms.Number.{Time}
use openllms.Account.{Uuid, Route}
use openllms.Oauth.{Fallible, ok, error}
use openllms.Billing.Plans.{entitled}
use openllms.Billing.Rows.{ProjectBilling, entitlement, ensure_free_plan}
use openllms.Billing.Laws.{ensure_free_plan_settles}
use openllms.Store.Keys.{AuthContext}
use openllms.Store.Routes.{get_route_by_slug, allows, authorize_route}
use openllms.Proxy.Engine.{Engine, Exit, returned, raised, panicked, out_of_fuel}
use openllms.Gateway.{
  Request, Refusal, Response, refused, failed, served, crashed, Gateway, UsageRow, refusal,
  over_soft_token_cap, plan_soft_cap, plan_rpm_limit, limited,
}
use openllms.Gateway.Booked.{response_for, rows_for, usage_rows_for}
use openllms.Gateway.Handle.{
  refuse_or, only_if, rate_limited, soft_cap_exceeded, Server, on_plan, on_exit, call_upstream,
  check_route, on_route, find_route, check_secrets, check_cap, check_rate,
}

-- A plan that runs.
abbrev pub runs : Option ProjectBilling → Time → Bool
runs none now = false
runs (some b) now = entitled (entitlement b) now

abbrev is_none : Option Refusal → Bool
is_none none = true
is_none (some r) = false

pub own_row :
    (project : Uuid) (x y : Option ProjectBilling) → (if project == project then x else y) ≡ x
own_row project x y = ground arith

under : (over : Bool) → not over ≡ true → over ≡ false
under over h = ground arith

module _ {F W : Type 0} where
  -- A refusal leaves the engine, the upstreams and the usage as they are.
  unfoldable pub Untouched : Engine → W → List UsageRow → Gateway F W → Type 0
  Untouched e w usage g = (g.engine ≡ e) × (g.world ≡ w) × (g.usage ≡ usage)

module _ {F W : Type 0} where
  -- The guard of the plan changes the billing rows only, and what it lets pass has a plan that runs.
  pub plan_guard :
      (enforce fails : Bool) (g : Gateway F W) (project : Uuid) (now : Time)
      → (q : Option Refusal × List (Uuid × ProjectBilling)) × ((if not enforce
            then (none, g)
            else on_plan fails g project now (lookup project g.billing))
          ≡ (q.0, record g { billing = q.1 }))
        × (q.0 ≡ none → (not enforce || runs (lookup project q.1) now) ≡ true)
  unfolding on_plan
  plan_guard false fails g project now = ((none, g.billing), refl, λ h. refl)
  plan_guard true fails g project now = elim (Option-cases (lookup project g.billing)) [
    | inl e ↦
        let r = refusal 500 (lit "billing_lookup_failed") in
        ((some r, g.billing), rw e refl, λ h. let h' = ap is_none h in ground arith)
    | inr (b, e) ↦ elim (Bool-cases (entitled (entitlement b) now)) [
      | inl y ↦ ((none, g.billing), rw (e, y) refl, λ h. rw (e, y) refl)
      | inr n ↦ elim (Bool-cases fails) [
        | inl y ↦
            let r = refusal 402 (lit "plan_required") in
            ((some r, g.billing), rw (e, n, y) refl, λ h. let h' = ap is_none h in ground arith)
        | inr m ↦
            let free = ensure_free_plan b now in
            let found = lookup-insert project project free g.billing in
            let settled = (ensure_free_plan_settles b now).0 in
            (
              (none, insert project free g.billing),
              rw (e, n, m) refl,
              λ h. rw (found ∙ own_row project (some free) (lookup project g.billing)) settled,
            )
      ]
    ]
  ]

module _ {F : Type 0} where
  -- A route that a key may use: of its project, and the one that it is for, if it is for one.
  pub Allowed : AuthContext → Route F → Type 0
  Allowed ac rt = (ac.project_id ≡ rt.project_id) × (allows ac.route_id rt.id ≡ true)

  authorize_route-Allowed :
      (ac : AuthContext) (rt : Route F) (x : Unit) → authorize_route ac rt ≡ ok x → Allowed ac rt
  unfolding authorize_route Allowed
  authorize_route-Allowed ac rt x h = ground arith

module _ {F W : Type 0} (srv : Server F W) where
  -- One call of the dispatch, for the body and an allowed route, with the response and the usage that
  -- its end demands.
  unfoldable pub Called :
      AuthContext → Request → Engine → W → List UsageRow → Response → Gateway F W → Type 0
  Called ac req e w usage res g =
      (rt : Route F) × (body : Text) × (req.body ≡ some body)
      × Allowed ac rt
      × (g.engine ≡ (srv.dispatch req.kind rt body e w).engine)
      × (g.world ≡ (srv.dispatch req.kind rt body e w).world)
      × (res ≡ response_for (srv.dispatch req.kind rt body e w).exit)
      × (g.usage
          ≡ usage ++ rows_for ac rt.id (srv.clock g.world) (srv.dispatch req.kind rt body e w).exit)

  unfoldable pub Outcome :
      Type 0 → AuthContext → Request → Engine → W → List UsageRow → Response × Gateway F W → Type 0
  Outcome Facts ac req e w usage (refused r, g) = Untouched e w usage g
  Outcome Facts ac req e w usage (failed why, g) = Facts × Called ac req e w usage (failed why) g
  Outcome Facts ac req e w usage (crashed, g) = Facts × Called ac req e w usage crashed g
  Outcome Facts ac req e w usage (served r, g) = Facts × Called ac req e w usage (served r) g

  pub Outcome-map :
      (A B : Type 0) (ac : AuthContext) (req : Request) (e : Engine) (w : W) (usage : List UsageRow)
      (p : Response × Gateway F W)
      → (A → B)
      → Outcome A ac req e w usage p
      → Outcome B ac req e w usage p
  unfolding Outcome
  Outcome-map A B ac req e w usage (refused r, g) f h = h
  Outcome-map A B ac req e w usage (failed why, g) f h = (f h.0, h.1)
  Outcome-map A B ac req e w usage (crashed, g) f h = (f h.0, h.1)
  Outcome-map A B ac req e w usage (served r, g) f h = (f h.0, h.1)

  -- The facts of the stages, each about the state that its guard reads.
  abbrev pub UnderCap : AuthContext → List UsageRow → List (Uuid × ProjectBilling) → Time → Type 0
  UnderCap ac usage billing now =
      over_soft_token_cap usage ac.project_id (plan_soft_cap srv.cfg billing ac.project_id now)
        (srv.month_start now)
      ≡ false

  abbrev pub WithinRate :
      AuthContext → Option MemoryLimiter → List (Uuid × ProjectBilling) → Time → Type 0
  WithinRate ac limiter billing now =
      (limited limiter (srv.uuids.uuid_string ac.key_id)
        (plan_rpm_limit srv.cfg billing ac.project_id now) now).0
      ≡ true

  abbrev pub OnPlan : AuthContext → List (Uuid × ProjectBilling) → Time → Type 0
  OnPlan ac billing now =
      (not srv.cfg.billing_enforce || runs (lookup ac.project_id billing) now) ≡ true

  abbrev pub Stage : Type 0 → AuthContext → Request → Gateway F W → Response × Gateway F W → Type 0
  Stage Facts ac req g p = Outcome Facts ac req g.engine g.world g.usage p

  on_exit-Stage :
      (ac : AuthContext) (req : Request) (rt : Route F) (g : Gateway F W) (body : Text)
      (exit : Exit)
      → (srv.dispatch req.kind rt body g.engine g.world).exit ≡ exit
      → req.body ≡ some body
      → Allowed ac rt
      → Stage Unit ac req g (
          on_exit srv ac rt
            (record g {
              engine = (srv.dispatch req.kind rt body g.engine g.world).engine;
              world = (srv.dispatch req.kind rt body g.engine g.world).world;
            })
            exit)
  unfolding on_exit Outcome Called
  on_exit-Stage ac req rt g body (returned (some r)) x e h =
      let now = srv.clock (srv.dispatch req.kind rt body g.engine g.world).world in
      (tt, (rt, body, e, h, refl, refl, rw x refl, rw (x, usage_rows_for ac rt.id now r) refl))
  on_exit-Stage ac req rt g body (returned none) x e h =
      (tt, (rt, body, e, h, refl, refl, rw x refl, rw x (sym (append-nil g.usage))))
  on_exit-Stage ac req rt g body (raised why) x e h =
      (tt, (rt, body, e, h, refl, refl, rw x refl, rw x (sym (append-nil g.usage))))
  on_exit-Stage ac req rt g body panicked x e h =
      (tt, (rt, body, e, h, refl, refl, rw x refl, rw x (sym (append-nil g.usage))))
  on_exit-Stage ac req rt g body out_of_fuel x e h =
      (tt, (rt, body, e, h, refl, refl, rw x refl, rw x (sym (append-nil g.usage))))

  call_upstream-Stage :
      (ac : AuthContext) (req : Request) (rt : Route F) (g : Gateway F W) (body : Option Text)
      → req.body ≡ body
      → Allowed ac rt
      → Stage Unit ac req g (call_upstream srv ac req rt g body)
  unfolding call_upstream Outcome Untouched
  call_upstream-Stage ac req rt g none e h = (refl, refl, refl)
  call_upstream-Stage ac req rt g (some body) e h =
      on_exit-Stage ac req rt g body (srv.dispatch req.kind rt body g.engine g.world).exit refl e h

  check_route-Stage :
      (ac : AuthContext) (req : Request) (rt : Route F) (g : Gateway F W) (x : Fallible Unit)
      → authorize_route ac rt ≡ x
      → Stage Unit ac req g (check_route srv ac req rt g x)
  unfolding check_route Outcome Untouched
  check_route-Stage ac req rt g (error why) e = (refl, refl, refl)
  check_route-Stage ac req rt g (ok x) e =
      call_upstream-Stage ac req rt g req.body refl (authorize_route-Allowed ac rt x e)

  on_route-Stage :
      (ac : AuthContext) (req : Request) (g : Gateway F W) (found : Fallible (Route F))
      → Stage Unit ac req g (on_route srv ac req g found)
  unfolding on_route Outcome Untouched
  on_route-Stage ac req g (error why) = (refl, refl, refl)
  on_route-Stage ac req g (ok rt) = check_route-Stage ac req rt g (authorize_route ac rt) refl

  find_route-Stage :
      (ac : AuthContext) (req : Request) (g : Gateway F W)
      → Stage Unit ac req g (find_route srv ac req g)
  unfolding find_route
  find_route-Stage ac req g =
      let (found, routes) =
        get_route_by_slug srv.uuids g.routes ac.project_id req.slug (srv.clock g.world) in
      on_route-Stage ac req (record g { routes = routes }) found

  -- An early return in front of a stage.
  refuse_or-Stage :
      (A B : Type 0) (ac : AuthContext) (req : Request) (g : Gateway F W) (passes : Bool)
      (r : Refusal) (next : Response × Gateway F W)
      → (passes ≡ true → A → B)
      → Stage A ac req g next
      → Stage B ac req g (refuse_or (only_if passes r) g next)
  unfolding refuse_or Outcome Untouched
  refuse_or-Stage A B ac req g true r next f h =
      Outcome-map A B ac req g.engine g.world g.usage next (f refl) h
  refuse_or-Stage A B ac req g false r next f h = (refl, refl, refl)

  check_secrets-Stage :
      (ac : AuthContext) (req : Request) (g : Gateway F W)
      → Stage (srv.cfg.secrets ≡ true) ac req g (check_secrets srv ac req g)
  unfolding check_secrets
  check_secrets-Stage ac req g =
      refuse_or-Stage Unit (srv.cfg.secrets ≡ true) ac req g srv.cfg.secrets
        (refusal 503 (lit "infisical_not_configured")) (find_route srv ac req g) (λ e a. e)
        (find_route-Stage ac req g)

  check_cap-Stage :
      (ac : AuthContext) (req : Request) (g : Gateway F W)
      → Stage
          (UnderCap ac g.usage g.billing (srv.clock g.world) × (srv.cfg.secrets ≡ true))
          ac
          req
          g
          (check_cap srv ac req g)
  unfolding check_cap
  check_cap-Stage ac req g =
      let now = srv.clock g.world in
      let over =
        over_soft_token_cap g.usage ac.project_id
          (plan_soft_cap srv.cfg g.billing ac.project_id now) (srv.month_start now) in
      refuse_or-Stage (srv.cfg.secrets ≡ true)
        (UnderCap ac g.usage g.billing now × (srv.cfg.secrets ≡ true)) ac req g (not over)
        soft_cap_exceeded (check_secrets srv ac req g) (λ e a. (under over e, a))
        (check_secrets-Stage ac req g)

  abbrev pub Rated :
      AuthContext
      → Option MemoryLimiter
      → List UsageRow
      → List (Uuid × ProjectBilling)
      → Time
      → Type 0
  Rated ac limiter usage billing now =
      WithinRate ac limiter billing now × UnderCap ac usage billing now × (srv.cfg.secrets ≡ true)

  pub check_rate-Stage :
      (ac : AuthContext) (req : Request) (g : Gateway F W)
      → Stage
          (Rated ac g.limiter g.usage g.billing (srv.clock g.world))
          ac
          req
          g
          (check_rate srv ac req g)
  unfolding check_rate
  check_rate-Stage ac req g =
      let now = srv.clock g.world in
      let rpm = plan_rpm_limit srv.cfg g.billing ac.project_id now in
      let (passes, limiter) = limited g.limiter (srv.uuids.uuid_string ac.key_id) rpm now in
      let g' : Gateway F W = record g { limiter = limiter } in
      refuse_or-Stage (UnderCap ac g.usage g.billing now × (srv.cfg.secrets ≡ true))
        (Rated ac g.limiter g.usage g.billing now) ac req g' passes rate_limited
        (check_cap srv ac req g') (λ e a. (e, a.0, a.1)) (check_cap-Stage ac req g')
