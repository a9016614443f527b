-- ===== src/Gateway/Admitted.antt =====
-- internal/httpserver/server.go: a request on its way through every guard.
use openllms.Prelude.{◌≡◌, List, Option, none, some, Text, refl}
use openllms.Assoc.{nat_eq}
use openllms.Number.{Time}
use openllms.Account.{Uuid}
use openllms.Oauth.{Fallible, ok, error}
use openllms.Billing.Rows.{ProjectBilling}
use openllms.Store.Keys.{AuthContext, lookup_by_plaintext}
use openllms.Proxy.Upstream.{parse_bearer}
use openllms.Gateway.{Request, Refusal, Response, refused, failed, served, crashed, Gateway}
use openllms.Gateway.Handle.{
  refuse_or, Server, require_plan_entitled, check_rate, handle_upstream, on_key, on_token,
  serve_request,
}
use openllms.Gateway.Stages.{
  Untouched, plan_guard, Called, Outcome, Outcome-map, OnPlan, Stage, Rated, check_rate-Stage,
}

module _ {F W : Type 0} (srv : Server F W) where
  -- The facts behind the guard of the plan, on the billing rows that it leaves.
  unfoldable pub Admitted : AuthContext → Gateway F W → List (Uuid × ProjectBilling) → Time → Type 0
  Admitted ac g billing now = OnPlan srv ac billing now × Rated srv ac g.limiter g.usage billing now

  after_plan-Stage :
      (ac : AuthContext) (req : Request) (g : Gateway F W)
      (q : Option Refusal × List (Uuid × ProjectBilling))
      → (q.0 ≡ none → OnPlan srv ac q.1 (srv.clock g.world))
      → Stage srv (Admitted ac g q.1 (srv.clock g.world)) ac req g (
          refuse_or q.0
            (record g { billing = q.1 })
            (check_rate srv ac req (record g { billing = q.1 })))
  unfolding refuse_or Outcome Untouched Admitted
  after_plan-Stage ac req g (some r, billing) f = (refl, refl, refl)
  after_plan-Stage ac req g (none, billing) f =
      let g' : Gateway F W = record g { billing = billing } in
      let now = srv.clock g.world in
      Outcome-map srv (Rated srv ac g.limiter g.usage billing now) (Admitted ac g billing now) ac
        req g.engine g.world g.usage (check_rate srv ac req g') (λ h. (f refl, h))
        (check_rate-Stage srv ac req g')

  handle_upstream-Stage :
      (ac : AuthContext) (req : Request) (g : Gateway F W)
      → Stage srv
          (Admitted ac g
            (require_plan_entitled srv g ac.project_id (srv.clock g.world)).1.billing
            (srv.clock g.world))
          ac
          req
          g
          (handle_upstream srv ac req g)
  unfolding handle_upstream require_plan_entitled
  handle_upstream-Stage ac req g =
      let (q, e, f) =
        plan_guard srv.cfg.billing_enforce (srv.free_plan_fails ac.project_id) g ac.project_id
          (srv.clock g.world) in
      rw e (after_plan-Stage ac req g q f)

  -- The state behind the lookup of a key, and behind the guard of the plan.
  abbrev pub behind_key : Gateway F W → Text → Gateway F W
  behind_key g tok = record g {
    keys = (lookup_by_plaintext srv.hash g.keys tok (srv.clock g.world)).1;
  }

  abbrev pub behind_plan : AuthContext → Gateway F W → Gateway F W
  behind_plan ac g = (require_plan_entitled srv g ac.project_id (srv.clock g.world)).1

  -- An answer that is no refusal belongs to an active key.
  unfoldable pub Admission : Request → Gateway F W → Response → Gateway F W → Type 0
  Admission req g res g' =
      (tok : Text) × (ac : AuthContext) × (parse_bearer req.authorization ≡ ok tok)
      × ((lookup_by_plaintext srv.hash g.keys tok (srv.clock g.world)).0 ≡ ok ac)
      × Admitted ac g (behind_plan ac (behind_key g tok)).billing (srv.clock g.world)
      × Called srv ac req g.engine g.world g.usage res g'

  unfoldable pub Guarded : Request → Gateway F W → Response × Gateway F W → Type 0
  Guarded req g (refused r, g') = Untouched g.engine g.world g.usage g'
  Guarded req g (failed why, g') = Admission req g (failed why) g'
  Guarded req g (crashed, g') = Admission req g crashed g'
  Guarded req g (served r, g') = Admission req g (served r) g'

  Guarded-Stage :
      (req : Request) (g : Gateway F W) (tok : Text) (ac : AuthContext) (p : Response × Gateway F W)
      → parse_bearer req.authorization ≡ ok tok
      → (lookup_by_plaintext srv.hash g.keys tok (srv.clock g.world)).0 ≡ ok ac
      → Stage srv
          (Admitted ac
            (behind_key g tok)
            (behind_plan ac (behind_key g tok)).billing
            (srv.clock g.world))
          ac
          req
          (behind_key g tok)
          p
      → Guarded req g p
  unfolding Guarded Admission Outcome Untouched Admitted
  Guarded-Stage req g tok ac (refused r, g') t e h = h
  Guarded-Stage req g tok ac (failed why, g') t e h = (tok, ac, t, e, h.0, h.1)
  Guarded-Stage req g tok ac (crashed, g') t e h = (tok, ac, t, e, h.0, h.1)
  Guarded-Stage req g tok ac (served r, g') t e h = (tok, ac, t, e, h.0, h.1)

  on_key-Guarded :
      (req : Request) (g : Gateway F W) (tok : Text) (found : Fallible AuthContext)
      → parse_bearer req.authorization ≡ ok tok
      → (lookup_by_plaintext srv.hash g.keys tok (srv.clock g.world)).0 ≡ found
      → Guarded req g (on_key srv req (behind_key g tok) found)
  unfolding on_key Guarded Untouched
  on_key-Guarded req g tok (error why) t e = (refl, refl, refl)
  on_key-Guarded req g tok (ok ac) t e =
      Guarded-Stage req g tok ac (handle_upstream srv ac req (behind_key g tok)) t e
        (handle_upstream-Stage ac req (behind_key g tok))

  on_token-Guarded :
      (req : Request) (g : Gateway F W) (tok : Fallible Text)
      → parse_bearer req.authorization ≡ tok
      → Guarded req g (on_token srv req g tok)
  unfolding on_token Guarded Untouched
  on_token-Guarded req g (error why) t = (refl, refl, refl)
  on_token-Guarded req g (ok tok) t =
      on_key-Guarded req g tok (lookup_by_plaintext srv.hash g.keys tok (srv.clock g.world)).0 t
        refl

  -- A request that is refused changes neither the engine, the upstreams nor the usage. Any other
  -- one was one call of the dispatch, with the body of the request and a route of the key's
  -- project that the key may use; LookupByPlaintext found the key, a plan was running where
  -- billing is enforced, the limiter let the call pass at the plan's rate, the project was under
  -- its soft cap, and the secrets were there; the response is the one that the end of that
  -- dispatch demands (its result, its error, or a crash), and the usage grows by exactly one row
  -- for the result and one without tokens for each of its failovers, in the name of the key, or by
  -- nothing where there is no result.
  pub serve_request-Guarded :
      (req : Request) (g : Gateway F W) → Guarded req g (serve_request srv req g)
  unfolding serve_request
  serve_request-Guarded req g = on_token-Guarded req g (parse_bearer req.authorization) refl
