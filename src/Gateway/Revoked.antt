-- ===== src/Gateway/Revoked.antt =====
-- internal/httpserver/server.go and internal/store/store.go: the requests of a key that is revoked.
use openllms.Prelude.{◌≡◌, List, Text, true, lit, refl}
use openllms.Number.{Time}
use openllms.Oauth.{ok, error}
use openllms.Store.Keys.{AuthContext, KeyStore, lookup_by_plaintext, revoke_key}
use openllms.Store.Keys.Rows.{KeyCall, run_keys}
use openllms.Store.Keys.Refine.{Fits}
use openllms.Store.Keys.Revoked.{keyed, revoke_key_final}
use openllms.Proxy.Upstream.{parse_bearer}
use openllms.Gateway.{Request, refused, Gateway, refusal}
use openllms.Gateway.Handle.{Server, on_key, on_token, serve_request}

module _ {F W : Type 0} (srv : Server F W) where
  -- The keys behind a revocation and any calls.
  unfoldable pub after_revoking :
      Text → KeyStore → Text → AuthContext → Time → Time → List KeyCall → KeyStore
  after_revoking conflict s plaintext ac t0 t1 calls =
      (run_keys srv.hash conflict
        (revoke_key (lookup_by_plaintext srv.hash s plaintext t0).1 ac.project_id ac.key_id t1).1
        calls).1

  refused_without_key :
      (req : Request) (g : Gateway F W) (tok why : Text)
      → parse_bearer req.authorization ≡ ok tok
      → (lookup_by_plaintext srv.hash g.keys tok (srv.clock g.world)).0 ≡ error why
      → (serve_request srv req g).0 ≡ refused (refusal 401 (lit "unauthorized"))
  unfolding serve_request on_token on_key
  refused_without_key req g tok why t e = rw (t, e) refl

  -- Where the cache of the keys fits the table and ids and hashes are unique, a key that
  -- authenticates and is then revoked is refused with 401 by the gateway, whatever calls on the
  -- keys come in between, one after the other.
  pub revoked_key_refused :
      (conflict : Text) (req : Request) (g : Gateway F W) (s : KeyStore) (tok : Text)
      (ac : AuthContext) (calls : List KeyCall) (t0 t1 : Time)
      → Fits s
      → keyed s.rows ≡ true
      → (lookup_by_plaintext srv.hash s tok t0).0 ≡ ok ac
      → parse_bearer req.authorization ≡ ok tok
      → g.keys ≡ after_revoking conflict s tok ac t0 t1 calls
      → (serve_request srv req g).0 ≡ refused (refusal 401 (lit "unauthorized"))
  unfolding after_revoking
  revoked_key_refused conflict req g s tok ac calls t0 t1 fits u e t later =
      refused_without_key req g tok (lit "invalid api key") t (
        rw later
          (revoke_key_final srv.hash conflict s tok ac calls t0 t1 (srv.clock g.world) fits u e).1)
