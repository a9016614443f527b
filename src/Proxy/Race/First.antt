-- ===== src/Proxy/Race/First.antt =====
-- Which answer of a race is returned.
use openllms.Prelude.{
  List, [], ◌∷◌, ◌++◌, ◌≡◌, Option, some, true, false, ◌||◌, ◌==◌, arith, All, refl,
}
use openllms.Number.{Time}
use openllms.Router.Status.{is_retryable_status, is_success_status}
use openllms.Proxy.Affinity.{set_affinity}
use openllms.Proxy.Engine.{Result, Engine, returned}
use openllms.Proxy.Race.{failed, answered, Arrival, message, cancelled, Field, win, aggregate}

-- A message that does not end the race.
unfoldable pub Passes : Arrival → Type 0
Passes (message (failed err)) = Unit
Passes (message (answered r)) =
    (is_success_status r.status_code ≡ false)
    × ((is_retryable_status r.status_code || r.status_code == 0) ≡ true)
Passes (cancelled why) = ⊥

-- The first success of a race wins, behind any messages that do not end it, whatever arrives
-- later, and its seat becomes the session's.
pub aggregate_first :
    (before rest : List Arrival) (r : Result) (f : Field) (now : Time) (last : Option Result)
    (e : Engine)
    → All Passes before
    → is_success_status r.status_code ≡ true
    → aggregate (before ++ (message (answered r) ∷ rest)) f now last e ≡ (
      returned (some (win f r)),
      record e { affinity = set_affinity e.affinity f.session_key r.account_id now },
    )
unfolding aggregate Passes
aggregate_first [] rest r f now last e h s = rw s refl
aggregate_first (cancelled why ∷ before) rest r f now last e (h, hs) s = ground arith
aggregate_first (message (failed err) ∷ before) rest r f now last e (h, hs) s =
    aggregate_first before rest r f now last e hs s
aggregate_first (message (answered q) ∷ before) rest r f now last e ((a, b), hs) s =
    let ih = aggregate_first before rest r f now (some q) e hs s in ground (arith, ih, a, b)
