-- ===== src/Router/Pick/Member.antt =====
-- Every strategy picks one of the candidates.
use openllms.Prelude.{
  ℕ, zero, suc, ◌<◌, List, [], ◌∷◌, ◌++◌, Option, some, none, Bool, true, false, if◌then◌else◌, ◌≡◌,
  ◌≢◌, refl, ◌⊎◌, inl, inr, Bool-cases, arith, ap, length, get_elem?, Text, text_eq,
}
use mathlib.Core.List.{Memᴰ}
use openllms.Router.Pool.Prefer.{some_either}
use openllms.Router.Pick.Shares.{pick_weighted-Share}
use openllms.Router.Pick.Reset.{
  eligible, eligible_reset, tagged, pick_reset_soon_earliest, List-cases,
}
use openllms.Number.{Float, Time}
use openllms.Account.{Account, Uuid}
use openllms.Config.{Fields}
use openllms.Router.Presets.{Strategy, round_robin, weighted, quota_aware, reset_soon, steward}
use openllms.Router.Pool.{prefer_fresh}
use openllms.Router.Pool.Stable.{prefer_fresh-mem, prefer_fresh-eq-nil}
use openllms.Router.Selector.{Selector}
use openllms.Router.Pick.{
  pick_weighted, pick_rr, quota_loop, quota_pct, pick_quota_aware, pick_reset_soon, steward_loop,
  pick_steward, pick_by, pick_with_config, config_window, min_remaining, steward_score,
  steward_config,
}
use native.Mathlib.Nat.{mod-lt}

mem_middle {ℓ} : {A : Type ℓ} (w : A) (xs ys : List A) → Memᴰ w (xs ++ (w ∷ ys))
mem_middle w [] ys = Memᴰ.head refl
mem_middle w (x ∷ xs) ys = Memᴰ.tail (mem_middle w xs ys)

get_elem?-mem {ℓ} :
    {A : Type ℓ} (xs : List A) (i : ℕ)
    → i < length xs
    → (x : A) × (get_elem? xs i ≡ some x) × Memᴰ x xs
get_elem?-mem [] i h = absurd (omega arith)
get_elem?-mem (x ∷ xs) zero h = (x, refl, Memᴰ.head refl)
get_elem?-mem (x ∷ xs) (suc i) h =
    let (y, e, m) = get_elem?-mem xs i (omega arith) in (y, e, Memᴰ.tail m)

-- What replaces the best so far by the next element stays in the list.
mem_either {ℓ} :
    {A : Type ℓ} {w a best : A} {xs : List A} (c : Bool)
    → Memᴰ w ((if c then a else best) ∷ xs)
    → Memᴰ w (best ∷ (a ∷ xs))
mem_either true m = Memᴰ.tail m
mem_either false (Memᴰ.head e) = Memᴰ.head e
mem_either false (Memᴰ.tail m) = Memᴰ.tail (Memᴰ.tail m)

module _ {F : Type 0} where
  pick_rr-mem :
      (s : Selector) (route : Uuid) (xs : List (Account F))
      → 0 < length xs
      → (x : Account F) × ((pick_rr s route xs).0 ≡ some x) × Memᴰ x xs
  unfolding pick_rr
  pick_rr-mem s route xs h = get_elem?-mem xs _ (mod-lt _ h)

  pick_weighted-mem :
      (s : Selector) (a : Account F) (rest : List (Account F))
      → Memᴰ (pick_weighted s a rest).0 (a ∷ rest)
  pick_weighted-mem s a rest =
      let share = (pick_weighted-Share s a rest).1 in
      rw share.split (mem_middle _ share.before share.behind)

module _ (fl : Float) where
  open fl use {F, neg_infinity}

  quota_loop-mem :
      (xs : List (Account F)) (best : Account F) (p : F)
      → Memᴰ (quota_loop fl best p xs) (best ∷ xs)
  unfolding quota_loop
  quota_loop-mem [] best p = Memᴰ.head refl
  quota_loop-mem (a ∷ xs) best p = mem_either _ (quota_loop-mem xs _ _)

  pick_quota_aware-mem :
      (a : Account F) (rest : List (Account F)) → Memᴰ (pick_quota_aware fl a rest) (a ∷ rest)
  unfolding pick_quota_aware
  pick_quota_aware-mem a rest = quota_loop-mem rest a (quota_pct fl a)

  tagged-mem :
      (window : Text) (m : F) (w a : Account F) (t : Time) (xs : List (Account F))
      (es : List (Account F × Time)) (o : Option Time)
      → (Memᴰ (w, t) es → Memᴰ w xs)
      → Memᴰ (w, t) (tagged fl window m a o es)
      → Memᴰ w (a ∷ xs)
  tagged-mem window m w a t xs es none ih k = Memᴰ.tail (ih k)
  tagged-mem window m w a t xs es (some u) ih (Memᴰ.head e) =
      Memᴰ.head (ap (λ (q : Account F × Time). q.0) e)
  tagged-mem window m w a t xs es (some u) ih (Memᴰ.tail k) = Memᴰ.tail (ih k)

  eligible-mem :
      (window : Text) (m : F) (w : Account F) (t : Time) (xs : List (Account F))
      → Memᴰ (w, t) (eligible fl window m xs)
      → Memᴰ w xs
  eligible-mem window m w t [] h = elim h [ ]
  eligible-mem window m w t (a ∷ xs) h =
      tagged-mem window m w a t xs (eligible fl window m xs) (eligible_reset fl window m a)
        (eligible-mem window m w t xs) h

  steward_loop-mem :
      (xs : List (Account F)) (score : Account F → F) (best : Option (Account F)) (b : F)
      (w : Account F)
      → steward_loop fl score best b xs ≡ some w
      → (best ≡ some w) ⊎ Memᴰ w xs
  unfolding steward_loop
  steward_loop-mem [] score best b w e = inl e
  steward_loop-mem (a ∷ xs) score best b w e = some_either _ (steward_loop-mem xs score _ _ w e)

  pick_reset_soon-mem :
      (cfg : Option (Fields F)) (a : Account F) (rest : List (Account F))
      → Memᴰ (pick_reset_soon fl cfg a rest) (a ∷ rest)
  pick_reset_soon-mem cfg a rest = elim (pick_reset_soon_earliest fl cfg a rest) [
    | inl (none_left, e) ↦ rw e (pick_quota_aware-mem a rest)
    | inr (t, first) ↦
        eligible-mem (config_window fl cfg) (min_remaining fl cfg) _ t (a ∷ rest)
          (rw first.split (mem_middle _ first.before first.behind))
  ]

  pick_steward-mem :
      (s : Selector) (now : Time) (cfg : Option (Fields F)) (a : Account F)
      (rest : List (Account F))
      → Memᴰ (pick_steward fl s now cfg a rest) (a ∷ rest)
  unfolding pick_steward
  pick_steward-mem s now cfg a rest =
      go
        (steward_loop fl (steward_score fl s now (steward_config fl cfg)) none neg_infinity
          (a ∷ rest))
        refl
    where
      go :
          (o : Option (Account F))
          → steward_loop fl
              (steward_score fl s now (steward_config fl cfg))
              none
              neg_infinity
              (a ∷ rest)
            ≡ o
          → Memᴰ (elim o [ none ↦ pick_quota_aware fl a rest | some best ↦ best ]) (a ∷ rest)
      go none e = pick_quota_aware-mem a rest
      go (some w) e = elim (steward_loop-mem (a ∷ rest) _ none neg_infinity w e) [
        | inl k ↦ absurd (ground (arith, k))
        | inr m ↦ m
      ]

  -- A picked seat, and that it is in the list.
  abbrev pub PicksFrom : List (Account F) → Option (Account F) × Selector → Type 0
  PicksFrom xs (picked, s') = (x : Account F) × (picked ≡ some x) × Memᴰ x xs

  pick_by-mem :
      (s : Selector) (now : Time) (route : Uuid) (strategy : Strategy) (cfg : Option (Fields F))
      (a : Account F) (rest : List (Account F))
      → PicksFrom (a ∷ rest) (pick_by fl s now route strategy cfg (a ∷ rest))
  unfolding pick_by
  pick_by-mem s now route strategy cfg a rest = elim (Bool-cases (text_eq strategy round_robin)) [
    | inl e ↦ rw e (pick_rr-mem s route (a ∷ rest) (omega arith))
    | inr n1 ↦ elim (Bool-cases (text_eq strategy weighted)) [
      | inl e ↦ rw (n1, e) (_, refl, pick_weighted-mem s a rest)
      | inr n2 ↦ elim (Bool-cases (text_eq strategy quota_aware)) [
        | inl e ↦ rw (n1, n2, e) (_, refl, pick_quota_aware-mem a rest)
        | inr n3 ↦ elim (Bool-cases (text_eq strategy reset_soon)) [
          | inl e ↦ rw (n1, n2, n3, e) (_, refl, pick_reset_soon-mem cfg a rest)
          | inr n4 ↦ elim (Bool-cases (text_eq strategy steward)) [
            | inl e ↦ rw (n1, n2, n3, n4, e) (_, refl, pick_steward-mem s now cfg a rest)
            | inr n5 ↦ rw (n1, n2, n3, n4, n5) (a, refl, Memᴰ.head refl)
          ]
        ]
      ]
    ]
  ]

  -- On a candidate list that is not empty every strategy, known or not, picks a seat of the list.
  pub pick_with_config_member :
      (s : Selector) (now : Time) (route : Uuid) (strategy : Strategy) (accounts : List (Account F))
      (cfg : Option (Fields F))
      → accounts ≢ []
      → PicksFrom accounts (pick_with_config fl s now route strategy accounts cfg)
  unfolding pick_with_config
  pick_with_config_member s now route strategy accounts cfg h =
      elim (List-cases (prefer_fresh s now accounts)) [
        | inl e ↦ absurd (h (prefer_fresh-eq-nil s now accounts e))
        | inr (a, rest, e) ↦
            let (x, picked, m) = pick_by-mem s now route strategy cfg a rest in
            (x, rw (e) picked, prefer_fresh-mem s now x accounts (rw e m))
      ]
