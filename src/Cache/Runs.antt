-- ===== src/Cache/Runs.antt =====
-- internal/ttlcache/ttlcache.go: runs of the methods against an abstract cache, a function from keys and
-- times to values that knows no map, no entry and no lazy deletion.
use openllms.Prelude.{
  ◌≤◌, ◌≡◌, List, [], ◌∷◌, Option, none, some, Bool, true, false, leb, leb→le, ◌&&◌, if◌then◌else◌,
  arith, refl, ◌∙◌, inl, inr, Bool-cases, Option-cases,
}
use openllms.Assoc.{Key, lookup}
use openllms.Number.{Time, Duration, time_add, after}
use openllms.Cache.{
  Cache, Entry, new_cache, enabled, get_live, get_cached, set_cached, delete_cached,
}
use openllms.Cache.Laws.{get_cached-set_cached, get_cached-delete_cached}

-- A call at a time.
pub data Call (K V : Type 0) : Type 0 where
  get_call : K → Time → Call K V
  set_call : K → V → Time → Call K V
  delete_call : K → Time → Call K V

abbrev pub View : Type 0 → Type 0 → Type 0
View K V = K → Time → Option V

module _ {K V : Type 0} where
  abbrev pub call_time : Call K V → Time
  call_time (get_call k t) = t
  call_time (set_call k v t) = t
  call_time (delete_call k t) = t

  -- Whether the calls come in the order of their times, from a time on.
  unfoldable pub in_order : Time → List (Call K V) → Bool
  in_order t [] = true
  in_order t (c ∷ calls) = leb t (call_time c) && in_order (call_time c) calls

module _ {K V : Type 0} ⦃key : Key K⦄ where
  open key use {same}

  -- What the gets of a run return.
  unfoldable pub run_cache : Cache K V → List (Call K V) → List (Option V)
  run_cache c [] = []
  run_cache c (get_call k t ∷ calls) =
      let (found, c') = get_cached c k t in found ∷ run_cache c' calls
  run_cache c (set_call k v t ∷ calls) = run_cache (set_cached c k v t) calls
  run_cache c (delete_call k t ∷ calls) = run_cache (delete_cached c k) calls

  -- The abstract cache: a set holds its value for the time to live, a delete forgets a key, a get
  -- changes nothing.
  unfoldable pub set_view : Bool → Duration → K → V → Time → View K V → View K V
  set_view on ttl k v t0 view other t =
      if on && same k other
      then (if after t (time_add t0 ttl) then none else some v)
      else view other t

  unfoldable pub delete_view : K → View K V → View K V
  delete_view k view other t = if same k other then none else view other t

  unfoldable pub run_view : Bool → Duration → View K V → List (Call K V) → List (Option V)
  run_view on ttl view [] = []
  run_view on ttl view (get_call k t ∷ calls) = view k t ∷ run_view on ttl view calls
  run_view on ttl view (set_call k v t ∷ calls) = run_view on ttl (set_view on ttl k v t view) calls
  run_view on ttl view (delete_call k t ∷ calls) = run_view on ttl (delete_view k view) calls

  -- From a time on the cache answers as the view.
  Answers : Cache K V → Time → View K V → Type 0
  Answers c now view = (k : K) (t : Time) → now ≤ t → (get_cached c k t).0 ≡ view k t

  pub get_cached-off :
      (c : Cache K V) (k : K) (t : Time) → enabled c ≡ false → (get_cached c k t).1 ≡ c
  unfolding get_cached
  get_cached-off c k t off = rw off refl

  pub get_cached-missing :
      (c : Cache K V) (k : K) (t : Time) → lookup k c.m ≡ none → (get_cached c k t).1 ≡ c
  unfolding get_cached get_live
  get_cached-missing c k t e = rw e (ground arith)

  pub get_cached-live :
      (c : Cache K V) (k : K) (x : Entry V) (t : Time)
      → lookup k c.m ≡ some x
      → after t x.exp ≡ false
      → (get_cached c k t).1 ≡ c
  unfolding get_cached get_live
  get_cached-live c k x t e live = rw (e, live) (ground arith)

  pub get_cached-old :
      (c : Cache K V) (k : K) (x : Entry V) (t : Time)
      → enabled c ≡ true
      → lookup k c.m ≡ some x
      → after t x.exp ≡ true
      → (get_cached c k t).1 ≡ delete_cached c k
  unfolding get_cached get_live delete_cached
  get_cached-old c k x t on e old = rw (on, e, old) refl

  ttl-get_cached : (c : Cache K V) (k : K) (t : Time) → (get_cached c k t).1.ttl ≡ c.ttl
  unfolding get_cached get_live
  ttl-get_cached c k t = elim (Option-cases (lookup k c.m)) [
    | inl e ↦ rw e (ground arith)
    | inr (x, e) ↦ rw e (ground arith)
  ]

  ttl-set_cached : (c : Cache K V) (k : K) (v : V) (t : Time) → (set_cached c k v t).ttl ≡ c.ttl
  unfolding set_cached
  ttl-set_cached c k v t = ground arith

  ttl-delete_cached : (c : Cache K V) (k : K) → (delete_cached c k).ttl ≡ c.ttl
  unfolding delete_cached
  ttl-delete_cached c k = refl

  expired-get_cached :
      (c : Cache K V) (k : K) (e : Entry V) (t0 t : Time)
      → t0 ≤ t
      → lookup k c.m ≡ some e
      → after t0 e.exp ≡ true
      → (get_cached c k t).0 ≡ none
  unfolding get_cached get_live
  expired-get_cached c k e t0 t le found old =
      let older : after t e.exp ≡ true = ground arith in rw (found, older) (ground arith)

  -- A get changes no later answer: what it deletes is over.
  get_cached-get_cached :
      (c : Cache K V) (k other : K) (t0 t : Time)
      → t0 ≤ t
      → (get_cached (get_cached c k t0).1 other t).0 ≡ (get_cached c other t).0
  get_cached-get_cached c k other t0 t le = elim (Bool-cases (enabled c)) [
    | inr off ↦ rw (get_cached-off c k t0 off) refl
    | inl on ↦ elim (Option-cases (lookup k c.m)) [
      | inl e ↦ rw (get_cached-missing c k t0 e) refl
      | inr (x, e) ↦ elim (Bool-cases (after t0 x.exp)) [
        | inr live ↦ rw (get_cached-live c k x t0 e live) refl
        | inl old ↦
            let gone = expired-get_cached c k x t0 t le e old in
            rw (get_cached-old c k x t0 on e old, get_cached-delete_cached c k other t)
              (elim (Bool-cases (same k other)) [
                | inl s ↦
                    let gone' = rw ((key.same_iff k other).0 s) at (gone) in rw (s, gone') refl
                | inr s ↦ rw s refl
              ])
      ]
    ]
  ]

  Answers-get :
      (c : Cache K V) (k : K) (t0 now : Time) (view : View K V)
      → now ≤ t0
      → Answers c now view
      → Answers (get_cached c k t0).1 t0 view
  unfolding Answers
  Answers-get c k t0 now view le h =
      λ other t le'. get_cached-get_cached c k other t0 t le' ∙ h other t (omega arith)

  Answers-set :
      (c : Cache K V) (k : K) (v : V) (t0 now : Time) (view : View K V) (on : Bool) (ttl : Duration)
      → enabled c ≡ on
      → c.ttl ≡ ttl
      → now ≤ t0
      → Answers c now view
      → Answers (set_cached c k v t0) t0 (set_view on ttl k v t0 view)
  unfolding Answers set_view
  Answers-set c k v t0 now view on ttl d e le h =
      λ other t le'. rw (get_cached-set_cached c k other v t0 t, h other t (omega arith), d, e) refl

  answer :
      (c : Cache K V) (now : Time) (view : View K V)
      → Answers c now view
      → (k : K) (t : Time) → now ≤ t
      → (get_cached c k t).0 ≡ view k t
  unfolding Answers
  answer c now view h k t le = h k t le

  Answers-delete :
      (c : Cache K V) (k : K) (t0 now : Time) (view : View K V)
      → now ≤ t0
      → Answers c now view
      → Answers (delete_cached c k) t0 (delete_view k view)
  unfolding Answers delete_view
  Answers-delete c k t0 now view le h =
      λ other t le'. rw (get_cached-delete_cached c k other t, h other t (omega arith)) refl

  enabled-ttl : (d c : Cache K V) → d.ttl ≡ c.ttl → enabled d ≡ enabled c
  unfolding enabled
  enabled-ttl d c e = rw e refl

  run_cache-Answers :
      (calls : List (Call K V)) (c : Cache K V) (now : Time) (view : View K V) (on : Bool)
      (ttl : Duration)
      → enabled c ≡ on
      → c.ttl ≡ ttl
      → Answers c now view
      → in_order now calls ≡ true
      → run_cache c calls ≡ run_view on ttl view calls
  unfolding run_cache run_view in_order
  run_cache-Answers [] c now view on ttl d e h o = refl
  run_cache-Answers (get_call k t ∷ calls) c now view on ttl d e h o =
      let le : now ≤ t = leb→le now t (ground arith) in
      let c' = (get_cached c k t).1 in
      let same_ttl = ttl-get_cached c k t in
      rw
        (
          answer c now view h k t le,
          run_cache-Answers calls c' t view on ttl (enabled-ttl c' c same_ttl ∙ d) (same_ttl ∙ e)
              (Answers-get c k t now view le h) (ground arith),
        )
        refl
  run_cache-Answers (set_call k v t ∷ calls) c now view on ttl d e h o =
      let le : now ≤ t = leb→le now t (ground arith) in
      let c' = set_cached c k v t in
      let same_ttl = ttl-set_cached c k v t in
      run_cache-Answers calls c' t (set_view on ttl k v t view) on ttl
        (enabled-ttl c' c same_ttl ∙ d) (same_ttl ∙ e)
        (Answers-set c k v t now view on ttl d e le h) (ground arith)
  run_cache-Answers (delete_call k t ∷ calls) c now view on ttl d e h o =
      let le : now ≤ t = leb→le now t (ground arith) in
      let c' = delete_cached c k in
      let same_ttl : c'.ttl ≡ c.ttl = ttl-delete_cached c k in
      run_cache-Answers calls c' t (delete_view k view) on ttl (enabled-ttl c' c same_ttl ∙ d)
        (same_ttl ∙ e) (Answers-delete c k t now view le h) (ground arith)

  no_view : View K V
  no_view k t = none

  Answers-empty : (c : Cache K V) → c.m ≡ [] → Answers c 0 no_view
  unfolding Answers get_cached get_live lookup no_view
  Answers-empty c e = λ k t le. rw e (ground arith)

  -- On calls in the order of their times a new cache is the abstract one: every get returns the
  -- value of the last set of its key, unless a delete came behind it, its time to live is over or
  -- the time to live is not positive.
  pub run_cache-run_view :
      (ttl : Duration) (calls : List (Call K V))
      → in_order 0 calls ≡ true
      → run_cache (new_cache ttl) calls
        ≡ run_view (enabled (new_cache {K = K} {V = V} ttl)) ttl (λ k t. none) calls
  unfolding new_cache no_view
  run_cache-run_view ttl calls o =
      run_cache-Answers calls (new_cache ttl) 0 no_view _ ttl refl refl
        (Answers-empty (new_cache ttl) refl) o
