-- ===== src/Catalog/Collected.antt =====
-- internal/modelcatalog/catalog.go: `ForRoute` against the reference union of what the accounts offer.
use openllms.Prelude.{
  List, [], ◌∷◌, ◌++◌, map, some, ◌≡◌, refl, inl, inr, if◌then◌else◌, Text, lit, text_eq, to_lower,
  Bool-cases,
}
use openllms.Account.{Account, Route}
use openllms.Assoc.{text_instance}
use openllms.Catalog.{AccountModels, Union, add_models, collect, for_route, suggest}
use openllms.Catalog.Union.{
  Offer, offers_of, union_of, add_offers, add_models-offers, add_offers-append,
  read_union-add_offers,
}

-- What the accounts answer, asked one behind the other, each with its vendor.
unfoldable pub answers :
    {F W : Type 0}
    → (Account F → W → AccountModels × W)
    → List (Account F)
    → W
    → List (Text × AccountModels)
answers for_account [] w = []
answers for_account (a ∷ rest) w =
    let (am, w1) = for_account a w in (to_lower a.vendor, am) ∷ answers for_account rest w1

-- The offers of the accounts that answered.
unfoldable pub offers : List (Text × AccountModels) → List Offer
offers [] = []
offers ((provider, am) ∷ rest) =
    let later = offers rest in
    if text_eq am.status (lit "ok") then offers_of provider am.id am.models ++ later else later

abbrev pub answer_models : Text × AccountModels → AccountModels
answer_models a = a.1

module _ {F W : Type 0} (for_account : Account F → W → AccountModels × W) where
  collect-answers :
      (accounts : List (Account F)) (s : Union × List Text) (w : W)
      → (collect for_account accounts s w).0 ≡ map answer_models (answers for_account accounts w)
  unfolding collect answers
  collect-answers [] s w = refl
  collect-answers (a ∷ rest) s w =
      let (am, w1) = for_account a w in
      let s1 =
        if text_eq am.status (lit "ok")
        then add_models (to_lower a.vendor) am.id am.models s
        else s in
      rw (collect-answers rest s1 w1) refl

  collect-offers :
      (accounts : List (Account F)) (s : Union × List Text) (w : W)
      → (collect for_account accounts s w).1.0
        ≡ add_offers (offers (answers for_account accounts w)) s
  unfolding collect answers offers add_offers
  collect-offers [] s w = refl
  collect-offers (a ∷ rest) s w =
      let (am, w1) = for_account a w in
      let p = to_lower a.vendor in
      let now = offers_of p am.id am.models in
      let later = offers (answers for_account rest w1) in
      elim (Bool-cases (text_eq am.status (lit "ok"))) [
        | inl h ↦ rw h (
            rw
              (
                collect-offers rest (add_models p am.id am.models s) w1,
                add_offers-append now later s,
                add_models-offers p am.id am.models s,
              )
              refl)
        | inr h ↦ rw h (rw (collect-offers rest s w1) refl)
      ]

  -- The catalog of a route never dereferences a missing entry: its accounts are the answers in
  -- order, and its models are those of the reference, the ids that an account with status ok
  -- offers, in the order of the first offer, each with exactly the vendors and the accounts that
  -- offer it, each once.
  pub for_route-union_of :
      (rt : Route F) (accounts : List (Account F)) (w : W)
      → (for_route for_account rt accounts w).0 ≡ (
          let ans = answers for_account accounts w in
          let models = union_of (offers ans) in
          some (record {
            route = rt.slug;
            strategy = rt.strategy;
            accounts = map answer_models ans;
            models = models;
            suggested_model = suggest rt.default_model models (map answer_models ans);
          }))
  unfolding for_route
  for_route-union_of rt accounts w =
      let os = offers (answers for_account accounts w) in
      rw
        (
          collect-offers accounts ([], []) w,
          collect-answers accounts ([], []) w,
          read_union-add_offers os,
        )
        refl
