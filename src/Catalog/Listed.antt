-- ===== src/Catalog/Listed.antt =====
-- internal/modelcatalog/catalog.go: what a catalog lists: each id once, and a suggestion that is listed.
use openllms.Prelude.{
  has, distinct, text_eq_sym, List, [], ◌∷◌, ◌++◌, map, some, Bool, true, false, ◌≡◌, refl, ap, inl,
  inr, ◌&&◌, not, Text, is_empty, text_eq_refl, arith, Bool-cases,
}
use openllms.Account.{Account, Route}
use openllms.Catalog.{
  AccountModels, UnionModel, RouteModels, append_unique, for_route, suggest, offers_model,
  first_model, looks_like_account_ref,
}
use openllms.Catalog.Union.{uniq, union_of, offered_by, offer_id, Offer, has-append}
use openllms.Catalog.Collected.{answer_models, offers, answers, for_route-union_of}

distinct-snoc :
    (xs : List Text) (v : Text)
    → has v xs ≡ false
    → distinct xs ≡ true
    → distinct (xs ++ (v ∷ [])) ≡ true
unfolding distinct has
distinct-snoc [] v none_yet d = refl
distinct-snoc (x ∷ xs) v none_yet d =
    let ih = distinct-snoc xs v (ground arith) (ground arith) in
    ground (arith, ih, has-append x xs (v ∷ []), text_eq_sym x v)

pub distinct-uniq : (acc xs : List Text) → distinct acc ≡ true → distinct (uniq acc xs) ≡ true
unfolding uniq append_unique
distinct-uniq acc [] d = d
distinct-uniq acc (x ∷ xs) d = elim (Bool-cases (has x acc)) [
  | inl h ↦ rw h (distinct-uniq acc xs d)
  | inr h ↦ rw h (distinct-uniq (acc ++ (x ∷ [])) xs (distinct-snoc acc x h d))
]

unfoldable pub union_id : UnionModel → Text
union_id m = m.id

map-union_id : (os : List Offer) (ids : List Text) → map union_id (map (offered_by os) ids) ≡ ids
unfolding union_id
map-union_id os [] = refl
map-union_id os (id ∷ ids) = ap (λ rest. id ∷ rest) (map-union_id os ids)

distinct-empty : distinct [] ≡ true
unfolding distinct
distinct-empty = refl

first-offers_model : (m : UnionModel) (ms : List UnionModel) → offers_model m.id (m ∷ ms) ≡ true
unfolding offers_model
first-offers_model m ms = rw (text_eq_refl m.id) refl

-- Whether a catalog without duplicates suggests one of its models, where it has any.
unfoldable pub sound : RouteModels → Bool
sound cat =
    distinct (map union_id cat.models)
    && elim cat.models [ [] ↦ true | m ∷ ms ↦ offers_model cat.suggested_model (m ∷ ms) ]

suggest-offers_model :
    (d : Text) (m : UnionModel) (ms : List UnionModel) (accounts : List AccountModels)
    → offers_model (suggest d (m ∷ ms) accounts) (m ∷ ms) ≡ true
unfolding suggest first_model
suggest-offers_model d m ms accounts =
    let named = not (is_empty d) && not (looks_like_account_ref d) in
    elim (Bool-cases (named && offers_model d (m ∷ ms))) [
      | inl h ↦ rw h (ground (arith, h))
      | inr h ↦ rw h (first-offers_model m ms)
    ]

sound-catalog :
    (route strategy d : Text) (accounts : List AccountModels) (models : List UnionModel)
    → distinct (map union_id models) ≡ true
    → sound (record {
      route = route;
      strategy = strategy;
      accounts = accounts;
      models = models;
      suggested_model = suggest d models accounts;
    })
      ≡ true
unfolding sound
sound-catalog route strategy d accounts [] h = rw h refl
sound-catalog route strategy d accounts (m ∷ ms) h =
    rw (h, suggest-offers_model d m ms accounts) refl

module _ {F W : Type 0} (for_account : Account F → W → AccountModels × W) where
  -- A route always has a catalog; no id stands in it twice, and where it has models the model that
  -- it suggests is one of them.
  pub for_route-sound :
      (rt : Route F) (accounts : List (Account F)) (w : W)
      → (cat : RouteModels) × ((for_route for_account rt accounts w).0 ≡ some cat)
        × (sound cat ≡ true)
  for_route-sound rt accounts w =
      let ans = answers for_account accounts w in
      let os = offers ans in
      let ids : distinct (map union_id (union_of os)) ≡ true =
        rw (map-union_id os (uniq [] (map offer_id os)))
          (distinct-uniq [] (map offer_id os) distinct-empty) in
      (
        _,
        for_route-union_of for_account rt accounts w,
        sound-catalog rt.slug rt.strategy rt.default_model (map answer_models ans) (union_of os)
            ids,
      )
