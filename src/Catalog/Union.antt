-- ===== src/Catalog/Union.antt =====
-- internal/modelcatalog/catalog.go: the map and the order that `ForRoute` keeps against a reference without
-- them: the ids in the order of their first offer, each with the vendors and the accounts that offer it.
use openllms.Prelude.{
  has, List, [], ◌∷◌, ◌++◌, map, keep, Option, none, some, Bool, true, false, ◌≡◌, refl, sym, ◌∙◌,
  inl, inr, ◌||◌, if◌then◌else◌, Text, text_eq, text_eq_refl, eq-text_eq, arith, Bool-cases,
  Option-cases,
}
use openllms.Assoc.{lookup, insert, lookup-insert, text_instance}
use openllms.Catalog.{
  Model, UnionModel, Union, append_unique, callable, entry_of, add_model, add_models, read_union,
}

-- A model that an account offers: the model, its vendor and the account.
pub record Offer : Type 0 where
  pub id : Text
  pub provider : Text
  pub account : Text

-- The texts of a list behind those of an accumulator, each once.
unfoldable pub uniq : List Text → List Text → List Text
uniq acc [] = acc
uniq acc (x ∷ xs) = uniq (append_unique acc x) xs

unfoldable pub offers_of : Text → Text → List Model → List Offer
offers_of provider account [] = []
offers_of provider account (m ∷ ms) =
    let rest = offers_of provider account ms in
    if callable m then record { id = m.id; provider = provider; account = account } ∷ rest else rest

abbrev pub offers_id : Text → Offer → Bool
offers_id id o = text_eq o.id id

abbrev pub offer_id : Offer → Text
offer_id o = o.id

abbrev pub offer_provider : Offer → Text
offer_provider o = o.provider

abbrev pub offer_account : Offer → Text
offer_account o = o.account

-- The reference entry of an id.
abbrev pub offered_by : List Offer → Text → UnionModel
offered_by os id = record {
  id = id;
  providers = uniq [] (map offer_provider (keep (offers_id id) os));
  account_ids = uniq [] (map offer_account (keep (offers_id id) os));
}

-- The reference union.
abbrev pub union_of : List Offer → List UnionModel
union_of os = map (offered_by os) (uniq [] (map offer_id os))

unfoldable pub add_offer : Offer → Union × List Text → Union × List Text
unfolding add_model
add_offer o s = add_model o.provider o.account (record { id = o.id; owned_by = [] }) s

unfoldable pub add_offers : List Offer → Union × List Text → Union × List Text
add_offers [] s = s
add_offers (o ∷ os) s = add_offers os (add_offer o s)

pub add_models-offers :
    (p a : Text) (ms : List Model) (s : Union × List Text)
    → add_models p a ms s ≡ add_offers (offers_of p a ms) s
unfolding add_models add_offers offers_of add_offer add_model
add_models-offers p a [] s = refl
add_models-offers p a (m ∷ ms) s = elim (Bool-cases (callable m)) [
  | inl e ↦ rw (e, add_models-offers p a ms (add_model p a m s)) refl
  | inr e ↦ rw (e, add_models-offers p a ms s) refl
]

pub add_offers-append :
    (xs ys : List Offer) (s : Union × List Text)
    → add_offers (xs ++ ys) s ≡ add_offers ys (add_offers xs s)
unfolding add_offers
add_offers-append [] ys s = refl
add_offers-append (x ∷ xs) ys s = add_offers-append xs ys (add_offer x s)

abbrev is_some : Option UnionModel → Bool
is_some none = false
is_some (some _) = true

-- The map and the order name the same ids.
Aligned : Union × List Text → Type 0
Aligned (u, order) = (id : Text) → is_some (lookup id u) ≡ has id order

pub has-append : (v : Text) (xs ys : List Text) → has v (xs ++ ys) ≡ has v xs || has v ys
unfolding has
has-append v [] ys = refl
has-append v (x ∷ xs) ys = ground (arith, has-append v xs ys)

pub has-append_unique :
    (v x : Text) (xs : List Text) → has v (append_unique xs x) ≡ has v xs || text_eq x v
unfolding append_unique has
has-append_unique v x xs = elim (Bool-cases (has x xs)) [
  | inl e ↦ elim (Bool-cases (text_eq x v)) [
    | inl h ↦
        let hv : has v xs ≡ true = rw (eq-text_eq x v h) at (e) in rw (e, h, hv) (ground arith)
    | inr h ↦ rw (e, h) (ground arith)
  ]
  | inr e ↦ rw (e, has-append v xs (x ∷ [])) (ground arith)
]

-- The entry of an id behind an offer.
abbrev extend : UnionModel → Offer → UnionModel
extend e o = record e {
  providers = append_unique e.providers o.provider;
  account_ids = append_unique e.account_ids o.account;
}

entry_of-insert :
    (i j : Text) (e : UnionModel) (u : Union)
    → entry_of j (insert i e u) ≡ (if text_eq i j then e else entry_of j u)
unfolding entry_of
entry_of-insert i j e u = elim (Bool-cases (text_eq i j)) [
  | inl h ↦ rw (lookup-insert i j e u, h) refl
  | inr h ↦ rw (lookup-insert i j e u, h) refl
]

entry_of-add_offer :
    (o : Offer) (j : Text) (s : Union × List Text)
    → entry_of j (add_offer o s).0
      ≡ (if text_eq o.id j then extend (entry_of j s.0) o else entry_of j s.0)
unfolding add_offer add_model
entry_of-add_offer o j (u, order) =
    let step = entry_of-insert o.id j (extend (entry_of o.id u) o) u in
    elim (Bool-cases (text_eq o.id j)) [
      | inl h ↦ rw (step, h, eq-text_eq o.id j h) refl
      | inr h ↦ rw (step, h) refl
    ]

order-add_offer :
    (o : Offer) (s : Union × List Text) → Aligned s → (add_offer o s).1 ≡ append_unique s.1 o.id
unfolding add_offer add_model Aligned append_unique
order-add_offer o (u, order) inv =
    let h = inv o.id in
    elim (Option-cases (lookup o.id u)) [
      | inl e ↦ let h' = rw e at (h) in rw (e, sym h') refl
      | inr (x, e) ↦ let h' = rw e at (h) in rw (e, sym h') refl
    ]

Aligned-add_offer : (o : Offer) (s : Union × List Text) → Aligned s → Aligned (add_offer o s)
unfolding Aligned add_offer add_model
Aligned-add_offer o (u, order) inv = λ j.
    let step = lookup-insert o.id j (extend (entry_of o.id u) o) u in
    let before = inv j in
    rw (order-add_offer o (u, order) inv, has-append_unique j o.id order, step)
      (elim (Bool-cases (text_eq o.id j)) [
        | inl h ↦ rw h (ground arith)
        | inr h ↦ rw (h, before) (ground arith)
      ])

-- The entry of an id behind a run of offers.
entry_of-add_offers :
    (os : List Offer) (j : Text) (s : Union × List Text)
    → entry_of j (add_offers os s).0 ≡ record (entry_of j s.0) {
      providers = uniq (entry_of j s.0).providers (map offer_provider (keep (offers_id j) os));
      account_ids = uniq (entry_of j s.0).account_ids (map offer_account (keep (offers_id j) os));
    }
unfolding add_offers uniq
entry_of-add_offers [] j s = refl
entry_of-add_offers (o ∷ os) j s =
    let ih = entry_of-add_offers os j (add_offer o s) in
    let step = entry_of-add_offer o j s in
    elim (Bool-cases (text_eq o.id j)) [
      | inl h ↦ rw (ih, step, h) refl
      | inr h ↦ rw (ih, step, h) refl
    ]

order-add_offers :
    (os : List Offer) (s : Union × List Text)
    → Aligned s
    → (add_offers os s).1 ≡ uniq s.1 (map offer_id os)
unfolding add_offers uniq
order-add_offers [] s inv = refl
order-add_offers (o ∷ os) s inv =
    rw (order-add_offers os (add_offer o s) (Aligned-add_offer o s inv), order-add_offer o s inv)
      refl

Aligned-add_offers :
    (os : List Offer) (s : Union × List Text) → Aligned s → Aligned (add_offers os s)
unfolding add_offers
Aligned-add_offers [] s inv = inv
Aligned-add_offers (o ∷ os) s inv =
    Aligned-add_offers os (add_offer o s) (Aligned-add_offer o s inv)

read_union-entry_of :
    (order : List Text) (u : Union)
    → ((id : Text) → has id order ≡ true → is_some (lookup id u) ≡ true)
    → read_union order u ≡ some (map (λ id. entry_of id u) order)
unfolding read_union entry_of has
read_union-entry_of [] u h = refl
read_union-entry_of (x ∷ xs) u h =
    let ih = read_union-entry_of xs u (λ id m. h id (rw m (ground arith))) in
    let found = h x (rw (text_eq_refl x) refl) in
    elim (Option-cases (lookup x u)) [
      | inl e ↦ let no = rw e at (found) in ground arith
      | inr (v, e) ↦ rw (ih, e) refl
    ]

entry_of-empty : (id : Text) → entry_of id [] ≡ record { id = id; providers = []; account_ids = [] }
unfolding entry_of lookup
entry_of-empty id = refl

offered-entry_of :
    (os : List Offer) (id : Text) → entry_of id (add_offers os ([], [])).0 ≡ offered_by os id
offered-entry_of os id = rw (entry_of-add_offers os id ([], []), entry_of-empty id) refl

found-Aligned :
    (s : Union × List Text)
    → Aligned s
    → (id : Text) → has id s.1 ≡ true
    → is_some (lookup id s.0) ≡ true
unfolding Aligned
found-Aligned (u, order) inv id m = inv id ∙ m

Aligned-empty : Aligned ([], [])
unfolding Aligned lookup has
Aligned-empty = λ id. refl

pub read_union-add_offers :
    (os : List Offer)
    → read_union (add_offers os ([], [])).1 (add_offers os ([], [])).0 ≡ some (union_of os)
read_union-add_offers os =
    let u = (add_offers os ([], [])).0 in
    let inv : Aligned (add_offers os ([], [])) = Aligned-add_offers os ([], []) Aligned-empty in
    let each : (id : Text) → entry_of id u ≡ offered_by os id = λ id. offered-entry_of os id in
    let ids = uniq [] (map offer_id os) in
    let same : map (λ id. entry_of id u) ids ≡ union_of os = λ i. map (λ id. each id i) ids in
    let order = order-add_offers os ([], []) Aligned-empty in
    rw order (
      rw
        (
          read_union-entry_of ids u
              (λ id m. found-Aligned (add_offers os ([], [])) inv id (rw order m)),
          same,
        )
        refl)
