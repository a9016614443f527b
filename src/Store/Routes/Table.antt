-- ===== src/Store/Routes/Table.antt =====
-- internal/store/store.go: the primary key of the routes table, and what DeleteRoute needs of it.
use openllms.Prelude.{
  ◌≡◌, List, [], ◌∷◌, Option, none, some, Bool, true, false, not, ◌&&◌, ◌||◌, ◌==◌, ==_iff, ◌⊎◌,
  ◌≢◌, Text, text_eq, eq-text_eq, arith, refl, sym, ◌∙◌, ap, inl, inr, Bool-cases,
}
use openllms.Assoc.{text_instance}
use openllms.Account.{Uuid, Route}
use openllms.Store.Routes.{
  UuidText, id_taken, route_taken, is_deleted, delete_rows, route_cache_key,
}
use openllms.Store.Routes.Rows.{ids_distinct, by_key, by_key-other}

module _ {F : Type 0} where
  abbrev route_id_of : Option (Route F) → Uuid
  route_id_of none = 0
  route_id_of (some rt) = rt.id

  pub route_taken-id_taken :
      (id project : Uuid) (slug : Text) (rows : List (Route F))
      → route_taken id project slug rows ≡ false
      → id_taken id rows ≡ false
  unfolding route_taken id_taken
  route_taken-id_taken id project slug [] e = refl
  route_taken-id_taken id project slug (rt ∷ rows) e =
      ground (arith, route_taken-id_taken id project slug rows)

  id_taken-delete_rows :
      (id project other : Uuid) (rows : List (Route F))
      → id_taken other rows ≡ false
      → id_taken other (delete_rows id project rows) ≡ false
  unfolding delete_rows id_taken
  id_taken-delete_rows id project other [] e = refl
  id_taken-delete_rows id project other (rt ∷ rows) e =
      ground (arith, id_taken-delete_rows id project other rows)

  pub ids_distinct-delete_rows :
      (id project : Uuid) (rows : List (Route F))
      → ids_distinct rows ≡ true
      → ids_distinct (delete_rows id project rows) ≡ true
  unfolding delete_rows ids_distinct
  ids_distinct-delete_rows id project [] d = refl
  ids_distinct-delete_rows id project (rt ∷ rows) d =
      ground (
        arith,
        ids_distinct-delete_rows id project rows,
        id_taken-delete_rows id project rt.id rows,
      )

module _ {F : Type 0} (u : UuidText) where
  -- An id that belongs to a key: every row that has it has the key.
  unfoldable pub belongs : Uuid → Text → List (Route F) → Bool
  belongs id key [] = true
  belongs id key (rt ∷ rows) =
      (not (rt.id == id) || text_eq (route_cache_key u rt.project_id rt.slug) key)
      && belongs id key rows

  belongs-free :
      (id : Uuid) (key : Text) (rows : List (Route F))
      → id_taken id rows ≡ false
      → belongs id key rows ≡ true
  unfolding belongs id_taken
  belongs-free id key [] e = refl
  belongs-free id key (rt ∷ rows) e = ground (arith, belongs-free id key rows)

  -- The row that a SELECT found.
  by_key-head :
      (key : Text) (rt found : Route F) (rows : List (Route F))
      → by_key u key (rt ∷ rows) ≡ some found
      → ((text_eq (route_cache_key u rt.project_id rt.slug) key ≡ true) × (rt.id ≡ found.id))
        ⊎ (by_key u key rows ≡ some found)
  unfolding by_key
  by_key-head key rt found rows e =
      elim (Bool-cases (text_eq (route_cache_key u rt.project_id rt.slug) key)) [
        | inl a ↦ let e' = rw a at (e) in inl (a, ap route_id_of e')
        | inr a ↦ let e' = rw a at (e) in inr e'
      ]

  by_key-nil : (key : Text) (found : Route F) → by_key u key [] ≢ some found
  unfolding by_key
  by_key-nil key found e = ground arith

  by_key-id_taken :
      (key : Text) (found : Route F) (rows : List (Route F))
      → by_key u key rows ≡ some found
      → id_taken found.id rows ≡ true
  unfolding id_taken
  by_key-id_taken key found [] e = ground (arith, by_key-nil key found e)
  by_key-id_taken key found (rt ∷ rows) e = elim (by_key-head key rt found rows e) [
    | inl (a, same_id) ↦ ground (arith, same_id)
    | inr e' ↦ ground (arith, by_key-id_taken key found rows e')
  ]

  misses :
      (key : Text) (rt : Route F) (rows : List (Route F)) (id : Uuid)
      → id_taken id rows ≡ true
      → id_taken rt.id rows ≡ false
      → belongs id key rows ≡ true
      → belongs id key (rt ∷ rows) ≡ true
  unfolding belongs
  misses key rt rows id there free rest = elim (Bool-cases (rt.id == id)) [
    | inl same ↦ let free' = rw ((==_iff rt.id id).0 same) at (free) in ground (arith, free', there)
    | inr other ↦ ground (arith, other, rest)
  ]

  pub by_key-belongs :
      (key : Text) (found : Route F) (rows : List (Route F))
      → ids_distinct rows ≡ true
      → by_key u key rows ≡ some found
      → belongs found.id key rows ≡ true
  unfolding belongs ids_distinct
  by_key-belongs key found [] d e = refl
  by_key-belongs key found (rt ∷ rows) d e = elim (by_key-head key rt found rows e) [
    | inl (a, same_id) ↦
        let free = belongs-free rt.id key rows (ground (arith, d)) in
        let free' = rw same_id at (free) in ground (arith, a, free')
    | inr e' ↦
        let there = by_key-id_taken key found rows e' in
        let rest = by_key-belongs key found rows (ground (arith, d)) e' in
        misses key rt rows found.id there (ground (arith, d)) rest
  ]

  by_key-cong :
      (k : Text) (rt : Route F) (rows rows' : List (Route F))
      → by_key u k rows ≡ by_key u k rows'
      → by_key u k (rt ∷ rows) ≡ by_key u k (rt ∷ rows')
  unfolding by_key
  by_key-cong k rt rows rows' e = rw e refl

  pub by_key-delete_rows :
      (id project : Uuid) (key k : Text) (rows : List (Route F))
      → belongs id key rows ≡ true
      → text_eq key k ≡ false
      → by_key u k (delete_rows id project rows) ≡ by_key u k rows
  unfolding delete_rows belongs
  by_key-delete_rows id project key k [] b e = refl
  by_key-delete_rows id project key k (rt ∷ rows) b e =
      let own = route_cache_key u rt.project_id rt.slug in
      let ih = by_key-delete_rows id project key k rows (ground (arith, b)) e in
      elim (Bool-cases (is_deleted id project rt)) [
        | inl d ↦
            let same = eq-text_eq own key (ground (arith, b, d)) in
            rw d (ih ∙ sym (by_key-other u k rt rows (rw same e)))
        | inr d ↦ rw d (by_key-cong k rt (delete_rows id project rows) rows ih)
      ]
