-- ===== src/Store/Routes/Rows.antt =====
-- internal/store/store.go: what the statements on the routes table do to the row of a cache key.
use openllms.Prelude.{
  ◌≡◌, List, [], ◌∷◌, ◌++◌, Option, none, some, Bool, true, false, not, ◌&&◌, if◌then◌else◌, Text,
  lit, text_eq, text_eq_refl, eq-text_eq, arith, refl, sym, ◌∙◌, ap, inl, inr, Bool-cases, length,
  drop, get_or,
}
use openllms.Assoc.{text_instance}
use openllms.Config.{Fields}
use openllms.Account.{Uuid, Route}
use openllms.Store.Routes.{
  UuidText, is_route, select_route, id_taken, behind_route, update_row, route_cache_key,
}

-- Texts with heads of one length are equal in parts.
append_split : (a b s t : Text) → length a ≡ length b → a ++ s ≡ b ++ t → (a ≡ b) × (s ≡ t)
append_split [] [] s t l e = (refl, e)
append_split [] (y ∷ b) s t l e = ground arith
append_split (x ∷ a) [] s t l e = ground arith
append_split (x ∷ a) (y ∷ b) s t l e =
    let heads : x ≡ y = ap (λ l. get_or l 0 0) e in
    let tails : a ++ s ≡ b ++ t = ap (drop 1) e in
    let (same_a, same_s) = append_split a b s t (omega arith) tails in
    (rw (heads, same_a) refl, same_s)

module _ (u : UuidText) where
  route_cache_key_inj :
      (p q : Uuid) (s t : Text) → route_cache_key u p s ≡ route_cache_key u q t → (p ≡ q) × (s ≡ t)
  unfolding route_cache_key
  route_cache_key_inj p q s t e =
      let lengths = u.length-uuid_string p ∙ sym (u.length-uuid_string q) in
      let (ids, rest) =
        append_split (u.uuid_string p) (u.uuid_string q) (lit "|" ++ s) (lit "|" ++ t) lengths e in
      (u.uuid_string_inj p q ids, ap (drop 1) rest)

module _ {F : Type 0} where
  -- The primary key of the table.
  unfoldable pub ids_distinct : List (Route F) → Bool
  ids_distinct [] = true
  ids_distinct (rt ∷ rows) = not (id_taken rt.id rows) && ids_distinct rows

module _ {F : Type 0} (u : UuidText) where
  -- A route has the cache key of a project and a slug exactly where it is their route.
  pub route_cache_key-is_route :
      (project : Uuid) (slug : Text) (rt : Route F)
      → text_eq (route_cache_key u rt.project_id rt.slug) (route_cache_key u project slug)
        ≡ is_route project slug rt
  route_cache_key-is_route project slug rt =
      let k = route_cache_key u rt.project_id rt.slug in
      let k' = route_cache_key u project slug in
      elim (Bool-cases (text_eq k k')) [
        | inl e ↦
            let (p, s) =
              route_cache_key_inj u rt.project_id project rt.slug slug (eq-text_eq k k' e) in
            e ∙ sym (rw (s, text_eq_refl slug) (ground (arith, p)))
        | inr e ↦ elim (Bool-cases (is_route project slug rt)) [
          | inr n ↦ e ∙ sym n
          | inl y ↦
              let p : rt.project_id ≡ project = ground (arith, y) in
              let s = eq-text_eq rt.slug slug (ground (arith, y)) in
              let e' = rw (p, s, text_eq_refl (route_cache_key u project slug)) at (e) in
              ground (arith, e')
        ]
      ]

  -- The row that a cache key stands for.
  unfoldable pub by_key : Text → List (Route F) → Option (Route F)
  by_key key [] = none
  by_key key (rt ∷ rows) =
      let rest = by_key key rows in
      if text_eq (route_cache_key u rt.project_id rt.slug) key then some rt else rest

  pub select_route-by_key :
      (project : Uuid) (slug : Text) (rows : List (Route F))
      → select_route project slug rows ≡ by_key (route_cache_key u project slug) rows
  unfolding select_route by_key
  select_route-by_key project slug [] = refl
  select_route-by_key project slug (rt ∷ rows) =
      rw (route_cache_key-is_route project slug rt, select_route-by_key project slug rows) refl

  pub by_key-other :
      (key : Text) (rt : Route F) (rows : List (Route F))
      → text_eq (route_cache_key u rt.project_id rt.slug) key ≡ false
      → by_key key (rt ∷ rows) ≡ by_key key rows
  unfolding by_key
  by_key-other key rt rows e = rw e refl

  pub by_key-own :
      (key : Text) (rt : Route F) (rows : List (Route F))
      → text_eq (route_cache_key u rt.project_id rt.slug) key ≡ true
      → by_key key (rt ∷ rows) ≡ some rt
  unfolding by_key
  by_key-own key rt rows e = rw e refl

  -- What an UPDATE of a key leaves: the rows of the other keys, and under the key the row it returns.
  unfoldable pub Updates : Text → List (Route F) → Option (Route F × List (Route F)) → Type 0
  Updates key rows none = Unit
  Updates key rows (some (rt, rows')) =
      (by_key key rows' ≡ some rt)
      × ((k : Text) → text_eq key k ≡ false → by_key k rows' ≡ by_key k rows)
      × ((id : Uuid) → id_taken id rows' ≡ id_taken id rows)
      × (ids_distinct rows ≡ true → ids_distinct rows' ≡ true)

  Updates-behind_route :
      (key : Text) (rt : Route F) (rows : List (Route F)) (o : Option (Route F × List (Route F)))
      → text_eq (route_cache_key u rt.project_id rt.slug) key ≡ false
      → Updates key rows o
      → Updates key (rt ∷ rows) (behind_route rt o)
  unfolding Updates behind_route by_key id_taken ids_distinct
  Updates-behind_route key rt rows none e h = tt
  Updates-behind_route key rt rows (some (found, rows')) e h = (
    rw e h.0,
    λ k other. rw (h.1 k other) refl,
    λ id. rw (h.2 id) refl,
    λ d. ground (arith, h.2 rt.id, h.3, d),
  )

  Updates-head :
      (key : Text) (rt rt' : Route F) (rows : List (Route F))
      → rt'.id ≡ rt.id
      → text_eq (route_cache_key u rt.project_id rt.slug) key ≡ true
      → rt'.project_id ≡ rt.project_id
      → rt'.slug ≡ rt.slug
      → Updates key (rt ∷ rows) (some (rt', rt' ∷ rows))
  unfolding Updates id_taken ids_distinct
  Updates-head key rt rt' rows same_id own p s =
      let same = eq-text_eq (route_cache_key u rt.project_id rt.slug) key own in
      (
        by_key-own key rt' rows (rw (p, s) own),
        λ k other.
            let other' = rw (sym same) at (other) in
            by_key-other k rt' rows (rw (p, s) other') ∙ sym (by_key-other k rt rows other'),
        λ id. rw same_id refl,
        λ d. rw same_id d,
      )

  pub Updates-update_row :
      (project : Uuid) (slug strategy default_model : Text) (config : Option (Fields F))
      (rows : List (Route F))
      → Updates
          (route_cache_key u project slug)
          rows
          (update_row project slug strategy default_model config rows)
  unfolding update_row Updates
  Updates-update_row project slug strategy default_model config [] = tt
  Updates-update_row project slug strategy default_model config (rt ∷ rows) =
      let key = route_cache_key u project slug in
      let same = route_cache_key-is_route project slug rt in
      let rt' : Route F = record rt {
        strategy = strategy;
        config = config;
        default_model = default_model;
      } in
      elim (Bool-cases (is_route project slug rt)) [
        | inl e ↦ rw e (Updates-head key rt rt' rows refl (same ∙ e) refl refl)
        | inr e ↦ rw e (
            Updates-behind_route key rt rows
              (update_row project slug strategy default_model config rows) (same ∙ e)
              (Updates-update_row project slug strategy default_model config rows))
      ]
