-- ===== src/Router/Pool/Tried.antt =====
-- `Exclude` against the set of tried accounts, which makes the dispatch loop end.
use openllms.Prelude.{
  ◌<◌, ◌≤◌, List, [], ◌∷◌, Bool, false, not, length, ◌≡◌, refl, keep, Bool-cases, inl, inr, arith,
  All, All-map, keep-All, ap, ◌⊎◌,
}
use mathlib.Core.List.{Memᴰ}
use openllms.Account.{Uuid, Account}
use openllms.Router.Pool.{was_tried, drop_tried, exclude}

pub Memᴰ-cons-cases {ℓ} :
    {A : Type ℓ} {a b : A} {xs : List A} → Memᴰ a (b ∷ xs) → (a ≡ b) ⊎ Memᴰ a xs
Memᴰ-cons-cases (Memᴰ.head e) = inl e
Memᴰ-cons-cases (Memᴰ.tail m) = inr m

module _ {F : Type 0} where
  abbrev pub is_untried : List Uuid → Account F → Bool
  is_untried tried a = not (was_tried tried a.id)

  drop_tried-keep :
      (tried : List Uuid) (xs : List (Account F)) → drop_tried tried xs ≡ keep (is_untried tried) xs
  unfolding drop_tried
  drop_tried-keep tried [] = refl
  drop_tried-keep tried (a ∷ xs) =
      rw (drop_tried-keep tried xs)
        (elim (Bool-cases (was_tried tried a.id)) [ inl e ↦ rw e | inr e ↦ rw e ])

  keep_all : (xs : List (Account F)) → xs ≡ keep (is_untried []) xs
  unfolding was_tried
  keep_all [] = refl
  keep_all (a ∷ xs) = rw (← keep_all xs)

  -- `Exclude` keeps exactly the accounts whose ids were not tried, in their order.
  exclude_lem :
      (xs : List (Account F)) (tried : List Uuid) → exclude xs tried ≡ keep (is_untried tried) xs
  unfolding exclude
  exclude_lem xs [] = keep_all xs
  exclude_lem xs (t ∷ tried) = drop_tried-keep (t ∷ tried) xs

  pub exclude-untried :
      (xs : List (Account F)) (tried : List Uuid)
      → All (λ a. was_tried tried a.id ≡ false) (exclude xs tried)
  exclude-untried xs tried =
      rw (exclude_lem xs tried)
        (All-map _ _ _ (λ a h. ground arith) (keep-All (is_untried tried) xs))

  keep_one_more :
      (a : Account F) (tried : List Uuid) (xs : List (Account F))
      → length (keep (is_untried (a.id ∷ tried)) xs) ≤ length (keep (is_untried tried) xs)
  unfolding was_tried
  keep_one_more a tried [] = omega arith
  keep_one_more a tried (b ∷ xs) = ground (arith, keep_one_more a tried xs)

  keep_drops :
      (a : Account F) (tried : List Uuid) (xs : List (Account F))
      → Memᴰ a (keep (is_untried tried) xs)
      → length (keep (is_untried (a.id ∷ tried)) xs) < length (keep (is_untried tried) xs)
  unfolding was_tried
  keep_drops a tried [] m = elim m [ ]
  keep_drops a tried (b ∷ xs) m = elim (Bool-cases (was_tried tried b.id)) [
    | inl e ↦ let ih = keep_drops a tried xs (rw e at m) in ground (arith, ih)
    | inr e ↦ elim (Memᴰ-cons-cases (rw e at m)) [
      | inl ab ↦
          let same = ap (λ (x : Account F). x.id) ab in
          ground (arith, keep_one_more a tried xs, same)
      | inr rest ↦ let ih = keep_drops a tried xs rest in ground (arith, ih)
    ]
  ]

  -- Every account tried makes the candidate list shorter.
  pub exclude-lt :
      (a : Account F) (tried : List Uuid) (xs : List (Account F))
      → Memᴰ a (exclude xs tried)
      → length (exclude xs (a.id ∷ tried)) < length (exclude xs tried)
  exclude-lt a tried xs m =
      rw (exclude_lem xs (a.id ∷ tried), exclude_lem xs tried)
        (keep_drops a tried xs (rw (exclude_lem xs tried) at m))
