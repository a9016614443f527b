-- ===== src/Router/Pool/Stable.antt =====
-- `PreferFresh` is a stable partition.
use openllms.Prelude.{
  List, [], ◌∷◌, ◌++◌, Bool, true, false, not, ltb, length, ◌≡◌, refl, All, keep, Bool-cases, inl,
  inr, arith, keep-append, length-append, ap, sym, ◌∙◌, mem-keep, mem-append-cases, All-map,
  keep-All,
}
use mathlib.Core.List.{Memᴰ, Perm, perm_middle, append-nil}
use mathlib.Core.List.Perm
use openllms.Account.{Account}
use openllms.Number.{Time}
use openllms.Router.Selector.{Selector, recently_failed}
use openllms.Router.Pool.{split_fresh, prefer_fresh}

module _ {F : Type 0} (s : Selector) (now : Time) where
  abbrev pub is_stale : Account F → Bool
  is_stale a = recently_failed s a.id now

  abbrev pub is_fresh : Account F → Bool
  is_fresh a = not (recently_failed s a.id now)

  split_fresh-keep :
      (xs : List (Account F)) → split_fresh s now xs ≡ (keep is_fresh xs, keep is_stale xs)
  unfolding split_fresh
  split_fresh-keep [] = refl
  split_fresh-keep (a ∷ xs) =
      rw (split_fresh-keep xs)
        (elim (Bool-cases (recently_failed s a.id now)) [ inl e ↦ rw e | inr e ↦ rw e ])

  partition_short :
      (xs : List (Account F)) → ltb (length xs) 2 ≡ true → xs ≡ keep is_fresh xs ++ keep is_stale xs
  partition_short [] h = refl
  partition_short (a ∷ []) h = elim (Bool-cases (recently_failed s a.id now)) [
    | inl e ↦ rw e
    | inr e ↦ rw e
  ]
  partition_short (a ∷ b ∷ xs) h = absurd (ground arith)

  pub prefer_fresh-keep :
      (xs : List (Account F)) → prefer_fresh s now xs ≡ keep is_fresh xs ++ keep is_stale xs
  unfolding prefer_fresh
  prefer_fresh-keep xs = elim (Bool-cases (ltb (length xs) 2)) [
    | inl e ↦ rw e (partition_short xs e)
    | inr e ↦ rw (e, split_fresh-keep xs)
  ]

  pub keep-perm : (xs : List (Account F)) → Perm (keep is_fresh xs ++ keep is_stale xs) xs
  keep-perm [] = Perm.refl []
  keep-perm (a ∷ xs) = elim (Bool-cases (recently_failed s a.id now)) [
    | inl e ↦ rw e (
        Perm.trans (perm_middle (keep is_fresh xs) (keep is_stale xs)) (Perm.cons a (keep-perm xs)))
    | inr e ↦ rw e (Perm.cons a (keep-perm xs))
  ]

  keep_opposite : (xs : List (Account F)) → keep is_fresh (keep is_stale xs) ≡ []
  keep_opposite [] = refl
  keep_opposite (a ∷ xs) = ground (arith, keep_opposite xs)

  keep_opposite' : (xs : List (Account F)) → keep is_stale (keep is_fresh xs) ≡ []
  keep_opposite' [] = refl
  keep_opposite' (a ∷ xs) = ground (arith, keep_opposite' xs)

  keep_again : (xs : List (Account F)) → keep is_fresh (keep is_fresh xs) ≡ keep is_fresh xs
  keep_again [] = refl
  keep_again (a ∷ xs) = ground (arith, keep_again xs)

  keep_again' : (xs : List (Account F)) → keep is_stale (keep is_stale xs) ≡ keep is_stale xs
  keep_again' [] = refl
  keep_again' (a ∷ xs) = ground (arith, keep_again' xs)

  pub prefer_fresh-perm : (xs : List (Account F)) → Perm (prefer_fresh s now xs) xs
  prefer_fresh-perm xs = rw (prefer_fresh-keep xs) (keep-perm xs)

  -- PreferFresh returns the accounts without a recent soft failure in front and the others behind,
  -- each group whole and in its old order.
  prefer_fresh_stable :
      (xs : List (Account F))
      → ((front back : List (Account F)) × (prefer_fresh s now xs ≡ front ++ back)
          × All (λ a. recently_failed s a.id now ≡ false) front
          × All (λ a. recently_failed s a.id now ≡ true) back)
        × (keep is_fresh (prefer_fresh s now xs) ≡ keep is_fresh xs)
        × (keep is_stale (prefer_fresh s now xs) ≡ keep is_stale xs)
  prefer_fresh_stable xs = (
    (
      keep is_fresh xs,
      keep is_stale xs,
      prefer_fresh-keep xs,
      All-map _ _ (keep is_fresh xs) (λ a h. ground arith) (keep-All is_fresh xs),
      keep-All is_stale xs,
    ),
    rw (prefer_fresh-keep xs, keep-append, keep_again, keep_opposite) (append-nil _),
    rw (prefer_fresh-keep xs, keep-append, keep_opposite', keep_again'),
  )

  pub prefer_fresh-mem :
      (x : Account F) (xs : List (Account F)) → Memᴰ x (prefer_fresh s now xs) → Memᴰ x xs
  prefer_fresh-mem x xs m =
      elim (mem-append-cases (keep is_fresh xs) (keep is_stale xs)
        (rw (prefer_fresh-keep xs) at m)) [
          | inl h ↦ mem-keep is_fresh x xs h
          | inr h ↦ mem-keep is_stale x xs h
        ]

  keep-eq-nil : (xs : List (Account F)) → keep is_fresh xs ++ keep is_stale xs ≡ [] → xs ≡ []
  keep-eq-nil [] e = refl
  keep-eq-nil (a ∷ xs) e = absurd (go (recently_failed s a.id now) refl)
    where
      go : (b : Bool) → recently_failed s a.id now ≡ b → ⊥
      go true h = ground (
        arith,
        length-append (keep is_fresh (a ∷ xs)) (keep is_stale (a ∷ xs)),
        ap (λ (l : List (Account F)). length l) e,
      )
      go false h = ground arith

  pub prefer_fresh-eq-nil : (xs : List (Account F)) → prefer_fresh s now xs ≡ [] → xs ≡ []
  prefer_fresh-eq-nil xs e = keep-eq-nil xs (sym (prefer_fresh-keep xs) ∙ e)
