-- ===== src/Router/Pool/Prefer.antt =====
-- `PreferAccount` moves the preferred account to the front.
use openllms.Prelude.{
  List, [], ◌∷◌, Bool, true, false, not, if◌then◌else◌, ◌==◌, ◌||◌, length, ltb, ◌≡◌, ◌≢◌, refl,
  keep, Bool-cases, inl, inr, arith, All, All-map, Option, none, some, ◌⊎◌, ap, sym, ◌∙◌,
}
use mathlib.Core.List.{Memᴰ}
use mathlib.Core.Option.{some-injective}
use openllms.Account.{Uuid, uuid_nil, Account}
use openllms.Router.Pool.{split_off, prefer_account}

pub some_either {ℓ} :
    {A : Type ℓ} {w a : A} {best : Option A} {xs : List A} (c : Bool)
    → ((if c then some a else best) ≡ some w) ⊎ Memᴰ w xs
    → (best ≡ some w) ⊎ Memᴰ w (a ∷ xs)
some_either true (inl e) = inr (Memᴰ.head (sym (some-injective _ _ e)))
some_either false (inl e) = inl e
some_either _ (inr m) = inr (Memᴰ.tail m)

module _ {F : Type 0} where
  -- No two accounts of the list have one id.
  abbrev pub Distinct : List (Account F) → Type 0
  Distinct [] = Unit
  Distinct (a ∷ xs) = All (λ b. b.id ≢ a.id) xs × Distinct xs

  abbrev pub is_other : Uuid → Account F → Bool
  is_other p a = not (a.id == p)

  split_off_absent :
      (p : Uuid) (found : Option (Account F)) (xs : List (Account F))
      → All (λ b. b.id ≢ p) xs
      → split_off p found xs ≡ (found, xs)
  unfolding split_off
  split_off_absent p found [] h = refl
  split_off_absent p found (a ∷ xs) h = ground (arith, split_off_absent p found xs h.1, h.0)

  keep_others :
      (p : Uuid) (xs : List (Account F)) → All (λ b. b.id ≢ p) xs → keep (is_other p) xs ≡ xs
  keep_others p [] h = refl
  keep_others p (a ∷ xs) h = ground (arith, keep_others p xs h.1, h.0)

  not_same :
      (x a : Account F) (xs : List (Account F))
      → Memᴰ x xs
      → All (λ b. b.id ≢ a.id) xs
      → x.id ≢ a.id
  not_same x a [] m h = elim m [ ]
  not_same x a (b ∷ xs) (Memᴰ.head q) h = λ e. h.0 (sym (ap (λ (y : Account F). y.id) q) ∙ e)
  not_same x a (b ∷ xs) (Memᴰ.tail m) h = not_same x a xs m h.1

  split_off_present :
      (p : Uuid) (found : Option (Account F)) (x : Account F) (xs : List (Account F))
      → Distinct xs
      → Memᴰ x xs
      → x.id ≡ p
      → split_off p found xs ≡ (some x, keep (is_other p) xs)
  unfolding split_off
  split_off_present p found x [] d m e = elim m [ ]
  split_off_present p found x (a ∷ xs) d (Memᴰ.head h) e =
      let same = ap (λ (y : Account F). y.id) h in
      let here : a.id ≡ p = sym same ∙ e in
      let rest = split_off_absent p (some a) xs (All-map _ _ xs (λ b n q. n (q ∙ sym here)) d.0) in
      let others = keep_others p xs (All-map _ _ xs (λ b n q. n (q ∙ sym here)) d.0) in
      ground (arith, rest, others)
  split_off_present p found x (a ∷ xs) d (Memᴰ.tail m) e =
      let ne : a.id ≢ p = λ q. not_same x a xs m d.0 (e ∙ sym q) in
      let ih = split_off_present p found x xs d.1 m e in ground (arith, ih, ne)

  prefer_short :
      (p : Uuid) (x : Account F) (xs : List (Account F))
      → ltb (length xs) 2 ≡ true
      → Memᴰ x xs
      → x.id ≡ p
      → xs ≡ x ∷ keep (is_other p) xs
  prefer_short p x [] h m e = elim m [ ]
  prefer_short p x (a ∷ []) h (Memᴰ.head q) e =
      let same = ap (λ (y : Account F). y.id) q in ground (arith, same)
  prefer_short p x (a ∷ []) h (Memᴰ.tail m) e = elim m [ ]
  prefer_short p x (a ∷ b ∷ xs) h m e = absurd (ground arith)

  -- In a list of distinct ids a preferred account that is in the list comes to the front, and the
  -- others keep their order.
  prefer_account_moves :
      (p : Uuid) (x : Account F) (xs : List (Account F))
      → Distinct xs
      → Memᴰ x xs
      → x.id ≡ p
      → p ≢ uuid_nil
      → prefer_account xs p ≡ x ∷ keep (is_other p) xs
  unfolding prefer_account
  prefer_account_moves p x xs d m e n = elim (Bool-cases (ltb (length xs) 2)) [
    | inl h ↦ let whole = prefer_short p x xs h m e in ground (arith, whole)
    | inr h ↦ let halves = split_off_present p none x xs d m e in ground (arith, halves)
  ]

  -- A list without the preferred account is left as it is.
  pub prefer_account_absent :
      (p : Uuid) (xs : List (Account F)) → All (λ b. b.id ≢ p) xs → prefer_account xs p ≡ xs
  unfolding prefer_account
  prefer_account_absent p xs h = ground (arith, split_off_absent p none xs h)

  mem_if_other :
      {x a : Account F} {xs ys : List (Account F)} (hit : Bool)
      → (Memᴰ x ys → Memᴰ x xs)
      → Memᴰ x (if hit then ys else a ∷ ys)
      → Memᴰ x (a ∷ xs)
  mem_if_other true f m = Memᴰ.tail (f m)
  mem_if_other false f (Memᴰ.head e) = Memᴰ.head e
  mem_if_other false f (Memᴰ.tail m) = Memᴰ.tail (f m)

  split_off-mem :
      (xs : List (Account F)) (p : Uuid) (found : Option (Account F)) (x : Account F)
      → Memᴰ x (split_off p found xs).1
      → Memᴰ x xs
  unfolding split_off
  split_off-mem [] p found x m = m
  split_off-mem (a ∷ xs) p found x m =
      mem_if_other (a.id == p) (split_off-mem xs p (if a.id == p then some a else found) x) m

  split_off-found :
      (xs : List (Account F)) (p : Uuid) (found : Option (Account F)) (x : Account F)
      → (split_off p found xs).0 ≡ some x
      → (found ≡ some x) ⊎ Memᴰ x xs
  unfolding split_off
  split_off-found [] p found x e = inl e
  split_off-found (a ∷ xs) p found x e =
      some_either (a.id == p) (split_off-found xs p (if a.id == p then some a else found) x e)

  -- Every account of the reordered list was in the list.
  pub prefer_account-mem :
      (xs : List (Account F)) (p : Uuid) (x : Account F) → Memᴰ x (prefer_account xs p) → Memᴰ x xs
  unfolding prefer_account
  prefer_account-mem xs p x m = elim (Bool-cases (p == uuid_nil || ltb (length xs) 2)) [
    | inl e ↦ (rw e at m)
    | inr e ↦ found-mem (split_off p none xs).0 refl (rw e at m)
  ]
    where
      found-mem :
          (f : Option (Account F))
          → (split_off p none xs).0 ≡ f
          → Memᴰ x (elim f [ none ↦ xs | some a ↦ a ∷ (split_off p none xs).1 ])
          → Memᴰ x xs
      found-mem none e m = m
      found-mem (some a) e (Memᴰ.head h) = elim (split_off-found xs p none a e) [
        | inl k ↦ absurd (ground arith)
        | inr k ↦ rw h k
      ]
      found-mem (some a) e (Memᴰ.tail k) = split_off-mem xs p none x k

  pub prefer_account-eq-nil :
      (xs : List (Account F)) (p : Uuid) → prefer_account xs p ≡ [] → xs ≡ []
  unfolding prefer_account
  prefer_account-eq-nil xs p h = elim (Bool-cases (p == uuid_nil || ltb (length xs) 2)) [
    | inl e ↦ (rw e at h)
    | inr e ↦ found-nil (split_off p none xs).0 (rw e at h)
  ]
    where
      found-nil :
          (f : Option (Account F))
          → elim f [ none ↦ xs | some a ↦ a ∷ (split_off p none xs).1 ] ≡ []
          → xs ≡ []
      found-nil none q = q
      found-nil (some a) q = cc
