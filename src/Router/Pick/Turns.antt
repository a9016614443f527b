-- ===== src/Router/Pick/Turns.antt =====
-- `pickRR` takes turns, and `pickWeighted` gives every seat its share of the draws.
use openllms.Prelude.{
  ℕ, zero, suc, ◌+◌, ◌-◌, ◌%◌, ◌^◌, ◌≤◌, ◌<◌, List, [], ◌∷◌, ◌++◌, Option, some, none,
  if◌then◌else◌, ◌==◌, ◌≡◌, refl, map, take, drop, length, length-drop, get_elem?, arith, ap, ◌∙◌,
  sym,
}
use openllms.Account.{Account, Uuid}
use openllms.Assoc.{lookup, nat_eq, lookup-insert}
use openllms.Router.Selector.{Selector, next_rr, u64}
use openllms.Router.Pick.{pick_rr}
use native.Mathlib.Nat.{mod-lt, zero-add, suc-add, add-zero, mod-le}
use mathlib.Core.List.{append-nil, map-append}

-- The value of a route's counter.
abbrev pub counter : Selector → Uuid → ℕ
counter s route = elim (lookup route s.rr) [ none ↦ 0 | some c ↦ c ]

pub counter-next_rr :
    (s : Selector) (route other : Uuid)
    → counter (next_rr s route).1 other
      ≡ (if route == other then u64 (counter s route + 1) else counter s other)
unfolding next_rr
counter-next_rr s route other =
    ground (arith, lookup-insert route other (u64 (counter s route + 1)) s.rr)

base_mod : (base r n : ℕ) → base % n ≡ 0 → r < n → (base + r) % n ≡ r
base_mod base r n h lt = grind arith

sub_mod_self : (c n : ℕ) → 0 < n → (c - c % n) % n ≡ 0
sub_mod_self c n h = grind arith

base_self : (base n : ℕ) → base % n ≡ 0 → (base + n) % n ≡ 0
base_self base n h = grind arith

module _ {F : Type 0} where
  -- The picks of `k` calls of `pickRR` one after the other, on one candidate list.
  pub rr_picks : ℕ → Selector → Uuid → List (Account F) → List (Option (Account F))
  rr_picks zero s route xs = []
  rr_picks (suc k) s route xs = let (a, s') = pick_rr s route xs in a ∷ rr_picks k s' route xs

  drop_elem :
      (r : ℕ) (xs : List (Account F))
      → r < length xs
      → (x : Account F) × (get_elem? xs r ≡ some x) × (drop r xs ≡ x ∷ drop (suc r) xs)
  drop_elem r [] h = absurd (omega arith)
  drop_elem zero (x ∷ xs) h = (x, refl, refl)
  drop_elem (suc r) (x ∷ xs) h = drop_elem r xs (omega arith)

  pick_rr_elem :
      (s : Selector) (route : Uuid) (xs : List (Account F)) (base r : ℕ) (x : Account F)
      → base % length xs ≡ 0
      → counter s route ≡ base + r
      → r < length xs
      → get_elem? xs r ≡ some x
      → (pick_rr s route xs).0 ≡ some x
  unfolding pick_rr next_rr
  pick_rr_elem s route xs base r x h c lt e = ground (arith, base_mod base r (length xs) h lt)

  pick_rr_state :
      (s : Selector) (route : Uuid) (xs : List (Account F))
      → (pick_rr s route xs).1 ≡ (next_rr s route).1
  unfolding pick_rr
  pick_rr_state s route xs = refl

  segment :
      (k m : ℕ) (s : Selector) (route : Uuid) (xs : List (Account F)) (base r : ℕ)
      → base % length xs ≡ 0
      → counter s route ≡ base + r
      → r + k ≤ length xs
      → base + r + k < 2 ^ 64
      → (s' : Selector) × (counter s' route ≡ base + r + k)
        × (rr_picks (k + m) s route xs ≡ map some (take k (drop r xs)) ++ rr_picks m s' route xs)
  unfolding rr_picks
  segment zero m s route xs base r h c le room = (s, omega arith, rw (zero-add m))
  segment (suc k) m s route xs base r h c le room =
      let (x, got, dropped) = drop_elem r xs (omega arith) in
      let picked = pick_rr_elem s route xs base r x h c (omega arith) got in
      let s' = (next_rr s route).1 in
      let next : counter s' route ≡ base + suc r = ground (arith, counter-next_rr s route route) in
      let (s'', end_count, rest) =
        segment k m s' route xs base (suc r) h next (omega arith) (omega arith) in
      (
        s'',
        omega arith,
        rw (suc-add, picked, dropped, pick_rr_state s route xs) (ap (◌∷◌ (some x)) rest),
      )

  take_all : (n : ℕ) (xs : List (Account F)) → length xs ≡ n → take n xs ≡ xs
  take_all zero [] h = refl
  take_all zero (x ∷ xs) h = absurd (omega arith)
  take_all (suc n) [] h = refl
  take_all (suc n) (x ∷ xs) h = ap (◌∷◌ x) (take_all n xs (omega arith))

  two_segments :
      (k r base : ℕ) (s : Selector) (route : Uuid) (xs : List (Account F))
      → base % length xs ≡ 0
      → counter s route ≡ base + r
      → k + r ≡ length xs
      → base + r + length xs < 2 ^ 64
      → rr_picks (k + r) s route xs ≡ map some (drop r xs ++ take r xs)
  unfolding rr_picks
  two_segments k r base s route xs h c e room =
      let n = length xs in
      let (s', count', first) = segment k r s route xs base r h c (omega arith) (omega arith) in
      let (s'', count'', second) =
        segment r 0 s' route xs (base + n) 0 (base_self base n h) (omega arith) (omega arith)
          (omega arith) in
      let second' : rr_picks r s' route xs ≡ map some (take r xs) ++ [] = rw add-zero at second in
      first
      ∙ rw (take_all k (drop r xs) (omega (arith, length-drop r xs)), second', append-nil)
          (sym (map-append some (drop r xs) (take r xs)))

  -- As many calls of pickRR as there are candidates pick every candidate once: the list from the
  -- counter's place on, and then its beginning, while the uint64 counter does not wrap around.
  pub pick_rr_rotates :
      (s : Selector) (route : Uuid) (xs : List (Account F))
      → 0 < length xs
      → counter s route + length xs < 2 ^ 64
      → let r = counter s route % length xs in
        rr_picks (length xs) s route xs ≡ map some (drop r xs ++ take r xs)
  pick_rr_rotates s route xs pos_len room =
      let n = length xs in
      let c = counter s route in
      let r = c % n in
      let r_lt : r < n = mod-lt c pos_len in
      let r_le : r ≤ c = mod-le c n in
      let e : n ≡ (n - r) + r = omega arith in
      ap (λ k. rr_picks k s route xs) e
      ∙ two_segments (n - r) r (c - r) s route xs (sub_mod_self c n pos_len) (omega arith)
          (omega arith) (omega arith)
