-- ===== src/Router/Selector.antt =====
-- internal/router/router.go: `Selector`, the state that picking keeps: the round-robin counter of
-- each route, the state of the random source, and the last soft failure of each account.
use openllms.Prelude.{
  ℕ, ◌+◌, ◌*◌, ◌/◌, ◌%◌, ◌^◌, List, [], none, some, Bool, false, ◌==◌, if◌then◌else◌,
}
use Prim.Native.Nat.{bit_xor}
use openllms.Prelude.Int.{pos, ltb_ℤ}
use openllms.Assoc.{lookup, insert, delete, nat_eq}
use openllms.Number.{Time, Duration, second, time_sub}
use openllms.Account.{Uuid}

pub record Selector : Type 0 where
  pub rr : List (Uuid × ℕ)
  pub rand : ℕ  -- uint64
  pub soft_fail : List (Uuid × Time)

abbrev pub u64 : ℕ → ℕ
u64 n = n % 2 ^ 64

-- `NewSelector`, at a time whose UnixNano is `seed`.
unfoldable pub new_selector : ℕ → Selector
new_selector seed = record { rr = []; rand = u64 seed; soft_fail = [] }

-- The three xor-shifts of `Intn` on a uint64.
abbrev xorshift : ℕ → ℕ
xorshift v =
    let a = bit_xor v (u64 (v * 2 ^ 13)) in
    let b = bit_xor a (a / 2 ^ 7) in bit_xor b (u64 (b * 2 ^ 17))

-- `Intn`: the drawn number and the new state.
unfoldable pub intn : ℕ → ℕ → ℕ × ℕ
intn state n =
    let next = u64 (state + 1) in if n == 0 then (0, state) else (u64 (xorshift next) % n, next)

abbrev pub soft_fail_window : Duration
soft_fail_window = pos (30 * second)

unfoldable pub note_soft_fail : Selector → Uuid → Time → Selector
unfolding insert
note_soft_fail s account now = record s { soft_fail = insert account now s.soft_fail }

unfoldable pub clear_soft_fail : Selector → Uuid → Selector
unfolding delete
clear_soft_fail s account = record s { soft_fail = delete account s.soft_fail }

unfoldable pub recently_failed : Selector → Uuid → Time → Bool
unfolding lookup
recently_failed s account now = elim (lookup account s.soft_fail) [
  | none ↦ false
  | some t ↦ ltb_ℤ (time_sub now t) soft_fail_window
]

-- The counter part of `pickRR`: the value before the increment, and the new state.
unfoldable pub next_rr : Selector → Uuid → ℕ × Selector
unfolding lookup insert
next_rr s route =
    let c : ℕ = elim (lookup route s.rr) [ none ↦ 0 | some c ↦ c ] in
    (c, record s { rr = insert route (u64 (c + 1)) s.rr })
