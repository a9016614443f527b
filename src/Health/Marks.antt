-- ===== src/Health/Marks.antt =====
-- internal/health/probe.go: what a run of the prober marks and counts.
use openllms.Prelude.{
  ℕ, suc, if◌then◌else◌, ◌+◌, List, [], ◌∷◌, map, take, length, Option, none, some, Bool, true,
  false, ◌||◌, ◌==◌, not, ◌≡◌, refl, ap, inl, inr, Text, arith, Bool-cases, Option-cases,
}
use openllms.Prelude.Int.{pos, ltb_ℤ}
use openllms.Number.{Duration, Time, time_add}
use openllms.Account.{Account, Uuid}
use openllms.Oauth.{Outside, ok}
use openllms.Health.{
  cool, tally, Probe, Mark, healthy, unhealthy, probe_account, probe_all, probe_once, mark_of,
}

-- The account that a mark is about.
unfoldable pub mark_id : Mark → Uuid
mark_id (healthy id) = id
mark_id (unhealthy id until) = id

unfoldable pub count_healthy : List Mark → ℕ
count_healthy [] = 0
count_healthy (healthy id ∷ ms) = suc (count_healthy ms)
count_healthy (unhealthy id until ∷ ms) = count_healthy ms

abbrev pub ids : {F : Type 0} → List (Account F) → List Uuid
ids accounts = map (λ a. a.id) accounts

-- Whether a run reached the end of its accounts.
abbrev pub finished : Option Text → Bool
finished none = true
finished (some e) = false

mark_id-mark_of :
    (cool_for : Duration) (id : Uuid) (up : Bool) (t : Time)
    → mark_id (mark_of cool_for id up t) ≡ id
unfolding mark_id
mark_id-mark_of cool_for id true t = refl
mark_id-mark_of cool_for id false t = refl

-- The marks of a run, as the counts tell them: those of the first accounts in order, one each.
unfoldable pub Told :
    {F : Type 0} → List (Account F) → ℕ × ℕ → (ℕ × ℕ) × (Option Text × List Mark) → Type 0
Told accounts (good0, bad0) ((good, bad), (err, marks)) =
    (good ≡ good0 + count_healthy marks)
    × (good + bad ≡ good0 + bad0 + length marks)
    × (map mark_id marks ≡ take (length marks) (ids accounts))
    × (not (finished err) || (length marks == length accounts) ≡ true)

reached-suc :
    (done : Bool) (a b : ℕ) → not done || (a == b) ≡ true → not done || (suc a == suc b) ≡ true
reached-suc done a b h = ground arith

-- The mark that a verdict calls for; an unhealthy one lasts for the configured time, or for a minute.
abbrev demanded : Duration → Uuid → Bool → Time → Mark
demanded cool_for id true t = healthy id
demanded cool_for id false t =
    unhealthy id (time_add t (if ltb_ℤ (pos 0) cool_for then cool_for else pos 60000000000))

demanded-mark_of :
    (cool_for : Duration) (id : Uuid) (up : Bool) (t : Time)
    → mark_of cool_for id up t ≡ demanded cool_for id up t
unfolding cool
demanded-mark_of cool_for id true t = refl
demanded-mark_of cool_for id false t = refl

module _ (out : Outside) (send : Probe → out.W → Option ℕ × out.W)
    (over : out.W → Option Text) where
  open out use {W, now}

  module _ {F : Type 0} where
    -- Each mark is the one that the probe of its account calls for, each probe in the world that the one
    -- before left, and the last world is the one behind the last probe.
    unfoldable pub Marked : Duration → List (Account F) → W → List Mark → W → Type 0
    Marked cool_for accounts w [] w' = w' ≡ w
    Marked cool_for [] w (m ∷ marks) w' = ⊥
    Marked cool_for (a ∷ rest) w (m ∷ marks) w' =
        let (up, w1) = probe_account out send over a w in
        (m ≡ demanded cool_for a.id up (now w1)) × Marked cool_for rest w1 marks w'

    probe_all-Marked :
        (cool_for : Duration) (accounts : List (Account F)) (counts : ℕ × ℕ) (w : W)
        → let (after, (err, (marks, w'))) = probe_all out send over cool_for accounts counts w in
          Marked cool_for accounts w marks w'
    unfolding probe_all Marked
    probe_all-Marked cool_for [] counts w = refl
    probe_all-Marked cool_for (a ∷ rest) counts w =
        let (up, w1) = probe_account out send over a w in
        elim (Option-cases (over w)) [
          | inr (x, e) ↦ rw e refl
          | inl e ↦ rw e (
            demanded-mark_of cool_for a.id up (now w1),
            probe_all-Marked cool_for rest (tally up counts) w1,
          )
        ]

    probe_all-lem :
        (cool_for : Duration) (accounts : List (Account F)) (counts : ℕ × ℕ) (w : W)
        → let (after, (err, (marks, w'))) = probe_all out send over cool_for accounts counts w in
          Told accounts counts (after, (err, marks))
    unfolding probe_all Told count_healthy mark_id
    probe_all-lem cool_for [] (good, bad) w = (omega arith, omega arith, refl, refl)
    probe_all-lem cool_for (a ∷ rest) (good, bad) w = elim (Option-cases (over w)) [
      | inr (x, e) ↦ rw e (omega arith, omega arith, refl, refl)
      | inl e ↦ elim (Bool-cases (probe_account out send over a w).0) [
        | inl up ↦
            let w1 = (probe_account out send over a w).1 in
            let (ih0, ih1, ih2, ih3) = probe_all-lem cool_for rest (suc good, bad) w1 in
            let later = probe_all out send over cool_for rest (suc good, bad) w1 in
            rw (e, up)
              (
                omega arith,
                omega arith,
                ap (λ more. a.id ∷ more) ih2,
                reached-suc (finished later.1.0) (length later.1.1.0) (length rest) ih3,
              )
        | inr down ↦
            let w1 = (probe_account out send over a w).1 in
            let (ih0, ih1, ih2, ih3) = probe_all-lem cool_for rest (good, suc bad) w1 in
            let later = probe_all out send over cool_for rest (good, suc bad) w1 in
            rw (e, down)
              (
                omega arith,
                omega arith,
                ap (λ more. a.id ∷ more) ih2,
                reached-suc (finished later.1.0) (length later.1.1.0) (length rest) ih3,
              )
      ]
    ]

    -- A run of the prober marks accounts in the order they are listed, each of those that it
    -- reaches once, and each of them healthy exactly where its own probe, made in the world that
    -- the one before left, says so, and else unhealthy until the configured time, or a minute, is
    -- over; `ok` and `bad` count these marks; and it reaches all of them unless it returns an
    -- error.
    pub probe_once-Told :
        (cool_for : Duration) (accounts : List (Account F)) (w : W)
        → let (counts, (err, (marks, w'))) =
            probe_once out send over true cool_for (ok accounts) w in
          Told accounts (0, 0) (counts, (err, marks)) × Marked cool_for accounts w marks w'
    unfolding probe_once
    probe_once-Told cool_for accounts w =
        (probe_all-lem cool_for accounts (0, 0) w, probe_all-Marked cool_for accounts (0, 0) w)
