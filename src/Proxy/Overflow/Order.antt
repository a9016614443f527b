-- ===== src/Proxy/Overflow/Order.antt =====
-- internal/proxy/proxy.go: what dispatchWithFallbacks makes of the dispatches of its routes.
use openllms.Prelude.{
  ◌+◌, ltb, List, [], ◌∷◌, inl, inr, ◌≡◌, Option, none, some, Bool, not, ◌&&◌, ◌||◌, if◌then◌else◌,
  Text, arith, Bool-cases, Option-cases, refl, text_eq, is_empty, sym, ap, ◌∙◌,
}
use openllms.Account.{Route}
use openllms.Router.Status.{is_retryable_status}
use openllms.Proxy.Engine.{Result, Engine, Exit, returned, raised, panicked, out_of_fuel}
use openllms.Proxy.Dispatch.{Run}
use openllms.Proxy.Overflow.{
  is_final, overflow, after_overflow, attempts_of, dispatch_with_fallbacks, fallback_slugs,
}

-- An answer that asks for no other seat.
abbrev pub settles : Result → Bool
settles r = ltb 0 r.status_code && not (is_retryable_status r.status_code)

-- An answer that counts the attempts of the one before it.
abbrev pub counted : Option Result → Result → Result
counted last r = record r { attempts = r.attempts + attempts_of last }

is_final_lem : (s : Result) → is_final (some s) ≡ settles s
unfolding is_final
is_final_lem s = ground arith

module _ {W : Type 0} where
  -- What a list of dispatches amounts to behind a last result: the first one that breaks or settles, and
  -- else the last result that there was.
  unfoldable pub first_settled : Option Result → Run W → List (Run W) → Run W
  first_settled last run [] = record run { exit = returned last }
  first_settled last run (next ∷ rest) = elim next.exit [
    | returned none ↦ first_settled last next rest
    | returned (some s) ↦
        let later = first_settled (some s) next rest in
        if settles s then record next { exit = returned (some (counted last s)) } else later
    | raised err ↦ next
    | panicked ↦ next
    | out_of_fuel ↦ next
  ]

  behind_none :
      (next run : Run W) (rest : List (Run W)) (last : Option Result)
      → next.exit ≡ returned none
      → first_settled last run (next ∷ rest) ≡ first_settled last next rest
  unfolding first_settled
  behind_none next run rest last e = simp e refl

  behind_some :
      (s : Result) (next run : Run W) (rest : List (Run W)) (last : Option Result)
      → next.exit ≡ returned (some s)
      → first_settled last run (next ∷ rest) ≡ (
          if settles s
          then record next { exit = returned (some (counted last s)) }
          else first_settled (some s) next rest)
  unfolding first_settled
  behind_some s next run rest last e = simp e refl

  after_overflow_lem :
      (x : Exit) (next run : Run W) (rest : List (Run W)) (last : Option Result)
      (loop : Option Result → Run W)
      → next.exit ≡ x
      → ((res : Option Result) → loop res ≡ first_settled res next rest)
      → after_overflow x next last loop ≡ first_settled last run (next ∷ rest)
  unfolding after_overflow first_settled is_final
  after_overflow_lem (returned none) next run rest last loop e h = simp (e, h last) refl
  after_overflow_lem (returned (some s)) next run rest last loop e h =
      simp (e, is_final_lem s, h (some s)) refl
  after_overflow_lem (raised err) next run rest last loop e h = simp e refl
  after_overflow_lem panicked next run rest last loop e h = simp e refl
  after_overflow_lem out_of_fuel next run rest last loop e h = simp e refl

  uncounted :
      (s : Result) (own : Run W)
      → own.exit ≡ returned (some s)
      → own ≡ record own { exit = returned (some (counted none s)) }
  uncounted s own e =
      let same : s.attempts ≡ s.attempts + 0 = omega arith in
      ap (λ x. record own { exit = x })
        (e ∙ ap (λ n. returned (some (record s { attempts = n }))) same)

  -- The same for the dispatch in front, which ends the search itself where it settles.
  own_lem :
      (own : Run W) (later : Option Result → Run W) (x : Exit) (rest : List (Run W))
      → own.exit ≡ x
      → ((res : Option Result) → later res ≡ first_settled res own rest)
      → (elim x as (λ x. Run W) [
        | returned res ↦ if is_final res then own else later res
        | raised err ↦ own
        | panicked ↦ own
        | out_of_fuel ↦ own
      ])
        ≡ first_settled none own (own ∷ rest)
  unfolding first_settled is_final after_overflow
  own_lem own later (returned none) rest e h = h none ∙ sym (behind_none own own rest none e)
  own_lem own later (returned (some s)) rest e h =
      rw (behind_some s own own rest none e, is_final_lem s, h (some s))
        (ap (λ x. if settles s then x else first_settled (some s) own rest) (uncounted s own e))
  own_lem own later (raised err) rest e h =
      after_overflow_lem (raised err) own own rest none later e h
  own_lem own later panicked rest e h = after_overflow_lem panicked own own rest none later e h
  own_lem own later out_of_fuel rest e h =
      after_overflow_lem out_of_fuel own own rest none later e h

module _ {F W : Type 0} (dispatch : Route F → Engine → W → Run W)
    (route_by_slug : Text → W → Option (Route F)) (rt : Route F) where
  -- The dispatches that all overflow routes would get in their order, each with the engine and the world
  -- that the one before left; a slug that is empty, the route's own or unknown has none.
  unfoldable pub overflow_calls : List Text → Run W → List (Run W)
  overflow_calls [] run = []
  overflow_calls (slug ∷ slugs) run =
      let skipped = overflow_calls slugs run in
      if is_empty slug || text_eq slug rt.slug
      then skipped
      else elim (route_by_slug slug run.world) [
        | none ↦ skipped
        | some frt ↦
            let next = dispatch frt run.engine run.world in next ∷ overflow_calls slugs next
      ]

  overflow_lem :
      (slugs : List Text) (last : Option Result) (run : Run W)
      → overflow dispatch route_by_slug rt slugs last run
        ≡ first_settled last run (overflow_calls slugs run)
  unfolding overflow overflow_calls first_settled
  overflow_lem [] last run = refl
  overflow_lem (slug ∷ slugs) last run = elim (Bool-cases (is_empty slug || text_eq slug rt.slug)) [
    | inl e ↦ rw e (overflow_lem slugs last run)
    | inr e ↦ elim (Option-cases (route_by_slug slug run.world)) [
      | inl n ↦ rw (e, n) (overflow_lem slugs last run)
      | inr (frt, n) ↦
          let next = dispatch frt run.engine run.world in
          rw (e, n)
            (after_overflow_lem next.exit next run (overflow_calls slugs next) last
              (λ res. overflow dispatch route_by_slug rt slugs res next) refl
              (λ res. overflow_lem slugs res next))
    ]
  ]

  -- A dispatch with overflow routes ends as its calls demand: that of the route itself, and one
  -- for each overflow slug that is not empty, not its own and known, in order, each from the
  -- engine and the world that the one before left. The first one that gives an error or a panic
  -- ends it as it is; the first one with a positive status that asks for no other seat ends it
  -- with the attempts of the last result before it added; and where there is neither, it ends in
  -- the last result that there was, which is nil only where none of the calls gave one.
  pub dispatch_with_fallbacks-first_settled :
      (e : Engine) (w : W)
      → dispatch_with_fallbacks dispatch route_by_slug rt e w
        ≡ first_settled none
            (dispatch rt e w)
            (dispatch rt e w ∷ overflow_calls (fallback_slugs rt.config) (dispatch rt e w))
  unfolding dispatch_with_fallbacks
  dispatch_with_fallbacks-first_settled e w =
      let own = dispatch rt e w in
      let slugs = fallback_slugs rt.config in
      own_lem own (λ res. overflow dispatch route_by_slug rt slugs res own) own.exit
        (overflow_calls slugs own) refl (λ res. overflow_lem slugs res own)
