-- ===== src/Proxy/Overflow.antt =====
-- internal/proxy/proxy.go: `dispatchWithFallbacks`, which goes on to the overflow routes of a route when
-- its own pool served nothing. The dispatch of one route is an argument, so is the route of a slug.
pub mod Order
use openllms.Prelude.{
  ℕ, ◌+◌, List, [], ◌∷◌, Option, none, some, Bool, true, false, ◌&&◌, ◌||◌, ◌==◌, not,
  if◌then◌else◌, Text, lit, text_eq, is_empty, to_lower, equal_fold,
}
use openllms.Account.{Uuid, Account, Route}
use openllms.Config.{Any, Items, Fields, nil, cons, get, get_bool, str, arr, null, as_str}
use openllms.Router.Status.{is_retryable_status}
use openllms.Proxy.Engine.{Result, Engine, Exit, returned, raised, panicked, out_of_fuel}
use openllms.Proxy.Dispatch.{Run}

module _ {F : Type 0} where
  -- `accountSupportsImages`; `none` is the nil account.
  unfoldable pub account_supports_images : Option (Account F) → Bool
  account_supports_images none = false
  account_supports_images (some acc) =
      let v = to_lower acc.vendor in not (text_eq v (lit "claude") || text_eq v (lit "anthropic"))

  -- `filterImageCapableAccounts`.
  unfoldable pub filter_image_capable : List (Account F) → List (Account F)
  filter_image_capable [] = []
  filter_image_capable (a ∷ accounts) =
      let out = filter_image_capable accounts in
      if account_supports_images (some a) then a ∷ out else out

  -- `parallelAllowOAuth`.
  unfoldable pub parallel_allow_oauth : Option (Fields F) → Bool
  parallel_allow_oauth none = false
  parallel_allow_oauth (some cfg) = elim (get_bool (lit "parallel_allow_oauth") cfg) [
    | none ↦ false
    | some b ↦ b
  ]

  -- The loop of `filterParallelAccounts`.
  unfoldable pub without_oauth : List (Account F) → List (Account F)
  without_oauth [] = []
  without_oauth (a ∷ accounts) =
      let out = without_oauth accounts in
      if equal_fold a.auth_type (lit "oauth") then out else a ∷ out

  -- `filterParallelAccounts`.
  unfoldable pub filter_parallel_accounts : List (Account F) → Bool → List (Account F)
  filter_parallel_accounts accounts allow_oauth =
      if allow_oauth then accounts else without_oauth accounts

  -- The items of a JSON list of strings, as json.Unmarshal decodes them into a []string: an item that is
  -- no string is left empty.
  abbrev strings_of : Items F → List Text
  strings_of nil = []
  strings_of (cons v items) = as_str v ∷ strings_of items

  abbrev strings_in : Option (Any F) → List Text
  strings_in (some (arr items)) = strings_of items
  strings_in _ = []

  -- `fallbackSlugs`.
  unfoldable pub fallback_slugs : Option (Fields F) → List Text
  fallback_slugs none = []
  fallback_slugs (some cfg) = strings_in (get (lit "fallback_slugs") cfg)

-- Whether a result ends the search: a status that does not ask for another seat.
unfoldable pub is_final : Option Result → Bool
is_final none = false
is_final (some r) = not (r.status_code == 0) && not (is_retryable_status r.status_code)

abbrev pub attempts_of : Option Result → ℕ
attempts_of none = 0
attempts_of (some r) = r.attempts

-- `fres.Attempts += res.Attempts`.
abbrev pub add_attempts : Option Result → ℕ → Option Result
add_attempts none n = none
add_attempts (some r) n = some (record r { attempts = r.attempts + n })

-- The last result that there was.
abbrev pub last_of : Option Result → Option Result → Option Result
last_of none before = before
last_of (some r) before = some r

-- Behind the dispatch of an overflow route: it ends the search, or the next slugs get the last result.
unfoldable pub after_overflow :
    {W : Type 0} → Exit → Run W → Option Result → (Option Result → Run W) → Run W
after_overflow (returned fres) next res loop =
    if is_final fres
    then record next { exit = returned (add_attempts fres (attempts_of res)) }
    else loop (last_of fres res)
after_overflow (raised err) next res loop = next
after_overflow panicked next res loop = next
after_overflow out_of_fuel next res loop = next

module _ {F W : Type 0} (dispatch : Route F → Engine → W → Run W)
    (route_by_slug : Text → W → Option (Route F)) (rt : Route F) where
  -- The loop over the slugs, with the last result.
  unfoldable pub overflow : List Text → Option Result → Run W → Run W
  overflow [] res run = record run { exit = returned res }
  overflow (slug ∷ slugs) res run =
      let skipped = overflow slugs res run in
      let found = route_by_slug slug run.world in
      if is_empty slug || text_eq slug rt.slug then skipped else elim found [
        | none ↦ skipped
        | some frt ↦
            let next = dispatch frt run.engine run.world in
            after_overflow next.exit next res (λ last. overflow slugs last next)
      ]

  -- `dispatchWithFallbacks`.
  unfoldable pub dispatch_with_fallbacks : Engine → W → Run W
  dispatch_with_fallbacks e w =
      let run = dispatch rt e w in
      elim run.exit [
        | returned res ↦ if is_final res then run else overflow (fallback_slugs rt.config) res run
        | raised err ↦ run
        | panicked ↦ run
        | out_of_fuel ↦ run
      ]
