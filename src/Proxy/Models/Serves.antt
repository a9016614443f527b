-- ===== src/Proxy/Models/Serves.antt =====
-- What model resolution and the servable filter of internal/proxy/account_model.go promise.
use openllms.Prelude.{
  List, [], ◌∷◌, some, Bool, true, false, Text, is_empty, trim_space, ◌≡◌, ◌≢◌, refl, ◌⊎◌, inl, inr,
  arith, keep,
}
use openllms.Account.{Account}
use openllms.Proxy.Models.{
  Body, account_serves_model, resolve_outbound_model, servable, filter_servable_accounts,
  peek_model, or_all,
}

module _ {F : Type 0} where
  -- A resolved model that is reported servable is served by the seat's vendor family or is the
  -- seat's own default model; one that is not is the request's model, which the seat does not
  -- serve, and the seat has no default model of its own.
  pub resolve_outbound_model_sound :
      (request_model route_default : Text) (acc : Account F)
      → let r = resolve_outbound_model request_model (some acc) route_default in
        (r.1 ≡ true
          → (account_serves_model (some acc) r.0 ≡ true) ⊎ (r.0 ≡ trim_space acc.default_model))
        × (r.1 ≡ false
            → (r.0 ≡ trim_space request_model)
              × (account_serves_model (some acc) r.0 ≡ false)
              × (is_empty (trim_space acc.default_model) ≡ true))
  unfolding resolve_outbound_model
  resolve_outbound_model_sound request_model route_default acc =
      (λ h. ground arith, λ h. ground arith)

  abbrev pub can_serve : Text → Text → Account F → Bool
  can_serve model route_default a = (resolve_outbound_model model (some a) route_default).1

  servable-keep :
      (model route_default : Text) (xs : List (Account F))
      → servable model route_default xs ≡ keep (can_serve model route_default) xs
  unfolding servable
  servable-keep model d [] = refl
  servable-keep model d (a ∷ xs) = rw (servable-keep model d xs)

  split_all :
      (xs out : List (Account F))
      → ((out ≡ []) × (or_all xs out ≡ xs)) ⊎ ((out ≢ []) × (or_all xs out ≡ out))
  split_all xs [] = inl (refl, refl)
  split_all xs (a ∷ out) = inr ((λ e. cc), refl)

  -- The servable filter keeps the seats that can serve the request in their order, and all seats
  -- where none can, so that it never empties a pool.
  filter_servable_accounts_lem :
      (xs : List (Account F)) (body : Body F) (d : Text)
      → ((keep (can_serve (peek_model body) d) xs ≡ []) × (filter_servable_accounts xs body d ≡ xs))
        ⊎ ((keep (can_serve (peek_model body) d) xs ≢ [])
            × (filter_servable_accounts xs body d ≡ keep (can_serve (peek_model body) d) xs))
  unfolding filter_servable_accounts
  filter_servable_accounts_lem xs body d = rw (servable-keep (peek_model body) d xs) (split_all _ _)
