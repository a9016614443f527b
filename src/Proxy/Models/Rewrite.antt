-- ===== src/Proxy/Models/Rewrite.antt =====
-- `ApplyAccountModel` of internal/proxy/account_model.go.
use openllms.Prelude.{
  some, true, false, ◌||◌, Text, lit, text_eq, is_empty, trim_space, ◌≡◌, refl, ◌⊎◌, inl, inr,
  arith, Bool-cases, eq-text_eq, text_eq_refl,
}
use openllms.Account.{Account}
use openllms.Config.{Any, Fields, end, field, get, get_str, put}
use openllms.Proxy.Models.{json, peek_model, resolve_outbound_model, applied, apply_account_model}

unchanged : (s t : Text) → (is_empty s || text_eq s t) ≡ true → (is_empty s ≡ true) ⊎ (s ≡ t)
unchanged s t h = ground (arith, eq-text_eq s t)

module _ {F : Type 0} where
  get-put : (k : Text) (v : Any F) (fs : Fields F) → get k (put k v fs) ≡ some v
  unfolding get put
  get-put k v end = ground (arith, text_eq_refl k)
  get-put k v (field j w fs) = ground (arith, get-put k v fs)

  get-put_ne :
      (k j : Text) (v : Any F) (fs : Fields F) → text_eq k j ≡ false → get j (put k v fs) ≡ get j fs
  unfolding get put
  get-put_ne k j v end h = ground arith
  get-put_ne k j v (field i w fs) h =
      ground (arith, get-put_ne k j v fs h, eq-text_eq i k, text_eq_refl k)

  get_str-put : (k t : Text) (fs : Fields F) → get_str k (put k (Any.str t) fs) ≡ t
  unfolding get_str
  get_str-put k t fs = rw (get-put k (Any.str t) fs, get_str)

  -- On an object the body sent upstream names the resolved model, or is the request itself where
  -- that names it already or where no model was resolved; every other key is kept.
  pub apply_account_model_object :
      (fs : Fields F) (acc : Account F) (route_default : Text)
      → let next = (resolve_outbound_model (get_str (lit "model") fs) (some acc) route_default).0 in
        (fs' : Fields F) × (apply_account_model (json (Any.obj fs)) (some acc) route_default
          ≡ applied (json (Any.obj fs')))
        × ((get_str (lit "model") fs' ≡ next)
            ⊎ ((fs' ≡ fs)
                × ((is_empty next ≡ true) ⊎ (next ≡ trim_space (get_str (lit "model") fs)))))
        × ((k : Text) → text_eq (lit "model") k ≡ false → get k fs' ≡ get k fs)
  unfolding apply_account_model peek_model
  apply_account_model_object fs acc d =
      let model = get_str (lit "model") fs in
      let next = (resolve_outbound_model model (some acc) d).0 in
      elim (Bool-cases (is_empty next || text_eq next (trim_space model))) [
        | inl e ↦ (fs, rw e, inr (refl, unchanged next (trim_space model) e), λ k h. refl)
        | inr e ↦ (
          put (lit "model") (Any.str next) fs,
          rw e,
          inl (get_str-put (lit "model") next fs),
          λ k h. get-put_ne (lit "model") k (Any.str next) fs h,
        )
      ]
