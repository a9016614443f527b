-- ===== src/Catalog/Codex.antt =====
-- internal/modelcatalog/catalog.go: what `parseCodexModelsJSON` makes of the decoded rows.
use openllms.Prelude.{
  has, distinct, List, [], ◌∷◌, map, Bool, true, false, ◌≡◌, refl, ◌∙◌, inl, inr, ◌||◌, ◌&&◌, not,
  Text, text_eq, text_eq_refl, eq-text_eq, arith, Bool-cases,
}
use openllms.Oauth.{ok}
use openllms.Catalog.{Model}
use openllms.Catalog.Parse.{
  CodexRow, Cand, candidates, supported_models, any_supported_flag, codex_models, or_all_models,
  or_empty_error,
}

unfoldable pub model_id : Model → Text
model_id m = m.id

-- A candidate that the first loop may list.
unfoldable pub listable : Bool → Cand → Bool
listable any_flag c = not any_flag || c.supported_in_api

-- Whether some candidate that may be listed has the id.
unfoldable pub listable_id : Bool → Text → List Cand → Bool
listable_id any_flag id [] = false
listable_id any_flag id (c ∷ cs) =
    listable any_flag c && text_eq c.id id || listable_id any_flag id cs

-- The first loop lists an id where a candidate that it may list has it, unless it was seen before.
has-supported_models :
    (flag : Bool) (seen : List Text) (cs : List Cand) (id : Text)
    → has id (map model_id (supported_models flag seen cs))
      ≡ listable_id flag id cs && not (has id seen)
unfolding has model_id supported_models listable_id listable
has-supported_models flag seen [] id = refl
has-supported_models flag seen (c ∷ cs) id =
    let ih = has-supported_models flag seen cs id in
    let ih' = has-supported_models flag (c.id ∷ seen) cs id in
    elim (Bool-cases (flag && not c.supported_in_api)) [
      | inl e ↦ rw e (ground (arith, ih))
      | inr e ↦ elim (Bool-cases (has c.id seen)) [
        | inl h ↦ elim (Bool-cases (text_eq c.id id)) [
          | inl t ↦
              let h' : has id seen ≡ true = rw (eq-text_eq c.id id t) at (h) in
              rw (e, h) (ground (arith, ih, h'))
          | inr t ↦ rw (e, h) (ground (arith, ih))
        ]
        | inr h ↦ elim (Bool-cases (text_eq c.id id)) [
          | inl t ↦
              let h' : has id seen ≡ false = rw (eq-text_eq c.id id t) at (h) in
              rw (e, h) (ground (arith, h'))
          | inr t ↦ rw (e, h) (ground (arith, ih'))
        ]
      ]
    ]

has-seen : (id : Text) (seen : List Text) → has id (id ∷ seen) ≡ true
unfolding has
has-seen id seen = rw (text_eq_refl id) refl

distinct-supported_models :
    (flag : Bool) (seen : List Text) (cs : List Cand)
    → distinct (map model_id (supported_models flag seen cs)) ≡ true
unfolding distinct model_id supported_models
distinct-supported_models flag seen [] = refl
distinct-supported_models flag seen (c ∷ cs) =
    let ih = distinct-supported_models flag seen cs in
    let ih' = distinct-supported_models flag (c.id ∷ seen) cs in
    let once = has-supported_models flag (c.id ∷ seen) cs c.id in
    elim (Bool-cases (flag && not c.supported_in_api)) [
      | inl e ↦ rw e ih
      | inr e ↦ elim (Bool-cases (has c.id seen)) [
        | inl h ↦ rw (e, h) ih
        | inr h ↦ rw (e, h) (rw (once, ih', has-seen c.id seen) (ground arith))
      ]
    ]

abbrev is_nil : List Model → Bool
is_nil [] = true
is_nil (_ ∷ _) = false

unfoldable pub any_listable : Bool → List Cand → Bool
any_listable any_flag [] = false
any_listable any_flag (c ∷ cs) = listable any_flag c || any_listable any_flag cs

unseen_by_none : (id : Text) (b : Bool) → b && not (has id []) ≡ b
unfolding has
unseen_by_none id b = ground arith

nil-supported_models :
    (flag : Bool) (cs : List Cand)
    → is_nil (supported_models flag [] cs) ≡ not (any_listable flag cs)
unfolding supported_models any_listable listable has
nil-supported_models flag [] = refl
nil-supported_models flag (c ∷ cs) = ground (arith, nil-supported_models flag cs)

any_listable-false : (c : Cand) (cs : List Cand) → any_listable false (c ∷ cs) ≡ true
unfolding any_listable listable
any_listable-false c cs = refl

or_empty-ok : (ms : List Model) → is_nil ms ≡ false → or_empty_error ms ≡ ok ms
or_empty-ok [] h = ground arith
or_empty-ok (m ∷ ms) h = refl

or_all-ok : (cs : List Cand) (ms : List Model) → is_nil ms ≡ false → or_all_models cs ms ≡ ok ms
or_all-ok cs [] h = ground arith
or_all-ok cs (m ∷ ms) h = refl

or_all-nil :
    (cs : List Cand) (ms : List Model)
    → is_nil ms ≡ true
    → is_nil (supported_models false [] cs) ≡ false
    → or_all_models cs ms ≡ ok (supported_models false [] cs)
or_all-nil cs (m ∷ ms) h k = ground arith
or_all-nil cs [] h k = or_empty-ok (supported_models false [] cs) k

-- The flags count where some candidate is supported.
unfoldable pub strict : List CodexRow → Bool
strict rows = any_supported_flag rows && any_listable true (candidates rows)

or_all-strict :
    (flag : Bool) (c : Cand) (cs : List Cand)
    → or_all_models (c ∷ cs) (supported_models flag [] (c ∷ cs))
      ≡ ok (supported_models (flag && any_listable true (c ∷ cs)) [] (c ∷ cs))
or_all-strict false c cs =
    let n = nil-supported_models false (c ∷ cs) in
    let some_one = any_listable-false c cs in
    or_all-ok (c ∷ cs) (supported_models false [] (c ∷ cs)) (rw n (rw some_one refl))
or_all-strict true c cs =
    let n = nil-supported_models true (c ∷ cs) in
    let m = nil-supported_models false (c ∷ cs) in
    elim (Bool-cases (any_listable true (c ∷ cs))) [
      | inl h ↦ rw h (or_all-ok (c ∷ cs) (supported_models true [] (c ∷ cs)) (rw n (rw h refl)))
      | inr h ↦ rw h (
          or_all-nil (c ∷ cs) (supported_models true [] (c ∷ cs)) (rw n (rw h refl))
            (rw m (rw (any_listable-false c cs) refl)))
    ]

-- Where the loop keeps a row of the Codex backend, the answer is a list in which no id occurs
-- twice and which names an id exactly where a kept row has it that the catalog may list, the
-- supported ones where some row is flagged and one is supported, and all of them else.
pub codex_models-listable_id :
    (rows : List CodexRow) (c : Cand) (cs : List Cand)
    → candidates rows ≡ c ∷ cs
    → (ms : List Model) × (codex_models rows ≡ ok ms)
      × (distinct (map model_id ms) ≡ true)
      × ((id : Text) → has id (map model_id ms) ≡ listable_id (strict rows) id (c ∷ cs))
unfolding codex_models strict
codex_models-listable_id rows c cs e =
    let flag = any_supported_flag rows && any_listable true (c ∷ cs) in
    let flag_is : any_supported_flag rows && any_listable true (candidates rows) ≡ flag =
      rw e refl in
    (
      supported_models flag [] (c ∷ cs),
      rw e (or_all-strict (any_supported_flag rows) c cs),
      distinct-supported_models flag [] (c ∷ cs),
      λ id. rw flag_is (
          has-supported_models flag [] (c ∷ cs) id
          ∙ unseen_by_none id (listable_id flag id (c ∷ cs))),
    )
