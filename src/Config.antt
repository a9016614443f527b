-- ===== src/Config.antt =====
-- Decoded JSON, as encoding/json hands it to the program: a value of type `any`, and the map of an
-- object. A route's config is the map that `json.Unmarshal(configJSON, &cfg)` fills.
-- Numbers decode to float64; `int`, `int64` and `number` (json.Number, by what its Int64 and Float64
-- return) are the other cases that the program's type switches name.
use openllms.Prelude.{Bool, Option, none, some, List, [], ◌∷◌, Text, text_eq, if◌then◌else◌}
use openllms.Prelude.Int.{ℤ, pos, ltb_ℤ}
use openllms.Number.{Float}

mutual
  pub data Any (F : Type 0) : Type 0 where
    null : Any F
    bool : Bool → Any F
    float : F → Any F
    int : ℤ → Any F
    int64 : ℤ → Any F
    number : Option ℤ → Option F → Any F
    str : Text → Any F
    arr : Items F → Any F
    obj : Fields F → Any F

  pub data Items (F : Type 0) : Type 0 where
    nil : Items F
    cons : Any F → Items F → Items F

  -- A map[string]any; its keys are distinct.
  pub data Fields (F : Type 0) : Type 0 where
    end : Fields F
    field : Text → Any F → Fields F → Fields F

module _ {F : Type 0} where
  unfoldable pub get : Text → Fields F → Option (Any F)
  get k end = none
  get k (field j v fs) = let rest = get k fs in if text_eq j k then some v else rest

  -- `m[k] = v`.
  unfoldable pub put : Text → Any F → Fields F → Fields F
  put k v end = field k v end
  put k v (field j w fs) =
      let rest = put k v fs in if text_eq j k then field j v fs else field j w rest

  -- `s, _ := v.(string)`: the empty text where `v` is no string.
  abbrev pub as_str : Any F → Text
  as_str (str s) = s
  as_str _ = []

  -- `b, ok := v.(bool)`.
  abbrev pub as_bool : Any F → Option Bool
  as_bool (bool b) = some b
  as_bool _ = none

  -- `s, _ := cfg[key].(string)`.
  unfoldable pub get_str : Text → Fields F → Text
  unfolding get
  get_str k fs = elim (get k fs) [ none ↦ [] | some v ↦ as_str v ]

  -- `if b, ok := cfg[key].(bool); ok`.
  unfoldable pub get_bool : Text → Fields F → Option Bool
  unfolding get
  get_bool k fs = elim (get k fs) [ none ↦ none | some v ↦ as_bool v ]

  -- `v, ok := x.(map[string]any)` and `v, _ := x.([]any)`, of a value that may be missing.
  abbrev pub as_obj : Option (Any F) → Option (Fields F)
  as_obj (some (obj fs)) = some fs
  as_obj _ = none

  abbrev pub as_items : Option (Any F) → Items F
  as_items (some (arr items)) = items
  as_items _ = nil

  -- The elements of a JSON list that are objects, `m, ok := item.(map[string]any)`.
  unfoldable pub objects : Items F → List (Fields F)
  objects nil = []
  objects (cons (obj fs) items) = fs ∷ objects items
  objects (cons _ items) = objects items

  -- A map literal, a list literal.
  abbrev pub fields : List (Text × Any F) → Fields F
  fields [] = end
  fields ((k, v) ∷ rest) = field k v (fields rest)

  abbrev pub items_of : List (Any F) → Items F
  items_of [] = nil
  items_of (v ∷ vs) = cons v (items_of vs)

  -- `for k, v := range new { m[k] = v }`.
  unfoldable pub put_all : Fields F → Fields F → Fields F
  unfolding put
  put_all end m = m
  put_all (field k v fs) m = put_all fs (put k v m)

module _ (fl : Float) where
  open fl use {F, lt, ratio, of_int, to_int}

  abbrev positive_or : ℤ → ℤ → ℤ
  positive_or n fallback = if ltb_ℤ (pos 0) n then n else fallback

  int_of : Any F → ℤ → ℤ
  int_of (int n) fallback = positive_or n fallback
  int_of (int64 n) fallback = positive_or n fallback
  int_of (float x) fallback = if lt (ratio 0 1) x then to_int x else fallback
  int_of (number (some n) _) fallback = positive_or n fallback
  int_of _ fallback = fallback

  -- `configInt`.
  unfoldable pub config_int : Fields F → Text → ℤ → ℤ
  unfolding get int_of
  config_int cfg key fallback = elim (get key cfg) [ none ↦ fallback | some v ↦ int_of v fallback ]

  float_of : Any F → F → F
  float_of (float x) fallback = x
  float_of (int n) fallback = of_int n
  float_of (number _ (some x)) fallback = x
  float_of _ fallback = fallback

  -- `configFloat`.
  unfoldable pub config_float : Fields F → Text → F → F
  unfolding get float_of
  config_float cfg key fallback = elim (get key cfg) [
    | none ↦ fallback
    | some v ↦ float_of v fallback
  ]
