-- ===== src/Router/Presets.antt =====
-- internal/router/router.go: strategies, presets and the weight of an attached account.
pub mod Laws
use openllms.Prelude.{
  ℕ, Text, lit, text_eq, is_empty, Option, none, some, Bool, true, false, if◌then◌else◌, ◌||◌, ◌==◌,
  not,
}
use openllms.Prelude.Int.{ℤ, pos}
use openllms.Number.{Float}
use openllms.Config.{Any, Fields, end, field, get_str, config_int}

abbrev pub Strategy : Type 0
Strategy = Text

abbrev pub sequential : Strategy
sequential = lit "sequential"

abbrev pub round_robin : Strategy
round_robin = lit "round_robin"

abbrev pub weighted : Strategy
weighted = lit "weighted"

abbrev pub quota_aware : Strategy
quota_aware = lit "quota_aware"

abbrev pub reset_soon : Strategy
reset_soon = lit "reset_soon"

abbrev pub steward : Strategy
steward = lit "steward"

abbrev pub parallel : Strategy
parallel = lit "parallel"

module _ (fl : Float) where
  open fl use {F, ratio}

  abbrev only_preset : Text → Fields F
  only_preset name = field (lit "preset") (Any.str name) end

  -- `ApplyPreset`.
  unfoldable pub apply_preset : Text → Strategy × Fields F
  apply_preset name =
      if text_eq name (lit "failover")
      then (sequential, only_preset (lit "failover"))
      else if text_eq name (lit "fill-first")
      then (sequential, only_preset (lit "fill-first"))
      else if text_eq name (lit "balance")
      then (round_robin, only_preset (lit "balance"))
      else if text_eq name (lit "prefer-primary")
      then (
        weighted,
        field (lit "preset") (Any.str (lit "prefer-primary")) (
            field (lit "primary_weight") (Any.int (pos 80))
              (field (lit "secondary_weight") (Any.int (pos 20)) end)),
      )
      else if text_eq name (lit "quota-first") || text_eq name (lit "quota_aware")
      then (quota_aware, only_preset (lit "quota-first"))
      else if text_eq name (lit "reset-soon")
      then (
        reset_soon,
        field (lit "preset") (Any.str (lit "reset-soon")) (
            field (lit "window") (Any.str (lit "7d"))
              (field (lit "min_remaining_pct") (Any.int (pos 1)) end)),
      )
      else if text_eq name (lit "steward")
      then (
        steward,
        field (lit "preset") (Any.str (lit "steward")) (
            field (lit "window") (Any.str (lit "7d")) (
              field (lit "w_remaining") (Any.float (ratio 3 10)) (
                field (lit "w_urgency") (Any.float (ratio 6 10)) (
                  field (lit "w_soft_fail") (Any.float (ratio 1 10))
                    (field (lit "prefer_oauth") (Any.bool true) end))))),
      )
      else if text_eq name (lit "parallel") || text_eq name (lit "race")
      then (parallel, only_preset (lit "parallel"))
      else (sequential, end)

  -- The `switch` of `PresetFromRoute`.
  unfoldable pub preset_of_strategy : Strategy → Text
  preset_of_strategy s =
      if text_eq s round_robin
      then lit "balance"
      else if text_eq s weighted
      then lit "prefer-primary"
      else if text_eq s quota_aware
      then lit "quota-first"
      else if text_eq s reset_soon
      then lit "reset-soon"
      else if text_eq s steward
      then lit "steward"
      else if text_eq s parallel
      then lit "parallel"
      else lit "failover"

  -- `PresetFromRoute`, over the decoded config.
  unfoldable pub preset_from_route : Strategy → Fields F → Text
  unfolding get_str preset_of_strategy is_empty
  preset_from_route s cfg =
      let p = get_str (lit "preset") cfg in if is_empty p then preset_of_strategy s else p

  -- `AttachWeightFromConfig`; `none` is the nil map.
  unfoldable pub attach_weight : Option (Fields F) → ℕ → ℤ
  unfolding get_str config_int
  attach_weight none position = pos 1
  attach_weight (some cfg) position =
      if text_eq (get_str (lit "preset") cfg) (lit "prefer-primary")
      then (if position == 0
          then config_int fl cfg (lit "primary_weight") (pos 80)
          else config_int fl cfg (lit "secondary_weight") (pos 20))
      else pos 1
