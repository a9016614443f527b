-- ===== src/Router/Presets/Laws.antt =====
-- The presets of internal/router/router.go, there and back.
use openllms.Prelude.{Text, lit, text_eq, ◌≡◌, refl, Bool-cases, inl, inr, ◌||◌}
use openllms.Number.{Float}
use openllms.Config.{Fields, get, get_str}
use openllms.Router.Presets.{apply_preset, preset_of_strategy, preset_from_route, Strategy}

module _ (fl : Float) where
  open fl use {F}

  -- What is read back from a stored preset gives its strategy again.
  Returns : Strategy × Fields F → Type 0
  Returns p = (apply_preset fl (preset_from_route fl p.0 p.1)).0 ≡ p.0

  leaf :
      (s : Strategy) (cfg : Fields F)
      → (apply_preset fl (preset_from_route fl s cfg)).0 ≡ s
      → Returns (s, cfg)
  unfolding Returns
  leaf s cfg e = e

  every_preset : (name : Text) → Returns (apply_preset fl name)
  unfolding apply_preset preset_from_route preset_of_strategy text_eq get get_str
  every_preset name = elim (Bool-cases (text_eq name (lit "failover"))) [
    | inl e ↦ rw (e, apply_preset) (leaf _ _ refl)
    | inr n1 ↦ elim (Bool-cases (text_eq name (lit "fill-first"))) [
      | inl e ↦ rw (n1, e, apply_preset) (leaf _ _ refl)
      | inr n2 ↦ elim (Bool-cases (text_eq name (lit "balance"))) [
        | inl e ↦ rw (n1, n2, e, apply_preset) (leaf _ _ refl)
        | inr n3 ↦ elim (Bool-cases (text_eq name (lit "prefer-primary"))) [
          | inl e ↦ rw (n1, n2, n3, e, apply_preset) (leaf _ _ refl)
          | inr n4 ↦
              elim (Bool-cases
                (text_eq name (lit "quota-first") || text_eq name (lit "quota_aware"))) [
                  | inl e ↦ rw (n1, n2, n3, n4, e, apply_preset) (leaf _ _ refl)
                  | inr n5 ↦ elim (Bool-cases (text_eq name (lit "reset-soon"))) [
                    | inl e ↦ rw (n1, n2, n3, n4, n5, e, apply_preset) (leaf _ _ refl)
                    | inr n6 ↦ elim (Bool-cases (text_eq name (lit "steward"))) [
                      | inl e ↦ rw (n1, n2, n3, n4, n5, n6, e, apply_preset) (leaf _ _ refl)
                      | inr n7 ↦
                          elim (Bool-cases
                            (text_eq name (lit "parallel") || text_eq name (lit "race"))) [
                              | inl e ↦
                                  rw (n1, n2, n3, n4, n5, n6, n7, e, apply_preset) (leaf _ _ refl)
                              | inr n8 ↦
                                  rw (n1, n2, n3, n4, n5, n6, n7, n8, apply_preset) (leaf _ _ refl)
                            ]
                    ]
                  ]
                ]
        ]
      ]
    ]
  ]

  -- A preset that is stored as strategy and config, read back from the route and applied again
  -- gives the same strategy, for every preset name, known or not.
  pub apply_preset_returns :
      (name : Text)
      → (apply_preset fl (preset_from_route fl (apply_preset fl name).0 (apply_preset fl name).1)).0
        ≡ (apply_preset fl name).0
  unfolding Returns
  apply_preset_returns name = every_preset name
