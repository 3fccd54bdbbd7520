-- ===== src/Common/Conformity/Tests.antt =====
-- Payloads that conform, and some that do not.
use edge_ems.Prelude.{◌≡◌, refl, false, none, some, [], ◌∷◌}
use edge_ems.Prelude.Int.{ℤ, pos, negsuc}
use edge_ems.Common.Json.{Json, null, bool, int, num, text, arr, nil, obj, end, field}
use edge_ems.Common.DataModel.{unknown_field, validate_fields}
use edge_ems.Common.DataModel.Tests.{model}
use edge_ems.Common.Conformity.{
  validate_setpoint_payload, missing_keys, bad_seq, bad_field, not_numeric,
}

abbrev message : Json ℤ → Json ℤ → Json ℤ → Json ℤ
message seq asset_class setpoints = obj (
    field "data_model_version" (text "1.0") (
      field "site_id" (text "site-1") (
        field "ts" (text "1970-01-01T00:00:01Z")
          (field "seq" seq (field "asset_class" asset_class (field "setpoints" setpoints end))))))

conforms :
    validate_setpoint_payload
      (λ _. "")
      model
      (message
        (int (pos 4))
        (text "battery")
        (obj (field "active_power_setpoint_kw" (num (pos 5)) end)))
    ≡ some []
unfolding validate_setpoint_payload validate_fields
conforms = refl

-- an input point, a bool and a negative number
three_errors :
    validate_setpoint_payload
      (λ _. "")
      model
      (message (int (negsuc 0)) (text "battery") (obj (field "active_power_kw" (bool false) end)))
    ≡ some (
        bad_seq
        ∷ bad_field (unknown_field "battery" "active_power_kw")
        ∷ not_numeric "active_power_kw"
        ∷ [])
unfolding validate_setpoint_payload validate_fields
three_errors = refl

no_keys :
    validate_setpoint_payload {F = ℤ} (λ _. "") model (obj (field "seq" (int (pos 1)) end))
    ≡ some (
        missing_keys ("asset_class" ∷ "data_model_version" ∷ "setpoints" ∷ "site_id" ∷ "ts" ∷ [])
        ∷ [])
unfolding validate_setpoint_payload
no_keys = refl

-- An asset class that is a list, and a payload that is null, raise.
raises :
    (validate_setpoint_payload
        (λ _. "")
        model
        (message (int (pos 4)) (arr nil) (obj (field "active_power_setpoint_kw" (num (pos 5)) end)))
      ≡ none)
    × (validate_setpoint_payload {F = ℤ} (λ _. "") model null ≡ none)
unfolding validate_setpoint_payload
raises = (refl, refl)
