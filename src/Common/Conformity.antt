-- ===== src/Common/Conformity.antt =====
-- packages/common/src/common/conformity.py: what a setpoint message must look like. `none` is an
-- exception of the check itself: the payload is no mapping, or its asset class cannot be a key.
-- `show` is `str` on values that are not texts. An object's fields have different names, since the
-- JSON reader keeps the last of equal ones. The texts of the errors keep only what they name.
mod Tests
use edge_ems.Prelude.{
  str_append, Bool, true, false, not, Option, none, some, List, [], ◌∷◌, ◌++◌, String, str_eq,
  is_some, is_empty, keep, map, if◌then◌else◌,
}
use edge_ems.Prelude.Int.{pos, ltb_ℤ}
use edge_ems.Float.{Float}
use edge_ems.Common.Json.{
  Json, null, bool, int, num, text, arr, obj, Fields, end, field, get, field_names, no_fields,
  as_int, is_numeric, is_hashable,
}
use edge_ems.Common.DataModel.{DataModel, FieldError, unknown_class, validate_fields}

pub data PayloadError : Type 0 where
  missing_keys : List String → PayloadError
  version_mismatch : String → PayloadError
  bad_seq : PayloadError
  bad_setpoints : PayloadError
  bad_field : FieldError → PayloadError
  not_numeric : String → PayloadError

-- in the order of `sorted`
abbrev required_payload_keys : List String
required_payload_keys =
    "asset_class" ∷ "data_model_version" ∷ "seq" ∷ "setpoints" ∷ "site_id" ∷ "ts" ∷ []

unfoldable pub setpoint_topic : String → String → String
setpoint_topic site_id asset_class =
    str_append (str_append (str_append "site/" site_id) "/setpoints/") asset_class

module _ {F : Type 0} (show : Json F → String) where
  -- `str(v)`
  abbrev pub to_str : Json F → String
  to_str (text t) = t
  to_str v = show v

  -- `dm.validate_fields(asset_class, fields, direction="output")` on whatever the message has
  abbrev pub field_errors : DataModel → Json F → List String → Option (List FieldError)
  field_errors dm (text asset_class) fields =
      some (validate_fields dm asset_class fields (some "output"))
  field_errors dm v fields = if is_hashable v then some (unknown_class (show v) ∷ []) else none

module _ {F : Type 0} where
  abbrev pub type_errors : Fields F → List PayloadError
  type_errors end = []
  type_errors (field k v fs) =
      let rest = type_errors fs in if is_numeric v then rest else not_numeric k ∷ rest

  abbrev pub seq_errors : Json F → List PayloadError
  seq_errors v = elim (as_int v) [
    | none ↦ bad_seq ∷ []
    | some z ↦ if ltb_ℤ z (pos 0) then bad_seq ∷ [] else []
  ]

module _ {F : Type 0} (show : Json F → String) (dm : DataModel) where
  abbrev pub version_errors : Json F → List PayloadError
  version_errors v =
      if str_eq (to_str show v) dm.version then [] else version_mismatch (to_str show v) ∷ []

  abbrev pub setpoint_errors : Json F → Json F → List PayloadError → Option (List PayloadError)
  setpoint_errors asset_class (obj setpoints) errors =
      if no_fields setpoints
      then some (errors ++ (bad_setpoints ∷ []))
      else elim (field_errors show dm asset_class (field_names setpoints)) [
        | none ↦ none
        | some es ↦ some (errors ++ (map bad_field es ++ type_errors setpoints))
      ]
  setpoint_errors asset_class _ errors = some (errors ++ (bad_setpoints ∷ []))

  -- the values of the required keys that the checks read
  abbrev pub value_errors :
      Option (Json F)
      → Option (Json F)
      → Option (Json F)
      → Option (Json F)
      → Option (List PayloadError)
  value_errors (some version) (some seq) (some asset_class) (some setpoints) =
      setpoint_errors asset_class setpoints (version_errors version ++ seq_errors seq)
  value_errors _ _ _ _ = none

  unfoldable pub validate_setpoint_payload : Json F → Option (List PayloadError)
  validate_setpoint_payload (obj fs) =
      let missing = keep (λ k. not (is_some (get k fs))) required_payload_keys in
      if is_empty missing
      then value_errors (get "data_model_version" fs) (get "seq" fs) (get "asset_class" fs)
          (get "setpoints" fs)
      else some (missing_keys missing ∷ [])
  validate_setpoint_payload _ = none

pub data InfluxError : Type 0 where
  is_aggregate : InfluxError
  bad_name : FieldError → InfluxError

unfoldable pub validate_influx_fields : String → List String → DataModel → List InfluxError
validate_influx_fields measurement fields dm =
    if str_eq measurement "aggregate"
    then is_aggregate ∷ []
    else if str_eq measurement "control"
    then []
    else map bad_name (validate_fields dm measurement fields (some "input"))
