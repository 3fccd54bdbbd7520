-- ===== src/Common/Config/Ems.antt =====
-- packages/common/src/common/config_models.py: the runtime configuration. `none` is the error of a
-- field: a number out of its range, or a droop curve that is not monotone or has not four values.
use edge_ems.Prelude.{
  Bool, true, false, ◌&&◌, Option, none, some, List, [], ◌∷◌, ◌++◌, ℕ, String, length, ◌==◌, leb,
  is_some, if◌then◌else◌, ◌>>=◌,
}
use edge_ems.Prelude.Dict.{Dict}
use edge_ems.Float as Float
use edge_ems.Float.{Float}
use edge_ems.Common.DataModel.{DataModel, FieldError, validate_fields}
use edge_ems.Common.Config.{ConfigError, version_errors}
use edge_ems.Controller.Droop.{DroopConfig}

pub record InfluxConfig : Type 0 where
  pub url : String
  pub org : String
  pub bucket : String
  pub token : String

pub record MqttConfig : Type 0 where
  pub broker_address : String
  pub broker_port : ℕ
  pub client_id : String
  pub username : String
  pub password : String

pub record ControllerSettings (F : Type 0) : Type 0 where
  pub update_period : F
  pub kp : F
  pub ki : F
  pub timeout_period : F
  pub hold_max_s : F
  pub slew_limit_kw_s : Option F
  pub pcc_setpoint_kw : F

pub record AggregationSpec : Type 0 where
  pub measurements : List String
  pub setpoint_type : String

pub record HttpApiConfig : Type 0 where
  pub host : String
  pub port : ℕ
  pub debug : Bool

pub record LoggingConfig : Type 0 where
  pub level : String
  pub file : Option String
  pub max_file_size : Option ℕ
  pub backup_count : Option ℕ

pub record EdgeEmsConfigFile (F : Type 0) : Type 0 where
  pub data_model_version : String
  pub influxdb : InfluxConfig
  pub mqtt : MqttConfig
  pub controller : ControllerSettings F
  pub droop : DroopConfig F
  pub asset_aggregation : Dict AggregationSpec
  pub http_api : HttpApiConfig
  pub logging : LoggingConfig

pub data EmsError : Type 0 where
  config : ConfigError → EmsError
  field : FieldError → EmsError
  timeout_below_period : EmsError

-- `Field(ge=1, le=65535)`
abbrev pub is_port : ℕ → Bool
is_port n = leb 1 n && leb n 65535

abbrev pub field_errors : List FieldError → List EmsError
field_errors [] = []
field_errors (e ∷ es) = field e ∷ field_errors es

abbrev pub config_errors : List ConfigError → List EmsError
config_errors [] = []
config_errors (e ∷ es) = config e ∷ config_errors es

abbrev pub aggregation_errors : DataModel → Dict AggregationSpec → List EmsError
aggregation_errors dm [] = []
aggregation_errors dm ((cname, spec) ∷ specs) =
    field_errors (validate_fields dm cname spec.measurements (some "input"))
    ++ aggregation_errors dm specs

module _ {F : Type 0} where
  -- `any(p(a, b))` over the adjacent pairs
  abbrev pub has_pair : (F → F → Bool) → List F → Bool
  has_pair p (a ∷ b ∷ xs) = let rest = has_pair p (b ∷ xs) in if p a b then true else rest
  has_pair p _ = false

  abbrev pub check_len4 : List F → Option (List F)
  check_len4 v = if length v == 4 then some v else none

module _ {F : Type 0} ⦃d : Float F⦄ where
  abbrev pub check_nondecreasing : List F → Option (List F)
  check_nondecreasing v = if has_pair (λ a b. Float.ltb b a) v then none else some v

  abbrev pub check_strictly_increasing : List F → Option (List F)
  check_strictly_increasing v = if has_pair (λ a b. Float.leb b a) v then none else some v

  -- the validator of the values, `_dy`
  unfoldable pub check_values : List F → Option (List F)
  check_values v = do four ← check_len4 v; check_nondecreasing four

  -- the validator of the knots, `_dx`
  unfoldable pub check_knots : List F → Option (List F)
  check_knots v = do four ← check_len4 v; check_strictly_increasing four

  abbrev pub droop_is_valid : DroopConfig F → Bool
  droop_is_valid cfg =
      is_some (check_values cfg.p_f_droop.dp_f)
      && is_some (check_values cfg.p_f_droop.dq_f)
      && is_some (check_knots cfg.p_f_droop.f)
      && is_some (check_values cfg.q_v_droop.dp_v)
      && is_some (check_values cfg.q_v_droop.dq_v)
      && is_some (check_knots cfg.q_v_droop.v)

  abbrev pub slew_is_valid : Option F → Bool
  slew_is_valid none = true
  slew_is_valid (some limit) = Float.ltb d.nought limit

  abbrev pub settings_are_valid : ControllerSettings F → Bool
  settings_are_valid c =
      Float.ltb d.nought c.update_period
      && Float.ltb d.nought c.timeout_period
      && Float.leb d.nought c.hold_max_s
      && slew_is_valid c.slew_limit_kw_s

  abbrev pub fields_are_valid : EdgeEmsConfigFile F → Bool
  fields_are_valid cfg =
      is_port cfg.mqtt.broker_port
      && is_port cfg.http_api.port
      && settings_are_valid cfg.controller
      && droop_is_valid cfg.droop

  abbrev pub timeout_errors : ControllerSettings F → List EmsError
  timeout_errors c =
      if Float.ltb c.timeout_period c.update_period then timeout_below_period ∷ [] else []

  unfoldable pub validate_edge_ems_config : DataModel → EdgeEmsConfigFile F → Option (List EmsError)
  validate_edge_ems_config dm cfg =
      if fields_are_valid cfg
      then some (
          config_errors (version_errors cfg.data_model_version dm.version)
          ++ (aggregation_errors dm cfg.asset_aggregation ++ timeout_errors cfg.controller))
      else none
