-- ===== src/Core/Dispatcher/Tests.antt =====
-- The dispatcher at concrete messages, in thousandths of a kilowatt and of a second.
use edge_ems.Prelude.{◌≡◌, refl, true, false, none, some, List, [], ◌∷◌, Option, String}
use edge_ems.Prelude.Int.{ℤ, pos, negsuc}
use edge_ems.Prelude.Dict.{Dict, keys}
use edge_ems.Float.{leb, ◌≼◌}
use edge_ems.Float.Milli.{milli, milli-IsOrdered}
use edge_ems.Common.Json.{Json, int, num, text, obj, end, field}
use edge_ems.Common.DataModel.{validate_fields}
use edge_ems.Common.DataModel.Tests.{model}
use edge_ems.Common.Conformity.{validate_setpoint_payload}
use edge_ems.Core.Adapter.{Devices, wrote}
use edge_ems.Core.Dispatcher.{
  UnitLimits, Dispatcher, Message, split_over, share_battery_power, guard, passed, dispatch, plan,
  write_units, report, rejection, stale_seq,
}
use edge_ems.Core.Dispatcher.Sharing.{IsSplit, share_battery_power-IsSplit}
use edge_ems.Core.Dispatcher.Replay.{after, dispatch-once}

abbrev pub limits : Dict (UnitLimits ℤ)
limits =
    ("bess-01", record { charge_kw = pos 30000; discharge_kw = pos 30000 })
    ∷ ("bess-02", record { charge_kw = pos 10000; discharge_kw = pos 10000 })
    ∷ []

-- 20 kW over units of 30 kW and 10 kW
shared :
    share_battery_power (pos 20000) limits
    ≡ (("bess-01", pos 15000) ∷ ("bess-02", pos 5000) ∷ [], pos 0)
unfolding share_battery_power split_over
shared = refl

saturated :
    share_battery_power (negsuc 49999) limits
    ≡ (("bess-01", negsuc 29999) ∷ ("bess-02", negsuc 9999) ∷ [], negsuc 9999)
unfolding share_battery_power split_over
saturated = refl

share_battery_power-IsSplit_example :
    let split = share_battery_power (negsuc 49999) limits in
    (keys split.0 ≡ keys limits)
    × (leb (pos 0) (negsuc 49999) ≡ true → IsSplit (λ x. pos 0 ≼ x) split)
    × (leb (pos 0) (negsuc 49999) ≡ false → IsSplit (λ x. x ≼ pos 0) split)
share_battery_power-IsSplit_example =
    share_battery_power-IsSplit milli-IsOrdered (negsuc 49999) limits

abbrev pub dispatcher : Dispatcher ℤ
dispatcher = record {
  dm = model;
  site_id = "site-1";
  classes = ("bess-01", "battery") ∷ ("bess-02", "battery") ∷ ("pv-01", "pv") ∷ [];
  max_age_s = pos 2000;
  last_seq = ("battery", pos 3) ∷ [];
}

abbrev pub numbered : ℤ → Json ℤ
numbered seq = obj (
    field "data_model_version" (text "1.0") (
      field "site_id" (text "site-1") (
        field "ts" (text "1970-01-01T00:00:01Z") (
          field "seq" (int seq) (
            field "asset_class" (text "battery") (
              field "setpoints" (obj (field "active_power_setpoint_kw" (num (pos 20000)) end))
                end))))))

abbrev pub show : Json ℤ → String
show _ = ""

abbrev pub parse_ts : String → Option ℤ
parse_ts _ = some (pos 1000)

abbrev pub devices : Devices ℤ
devices _ _ = wrote (record { ok = true; errors = [] })

abbrev pub message : Message ℤ
message = record {
  site = text "site-1";
  ts = text "1970-01-01T00:00:01Z";
  seq = pos 4;
  asset_class = "battery";
  setpoints = field "active_power_setpoint_kw" (num (pos 20000)) end;
}

pub passes : guard show parse_ts dispatcher (numbered (pos 4)) (pos 1500) ≡ passed message
unfolding guard validate_setpoint_payload validate_fields
passes = refl

writes_both :
    (dispatch show parse_ts devices dispatcher (numbered (pos 4)) (some limits) (pos 1500)).1
    ≡ report (record {
      accepted = true;
      reason = none;
      written =
          ("bess-01", record { ok = true; errors = [] })
          ∷ ("bess-02", record { ok = true; errors = [] })
          ∷ [];
      leftover_kw = pos 0;
    })
unfolding dispatch guard validate_setpoint_payload validate_fields plan share_battery_power
    split_over write_units
writes_both = refl

abbrev others : List (Json ℤ × Option (Dict (UnitLimits ℤ)) × ℤ)
others = (numbered (pos 7), none, pos 1800) ∷ (numbered (pos 5), some limits, pos 1700) ∷ []

dispatch-once_example :
    let s' =
      after show parse_ts devices
        (dispatch show parse_ts devices dispatcher (numbered (pos 4)) (some limits) (pos 1500)).0
        others in
    dispatch show parse_ts devices s' (numbered (pos 4)) none (pos 1900)
    ≡ (s', report (rejection stale_seq))
dispatch-once_example =
    dispatch-once show parse_ts devices dispatcher (numbered (pos 4)) (some limits) (pos 1500)
      message passes others none (pos 1900)
