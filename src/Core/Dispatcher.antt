-- ===== src/Core/Dispatcher.antt =====
-- packages/core/src/core/dispatcher.py: from a setpoint message to the writes of its devices. Time
-- is an argument, and `parse_ts` reads an ISO timestamp: `none` is the ValueError. A device that
-- raises, or an asset without an adapter, ends the dispatch with that exception. Numbers of a
-- message that are integers count as floats.
mod Shares
pub mod Sharing
pub mod Replay
pub mod Tests
use edge_ems.Prelude.{
  Bool, true, false, not, Option, none, some, List, [], ◌∷◌, String, str_eq, length, is_empty,
  or_else, is_some, if◌then◌else◌,
}
use edge_ems.Prelude.Int.{ℤ, pos, negsuc, leb_ℤ}
use edge_ems.Prelude.Dict.{Dict, lookup, insert, erase, contains}
use edge_ems.Float.{Float, ◌+◌, ◌-◌, ◌*◌, ◌/◌, neg, leb, ltb, max, abs}
use edge_ems.Common.Json.{Json, null, bool, int, num, text, arr, obj, Fields, get, as_int, numbers}
use edge_ems.Common.DataModel.{DataModel}
use edge_ems.Common.Conformity.{PayloadError, validate_setpoint_payload, to_str}
use edge_ems.Core.Adapter.{WriteResult, Answer, wrote, raised, Devices}
pub use Shares.{UnitLimits, capacities, sum_from, map_values}
unfoldable pub use Shares.{split_over, share_battery_power}

pub record Dispatcher (F : Type 0) : Type 0 where
  pub dm : DataModel
  pub site_id : String
  pub classes : Dict String
  pub max_age_s : F
  pub last_seq : Dict ℤ

pub data Reason : Type 0 where
  non_conformant : List PayloadError → Reason
  wrong_site stale_seq unparseable_ts too_old : Reason
  no_units : String → Reason

-- the values of the payload that follow its checks
pub record Message (F : Type 0) : Type 0 where
  pub site : Json F
  pub ts : Json F
  pub seq : ℤ
  pub asset_class : String
  pub setpoints : Fields F

-- how `_guard` ends: an exception, a reason, or None with the values that the dispatch reads next
pub data Guard (F : Type 0) : Type 0 where
  crashed : Guard F
  refused : Reason → Guard F
  passed : Message F → Guard F

module _ {F : Type 0} where
  abbrev pub message_of :
      Option (Json F)
      → Option (Json F)
      → Option (Json F)
      → Option (Json F)
      → Option (Json F)
      → Option (Message F)
  message_of (some site) (some ts) (some seq) (some (text asset_class)) (some (obj setpoints)) =
      elim (as_int seq) [
        | none ↦ none
        | some z ↦ some (record {
          site = site;
          ts = ts;
          seq = z;
          asset_class = asset_class;
          setpoints = setpoints;
        })
      ]
  message_of _ _ _ _ _ = none

  abbrev pub read_message : Json F → Option (Message F)
  read_message (obj fs) =
      message_of (get "site_id" fs) (get "ts" fs) (get "seq" fs) (get "asset_class" fs)
        (get "setpoints" fs)
  read_message _ = none

  abbrev pub same_site : Json F → String → Bool
  same_site (text s) site = str_eq s site
  same_site _ site = false

module _ {F : Type 0} ⦃d : Float F⦄ (show : Json F → String) (parse_ts : String → Option F) where
  -- the checks after the conformity check
  abbrev pub guard_message : Dispatcher F → Message F → F → Guard F
  guard_message s m now =
      if not (same_site m.site s.site_id)
      then refused wrong_site
      else if leb_ℤ m.seq (or_else (lookup m.asset_class s.last_seq) (negsuc 0))
      then refused stale_seq
      else elim (parse_ts (to_str show m.ts)) [
        | none ↦ refused unparseable_ts
        | some ts ↦ if ltb s.max_age_s (now - ts) then refused too_old else passed m
      ]

  unfoldable pub guard : Dispatcher F → Json F → F → Guard F
  guard s payload now = elim (validate_setpoint_payload show s.dm payload) [
    | none ↦ crashed
    | some (e ∷ errors) ↦ refused (non_conformant (e ∷ errors))
    | some [] ↦ elim (read_message payload) [ none ↦ crashed | some m ↦ guard_message s m now ]
  ]

abbrev pub units_of : String → Dict String → List String
units_of asset_class [] = []
units_of asset_class ((aid, cls) ∷ cs) =
    let rest = units_of asset_class cs in if str_eq cls asset_class then aid ∷ rest else rest

module _ {F : Type 0} where
  -- `per_unit[uid][name] = f(uid)` for each unit that `f` has a value for
  abbrev pub put_each : String → (String → Option F) → Dict (Dict F) → Dict (Dict F)
  put_each name f [] = []
  put_each name f ((uid, m) ∷ per_unit) =
      (uid, elim (f uid) [ none ↦ m | some v ↦ insert name v m ]) ∷ put_each name f per_unit

  abbrev pub broadcast : Dict F → Dict (Dict F) → Dict (Dict F)
  broadcast [] per_unit = per_unit
  broadcast ((name, value) ∷ sp) per_unit = broadcast sp (put_each name (λ _. some value) per_unit)

  abbrev pub no_values : List String → Dict (Dict F)
  no_values [] = []
  no_values (uid ∷ uids) = (uid, []) ∷ no_values uids

module _ {F : Type 0} ⦃d : Float F⦄ where
  abbrev pub limits_of : Option (Dict (UnitLimits F)) → List String → Dict (UnitLimits F)
  limits_of unit_limits [] = []
  limits_of unit_limits (uid ∷ uids) =
      (
        uid,
        or_else (lookup uid (or_else unit_limits []))
            (record { charge_kw = d.nought; discharge_kw = d.nought }),
      )
      ∷ limits_of unit_limits uids

  -- the battery's active power: the units' values, what is left of the setpoints, the leftover
  abbrev pub share_active :
      String → Option (Dict (UnitLimits F)) → List String → Dict F → Dict (Dict F) × Dict F × F
  share_active asset_class unit_limits uids sp =
      elim (if str_eq asset_class "battery" then lookup "active_power_setpoint_kw" sp else none) [
        | none ↦ (no_values uids, sp, d.nought)
        | some total ↦
            let (shares, leftover) = share_battery_power total (limits_of unit_limits uids) in
            (
              put_each "active_power_setpoint_kw" (λ uid. lookup uid shares) (no_values uids),
              erase "active_power_setpoint_kw" sp,
              leftover,
            )
      ]

  abbrev pub split_reactive : List String → Dict (Dict F) → Dict F → Dict (Dict F) × Dict F
  split_reactive uids per_unit sp = elim (lookup "reactive_power_setpoint_kvar" sp) [
    | none ↦ (per_unit, sp)
    | some kvar ↦
        let each = kvar / d.of_int (pos (length uids)) in
        (
          put_each "reactive_power_setpoint_kvar" (λ _. some each) per_unit,
          erase "reactive_power_setpoint_kvar" sp,
        )
  ]

  unfoldable pub plan :
      String → Option (Dict (UnitLimits F)) → List String → Dict F → Dict (Dict F) × F
  plan asset_class unit_limits uids sp =
      let (active, sp1, leftover) = share_active asset_class unit_limits uids sp in
      let (reactive, sp2) = split_reactive uids active sp1 in (broadcast sp2 reactive, leftover)

-- The results so far, and the exception that ended the writes.
unfoldable pub write_units :
    {F : Type 0} → Devices F → Dict WriteResult → Dict (Dict F) → Dict WriteResult × Option String
write_units devices done [] = (done, none)
write_units devices done ((uid, values) ∷ per_unit) =
    if is_empty values then write_units devices done per_unit else elim (devices uid values) [
      | wrote r ↦ write_units devices (insert uid r done) per_unit
      | raised message ↦ (done, some message)
    ]

pub record DispatchReport (F : Type 0) : Type 0 where
  pub accepted : Bool
  pub reason : Option Reason
  pub written : Dict WriteResult
  pub leftover_kw : F

-- how a dispatch ends: an exception of the guard, one of a device, or a report
pub data Dispatch (F : Type 0) : Type 0 where
  bad_payload : Dispatch F
  failed : Dict WriteResult → String → Dispatch F
  report : DispatchReport F → Dispatch F

module _ {F : Type 0} ⦃d : Float F⦄ where
  abbrev pub rejection : Reason → DispatchReport F
  rejection r = record { accepted = false; reason = some r; written = []; leftover_kw = d.nought }

  abbrev pub write_plan : Devices F → Dict (Dict F) × F → Dispatch F
  write_plan devices (per_unit, leftover) =
      let (done, error) = write_units devices [] per_unit in
      elim error [
        | some message ↦ failed done message
        | none ↦
            report
              (record { accepted = true; reason = none; written = done; leftover_kw = leftover })
      ]

  abbrev pub deliver :
      Devices F → Dispatcher F → Message F → Option (Dict (UnitLimits F)) → Dispatch F
  deliver devices s m unit_limits =
      let uids = units_of m.asset_class s.classes in
      if is_empty uids
      then report (rejection (no_units m.asset_class))
      else write_plan devices (plan m.asset_class unit_limits uids (numbers m.setpoints))

  module _ (show : Json F → String) (parse_ts : String → Option F) (devices : Devices F) where
    unfoldable pub dispatch :
        Dispatcher F → Json F → Option (Dict (UnitLimits F)) → F → Dispatcher F × Dispatch F
    dispatch s payload unit_limits now = elim (guard show parse_ts s payload now) [
      | crashed ↦ (s, bad_payload)
      | refused reason ↦ (s, report (rejection reason))
      | passed m ↦ (
        record s { last_seq = insert m.asset_class m.seq s.last_seq },
        deliver devices s m unit_limits,
      )
    ]
