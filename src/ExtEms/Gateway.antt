-- ===== src/ExtEms/Gateway.antt =====
-- deploy/ext-ems/ext_ems/gateway.py. The clock is an argument, and so is what `forward` answers; a
-- tick gives back the value forwarded, if it called `forward`, and the telemetry that it wrote.
pub mod Freshness
pub mod Forwarding
pub mod Tests
use edge_ems.Prelude.{
  Bool, true, false, not, ◌&&◌, ℕ, suc, Option, none, some, if◌then◌else◌, or_else,
}
use edge_ems.Float.{Float, ◌-◌, ltb, eqb, neg}

pub data State : Type 0 where
  following_external self_consumption : State

pub data Transition : Type 0 where
  takeover release : Transition

abbrev pub state_eq : State → State → Bool
state_eq following_external following_external = true
state_eq self_consumption self_consumption = true
state_eq _ _ = false

pub record TickResult (F : Type 0) : Type 0 where
  pub state : State
  pub effective_setpoint_kw : F
  pub active_source : ℕ
  pub changed : Bool
  pub transition : Option Transition
  pub last_external_age_s : Option F

pub record Watchdog (F : Type 0) : Type 0 where
  pub timeout_s : F
  pub self_consumption_kw : F
  pub last_external_kw : Option F
  pub last_external_ts : Option F
  pub state : State
  pub takeover_count : ℕ

module _ {F : Type 0} where
  unfoldable pub new : F → F → Watchdog F
  new timeout_s self_consumption_kw = record {
    timeout_s = timeout_s;
    self_consumption_kw = self_consumption_kw;
    last_external_kw = none;
    last_external_ts = none;
    state = self_consumption;
    takeover_count = 0;
  }

  unfoldable pub on_external : Watchdog F → F → F → Watchdog F
  on_external w kw now = record w { last_external_kw = some kw; last_external_ts = some now }

module _ {F : Type 0} ⦃d : Float F⦄ where
  unfoldable pub last_external_age_s : Watchdog F → F → Option F
  last_external_age_s w now = elim w.last_external_ts [ none ↦ none | some ts ↦ some (now - ts) ]

  unfoldable pub is_fresh : Watchdog F → F → Bool
  unfolding last_external_age_s
  is_fresh w now = elim (last_external_age_s w now) [
    | none ↦ false
    | some age ↦ ltb age w.timeout_s
  ]

  unfoldable pub effective_setpoint_kw : Watchdog F → F → F
  effective_setpoint_kw w now =
      if is_fresh w now
      then or_else w.last_external_kw w.self_consumption_kw
      else w.self_consumption_kw

  unfoldable pub tick : Watchdog F → F → Watchdog F × TickResult F
  tick w now =
      let state = if is_fresh w now then following_external else self_consumption in
      let changed = not (state_eq state w.state) in
      let taken = changed && state_eq state self_consumption in
      let w' : Watchdog F = record w {
        state = state;
        takeover_count = if taken then suc w.takeover_count else w.takeover_count;
      } in
      (
        w',
        record {
          state = state;
          effective_setpoint_kw = effective_setpoint_kw w' now;
          active_source = if state_eq state following_external then 1 else 0;
          changed = changed;
          transition = if changed then some (if taken then takeover else release) else none;
          last_external_age_s = last_external_age_s w' now;
        },
      )

-- the fields of `write_state`
pub record Telemetry (F : Type 0) : Type 0 where
  pub active_source : ℕ
  pub pcc_setpoint_kw : F
  pub last_external_age_s : F

pub record Gateway (F : Type 0) : Type 0 where
  pub wd : Watchdog F
  pub has_writer : Bool
  pub last_forwarded : Option F

-- What a tick of the gateway did.
pub record Effects (F : Type 0) : Type 0 where
  pub result : TickResult F
  pub forwarded : Option F
  pub written : Option (Telemetry F)

module _ {F : Type 0} ⦃d : Float F⦄ where
  unfoldable pub handle_external : Gateway F → F → F → Gateway F
  handle_external g kw now = record g { wd = on_external g.wd kw now }

  -- whether `forward` is called
  abbrev pub must_forward : Option F → F → Bool
  must_forward none sp = true
  must_forward (some last) sp = not (eqb sp last)

  unfoldable pub gateway_tick : (F → Bool) → Gateway F → F → Gateway F × Effects F
  gateway_tick forward g now =
      let (wd, res) = tick g.wd now in
      let sp = res.effective_setpoint_kw in
      let calls = must_forward g.last_forwarded sp in
      (
        record g {
          wd = wd;
          last_forwarded = if calls && forward sp then some sp else g.last_forwarded;
        },
        record {
          result = res;
          forwarded = if calls then some sp else none;
          written =
              if g.has_writer
              then some (record {
                active_source = res.active_source;
                pcc_setpoint_kw = sp;
                last_external_age_s = or_else res.last_external_age_s (neg d.one);
              })
              else none;
        },
      )

-- `status`
pub record Status (F : Type 0) : Type 0 where
  pub state : State
  pub age_s : Option F
  pub watchdog_timeout_s : F
  pub last_pcc_setpoint_kw : F
  pub takeover_count : ℕ

module _ {F : Type 0} ⦃d : Float F⦄ where
  unfoldable pub status : Gateway F → F → Status F
  status g now = record {
    state = g.wd.state;
    age_s = last_external_age_s g.wd now;
    watchdog_timeout_s = g.wd.timeout_s;
    last_pcc_setpoint_kw = effective_setpoint_kw g.wd now;
    takeover_count = g.wd.takeover_count;
  }
