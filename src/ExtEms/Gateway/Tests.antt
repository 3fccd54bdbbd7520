-- ===== src/ExtEms/Gateway/Tests.antt =====
-- The gateway at concrete histories, in thousandths.
use edge_ems.Prelude.{◌≡◌, refl, ◌↔◌, true, false, none, some, List, [], ◌∷◌, if◌then◌else◌}
use edge_ems.Prelude.Int.{ℤ, pos, negsuc}
use edge_ems.Float.{ltb, ◌-◌}
use edge_ems.Float.Milli.{milli, milli-IsOrdered}
use edge_ems.ExtEms.Gateway.{
  Gateway, new, on_external, tick, is_fresh, effective_setpoint_kw, following_external,
  gateway_tick,
}
use edge_ems.ExtEms.Gateway.Freshness.{
  Call, arrived, ticked, newest, is_young, takeovers, after, tick-follows,
}
use edge_ems.ExtEms.Gateway.Forwarding.{IsAt, receive, gateway_tick-forwards}

-- An external setpoint of -40 kW at 1 s, seen at 2 s and gone silent at 8 s.
abbrev outage : List (Call ℤ)
outage = ticked (pos 8000) ∷ ticked (pos 2000) ∷ arrived (negsuc 39999) (pos 1000) ∷ []

one_takeover : (after (new (pos 5000) (pos 0)) outage).takeover_count ≡ 1
unfolding after new on_external tick is_fresh
one_takeover = refl

tick-follows_example :
    let r = tick (after (new (pos 5000) (pos 0)) outage) (pos 9000) in
    ((r.1.state ≡ following_external) ↔ (is_young (pos 5000) (newest outage) (pos 9000) ≡ true))
    × (r.1.effective_setpoint_kw ≡ elim (newest outage) [
      | none ↦ pos 0
      | some (kw, ts) ↦ if ltb (pos 9000 - ts) (pos 5000) then kw else pos 0
    ])
    × (r.0.takeover_count ≡ takeovers (pos 5000) (ticked (pos 9000) ∷ outage))
tick-follows_example = tick-follows (pos 5000) (pos 0) (pos 9000) outage

abbrev gateway : Gateway ℤ
gateway = record {
  wd = record {
    timeout_s = pos 5000;
    self_consumption_kw = pos 0;
    last_external_kw = some (pos 0);
    last_external_ts = some (pos 1000);
    state = following_external;
    takeover_count = 0;
  };
  has_writer = true;
  last_forwarded = some (pos 0);
}

-- A takeover at an unchanged setpoint is not forwarded.
silent_takeover :
    let r = gateway_tick (λ _. true) gateway (pos 9000) in
    (r.1.result.changed ≡ true) × (r.1.forwarded ≡ none)
unfolding gateway_tick tick is_fresh effective_setpoint_kw
silent_takeover = (refl, refl)

gateway_tick-forwards_example :
    let r = gateway_tick (λ _. true) gateway (pos 9000) in
    let sp = r.1.result.effective_setpoint_kw in
    ((r.1.forwarded ≡ none) ↔ IsAt (some (pos 0)) sp)
    × ((r.1.forwarded ≡ some sp) ↔ (¬ IsAt (some (pos 0)) sp))
    × (r.0.last_forwarded ≡ receive (λ _. true) (some (pos 0)) r.1.forwarded)
    × (true ≡ true → IsAt r.0.last_forwarded sp)
    × (true ≡ false → r.0.last_forwarded ≡ some (pos 0))
gateway_tick-forwards_example = gateway_tick-forwards milli-IsOrdered (λ _. true) gateway (pos 9000)
