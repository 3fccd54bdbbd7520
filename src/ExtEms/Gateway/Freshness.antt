-- ===== src/ExtEms/Gateway/Freshness.antt =====
-- The state, the effective setpoint and the takeover count, against the history of calls.
use edge_ems.Prelude.{
  ◌≡◌, refl, ◌↔◌, Bool, true, false, not, ◌&&◌, ℕ, suc, Option, none, some, List, [], ◌∷◌, arith,
  if◌then◌else◌,
}
use edge_ems.Float.{Float, ◌-◌, ltb}
use edge_ems.ExtEms.Gateway.{
  following_external, self_consumption, Watchdog, new, on_external, is_fresh, effective_setpoint_kw,
  tick,
}

-- Calls of the watchdog: an external setpoint with its arrival, and a tick.
pub data Call (F : Type 0) : Type 0 where
  arrived : F → F → Call F
  ticked : F → Call F

module _ {F : Type 0} ⦃d : Float F⦄ where
  -- The newest external setpoint of a history (newest call first) and when it arrived.
  abbrev pub newest : List (Call F) → Option (F × F)
  newest [] = none
  newest (arrived kw ts ∷ h) = some (kw, ts)
  newest (ticked t ∷ h) = newest h

  -- It is younger than the timeout.
  abbrev pub is_young : F → Option (F × F) → F → Bool
  is_young timeout none now = false
  is_young timeout (some (kw, ts)) now = ltb (now - ts) timeout

  -- The newest tick saw a young setpoint.
  abbrev pub followed : F → List (Call F) → Bool
  followed timeout [] = false
  followed timeout (arrived kw ts ∷ h) = followed timeout h
  followed timeout (ticked t ∷ h) = is_young timeout (newest h) t

  -- How many ticks saw no young setpoint where the tick before had seen one.
  abbrev pub takeovers : F → List (Call F) → ℕ
  takeovers timeout [] = 0
  takeovers timeout (arrived kw ts ∷ h) = takeovers timeout h
  takeovers timeout (ticked t ∷ h) =
      let before = takeovers timeout h in
      if followed timeout h && not (is_young timeout (newest h) t) then suc before else before

  unfoldable pub after : Watchdog F → List (Call F) → Watchdog F
  after w [] = w
  after w (arrived kw ts ∷ h) = on_external (after w h) kw ts
  after w (ticked t ∷ h) = (tick (after w h) t).0

  abbrev HasHeard : Watchdog F → Option (F × F) → Type 0
  HasHeard w none = (w.last_external_kw ≡ none) × (w.last_external_ts ≡ none)
  HasHeard w (some (kw, ts)) = (w.last_external_kw ≡ some kw) × (w.last_external_ts ≡ some ts)

  record Agrees (timeout base : F) (w : Watchdog F) (h : List (Call F)) : Type 0 where
    waits : w.timeout_s ≡ timeout
    rests : w.self_consumption_kw ≡ base
    heard : HasHeard w (newest h)
    state : w.state ≡ (if followed timeout h then following_external else self_consumption)
    count : w.takeover_count ≡ takeovers timeout h

  is_fresh-eq-is_young :
      (w : Watchdog F) (o : Option (F × F)) (now timeout : F)
      → HasHeard w o
      → w.timeout_s ≡ timeout
      → is_fresh w now ≡ is_young timeout o now
  unfolding is_fresh
  is_fresh-eq-is_young w none now timeout h l = ground arith
  is_fresh-eq-is_young w (some (kw, ts)) now timeout h l = ground arith

  HasHeard-tick :
      (w : Watchdog F) (o : Option (F × F)) (now : F) → HasHeard w o → HasHeard (tick w now).0 o
  unfolding tick
  HasHeard-tick w none now h = h
  HasHeard-tick w (some (kw, ts)) now h = h

  after-Agrees :
      (timeout base : F) (h : List (Call F)) → Agrees timeout base (after (new timeout base) h) h
  unfolding after new on_external tick
  after-Agrees timeout base [] = record {
    waits = refl;
    rests = refl;
    heard = (refl, refl);
    state = refl;
    count = refl;
  }
  after-Agrees timeout base (arrived kw ts ∷ h) =
      let ih = after-Agrees timeout base h in
      record {
        waits = ih.waits;
        rests = ih.rests;
        heard = (refl, refl);
        state = ih.state;
        count = ih.count;
      }
  after-Agrees timeout base (ticked t ∷ h) =
      let ih = after-Agrees timeout base h in
      let w = after (new timeout base) h in
      let fresh = is_fresh-eq-is_young w (newest h) t timeout ih.heard ih.waits in
      record {
        waits = ih.waits;
        rests = ih.rests;
        heard = HasHeard-tick w (newest h) t ih.heard;
        state = ground (arith, fresh);
        count = ground (arith, fresh, ih.state, ih.count);
      }

  effective_eq :
      (w : Watchdog F) (o : Option (F × F)) (now timeout base : F)
      → HasHeard w o
      → w.timeout_s ≡ timeout
      → w.self_consumption_kw ≡ base
      → effective_setpoint_kw w now
        ≡ elim o [ none ↦ base | some (kw, ts) ↦ if ltb (now - ts) timeout then kw else base ]
  unfolding effective_setpoint_kw is_fresh
  effective_eq w none now timeout base h l b = ground arith
  effective_eq w (some (kw, ts)) now timeout base h l b = ground arith

  -- After any history of arrivals and ticks, a tick follows the external EMS exactly when a setpoint
  -- has arrived and the newest one is younger than the timeout; its effective setpoint is then that
  -- newest one, and otherwise the self-consumption setpoint; and the takeovers counted are the ticks
  -- that found no young setpoint right after a tick that had found one.
  pub tick-follows :
      (timeout base now : F) (h : List (Call F))
      → let (w, res) = tick (after (new timeout base) h) now in
        ((res.state ≡ following_external) ↔ (is_young timeout (newest h) now ≡ true))
        × (res.effective_setpoint_kw ≡ elim (newest h) [
          | none ↦ base
          | some (kw, ts) ↦ if ltb (now - ts) timeout then kw else base
        ])
        × (w.takeover_count ≡ takeovers timeout (ticked now ∷ h))
  unfolding tick
  tick-follows timeout base now h =
      let ih = after-Agrees timeout base h in
      let w = after (new timeout base) h in
      let fresh = is_fresh-eq-is_young w (newest h) now timeout ih.heard ih.waits in
      (
        (λ e. ground (arith, fresh), λ e. ground (arith, fresh)),
        effective_eq (tick w now).0 (newest h) now timeout base
            (HasHeard-tick w (newest h) now ih.heard) ih.waits ih.rests,
        ground (arith, fresh, ih.state, ih.count),
      )
