-- ===== src/Core/Watchdog/Episodes.antt =====
-- When the watchdog trips, against a description of the history of calls.
use edge_ems.Prelude.{
  ◌≡◌, refl, ◌↔◌, ◌⊎◌, inl, inr, true, false, Bool-cases, Option, none, some, List, [], ◌∷◌, arith,
}
use edge_ems.Float.{Float, ◌-◌, ltb}
use edge_ems.Core.Adapter.{Devices}
use edge_ems.Core.Watchdog.{Watchdog, notify, start, is_silent, trip, check}

-- Calls of the watchdog: an accepted setpoint, the arming at start, and the check of a cycle.
pub data Call (F : Type 0) : Type 0 where
  notified started checked : F → Call F

module _ {F : Type 0} ⦃d : Float F⦄ where
  -- The instant of the newest setpoint or start in a history, newest call first.
  abbrev pub heard : List (Call F) → Option F
  heard [] = none
  heard (notified t ∷ h) = some t
  heard (started t ∷ h) = some t
  heard (checked t ∷ h) = heard h

  -- At `now` more than `timeout` seconds have passed since then.
  abbrev pub IsOverdue : F → Option F → F → Type 0
  IsOverdue timeout none now = ⊥
  IsOverdue timeout (some last) now = ltb timeout (now - last) ≡ true

  -- A check since then was overdue.
  abbrev pub HasExpired : F → List (Call F) → Type 0
  HasExpired timeout [] = ⊥
  HasExpired timeout (notified t ∷ h) = ⊥
  HasExpired timeout (started t ∷ h) = ⊥
  HasExpired timeout (checked t ∷ h) = IsOverdue timeout (heard h) t ⊎ HasExpired timeout h

  module _ (devices : Devices F) where
    -- the watchdog after a history
    unfoldable pub after : Watchdog F → List (Call F) → Watchdog F
    after w [] = w
    after w (notified t ∷ h) = notify (after w h) t
    after w (started t ∷ h) = start (after w h) t
    after w (checked t ∷ h) = (check devices (after w h) t).0

    abbrev IsNew : Watchdog F → Type 0
    IsNew w = (w.last_setpoint_ts ≡ none) × (w.tripped ≡ false)

    record Agrees (timeout : F) (w : Watchdog F) (h : List (Call F)) : Type 0 where
      heard_at : w.last_setpoint_ts ≡ heard h
      waits : w.timeout_s ≡ timeout
      tripped_iff : (w.tripped ≡ true) ↔ HasExpired timeout h

    is_silent_iff :
        (w : Watchdog F) (now : F) (o : Option F) (timeout : F)
        → w.last_setpoint_ts ≡ o
        → w.timeout_s ≡ timeout
        → (is_silent w now ≡ true) ↔ IsOverdue timeout o now
    unfolding is_silent
    is_silent_iff w now none timeout e l = (λ h. ground arith, λ h. absurd h)
    is_silent_iff w now (some s) timeout e l = (λ h. ground arith, λ h. ground arith)

    after-Agrees : (w : Watchdog F) (h : List (Call F)) → IsNew w → Agrees w.timeout_s (after w h) h
    unfolding after notify start check
    after-Agrees w [] v = record {
      heard_at = v.0;
      waits = refl;
      tripped_iff = (λ e. ground arith, λ e. absurd e);
    }
    after-Agrees w (notified t ∷ h) v = record {
      heard_at = refl;
      waits = (after-Agrees w h v).waits;
      tripped_iff = (λ e. ground arith, λ e. absurd e);
    }
    after-Agrees w (started t ∷ h) v = record {
      heard_at = refl;
      waits = (after-Agrees w h v).waits;
      tripped_iff = (λ e. ground arith, λ e. absurd e);
    }
    after-Agrees w (checked t ∷ h) v =
        let ih = after-Agrees w h v in
        let silent = is_silent_iff (after w h) t (heard h) w.timeout_s ih.heard_at ih.waits in
        record {
          heard_at = ground (arith, ih.heard_at);
          waits = ground (arith, ih.waits);
          tripped_iff = (
            λ e. elim (Bool-cases (after w h).tripped) [
              | inl old ↦ inr (ih.tripped_iff.0 old)
              | inr armed ↦ elim (Bool-cases (is_silent (after w h) t)) [
                | inl quiet ↦ inl (silent.0 quiet)
                | inr fed ↦ absurd (ground arith)
              ]
            ],
            λ e. elim e [
              | inl overdue ↦ ground (arith, silent.1 overdue)
              | inr before ↦ ground (arith, ih.tripped_iff.1 before)
            ],
          );
        }

    -- After any history of calls of a new watchdog, a check trips exactly when a setpoint or the
    -- start was heard, more than the timeout has passed since the newest one, and no earlier check
    -- since then was overdue: once in each episode of silence, and never before it is armed. A
    -- check that trips makes the safe-state writes; any other writes nothing.
    pub check-trips :
        (w : Watchdog F) (h : List (Call F)) (now : F)
        → (w.last_setpoint_ts ≡ none) × (w.tripped ≡ false)
        → let (w', tripped, writes) = check devices (after w h) now in
          ((tripped ≡ true) ↔ (IsOverdue w.timeout_s (heard h) now × (¬ HasExpired w.timeout_s h)))
          × (tripped ≡ true → writes ≡ trip devices (after w h))
          × (tripped ≡ false → writes ≡ [])
    unfolding check
    check-trips w h now v =
        let ih = after-Agrees w h v in
        let silent = is_silent_iff (after w h) now (heard h) w.timeout_s ih.heard_at ih.waits in
        (
          (
            λ e. (silent.0 (ground arith), λ x. ground (arith, ih.tripped_iff.1 x)),
            λ (overdue, fresh). elim (Bool-cases (after w h).tripped) [
              | inl old ↦ absurd (fresh (ih.tripped_iff.0 old))
              | inr armed ↦ ground (arith, silent.1 overdue)
            ],
          ),
          λ e. ground arith,
          λ e. ground arith,
        )
