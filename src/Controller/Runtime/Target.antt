-- ===== src/Controller/Runtime/Target.antt =====
-- The live target, the last result and the schedule over any history of the runner.
use edge_ems.Prelude.{
  ◌≡◌, refl, ◌∙◌, inl, inr, Option, Option-cases, none, some, List, [], ◌∷◌, ℕ, suc, arith,
}
use Prim.Native.Nat.{◌<◌, ◌+◌}
use edge_ems.Float.{Float, IsOrdered, ◌≼◌}
use edge_ems.Float.Order.{le_refl}
use edge_ems.Controller.Loop.{ControlLoop, run_once, finish, command}
use edge_ems.Controller.Loop.Inputs.{Snapshot, assemble_inputs}
use edge_ems.Controller.Modes.{update}
use edge_ems.Controller.Runtime.{
  LoopRunner, set_pcc_setpoint_kw, start, stop, status, cycle, schedule, tick,
}

-- Calls of the runner, and the rounds of its thread.
pub data Call (F : Type 0) : Type 0 where
  started : F → Call F
  stopped : Call F
  targeted : F → Call F
  ticked : Option (Snapshot F) → F → F → F → F → Call F

module _ {F : Type 0} ⦃d : Float F⦄ where
  -- the runner after a history, newest call first
  unfoldable pub after : LoopRunner F → List (Call F) → LoopRunner F
  after r [] = r
  after r (started clock ∷ h) = (start (after r h) clock).0
  after r (stopped ∷ h) = (stop (after r h)).0
  after r (targeted value ∷ h) = (set_pcc_setpoint_kw (after r h) value).0
  after r (ticked snap now dur_ms clock resync ∷ h) =
      (tick (after r h) snap now dur_ms clock resync).0

  -- The newest target of a history, or else the first one.
  abbrev pub newest_target : F → List (Call F) → F
  newest_target first [] = first
  newest_target first (targeted value ∷ h) = value
  newest_target first (started _ ∷ h) = newest_target first h
  newest_target first (stopped ∷ h) = newest_target first h
  newest_target first (ticked _ _ _ _ _ ∷ h) = newest_target first h

  abbrev pub count_ticks : List (Call F) → ℕ
  count_ticks [] = 0
  count_ticks (ticked _ _ _ _ _ ∷ h) = suc (count_ticks h)
  count_ticks (targeted _ ∷ h) = count_ticks h
  count_ticks (started _ ∷ h) = count_ticks h
  count_ticks (stopped ∷ h) = count_ticks h

  target-run_once :
      (l : ControlLoop F) (snap : Snapshot F) (now dur_ms : F)
      → (run_once l snap now dur_ms).0.pcc_setpoint_kw ≡ l.pcc_setpoint_kw
  unfolding run_once finish
  target-run_once l snap now dur_ms =
      let a = assemble_inputs snap l.pcc_setpoint_kw l.max_feed_kw in
      let (modes, decision) = update l.modes a.data_fresh a.battery_ok now in
      elim (Option-cases (command (record l { modes = modes }) decision.mode a dur_ms)) [
        | inl e ↦ rw (e, run_once) refl
        | inr (c, e) ↦ rw (e, run_once) refl
      ]

  target-tick :
      (r : LoopRunner F) (snap : Option (Snapshot F)) (now dur_ms clock resync : F)
      → (tick r snap now dur_ms clock resync).0.loop.pcc_setpoint_kw ≡ r.loop.pcc_setpoint_kw
  unfolding tick schedule cycle
  target-tick r none now dur_ms clock resync = ground arith
  target-tick r (some snap) now dur_ms clock resync =
      ground (arith, target-run_once r.loop snap now dur_ms)

  overruns-tick :
      (r : LoopRunner F) (snap : Option (Snapshot F)) (now dur_ms clock resync : F)
      → (tick r snap now dur_ms clock resync).0.overruns < suc (suc r.overruns)
  unfolding tick schedule cycle
  overruns-tick r none now dur_ms clock resync = ground arith
  overruns-tick r (some snap) now dur_ms clock resync = ground arith

  target-after :
      (r : LoopRunner F) (h : List (Call F))
      → ((after r h).loop.pcc_setpoint_kw ≡ newest_target r.loop.pcc_setpoint_kw h)
        × ((after r h).overruns < suc (r.overruns + count_ticks h))
  unfolding after start stop set_pcc_setpoint_kw
  target-after r [] = (refl, omega arith)
  target-after r (started clock ∷ h) =
      let ih = target-after r h in (ground (arith, ih.0), ground (arith, ih.1))
  target-after r (stopped ∷ h) =
      let ih = target-after r h in (ground (arith, ih.0), ground (arith, ih.1))
  target-after r (targeted value ∷ h) = (refl, (target-after r h).1)
  target-after r (ticked snap now dur_ms clock resync ∷ h) =
      let ih = target-after r h in
      (
        target-tick (after r h) snap now dur_ms clock resync ∙ ih.0,
        omega (arith, ih.1, overruns-tick (after r h) snap now dur_ms clock resync),
      )

module _ {F : Type 0} ⦃d : Float F⦄ (laws : IsOrdered F) where
  pause_nonneg :
      (r : LoopRunner F) (snap : Option (Snapshot F)) (now dur_ms clock resync : F)
      → d.nought ≼ (tick r snap now dur_ms clock resync).1
  unfolding tick schedule cycle
  pause_nonneg r none now dur_ms clock resync = ground (arith, le_refl laws d.nought)
  pause_nonneg r (some snap) now dur_ms clock resync = ground (arith, le_refl laws d.nought)

  -- Over any history of starts, stops, changes of the target and rounds of the thread, whatever
  -- the cycles read and however long they take, the target is the newest that was set, or the first
  -- one; overruns are at most the rounds; a further round never waits a negative time, and one whose
  -- snapshot cannot be read leaves the last result as it was.
  pub status-after :
      (r : LoopRunner F) (h : List (Call F))
      → let s = status (after r h) in
        (s.pcc_setpoint_kw ≡ newest_target r.loop.pcc_setpoint_kw h)
        × (s.overruns < suc (r.overruns + count_ticks h))
        × ((snap : Option (Snapshot F)) (now dur_ms clock resync : F)
            → d.nought ≼ (tick (after r h) snap now dur_ms clock resync).1)
        × ((now dur_ms clock resync : F)
            → (status (tick (after r h) none now dur_ms clock resync).0).cycle ≡ s.cycle)
  unfolding status tick schedule cycle
  status-after r h =
      let (target, count) = target-after r h in
      (
        target,
        count,
        λ snap now dur_ms clock resync. pause_nonneg (after r h) snap now dur_ms clock resync,
        λ now dur_ms clock resync. ground arith,
      )
