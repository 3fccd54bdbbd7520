-- ===== src/Hil/ClosedLoop/Steady.antt =====
-- Any number of rounds of the closed loop.
use edge_ems.Prelude.{◌≡◌, refl, sym, ◌∙◌, some, List, [], ◌∷◌, String, subst, if◌then◌else◌}
use edge_ems.Prelude.Dict.{Dict}
use edge_ems.Float.{Float, IsOrdered, ◌+◌, max}
use edge_ems.Common.Points.{comm_fail}
use edge_ems.Hil.Plant.{Math}
use edge_ems.Hil.Site.{
  SiteModel, points, pcc_measurement, pcc_points, battery_points, power_points, apply_setpoint,
}
use edge_ems.Hil.Site.History.{
  Use, after, IsPhysical, apply_setpoint-IsPhysical, step-IsPhysical, use_once-IsPhysical,
}
use edge_ems.Controller.Build.Ready.{HasCurves}
use edge_ems.Controller.Build.Running.{run_once_total}
use edge_ems.Controller.Loop.{ControlLoop, Message}
use edge_ems.Controller.Loop.Inputs.{Snapshot}
use edge_ems.Hil.ClosedLoop.{
  Faults, Plant, quality, tagged, aggregate, elapsed, read_snapshot, apply_values, publish_all,
  wired, round, rounds,
}

module _ {F : Type 0} ⦃d : Float F⦄ (laws : IsOrdered F) (m : Math F) where
  after-IsPhysical :
      (uses : List (Use F)) (s : SiteModel F)
      → IsPhysical m s
      → (s' : SiteModel F) × (after m uses s ≡ some s') × IsPhysical m s'
  after-IsPhysical [] s h = (s, refl, h)
  after-IsPhysical (u ∷ uses) s h =
      let (s1, e, h1) = use_once-IsPhysical laws m u s h in
      let (s', run, h') = after-IsPhysical uses s1 h1 in (s', rw e run, h')

  apply_values-IsPhysical :
      (c : String) (values : Dict F) (s : SiteModel F)
      → IsPhysical m s
      → IsPhysical m (apply_values m c values s)
  apply_values-IsPhysical c [] s h = h
  apply_values-IsPhysical c ((p, v) ∷ values) s h =
      apply_values-IsPhysical c values (apply_setpoint c p v s)
        (apply_setpoint-IsPhysical laws m c p v s h)

  publish_all-IsPhysical :
      (msgs : List (Message F)) (s : SiteModel F)
      → IsPhysical m s
      → IsPhysical m (publish_all m msgs s)
  publish_all-IsPhysical [] s h = h
  publish_all-IsPhysical (msg ∷ msgs) s h =
      publish_all-IsPhysical msgs (apply_values m msg.asset_class msg.setpoints s)
        (apply_values-IsPhysical msg.asset_class msg.setpoints s h)

  read_snapshot-IsPhysical :
      (f : Faults) (p : Plant F) (now : F)
      → IsPhysical m p.site
      → (p' : Plant F) × (snap : Snapshot F) × (read_snapshot m f p now ≡ some (p', snap))
        × IsPhysical m p'.site
  unfolding read_snapshot points
  read_snapshot-IsPhysical f p now h =
      let (site, e, h', from, to) =
        step-IsPhysical laws m (max d.nought (elapsed p now)) p.site h in
      let q = quality f in
      let bq = if f.battery_comm_fail then comm_fail else q in
      (
        record p { site = site; last_ts = now },
        record {
          aggregates =
              aggregate f "battery" bq now (battery_points m site.battery)
                (aggregate f "pv" q now (power_points m site.pv.p_kw site.pv.q_kvar) []);
          pcc = tagged q now (pcc_points m (pcc_measurement m site));
        },
        rw e refl,
        h',
      )

  round-IsPhysical :
      (stimulus : List (Use F)) (f : Faults) (p : Plant F) (l : ControlLoop F) (now dur : F)
      → IsPhysical m p.site
      → HasCurves l.droop
      → (p' : Plant F) × (l' : ControlLoop F) × (round m stimulus f p l now dur ≡ some (p', l'))
        × IsPhysical m p'.site
        × (l'.droop ≡ l.droop)
  unfolding round
  round-IsPhysical stimulus f p l now dur h curves =
      let (site, e, h1) = after-IsPhysical stimulus p.site h in
      let (q, snap, seen, h2) = read_snapshot-IsPhysical f (record p { site = site }) now h1 in
      let (l', out, ran, same, wrote, writer) = run_once_total (wired l) snap now dur curves in
      (
        record q { site = publish_all m out.messages q.site },
        l',
        rw (e, seen, ran) refl,
        publish_all-IsPhysical out.messages q.site h2,
        same,
      )

  -- Take a physical plant (as in `site-after`) and a loop with droop curves of
  -- four knots and values, if it has a droop. Then any number of rounds of the closed loop, with any stimulus,
  -- times, faults and durations, return; the plant is physical after them, and the loop has the droop
  -- controller it began with.
  pub rounds-IsPhysical :
      (stimulus : F → SiteModel F → List (Use F)) (sim_t : F) (inputs : List (F × Faults × F))
      (p : Plant F) (l : ControlLoop F)
      → IsPhysical m p.site
      → HasCurves l.droop
      → (p' : Plant F) × (l' : ControlLoop F) × (rounds m stimulus sim_t inputs p l ≡ some (p', l'))
        × IsPhysical m p'.site
        × (l'.droop ≡ l.droop)
  rounds-IsPhysical stimulus sim_t [] p l h curves = (p, l, refl, h, refl)
  rounds-IsPhysical stimulus sim_t ((now, f, dur) ∷ rest) p l h curves =
      let (p1, l1, e, h1, same1) =
        round-IsPhysical (stimulus sim_t p.site) f p l now dur h curves in
      let (p', l', run, h', same) =
        rounds-IsPhysical stimulus (sim_t + p.update_period) rest p1 l1 h1
          (subst HasCurves (sym same1) curves) in
      (p', l', rw e run, h', same ∙ same1)
