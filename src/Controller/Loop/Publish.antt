-- ===== src/Controller/Loop/Publish.antt =====
-- What a cycle publishes: the battery every time, the derates on change.
use edge_ems.Prelude.{
  ◌≡◌, refl, sym, ap, ◌∙◌, Bool-cases, true, false, inl, inr, Option, Option-cases, none, some,
  List, [], ◌∷◌, ◌++◌, String, ◌⊎◌, subst, arith, str_eq, eq_iff,
}
use edge_ems.Prelude.Dict.{Dict, lookup, insert, lookup-insert}
use edge_ems.Float.{Float, IsOrdered, eqb}
use edge_ems.Float.Order.{le_refl}
use edge_ems.Controller.Modes.{ModeDecision, update}
use edge_ems.Controller.Loop.{
  ControlLoop, Command, CycleResult, Message, Outcome, publish_if_changed, publish_unless,
  publish_derate, classes, finish, run_once, command,
}
use edge_ems.Controller.Loop.Inputs.{Snapshot, Assembled, assemble_inputs}

module _ {F : Type 0} ⦃d : Float F⦄ where
  -- the derates that a subscriber knows, by asset class, after one message and after many
  abbrev pub receive : Dict F → Message F → Dict F
  receive known m = elim (lookup "derate_factor_setpoint" m.setpoints) [
    | none ↦ known
    | some f ↦ insert m.asset_class f known
  ]

  abbrev pub receive_all : Dict F → List (Message F) → Dict F
  receive_all known [] = known
  receive_all known (m ∷ ms) = receive_all (receive known m) ms

  -- `factor` compares equal to what is known of the class.
  abbrev pub Knows : Dict F → String → F → Type 0
  Knows known asset_class factor =
      (x : F) × (lookup asset_class known ≡ some x) × (eqb x factor ≡ true)

  -- A derate message for the class that repeats nothing that was known.
  abbrev pub IsNews : Dict F → String → F → Message F → Type 0
  IsNews known asset_class factor m =
      (m
        ≡ record { asset_class = asset_class; setpoints = ("derate_factor_setpoint", factor) ∷ [] })
      × ((x : F) → lookup asset_class known ≡ some x → eqb x factor ≡ false)

  -- Derate messages with the curtailment of PV and the derating of the load, each of them news to
  -- one who has received those before it.
  abbrev pub AreNews : Dict F → CycleResult F → List (Message F) → Type 0
  AreNews known r [] = Unit
  AreNews known r (m ∷ ms) =
      (IsNews known "pv" r.curtail_factor m ⊎ IsNews known "flexible_load" r.derate_factor m)
      × AreNews (receive known m) r ms

  receive_all-append :
      (known : Dict F) (ms ns : List (Message F))
      → receive_all known (ms ++ ns) ≡ receive_all (receive_all known ms) ns
  receive_all-append known [] ns = refl
  receive_all-append known (m ∷ ms) ns = receive_all-append (receive known m) ms ns

  -- What a cycle that does not raise publishes.
  pub record IsAnnounced (known : Dict F) (l' : ControlLoop F) (out : Outcome F) : Type 0 where
    pub rest : List (Message F)
    pub battery_first :
        out.messages
        ≡ record {
          asset_class = "battery";
          setpoints =
              ("active_power_setpoint_kw", out.result.battery_setpoint_kw)
              ∷ ("reactive_power_setpoint_kvar", out.result.reactive_setpoint_kvar)
              ∷ [];
        }
          ∷ rest
    pub news : AreNews known out.result rest
    pub followed : receive_all known out.messages ≡ l'.last_pub
    pub pv_known : Knows l'.last_pub "pv" out.result.curtail_factor
    pub load_known : Knows l'.last_pub "flexible_load" out.result.derate_factor
    pub listed : out.result.published ≡ classes out.messages

  abbrev pub Announces : ControlLoop F → ControlLoop F → Option (Outcome F) → Type 0
  Announces l l' none = l'.last_pub ≡ l.last_pub
  Announces l l' (some out) = IsAnnounced l.last_pub l' out

module _ {F : Type 0} ⦃d : Float F⦄ (laws : IsOrdered F) where
  -- the messages that one call of `_publish_if_changed` sends: none, or one with news
  abbrev OnlyNews : Dict F → String → F → List (Message F) → Type 0
  OnlyNews known cls factor [] = Unit
  OnlyNews known cls factor (m ∷ ms) = IsNews known cls factor m × (ms ≡ [])

  abbrev IsPublished : Dict F → String → F → Dict F × List (Message F) → Type 0
  IsPublished known cls factor (known', ms) =
      (receive_all known ms ≡ known')
      × Knows known' cls factor
      × OnlyNews known cls factor ms
      × ((k : String) → str_eq cls k ≡ false → lookup k known' ≡ lookup k known)

  eqb_refl : (x : F) → eqb x x ≡ true
  eqb_refl x = ground (arith, le_refl laws x)

  publish_derate-IsPublished :
      (known : Dict F) (cls : String) (factor : F)
      → ((x : F) → lookup cls known ≡ some x → eqb x factor ≡ false)
      → IsPublished known cls factor (publish_derate known cls factor)
  publish_derate-IsPublished known cls factor news = (
    refl,
    (factor, lookup-insert cls cls factor known ∙ ground (arith, eq_iff cls cls), eqb_refl factor),
    ((refl, news), refl),
    λ k ne. lookup-insert cls k factor known ∙ rw ne refl,
  )

  publish_unless-IsPublished :
      (o : Option F) (known : Dict F) (cls : String) (factor : F)
      → lookup cls known ≡ o
      → IsPublished known cls factor (publish_unless o known cls factor)
  publish_unless-IsPublished none known cls factor e =
      publish_derate-IsPublished known cls factor (λ x ex. ground arith)
  publish_unless-IsPublished (some last) known cls factor e = elim (Bool-cases (eqb last factor)) [
    | inl same ↦ rw same (refl, (last, e, same), tt, λ k ne. refl)
    | inr new ↦ rw new (publish_derate-IsPublished known cls factor (λ x ex. ground arith))
  ]

  publish_if_changed-IsPublished :
      (known : Dict F) (cls : String) (factor : F)
      → IsPublished known cls factor (publish_if_changed known cls factor)
  unfolding publish_if_changed
  publish_if_changed-IsPublished known cls factor =
      publish_unless-IsPublished (lookup cls known) known cls factor refl

  -- the news of one call, in front of more
  AreNews-pv :
      (known known' : Dict F) (r : CycleResult F) (ms ns : List (Message F))
      → OnlyNews known "pv" r.curtail_factor ms
      → receive_all known ms ≡ known'
      → AreNews known' r ns
      → AreNews known r (ms ++ ns)
  AreNews-pv known known' r [] ns news e more = subst (λ k. AreNews k r ns) (sym e) more
  AreNews-pv known known' r (m ∷ ms) ns (new, alone) e more =
      let e' = rw alone at e in rw alone (inl new, subst (λ k. AreNews k r ns) (sym e') more)

  AreNews-load :
      (known : Dict F) (r : CycleResult F) (ms : List (Message F))
      → OnlyNews known "flexible_load" r.derate_factor ms
      → AreNews known r ms
  AreNews-load known r [] news = tt
  AreNews-load known r (m ∷ ms) (new, alone) = rw alone (inr new, tt)

  finish-IsAnnounced :
      (l : ControlLoop F) (decision : ModeDecision F) (a : Assembled F) (c : Command F) (now : F)
      → let (l', out) = finish l decision a c now in IsAnnounced l.last_pub l' out
  unfolding finish
  finish-IsAnnounced l decision a c now =
      let (known1, pv) = publish_if_changed l.last_pub "pv" c.curtail in
      let (known2, load) = publish_if_changed known1 "flexible_load" c.derate in
      let (a1, a2, a3, a4) = publish_if_changed-IsPublished l.last_pub "pv" c.curtail in
      let (b1, b2, b3, b4) = publish_if_changed-IsPublished known1 "flexible_load" c.derate in
      record {
        rest = pv ++ load;
        battery_first = refl;
        news = AreNews-pv l.last_pub known1 _ pv load a3 a1 (AreNews-load known1 _ load b3);
        followed =
            receive_all-append l.last_pub pv load ∙ ap (λ known. receive_all known load) a1 ∙ b1;
        pv_known = (a2.0, b4 "pv" refl ∙ a2.1, a2.2);
        load_known = b2;
        listed = refl;
      }

  -- A cycle whose droop correction raises publishes nothing and forgets nothing. Any other, also one
  -- that raises at the end because `write_control` does, publishes the battery setpoints of its result
  -- first, in every mode, and after them only derate messages with the curtailment for PV and the
  -- derating for the load, each with a factor that differs from the last one published for the class,
  -- in an earlier cycle or in this one. A subscriber that keeps the latest derate of each class then
  -- holds exactly what the loop remembers, which compares equal to the factors of the result; and the
  -- result lists the classes published.
  pub run_once-Announces :
      (l : ControlLoop F) (snap : Snapshot F) (now dur : F)
      → let (l', out) = run_once l snap now dur in Announces l l' out
  unfolding run_once
  run_once-Announces l snap now dur =
      let a = assemble_inputs snap l.pcc_setpoint_kw l.max_feed_kw in
      let (modes, decision) = update l.modes a.data_fresh a.battery_ok now in
      let l1 : ControlLoop F = record l { modes = modes } in
      elim (Option-cases (command l1 decision.mode a dur)) [
        | inl e ↦ rw (e, run_once) refl
        | inr (r, e) ↦
            rw (e, run_once) (finish-IsAnnounced (record l1 { edge = r.0 }) decision a r.1 now)
      ]
