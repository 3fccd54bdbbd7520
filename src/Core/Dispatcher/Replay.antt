-- ===== src/Core/Dispatcher/Replay.antt =====
-- Whatever arrives in between, no message is dispatched twice.
use edge_ems.Prelude.{
  ◌≡◌, ◌∙◌, refl, ◌⊎◌, Option-cases, list_cases, inl, inr, true, false, Option, some, List, [], ◌∷◌,
  String, eq_iff, arith, or_else,
}
use edge_ems.Prelude.Int.{ℤ, negsuc, leb_ℤ}
use edge_ems.Prelude.Dict.{Dict, lookup, insert, lookup-insert}
use edge_ems.Float.{Float}
use edge_ems.Common.Json.{Json}
use edge_ems.Common.Conformity.{validate_setpoint_payload}
use edge_ems.Core.Adapter.{Devices}
use edge_ems.Core.Dispatcher.{
  Dispatcher, UnitLimits, Message, Reason, Guard, crashed, refused, passed, guard, guard_message,
  read_message, same_site, stale_seq, rejection, report, dispatch,
}

leb_ℤ-trans : (a b c : ℤ) → leb_ℤ a b ≡ true → leb_ℤ c b ≡ false → leb_ℤ a c ≡ true
leb_ℤ-trans a b c p q = ground arith

module _ {F : Type 0} where
  -- The newest number of a class is at least this one.
  abbrev pub IsSeen : Dispatcher F → String → ℤ → Type 0
  IsSeen s k z = leb_ℤ z (or_else (lookup k s.last_seq) (negsuc 0)) ≡ true

guard_cases :
    {F : Type 0} (g : Guard F)
    → ((g ≡ crashed) ⊎ ((r : Reason) × (g ≡ refused r))) ⊎ ((m : Message F) × (g ≡ passed m))
guard_cases crashed = inl (inl refl)
guard_cases (refused r) = inl (inr (r, refl))
guard_cases (passed m) = inr (m, refl)

module _ {F : Type 0} ⦃d : Float F⦄ (show : Json F → String) (parse_ts : String → Option F) where
  guard_message-passed :
      (s : Dispatcher F) (x : Message F) (now : F) (m : Message F)
      → guard_message show parse_ts s x now ≡ passed m
      → (x ≡ m)
        × (same_site x.site s.site_id ≡ true)
        × (leb_ℤ x.seq (or_else (lookup x.asset_class s.last_seq) (negsuc 0)) ≡ false)
  guard_message-passed s x now m e = (ground arith, ground arith, ground arith)

  guard-passed :
      (s : Dispatcher F) (payload : Json F) (now : F) (m : Message F)
      → guard show parse_ts s payload now ≡ passed m
      → (validate_setpoint_payload show s.dm payload ≡ some [])
        × (read_message payload ≡ some m)
        × (same_site m.site s.site_id ≡ true)
        × (leb_ℤ m.seq (or_else (lookup m.asset_class s.last_seq) (negsuc 0)) ≡ false)
  unfolding guard
  guard-passed s payload now m e =
      elim (Option-cases (validate_setpoint_payload show s.dm payload)) [
        | inl v ↦ absurd (ground arith)
        | inr (es, v) ↦ elim (list_cases es) [
          | inr (x, xs, c) ↦ absurd (ground arith)
          | inl c ↦ elim (Option-cases (read_message payload)) [
            | inl r ↦ absurd (ground arith)
            | inr (x, r) ↦
                let g = guard_message-passed s x now m (ground arith) in
                (ground arith, ground (arith, g.0), ground (arith, g), ground (arith, g))
          ]
        ]
      ]

  guard-stale :
      (s : Dispatcher F) (payload : Json F) (now : F) (m : Message F)
      → validate_setpoint_payload show s.dm payload ≡ some []
      → read_message payload ≡ some m
      → same_site m.site s.site_id ≡ true
      → IsSeen s m.asset_class m.seq
      → guard show parse_ts s payload now ≡ refused stale_seq
  unfolding guard
  guard-stale s payload now m v r i old = ground arith

  IsSeen-insert :
      (s : Dispatcher F) (m : Message F) (k : String) (z : ℤ)
      → leb_ℤ m.seq (or_else (lookup m.asset_class s.last_seq) (negsuc 0)) ≡ false
      → IsSeen s k z
      → IsSeen (record s { last_seq = insert m.asset_class m.seq s.last_seq }) k z
  IsSeen-insert s m k z newer h = ground (
    arith,
    lookup-insert m.asset_class k m.seq s.last_seq,
    eq_iff m.asset_class k,
    leb_ℤ-trans z (or_else (lookup k s.last_seq) (negsuc 0)) m.seq,
  )

  module _ (devices : Devices F) where
    dispatch-passed :
        (s : Dispatcher F) (payload : Json F) (limits : Option (Dict (UnitLimits F))) (now : F)
        (m : Message F)
        → guard show parse_ts s payload now ≡ passed m
        → IsSeen (dispatch show parse_ts devices s payload limits now).0 m.asset_class m.seq
    unfolding dispatch
    dispatch-passed s payload limits now m e = ground (
      arith,
      lookup-insert m.asset_class m.asset_class m.seq s.last_seq,
      eq_iff m.asset_class m.asset_class,
    )

    record Keeps (s s' : Dispatcher F) : Type 0 where
      model : s'.dm ≡ s.dm
      site : s'.site_id ≡ s.site_id
      seen : (k : String) (z : ℤ) → IsSeen s k z → IsSeen s' k z

    Keeps-dispatch :
        (s : Dispatcher F) (payload : Json F) (limits : Option (Dict (UnitLimits F))) (now : F)
        → Keeps s (dispatch show parse_ts devices s payload limits now).0
    unfolding dispatch
    Keeps-dispatch s payload limits now = elim (guard_cases (guard show parse_ts s payload now)) [
      | inl (inl e) ↦ rw (e, dispatch) (record { model = refl; site = refl; seen = (λ k z h. h) })
      | inl (inr (r, e)) ↦
          rw (e, dispatch) (record { model = refl; site = refl; seen = (λ k z h. h) })
      | inr (m, e) ↦
          let newer = (guard-passed s payload now m e).3 in
          rw (e, dispatch)
            (record { model = refl; site = refl; seen = (λ k z h. IsSeen-insert s m k z newer h) })
    ]

    -- the dispatcher after some arrivals, newest first
    unfoldable pub after :
        Dispatcher F → List (Json F × Option (Dict (UnitLimits F)) × F) → Dispatcher F
    after s [] = s
    after s ((payload, limits, now) ∷ h) =
        (dispatch show parse_ts devices (after s h) payload limits now).0

    after-Keeps :
        (s : Dispatcher F) (h : List (Json F × Option (Dict (UnitLimits F)) × F))
        → Keeps s (after s h)
    unfolding after
    after-Keeps s [] = record { model = refl; site = refl; seen = (λ k z e. e) }
    after-Keeps s ((payload, limits, now) ∷ h) =
        let ih = after-Keeps s h in
        let step = Keeps-dispatch (after s h) payload limits now in
        record {
          model = step.model ∙ ih.model;
          site = step.site ∙ ih.site;
          seen = (λ k z e. step.seen k z (ih.seen k z e));
        }

    -- A payload that passes the guard of a dispatcher is refused as stale whenever it comes again,
    -- at any time and with any limits, after any other arrivals: no device is written to and the
    -- dispatcher does not change.
    pub dispatch-once :
        (s : Dispatcher F) (payload : Json F) (limits : Option (Dict (UnitLimits F))) (now : F)
        (m : Message F)
        → guard show parse_ts s payload now ≡ passed m
        → (h : List (Json F × Option (Dict (UnitLimits F)) × F))
          (limits' : Option (Dict (UnitLimits F))) (now' : F)
        → let s' = after (dispatch show parse_ts devices s payload limits now).0 h in
          dispatch show parse_ts devices s' payload limits' now'
          ≡ (s', report (rejection stale_seq))
    unfolding dispatch
    dispatch-once s payload limits now m e h limits' now' =
        let s1 = (dispatch show parse_ts devices s payload limits now).0 in
        let one = Keeps-dispatch s payload limits now in
        let rest = after-Keeps s1 h in
        let (v, r, i, _) = guard-passed s payload now m e in
        let seen = rest.seen m.asset_class m.seq (dispatch-passed s payload limits now m e) in
        let stale =
          guard-stale (after s1 h) payload now' m (rw (rest.model ∙ one.model) v) r
            (rw (rest.site ∙ one.site) i) seen in
        rw (stale, dispatch) refl
