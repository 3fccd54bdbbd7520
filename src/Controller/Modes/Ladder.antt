-- ===== src/Controller/Modes/Ladder.antt =====
-- The mode after any history of updates, against a description that names no mode variable.
use edge_ems.Prelude.{
  ◌≡◌, refl, ◌↔◌, ◌⊎◌, inl, inr, Bool, true, false, Bool-cases, Option, none, some, List, [], ◌∷◌,
  arith, or_else,
}
use edge_ems.Float.{Float, ◌-◌, leb}
use edge_ems.Controller.Modes.{Mode, run, hold, safe, ModeController, stale_update, update}

-- What one call of `update` is told.
pub record Observation (F : Type 0) : Type 0 where
  pub data_fresh : Bool
  pub battery_ok : Bool
  pub now : F

abbrev pub IsStale : {F : Type 0} → Observation F → Type 0
IsStale o = (o.battery_ok ≡ true) × (o.data_fresh ≡ false)

module _ {F : Type 0} ⦃d : Float F⦄ where
  -- the controller after a history, newest observation first
  unfoldable pub after : ModeController F → List (Observation F) → ModeController F
  after c [] = c
  after c (o ∷ os) = (update (after c os) o.data_fresh o.battery_ok o.now).0

  -- The newest observation lets the loop run; before the first one it runs.
  abbrev pub Runs : List (Observation F) → Type 0
  Runs [] = Unit
  Runs (o ∷ os) = (o.battery_ok ≡ true) × (o.data_fresh ≡ true)

  -- The data has been stale since `since`, with the battery present, and at no later observation
  -- had `limit` seconds passed.
  abbrev pub Holds : F → F → List (Observation F) → Type 0
  Holds limit since [] = ⊥
  Holds limit since (o ∷ os) =
      IsStale o
      × ((Runs os × (since ≡ o.now)) ⊎ (Holds limit since os × (leb limit (o.now - since) ≡ false)))

  abbrev pub start : F → ModeController F
  start limit = record { hold_max_s = limit; mode = run; hold_since = none }

  -- A history has at most one instant since which it holds.
  Holds-unique :
      (limit s t : F) (os : List (Observation F)) → Holds limit s os → Holds limit t os → s ≡ t
  Holds-unique limit s t [] h k = absurd h
  Holds-unique limit s t (o ∷ []) h k = ground arith
  Holds-unique limit s t (o ∷ p ∷ os) h k = ground (arith, Holds-unique limit s t (p ∷ os))

  -- What each mode says of the history.
  abbrev Describes : F → Mode → Option F → List (Observation F) → Type 0
  Describes limit run since os = Runs os
  Describes limit hold since os = (s : F) × (since ≡ some s) × Holds limit s os
  Describes limit safe since os = (¬ Runs os) × ((s : F) → ¬ Holds limit s os)

  abbrev Agrees : F → ModeController F → List (Observation F) → Type 0
  Agrees limit c os = Describes limit c.mode c.hold_since os × (c.hold_max_s ≡ limit)

  not-Runs : (limit s : F) (os : List (Observation F)) → Holds limit s os → ¬ Runs os
  not-Runs limit s [] h = absurd h
  not-Runs limit s (o ∷ os) h = λ r. ground arith

  -- Once the limit has passed, no instant serves any more.
  expired :
      (limit s : F) (o : Observation F) (os : List (Observation F))
      → Holds limit s os
      → leb limit (o.now - s) ≡ true
      → (t : F) → ¬ Holds limit t (o ∷ os)
  expired limit s o os h late t (stale, inl (r, _)) = not-Runs limit s os h r
  expired limit s o os h late t (stale, inr (k, early)) =
      ground (arith, Holds-unique limit s t os h k)

  stale_update-Agrees :
      (limit : F) (c : ModeController F) (m : Mode) (o : Observation F) (os : List (Observation F))
      → c.mode ≡ m
      → IsStale o
      → Describes limit m c.hold_since os
      → c.hold_max_s ≡ limit
      → Agrees limit (stale_update c o.now m).0 (o ∷ os)
  stale_update-Agrees limit c run o os e stale h l = ((o.now, refl, (stale, inl (h, refl))), l)
  stale_update-Agrees limit c hold o os e stale (s, es, h) l =
      let due : F = o.now - or_else c.hold_since o.now in
      elim (Bool-cases (leb c.hold_max_s due)) [
        | inl late ↦ rw late ((λ r. ground arith, expired limit s o os h (rw (l, es) at late)), l)
        | inr early ↦ rw (early, e) ((s, es, (stale, inr (h, rw (l, es) at early))), l)
      ]
  stale_update-Agrees limit c safe o os e stale h l =
      rw e ((λ r. ground arith, λ t k. elim k.1 [ inl (r, _) ↦ h.0 r | inr (k', _) ↦ h.1 t k' ]), l)

  update-Agrees :
      (limit : F) (c : ModeController F) (o : Observation F) (os : List (Observation F))
      → Agrees limit c os
      → Agrees limit (update c o.data_fresh o.battery_ok o.now).0 (o ∷ os)
  unfolding update
  update-Agrees limit c o os (h, l) = elim (Bool-cases o.battery_ok) [
    | inl ok ↦ elim (Bool-cases o.data_fresh) [
      | inl fresh ↦ simp (ok, fresh) ((refl, refl), l)
      | inr stale ↦ simp (ok, stale) (stale_update-Agrees limit c c.mode o os refl (ok, stale) h l)
    ]
    | inr lost ↦ simp lost ((λ r. ground arith, λ t k. ground arith), l)
  ]

  after-Agrees : (limit : F) (os : List (Observation F)) → Agrees limit (after (start limit) os) os
  unfolding after
  after-Agrees limit [] = (tt, refl)
  after-Agrees limit (o ∷ os) =
      update-Agrees limit (after (start limit) os) o os (after-Agrees limit os)

  Describes-iff :
      (limit : F) (m : Mode) (since : Option F) (os : List (Observation F))
      → Describes limit m since os
      → ((m ≡ run) ↔ Runs os)
        × ((m ≡ hold) ↔ ((s : F) × (since ≡ some s) × Holds limit s os))
        × ((m ≡ safe) ↔ ((¬ Runs os) × ((s : F) → ¬ Holds limit s os)))
  Describes-iff limit run since os h = (
    (λ e. h, λ r. refl),
    (λ e. cc, λ (s, _, k). absurd (not-Runs limit s os k h)),
    (λ e. cc, λ (n, _). absurd (n h)),
  )
  Describes-iff limit hold since os (s, e, k) = (
    (λ e. cc, λ r. absurd (not-Runs limit s os k r)),
    (λ e'. (s, e, k), λ x. refl),
    (λ e. cc, λ (_, n). absurd (n s k)),
  )
  Describes-iff limit safe since os (n, k) = (
    (λ e. cc, λ r. absurd (n r)),
    (λ e. cc, λ (s, _, h). absurd (k s h)),
    (λ e. (n, k), λ x. refl),
  )

  -- After any history of updates that begins in RUN: the mode is RUN exactly when the newest
  -- observation is fresh with the battery present (or there is none yet); HOLD exactly when the data
  -- has been stale, with the battery present, since an instant that `hold_since` records and less
  -- than `hold_max_s` had passed since then at every later observation; SAFE exactly in all other
  -- histories.
  pub mode-after :
      (limit : F) (os : List (Observation F))
      → let c = after (start limit) os in
        ((c.mode ≡ run) ↔ Runs os)
        × ((c.mode ≡ hold) ↔ ((s : F) × (c.hold_since ≡ some s) × Holds limit s os))
        × ((c.mode ≡ safe) ↔ ((¬ Runs os) × ((s : F) → ¬ Holds limit s os)))
  mode-after limit os =
      let c = after (start limit) os in
      Describes-iff limit c.mode c.hold_since os (after-Agrees limit os).0
