-- ===== src/Core/Watchdog/Trip.antt =====
-- What a trip commands.
use edge_ems.Prelude.{
  ◌≡◌, refl, true, false, none, some, [], ◌∷◌, String, is_empty, arith, eq_iff, ◌>>=◌,
}
use edge_ems.Prelude.Dict.{Dict, lookup, lookup_absent, IsDict}
use edge_ems.Core.Adapter.{Devices}
use edge_ems.Core.Watchdog.{Watchdog, safe_write, trip_from, trip, recorded, has_adapter}

module _ {F : Type 0} (devices : Devices F) (w : Watchdog F) where
  absent-trip_from :
      (cs : Dict String) (aid : String)
      → lookup aid cs ≡ none
      → lookup aid (trip_from devices w cs) ≡ none
  unfolding trip_from
  absent-trip_from [] aid h = refl
  absent-trip_from ((k, c) ∷ cs) aid h = ground (arith, absent-trip_from cs aid, eq_iff k aid)

  lookup-trip_from :
      (cs : Dict String) (aid : String)
      → IsDict cs
      → lookup aid (trip_from devices w cs) ≡ (lookup aid cs >>= safe_write devices w aid)
  unfolding trip_from
  lookup-trip_from [] aid v = refl
  lookup-trip_from ((k, c) ∷ cs) aid (fresh, v) = ground (
    arith,
    eq_iff k aid,
    absent-trip_from cs k (lookup_absent k cs fresh),
    lookup-trip_from cs aid v,
  )

  -- A trip writes to every asset that has safe setpoints for its class and an adapter, and its
  -- result is what that device answered, or a failure with the text of its exception: no other
  -- device's answer matters. An asset with no class, no safe setpoints or no adapter is not
  -- written to.
  pub trip_all :
      (aid : String)
      → IsDict w.classes
      → ((asset_class : String) (setpoints : Dict F)
          → lookup aid w.classes ≡ some asset_class
          → lookup asset_class w.safe ≡ some setpoints
          → is_empty setpoints ≡ false
          → has_adapter w.adapters aid ≡ true
          → lookup aid (trip devices w) ≡ some (recorded (devices aid setpoints)))
        × (lookup aid w.classes ≡ none → lookup aid (trip devices w) ≡ none)
        × ((asset_class : String)
            → lookup aid w.classes ≡ some asset_class
            → lookup asset_class w.safe ≡ none
            → lookup aid (trip devices w) ≡ none)
        × (has_adapter w.adapters aid ≡ false → lookup aid (trip devices w) ≡ none)
  unfolding trip safe_write
  trip_all aid v =
      let e = lookup-trip_from w.classes aid v in
      (
        λ c sp ec es full known. ground (arith, e),
        λ absent. ground (arith, e),
        λ c ec es. ground (arith, e),
        λ unknown. ground (arith, e),
      )
