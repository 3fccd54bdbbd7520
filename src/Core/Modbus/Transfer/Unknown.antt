-- ===== src/Core/Modbus/Transfer/Unknown.antt =====
-- The requests that name a point the map does not have.
use edge_ems.Prelude.{
  ◌≡◌, refl, inl, inr, Bool, true, Option-cases, none, List, [], ◌∷◌, ℕ, String, arith, listed,
  eq_iff,
}
use edge_ems.Prelude.Int.{ℤ}
use edge_ems.Prelude.Dict.{Dict, lookup}
use edge_ems.Float.{Float}
use edge_ems.Common.RegisterMap.{RegisterDef}
use edge_ems.Common.ModbusCodec.{Wire}
use edge_ems.Core.Modbus.Link.{Link, Attempt, ensure_connected}
use edge_ems.Core.Modbus.Transfer.{
  Client, Adapter, needed, ensure_sf, read_connected, read_points, names_of, write_points,
}

module _ {F : Type 0} ⦃d : Float F⦄ where
  needed_unknown :
      (points : Dict (RegisterDef F)) (cache : List (ℕ × ℤ)) (names : List String) (n : String)
      → listed n names ≡ true
      → lookup n points ≡ none
      → needed points cache names ≡ none
  needed_unknown points cache [] n asked unknown = absurd (ground arith)
  needed_unknown points cache (m ∷ names) n asked unknown = elim (Option-cases (lookup m points)) [
    | inl e ↦ rw e refl
    | inr (reg, e) ↦
        let later : listed n names ≡ true = ground (arith, eq_iff m n) in
        rw (e, needed_unknown points cache names n later unknown) refl
  ]

  -- On a link that is up, a request that names a point that the map does not have raises, a read and
  -- a write alike: nothing is read or written, and only the link of the adapter changes.
  pub unknown_raises :
      (wire : Wire F) (message : RegisterDef F → F → String) (client : Client) (a : Adapter F)
      (alive : Bool) (now : F) (attempt : Attempt) (names : List String) (values : Dict F) (ts : F)
      (n : String) (l : Link F)
      → ensure_connected a.link alive now attempt ≡ (l, true)
      → lookup n a.points ≡ none
      → (listed n names ≡ true
          → read_points wire client a alive now attempt names ts ≡ (record a { link = l }, none))
        × (listed n (names_of wire message values) ≡ true
            → write_points wire message client a alive now attempt values ts
              ≡ (record a { link = l }, none))
  unfolding read_points read_connected write_points ensure_sf
  unknown_raises wire message client a alive now attempt names values ts n l up unknown = (
    λ asked.
        rw (up, read_points)
          (rw (needed_unknown a.points a.sf_cache names n asked unknown, ensure_sf, read_connected)
            refl),
    λ asked.
        rw (up, write_points)
          (rw
            (
              needed_unknown a.points a.sf_cache (names_of wire message values) n asked unknown,
              ensure_sf,
              up,
            )
            refl),
  )
