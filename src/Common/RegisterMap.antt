-- ===== src/Common/RegisterMap.antt =====
-- packages/common/src/common/register_map.py: register definitions and the checks of a map. Parsing
-- the file is not modelled; addresses and sizes are not negative. The texts of the errors keep only
-- what they name.
pub mod Disjoint
pub mod Tests
use edge_ems.Prelude.{
  ◌≡◌, refl, ◌↔◌, arith, Bool, true, false, not, ◌&&◌, ◌||◌, Option, none, some, List, [], ◌∷◌,
  ◌++◌, ℕ, zero, suc, String, str_eq, is_some, is_empty, ◌==◌, if◌then◌else◌, ◌>>=◌, listed,
}
use edge_ems.Prelude.Int.{ℤ}
use edge_ems.Prelude.Dict.{Dict, lookup}
use edge_ems.Common.DataModel.{DataModel, AssetClassDef, PointDef}

pub data RegisterType : Type 0 where
  uint16 int16 uint32 int32 float32 enum16 bitfield32 uint64 sunssf string pad : RegisterType

pub data Access : Type 0 where
  r rw w : Access

pub record RegisterDef (F : Type 0) : Type 0 where
  pub address : ℕ
  pub type : RegisterType
  pub size : Option ℕ
  pub scale : F
  pub sf_address : Option ℕ
  pub sf_value : Option ℤ
  pub unit_scale : F
  pub value : Option ℤ
  pub role : Option String
  pub rw : Access

pub record RegisterMap (F : Type 0) : Type 0 where
  pub map_version : String
  pub asset_class : String
  pub points : Dict (RegisterDef F)

-- `_WIDTH`
abbrev pub type_width : RegisterType → Option ℕ
type_width uint16 = some 1
type_width int16 = some 1
type_width uint32 = some 2
type_width int32 = some 2
type_width float32 = some 2
type_width enum16 = some 1
type_width bitfield32 = some 2
type_width uint64 = some 4
type_width sunssf = some 1
type_width string = none
type_width pad = none

-- `none` is the ValueError of a text or a pad without a size
abbrev pub width_of : RegisterType → Option ℕ → Option ℕ
width_of t (some n) = some n
width_of t none = type_width t

-- the map's own check of a register
abbrev pub is_scaled_once : {F : Type 0} → RegisterDef F → Bool
is_scaled_once reg = not (is_some reg.sf_address && is_some reg.sf_value)

abbrev pub width : {F : Type 0} → RegisterDef F → Option ℕ
width reg = width_of reg.type reg.size

abbrev pub is_sunspec_scaled : {F : Type 0} → RegisterDef F → Bool
is_sunspec_scaled reg = is_some reg.sf_address || is_some reg.sf_value

-- The points that the data model names.
abbrev pub canonical : {F : Type 0} → List String → Dict (RegisterDef F) → Dict (RegisterDef F)
canonical dm_points [] = []
canonical dm_points ((n, reg) ∷ points) =
    let rest = canonical dm_points points in if listed n dm_points then (n, reg) ∷ rest else rest

pub data MapError : Type 0 where
  unknown_point read_only write_only : String → MapError
  overlap : String → ℕ → String → MapError

-- `occupied`, its newest entry first
abbrev pub Occupied : Type 0
Occupied = List (ℕ × String)

abbrev pub owner : ℕ → List (ℕ × String) → Option String
owner addr [] = none
owner addr ((a, n) ∷ occupied) = if a == addr then some n else owner addr occupied

-- the registers of a point, one after the other
abbrev pub claim : String → ℕ → ℕ → List (ℕ × String) → List MapError × List (ℕ × String)
claim pname addr zero occupied = ([], occupied)
claim pname addr (suc n) occupied =
    let (errors, occupied') = claim pname (suc addr) n ((addr, pname) ∷ occupied) in
    (
      elim (owner addr occupied) [ none ↦ errors | some other ↦ overlap pname addr other ∷ errors ],
      occupied',
    )

abbrev pub is_read_only : Access → Bool
is_read_only r = true
is_read_only _ = false

-- The register may be read and nothing else.
abbrev pub IsReadOnly : Access → Type 0
IsReadOnly r = Unit
IsReadOnly rw = ⊥
IsReadOnly w = ⊥

pub is_read_only_iff : (access : Access) → (is_read_only access ≡ true) ↔ IsReadOnly access
is_read_only_iff r = (λ e. tt, λ h. refl)
is_read_only_iff rw = (λ e. absurd (ground arith), λ h. absurd h)
is_read_only_iff w = (λ e. absurd (ground arith), λ h. absurd h)

abbrev pub is_write_only : Access → Bool
is_write_only w = true
is_write_only _ = false

abbrev pub access_errors : String → Option PointDef → Option String → Access → List MapError
access_errors pname none none access = unknown_point pname ∷ []
access_errors pname none (some role) access = []
access_errors pname (some point) role access =
    (if str_eq point.direction "output" && is_read_only access then read_only pname ∷ [] else [])
    ++ (if str_eq point.direction "input" && is_write_only access
        then write_only pname ∷ []
        else [])

-- `none` is the exception of a register without a width
abbrev pub points_errors :
    {F : Type 0} → Dict PointDef → Dict (RegisterDef F) → List (ℕ × String) → Option (List MapError)
points_errors points [] occupied = some []
points_errors points ((pname, reg) ∷ regs) occupied = do
  n ← width reg
  let (overlaps, occupied') = claim pname reg.address n occupied
  rest ← points_errors points regs occupied'
  some (access_errors pname (lookup pname points) reg.role reg.rw ++ (overlaps ++ rest))

-- how the cross-validation of a parsed map ends: the exceptions, or the map
pub data Loaded (F : Type 0) : Type 0 where
  unknown_class : String → Loaded F
  no_size : Loaded F
  invalid : List MapError → Loaded F
  loaded : RegisterMap F → Loaded F

abbrev pub judge : {F : Type 0} → RegisterMap F → Option (List MapError) → Loaded F
judge rmap none = no_size
judge rmap (some (e ∷ errors)) = invalid (e ∷ errors)
judge rmap (some []) = loaded rmap

unfoldable pub load_register_map : {F : Type 0} → DataModel → RegisterMap F → Loaded F
load_register_map dm rmap = elim (lookup rmap.asset_class dm.asset_classes) [
  | none ↦ unknown_class rmap.asset_class
  | some cls ↦ judge rmap (points_errors cls.points rmap.points [])
]
