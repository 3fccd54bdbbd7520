-- ===== src/Common/Json.antt =====
-- The values of a parsed JSON message, and what the code asks of them.
use edge_ems.Prelude.{
  Bool, true, false, Option, none, some, List, [], ◌∷◌, String, str_eq, if◌then◌else◌,
}
use edge_ems.Prelude.Int.{ℤ, pos}
use edge_ems.Prelude.Dict.{Dict}
use edge_ems.Float.{Float}

mutual
  pub data Json (F : Type 0) : Type 0 where
    null : Json F
    bool : Bool → Json F
    int : ℤ → Json F
    num : F → Json F
    text : String → Json F
    arr : Items F → Json F
    obj : Fields F → Json F

  pub data Items (F : Type 0) : Type 0 where
    nil : Items F
    cons : Json F → Items F → Items F

  pub data Fields (F : Type 0) : Type 0 where
    end : Fields F
    field : String → Json F → Fields F → Fields F

module _ {F : Type 0} where
  abbrev pub get : String → Fields F → Option (Json F)
  get k end = none
  get k (field j v fs) = if str_eq j k then some v else get k fs

  abbrev pub field_names : Fields F → List String
  field_names end = []
  field_names (field j v fs) = j ∷ field_names fs

  abbrev pub no_fields : Fields F → Bool
  no_fields end = true
  no_fields (field _ _ _) = false

  -- `isinstance(v, int)`, which a bool is too, and its value
  abbrev pub as_int : Json F → Option ℤ
  as_int (int z) = some z
  as_int (bool true) = some (pos 1)
  as_int (bool false) = some (pos 0)
  as_int _ = none

  -- `isinstance(v, Number) and not isinstance(v, bool)`
  abbrev pub is_numeric : Json F → Bool
  is_numeric (int _) = true
  is_numeric (num _) = true
  is_numeric _ = false

  -- `v == s` for a text `s`
  abbrev pub is_text : Json F → String → Bool
  is_text (text t) s = str_eq t s
  is_text _ s = false

  -- A list or an object cannot be a dictionary key.
  abbrev pub is_hashable : Json F → Bool
  is_hashable (arr _) = false
  is_hashable (obj _) = false
  is_hashable _ = true

module _ {F : Type 0} ⦃d : Float F⦄ where
  -- the numeric fields as floats
  abbrev pub numbers : Fields F → Dict F
  numbers end = []
  numbers (field j (num x) fs) = (j, x) ∷ numbers fs
  numbers (field j (int z) fs) = (j, d.of_int z) ∷ numbers fs
  numbers (field j _ fs) = numbers fs
