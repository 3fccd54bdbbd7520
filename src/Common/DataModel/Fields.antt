-- ===== src/Common/DataModel/Fields.antt =====
-- What an empty list of field errors means.
use edge_ems.Prelude.{
  ◌≡◌, refl, ◌↔◌, ◌⊎◌, inl, inr, Bool-cases, true, Option, Option-cases, none, some, str_eq, eq_iff,
  List, [], ◌∷◌, String, All, arith,
}
use edge_ems.Prelude.Dict.{Dict, lookup, contains}
use edge_ems.Common.DataModel.{
  DataModel, AssetClassDef, PointDef, points_by_direction, allowed_points, unknown_fields,
  validate_fields,
}

-- The point is of the direction, if there is one.
abbrev pub HasDirection : PointDef → Option String → Type 0
HasDirection p none = Unit
HasDirection p (some direction) = p.direction ≡ direction

-- The field is one of the points, of the direction.
abbrev pub Declares : Dict PointDef → Option String → String → Type 0
Declares [] direction f = ⊥
Declares ((n, p) ∷ ps) direction f = ((n ≡ f) × HasDirection p direction) ⊎ Declares ps direction f

Declares-any : (ps : Dict PointDef) (f : String) → (contains f ps ≡ true) ↔ Declares ps none f
Declares-any [] f = (λ e. absurd (ground arith), λ h. absurd h)
Declares-any ((n, p) ∷ ps) f =
    let ih = Declares-any ps f in
    elim (Bool-cases (str_eq n f)) [
      | inl same ↦ (λ e. inl ((eq_iff n f).0 same, tt), λ h. ground arith)
      | inr other ↦ (
        λ e. inr (ih.0 (ground arith)),
        λ h. elim h [
          | inl (e, u) ↦ absurd (ground (arith, (eq_iff n f).1 e))
          | inr more ↦ ground (arith, ih.1 more)
        ],
      )
    ]

Declares-directed :
    (ps : Dict PointDef) (direction f : String)
    → (contains f (points_by_direction direction ps) ≡ true) ↔ Declares ps (some direction) f
Declares-directed [] direction f = (λ e. absurd (ground arith), λ h. absurd h)
Declares-directed ((n, p) ∷ ps) direction f =
    let ih = Declares-directed ps direction f in
    let way = eq_iff p.direction direction in
    let name = eq_iff n f in
    elim (Bool-cases (str_eq p.direction direction)) [
      | inl meant ↦ elim (Bool-cases (str_eq n f)) [
        | inl same ↦ (λ e. inl (name.0 same, way.0 meant), λ h. ground arith)
        | inr other ↦ (
          λ e. inr (ih.0 (ground arith)),
          λ h. elim h [
            | inl (e, u) ↦ absurd (ground (arith, name.1 e))
            | inr more ↦ ground (arith, ih.1 more)
          ],
        )
      ]
      | inr unmeant ↦ (
        λ e. inr (ih.0 (ground arith)),
        λ h. elim h [
          | inl (e, u) ↦ absurd (ground (arith, way.1 u))
          | inr more ↦ ground (arith, ih.1 more)
        ],
      )
    ]

contains-Declares :
    (c : AssetClassDef) (direction : Option String) (f : String)
    → (contains f (allowed_points c direction) ≡ true) ↔ Declares c.points direction f
contains-Declares c none f = Declares-any c.points f
contains-Declares c (some direction) f = Declares-directed c.points direction f

unknown_fields_iff :
    (cname : String) (c : AssetClassDef) (direction : Option String) (fields : List String)
    → (unknown_fields cname (allowed_points c direction) fields ≡ [])
      ↔ All (Declares c.points direction) fields
unknown_fields_iff cname c direction [] = (λ e. tt, λ h. refl)
unknown_fields_iff cname c direction (f ∷ fields) =
    let ih = unknown_fields_iff cname c direction fields in
    let one = contains-Declares c direction f in
    (λ e. (one.0 (ground arith), ih.0 (ground arith)), λ (h, hs). ground (arith, one.1 h, ih.1 hs))

-- Validation reports nothing exactly when the class is known and every field is one of its points,
-- of the given direction if there is one.
pub validate_fields_iff :
    (dm : DataModel) (asset_class : String) (fields : List String) (direction : Option String)
    → (validate_fields dm asset_class fields direction ≡ []) ↔ (
        (c : AssetClassDef) × (lookup asset_class dm.asset_classes ≡ some c)
        × All (Declares c.points direction) fields)
unfolding validate_fields
validate_fields_iff dm k fields direction = elim (Option-cases (lookup k dm.asset_classes)) [
  | inl e ↦ (λ h. absurd (ground arith), λ (c, ec, a). absurd (ground arith))
  | inr (c, e) ↦
      let ok = unknown_fields_iff k c direction fields in
      (
        λ h. (c, e, ok.0 (ground arith)),
        λ (c', e', a). rw (e', validate_fields) ((unknown_fields_iff k c' direction fields).1 a),
      )
]
