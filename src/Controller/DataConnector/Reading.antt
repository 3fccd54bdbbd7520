-- ===== src/Controller/DataConnector/Reading.antt =====
-- What a read gives for a requested class, against the rows of the query.
use edge_ems.Prelude.{
  listed, ◌≡◌, ◌↔◌, refl, inl, inr, Bool, true, false, ◌&&◌, Option, Option-cases, none, some, List,
  [], ◌∷◌, String, str_eq, eq_iff, arith, is_empty, or_else, if◌then◌else◌,
}
use edge_ems.Prelude.Dict.{Dict, lookup, contains, insert, lookup-insert}
use edge_ems.Float.{Float, ◌≼◌, ◌-◌}
use edge_ems.Common.Points.{PointValue, good, stale}
use edge_ems.Common.DataModel.{DataModel, validate_fields}
use edge_ems.Controller.DataConnector.{
  Row, Reader, add_buckets, point_of, read_row, read_rows, read,
}

module _ {F : Type 0} ⦃d : Float F⦄ where
  -- The row is one of this canonical input field of this class.
  abbrev pub is_row_of : DataModel → String → String → Row F → Bool
  is_row_of dm c f row =
      str_eq row.asset_class c
      && (str_eq row.fld f
          && is_empty (validate_fields dm row.asset_class (row.fld ∷ []) (some "input")))

  -- The last such row.
  abbrev pub last_row : DataModel → String → String → List (Row F) → Option (Row F)
  last_row dm c f [] = none
  last_row dm c f (row ∷ rows) = elim (last_row dm c f rows) [
    | some later ↦ some later
    | none ↦ if is_row_of dm c f row then some row else none
  ]

  -- The point has the value and the time of the row, and is GOOD up to the timeout, STALE beyond.
  pub record IsReading (timeout_s now : F) (row : Row F) (p : PointValue F) : Type 0 where
    pub value : p.value ≡ some row.value
    pub time : p.ts ≡ row.ts
    pub fresh : (p.quality ≡ good) ↔ (now - row.ts ≼ timeout_s)
    pub old : (p.quality ≡ stale) ↔ (¬ (now - row.ts ≼ timeout_s))

  point_of-IsReading :
      (timeout_s now : F) (row : Row F)
      → IsReading timeout_s now row (point_of timeout_s now row.value row.ts)
  point_of-IsReading timeout_s now row = record {
    value = refl;
    time = refl;
    fresh = (λ e. ground arith, λ h. ground arith);
    old = (λ e h. absurd (ground arith), λ h. ground (arith, h));
  }

  -- The point of the last such row.
  abbrev last_point : Reader F → F → String → String → List (Row F) → Option (PointValue F)
  last_point r now c f [] = none
  last_point r now c f (row ∷ rows) = elim (last_point r now c f rows) [
    | some p ↦ some p
    | none ↦
        if is_row_of r.dm c f row then some (point_of r.timeout_s now row.value row.ts) else none
  ]

  last_point-last_row :
      (r : Reader F) (now : F) (c f : String) (rows : List (Row F))
      → last_point r now c f rows ≡ elim (last_row r.dm c f rows) [
        | none ↦ none
        | some row ↦ some (point_of r.timeout_s now row.value row.ts)
      ]
  last_point-last_row r now c f [] = refl
  last_point-last_row r now c f (row ∷ rows) = ground (arith, last_point-last_row r now c f rows)

  -- `out[c].get(f)`, with nothing for a class that is not there
  abbrev pub lookup2 : String → String → Dict (Dict (PointValue F)) → Option (PointValue F)
  lookup2 c f out = lookup f (or_else (lookup c out) [])

  lookup-read_row :
      (r : Reader F) (now : F) (out : Dict (Dict (PointValue F))) (row : Row F) (c f : String)
      → contains c out ≡ true
      → (contains c (read_row r now out row) ≡ true)
        × (lookup2 c f (read_row r now out row) ≡ (
            if is_row_of r.dm c f row
            then some (point_of r.timeout_s now row.value row.ts)
            else lookup2 c f out))
  lookup-read_row r now out row c f known = elim (Option-cases (lookup row.asset_class out)) [
    | inl e ↦ (ground (arith, eq_iff row.asset_class c), ground (arith, eq_iff row.asset_class c))
    | inr (bucket, e) ↦
        let bucket' = insert row.fld (point_of r.timeout_s now row.value row.ts) bucket in
        let outer = lookup-insert row.asset_class c bucket' out in
        let inner = lookup-insert row.fld f (point_of r.timeout_s now row.value row.ts) bucket in
        (
          ground (arith, outer, eq_iff row.asset_class c),
          ground (arith, outer, inner, eq_iff row.asset_class c, eq_iff row.fld f),
        )
  ]

  lookup-read_rows :
      (r : Reader F) (now : F) (out : Dict (Dict (PointValue F))) (rows : List (Row F))
      (c f : String)
      → contains c out ≡ true
      → (contains c (read_rows r now out rows) ≡ true)
        × (lookup2 c f (read_rows r now out rows)
            ≡ elim (last_point r now c f rows) [ some p ↦ some p | none ↦ lookup2 c f out ])
  lookup-read_rows r now out [] c f known = (known, refl)
  lookup-read_rows r now out (row ∷ rows) c f known =
      let one = lookup-read_row r now out row c f known in
      let rest = lookup-read_rows r now (read_row r now out row) rows c f one.0 in
      (rest.0, ground (arith, rest.1, one.1))

  lookup-add_buckets :
      (out : Dict (Dict (PointValue F))) (cs : List String) (c : String)
      → lookup c (add_buckets out cs) ≡ (if listed c cs then some [] else lookup c out)
  lookup-add_buckets out [] c = refl
  lookup-add_buckets out (k ∷ cs) c =
      ground (arith, lookup-add_buckets (insert k [] out) cs c, lookup-insert k c [] out)

  unknown-read_row :
      (r : Reader F) (now : F) (out : Dict (Dict (PointValue F))) (row : Row F) (c : String)
      → contains c out ≡ false
      → contains c (read_row r now out row) ≡ false
  unknown-read_row r now out row c h = elim (Option-cases (lookup row.asset_class out)) [
    | inl e ↦ ground arith
    | inr (bucket, e) ↦
        let outer =
          lookup-insert row.asset_class c
            (insert row.fld (point_of r.timeout_s now row.value row.ts) bucket) out in
        ground (arith, outer, eq_iff row.asset_class c)
  ]

  unknown-read_rows :
      (r : Reader F) (now : F) (out : Dict (Dict (PointValue F))) (rows : List (Row F)) (c : String)
      → contains c out ≡ false
      → contains c (read_rows r now out rows) ≡ false
  unknown-read_rows r now out [] c h = h
  unknown-read_rows r now out (row ∷ rows) c h =
      unknown-read_rows r now (read_row r now out row) rows c (unknown-read_row r now out row c h)

  -- For a requested class, every field of the result has the value and the time of the last row of
  -- that class and field, if the field is an input of the class in the data model, and is GOOD if the
  -- row is no older than the timeout and STALE otherwise; a field without such a row is not there, and
  -- neither is a class that was not requested.
  pub read-last :
      (r : Reader F) (classes : List String) (now : F) (rows : List (Row F)) (c f : String)
      → (listed c classes ≡ true
          → (contains c (read r classes now rows) ≡ true)
            × (last_row r.dm c f rows ≡ none → lookup2 c f (read r classes now rows) ≡ none)
            × ((row : Row F)
                → last_row r.dm c f rows ≡ some row
                → (p : PointValue F) × (lookup2 c f (read r classes now rows) ≡ some p)
                  × IsReading r.timeout_s now row p))
        × (listed c classes ≡ false → contains c (read r classes now rows) ≡ false)
  unfolding read
  read-last r classes now rows c f =
      let buckets = lookup-add_buckets [] classes c in
      (
        λ asked.
            let all =
              lookup-read_rows r now (add_buckets [] classes) rows c f (ground (arith, buckets)) in
            let last = last_point-last_row r now c f rows in
            (
              all.0,
              λ e. ground (arith, all.1, buckets, last),
              λ row e. (
                point_of r.timeout_s now row.value row.ts,
                ground (arith, all.1, buckets, last),
                point_of-IsReading r.timeout_s now row,
              ),
            ),
        λ other. unknown-read_rows r now (add_buckets [] classes) rows c (ground (arith, buckets)),
      )
