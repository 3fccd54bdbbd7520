-- ===== src/Core/Modbus/Transfer/Writing.antt =====
-- What a write reports of each point.
use edge_ems.Prelude.{
  ◌≡◌, refl, sym, ap, ◌∙◌, inl, inr, Bool-cases, Bool, true, Option, Option-cases, none, some, List,
  [], ◌∷◌, ℕ, String, arith, is_empty, is_some, All, ◌⊎◌, ◌≢◌, subst,
}
use edge_ems.Prelude.Int.{ℤ}
use edge_ems.Prelude.Dict.{Dict, lookup, IsDict}
use edge_ems.Float.{Float}
use edge_ems.Common.RegisterMap.{RegisterDef, IsReadOnly, is_read_only, is_read_only_iff}
use edge_ems.Common.ModbusCodec.{Wire, Encoded, fits, unfit, no_size, holding_offset, encode}
use edge_ems.Core.Adapter.{WriteResult}
use edge_ems.Core.Modbus.Link.{Link, Attempt, ensure_connected}
use edge_ems.Core.Modbus.Transfer.{
  Client, Adapter, needed, fetch_all, sf_for, ensure_sf, write_all, names_of, finish_write,
  write_points,
}
use edge_ems.Core.Modbus.Transfer.Writes.{
  text, write_of, error_of, after-none, write_all-Reports, finish_write_lem,
}

module _ {F : Type 0} ⦃d : Float F⦄ (wire : Wire F) (message : RegisterDef F → F → String)
    (client : Client) where
  -- The error of a point of the map and its value: a register that is read only says so; a value with
  -- an address and words has the answer of its own request; any other has the text of the encoding.
  pub record IsExplained (cache : List (ℕ × ℤ)) (reg : RegisterDef F) (value : F)
      (error : Option String) : Type 0 where
    pub refused : IsReadOnly reg.rw → error ≡ some "register is read-only"
    pub sent :
        (off : ℕ) (words : List ℕ)
        → (¬ IsReadOnly reg.rw)
        → holding_offset reg.address ≡ some off
        → encode wire reg value (sf_for cache reg) ≡ fits words
        → error ≡ client.write_registers off words
    pub no_address :
        (¬ IsReadOnly reg.rw) → holding_offset reg.address ≡ none → error ≡ some (message reg value)
    pub no_words :
        (¬ IsReadOnly reg.rw)
        → ((words : List ℕ) → encode wire reg value (sf_for cache reg) ≢ fits words)
        → error ≡ some (message reg value)

  unfit_cases :
      (e : Encoded)
      → ((words : List ℕ) → e ≢ fits words)
      → ((raw : ℤ) × (e ≡ unfit raw)) ⊎ (e ≡ no_size)
  unfit_cases (fits words) ne = absurd (ne words refl)
  unfit_cases (unfit raw) ne = inl (raw, refl)
  unfit_cases no_size ne = inr refl

  -- the error that an answer to a write gives
  kept :
      (answer : Option String)
      → text wire message client (elim answer [ none ↦ none | some e ↦ some (e, true) ]) ≡ answer
  kept none = refl
  kept (some e) = refl

  write_of-IsExplained :
      (points : Dict (RegisterDef F)) (cache : List (ℕ × ℤ)) (n : String) (reg : RegisterDef F)
      (value : F)
      → lookup n points ≡ some reg
      → IsExplained cache reg value
          (text wire message client (write_of wire message client points cache n value))
  unfolding write_of
  write_of-IsExplained points cache n reg value known =
      let only = is_read_only_iff reg.rw in
      record {
        refused = λ h. let no = only.1 h in rw (known, write_of, no) refl;
        sent = λ off words may at enc. elim (Bool-cases (is_read_only reg.rw)) [
          | inl only_read ↦ absurd (may (only.0 only_read))
          | inr writable ↦
              rw (known, write_of, writable, at, enc) (kept (client.write_registers off words))
        ];
        no_address = λ may at. elim (Bool-cases (is_read_only reg.rw)) [
          | inl only_read ↦ absurd (may (only.0 only_read))
          | inr writable ↦ rw (known, write_of, writable, at) refl
        ];
        no_words = λ may enc. elim (Bool-cases (is_read_only reg.rw)) [
          | inl only_read ↦ absurd (may (only.0 only_read))
          | inr writable ↦ elim (Option-cases (holding_offset reg.address)) [
            | inl low ↦ rw (known, write_of, writable, low) refl
            | inr (off, at) ↦ elim (unfit_cases (encode wire reg value (sf_for cache reg)) enc) [
              | inl (raw, big) ↦ rw (known, write_of, writable, at, big) refl
              | inr sizeless ↦ rw (known, write_of, writable, at, sizeless) refl
            ]
          ]
        ];
      }

  needed_total :
      (points : Dict (RegisterDef F)) (cache : List (ℕ × ℤ)) (names : List String)
      → All (λ n. is_some (lookup n points) ≡ true) names
      → (addrs : List ℕ) × (needed points cache names ≡ some addrs)
  needed_total points cache [] h = ([], refl)
  needed_total points cache (n ∷ names) (here, h) = elim (Option-cases (lookup n points)) [
    | inl e ↦ absurd (ground arith)
    | inr (reg, e) ↦
        let (addrs, more) = needed_total points cache names h in
        elim (Option-cases (needed points cache (n ∷ names))) [
          | inl raised ↦ absurd (ground (arith, e, more))
          | inr found ↦ found
        ]
  ]

  ensure_sf_total :
      (a : Adapter F) (names : List String)
      → All (λ n. is_some (lookup n a.points) ≡ true) names
      → (cache : List (ℕ × ℤ)) × (ensure_sf client a names ≡ some (record a { sf_cache = cache }))
  unfolding ensure_sf
  ensure_sf_total a names h =
      let (addrs, e) = needed_total a.points a.sf_cache names h in
      (fetch_all client a.sf_cache addrs, rw e refl)

  -- A link that is up and points of the map: then a write returns. With the scale factors that it has
  -- read or already had, its report has for each point of the request the error that the point's own
  -- write has, whatever the other points do, and no error for any other name; it is ok exactly when it
  -- has no error, and then the link counts as connected with no failure.
  pub write_points-reports :
      (a : Adapter F) (alive : Bool) (now : F) (attempt : Attempt) (values : Dict F) (clock : F)
      (l : Link F)
      → IsDict values
      → ensure_connected a.link alive now attempt ≡ (l, true)
      → All (λ n. is_some (lookup n a.points) ≡ true) (names_of wire message values)
      → (cache : List (ℕ × ℤ)) × (b : Adapter F) × (report : WriteResult) × (ensure_sf client
            (record a { link = l })
            (names_of wire message values)
          ≡ some (record a { link = l; sf_cache = cache }))
        × (write_points wire message client a alive now attempt values clock ≡ (b, some report))
        × ((n : String) → lookup n values ≡ none → lookup n report.errors ≡ none)
        × ((n : String) (value : F) (reg : RegisterDef F)
            → lookup n values ≡ some value
            → lookup n a.points ≡ some reg
            → IsExplained cache reg value (lookup n report.errors))
        × (report.ok ≡ is_empty report.errors)
        × (report.ok ≡ true
            → (b.link.health.connected ≡ true) × (b.link.health.consecutive_failures ≡ 0))
  unfolding write_points
  write_points-reports a alive now attempt values clock l is up known =
      let (cache, sf) =
        ensure_sf_total (record a { link = l }) (names_of wire message values) known in
      let ready = record a { link = l; sf_cache = cache } in
      let done = write_all wire message client ready [] values in
      let (p, c, reports) = write_all-Reports wire message client ready [] values is in
      let (b, report) = finish_write wire message done clock in
      let (whole, ok, healthy) = finish_write_lem wire message client done.0 done.1 clock in
      let error : (n : String)
          → lookup n report.errors
            ≡ error_of wire message client a.points cache n (lookup n values) =
        λ n.
          ap (λ errors. lookup n errors) whole
          ∙ reports n
          ∙ after-none wire message client
              (error_of wire message client a.points cache n (lookup n values)) in
      (
        cache,
        b,
        report,
        sf,
        rw (up, write_points, sf) refl,
        λ n gone. error n ∙ ap (error_of wire message client a.points cache n) gone,
        λ n value reg there mapped.
            subst (IsExplained cache reg value)
              (sym (error n ∙ ap (error_of wire message client a.points cache n) there))
              (write_of-IsExplained a.points cache n reg value mapped),
        ok ∙ ap is_empty (sym whole),
        healthy,
      )
