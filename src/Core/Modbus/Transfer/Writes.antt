-- ===== src/Core/Modbus/Transfer/Writes.antt =====
-- The loop of a write over its points.
use edge_ems.Prelude.{
  ◌≡◌, refl, sym, ap, ◌∙◌, inl, inr, Bool-cases, Bool, true, false, Option, Option-cases, none,
  some, List, [], ◌∷◌, ℕ, String, arith, is_empty, str_eq, eq_iff,
}
use edge_ems.Prelude.Int.{ℤ}
use edge_ems.Prelude.Dict.{Dict, lookup, insert, contains, lookup-insert, IsDict, lookup_absent}
use edge_ems.Float.{Float}
use edge_ems.Common.RegisterMap.{RegisterDef}
use edge_ems.Common.ModbusCodec.{Wire}
use edge_ems.Core.Modbus.Link.{record_ok, record_failure}
use edge_ems.Core.Modbus.Transfer.{Client, Adapter, write_point, write_all, finish_write}

module _ {F : Type 0} ⦃d : Float F⦄ (wire : Wire F) (message : RegisterDef F → F → String)
    (client : Client) where
  abbrev pub text : Option (String × Bool) → Option String
  text none = none
  text (some (e, lost)) = some e

  unfoldable pub write_of :
      Dict (RegisterDef F) → List (ℕ × ℤ) → String → F → Option (String × Bool)
  write_of points cache n value = write_point wire message client cache (lookup n points) value

  -- the error of the point's own write, if it was asked for and fails
  abbrev pub error_of : Dict (RegisterDef F) → List (ℕ × ℤ) → String → Option F → Option String
  error_of points cache n none = none
  error_of points cache n (some value) = text (write_of points cache n value)

  abbrev pub after : Option String → Option String → Option String
  after none old = old
  after (some e) old = some e

  -- What the loop leaves of the adapter and of the errors.
  abbrev pub Reports : Adapter F → Dict String → Dict F → Adapter F × Dict String → Type 0
  Reports a errors values (b, errors') =
      (b.points ≡ a.points)
      × (b.sf_cache ≡ a.sf_cache)
      × ((n : String)
          → lookup n errors'
            ≡ after (error_of a.points a.sf_cache n (lookup n values)) (lookup n errors))

  after_absent :
      (points : Dict (RegisterDef F)) (cache : List (ℕ × ℤ)) (n name : String) (values : Dict F)
      (value : F) (old : Option String)
      → str_eq name n ≡ true
      → contains name values ≡ false
      → after (error_of points cache n (lookup n values)) old ≡ old
  after_absent points cache n name values value old same absent =
      let gone : lookup n values ≡ none =
        lookup_absent n values
          (ap (λ m. contains m values) (sym ((eq_iff name n).0 same)) ∙ absent) in
      rw gone refl

  entry_none :
      (points : Dict (RegisterDef F)) (cache : List (ℕ × ℤ)) (n name : String) (values : Dict F)
      (value : F) (old : Option String)
      → contains name values ≡ false
      → write_of points cache name value ≡ none
      → after (error_of points cache n (lookup n values)) old
        ≡ after (error_of points cache n (lookup n ((name, value) ∷ values))) old
  entry_none points cache n name values value old absent w = elim (Bool-cases (str_eq name n)) [
    | inl same ↦
        let mine = ap (λ m. write_of points cache m value) (sym ((eq_iff name n).0 same)) ∙ w in
        rw (same, mine) (after_absent points cache n name values value old same absent)
    | inr other ↦ rw other refl
  ]

  entry_some :
      (points : Dict (RegisterDef F)) (cache : List (ℕ × ℤ)) (n name : String) (values : Dict F)
      (value : F) (errors : Dict String) (e : String) (lost : Bool)
      → contains name values ≡ false
      → write_of points cache name value ≡ some (e, lost)
      → after (error_of points cache n (lookup n values)) (lookup n (insert name e errors))
        ≡ after (error_of points cache n (lookup n ((name, value) ∷ values))) (lookup n errors)
  entry_some points cache n name values value errors e lost absent w =
      elim (Bool-cases (str_eq name n)) [
        | inl same ↦
            let mine = ap (λ m. write_of points cache m value) (sym ((eq_iff name n).0 same)) ∙ w in
            let put : lookup n (insert name e errors) ≡ some e =
              rw (lookup-insert name n e errors, same) refl in
            rw (same, mine)
              (after_absent points cache n name values value (lookup n (insert name e errors)) same
                  absent
                ∙ put)
        | inr other ↦
            let kept : lookup n (insert name e errors) ≡ lookup n errors =
              rw (lookup-insert name n e errors, other) refl in
            rw (other, kept) refl
      ]

  pub write_all-Reports :
      (a : Adapter F) (errors : Dict String) (values : Dict F)
      → IsDict values
      → Reports a errors values (write_all wire message client a errors values)
  unfolding write_all write_of
  write_all-Reports a errors [] is = (refl, refl, λ n. refl)
  write_all-Reports a errors ((name, value) ∷ values) (absent, is) =
      elim (Option-cases (write_of a.points a.sf_cache name value)) [
        | inl w ↦
            let (p, c, rest) = write_all-Reports a errors values is in
            rw (w, write_all)
              (
                p,
                c,
                λ n.
                    rest n
                    ∙ entry_none a.points a.sf_cache n name values value (lookup n errors) absent w,
              )
        | inr ((e, lost), w) ↦ elim (Bool-cases lost) [
          | inl l ↦
              let (p, c, rest) =
                write_all-Reports (record a { link = record_failure a.link e })
                  (insert name e errors) values is in
              rw (w, write_all, l)
                (
                  p,
                  c,
                  λ n.
                      rest n
                      ∙ entry_some a.points a.sf_cache n name values value errors e lost absent w,
                )
          | inr k ↦
              let (p, c, rest) = write_all-Reports a (insert name e errors) values is in
              rw (w, write_all, k)
                (
                  p,
                  c,
                  λ n.
                      rest n
                      ∙ entry_some a.points a.sf_cache n name values value errors e lost absent w,
                )
        ]
      ]

  pub after-none : (new : Option String) → after new none ≡ new
  after-none none = refl
  after-none (some e) = refl

  pub finish_write_lem :
      (a : Adapter F) (errors : Dict String) (clock : F)
      → let (b, r) = finish_write wire message (a, errors) clock in
        (r.errors ≡ errors)
        × (r.ok ≡ is_empty errors)
        × (r.ok ≡ true
            → (b.link.health.connected ≡ true) × (b.link.health.consecutive_failures ≡ 0))
  unfolding record_ok
  finish_write_lem a [] clock = (refl, refl, λ e. (refl, refl))
  finish_write_lem a (x ∷ errors) clock = (refl, refl, λ e. absurd (ground arith))
