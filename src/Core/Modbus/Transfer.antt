-- ===== src/Core/Modbus/Transfer.antt =====
-- packages/core/src/core/adapters/modbus_tcp.py: scale factors, reads and writes of the adapter. The
-- client's answers, the clocks and the texts of the exceptions that an encoding raises are arguments;
-- `none` is an exception of the call itself.
pub mod Image
pub mod Blocks
pub mod Reading
pub mod Agreement
pub mod Writes
pub mod Writing
pub mod Unknown
mod Tests
use Prim.Native.Nat.{◌-◌}
use edge_ems.Prelude.{
  Bool, true, false, Option, none, some, List, [], ◌∷◌, ℕ, String, is_some, is_empty, ◌==◌, take,
  drop, if◌then◌else◌, ◌>>=◌,
}
use edge_ems.Prelude.Int.{ℤ}
use edge_ems.Prelude.Dict.{Dict, lookup, insert}
use edge_ems.Float.{Float}
use edge_ems.Common.Points.{PointValue, good, comm_fail}
use edge_ems.Common.RegisterMap.{RegisterDef, Access, is_read_only, sunssf}
use edge_ems.Common.ModbusCodec.{
  Wire, Encoded, fits, unfit, no_size, holding_offset, words_to_int, encode, decode,
}
use edge_ems.Core.Adapter.{WriteResult}
use edge_ems.Core.Modbus.Link.{Link, Attempt, record_ok, record_failure, ensure_connected}
use edge_ems.Core.Modbus.Plan.{Item, ReadBlock, plan_reads}

-- how a request to the device ends: its answer, or the text of the error
pub data Reply (A : Type 0) : Type 0 where
  answered : A → Reply A
  erred : String → Reply A

pub record Client : Type 0 where
  pub read_registers : ℕ → ℕ → Reply (List ℕ)
  pub write_registers : ℕ → List ℕ → Option String

pub record Adapter (F : Type 0) : Type 0 where
  pub link : Link F
  pub points : Dict (RegisterDef F)
  pub max_gap : ℕ
  pub sf_cache : List (ℕ × ℤ)

abbrev pub cached : ℕ → List (ℕ × ℤ) → Option ℤ
cached addr [] = none
cached addr ((a, sf) ∷ cache) = if a == addr then some sf else cached addr cache

abbrev pub has : ℕ → List ℕ → Bool
has a [] = false
has a (b ∷ bs) = let rest = has a bs in if b == a then true else rest

module _ {F : Type 0} where
  -- the set `need`; `none` is the KeyError of an unknown name
  abbrev pub needed : Dict (RegisterDef F) → List (ℕ × ℤ) → List String → Option (List ℕ)
  needed points cache [] = some []
  needed points cache (n ∷ names) = do
    reg ← lookup n points
    rest ← needed points cache names
    some (elim reg.sf_address [
      | none ↦ rest
      | some addr ↦
          if is_some (cached addr cache) then rest else if has addr rest then rest else addr ∷ rest
    ])

-- A scale factor that cannot be read is left out.
abbrev pub fetch : Client → List (ℕ × ℤ) → ℕ → Option ℕ → List (ℕ × ℤ)
fetch client cache addr none = cache
fetch client cache addr (some off) = elim (client.read_registers off 1) [
  | erred e ↦ cache
  | answered words ↦ elim (words_to_int sunssf words) [
    | none ↦ cache
    | some sf ↦ (addr, sf) ∷ cache
  ]
]

abbrev pub fetch_all : Client → List (ℕ × ℤ) → List ℕ → List (ℕ × ℤ)
fetch_all client cache [] = cache
fetch_all client cache (addr ∷ addrs) =
    fetch_all client (fetch client cache addr (holding_offset addr)) addrs

module _ {F : Type 0} where
  unfoldable pub ensure_sf : Client → Adapter F → List String → Option (Adapter F)
  ensure_sf client a names = do
    addrs ← needed a.points a.sf_cache names
    some (record a { sf_cache = fetch_all client a.sf_cache addrs })

  abbrev pub sf_for : List (ℕ × ℤ) → RegisterDef F → Option ℤ
  sf_for cache reg = elim reg.sf_address [ none ↦ none | some addr ↦ cached addr cache ]

module _ {F : Type 0} ⦃d : Float F⦄ (wire : Wire F) where
  abbrev pub good_point : F → F → PointValue F
  good_point ts v = record { value = some v; ts = ts; quality = good }

  abbrev pub failed_point : F → PointValue F
  failed_point ts = record { value = none; ts = ts; quality = comm_fail }

  abbrev pub fail_points : F → List (Item F) → Dict (PointValue F) → Dict (PointValue F)
  fail_points ts [] out = out
  fail_points ts (x ∷ xs) out = fail_points ts xs (insert x.name (failed_point ts) out)

  abbrev pub words_at : ℕ → List ℕ → Item F → List ℕ
  words_at start words x = take x.wide (drop (x.off - start) words)

  -- the points of a block that was read; `none` is an exception of a decoding
  abbrev pub decode_points :
      F
      → List (ℕ × ℤ)
      → ℕ
      → List ℕ
      → List (Item F)
      → Dict (PointValue F)
      → Option (Dict (PointValue F))
  decode_points ts cache start words [] out = some out
  decode_points ts cache start words (x ∷ xs) out = do
    v ← decode wire x.reg (words_at start words x) (sf_for cache x.reg)
    decode_points ts cache start words xs (insert x.name (good_point ts v) out)

  unfoldable pub read_blocks :
      Client
      → F
      → List (ℕ × ℤ)
      → Link F
      → Dict (PointValue F)
      → List (ReadBlock F)
      → Link F × Option (Dict (PointValue F))
  read_blocks client ts cache l out [] = (l, some out)
  read_blocks client ts cache l out (b ∷ bs) = elim (client.read_registers b.start b.count) [
    | erred e ↦ read_blocks client ts cache (record_failure l e) (fail_points ts b.points out) bs
    | answered words ↦ elim (decode_points ts cache b.start words b.points out) [
      | none ↦ (l, none)
      | some out' ↦ read_blocks client ts cache (record_ok l ts) out' bs
    ]
  ]

  abbrev pub fail_names : F → List String → Dict (PointValue F)
  fail_names ts [] = []
  fail_names ts (n ∷ names) = insert n (failed_point ts) (fail_names ts names)

  -- the read on a link that is up
  unfoldable pub read_connected :
      Client → Adapter F → List String → F → Adapter F × Option (Dict (PointValue F))
  read_connected client a names ts = elim (ensure_sf client a names) [
    | none ↦ (a, none)
    | some a' ↦ elim (plan_reads a'.points names a'.max_gap) [
      | none ↦ (a', none)
      | some blocks ↦
          let (l, out) = read_blocks client ts a'.sf_cache a'.link [] blocks in
          (record a' { link = l }, out)
    ]
  ]

  unfoldable pub read_points :
      Client
      → Adapter F
      → Bool
      → F
      → Attempt
      → List String
      → F
      → Adapter F × Option (Dict (PointValue F))
  read_points client a alive now attempt names ts =
      let (l, ok) = ensure_connected a.link alive now attempt in
      let a' = record a { link = l } in
      if ok then read_connected client a' names ts else (a', some (fail_names ts names))

  module _ (message : RegisterDef F → F → String) where
    abbrev pub prepared : RegisterDef F → F → Option ℤ → Option (ℕ × List ℕ)
    prepared reg value sf = do
      off ← holding_offset reg.address
      elim (encode wire reg value sf) [
        | fits words ↦ some (off, words)
        | unfit raw ↦ none
        | no_size ↦ none
      ]

    -- the error of one write, and whether it counts as a failure of the link
    abbrev pub write_point :
        Client → List (ℕ × ℤ) → Option (RegisterDef F) → F → Option (String × Bool)
    write_point client cache none value = some ("unknown point", false)
    write_point client cache (some reg) value =
        if is_read_only reg.rw
        then some ("register is read-only", false)
        else elim (prepared reg value (sf_for cache reg)) [
          | none ↦ some (message reg value, true)
          | some (off, words) ↦ elim (client.write_registers off words) [
            | none ↦ none
            | some e ↦ some (e, true)
          ]
        ]

    unfoldable pub write_all : Client → Adapter F → Dict String → Dict F → Adapter F × Dict String
    write_all client a errors [] = (a, errors)
    write_all client a errors ((name, value) ∷ values) =
        elim (write_point client a.sf_cache (lookup name a.points) value) [
          | none ↦ write_all client a errors values
          | some (e, lost) ↦
              write_all client (if lost then record a { link = record_failure a.link e } else a)
                (insert name e errors) values
        ]

    abbrev pub names_of : Dict F → List String
    names_of [] = []
    names_of ((n, _) ∷ values) = n ∷ names_of values

    abbrev pub not_connected : Dict F → Dict String
    not_connected [] = []
    not_connected ((n, _) ∷ values) = (n, "not connected") ∷ not_connected values

    abbrev pub finish_write : Adapter F × Dict String → F → Adapter F × WriteResult
    finish_write (a, errors) clock =
        if is_empty errors
        then (record a { link = record_ok a.link clock }, record { ok = true; errors = errors })
        else (a, record { ok = false; errors = errors })

    unfoldable pub write_points :
        Client → Adapter F → Bool → F → Attempt → Dict F → F → Adapter F × Option WriteResult
    write_points client a alive now attempt values clock =
        let (l, ok) = ensure_connected a.link alive now attempt in
        let a' = record a { link = l } in
        if ok
        then (elim (ensure_sf client a' (names_of values)) [
          | none ↦ (a', none)
          | some b ↦ let (b', r) = finish_write (write_all client b [] values) clock in (b', some r)
        ])
        else (a', some (record { ok = false; errors = not_connected values }))
