-- ===== src/Controller/DataConnector.antt =====
-- packages/controller/src/controller/data_connector.py: reading the aggregates and publishing the
-- setpoints. What the query gives and what the broker answers are arguments, and so are the clock,
-- the encoding of a message (`json.dumps`) and the ISO text of an instant. A broker that raises is
-- one that does not accept.
pub mod Reading
pub mod Publishing
mod Tests
use edge_ems.Prelude.{
  Bool, true, false, not, Option, none, some, List, [], ◌∷◌, ◌++◌, ℕ, suc, String, is_empty,
  or_else, if◌then◌else◌, length,
}
use edge_ems.Prelude.Int.{pos}
use edge_ems.Prelude.Dict.{Dict, lookup, insert, erase}
use edge_ems.Float.{Float, ◌-◌, leb, eqb}
use edge_ems.Common.Points.{PointValue, good, stale}
use edge_ems.Common.Json.{Json, Fields, obj, field, end, int, num, text}
use edge_ems.Common.DataModel.{DataModel, validate_fields}
use edge_ems.Common.Conformity.{PayloadError, validate_setpoint_payload, setpoint_topic}

pub record Row (F : Type 0) : Type 0 where
  pub asset_class : String
  pub fld : String
  pub value : F
  pub ts : F

pub record Reader (F : Type 0) : Type 0 where
  pub dm : DataModel
  pub timeout_s : F

module _ {F : Type 0} where
  abbrev pub add_buckets : Dict (Dict (PointValue F)) → List String → Dict (Dict (PointValue F))
  add_buckets out [] = out
  add_buckets out (c ∷ cs) = add_buckets (insert c [] out) cs

module _ {F : Type 0} ⦃d : Float F⦄ where
  -- a row as a point, with its quality
  abbrev pub point_of : F → F → F → F → PointValue F
  point_of timeout_s now value ts = record {
    value = some value;
    ts = ts;
    quality = if leb (now - ts) timeout_s then good else stale;
  }

  abbrev pub read_row :
      Reader F → F → Dict (Dict (PointValue F)) → Row F → Dict (Dict (PointValue F))
  read_row r now out row = elim (lookup row.asset_class out) [
    | none ↦ out
    | some bucket ↦
        if is_empty (validate_fields r.dm row.asset_class (row.fld ∷ []) (some "input"))
        then insert row.asset_class
            (insert row.fld (point_of r.timeout_s now row.value row.ts) bucket) out
        else out
  ]

  abbrev pub read_rows :
      Reader F → F → Dict (Dict (PointValue F)) → List (Row F) → Dict (Dict (PointValue F))
  read_rows r now out [] = out
  read_rows r now out (row ∷ rows) = read_rows r now (read_row r now out row) rows

  unfoldable pub read : Reader F → List String → F → List (Row F) → Dict (Dict (PointValue F))
  read r classes now rows = read_rows r now (add_buckets [] classes) rows

-- `B` is the type of an encoded message.
pub record Publisher (B : Type 0) : Type 0 where
  pub dm : DataModel
  pub site_id : String
  pub version : String
  pub seq : ℕ
  pub pending : Dict B  -- topic to the latest unsent message

-- how a publication ends: the ValueError, or whether the broker took the message
pub data Published : Type 0 where
  refused : List PayloadError → Published
  crashed : Published
  returned : Bool → Published

module _ {F : Type 0} where
  abbrev pub setpoint_fields : Dict F → Fields F
  setpoint_fields [] = end
  setpoint_fields ((k, v) ∷ sp) = field k (num v) (setpoint_fields sp)

  -- the payload, its time as a text
  abbrev pub payload : {B : Type 0} → Publisher B → String → Dict F → String → Json F
  payload p asset_class setpoints ts = obj (
      field "data_model_version" (text p.version) (
        field "site_id" (text p.site_id) (
          field "ts" (text ts) (
            field "seq" (int (pos p.seq)) (
              field "asset_class" (text asset_class)
                (field "setpoints" (obj (setpoint_fields setpoints)) end))))))

-- what is left to send, and what was sent, in order
unfoldable pub flush : {B : Type 0} → (String → B → Bool) → Dict B → Dict B × List (String × B)
flush accepts [] = ([], [])
flush accepts ((topic, body) ∷ pending) =
    let (left, sent) = flush accepts pending in
    if accepts topic body then (left, (topic, body) ∷ sent) else ((topic, body) ∷ left, sent)

abbrev pub advance : {B : Type 0} → Publisher B → Publisher B
advance p = record p { seq = suc p.seq }

unfoldable pub flush_pending :
    {B : Type 0} → (String → B → Bool) → Publisher B → Publisher B × List (String × B)
flush_pending accepts p =
    let (left, sent) = flush accepts p.pending in (record p { pending = left }, sent)

-- sending a message that has passed its checks
unfoldable pub send :
    {B : Type 0}
    → (String → B → Bool)
    → Publisher B
    → String
    → B
    → Publisher B × Published × List (String × B)
send accepts p topic body =
    if accepts topic body
    then (let (p', sent) = flush_pending accepts p in (p', returned true, (topic, body) ∷ sent))
    else (record p { pending = insert topic body p.pending }, returned false, [])

module _ {F : Type 0} ⦃d : Float F⦄ where
  -- `now or time.time()`
  abbrev pub stamp : Option F → F → F
  stamp none clock = clock
  stamp (some now) clock = if eqb now d.nought then clock else now

module _ {F B : Type 0} ⦃d : Float F⦄ (show : Json F → String) (isoformat : F → String)
    (dumps : Json F → B) where
  unfoldable pub publish_setpoints :
      (String → B → Bool)
      → Publisher B
      → String
      → Dict F
      → Option F
      → F
      → Publisher B × Published × List (String × B)
  publish_setpoints accepts p0 asset_class setpoints now clock =
      let p = advance p0 in
      let message = payload p asset_class setpoints (isoformat (stamp now clock)) in
      elim (validate_setpoint_payload show p.dm message) [
        | none ↦ (p, crashed, [])
        | some (e ∷ errors) ↦ (p, refused (e ∷ errors), [])
        | some [] ↦ send accepts p (setpoint_topic p.site_id asset_class) (dumps message)
      ]
