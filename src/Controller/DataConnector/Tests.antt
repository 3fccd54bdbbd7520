-- ===== src/Controller/DataConnector/Tests.antt =====
-- Reading and publishing at concrete inputs, in thousandths of a second.
use edge_ems.Prelude.{
  listed, ◌≡◌, refl, Bool, true, false, none, some, List, [], ◌∷◌, ℕ, String, str_eq, not,
  if◌then◌else◌,
}
use edge_ems.Prelude.Int.{ℤ, pos}
use edge_ems.Prelude.Dict.{lookup, IsDict, contains}
use edge_ems.Float.Milli.{milli}
use edge_ems.Common.Points.{PointValue, stale}
use edge_ems.Common.DataModel.{validate_fields}
use edge_ems.Common.DataModel.Tests.{model}
use edge_ems.Controller.DataConnector.{
  Row, Reader, read, Publisher, returned, flush, flush_pending, send,
}
use edge_ems.Controller.DataConnector.Reading.{lookup2, last_row, IsReading, read-last}
use edge_ems.Controller.DataConnector.Publishing.{send-queue}

abbrev reader : Reader ℤ
reader = record { dm = model; timeout_s = pos 2000 }

abbrev row : String → String → ℤ → ℤ → Row ℤ
row c f v t = record { asset_class = c; fld = f; value = v; ts = t }

-- an old row, a row of a field that is no input, and a row of a class that was not asked for
abbrev rows : List (Row ℤ)
rows =
    row "battery" "active_power_kw" (pos 7000) (pos 1000)
    ∷ row "battery" "active_power_setpoint_kw" (pos 9000) (pos 9000)
    ∷ row "pv" "active_power_kw" (pos 9000) (pos 9000)
    ∷ []

reads_one :
    read reader ("battery" ∷ []) (pos 9000) rows
    ≡ (
      "battery",
      ("active_power_kw", record { value = some (pos 7000); ts = pos 1000; quality = stale }) ∷ [],
    )
      ∷ []
unfolding read validate_fields
reads_one = refl

read-last_example :
    (listed "battery" ("battery" ∷ []) ≡ true
      → (contains "battery" (read reader ("battery" ∷ []) (pos 9000) rows) ≡ true)
        × (last_row model "battery" "active_power_kw" rows ≡ none
            → lookup2 "battery" "active_power_kw" (read reader ("battery" ∷ []) (pos 9000) rows)
              ≡ none)
        × ((newest : Row ℤ)
            → last_row model "battery" "active_power_kw" rows ≡ some newest
            → (p : PointValue ℤ) × (lookup2 "battery" "active_power_kw"
                  (read reader ("battery" ∷ []) (pos 9000) rows)
                ≡ some p)
              × IsReading reader.timeout_s (pos 9000) newest p))
    × (listed "battery" ("battery" ∷ []) ≡ false
        → contains "battery" (read reader ("battery" ∷ []) (pos 9000) rows) ≡ false)
read-last_example = read-last reader ("battery" ∷ []) (pos 9000) rows "battery" "active_power_kw"

-- Message 4 of the battery waits.
abbrev publisher : Publisher ℕ
publisher = record {
  dm = model;
  site_id = "site-1";
  version = "1.0";
  seq = 5;
  pending = ("battery", 4) ∷ ("pv", 3) ∷ [];
}

-- Once the broker is back, the waiting message goes out after the newer one of its topic.
older_after_newer :
    (send (λ t b. true) publisher "battery" 5).2 ≡ ("battery", 5) ∷ ("battery", 4) ∷ ("pv", 3) ∷ []
unfolding send flush_pending flush
older_after_newer = refl

abbrev takes_pv : String → ℕ → Bool
takes_pv t b = not (str_eq t "battery")

send-queue_example :
    let (p', outcome, sent) = send takes_pv publisher "flexible_load" 5 in
    IsDict p'.pending
    × (takes_pv "flexible_load" 5 ≡ true
        → (outcome ≡ returned true)
          × ((rest : List (String × ℕ)) × (sent ≡ ("flexible_load", 5) ∷ rest)
              × ((t : String) (b : ℕ)
                  → lookup t publisher.pending ≡ some b
                  → (lookup t p'.pending ≡ (if takes_pv t b then none else some b))
                    × (lookup t rest ≡ (if takes_pv t b then some b else none)))))
    × (takes_pv "flexible_load" 5 ≡ false
        → (outcome ≡ returned false)
          × (sent ≡ [])
          × ((t : String)
              → lookup t p'.pending
                ≡ (if str_eq "flexible_load" t then some 5 else lookup t publisher.pending)))
send-queue_example = send-queue takes_pv publisher "flexible_load" 5 (refl, (refl, tt))
