-- ===== src/Core/Aggregator/Tests.antt =====
-- Two batteries, one of which does not answer, in thousandths.
use edge_ems.Prelude.{◌≡◌, ◌↔◌, refl, some, List, [], ◌∷◌, String, listed}
use edge_ems.Prelude.Int.{ℤ, pos}
use edge_ems.Prelude.Dict.{Dict, lookup, contains}
use edge_ems.Float.Milli.{milli}
use edge_ems.Common.Points.{PointValue, good, comm_fail, Quality}
use edge_ems.Common.DataModel.Tests.{model}
use edge_ems.Core.Aggregator.{aggregate_point, aggregate_class}
use edge_ems.Core.Aggregator.Sources.{all_good, HasGood, aggregate_class-sources}

abbrev soc : ℤ → Quality → Dict (PointValue ℤ)
soc v q = ("soc_pct", record { value = some v; ts = pos 0; quality = q }) ∷ []

abbrev readings : Dict (Dict (PointValue ℤ))
readings =
    ("bess-01", soc (pos 50000) good)
    ∷ ("bess-02", soc (pos 80000) good)
    ∷ ("bess-03", soc (pos 90000) comm_fail)
    ∷ []

abbrev weights : Dict ℤ
weights = ("bess-01", pos 2000) ∷ []

-- 60 % from 50 % with weight 2 and 80 % with weight 1
weighted :
    aggregate_class "battery" model readings (some weights) (pos 7000)
    ≡ some (("soc_pct", record { value = some (pos 60000); ts = pos 7000; quality = good }) ∷ [])
unfolding aggregate_class aggregate_point
weighted = refl

aggregate_class-sources_example :
    (aggregate_class "battery" model (all_good readings) (some weights) (pos 7000)
      ≡ aggregate_class "battery" model readings (some weights) (pos 7000))
    × ((names : List String)
        → lookup "battery" model.aggregates ≡ some names
        → (out : Dict (PointValue ℤ)) × (aggregate_class "battery" model readings
              (some weights)
              (pos 7000)
            ≡ some out)
          × ((n : String) → contains n out ≡ listed n names)
          × ((n : String) (pv : PointValue ℤ)
              → lookup n out ≡ some pv
              → ((pv.quality ≡ good) ↔ HasGood n readings)
                × ((pv.quality ≡ comm_fail) ↔ (¬ HasGood n readings))))
aggregate_class-sources_example =
    aggregate_class-sources "battery" model readings (some weights) (pos 7000)
      ((refl, tt), ((refl, tt), ((refl, tt), tt)))
