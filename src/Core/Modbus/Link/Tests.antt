-- ===== src/Core/Modbus/Link/Tests.antt =====
-- A link that fails twice, in thousandths of a second.
use edge_ems.Prelude.{◌≡◌, refl, false, List, [], ◌∷◌}
use edge_ems.Prelude.Int.{ℤ, pos}
use edge_ems.Float.Milli.{milli}
use edge_ems.Core.Modbus.Link.{failed, new, connect, record_failure, ensure_connected}
use edge_ems.Core.Modbus.Link.Backoff.{Use, ensured, after}

abbrev history : List (Use ℤ)
history =
    ensured false (pos 3000) (failed "refused")
    ∷ ensured false (pos 1500) (failed "refused")
    ∷ ensured false (pos 1000) (failed "refused")
    ∷ []

-- The attempt within the first backoff is not made.
two_attempts :
    ((after (new (pos 30000)) history).backoff ≡ pos 4000)
    × ((after (new (pos 30000)) history).next_attempt ≡ pos 5000)
    × ((after (new (pos 30000)) history).health.consecutive_failures ≡ 2)
unfolding after new connect record_failure ensure_connected
two_attempts = (refl, refl, refl)
