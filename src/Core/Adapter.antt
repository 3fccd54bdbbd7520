-- ===== src/Core/Adapter.antt =====
-- packages/core/src/core/adapters/base.py: the protocol between core and a device.
use edge_ems.Prelude.{Bool, String}
use edge_ems.Prelude.Dict.{Dict}

pub record WriteResult : Type 0 where
  pub ok : Bool
  pub errors : Dict String

-- how a call of `write_points` ends: a result, or an exception with its text
pub data Answer : Type 0 where
  wrote : WriteResult → Answer
  raised : String → Answer

-- Devices are outside the program: what they answer is an argument of every function that writes.
abbrev pub Devices : Type 0 → Type 0
Devices F = String → Dict F → Answer
