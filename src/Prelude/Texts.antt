-- ===== src/Prelude/Texts.antt =====
-- Texts at the end of a text and in a list of texts.
use Prim.Native.String.{String, len, slice}
use Prim.Native.Nat.{◌-◌}
use mathlib.Core.Bool.{Bool, true, false}
use mathlib.Core.List.{List, [], ◌∷◌}
use text.Mathlib.Text.{◌==◌}
use edge_ems.Prelude.Tests.{if◌then◌else◌}

-- `s.endswith(t)`: the last `len(t)` characters, or all if there are fewer, are `t`.
abbrev pub str_ends_with : String → String → Bool
str_ends_with s t = slice s (len s - len t) (len s) == t

-- `k in ks`
abbrev pub listed : String → List String → Bool
listed k [] = false
listed k (j ∷ js) = let rest = listed k js in if j == k then true else rest
