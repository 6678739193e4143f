-- ===== src/Common/Value.antt =====
-- The values of the program's JSON-like dictionaries (`dict[str, Any]`).
use Prim.Native.Nat.{ℕ}
use Prim.Native.String.{String}
use mathlib.Core.Bool.{Bool}
use mathlib.Core.List.{List}

pub data Value (F : Type 0) : Type 0 where
  text : String → Value F
  int : ℕ → Value F
  number : F → Value F
  flag : Bool → Value F

-- A dictionary in insertion order.
abbrev pub Mapping : Type 0 → Type 0
Mapping F = List (String × Value F)
