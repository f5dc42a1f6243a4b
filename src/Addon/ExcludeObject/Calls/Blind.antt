-- ===== src/Addon/ExcludeObject/Calls/Blind.antt =====
-- Which objects are excluded makes no difference to the moves.
use klipper_go.Common.{◌≡◌, List, ◌++◌}
use klipper_go.Common.Real.{Float}
use Prim.Native.String.{String}
use klipper_go.Addon.ExcludeObject.{Position, ExcludeObject}
use klipper_go.Addon.ExcludeObject.Calls.{Call, Output, call, calls}

abbrev with_excluded : {F : Type 0} → List String → ExcludeObject F → ExcludeObject F
with_excluded names self = record self { excluded_objects = names }

module _ (R : Float) where
  abbrev both :
      List String
      → ExcludeObject R.F × List (Position R.F)
      → ExcludeObject R.F × List (Position R.F)
  both names (self, moves) = (with_excluded names self, moves)

module _ (R : Float) (sort : List String → List String) (extruder : String) where
  -- The moves and the answers of a run.
  abbrev seen :
      List (Call R.F) → Position R.F → ExcludeObject R.F → Position R.F × List (Output R.F)
  seen cs at self = let (after, end, outputs) = calls R sort extruder cs at self in (end, outputs)

  abbrev behind :
      List (Output R.F) → Position R.F × List (Output R.F) → Position R.F × List (Output R.F)
  behind first (end, rest) = (end, first ++ rest)

  abbrev after_call :
      List (Call R.F)
      → ExcludeObject R.F × Position R.F × List (Output R.F)
      → Position R.F × List (Output R.F)
  after_call cs (after, at, first) = behind first (seen cs at after)

  -- A call that looks past the list of excluded objects.
  abbrev IsBlind : Call R.F → Position R.F → ExcludeObject R.F → Type 0
  IsBlind c at self =
      (names : List String)
      → call R sort extruder c at (with_excluded names self) ≡ (
        with_excluded names (call R sort extruder c at self).0,
        (call R sort extruder c at self).1,
        (call R sort extruder c at self).2,
      )
