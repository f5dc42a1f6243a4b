-- ===== src/Addon/ExcludeObject/Calls/Tracked.antt =====
-- The position that is answered is the one that was asked for.
use klipper_go.Common.{Bool, List}
use klipper_go.Common.Real.{Float}
use Prim.Native.String.{String}
use klipper_go.Addon.ExcludeObject.{Position, ExcludeObject}
use klipper_go.Addon.ExcludeObject.Calls.Place.{IsTracked, Holds, here as place}

module _ (R : Float) (sort : List String → List String) (extruder : String)
    (laws : IsTracked R) where
  abbrev here : Position R.F → ExcludeObject R.F → Position R.F
  here = place R sort extruder laws

  abbrev Tracks : Bool → Position R.F → Position R.F → ExcludeObject R.F → Type 0
  Tracks = Holds R sort extruder laws
