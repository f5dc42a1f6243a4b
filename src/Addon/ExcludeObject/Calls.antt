-- ===== src/Addon/ExcludeObject/Calls.antt =====
-- The calls of `ExcludeObject` in any order, with the transform: what its moves leave is the position
-- that it answers.
pub mod Blind
pub mod Place
pub mod Tracked
use klipper_go.Common.{Bool, true, false, Option, none, some, List, [], ◌∷◌, ◌++◌}
use klipper_go.Common.Real.{Float}
use Prim.Native.String.{String}
use klipper_go.Addon.ExcludeObject.{
  Position, ExcludeObject, start_object, end_object, exclude, unexclude, clear_excluded,
  get_position, move,
}

pub data Call (F : Type 0) : Type 0 where
  start_call : String → Call F
  end_call : Option String → Call F
  exclude_call unexclude_call : String → Call F
  clear_call : Call F
  ask_call : Call F
  move_call : Position F → Call F

-- What a call brings: a move of the transform, a position answered, a mismatched name.
pub data Output (F : Type 0) : Type 0 where
  moved : Position F → Output F
  answered : Option (Position F) → Output F
  mismatched : Bool → Output F

-- What is printed and asked, without the calls on the list of excluded objects.
unfoldable pub printing : {F : Type 0} → List (Call F) → List (Call F)
printing [] = []
printing (start_call name ∷ cs) = start_call name ∷ printing cs
printing (end_call name ∷ cs) = end_call name ∷ printing cs
printing (exclude_call name ∷ cs) = printing cs
printing (unexclude_call name ∷ cs) = printing cs
printing (clear_call ∷ cs) = printing cs
printing (ask_call ∷ cs) = ask_call ∷ printing cs
printing (move_call p ∷ cs) = move_call p ∷ printing cs

-- The position last asked for.
unfoldable pub asked : {F : Type 0} → Position F → List (Call F) → Position F
asked at [] = at
asked at (move_call p ∷ cs) = asked p cs
asked at (start_call name ∷ cs) = asked at cs
asked at (end_call name ∷ cs) = asked at cs
asked at (exclude_call name ∷ cs) = asked at cs
asked at (unexclude_call name ∷ cs) = asked at cs
asked at (clear_call ∷ cs) = asked at cs
asked at (ask_call ∷ cs) = asked at cs

-- Whether a call leaves the last move dropped.
abbrev pub drops : {F : Type 0} → Bool → Call F → List (Output F) → Bool
drops was (move_call p) [] = true
drops was (move_call p) (o ∷ os) = false
drops was other os = was

module _ (R : Float) (sort : List String → List String) (extruder : String) where
  -- The transform's position and its moves.
  unfoldable pub moved_to : Position R.F → List (Position R.F) → Position R.F × List (Output R.F)
  moved_to at [] = (at, [])
  moved_to at (p ∷ ps) = let (last, rest) = moved_to p ps in (last, moved p ∷ rest)

  unfoldable pub call :
      Call R.F
      → Position R.F
      → ExcludeObject R.F
      → ExcludeObject R.F × Position R.F × List (Output R.F)
  call (start_call name) at self = (start_object sort name self, at, [])
  call (end_call name) at self =
      let (after, wrong) = end_object name self in (after, at, mismatched wrong ∷ [])
  call (exclude_call name) at self = (exclude sort name self, at, [])
  call (unexclude_call name) at self = (unexclude sort name self, at, [])
  call clear_call at self = (clear_excluded self, at, [])
  call ask_call at self =
      let (after, here) = get_position R at extruder self in (after, at, answered here ∷ [])
  call (move_call p) at self =
      let (after, moves) = move R p extruder self in
      let (at', outputs) = moved_to at moves in (after, at', outputs)

  unfoldable pub calls :
      List (Call R.F)
      → Position R.F
      → ExcludeObject R.F
      → ExcludeObject R.F × Position R.F × List (Output R.F)
  unfolding call
  calls [] at self = (self, at, [])
  calls (c ∷ cs) at self =
      let (after, at', first) = call c at self in
      let (last, end, rest) = calls cs at' after in (last, end, first ++ rest)

  -- Whether the last move was dropped; `was` is how it was before.
  unfoldable pub last_dropped : Bool → List (Call R.F) → Position R.F → ExcludeObject R.F → Bool
  unfolding call
  last_dropped was [] at self = was
  last_dropped was (c ∷ cs) at self =
      let (after, at', outputs) = call c at self in last_dropped (drops was c outputs) cs at' after
