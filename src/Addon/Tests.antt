-- ===== src/Addon/Tests.antt =====
-- The theorems on excluded objects at a concrete state, with integers as positions.
use klipper_go.Common.{ℕ, ◌≡◌, refl, true, false, none, some, List, [], ◌∷◌}
use klipper_go.Common.Int.{ℤ, pos}
use klipper_go.Common.Signed.{signed_numbers}
use Prim.Native.String.{String}
use klipper_go.Addon.ExcludeObject.{Position, ExcludeObject, start_object, move}
use klipper_go.Addon.ExcludeObject.Calls.{
  Call, start_call, end_call, exclude_call, unexclude_call, ask_call, move_call, calls, moved_to,
}

abbrev place : ℕ → Position ℤ
place n = record { x = pos n; y = pos n; z = pos 1; e = pos n }

abbrev unsorted : List String → List String
unsorted names = names

abbrev empty : ExcludeObject ℤ
empty = record {
  has_transform = false;
  last_position_extruded = place 0;
  last_position_excluded = place 0;
  objects = [];
  excluded_objects = [];
  current_object = none;
  in_excluded_region = false;
  last_position = place 0;
  extrusion_offsets = [];
  max_position_extruded = pos 0;
  max_position_excluded = pos 0;
  extruder_adj = pos 0;
  initial_extrusion_moves = 0;
}

abbrev attached : ExcludeObject ℤ
attached = record empty { has_transform = true; initial_extrusion_moves = 5 }

-- Five moves, a cube whose moves are dropped, and a move behind it.
abbrev a_print : List (Call ℤ)
a_print =
    move_call (place 1)
    ∷ move_call (place 2)
    ∷ move_call (place 3)
    ∷ move_call (place 4)
    ∷ move_call (place 5)
    ∷ start_call "cube"
    ∷ exclude_call "cube"
    ∷ move_call (place 6)
    ∷ move_call (place 7)
    ∷ end_call (some "cube")
    ∷ unexclude_call "cube"
    ∷ ask_call
    ∷ move_call (place 8)
    ∷ []

-- Nothing is excluded, and yet the moves of the cube are dropped.
cube_dropped :
    (calls signed_numbers unsorted "extruder"
      (start_call "cube" ∷ move_call (place 6) ∷ move_call (place 7) ∷ [])
      (place 5)
      (record empty { has_transform = true })).1
    ≡ place 5
unfolding calls moved_to move start_object
cube_dropped = refl
