-- ===== src/Gcode/Move.antt =====
-- gcode_move_module.go: the coordinates that G-code speaks of, over a parameter for floats. A slice of
-- positions is four coordinates. A call of the toolhead or of a move transform is an answer of the
-- command, a panic is an answer too, and the state that it leaves stays. What the toolhead reports as
-- its position comes with the event.
pub mod Events
pub mod Factors
pub mod Offset
pub mod States
pub mod Commands
pub mod View
pub mod Goals
pub mod Refine
pub mod Saved
mod Tests
use Prim.Native.String.{String}
use klipper_go.Common.{Bool, true, false, not, ◌||◌, Option, none, some, List, [], if◌then◌else◌}
use klipper_go.Common.Real.{Float}
use klipper_go.Gcode.Params.{Word, absent, blank, bad, value, le_f}

pub record Coords (F : Type 0) : Type 0 where
  pub x : F
  pub y : F
  pub z : F
  pub e : F

pub record SavedState (F : Type 0) : Type 0 where
  pub absolute_coord : Bool
  pub absolute_extrude : Bool
  pub base_position : Coords F
  pub last_position : Coords F
  pub homing_position : Coords F
  pub speed : F
  pub speed_factor : F
  pub extrude_factor : F

-- `has_transform` is `moveTransform != nil`, `connected` is `moveWithTransform != nil`.
pub record GCodeMove (F : Type 0) : Type 0 where
  pub is_printer_ready : Bool
  pub absolute_coord : Bool
  pub absolute_extrude : Bool
  pub base_position : Coords F
  pub last_position : Coords F
  pub homing_position : Coords F
  pub speed : F
  pub speed_factor : F
  pub extrude_factor : F
  pub saved_states : List (String × SavedState F)
  pub has_transform : Bool
  pub connected : Bool

-- What a command does beside its change of the state.
pub data Answer (F : Type 0) : Type 0 where
  done : Answer F
  moved : Coords F → F → Answer F
  reported : Coords F → Answer F
  unable_to_parse invalid_speed not_ready no_inches unknown_state nil_call no_toolhead : Answer F
  transform_taken : Answer F

-- The parameters of a move.
pub record Words (F : Type 0) : Type 0 where
  pub x : Word F
  pub y : Word F
  pub z : Word F
  pub e : Word F
  pub f : Word F

module _ (R : Float) where
  open R use {F, zero_f, lit, add_f, sub_f, mul_f, div_f}

  abbrev pub origin : Coords F
  origin = record { x = zero_f; y = zero_f; z = zero_f; e = zero_f }

  unfoldable pub new_gcode_move : GCodeMove F
  new_gcode_move = record {
    is_printer_ready = false;
    absolute_coord = true;
    absolute_extrude = true;
    base_position = origin;
    last_position = origin;
    homing_position = origin;
    speed = lit 25 1;
    speed_factor = lit 1 60;
    extrude_factor = lit 1 1;
    saved_states = [];
    has_transform = false;
    connected = false;
  }

  abbrev pub minus : Coords F → Coords F → Coords F
  minus a b = record { x = sub_f a.x b.x; y = sub_f a.y b.y; z = sub_f a.z b.z; e = sub_f a.e b.e }

  -- `_get_gcode_position`
  unfoldable pub get_gcode_position : GCodeMove F → Coords F
  get_gcode_position self =
      let p = minus self.last_position self.base_position in
      record p { e = div_f p.e self.extrude_factor }

  unfoldable pub get_gcode_speed : GCodeMove F → F
  get_gcode_speed self = div_f self.speed self.speed_factor

  unfoldable pub get_gcode_speed_override : GCodeMove F → F
  get_gcode_speed_override self = mul_f self.speed_factor (lit 60 1)

  -- One axis of a move: from the last position, the base and a value. A text that does not parse is
  -- passed over.
  unfoldable pub towards : Bool → F → F → F → F
  towards true last base v = add_f last v
  towards false last base v = add_f v base

  unfoldable pub move_axis : Bool → F → F → Word F → F
  move_axis relative last base absent = last
  move_axis relative last base blank = last
  move_axis relative last base (bad v) = last
  move_axis relative last base (value v) = towards relative last base v

  unfoldable pub move_extruder : Bool → F → F → F → Word F → F
  move_extruder relative factor last base absent = last
  move_extruder relative factor last base blank = last
  move_extruder relative factor last base (bad v) = last
  move_extruder relative factor last base (value v) = towards relative last base (mul_f v factor)

  unfoldable pub move_axes : Words F → GCodeMove F → GCodeMove F
  move_axes w self =
      let last = self.last_position in
      let base = self.base_position in
      record self {
        last_position = record {
          x = move_axis (not self.absolute_coord) last.x base.x w.x;
          y = move_axis (not self.absolute_coord) last.y base.y w.y;
          z = move_axis (not self.absolute_coord) last.z base.z w.z;
          e =
              move_extruder (not self.absolute_coord || not self.absolute_extrude)
                self.extrude_factor last.e base.e w.e;
        };
      }

  -- The speed of a move, and whether its text is refused.
  unfoldable pub above_zero : Bool → F → GCodeMove F → GCodeMove F × Option (Answer F)
  above_zero true v self = (self, some invalid_speed)
  above_zero false v self = (record self { speed = mul_f v self.speed_factor }, none)

  unfoldable pub take_speed : Word F → GCodeMove F → GCodeMove F × Option (Answer F)
  unfolding above_zero
  take_speed absent self = (self, none)
  take_speed blank self = (self, some unable_to_parse)
  take_speed (bad v) self = (self, some unable_to_parse)
  take_speed (value v) self = above_zero (le_f R v zero_f) v self

  unfoldable pub send : Bool → GCodeMove F → Answer F
  send true self = moved self.last_position self.speed
  send false self = not_ready

  unfoldable pub finish_move : GCodeMove F × Option (Answer F) → GCodeMove F × Answer F
  unfolding send
  finish_move (self, none) = (self, send self.connected self)
  finish_move (self, some refused) = (self, refused)

  -- `applyMoveParameters`
  unfoldable pub apply_move_parameters : Words F → GCodeMove F → GCodeMove F × Answer F
  unfolding move_axes take_speed finish_move
  apply_move_parameters w self = finish_move (take_speed w.f (move_axes w self))
