-- ===== src/Gcode/Move/States.antt =====
-- Cmd_SAVE_GCODE_STATE and Cmd_RESTORE_GCODE_STATE.
use Prim.Native.String.{String}
use klipper_go.Common.{Option, none, some}
use klipper_go.Common.Assoc.{lookup, insert}
use klipper_go.Common.Real.{Float}
use klipper_go.Gcode.Params.{Word, get_float, above_only}
use klipper_go.Gcode.Move.{SavedState, GCodeMove, Answer, done, unknown_state}
use klipper_go.Gcode.Move.Offset.{move_to}

module _ (R : Float) where
  open R use {F, zero_f, lit, add_f, sub_f, mul_f, div_f}

  unfoldable pub saved_state : GCodeMove F → SavedState F
  saved_state self = record {
    absolute_coord = self.absolute_coord;
    absolute_extrude = self.absolute_extrude;
    base_position = self.base_position;
    last_position = self.last_position;
    homing_position = self.homing_position;
    speed = self.speed;
    speed_factor = self.speed_factor;
    extrude_factor = self.extrude_factor;
  }

  unfoldable pub cmd_save_gcode_state : String → GCodeMove F → GCodeMove F
  unfolding saved_state
  cmd_save_gcode_state name self = record self {
    saved_states = insert name (saved_state self) self.saved_states;
  }

  unfoldable pub restored : SavedState F → GCodeMove F → GCodeMove F
  restored state self = record self {
    absolute_coord = state.absolute_coord;
    absolute_extrude = state.absolute_extrude;
    base_position = record state.base_position {
      e = add_f state.base_position.e (sub_f self.last_position.e state.last_position.e);
    };
    homing_position = state.homing_position;
    speed = state.speed;
    speed_factor = state.speed_factor;
    extrude_factor = state.extrude_factor;
  }

  unfoldable pub move_back : Option (Word F) → SavedState F → GCodeMove F → GCodeMove F × Answer F
  unfolding move_to
  move_back none state self = (self, done)
  move_back (some speed) state self =
      let last = record state.last_position { e = self.last_position.e } in
      (
        record self { last_position = last },
        move_to R self.connected last (get_float R speed self.speed (above_only R zero_f)),
      )

  unfoldable pub restore_from :
      Option (SavedState F) → Option (Word F) → GCodeMove F → GCodeMove F × Answer F
  unfolding restored move_back
  restore_from none move self = (self, unknown_state)
  restore_from (some state) move self = move_back move state (restored state self)

  unfoldable pub cmd_restore_gcode_state :
      String → Option (Word F) → GCodeMove F → GCodeMove F × Answer F
  unfolding restore_from
  cmd_restore_gcode_state name move self = restore_from (lookup name self.saved_states) move self
