-- ===== src/Gcode/Move/Commands.antt =====
-- The commands and the events of gcode_move_module.go.
use Prim.Native.String.{String}
use klipper_go.Common.{Bool, true, false, not, ◌&&◌, Option, List, [], ◌∷◌}
use klipper_go.Common.Real.{Float}
use klipper_go.Gcode.Params.{Word}
use klipper_go.Gcode.Move.{
  Coords, GCodeMove, Answer, done, reported, no_inches, Words, get_gcode_position,
  apply_move_parameters,
}
use klipper_go.Gcode.Move.Events.{
  Axis, handle_activate_extruder, handle_home_rails_end, handle_ready, handle_shutdown,
  reset_last_position, take_transform,
}
use klipper_go.Gcode.Move.Factors.{AxisWords, cmd_g92, cmd_m220, cmd_m221}
use klipper_go.Gcode.Move.Offset.{OffsetWords, cmd_set_gcode_offset}
use klipper_go.Gcode.Move.States.{cmd_restore_gcode_state, cmd_save_gcode_state}

pub data MoveCommand (F : Type 0) : Type 0 where
  g1 : Words F → MoveCommand F
  g20 g21 m82 m83 g90 g91 m114 : MoveCommand F
  g92 : AxisWords F → MoveCommand F
  m220 m221 : Word F → MoveCommand F
  set_gcode_offset : OffsetWords F → MoveCommand F
  save_gcode_state : String → MoveCommand F
  restore_gcode_state : String → Option (Word F) → MoveCommand F
  project_ready : Bool → Coords F → MoveCommand F
  project_shutdown : MoveCommand F
  set_position : Coords F → MoveCommand F
  activate_extruder : Coords F → MoveCommand F
  home_rails_end : List Axis → Coords F → MoveCommand F
  set_move_transform : Bool → MoveCommand F

module _ (R : Float) where
  open R use {F, zero_f, lit, add_f, sub_f, mul_f, div_f}

  -- A command or an event.
  unfoldable pub execute : MoveCommand F → GCodeMove F → GCodeMove F × Answer F
  unfolding handle_shutdown reset_last_position take_transform
  execute (g1 w) self = apply_move_parameters R w self
  execute g20 self = (self, no_inches)
  execute g21 self = (self, done)
  execute m82 self = (record self { absolute_extrude = true }, done)
  execute m83 self = (record self { absolute_extrude = false }, done)
  execute g90 self = (record self { absolute_coord = true }, done)
  execute g91 self = (record self { absolute_coord = false }, done)
  execute m114 self = (self, reported (get_gcode_position R self))
  execute (g92 w) self = (cmd_g92 R w self, done)
  execute (m220 s) self = (cmd_m220 R s self, done)
  execute (m221 s) self = (cmd_m221 R s self, done)
  execute (set_gcode_offset w) self = cmd_set_gcode_offset R w self
  execute (save_gcode_state name) self = (cmd_save_gcode_state R name self, done)
  execute (restore_gcode_state name move) self = cmd_restore_gcode_state R name move self
  execute (project_ready toolhead position) self = handle_ready R toolhead position self
  execute project_shutdown self = (handle_shutdown R self, done)
  execute (set_position position) self = (reset_last_position R position self, done)
  execute (activate_extruder position) self = (handle_activate_extruder R position self, done)
  execute (home_rails_end axes position) self = (handle_home_rails_end R axes position self, done)
  execute (set_move_transform force) self = take_transform R (self.has_transform && not force) self

  -- The state after commands, a panic ending only its own command.
  unfoldable pub execute_all : List (MoveCommand F) → GCodeMove F → GCodeMove F
  execute_all [] self = self
  execute_all (c ∷ cs) self = execute_all cs (execute c self).0
