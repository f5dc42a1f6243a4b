-- ===== src/Gcode/Move/Events.antt =====
-- The events that gcode_move_module.go listens to, and the transform of moves.
use klipper_go.Common.{Bool, true, false, List, [], ◌∷◌}
use klipper_go.Common.Real.{Float}
use klipper_go.Gcode.Move.{Coords, GCodeMove, Answer, done, no_toolhead, transform_taken}

pub data Axis : Type 0 where
  x_axis y_axis z_axis e_axis : Axis

module _ (R : Float) where
  open R use {F, zero_f, lit, add_f, sub_f, mul_f, div_f}

  -- `Reset_last_position`, with what the toolhead or the transform reports.
  unfoldable pub reset_if : Bool → Coords F → GCodeMove F → GCodeMove F
  reset_if true position self = record self { last_position = position }
  reset_if false position self = self

  unfoldable pub reset_last_position : Coords F → GCodeMove F → GCodeMove F
  unfolding reset_if
  reset_last_position position self = reset_if self.is_printer_ready position self

  unfoldable pub connect_toolhead : Bool → GCodeMove F → GCodeMove F
  connect_toolhead true self = self
  connect_toolhead false self = record self { connected = true }

  unfoldable pub handle_ready : Bool → Coords F → GCodeMove F → GCodeMove F × Answer F
  unfolding connect_toolhead reset_last_position
  handle_ready false position self = (record self { is_printer_ready = true }, no_toolhead)
  handle_ready true position self = (
    reset_last_position position
        (connect_toolhead self.has_transform (record self { is_printer_ready = true })),
    done,
  )

  unfoldable pub handle_shutdown : GCodeMove F → GCodeMove F
  handle_shutdown self = record self { is_printer_ready = false }

  unfoldable pub handle_activate_extruder : Coords F → GCodeMove F → GCodeMove F
  unfolding reset_last_position
  handle_activate_extruder position self =
      let self' = reset_last_position position self in
      record self' {
        extrude_factor = lit 1 1;
        base_position = record self'.base_position { e = self'.last_position.e };
      }

  unfoldable pub home_axis : Axis → Coords F → Coords F → Coords F
  home_axis x_axis homing base = record base { x = homing.x }
  home_axis y_axis homing base = record base { y = homing.y }
  home_axis z_axis homing base = record base { z = homing.z }
  home_axis e_axis homing base = record base { e = homing.e }

  unfoldable pub home_axes : List Axis → Coords F → Coords F → Coords F
  unfolding home_axis
  home_axes [] homing base = base
  home_axes (axis ∷ axes) homing base = home_axes axes homing (home_axis axis homing base)

  unfoldable pub handle_home_rails_end : List Axis → Coords F → GCodeMove F → GCodeMove F
  unfolding reset_last_position home_axes
  handle_home_rails_end axes position self =
      let self' = reset_last_position position self in
      record self' { base_position = home_axes axes self'.homing_position self'.base_position }

  -- `Set_move_transform`; the transform that it gives back is left out.
  unfoldable pub take_transform : Bool → GCodeMove F → GCodeMove F × Answer F
  take_transform true self = (self, transform_taken)
  take_transform false self = (record self { has_transform = true; connected = true }, done)
