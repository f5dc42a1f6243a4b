-- ===== src/Gcode/Move/Factors.antt =====
-- G92, and the factors of speed and flow: Cmd_G92, Cmd_M220 and cmd_M221.
use klipper_go.Common.{Option, none, some}
use klipper_go.Common.Real.{Float}
use klipper_go.Gcode.Params.{Word, get_float, float_given, above_only}
use klipper_go.Gcode.Move.{GCodeMove, get_gcode_speed}

-- The parameters X Y Z E of a command.
pub record AxisWords (F : Type 0) : Type 0 where
  pub x : Word F
  pub y : Word F
  pub z : Word F
  pub e : Word F

module _ (R : Float) where
  open R use {F, zero_f, lit, add_f, sub_f, mul_f, div_f}

  -- `Cmd_G92`
  unfoldable pub set_base : Option F → F → F → F
  set_base none last base = base
  set_base (some v) last base = sub_f last v

  unfoldable pub scaled : F → Option F → Option F
  scaled factor none = none
  scaled factor (some v) = some (mul_f v factor)

  unfoldable pub set_each : Option F → Option F → Option F → Option F → GCodeMove F → GCodeMove F
  unfolding set_base scaled
  set_each x y z e self =
      let last = self.last_position in
      let base = self.base_position in
      record self {
        base_position = record {
          x = set_base x last.x base.x;
          y = set_base y last.y base.y;
          z = set_base z last.z base.z;
          e = set_base (scaled self.extrude_factor e) last.e base.e;
        };
      }

  unfoldable pub set_bases : Option F → Option F → Option F → Option F → GCodeMove F → GCodeMove F
  unfolding set_each
  set_bases none none none none self = record self { base_position = self.last_position }
  set_bases x y z e self = set_each x y z e self

  unfoldable pub cmd_g92 : AxisWords F → GCodeMove F → GCodeMove F
  unfolding set_bases
  cmd_g92 w self =
      set_bases (float_given R w.x) (float_given R w.y) (float_given R w.z) (float_given R w.e) self

  -- The factor that `M220` sets.
  unfoldable pub speed_factor_of : Word F → F
  speed_factor_of s =
      div_f (get_float R s (lit 100 1) (above_only R zero_f)) (mul_f (lit 60 1) (lit 100 1))

  unfoldable pub cmd_m220 : Word F → GCodeMove F → GCodeMove F
  unfolding get_gcode_speed
  cmd_m220 s self = record self {
    speed = mul_f (get_gcode_speed R self) (speed_factor_of s);
    speed_factor = speed_factor_of s;
  }

  -- The factor that `M221` sets.
  unfoldable pub factor_of : Word F → F
  factor_of s = div_f (get_float R s (lit 100 1) (above_only R zero_f)) (lit 100 1)

  unfoldable pub cmd_m221 : Word F → GCodeMove F → GCodeMove F
  cmd_m221 s self =
      let last = self.last_position.e in
      let e_value = div_f (sub_f last self.base_position.e) self.extrude_factor in
      record self {
        base_position = record self.base_position { e = sub_f last (mul_f e_value (factor_of s)) };
        extrude_factor = factor_of s;
      }
