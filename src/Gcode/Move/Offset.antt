-- ===== src/Gcode/Move/Offset.antt =====
-- Cmd_SET_GCODE_OFFSET.
use klipper_go.Common.{Bool, true, false, Option, none, some}
use klipper_go.Common.Real.{Float}
use klipper_go.Gcode.Params.{Word, get_float, float_given, unbounded}
use klipper_go.Gcode.Move.{Coords, GCodeMove, Answer, done, moved, nil_call}
use klipper_go.Gcode.Move.Factors.{AxisWords}

-- `SET_GCODE_OFFSET`: X and X_ADJUST, and so on; `speed` is MOVE_SPEED with a MOVE that is not 0.
pub record OffsetWords (F : Type 0) : Type 0 where
  pub offset : AxisWords F
  pub adjust : AxisWords F
  pub move : Option (Word F)

module _ (R : Float) where
  open R use {F, zero_f, lit, add_f, sub_f, mul_f, div_f}

  -- The offset of one axis: the one given, or the change to the one that holds.
  unfoldable pub adjusted : Option F → F → Option F
  adjusted none homing = none
  adjusted (some change) homing = some (add_f change homing)

  unfoldable pub or_adjusted : Option F → Word F → F → Option F
  unfolding adjusted
  or_adjusted none adjust homing = adjusted (float_given R adjust) homing
  or_adjusted (some v) adjust homing = some v

  unfoldable pub offset_given : Word F → Word F → F → Option F
  unfolding or_adjusted
  offset_given offset adjust homing = or_adjusted (float_given R offset) adjust homing

  unfoldable pub delta_of : Option F → F → F
  delta_of none homing = zero_f
  delta_of (some v) homing = sub_f v homing

  unfoldable pub shift_base : Option F → F → F → F
  shift_base none homing base = base
  shift_base (some v) homing base = add_f base (sub_f v homing)

  unfoldable pub new_homing : Option F → F → F
  new_homing none homing = homing
  new_homing (some v) homing = v

  unfoldable pub plus : Coords F → Coords F → Coords F
  plus a b = record { x = add_f a.x b.x; y = add_f a.y b.y; z = add_f a.z b.z; e = add_f a.e b.e }

  -- The offsets that a command sets, by axis.
  pub record Offsets : Type 0 where
    pub x : Option F
    pub y : Option F
    pub z : Option F
    pub e : Option F

  unfoldable pub offsets_given : OffsetWords F → Coords F → Offsets
  unfolding offset_given
  offsets_given w homing = record {
    x = offset_given w.offset.x w.adjust.x homing.x;
    y = offset_given w.offset.y w.adjust.y homing.y;
    z = offset_given w.offset.z w.adjust.z homing.z;
    e = offset_given w.offset.e w.adjust.e homing.e;
  }

  unfoldable pub shift_bases : Offsets → GCodeMove F → GCodeMove F
  unfolding shift_base new_homing
  shift_bases o self =
      let base = self.base_position in
      let homing = self.homing_position in
      record self {
        base_position = record {
          x = shift_base o.x homing.x base.x;
          y = shift_base o.y homing.y base.y;
          z = shift_base o.z homing.z base.z;
          e = shift_base o.e homing.e base.e;
        };
        homing_position = record {
          x = new_homing o.x homing.x;
          y = new_homing o.y homing.y;
          z = new_homing o.z homing.z;
          e = new_homing o.e homing.e;
        };
      }

  unfoldable pub move_deltas : Offsets → Coords F → Coords F
  unfolding delta_of
  move_deltas o homing = record {
    x = delta_of o.x homing.x;
    y = delta_of o.y homing.y;
    z = delta_of o.z homing.z;
    e = delta_of o.e homing.e;
  }

  -- `moveWithTransform(self.lastPosition, speed)`
  unfoldable pub move_to : Bool → Coords F → F → Answer F
  move_to true position speed = moved position speed
  move_to false position speed = nil_call

  unfoldable pub move_offset : Option (Word F) → Coords F → GCodeMove F → GCodeMove F × Answer F
  unfolding plus move_to
  move_offset none delta self = (self, done)
  move_offset (some speed) delta self =
      let last = plus self.last_position delta in
      (
        record self { last_position = last },
        move_to self.connected last (get_float R speed self.speed (unbounded R)),
      )

  unfoldable pub cmd_set_gcode_offset : OffsetWords F → GCodeMove F → GCodeMove F × Answer F
  unfolding offsets_given shift_bases move_deltas move_offset
  cmd_set_gcode_offset w self =
      let o = offsets_given w self.homing_position in
      move_offset w.move (move_deltas o self.homing_position) (shift_bases o self)
