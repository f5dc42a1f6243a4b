-- ===== src/Gcode/Move/View.antt =====
-- The coordinates that a G-code program sees, and what its commands do to them. Of the commands and
-- events that are no part of a program `commanded` says nothing.
use klipper_go.Common.{
  Bool, true, false, not, ◌||◌, Option, none, some, List, [], ◌∷◌, if◌then◌else◌, ◌≡◌,
}
use klipper_go.Common.Real.{Float}
use klipper_go.Gcode.Params.{Word, absent, blank, bad, value, le_f, float_given}
use klipper_go.Gcode.Move.{GCodeMove, get_gcode_position, get_gcode_speed}
use klipper_go.Gcode.Move.Commands.{
  MoveCommand, g1, m82, m83, g90, g91, g92, m220, m221, set_gcode_offset, restore_gcode_state,
  project_ready, project_shutdown, set_position, activate_extruder, home_rails_end,
  set_move_transform,
}
use klipper_go.Gcode.Move.Factors.{speed_factor_of, factor_of}

module _ (R : Float) where
  open R use {F, zero_f, add_f, sub_f, mul_f, div_f}

  -- Exact sums.
  pub record IsExact : Type 0 where
    pub sub-add_same : (v b : F) → sub_f (add_f v b) b ≡ v
    pub sub-add : (l v b : F) → sub_f (add_f l v) b ≡ add_f (sub_f l b) v
    pub sub-sub : (l v : F) → sub_f l (sub_f l v) ≡ v
    pub sub_same : (l : F) → sub_f l l ≡ zero_f

  -- A factor that divides exactly what was multiplied by it.
  pub record IsScale (k : F) : Type 0 where
    pub div-mul : (v : F) → div_f (mul_f v k) k ≡ v
    pub div-add : (c v : F) → div_f (add_f c (mul_f v k)) k ≡ add_f (div_f c k) v
    pub div_zero : div_f zero_f k ≡ zero_f

  -- What the program sees.
  pub record View : Type 0 where
    pub absolute_coord : Bool
    pub absolute_extrude : Bool
    pub x : F
    pub y : F
    pub z : F
    pub e : F
    pub speed : F

  unfoldable pub view : GCodeMove F → View
  unfolding get_gcode_position get_gcode_speed
  view self = record {
    absolute_coord = self.absolute_coord;
    absolute_extrude = self.absolute_extrude;
    x = (get_gcode_position R self).x;
    y = (get_gcode_position R self).y;
    z = (get_gcode_position R self).z;
    e = (get_gcode_position R self).e;
    speed = get_gcode_speed R self;
  }

  -- A coordinate after a move: a value is where to go, or by how much.
  unfoldable pub goal : Bool → F → Word F → F
  goal relative at absent = at
  goal relative at blank = at
  goal relative at (bad v) = at
  goal true at (value v) = add_f at v
  goal false at (value v) = v

  unfoldable pub goal_speed : F → Word F → F
  goal_speed at absent = at
  goal_speed at blank = at
  goal_speed at (bad v) = at
  goal_speed at (value v) = if le_f R v zero_f then at else v

  unfoldable pub or_kept : Option F → F → F
  or_kept none at = at
  or_kept (some v) at = v

  -- `G92`: the coordinates given, or all zero.
  unfoldable pub named_each : Option F → Option F → Option F → Option F → View → View
  unfolding or_kept
  named_each x y z e at = record at {
    x = or_kept x at.x;
    y = or_kept y at.y;
    z = or_kept z at.z;
    e = or_kept e at.e;
  }

  unfoldable pub named : Option F → Option F → Option F → Option F → View → View
  unfolding named_each
  named none none none none at = record at { x = zero_f; y = zero_f; z = zero_f; e = zero_f }
  named x y z e at = named_each x y z e at

  unfoldable pub commanded : MoveCommand F → View → View
  unfolding goal goal_speed named
  commanded (g1 w) at = record at {
    x = goal (not at.absolute_coord) at.x w.x;
    y = goal (not at.absolute_coord) at.y w.y;
    z = goal (not at.absolute_coord) at.z w.z;
    e = goal (not at.absolute_coord || not at.absolute_extrude) at.e w.e;
    speed = goal_speed at.speed w.f;
  }
  commanded m82 at = record at { absolute_extrude = true }
  commanded m83 at = record at { absolute_extrude = false }
  commanded g90 at = record at { absolute_coord = true }
  commanded g91 at = record at { absolute_coord = false }
  commanded (g92 w) at =
      named (float_given R w.x) (float_given R w.y) (float_given R w.z) (float_given R w.e) at
  commanded other at = at

  unfoldable pub commanded_all : List (MoveCommand F) → View → View
  commanded_all [] at = at
  commanded_all (c ∷ cs) at = commanded_all cs (commanded c at)

  -- The commands of a program, with factors that scale exactly.
  abbrev pub IsPlain : MoveCommand F → Type 0
  IsPlain (m220 s) = IsScale (speed_factor_of R s)
  IsPlain (m221 s) = IsScale (factor_of R s)
  IsPlain (set_gcode_offset w) = ⊥
  IsPlain (restore_gcode_state name move) = ⊥
  IsPlain (project_ready toolhead position) = ⊥
  IsPlain project_shutdown = ⊥
  IsPlain (set_position position) = ⊥
  IsPlain (activate_extruder position) = ⊥
  IsPlain (home_rails_end axes position) = ⊥
  IsPlain (set_move_transform force) = ⊥
  IsPlain other = Unit

  abbrev pub ArePlain : List (MoveCommand F) → Type 0
  ArePlain [] = Unit
  ArePlain (c ∷ cs) = IsPlain c × ArePlain cs

  abbrev pub Scales : GCodeMove F → Type 0
  Scales self = IsScale self.extrude_factor × IsScale self.speed_factor
