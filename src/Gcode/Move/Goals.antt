-- ===== src/Gcode/Move/Goals.antt =====
-- Each command brings the coordinates where it says.
use klipper_go.Common.{
  Bool, true, false, not, ◌||◌, Option, none, some, if◌then◌else◌, ◌≡◌, refl, ap, ◌∙◌,
}
use klipper_go.Common.Real.{Float}
use klipper_go.Gcode.Params.{Word, absent, blank, bad, value, le_f}
use klipper_go.Gcode.Move.{
  GCodeMove, Words, get_gcode_position, get_gcode_speed, towards, move_axis, move_extruder,
  move_axes, above_zero, take_speed, finish_move,
}
use klipper_go.Gcode.Move.Commands.{g1}
use klipper_go.Gcode.Move.Factors.{
  set_base, scaled, set_each, set_bases, speed_factor_of, cmd_m220, factor_of, cmd_m221,
}
use klipper_go.Gcode.Move.View.{
  IsExact, IsScale, view, goal, goal_speed, or_kept, named_each, named, commanded,
}

module _ (R : Float) where
  open R use {F, zero_f, add_f, sub_f, mul_f, div_f}

  module _ (exact : IsExact R) where
    axis-goal :
        (relative : Bool) (last base : F) (w : Word F)
        → sub_f (move_axis R relative last base w) base ≡ goal R relative (sub_f last base) w
    unfolding move_axis towards goal
    axis-goal relative last base absent = refl
    axis-goal relative last base blank = refl
    axis-goal relative last base (bad v) = refl
    axis-goal true last base (value v) = exact.sub-add last v base
    axis-goal false last base (value v) = exact.sub-add_same v base

    extruder-goal :
        (relative : Bool) (factor last base : F) (w : Word F)
        → IsScale R factor
        → div_f (sub_f (move_extruder R relative factor last base w) base) factor
          ≡ goal R relative (div_f (sub_f last base) factor) w
    unfolding move_extruder towards goal
    extruder-goal relative factor last base absent scale = refl
    extruder-goal relative factor last base blank scale = refl
    extruder-goal relative factor last base (bad v) scale = refl
    extruder-goal true factor last base (value v) scale =
        ap (λ c. div_f c factor) (exact.sub-add last (mul_f v factor) base)
        ∙ scale.div-add (sub_f last base) v
    extruder-goal false factor last base (value v) scale =
        ap (λ c. div_f c factor) (exact.sub-add_same (mul_f v factor) base) ∙ scale.div-mul v

    accepted-goal :
        (refused : Bool) (v : F) (self : GCodeMove F)
        → IsScale R self.speed_factor
        → view R (finish_move R (above_zero R refused v self)).0
          ≡ record (view R self) { speed = if refused then (view R self).speed else v }
    unfolding above_zero finish_move view get_gcode_position get_gcode_speed
    accepted-goal true v self scale = refl
    accepted-goal false v self scale = rw (scale.div-mul v) refl

    pub speed-goal :
        (w : Word F) (self : GCodeMove F)
        → IsScale R self.speed_factor
        → view R (finish_move R (take_speed R w self)).0
          ≡ record (view R self) { speed = goal_speed R (view R self).speed w }
    unfolding take_speed finish_move goal_speed
    speed-goal absent self scale = refl
    speed-goal blank self scale = refl
    speed-goal (bad v) self scale = refl
    speed-goal (value v) self scale = accepted-goal (le_f R v zero_f) v self scale

    pub move_axes-goal :
        (w : Words F) (self : GCodeMove F)
        → IsScale R self.extrude_factor
        → record (view R (move_axes R w self)) { speed = goal_speed R (view R self).speed w.f }
          ≡ commanded R (g1 w) (view R self)
    unfolding move_axes view get_gcode_position get_gcode_speed commanded
    move_axes-goal w self scale =
        let last = self.last_position in
        let base = self.base_position in
        rw
          (
            axis-goal (not self.absolute_coord) last.x base.x w.x,
            axis-goal (not self.absolute_coord) last.y base.y w.y,
            axis-goal (not self.absolute_coord) last.z base.z w.z,
            extruder-goal (not self.absolute_coord || not self.absolute_extrude) self.extrude_factor
                last.e base.e w.e scale,
          )
          refl

    base-kept :
        (o : Option F) (last base : F)
        → sub_f last (set_base R o last base) ≡ or_kept R o (sub_f last base)
    unfolding set_base or_kept
    base-kept none last base = refl
    base-kept (some v) last base = exact.sub-sub last v

    extruder_base-kept :
        (o : Option F) (factor last base : F)
        → IsScale R factor
        → div_f (sub_f last (set_base R (scaled R factor o) last base)) factor
          ≡ or_kept R o (div_f (sub_f last base) factor)
    unfolding set_base scaled or_kept
    extruder_base-kept none factor last base scale = refl
    extruder_base-kept (some v) factor last base scale =
        ap (λ c. div_f c factor) (exact.sub-sub last (mul_f v factor)) ∙ scale.div-mul v

    set_each-named :
        (x y z e : Option F) (self : GCodeMove F)
        → IsScale R self.extrude_factor
        → view R (set_each R x y z e self) ≡ named_each R x y z e (view R self)
    unfolding set_each view named_each get_gcode_position get_gcode_speed
    set_each-named x y z e self scale =
        let last = self.last_position in
        let base = self.base_position in
        rw
          (
            base-kept x last.x base.x,
            base-kept y last.y base.y,
            base-kept z last.z base.z,
            extruder_base-kept e self.extrude_factor last.e base.e scale,
          )
          refl

    pub set_bases-named :
        (x y z e : Option F) (self : GCodeMove F)
        → IsScale R self.extrude_factor
        → view R (set_bases R x y z e self) ≡ named R x y z e (view R self)
    unfolding set_bases view named get_gcode_position get_gcode_speed
    set_bases-named none none none none self scale =
        rw
          (
            exact.sub_same self.last_position.x,
            exact.sub_same self.last_position.y,
            exact.sub_same self.last_position.z,
            exact.sub_same self.last_position.e,
            scale.div_zero,
          )
          refl
    set_bases-named (some a) y z e self scale = set_each-named (some a) y z e self scale
    set_bases-named x (some b) z e self scale = set_each-named x (some b) z e self scale
    set_bases-named x y (some c) e self scale = set_each-named x y (some c) e self scale
    set_bases-named x y z (some d) self scale = set_each-named x y z (some d) self scale

    pub m220-view :
        (s : Word F) (self : GCodeMove F)
        → IsScale R (speed_factor_of R s)
        → view R (cmd_m220 R s self) ≡ view R self
    unfolding cmd_m220 view get_gcode_position get_gcode_speed
    m220-view s self scale = rw (scale.div-mul (div_f self.speed self.speed_factor)) refl

    pub m221-view :
        (s : Word F) (self : GCodeMove F)
        → IsScale R (factor_of R s)
        → view R (cmd_m221 R s self) ≡ view R self
    unfolding cmd_m221 view get_gcode_position get_gcode_speed
    m221-view s self scale =
        let old = div_f (sub_f self.last_position.e self.base_position.e) self.extrude_factor in
        rw (exact.sub-sub self.last_position.e (mul_f old (factor_of R s)), scale.div-mul old) refl
