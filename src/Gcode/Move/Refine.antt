-- ===== src/Gcode/Move/Refine.antt =====
-- The module with its base position, its speed factor and its extrude factor keeps to what a program's
-- commands say.
use klipper_go.Common.{Bool, true, false, Option, none, some, List, [], ◌∷◌, ◌≡◌, refl, ap, ◌∙◌}
use klipper_go.Common.Real.{Float}
use klipper_go.Gcode.Params.{Word, absent, blank, bad, value, le_f, float_given}
use klipper_go.Gcode.Move.{
  GCodeMove, move_axes, above_zero, take_speed, finish_move, apply_move_parameters,
}
use klipper_go.Gcode.Move.Commands.{
  MoveCommand, g1, g20, g21, m82, m83, g90, g91, m114, g92, m220, m221, set_gcode_offset,
  save_gcode_state, restore_gcode_state, project_ready, project_shutdown, set_position,
  activate_extruder, home_rails_end, set_move_transform, execute, execute_all,
}
use klipper_go.Gcode.Move.Factors.{set_each, set_bases, cmd_g92, cmd_m220, cmd_m221}
use klipper_go.Gcode.Move.States.{cmd_save_gcode_state}
use klipper_go.Gcode.Move.View.{IsExact, view, commanded, commanded_all, IsPlain, ArePlain, Scales}
use klipper_go.Gcode.Move.Goals.{speed-goal, move_axes-goal, set_bases-named, m220-view, m221-view}

module _ (R : Float) where
  open R use {F, zero_f, add_f, sub_f, mul_f, div_f}

  module _ (exact : IsExact R) where
    accepted-Scales :
        (refused : Bool) (v : F) (self : GCodeMove F)
        → Scales R self
        → Scales R (finish_move R (above_zero R refused v self)).0
    unfolding finish_move above_zero
    accepted-Scales true v self h = h
    accepted-Scales false v self h = h

    finish-Scales :
        (w : Word F) (self : GCodeMove F)
        → Scales R self
        → Scales R (finish_move R (take_speed R w self)).0
    unfolding take_speed finish_move
    finish-Scales absent self h = h
    finish-Scales blank self h = h
    finish-Scales (bad v) self h = h
    finish-Scales (value v) self h = accepted-Scales (le_f R v zero_f) v self h

    set_bases-Scales :
        (x y z e : Option F) (self : GCodeMove F)
        → Scales R self
        → Scales R (set_bases R x y z e self)
    unfolding set_bases set_each
    set_bases-Scales none none none none self h = h
    set_bases-Scales (some a) y z e self h = h
    set_bases-Scales x (some b) z e self h = h
    set_bases-Scales x y (some c) e self h = h
    set_bases-Scales x y z (some d) self h = h

    step-commanded :
        (c : MoveCommand F) (self : GCodeMove F)
        → IsPlain R c
        → Scales R self
        → Scales R (execute R c self).0
          × (view R (execute R c self).0 ≡ commanded R c (view R self))
    unfolding execute apply_move_parameters move_axes cmd_g92 cmd_m220 cmd_m221 cmd_save_gcode_state
        view commanded
    step-commanded (g1 w) self plain h = (
      finish-Scales w.f (move_axes R w self) h,
      speed-goal R exact w.f (move_axes R w self) h.1 ∙ move_axes-goal R exact w self h.0,
    )
    step-commanded g20 self plain h = (h, refl)
    step-commanded g21 self plain h = (h, refl)
    step-commanded m82 self plain h = (h, refl)
    step-commanded m83 self plain h = (h, refl)
    step-commanded g90 self plain h = (h, refl)
    step-commanded g91 self plain h = (h, refl)
    step-commanded m114 self plain h = (h, refl)
    step-commanded (g92 w) self plain h =
        let x = float_given R w.x in
        let y = float_given R w.y in
        let z = float_given R w.z in
        let e = float_given R w.e in
        (set_bases-Scales x y z e self h, set_bases-named R exact x y z e self h.0)
    step-commanded (m220 s) self plain h = ((h.0, plain), m220-view R exact s self plain)
    step-commanded (m221 s) self plain h = ((plain, h.1), m221-view R exact s self plain)
    step-commanded (save_gcode_state name) self plain h = (h, refl)
    step-commanded (set_gcode_offset w) self plain h = elim plain [ ]
    step-commanded (restore_gcode_state name move) self plain h = elim plain [ ]
    step-commanded (project_ready toolhead position) self plain h = elim plain [ ]
    step-commanded project_shutdown self plain h = elim plain [ ]
    step-commanded (set_position position) self plain h = elim plain [ ]
    step-commanded (activate_extruder position) self plain h = elim plain [ ]
    step-commanded (home_rails_end axes position) self plain h = elim plain [ ]
    step-commanded (set_move_transform force) self plain h = elim plain [ ]

    -- Whatever moves, modes, resets of the coordinates and factors a program gives, with sums that are
    -- exact and factors that divide exactly, the position and the speed that the module reports are
    -- those that the commands say: a coordinate of a move is gone to or added, as the mode says, `G92`
    -- names the place where the head is, and a change of a factor moves nothing. A move with a refused
    -- speed keeps its coordinates.
    pub execute_all-commanded_all :
        (cs : List (MoveCommand F)) (self : GCodeMove F)
        → ArePlain R cs
        → Scales R self
        → view R (execute_all R cs self) ≡ commanded_all R cs (view R self)
    unfolding execute_all commanded_all
    execute_all-commanded_all [] self plain h = refl
    execute_all-commanded_all (c ∷ cs) self (first, rest) h =
        let (scales, step) = step-commanded c self first h in
        execute_all-commanded_all cs (execute R c self).0 rest scales ∙ ap (commanded_all R cs) step
