-- ===== src/Gcode/Move/Saved.antt =====
-- Saving the state of the coordinates and restoring it, with any commands between.
use Prim.Native.String.{String}
use text.Mathlib.Text.{◌==◌ as str_eq}
use klipper_go.Common.{
  if◌then◌else◌, Bool, true, false, not, ◌&&◌, Option, none, some, List, [], ◌∷◌, ◌≡◌, refl, ap,
  ◌∙◌,
}
use klipper_go.Common.Assoc.{lookup, lookup-insert_own, lookup-insert_other}
use klipper_go.Common.Real.{Float}
use klipper_go.Gcode.Params.{
  Word, absent, blank, bad, value, le_f, float_given, get_float, above_only,
}
use klipper_go.Gcode.Move.{
  Coords, SavedState, GCodeMove, Answer, done, moved, nil_call, get_gcode_position, get_gcode_speed,
  move_axes, above_zero, take_speed, finish_move, apply_move_parameters,
}
use klipper_go.Gcode.Move.Offset.{
  OffsetWords, shift_bases, move_offset, move_to, cmd_set_gcode_offset, offsets_given, move_deltas,
}
use klipper_go.Gcode.Move.Commands.{
  MoveCommand, g1, g20, g21, m82, m83, g90, g91, m114, g92, m220, m221, set_gcode_offset,
  save_gcode_state, restore_gcode_state, project_ready, project_shutdown, set_position,
  activate_extruder, home_rails_end, set_move_transform, execute, execute_all,
}
use klipper_go.Gcode.Move.Events.{
  reset_if, reset_last_position, connect_toolhead, handle_ready, handle_shutdown,
  handle_activate_extruder, handle_home_rails_end, take_transform,
}
use klipper_go.Gcode.Move.Factors.{set_each, set_bases, cmd_g92, cmd_m220, cmd_m221}
use klipper_go.Gcode.Move.States.{
  saved_state, cmd_save_gcode_state, restored, move_back, restore_from, cmd_restore_gcode_state,
}
use klipper_go.Gcode.Move.View.{view}

module _ (R : Float) where
  open R use {F, zero_f, add_f, sub_f}

  -- Saving leaves what is kept under a name alone.
  abbrev pub Spares : String → MoveCommand F → Type 0
  Spares name (save_gcode_state other) = str_eq other name ≡ false
  Spares name other = Unit

  abbrev pub AllSpare : String → List (MoveCommand F) → Type 0
  AllSpare name [] = Unit
  AllSpare name (c ∷ cs) = Spares name c × AllSpare name cs

  abbrev Same : GCodeMove F → GCodeMove F → Type 0
  Same after before = after.saved_states ≡ before.saved_states

  accepted-Same :
      (refused : Bool) (v : F) (self : GCodeMove F)
      → Same (finish_move R (above_zero R refused v self)).0 self
  unfolding finish_move above_zero
  accepted-Same true v self = refl
  accepted-Same false v self = refl

  finish-Same :
      (w : Word F) (self : GCodeMove F) → Same (finish_move R (take_speed R w self)).0 self
  unfolding take_speed finish_move
  finish-Same absent self = refl
  finish-Same blank self = refl
  finish-Same (bad v) self = refl
  finish-Same (value v) self = accepted-Same (le_f R v zero_f) v self

  set_bases-Same : (x y z e : Option F) (self : GCodeMove F) → Same (set_bases R x y z e self) self
  unfolding set_bases set_each
  set_bases-Same none none none none self = refl
  set_bases-Same (some a) y z e self = refl
  set_bases-Same x (some b) z e self = refl
  set_bases-Same x y (some c) e self = refl
  set_bases-Same x y z (some d) self = refl

  reset-Same :
      (ready : Bool) (position : Coords F) (self : GCodeMove F)
      → Same (reset_if R ready position self) self
  unfolding reset_if
  reset-Same true position self = refl
  reset-Same false position self = refl

  connect-Same : (has : Bool) (self : GCodeMove F) → Same (connect_toolhead R has self) self
  unfolding connect_toolhead
  connect-Same true self = refl
  connect-Same false self = refl

  ready-Same :
      (toolhead : Bool) (position : Coords F) (self : GCodeMove F)
      → Same (handle_ready R toolhead position self).0 self
  unfolding handle_ready reset_last_position
  ready-Same false position self = refl
  ready-Same true position self =
      let ready = record self { is_printer_ready = true } in
      let joined = connect_toolhead R self.has_transform ready in
      reset-Same joined.is_printer_ready position joined ∙ connect-Same self.has_transform ready

  transform-Same : (taken : Bool) (self : GCodeMove F) → Same (take_transform R taken self).0 self
  unfolding take_transform
  transform-Same true self = refl
  transform-Same false self = refl

  offset-Same :
      (move : Option (Word F)) (delta : Coords F) (self : GCodeMove F)
      → Same (move_offset R move delta self).0 self
  unfolding move_offset
  offset-Same none delta self = refl
  offset-Same (some speed) delta self = refl

  set_offset-Same :
      (w : OffsetWords F) (self : GCodeMove F) → Same (cmd_set_gcode_offset R w self).0 self
  unfolding cmd_set_gcode_offset shift_bases
  set_offset-Same w self =
      let o = offsets_given R w self.homing_position in
      offset-Same w.move (move_deltas R o self.homing_position) (shift_bases R o self)

  restore-Same :
      (held : Option (SavedState F)) (move : Option (Word F)) (self : GCodeMove F)
      → Same (restore_from R held move self).0 self
  unfolding restore_from move_back restored
  restore-Same none move self = refl
  restore-Same (some state) none self = refl
  restore-Same (some state) (some speed) self = refl

  kept :
      (name : String) (c : MoveCommand F) (self : GCodeMove F)
      → Spares name c
      → lookup name (execute R c self).0.saved_states ≡ lookup name self.saved_states
  unfolding execute apply_move_parameters move_axes cmd_g92 cmd_m220 cmd_m221 cmd_save_gcode_state
      handle_shutdown handle_activate_extruder handle_home_rails_end reset_last_position
      cmd_set_gcode_offset shift_bases cmd_restore_gcode_state
  kept name (g1 w) self spares = ap (lookup name) (finish-Same w.f (move_axes R w self))
  kept name g20 self spares = refl
  kept name g21 self spares = refl
  kept name m82 self spares = refl
  kept name m83 self spares = refl
  kept name g90 self spares = refl
  kept name g91 self spares = refl
  kept name m114 self spares = refl
  kept name (g92 w) self spares = ap (lookup name) (
      set_bases-Same (float_given R w.x) (float_given R w.y) (float_given R w.z) (float_given R w.e)
        self)
  kept name (m220 s) self spares = refl
  kept name (m221 s) self spares = refl
  kept name (set_gcode_offset w) self spares = ap (lookup name) (set_offset-Same w self)
  kept name (save_gcode_state other) self spares =
      lookup-insert_other other name (saved_state R self) self.saved_states spares
  kept name (restore_gcode_state other move) self spares =
      ap (lookup name) (restore-Same (lookup other self.saved_states) move self)
  kept name (project_ready toolhead position) self spares =
      ap (lookup name) (ready-Same toolhead position self)
  kept name project_shutdown self spares = refl
  kept name (set_position position) self spares =
      ap (lookup name) (reset-Same self.is_printer_ready position self)
  kept name (activate_extruder position) self spares =
      ap (lookup name) (reset-Same self.is_printer_ready position self)
  kept name (home_rails_end axes position) self spares =
      ap (lookup name) (reset-Same self.is_printer_ready position self)
  kept name (set_move_transform force) self spares =
      ap (lookup name) (transform-Same (self.has_transform && not force) self)

  all_kept :
      (name : String) (cs : List (MoveCommand F)) (self : GCodeMove F)
      → AllSpare name cs
      → lookup name (execute_all R cs self).saved_states ≡ lookup name self.saved_states
  unfolding execute_all
  all_kept name [] self spare = refl
  all_kept name (c ∷ cs) self (first, rest) =
      all_kept name cs (execute R c self).0 rest ∙ kept name c self first

  -- The extruder's shift is taken back exactly.
  pub record ShiftsBack : Type 0 where
    pub sub-shift : (l b s : F) → sub_f l (add_f b (sub_f l s)) ≡ sub_f s b

  abbrev pub SameFactors : GCodeMove F → GCodeMove F → Type 0
  SameFactors old after =
      (after.speed ≡ old.speed)
      × (after.speed_factor ≡ old.speed_factor)
      × (after.extrude_factor ≡ old.extrude_factor)
      × (after.homing_position ≡ old.homing_position)

  -- What restoring the state that was saved of `old` brings, without a move and with one at the speed
  -- that `speed` gives: the states show what `old` showed, but that the head stays where it is without
  -- a move; and the answers, of which the second is the move of the head.
  abbrev pub IsBack :
      GCodeMove F → GCodeMove F → Word F → GCodeMove F × Answer F → GCodeMove F × Answer F → Type 0
  IsBack old now speed (stayed, answer) (returned, answer') =
      (view R stayed ≡ record (view R old) {
        x = sub_f now.last_position.x old.base_position.x;
        y = sub_f now.last_position.y old.base_position.y;
        z = sub_f now.last_position.z old.base_position.z;
      })
      × (stayed.last_position ≡ now.last_position)
      × (answer ≡ done)
      × (view R returned ≡ view R old)
      × (returned.last_position ≡ record old.last_position { e = now.last_position.e })
      × (answer' ≡ (
          if now.connected
          then moved (record old.last_position { e = now.last_position.e })
              (get_float R speed old.speed (above_only R zero_f))
          else nil_call))
      × SameFactors old stayed
      × SameFactors old returned

  sent :
      (connected : Bool) (to : Coords F) (speed : F)
      → move_to R connected to speed ≡ (if connected then moved to speed else nil_call)
  unfolding move_to
  sent true to speed = refl
  sent false to speed = refl

  restore-IsBack :
      (old now : GCodeMove F) (speed : Word F)
      → ShiftsBack
      → IsBack old now speed
          (restore_from R (some (saved_state R old)) none now)
          (restore_from R (some (saved_state R old)) (some speed) now)
  unfolding restore_from restored move_back saved_state view get_gcode_position get_gcode_speed
  restore-IsBack old now speed law =
      let e = law.sub-shift now.last_position.e old.base_position.e old.last_position.e in
      let back : Coords F = record old.last_position { e = now.last_position.e } in
      let move = sent now.connected back (get_float R speed old.speed (above_only R zero_f)) in
      let same : SameFactors old (restored R (saved_state R old) now) = (refl, refl, refl, refl) in
      (rw e refl, refl, refl, rw e refl, refl, move, same, same)

  -- Whatever commands and events come between, unless they save under the same name, restoring a saved
  -- state succeeds. Modes, factors, speed, the homing offset and the extruder's coordinate are as they
  -- were. Without a move the head stays and nothing is sent. With one the whole position that is
  -- reported is the old one, and the head is sent to the old place, its extruder where it is, at the
  -- speed that MOVE_SPEED gives, or the saved one; where no transform is connected that is a panic.
  -- Sums are exact.
  pub restore-save :
      (name : String) (cs : List (MoveCommand F)) (self : GCodeMove F) (speed : Word F)
      → ShiftsBack
      → AllSpare name cs
      → let now = execute_all R cs (cmd_save_gcode_state R name self) in
        IsBack self now speed
          (cmd_restore_gcode_state R name none now)
          (cmd_restore_gcode_state R name (some speed) now)
  unfolding cmd_save_gcode_state cmd_restore_gcode_state
  restore-save name cs self speed law spare =
      let saved = cmd_save_gcode_state R name self in
      let held =
        all_kept name cs saved spare
        ∙ lookup-insert_own name (saved_state R self) self.saved_states in
      rw held (restore-IsBack self (execute_all R cs saved) speed law)
