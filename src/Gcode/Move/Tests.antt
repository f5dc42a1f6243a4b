-- ===== src/Gcode/Move/Tests.antt =====
-- The theorems on the coordinates of G-code on a small program, with integers for floats.
use klipper_go.Common.{true, false, none, some, List, [], ◌∷◌, ◌≡◌, refl}
use klipper_go.Common.Int.{ℤ, pos, negsuc}
use klipper_go.Common.Signed.{
  signed_numbers, add-sub_same, sub-add_signed, sub-sub_signed, sub_same_signed, sub-shift_signed,
  div-mul_two, div-add_two, div-mul_three, div-add_three,
}
use klipper_go.Gcode.Params.{absent, blank, bad, value, get_float, bounded, float_given}
use klipper_go.Gcode.Move.{
  Coords, GCodeMove, Words, new_gcode_move, get_gcode_position, get_gcode_speed,
}
use klipper_go.Gcode.Move.Factors.{AxisWords, speed_factor_of, factor_of}
use klipper_go.Gcode.Move.Commands.{
  MoveCommand, g1, g91, g92, m220, m221, set_position, execute_all,
}
use klipper_go.Gcode.Move.States.{cmd_save_gcode_state, cmd_restore_gcode_state}
use klipper_go.Gcode.Move.View.{IsExact, IsScale, view, commanded, commanded_all, ArePlain}
use klipper_go.Gcode.Move.Refine.{execute_all-commanded_all}
use klipper_go.Gcode.Move.Saved.{ShiftsBack, IsBack, restore-save}

signed-IsExact : IsExact signed_numbers
signed-IsExact = record {
  sub-add_same = λ v b. add-sub_same v b;
  sub-add = λ l v b. sub-add_signed l v b;
  sub-sub = λ l v. sub-sub_signed l v;
  sub_same = λ l. sub_same_signed l;
}

two-IsScale : IsScale signed_numbers (pos 2)
two-IsScale = record {
  div-mul = λ v. div-mul_two v;
  div-add = λ c v. div-add_two c v;
  div_zero = refl;
}

three-IsScale : IsScale signed_numbers (pos 3)
three-IsScale = record {
  div-mul = λ v. div-mul_three v;
  div-add = λ c v. div-add_three c v;
  div_zero = refl;
}

signed-ShiftsBack : ShiftsBack signed_numbers
signed-ShiftsBack = record { sub-shift = λ l b s. sub-shift_signed l b s }

-- The extruder at double flow, the speed at triple.
abbrev scaled_up : GCodeMove ℤ
scaled_up = record (new_gcode_move signed_numbers) {
  is_printer_ready = true;
  speed_factor = pos 3;
  extrude_factor = pos 2;
  connected = true;
}

abbrev a_move : Words ℤ
a_move = record {
  x = value (pos 10);
  y = bad (pos 0);
  z = absent;
  e = value (negsuc 4);
  f = value (pos 1_500);
}

abbrev at_zero_x : AxisWords ℤ
at_zero_x = record { x = value (pos 0); y = absent; z = absent; e = blank }

abbrev origin_moved : Coords ℤ
origin_moved = record { x = pos 1; y = negsuc 2; z = pos 3; e = pos 4 }

-- G1, G91, the move again, M221 S300, M220 S12000, G92 X0.
abbrev a_program : List (MoveCommand ℤ)
a_program =
    g1 a_move
    ∷ g91
    ∷ g1 a_move
    ∷ m221 (value (pos 300))
    ∷ m220 (value (pos 12_000))
    ∷ g92 at_zero_x
    ∷ []

plain : ArePlain signed_numbers a_program
unfolding factor_of speed_factor_of get_float bounded
plain = (tt, (tt, (tt, (three-IsScale, (two-IsScale, (tt, tt))))))

execute_all-commanded_all_example :
    view signed_numbers (execute_all signed_numbers a_program scaled_up)
    ≡ commanded_all signed_numbers a_program (view signed_numbers scaled_up)
execute_all-commanded_all_example =
    execute_all-commanded_all signed_numbers signed-IsExact a_program scaled_up plain
      (two-IsScale, three-IsScale)

-- X to 10 and then by 10, set to 0; E to -5 and then by -5; the speed as the program says.
view_of_program : commanded_all signed_numbers a_program (view signed_numbers scaled_up) ≡ record {
  absolute_coord = false;
  absolute_extrude = true;
  x = pos 0;
  y = pos 0;
  z = pos 0;
  e = negsuc 9;
  speed = pos 1_500;
}
unfolding commanded_all view get_gcode_position get_gcode_speed commanded float_given new_gcode_move
view_of_program = refl

restore-save_example :
    let saved = cmd_save_gcode_state signed_numbers "PAUSE" scaled_up in
    let now = execute_all signed_numbers (set_position origin_moved ∷ a_program) saved in
    IsBack signed_numbers scaled_up now absent
      (cmd_restore_gcode_state signed_numbers "PAUSE" none now)
      (cmd_restore_gcode_state signed_numbers "PAUSE" (some absent) now)
restore-save_example =
    restore-save signed_numbers "PAUSE" (set_position origin_moved ∷ a_program) scaled_up absent
      signed-ShiftsBack (tt, (tt, (tt, (tt, (tt, (tt, (tt, tt)))))))
