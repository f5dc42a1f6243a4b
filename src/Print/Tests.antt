-- ===== src/Print/Tests.antt =====
-- The theorems on what is noted of a print at concrete runs, with natural numbers as floats.
use klipper_go.Common.{ℕ, ◌⊎◌, false, List, [], ◌∷◌, arith}
use klipper_go.Common.Int.{pos}
use klipper_go.Common.Whole.{whole_numbers}
use klipper_go.Print.IdleTimeout.{
  IdleTimeout, Printer, new_idle_timeout, timeout_handler, sync_print_time,
}
use klipper_go.Print.IdleTimeout.Wakes.{KeepsTimer, BecomesIdle, handler_wakes_or_idles}
use klipper_go.Print.Stats.{ExtrusionStatus}
use klipper_go.Print.Stats.Consistent.{
  Note, current_file, start_note, pause_note, error_note, info_note, status_note,
}

abbrev timer : IdleTimeout
timer = (sync_print_time (pos 900) (pos 800) (pos 850) (new_idle_timeout (pos 600_000))).0

abbrev printer : Printer
printer = record {
  eventtime = pos 1_000;
  print_time = pos 1_000;
  est_print_time = pos 950;
  lookahead_empty = false;
  gcode_busy = false;
}

handler_wakes_or_idles_example :
    KeepsTimer (pos 1_000) (timeout_handler printer timer).1
    ⊎ BecomesIdle printer timer (timeout_handler printer timer).1
unfolding new_idle_timeout sync_print_time
handler_wakes_or_idles_example = handler_wakes_or_idles printer timer (omega arith)

abbrev extrusion : ℕ → ExtrusionStatus ℕ
extrusion n = record { position = n; extrude_factor = 1 }

abbrev a_print : List (Note whole_numbers)
a_print =
    current_file "cube.gcode"
    ∷ start_note 5 (extrusion 0)
    ∷ info_note 3 2
    ∷ status_note 6 (extrusion 4)
    ∷ info_note 3 9
    ∷ pause_note 8 (extrusion 7)
    ∷ error_note 9 "out of filament"
    ∷ pause_note 10 (extrusion 7)
    ∷ []
