-- ===== src/Motion/Queueing/Tests.antt =====
-- The queuing of the toolhead with the clock of the controller at the time of the host, and the
-- configuration that the host uses.
use klipper_go.Common.{
  ℕ, ◌*◌, ◌<◌, ◌≡◌, refl, true, false, none, some, List, [], ◌∷◌, leb, inr, arith,
}
use klipper_go.Common.Int.{pos}
use klipper_go.Common.Whole.{whole_numbers}
use klipper_go.Motion.Move.{Move, new_move}
use klipper_go.Motion.Toolhead.{ToolheadTimingConfig, ToolheadTimingState}
use klipper_go.Motion.Pause.{
  main, need_prime, PauseTimeSource, ToolheadPauseConfig, ToolheadPauseState, ToolheadPauseResult,
  run_pause_check,
}
use klipper_go.Motion.Pause.Ends.{Checked, pause_check_ends}
use klipper_go.Motion.Drip.{
  DripCompletion, ToolheadDripConfig, reached, Dripped, flush_delay, update_drip_time,
}
use klipper_go.Motion.Drip.Short.{Ends, drip-Ends}
use klipper_go.Motion.Queueing.{Output, Toolhead, flush_lookahead, wait_moves}
use klipper_go.Motion.Queueing.Waiting.{wait_moves_ends, wait_never_ends}

abbrev clock : PauseTimeSource ℕ
clock = record {
  monotonic = λ w. w;
  estimated_print_time = λ w eventtime. eventtime;
  pause = λ w waketime. (waketime, waketime);
}

abbrev pauses : ToolheadPauseConfig
pauses = record {
  buffer_time_low = 1_000_000;
  buffer_time_high = 1_000_000;
  pause_check_offset = 100_000;
  max_pause_duration = 1_000_000;
  min_priming_delay = 100_000;
  wait_move_delay = 100_000;
}

abbrev drips : ToolheadDripConfig
drips = record { drip_time = 100_000; stepcompress_flush_time = 50_000; drip_segment_time = 50_000 }

abbrev timing : ToolheadTimingConfig
timing = record {
  buffer_time_start = 250_000;
  min_kin_time = 100_000;
  move_batch_time = 500_000;
  move_history_expire = 30_000_000;
  scan_time_offset = 1_000;
  stepcompress_flush_time = 50_000;
}

abbrev at_start : ToolheadTimingState
at_start = record {
  print_time = 700_000;
  last_flush_time = 0;
  last_step_gen_time = 0;
  min_restart_time = 0;
  need_flush_time = 0;
  step_gen_time = 0;
  clear_history_time = 0;
  kin_flush_delay = 1_000;
  kin_flush_times = [];
  do_kick_flush_timer = true;
  can_pause = true;
}

-- The endstop triggers after half a second.
abbrev endstop : DripCompletion ℕ
endstop = record { test = λ w. leb 500_000 w; wait = λ w waketime. waketime }

abbrev buffered : ToolheadPauseState
buffered = record {
  print_time = 3_500_000;
  check_stall_time = pos 40_000;
  print_stall = 0;
  special_queuing_state = main;
  need_check_pause = pos 0;
  can_pause = true;
}

-- Two pauses bring the buffer down to its limit.
two_pauses :
    run_pause_check clock pauses 4_000_000 0 buffered
    ≡ some (
      2_500_000,
      record {
        state = record buffered { need_check_pause = pos 3_600_000 };
        needs_priming_timer = false;
        priming_wake_time = 0;
        event_time = 2_500_000;
        estimated_print_time = 2_500_000;
        buffer_time = pos 1_000_000;
      },
    )
unfolding run_pause_check
two_pauses = refl

pause_check_ends_example :
    (after : ℕ × ToolheadPauseResult) × (run_pause_check clock pauses 4_000_000 0 buffered
      ≡ some after)
    × Checked clock pauses 0 buffered after
pause_check_ends_example =
    pause_check_ends clock pauses 4_000_000 0 buffered (λ w e t h. h) (omega arith) (omega arith)

drip-Ends_example :
    (d : Dripped ℕ) × (update_drip_time clock endstop drips timing 9_000_000 2_000_000 0 at_start
      ≡ some d)
    × Ends clock endstop drips timing (flush_delay drips at_start) 2_000_000 at_start d
drip-Ends_example =
    drip-Ends clock endstop drips timing 9_000_000 2_000_000 0 at_start (λ w t h. inr h)
      (omega arith) (omega arith)

abbrev going : Move ℕ
going =
    new_move whole_numbers
      (record { max_accel = 3; junction_deviation = 1; max_velocity = 50; max_accel_to_decel = 2 })
      (record { x = 0; y = 0; z = 0; e = 0 }) (record { x = 4; y = 0; z = 0; e = 4 }) 10

abbrev with_moves : List (Move ℕ) → Toolhead ℕ
with_moves moves = record {
  core = record {
    timing = at_start;
    check_stall_time = pos 0;
    special_queuing_state = main;
    need_check_pause = pos 0;
    print_stall = 0;
  };
  lookahead = record { queue = moves; junction_flush = 0 };
}

abbrev micros : ℕ → ℕ
micros seconds = seconds * 1_000_000

abbrev callbacks : Move ℕ → List ℕ
callbacks move = []

wait_moves_ends_example :
    (w' : ℕ) × (after : Toolhead ℕ) × (eventtime : ℕ) × (wait_moves whole_numbers micros callbacks
        clock endstop drips timing 0 900_000 pauses 0
        (with_moves [])
      ≡ some (w', after, eventtime))
    × (700_000 < eventtime)
    × (after.core.timing.print_time ≡ 700_000)
    × (after.core.special_queuing_state ≡ need_prime)
wait_moves_ends_example =
    wait_moves_ends whole_numbers micros callbacks clock endstop drips timing 0 900_000 pauses 0
      (with_moves []) (λ w e t h. h) (omega arith) refl refl (omega arith)

wait_never_ends_example :
    (after : Toolhead ℕ) × (outputs : List (Output ℕ)) × (flush_lookahead whole_numbers micros
        callbacks clock endstop drips timing 0 0
        (with_moves (going ∷ []))
      ≡ some (0, after, outputs, reached))
    × (after.core.special_queuing_state ≡ main)
    × (wait_moves whole_numbers micros callbacks clock endstop drips timing 0 9_000_000 pauses 0
          (with_moves (going ∷ []))
        ≡ none)
wait_never_ends_example =
    wait_never_ends whole_numbers micros callbacks clock endstop drips timing 0 9_000_000 pauses 0
      (with_moves (going ∷ [])) going [] refl refl
