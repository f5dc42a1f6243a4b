-- ===== src/Motion/Toolhead/Tests.antt =====
-- The timing of the toolhead with the times that the host uses, in microseconds.
use klipper_go.Common.{◌+◌, ◌≤◌, max, true, false, List, [], ◌∷◌, ◌≡◌, All, arith}
use klipper_go.Motion.Toolhead.{
  ToolheadTimingConfig, ToolheadTimingState, flush_from, flush_want, advance_move_time,
  calc_print_time,
}
use klipper_go.Motion.Toolhead.Times.{Climbs, advance_move_time_ends}
use klipper_go.Motion.Toolhead.Restart.{
  TimingCall, flush_call, move_call, calc_call, scan_call, activity_call, timing_calls,
  restart_behind_steps,
}
use klipper_go.Motion.FlushTimer.{ToolheadFlushConfig, ToolheadFlushHandlerState, build_flush_plan}
use klipper_go.Motion.FlushTimer.Progress.{Progresses, timer_never_spins}

abbrev timing : ToolheadTimingConfig
timing = record {
  buffer_time_start = 250_000;
  min_kin_time = 100_000;
  move_batch_time = 500_000;
  move_history_expire = 30_000_000;
  scan_time_offset = 1_000;
  stepcompress_flush_time = 50_000;
}

abbrev at_start : ToolheadTimingState
at_start = record {
  print_time = 0;
  last_flush_time = 0;
  last_step_gen_time = 0;
  min_restart_time = 0;
  need_flush_time = 0;
  step_gen_time = 0;
  clear_history_time = 0;
  kin_flush_delay = 1_000;
  kin_flush_times = [];
  do_kick_flush_timer = true;
  can_pause = true;
}

advance_move_time_ends_example :
    let (after, flushes, ended) = advance_move_time 1_700_000 timing at_start in
    (ended ≡ true)
    × (after.last_flush_time ≡ flush_want 1_700_000 timing at_start)
    × (after.print_time ≡ max at_start.print_time 1_700_000)
    × Climbs timing.move_batch_time (flush_from timing at_start) flushes
advance_move_time_ends_example = advance_move_time_ends 1_700_000 timing at_start (omega arith)

abbrev some_calls : List TimingCall
some_calls =
    calc_call 10_000
    ∷ move_call 900_000
    ∷ scan_call 20_000 0
    ∷ activity_call 850_000 true
    ∷ flush_call 870_000
    ∷ []

restart_behind_steps_example :
    let (after, flushes) = timing_calls some_calls timing at_start in
    (at_start.print_time ≤ after.print_time)
    × (at_start.last_flush_time ≤ after.last_flush_time)
    × All
        (λ f.
          f.sg_flush_time + after.kin_flush_delay
          ≤ (calc_print_time 900_000 timing after).0.print_time)
        flushes
restart_behind_steps_example = restart_behind_steps some_calls 900_000 timing at_start

abbrev flushing : ToolheadFlushConfig
flushing = record {
  buffer_time_low = 1_000_000;
  bg_flush_low_time = 200_000;
  bg_flush_high_time = 400_000;
  bg_flush_sg_low_time = 450_000;
  bg_flush_sg_high_time = 700_000;
  bg_flush_extra_time = 250_000;
  stepcompress_flush_time = 50_000;
}

abbrev printing : ToolheadFlushHandlerState
printing = record {
  print_time = 6_000_000;
  last_flush_time = 5_100_000;
  last_step_gen_time = 5_150_000;
  need_flush_time = 5_900_000;
  need_step_gen_time = 5_900_000;
  is_special = false;
  kin_flush_delay = 1_000;
}

timer_never_spins_example :
    Progresses 100_000 printing flushing (build_flush_plan 100_000 5_200_000 printing flushing)
timer_never_spins_example =
    timer_never_spins 100_000 5_200_000 printing flushing (omega arith) (omega arith)
