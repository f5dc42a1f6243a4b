-- ===== src/Motion/Drip.antt =====
-- `UpdateToolheadDripTime` of toolhead_drip.go, with times in whole microseconds: a homing move is handed
-- out in segments, so that it can be stopped soon. The segments handed out are a result. The loop runs
-- on fuel; `none` means it ran out. What else runs while it waits is taken to leave the timing state.
pub mod Short
use klipper_go.Common.{
  ℕ, zero, suc, ◌+◌, ◌-◌, min, Bool, true, false, ◌&&◌, Option, none, some, List, [], ◌∷◌, ltb, leb,
  if◌then◌else◌, ◌>>=◌,
}
use klipper_go.Motion.Pause.{PauseTimeSource}
use klipper_go.Motion.Toolhead.{
  ToolheadTimingConfig, ToolheadTimingState, Flush, advance_move_time, note_movequeue_activity,
}

pub record DripCompletion (World : Type 0) : Type 0 where
  pub test : World → Bool
  pub wait : World → ℕ → World

pub record ToolheadDripConfig : Type 0 where
  pub drip_time : ℕ
  pub stepcompress_flush_time : ℕ
  pub drip_segment_time : ℕ

-- What a segment was handed out with: the estimate of the print time at that moment, the end of the
-- segment, the flushes, and whether the flush timer was kicked.
pub record Segment : Type 0 where
  pub estimated_print_time : ℕ
  pub end_time : ℕ
  pub flushes : List Flush
  pub kicked : Bool

-- How a drip ended: at the time wanted, or by the completion (ErrDripModeEnd).
pub data DripEnd : Type 0 where
  reached drip_mode_end : DripEnd

unfoldable pub flush_delay : ToolheadDripConfig → ToolheadTimingState → ℕ
flush_delay config runtime =
    config.drip_time + config.stepcompress_flush_time + runtime.kin_flush_delay

-- `NoteMovequeueActivity` and `AdvanceMoveTime`, as after a batch of moves.
unfoldable pub activity_until :
    ℕ → ToolheadTimingConfig → ToolheadTimingState → ToolheadTimingState × List Flush × Bool
activity_until time timing runtime =
    let (noted, kicked) = note_movequeue_activity (time + runtime.kin_flush_delay) true runtime in
    let (after, flushes, _) = advance_move_time time timing noted in (after, flushes, kicked)

abbrev pub Dripped : Type 0 → Type 0
Dripped World = World × ToolheadTimingState × List Segment × DripEnd

module _ {World : Type 0} (source : PauseTimeSource World) (completion : DripCompletion World)
    (config : ToolheadDripConfig) (timing : ToolheadTimingConfig) where
  open source use {monotonic}
  open source use {estimated_print_time as estimated}
  open completion use {test, wait}

  unfoldable pub drip_loop : ℕ → ℕ → ℕ → World → ToolheadTimingState → Option (Dripped World)
  unfolding activity_until
  drip_loop zero delay next w runtime = none
  drip_loop (suc fuel) delay next w runtime =
      let est = estimated w (monotonic w) in
      let waited =
        drip_loop fuel delay next (wait w (monotonic w + (runtime.print_time - est - delay)))
          runtime in
      let segment = min (runtime.print_time + config.drip_segment_time) next in
      let (after, flushes, kicked) = activity_until segment timing runtime in
      let more = drip_loop fuel delay next w after in
      let handed : Segment = record {
        estimated_print_time = est;
        end_time = segment;
        flushes = flushes;
        kicked = kicked;
      } in
      if leb next runtime.print_time
      then some (w, runtime, [], reached)
      else if test w
      then some (w, runtime, [], drip_mode_end)
      else if ltb (est + delay) runtime.print_time && runtime.can_pause
      then waited
      else more >>= λ d. some (d.0, d.1, handed ∷ d.2, d.3)

  unfoldable pub update_drip_time : ℕ → ℕ → World → ToolheadTimingState → Option (Dripped World)
  unfolding drip_loop flush_delay
  update_drip_time fuel next w runtime = drip_loop fuel (flush_delay config runtime) next w runtime
