-- ===== src/Motion/Queueing.antt =====
-- The queuing state of the toolhead: ProcessToolheadMoveBatch and the wait for moves of
-- toolhead_move_runtime.go, with the methods of Toolhead in project/goklipper.go that call them. The
-- positions and the limits of the core state are not here. `micros` is a time of a move in whole
-- microseconds, and `callbacks` names its timing callbacks.
pub mod Waiting
mod Tests
use klipper_go.Common.{
  ℕ, zero, suc, ◌+◌, max, Bool, true, false, not, Option, none, some, List, [], ◌∷◌, ◌++◌, map,
  if◌then◌else◌, ◌>>=◌,
}
use klipper_go.Common.Int.{ℤ, pos, negsuc}
use klipper_go.Common.Real.{Float}
use klipper_go.Motion.Move.{Move}
use klipper_go.Motion.LookAhead
use klipper_go.Motion.LookAhead.{LookAheadQueue}
use klipper_go.Motion.Toolhead.{ToolheadTimingConfig, ToolheadTimingState, Flush, calc_print_time}
use klipper_go.Motion.Pause.{
  SpecialQueuingState, main, need_prime, priming, drip, is_special, PauseTimeSource,
  ToolheadPauseConfig, wait_toolhead_moves,
}
use klipper_go.Motion.Drip.{
  DripCompletion, ToolheadDripConfig, Segment, DripEnd, reached, drip_mode_end, activity_until,
  Dripped, update_drip_time,
}

pub record ToolheadCoreState : Type 0 where
  pub timing : ToolheadTimingState
  pub check_stall_time : ℤ
  pub special_queuing_state : SpecialQueuingState
  pub need_check_pause : ℤ
  pub print_stall : ℕ

-- What a batch hands on, in order.
pub data Output (F : Type 0) : Type 0 where
  synced : Bool → Output F
  kinematic_move : ℕ → Move F → Output F
  extruder_move : ℕ → Move F → Output F
  timing_callback : ℕ → ℕ → Output F
  segment : Segment → Output F
  advanced : List Flush → Bool → Output F

pub record Toolhead (F : Type 0) : Type 0 where
  pub core : ToolheadCoreState
  pub lookahead : LookAheadQueue F

-- `ResetAfterLookaheadFlush`
unfoldable pub reset_after_flush : ToolheadCoreState → ToolheadCoreState
reset_after_flush core = record core {
  special_queuing_state = need_prime;
  need_check_pause = negsuc 999_999;
  check_stall_time = pos 0;
}

-- A batch brings the queue into the main state, but for a drip.
unfoldable pub left_special : SpecialQueuingState → ToolheadCoreState → ToolheadCoreState
left_special main core = core
left_special need_prime core = record core {
  special_queuing_state = main;
  need_check_pause = negsuc 999_999;
}
left_special priming core = record core {
  special_queuing_state = main;
  need_check_pause = negsuc 999_999;
}
left_special drip core = core

-- The print time moves up where the queue was special; whether the notifier is told.
unfoldable pub begin_batch :
    ℕ → ToolheadTimingConfig → ToolheadCoreState → ToolheadCoreState × List Bool
unfolding left_special
begin_batch est config core =
    if is_special core.special_queuing_state
    then (
      record (left_special core.special_queuing_state core) {
        timing = (calc_print_time est config core.timing).0;
      },
      (calc_print_time est config core.timing).1 ∷ [],
    )
    else (core, [])

module _ (R : Float) (micros : R.F → ℕ) (callbacks : Move R.F → List ℕ) where
  open R use {F, zero_f, eq_f, add_f, lit}

  unfoldable pub calls_of : ℕ → ℕ → Move F → List (Output F)
  calls_of start end move =
      (if move.is_kinematic_move then kinematic_move start move ∷ [] else [])
      ++ ((if eq_f move.axes_d.e zero_f then [] else extruder_move start move ∷ [])
          ++ map (λ c. timing_callback end c) (callbacks move))

  -- `QueueMoveBatch`: the calls, and the time at which the moves end.
  unfoldable pub queue_move_batch : ℕ → List (Move F) → List (Output F) × ℕ
  unfolding calls_of
  queue_move_batch start [] = ([], start)
  queue_move_batch start (move ∷ moves) =
      let end = start + micros (add_f (add_f move.accel_t move.cruise_t) move.decel_t) in
      let (calls, last) = queue_move_batch end moves in (calls_of start end move ++ calls, last)

  module _ {World : Type 0} (source : PauseTimeSource World) (completion : DripCompletion World)
      (drips : ToolheadDripConfig) (timing : ToolheadTimingConfig) where
    abbrev pub Processed : Type 0
    Processed = World × ToolheadCoreState × List (Output F) × DripEnd

    -- The end of a batch, after what was dripped.
    unfoldable pub end_batch : DripEnd → ℕ → ToolheadCoreState → List (Output F) → World → Processed
    end_batch drip_mode_end next core outputs w = (w, core, outputs, drip_mode_end)
    end_batch reached next core outputs w =
        let (after, flushes, kicked) = activity_until next timing core.timing in
        (w, record core { timing = after }, outputs ++ (advanced flushes kicked ∷ []), reached)

    unfoldable pub drip_or_not : ℕ → ℕ → ToolheadCoreState → World → Option (Dripped World)
    drip_or_not fuel next core w =
        if is_special core.special_queuing_state
        then update_drip_time source completion drips timing fuel next w core.timing
        else some (w, core.timing, [], reached)

    -- `ProcessToolheadMoveBatch`
    unfoldable pub process_move_batch :
        ℕ → List (Move F) → World → ToolheadCoreState → Option Processed
    unfolding begin_batch queue_move_batch end_batch drip_or_not
    process_move_batch fuel moves w core =
        let est = source.estimated_print_time w (source.monotonic w) in
        let (begun, told) = begin_batch est timing core in
        let (calls, next) = queue_move_batch begun.timing.print_time moves in
        drip_or_not fuel next begun w >>= λ d. some (
          end_batch d.3 next (record begun { timing = d.1 })
            (map (λ t. synced t) told ++ (calls ++ map (λ s. segment s) d.2)) d.0)

    -- `Process_moves` is called with the moves that a flush lets go, if there are any. A batch that
    -- ends the drip leaves the moves in the queue.
    unfoldable pub processed :
        ℕ
        → LookAheadQueue F
        → LookAheadQueue F
        → List (Move F)
        → World
        → ToolheadCoreState
        → Option (World × Toolhead F × List (Output F) × DripEnd)
    processed fuel before after [] w core =
        some (w, record { core = core; lookahead = after }, [], reached)
    processed fuel before after (m ∷ ms) w core = process_move_batch fuel (m ∷ ms) w core >>= λ p.
        some (
          p.0,
          record {
            core = p.1;
            lookahead = elim p.3 [
              | reached ↦ after
              | drip_mode_end ↦ record before { junction_flush = after.junction_flush }
            ];
          },
          p.2,
          p.3,
        )

    -- `LookAheadQueue.Flush` of the toolhead
    unfoldable pub flush_queue :
        ℕ → Bool → World → Toolhead F → Option (World × Toolhead F × List (Output F) × DripEnd)
    unfolding processed
    flush_queue fuel lazy w self = LookAhead.flush R lazy self.lookahead >>= λ f.
        processed fuel self.lookahead f.0 f.1 w self.core

    unfoldable pub set_flush_time : F → Toolhead F → Toolhead F
    set_flush_time time self = record self {
      lookahead = record self.lookahead { junction_flush = time };
    }

    -- `_flush_lookahead`: the state is reset before the queue is flushed.
    unfoldable pub flush_lookahead :
        ℕ → World → Toolhead F → Option (World × Toolhead F × List (Output F) × DripEnd)
    unfolding flush_queue reset_after_flush set_flush_time
    flush_lookahead fuel w self =
        flush_queue fuel false w (record self { core = reset_after_flush self.core }) >>= λ f.
        elim f.3 [
          | reached ↦ some (f.0, set_flush_time (lit 1 1) f.1, f.2, reached)
          | drip_mode_end ↦ some f
        ]

    -- `Wait_moves`, with the fuel of its wait. The state waited on is read before the wait. The end of
    -- a drip would be a panic.
    unfoldable pub wait_moves :
        ℕ → ℕ → ToolheadPauseConfig → World → Toolhead F → Option (World × Toolhead F × ℕ)
    unfolding flush_lookahead
    wait_moves fuel rounds config w self = flush_lookahead fuel w self >>= λ f. elim f.3 [
      | reached ↦
          (let core = f.1.core in
            wait_toolhead_moves source config rounds f.0 core.special_queuing_state
              core.timing.print_time core.timing.can_pause
            >>= λ e. some (e.0, f.1, e.1))
      | drip_mode_end ↦ none
    ]
