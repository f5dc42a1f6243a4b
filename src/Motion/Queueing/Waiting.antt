-- ===== src/Motion/Queueing/Waiting.antt =====
-- What `_flush_lookahead` leaves, and when `Wait_moves` ends.
use klipper_go.Common.{
  ℕ, ◌+◌, ◌-◌, ◌≤◌, ◌<◌, true, Option, none, some, List, [], ◌∷◌, ◌≡◌, refl, ◌∙◌, arith,
}
use klipper_go.Common.Real.{Float}
use klipper_go.Motion.Move.{Move}
use klipper_go.Motion.LookAhead.Whole.{flush_whole, flush_empty}
use klipper_go.Motion.Toolhead.{ToolheadTimingConfig, ToolheadTimingState, calc_print_time}
use klipper_go.Motion.Pause.{main, need_prime, PauseTimeSource, ToolheadPauseConfig}
use klipper_go.Motion.Pause.Ends.{Ticks}
use klipper_go.Motion.Pause.Waits.{wait-ends, wait_main}
use klipper_go.Motion.Drip.{DripCompletion, ToolheadDripConfig, DripEnd, reached}
use klipper_go.Motion.Drip.Short.{activity_until-time}
use klipper_go.Motion.Queueing.{
  ToolheadCoreState, Output, Toolhead, reset_after_flush, left_special, begin_batch,
  queue_move_batch, end_batch, drip_or_not, process_move_batch, processed, flush_queue,
  set_flush_time, flush_lookahead, wait_moves,
}

calc_print_time-can :
    (est : ℕ) (config : ToolheadTimingConfig) (self : ToolheadTimingState)
    → (calc_print_time est config self).0.can_pause ≡ self.can_pause
unfolding calc_print_time
calc_print_time-can est config self = ground arith

module _ (R : Float) (micros : R.F → ℕ) (callbacks : Move R.F → List ℕ) where
  open R use {F, lit}

  module _ {World : Type 0} (source : PauseTimeSource World) (completion : DripCompletion World)
      (drips : ToolheadDripConfig) (timing : ToolheadTimingConfig) where
    open source use {monotonic}
    open source use {estimated_print_time as estimated}

    abbrev batch :
        ℕ
        → List (Move F)
        → World
        → ToolheadCoreState
        → Option (World × ToolheadCoreState × List (Output F) × DripEnd)
    batch fuel moves w core =
        process_move_batch R micros callbacks source completion drips timing fuel moves w core

    -- A batch of a queue that was just reset ends in the main state.
    batch-main :
        (fuel : ℕ) (moves : List (Move F)) (w : World) (core : ToolheadCoreState)
        → (after : ToolheadCoreState) × (outputs : List (Output F)) × (batch fuel moves w
              (reset_after_flush core)
            ≡ some (w, after, outputs, reached))
          × (after.special_queuing_state ≡ main)
          × (after.timing.can_pause ≡ core.timing.can_pause)
    unfolding process_move_batch reset_after_flush begin_batch left_special drip_or_not end_batch
    batch-main fuel moves w core =
        let est = estimated w (monotonic w) in
        let begun = (begin_batch est timing (reset_after_flush core)).0 in
        let next = (queue_move_batch R micros callbacks begun.timing.print_time moves).1 in
        let (_, can) = activity_until-time next timing begun.timing in
        (_, _, refl, refl, can ∙ calc_print_time-can est timing core.timing)

    abbrev flushed :
        ℕ → World → Toolhead F → Option (World × Toolhead F × List (Output F) × DripEnd)
    flushed fuel w self =
        flush_lookahead R micros callbacks source completion drips timing fuel w self

    abbrev waited :
        ℕ → ℕ → ToolheadPauseConfig → World → Toolhead F → Option (World × Toolhead F × ℕ)
    waited fuel rounds config w self =
        wait_moves R micros callbacks source completion drips timing fuel rounds config w self

    flush-main :
        (fuel : ℕ) (w : World) (self : Toolhead F) (m : Move F) (ms : List (Move F))
        → self.lookahead.queue ≡ m ∷ ms
        → (after : Toolhead F) × (outputs : List (Output F)) × (flushed fuel w self
            ≡ some (w, after, outputs, reached))
          × (after.core.special_queuing_state ≡ main)
          × (after.core.timing.can_pause ≡ self.core.timing.can_pause)
    unfolding flush_lookahead flush_queue processed set_flush_time
    flush-main fuel w self m ms e =
        let (after, m', rest, whole) = flush_whole R self.lookahead m ms e in
        let (core, outputs, moved, state, can) = batch-main fuel (m' ∷ rest) w self.core in
        (
          record { core = core; lookahead = record after { junction_flush = lit 1 1 } },
          outputs,
          rw (whole, moved) refl,
          state,
          can,
        )

    flush-reset :
        (fuel : ℕ) (w : World) (self : Toolhead F)
        → self.lookahead.queue ≡ []
        → (after : Toolhead F) × (flushed fuel w self ≡ some (w, after, [], reached))
          × (after.core ≡ reset_after_flush self.core)
    unfolding flush_lookahead flush_queue processed set_flush_time
    flush-reset fuel w self e = (
      record {
        core = reset_after_flush self.core;
        lookahead = record self.lookahead { junction_flush = lit 1 1 };
      },
      rw (flush_empty R self.lookahead e) refl,
      refl,
    )

    -- With no move in the lookahead queue, pausing possible and a print clock that moves on in a pause,
    -- Wait_moves ends, with a round of its wait for each microsecond up to the print time and two more
    -- as fuel: the print time, which is the old one, is behind the estimate then, and the queue of the
    -- toolhead is to be primed.
    pub wait_moves_ends :
        (fuel rounds : ℕ) (config : ToolheadPauseConfig) (w : World) (self : Toolhead F)
        → Ticks source config
        → 1 ≤ config.wait_move_delay
        → self.lookahead.queue ≡ []
        → self.core.timing.can_pause ≡ true
        → self.core.timing.print_time + 1 - estimated w (monotonic w) < rounds
        → (w' : World) × (after : Toolhead F) × (eventtime : ℕ) × (waited fuel rounds config w self
            ≡ some (w', after, eventtime))
          × (self.core.timing.print_time < estimated w' eventtime)
          × (after.core.timing.print_time ≡ self.core.timing.print_time)
          × (after.core.special_queuing_state ≡ need_prime)
    unfolding wait_moves reset_after_flush
    wait_moves_ends fuel rounds config w self ticks long empty can enough =
        let (after, flush, core) = flush-reset fuel w self empty in
        let (w', eventtime, wait, behind) =
          wait-ends source config rounds w need_prime self.core.timing.print_time ticks long refl
            enough in
        (w', after, eventtime, rw (flush, core, can, wait) refl, behind, rw core refl, rw core refl)

    -- With moves in the lookahead queue and pausing possible, `_flush_lookahead` succeeds, but the state
    -- is the main one then, since the batch leaves the state that was set before it; and the wait, which
    -- goes by that state, never ends, whatever fuel it has, whatever the clock does and however far the
    -- print gets.
    pub wait_never_ends :
        (fuel rounds : ℕ) (config : ToolheadPauseConfig) (w : World) (self : Toolhead F)
        (m : Move F) (ms : List (Move F))
        → self.lookahead.queue ≡ m ∷ ms
        → self.core.timing.can_pause ≡ true
        → (after : Toolhead F) × (outputs : List (Output F)) × (flushed fuel w self
            ≡ some (w, after, outputs, reached))
          × (after.core.special_queuing_state ≡ main)
          × (waited fuel rounds config w self ≡ none)
    unfolding wait_moves
    wait_never_ends fuel rounds config w self m ms e can =
        let (after, outputs, flush, state, kept) = flush-main fuel w self m ms e in
        let endless = wait_main source config rounds w main after.core.timing.print_time refl in
        (after, outputs, flush, state, rw (flush, state, kept ∙ can, endless) refl)
