-- ===== src/Motion/Pause/Ends.antt =====
-- The loops of toolhead_pause.go end where the clock of the controller moves on during a pause.
use klipper_go.Common.{
  ℕ, zero, suc, ◌+◌, ◌-◌, ◌≤◌, ◌<◌, min, Bool, true, false, Option, some, leb, ◌≡◌, refl, inl, inr,
  Bool-cases, if◌then◌else◌, arith,
}
use klipper_go.Common.Int.{pos}
use klipper_go.Motion.Pause.{
  priming, is_special, PauseTimeSource, ToolheadPauseConfig, ToolheadPauseState,
  ToolheadPauseResult, never, primed, pause_loop, next_check, pause_result, run_pause_check,
  priming_wake,
}

module _ {World : Type 0} (source : PauseTimeSource World) (config : ToolheadPauseConfig) where
  open source use {monotonic, pause}
  open source use {estimated_print_time as estimated}

  -- A pause to a later time leaves a later print time estimated.
  abbrev pub Ticks : Type 0
  Ticks =
      (w : World) (eventtime waketime : ℕ)
      → eventtime < waketime
      → estimated w eventtime < estimated (pause w waketime).0 (pause w waketime).1

  -- How the loop was left.
  abbrev Left : Bool → World → ℕ → Option (World × Bool × ℕ × ℕ) → Type 0
  Left can w print left =
      (w' : World) × (broke : Bool) × (eventtime' : ℕ) × (left
        ≡ some (w', broke, eventtime', estimated w' eventtime'))
      × (can ≡ true → broke ≡ true)
      × (can ≡ false → w' ≡ w)
      × (broke ≡ true → print ≤ estimated w' eventtime' + config.buffer_time_high)
      × (broke ≡ false → estimated w' eventtime' + config.buffer_time_high < print)

  pause_loop-waits :
      (fuel : ℕ) (w : World) (eventtime print : ℕ)
      → Ticks
      → 1 ≤ config.max_pause_duration
      → print - estimated w eventtime < fuel
      → (w' : World) × (eventtime' : ℕ) × (pause_loop source config fuel w eventtime
            (estimated w eventtime)
            print
            true
          ≡ some (w', true, eventtime', estimated w' eventtime'))
        × (print ≤ estimated w' eventtime' + config.buffer_time_high)
  unfolding pause_loop
  pause_loop-waits zero w eventtime print ticks long enough = absurd (omega (arith, enough))
  pause_loop-waits (suc fuel) w eventtime print ticks long enough =
      let est = estimated w eventtime in
      let wake =
        eventtime + min config.max_pause_duration (print - est - config.buffer_time_high) in
      elim (Bool-cases (leb print (est + config.buffer_time_high))) [
        | inl near ↦ (w, eventtime, rw near refl, ground arith)
        | inr far ↦
            (let later = ticks w eventtime wake (ground arith) in
              rw far (
                pause_loop-waits fuel (pause w wake).0 (pause w wake).1 print ticks long
                  (ground arith)))
      ]

  pause_loop-Left :
      (can : Bool) (fuel : ℕ) (w : World) (eventtime print : ℕ)
      → Ticks
      → 1 ≤ config.max_pause_duration
      → print - estimated w eventtime < fuel
      → Left can w print
          (pause_loop source config fuel w eventtime (estimated w eventtime) print can)
  unfolding pause_loop
  pause_loop-Left true fuel w eventtime print ticks long enough =
      let (w', eventtime', left, near) =
        pause_loop-waits fuel w eventtime print ticks long enough in
      (w', true, eventtime', left, λ _. refl, λ e. cc, λ _. near, λ e. cc)
  pause_loop-Left false zero w eventtime print ticks long enough = absurd (omega (arith, enough))
  pause_loop-Left false (suc fuel) w eventtime print ticks long enough =
      elim (Bool-cases (leb print (estimated w eventtime + config.buffer_time_high))) [
        | inl near ↦
            rw near (w, true, eventtime, refl, λ e. cc, λ _. refl, λ _. ground arith, λ e. cc)
        | inr far ↦
            rw far (w, false, eventtime, refl, λ e. cc, λ _. refl, λ e. cc, λ _. ground arith)
      ]

  -- What a check leaves: the state of the queue, and the time of the next check.
  abbrev pub Checked : World → ToolheadPauseState → World × ToolheadPauseResult → Type 0
  Checked w state (w', r) =
      let high = config.buffer_time_high in
      (r.state.print_time ≡ state.print_time)
      × (state.can_pause ≡ true → state.print_time ≤ r.estimated_print_time + high)
      × (state.can_pause ≡ false → w' ≡ w)
      × (is_special state.special_queuing_state ≡ false
          → (r.state.special_queuing_state ≡ state.special_queuing_state)
            × (r.needs_priming_timer ≡ false)
            × (r.state.need_check_pause ≡ (
                if leb state.print_time (r.estimated_print_time + high)
                then pos (r.estimated_print_time + high + config.pause_check_offset)
                else never)))
      × (is_special state.special_queuing_state ≡ true
          → (r.state.special_queuing_state ≡ priming)
            × (r.needs_priming_timer ≡ true)
            × (monotonic w + config.min_priming_delay ≤ r.priming_wake_time))

  primed-print_time :
      (est : ℕ) (state : ToolheadPauseState) → (primed est state).print_time ≡ state.print_time
  unfolding primed
  primed-print_time est state = ground arith

  primed_main :
      (est : ℕ) (state : ToolheadPauseState)
      → is_special state.special_queuing_state ≡ false
      → primed est state ≡ state
  unfolding primed
  primed_main est state h = rw h refl

  primed_special :
      (est : ℕ) (state : ToolheadPauseState)
      → is_special state.special_queuing_state ≡ true
      → (primed est state).special_queuing_state ≡ priming
  unfolding primed
  primed_special est state h = rw h refl

  next_check_main :
      (broke : Bool) (est print : ℕ) (state : ToolheadPauseState)
      → is_special state.special_queuing_state ≡ false
      → (broke ≡ true → print ≤ est + config.buffer_time_high)
      → (broke ≡ false → est + config.buffer_time_high < print)
      → next_check source config broke est state ≡ (
          if leb print (est + config.buffer_time_high)
          then pos (est + config.buffer_time_high + config.pause_check_offset)
          else never)
  unfolding next_check
  next_check_main true est print state h near far = let near' = near refl in rw h (ground arith)
  next_check_main false est print state h near far = let far' = far refl in ground arith

  wake-le :
      (eventtime est : ℕ) (state : ToolheadPauseState)
      → is_special state.special_queuing_state ≡ true
      → eventtime + config.min_priming_delay ≤ priming_wake eventtime est config state
  unfolding priming_wake
  wake-le eventtime est state h = rw h (omega arith)

  -- Where the print clock moves on in a pause, the check ends, with a round for each microsecond that is
  -- buffered and one more as fuel. It keeps the print time. Where pausing is possible no more than
  -- BufferTimeHigh is buffered then; elsewhere nothing is waited for. In the main state the next check is
  -- due when the buffer may be too full again, and never when it is too full and no pause is possible. In
  -- any other state the toolhead is priming, and the timer for it is set no earlier than MinPrimingDelay.
  pub pause_check_ends :
      (fuel : ℕ) (w : World) (state : ToolheadPauseState)
      → Ticks
      → 1 ≤ config.max_pause_duration
      → state.print_time - estimated w (monotonic w) < fuel
      → (after : World × ToolheadPauseResult) × (run_pause_check source config fuel w state
          ≡ some after)
        × Checked w state after
  unfolding run_pause_check
  pause_check_ends fuel w state ticks long enough =
      let (w', broke, eventtime', left, can, cannot, near, far) =
        pause_loop-Left state.can_pause fuel w (monotonic w) state.print_time ticks long enough in
      (
        pause_result source config (monotonic w) (estimated w (monotonic w)) state
            (w', broke, eventtime', estimated w' eventtime'),
        rw left refl,
        (
          primed-print_time (estimated w (monotonic w)) state,
          λ h. near (can h),
          cannot,
          λ h. rw (primed_main (estimated w (monotonic w)) state h) (
            refl,
            h,
            next_check_main broke (estimated w' eventtime') state.print_time state h near far,
          ),
          λ h. (
            primed_special (estimated w (monotonic w)) state h,
            h,
            wake-le (monotonic w) (estimated w (monotonic w)) state h,
          ),
        ),
      )
