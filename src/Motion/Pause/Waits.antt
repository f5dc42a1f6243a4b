-- ===== src/Motion/Pause/Waits.antt =====
-- How `WaitToolheadMoves` waits.
use klipper_go.Common.{
  ℕ, zero, suc, ◌+◌, ◌-◌, ◌≤◌, ◌<◌, Bool, true, false, some, none, leb, ◌≡◌, refl, inl, inr,
  Bool-cases, arith,
}
use klipper_go.Motion.Pause.{
  SpecialQueuingState, is_special, PauseTimeSource, ToolheadPauseConfig, wait_loop,
  wait_toolhead_moves,
}
use klipper_go.Motion.Pause.Ends.{Ticks}

module _ {World : Type 0} (source : PauseTimeSource World) (config : ToolheadPauseConfig) where
  open source use {monotonic, pause}
  open source use {estimated_print_time as estimated}

  wait_loop-ends :
      (fuel : ℕ) (w : World) (eventtime print : ℕ)
      → Ticks source config
      → 1 ≤ config.wait_move_delay
      → print + 1 - estimated w eventtime < fuel
      → (w' : World) × (eventtime' : ℕ) × (wait_loop source config fuel w eventtime true print true
          ≡ some (w', eventtime'))
        × (print < estimated w' eventtime')
  unfolding wait_loop
  wait_loop-ends zero w eventtime print ticks long enough = absurd (omega (arith, enough))
  wait_loop-ends (suc fuel) w eventtime print ticks long enough =
      let wake = eventtime + config.wait_move_delay in
      elim (Bool-cases (leb (estimated w eventtime) print)) [
        | inl before ↦
            (let later = ticks w eventtime wake (omega (arith, long)) in
              rw before (
                wait_loop-ends fuel (pause w wake).0 (pause w wake).1 print ticks long
                  (ground arith)))
        | inr reached ↦ (w, eventtime, rw reached refl, ground arith)
      ]

  wait_loop_main :
      (fuel : ℕ) (w : World) (eventtime print : ℕ)
      → wait_loop source config fuel w eventtime false print true ≡ none
  unfolding wait_loop
  wait_loop_main zero w eventtime print = refl
  wait_loop_main (suc fuel) w eventtime print =
      wait_loop_main fuel (pause w (eventtime + config.wait_move_delay)).0
        (pause w (eventtime + config.wait_move_delay)).1 print

  wait_loop_cannot :
      (fuel : ℕ) (w : World) (eventtime print : ℕ) (special : Bool)
      → wait_loop source config (suc fuel) w eventtime special print false ≡ some (w, eventtime)
  unfolding wait_loop
  wait_loop_cannot fuel w eventtime print special = ground arith

  -- Where pausing is possible and the state read is not the main one.
  pub wait-ends :
      (fuel : ℕ) (w : World) (state : SpecialQueuingState) (print : ℕ)
      → Ticks source config
      → 1 ≤ config.wait_move_delay
      → is_special state ≡ true
      → print + 1 - estimated w (monotonic w) < fuel
      → (w' : World) × (eventtime' : ℕ) × (wait_toolhead_moves source config fuel w state print true
          ≡ some (w', eventtime'))
        × (print < estimated w' eventtime')
  unfolding wait_toolhead_moves
  wait-ends fuel w state print ticks long special enough =
      rw special (wait_loop-ends fuel w (monotonic w) print ticks long enough)

  -- Where it is possible and the state read is the main one.
  pub wait_main :
      (fuel : ℕ) (w : World) (state : SpecialQueuingState) (print : ℕ)
      → is_special state ≡ false
      → wait_toolhead_moves source config fuel w state print true ≡ none
  unfolding wait_toolhead_moves
  wait_main fuel w state print main = rw main (wait_loop_main fuel w (monotonic w) print)

  pub wait_cannot :
      (fuel : ℕ) (w : World) (state : SpecialQueuingState) (print : ℕ)
      → wait_toolhead_moves source config (suc fuel) w state print false ≡ some (w, monotonic w)
  unfolding wait_toolhead_moves
  wait_cannot fuel w state print = wait_loop_cannot fuel w (monotonic w) print (is_special state)
