-- ===== src/Motion/Drip/Short.antt =====
-- A drip ends, and no segment is handed out long before its time.
use klipper_go.Common.{
  ℕ, zero, suc, ◌+◌, ◌-◌, ◌≤◌, ◌<◌, min, max, true, false, ◌&&◌, Option, some, [], ◌∷◌, ltb, leb,
  ◌≡◌, refl, ◌⊎◌, inl, inr, Bool-cases, ◌∙◌, arith, All,
}
use klipper_go.Motion.Pause.{PauseTimeSource}
use klipper_go.Motion.Toolhead.{
  ToolheadTimingConfig, ToolheadTimingState, flush_at, advance_flush_time, move_loop, flush_from,
  flush_want, advance_move_time, note_movequeue_activity,
}
use klipper_go.Motion.Drip.{
  DripCompletion, ToolheadDripConfig, Segment, reached, drip_mode_end, flush_delay, activity_until,
  Dripped, drip_loop, update_drip_time,
}

-- What an advance leaves as it is.
abbrev Keeps : ToolheadTimingState → ToolheadTimingState → Type 0
Keeps before after =
    (after.print_time ≡ before.print_time)
    × (after.can_pause ≡ before.can_pause)
    × (after.kin_flush_delay ≡ before.kin_flush_delay)

move_loop-Keeps :
    (fuel from want : ℕ) (config : ToolheadTimingConfig) (self : ToolheadTimingState)
    → Keeps self (move_loop fuel from want config self).0
unfolding move_loop advance_flush_time flush_at
move_loop-Keeps zero from want config self = (refl, refl, refl)
move_loop-Keeps (suc fuel) from want config self =
    let time = min (from + config.move_batch_time) want in
    elim (Bool-cases (leb want time)) [
      | inl last ↦ rw last (refl, refl, refl)
      | inr more ↦
          rw more (move_loop-Keeps fuel time want config (advance_flush_time time config self).0)
    ]

advance_move_time-time :
    (next : ℕ) (config : ToolheadTimingConfig) (self : ToolheadTimingState)
    → let after = (advance_move_time next config self).0 in
      (after.print_time ≡ max self.print_time next) × (after.can_pause ≡ self.can_pause)
unfolding advance_move_time
advance_move_time-time next config self =
    let (print, can, _) =
      move_loop-Keeps (suc (flush_want next config self - flush_from config self))
        (flush_from config self) (flush_want next config self) config
        (record self { print_time = max self.print_time next }) in
    (print, can)

pub activity_until-time :
    (time : ℕ) (timing : ToolheadTimingConfig) (runtime : ToolheadTimingState)
    → let after = (activity_until time timing runtime).0 in
      (after.print_time ≡ max runtime.print_time time) × (after.can_pause ≡ runtime.can_pause)
unfolding activity_until note_movequeue_activity
activity_until-time time timing runtime =
    advance_move_time-time time timing
      (note_movequeue_activity (time + runtime.kin_flush_delay) true runtime).0

module _ {World : Type 0} (source : PauseTimeSource World) (completion : DripCompletion World)
    (config : ToolheadDripConfig) (timing : ToolheadTimingConfig) where
  open source use {monotonic}
  open source use {estimated_print_time as estimated}
  open completion use {test, wait}

  -- After a wait for a later time the completion is there, or a later print time is estimated.
  abbrev pub Wakes : Type 0
  Wakes =
      (w : World) (waketime : ℕ)
      → monotonic w < waketime
      → (test (wait w waketime) ≡ true)
        ⊎ (estimated w (monotonic w) < estimated (wait w waketime) (monotonic (wait w waketime)))

  -- A segment ends at most a segment's length behind what may be flushed when it is handed out.
  abbrev pub IsShort : ℕ → Segment → Type 0
  IsShort delay s = s.end_time ≤ s.estimated_print_time + delay + config.drip_segment_time

  abbrev pub Ends : ℕ → ℕ → ToolheadTimingState → Dripped World → Type 0
  Ends delay next runtime (w, after, segments, end) =
      ((end ≡ reached) × (after.print_time ≡ max runtime.print_time next)
        ⊎ (end ≡ drip_mode_end) × (test w ≡ true) × (after.print_time < next))
      × (runtime.print_time ≤ after.print_time)
      × (runtime.can_pause ≡ true → All (IsShort delay) segments)

  abbrev Runs : ℕ → ℕ → World → ToolheadTimingState → Option (Dripped World) → Type 0
  Runs delay next w runtime dripped =
      (d : Dripped World) × (dripped ≡ some d) × Ends delay next runtime d

  drip_stops :
      (fuel delay next : ℕ) (w : World) (runtime : ToolheadTimingState)
      → 1 ≤ fuel
      → test w ≡ true
      → runtime.print_time < next
      → Runs delay next w runtime
          (drip_loop source completion config timing fuel delay next w runtime)
  unfolding drip_loop
  drip_stops zero delay next w runtime some_fuel stop before = absurd (omega (arith, some_fuel))
  drip_stops (suc fuel) delay next w runtime some_fuel stop before =
      let ahead : leb next runtime.print_time ≡ false = ground arith in
      (
        (w, runtime, [], drip_mode_end),
        rw (ahead, stop) refl,
        (inr (refl, stop, before), omega arith, λ _. tt),
      )

  handed-Ends :
      (delay next : ℕ) (runtime after : ToolheadTimingState) (s : Segment) (d : Dripped World)
      → runtime.print_time ≤ after.print_time
      → after.print_time ≤ max runtime.print_time next
      → after.can_pause ≡ runtime.can_pause
      → (runtime.can_pause ≡ true → IsShort delay s)
      → Ends delay next after d
      → Ends delay next runtime (d.0, d.1, s ∷ d.2, d.3)
  handed-Ends delay next runtime after s (w, last, segments, end) later below can short
        (how, kept, all) =
      (
        elim how [
          | inl (e, time) ↦ inl (e, omega (arith, time, later, below))
          | inr stopped ↦ inr stopped
        ],
        omega (arith, later, kept),
        λ h. (short h, all (can ∙ h)),
      )

  drip_loop-Runs :
      (fuel delay next : ℕ) (w : World) (runtime : ToolheadTimingState)
      → Wakes
      → 1 ≤ config.drip_segment_time
      → (next - runtime.print_time) + (next - estimated w (monotonic w)) < fuel
      → Runs delay next w runtime
          (drip_loop source completion config timing fuel delay next w runtime)
  unfolding drip_loop
  drip_loop-Runs zero delay next w runtime wakes long enough = absurd (omega (arith, enough))
  drip_loop-Runs (suc fuel) delay next w runtime wakes long enough =
      let est = estimated w (monotonic w) in
      let wake = monotonic w + (runtime.print_time - est - delay) in
      let segment = min (runtime.print_time + config.drip_segment_time) next in
      let after = (activity_until segment timing runtime).0 in
      let handed : Segment = record {
        estimated_print_time = est;
        end_time = segment;
        flushes = (activity_until segment timing runtime).1;
        kicked = (activity_until segment timing runtime).2;
      } in
      let (time, can) = activity_until-time segment timing runtime in
      elim (Bool-cases (leb next runtime.print_time)) [
        | inl reached_time ↦ (
          (w, runtime, [], reached),
          rw reached_time refl,
          (inl (refl, ground arith), omega arith, λ _. tt),
        )
        | inr before ↦ elim (Bool-cases (test w)) [
          | inl stop ↦
              rw (before, stop)
                (
                  (w, runtime, [], drip_mode_end),
                  refl,
                  (inr (refl, stop, ground arith), omega arith, λ _. tt),
                )
          | inr going ↦
              elim (Bool-cases (ltb (est + delay) runtime.print_time && runtime.can_pause)) [
                | inl early ↦
                    rw (before, going, early)
                      (elim (wakes w wake (ground arith)) [
                        | inl stopped ↦
                            drip_stops fuel delay next (wait w wake) runtime (ground arith) stopped
                              (ground arith)
                        | inr later ↦
                            drip_loop-Runs fuel delay next (wait w wake) runtime wakes long
                              (ground arith)
                      ])
                | inr due ↦
                    (let (d, runs, ends) =
                        drip_loop-Runs fuel delay next w after wakes long (ground arith) in
                      (
                        (d.0, d.1, handed ∷ d.2, d.3),
                        rw (before, going, due, runs) refl,
                        handed-Ends delay next runtime after handed d (omega (arith, time))
                            (omega (arith, time)) can
                            (λ (h : runtime.can_pause ≡ true). ground arith) ends,
                      ))
              ]
        ]
      ]

  -- With a segment time above zero, and waits after which the completion is there or the print clock has
  -- moved on, UpdateToolheadDripTime ends: the microseconds up to the time wanted, by the print time and by
  -- the estimate, are rounds enough. Either the print time is the later of the old and the wanted one, or
  -- the completion is there and the print time is before the wanted one; it never goes back. Where pausing
  -- is possible each segment, when it is handed out, ends at most DripSegmentTime behind the estimate and
  -- the flush delay.
  pub drip-Ends :
      (fuel next : ℕ) (w : World) (runtime : ToolheadTimingState)
      → Wakes
      → 1 ≤ config.drip_segment_time
      → (next - runtime.print_time) + (next - estimated w (monotonic w)) < fuel
      → (d : Dripped World) × (update_drip_time source completion config timing fuel next w runtime
          ≡ some d)
        × Ends (flush_delay config runtime) next runtime d
  unfolding update_drip_time
  drip-Ends fuel next w runtime wakes long enough =
      drip_loop-Runs fuel (flush_delay config runtime) next w runtime wakes long enough
