-- ===== src/Motion/FlushTimer/Progress.antt =====
-- The flush timer makes progress.
use klipper_go.Common.{
  ℕ, ◌+◌, ◌-◌, ◌*◌, ◌≤◌, ◌<◌, min, max, Bool, true, false, ◌&&◌, List, [], ◌∷◌, ◌++◌, ltb, leb, ◌≡◌,
  refl, ◌⊎◌, inl, inr, Bool-cases, if◌then◌else◌, arith,
}
use klipper_go.Common.Int.{pos, sub_ℕ, ◌<ℤ◌, sub_ℕ-parts}
use klipper_go.Motion.FlushTimer.{
  ToolheadFlushConfig, ToolheadFlushHandlerState, ToolheadFlushHandlerPlan, batch_time, end_time,
  end_plan, end_flush_of, wake_or_end, steps_if, step_gen_plan, build_flush_plan,
}

-- The last flush time of a plan.
abbrev last_of : ℕ → List ℕ → ℕ
last_of last [] = last
last_of last (time ∷ times) = last_of time times

-- Everything needed is flushed, or the next call is later, or steps are due beyond those generated.
abbrev pub Progresses :
    ℕ → ToolheadFlushHandlerState → ToolheadFlushConfig → ToolheadFlushHandlerPlan → Type 0
Progresses eventtime state config plan =
    ((plan.return_never ≡ true)
      × (end_flush_of state config ≤ last_of state.last_flush_time plan.advance_flush_times))
    ⊎ ((plan.return_never ≡ false) × (pos eventtime <ℤ plan.next_wake_time))
    ⊎ ((plan.return_never ≡ false)
        × (state.last_step_gen_time + 1
            ≤ last_of 0 plan.advance_flush_times + config.stepcompress_flush_time))

wake_later : (eventtime a b : ℕ) → b < a → pos eventtime <ℤ sub_ℕ (eventtime + a) b
wake_later eventtime a b h = omega (arith, h, sub_ℕ-parts (eventtime + a) b)

last_of-append :
    (start : ℕ) (times : List ℕ) (time : ℕ) → last_of start (times ++ (time ∷ [])) ≡ time
last_of-append start [] time = refl
last_of-append start (t ∷ times) time = last_of-append t times time

reached_time :
    (start : ℕ) (times : List ℕ) (last time target : ℕ) (advanced : Bool)
    → ltb last time ≡ advanced
    → last ≤ time
    → last_of start times ≡ last
    → target ≤ time
    → target ≤ last_of start (if advanced then times ++ (time ∷ []) else times)
reached_time start times last time target true h g e k = rw (last_of-append start times time) k
reached_time start times last time target false h g e k = ground (arith, h, g, e, k)

end_time_lem :
    (last target est : ℕ) (config : ToolheadFlushConfig)
    → let time = end_time last target est config in
      (last ≤ time) × (time < target → est + config.bg_flush_high_time ≤ time)
unfolding end_time
end_time_lem last target est config = (ground arith, λ h. ground (arith, h))

end_plan-Progresses :
    (eventtime est : ℕ) (lookahead : Bool) (times : List ℕ) (last : ℕ)
    (state : ToolheadFlushHandlerState) (config : ToolheadFlushConfig)
    → config.bg_flush_low_time < config.bg_flush_high_time
    → last_of state.last_flush_time times ≡ last
    → Progresses eventtime state config
        (end_plan eventtime est lookahead times last (end_flush_of state config) config)
unfolding end_plan
end_plan-Progresses eventtime est lookahead times last state config gap e =
    let target = end_flush_of state config in
    let time = end_time last target est config in
    let (later, high) = end_time_lem last target est config in
    elim (Bool-cases (leb target time)) [
      | inl reached ↦ rw reached (
          inl (
            refl,
            reached_time state.last_flush_time times last time target (ltb last time) refl later e
                (ground (arith, reached)),
          ))
      | inr short ↦ rw short (
          inr (
            inl (
              refl,
              wake_later eventtime time (config.bg_flush_low_time + est)
                  (let far = high (ground (arith, short)) in omega (arith, far, gap)),
            )))
    ]

-- Steps that need no advance now are ahead of the lower mark.
ahead_of_mark :
    (last est aggressive : ℕ) (config : ToolheadFlushConfig)
    → config.bg_flush_sg_low_time < config.bg_flush_sg_high_time
    → last < aggressive
    → ltb last (min (batch_time last est config) aggressive) ≡ false
    → config.bg_flush_sg_low_time + est < last
unfolding batch_time
ahead_of_mark last est aggressive config gap behind h = ground (arith, gap, behind, h)

module _ (eventtime est : ℕ) (lookahead : Bool) (state : ToolheadFlushHandlerState)
    (config : ToolheadFlushConfig)
    (gap : config.bg_flush_low_time < config.bg_flush_high_time) where
  advanced-Progresses :
      (behind : Bool) (want time : ℕ)
      → state.last_step_gen_time < want
      → want ≤ time + config.stepcompress_flush_time
      → Progresses eventtime state config
          (wake_or_end behind eventtime est lookahead (time ∷ []) time want state config)
  unfolding wake_or_end
  advanced-Progresses true want time h k = inr (inr (refl, omega (arith, h, k)))
  advanced-Progresses false want time h k =
      end_plan-Progresses eventtime est lookahead (time ∷ []) time state config gap refl

  kept-Progresses :
      (behind : Bool)
      → config.bg_flush_sg_low_time + est < state.last_step_gen_time
      → Progresses eventtime state config (
          wake_or_end behind eventtime est lookahead [] state.last_flush_time
            state.last_step_gen_time state config)
  unfolding wake_or_end
  kept-Progresses true h = inr (
      inl
        (refl, wake_later eventtime state.last_step_gen_time (config.bg_flush_sg_low_time + est) h))
  kept-Progresses false h =
      end_plan-Progresses eventtime est lookahead [] state.last_flush_time state config gap refl

  steps-Progresses :
      (advanced : Bool) (aggressive : ℕ)
      → config.bg_flush_sg_low_time < config.bg_flush_sg_high_time
      → state.last_step_gen_time < aggressive
      → let want = min (batch_time state.last_step_gen_time est config) aggressive in
        ltb state.last_step_gen_time want ≡ advanced
        → Progresses eventtime state config
            (steps_if advanced want aggressive eventtime est lookahead state config)
  unfolding steps_if
  steps-Progresses true aggressive sg_gap behind h =
      let want = min (batch_time state.last_step_gen_time est config) aggressive in
      let time = max state.last_flush_time (want - config.stepcompress_flush_time) in
      advanced-Progresses (ltb want aggressive) want time (ground (arith, h)) (omega arith)
  steps-Progresses false aggressive sg_gap behind h =
      kept-Progresses (ltb state.last_step_gen_time aggressive)
        (ahead_of_mark state.last_step_gen_time est aggressive config sg_gap behind h)

buffer_full :
    (lookahead : Bool) (est low print : ℕ)
    → (lookahead && ltb (est + low) print) ≡ true
    → low < print - est
buffer_full true est low print h = ground (arith, h)
buffer_full false est low print h = cc

-- With the high marks above the low ones, a call of the flush timer makes progress: it asks for no
-- further call only when all that needs flushing is flushed by the times it hands out, or else the next
-- call comes later than this one, or the last flush time that it hands out reaches steps behind those
-- generated so far. So the timer never spins in place.
pub timer_never_spins :
    (eventtime est : ℕ) (state : ToolheadFlushHandlerState) (config : ToolheadFlushConfig)
    → config.bg_flush_low_time < config.bg_flush_high_time
    → config.bg_flush_sg_low_time < config.bg_flush_sg_high_time
    → Progresses eventtime state config (build_flush_plan eventtime est state config)
unfolding build_flush_plan step_gen_plan
timer_never_spins eventtime est state config gap sg_gap =
    let aggressive = state.need_step_gen_time - 2 * state.kin_flush_delay in
    let lookahead = if state.is_special then false else true in
    elim (Bool-cases (lookahead && ltb (est + config.buffer_time_low) state.print_time)) [
      | inl full ↦ rw full (
          inr (
            inl (
              refl,
              wake_later eventtime (state.print_time - est) config.buffer_time_low
                  (buffer_full lookahead est config.buffer_time_low state.print_time full),
            )))
      | inr low ↦ elim (Bool-cases (ltb state.last_step_gen_time aggressive)) [
        | inl behind ↦
            rw (low, behind)
              (steps-Progresses eventtime est lookahead state config gap
                (ltb state.last_step_gen_time
                  (min (batch_time state.last_step_gen_time est config) aggressive))
                aggressive sg_gap (ground (arith, behind)) refl)
        | inr enough ↦
            rw (low, enough)
              (end_plan-Progresses eventtime est lookahead [] state.last_flush_time state config gap
                refl)
      ]
    ]
