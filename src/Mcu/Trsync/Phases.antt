-- ===== src/Mcu/Trsync/Phases.antt =====
-- The end of a homing move: which steppers are told, and when the host triggers by itself.
use klipper_go.Common.{
  ℕ, ◌+◌, ◌-◌, ◌≤◌, ◌≡◌, refl, true, false, Option, none, some, List, [], ◌∷◌, ◌++◌, arith, ◌==◌,
  if◌then◌else◌, Option-cases, Bool-cases, inl, inr, length,
}
use klipper_go.Common.Int.{ℤ}
use klipper_go.Mcu.Trsync.{
  Effect, homing_end_noted, slept_100ms, Trsync, Event, on_add, on_start, on_report, on_home_end,
  on_stop, on_shutdown, step, run, note_homing_ends, add_stepper, steppers_contain, stop,
}

abbrev pub occurrences : ℕ → List ℕ → ℕ
occurrences k [] = 0
occurrences k (s ∷ ss) = (if s == k then 1 else 0) + occurrences k ss

abbrev pub is_noted : ℕ → Effect → ℕ
is_noted k (homing_end_noted s) = if s == k then 1 else 0
is_noted k _ = 0

abbrev pub notes : ℕ → List Effect → ℕ
notes k [] = 0
notes k (e ∷ es) = is_noted k e + notes k es

abbrev pub is_pause : Effect → ℕ
is_pause slept_100ms = 1
is_pause _ = 0

abbrev pub pauses : List Effect → ℕ
pauses [] = 0
pauses (e ∷ es) = is_pause e + pauses es

-- Steppers are kept without repetition.
abbrev pub IsDistinct : Trsync → Type 0
IsDistinct self = (k : ℕ) → occurrences k self.steppers ≤ 1

occurrences-append :
    (k : ℕ) (xs ys : List ℕ) → occurrences k (xs ++ ys) ≡ occurrences k xs + occurrences k ys
occurrences-append k [] ys = omega arith
occurrences-append k (x ∷ xs) ys = omega (arith, occurrences-append k xs ys)

contains_occurrences : (k : ℕ) (ss : List ℕ) → steppers_contain k ss ≡ false → occurrences k ss ≡ 0
unfolding steppers_contain
contains_occurrences k [] h = refl
contains_occurrences k (s ∷ ss) h = ground (arith, contains_occurrences k ss)

add_stepper-IsDistinct : (s : ℕ) (self : Trsync) → IsDistinct self → IsDistinct (add_stepper s self)
unfolding add_stepper
add_stepper-IsDistinct s self h k = elim (Bool-cases (steppers_contain s self.steppers)) [
  | inl old ↦ rw old (h k)
  | inr new ↦ ground (
    arith,
    h k,
    occurrences-append k self.steppers (s ∷ []),
    contains_occurrences s self.steppers new,
  )
]

-- The calls that touch no stepper.
step-IsDistinct :
    (widen : ℤ → ℤ) (e : Event) (self self' : Trsync) (out : List Effect)
    → step widen e self ≡ some (self', out)
    → IsDistinct self
    → IsDistinct self'
step-IsDistinct widen (on_add s) self self' out h d k =
    let grown = add_stepper-IsDistinct s self d k in unfold step in ground arith
step-IsDistinct widen (on_start c plan) self self' out h d k =
    let now = d k in unfold step in ground arith
step-IsDistinct widen (on_report r) self self' out h d k =
    let now = d k in unfold step in ground arith
step-IsDistinct widen (on_home_end end') self self' out h d k =
    let now = d k in unfold step in ground arith
step-IsDistinct widen (on_stop true queried) self self' out h d k =
    let now = d k in unfold step in ground arith
step-IsDistinct widen (on_stop false queried) self self' out h d k =
    let now = d k in unfold step in ground arith
step-IsDistinct widen on_shutdown self self' out h d k =
    let now = d k in unfold step in ground arith

occurrences-contains :
    (k : ℕ) (ss : List ℕ)
    → occurrences k ss ≤ 1
    → occurrences k ss ≡ (if steppers_contain k ss then 1 else 0)
unfolding steppers_contain
occurrences-contains k [] h = refl
occurrences-contains k (s ∷ ss) h = ground (arith, occurrences-contains k ss)

run-IsDistinct :
    (widen : ℤ → ℤ) (es : List Event) (self last : Trsync) (out : List Effect)
    → run widen es self ≡ some (last, out)
    → IsDistinct self
    → IsDistinct last
unfolding run
run-IsDistinct widen [] self last out h d k = let now = d k in ground arith
run-IsDistinct widen (e ∷ es) self last out h d k = elim (Option-cases (step widen e self)) [
  | inl stuck ↦ ground arith
  | inr ((self', first), stepped) ↦ elim (Option-cases (run widen es self')) [
    | inl stuck ↦ ground arith
    | inr ((last', more), ran) ↦
        let now =
          run-IsDistinct widen es self' last' more ran
            (step-IsDistinct widen e self self' first stepped d) k in
        ground arith
  ]
]

notes-note_homing_ends : (k : ℕ) (ss : List ℕ) → notes k (note_homing_ends ss) ≡ occurrences k ss
unfolding note_homing_ends
notes-note_homing_ends k [] = refl
notes-note_homing_ends k (s ∷ []) = refl
notes-note_homing_ends k (s ∷ t ∷ ss) = omega (arith, notes-note_homing_ends k (t ∷ ss))

pauses-note_homing_ends : (ss : List ℕ) → pauses (note_homing_ends ss) ≡ length ss - 1
unfolding note_homing_ends
pauses-note_homing_ends [] = refl
pauses-note_homing_ends (s ∷ []) = refl
pauses-note_homing_ends (s ∷ t ∷ ss) = omega (arith, pauses-note_homing_ends (t ∷ ss))

-- After any sequence of calls that began with no stepper, `Stop` on a real machine notes the end of
-- homing for every stepper in the list exactly once, for no other stepper, and pauses once between
-- two of them; nobody waits afterwards.
pub stop-notes_each :
    (widen : ℤ → ℤ) (es : List Event) (waiting : Option ℕ) (end' : Option ℤ) (last : Trsync)
    (out : List Effect) (queried : ℤ) (k : ℕ)
    → run widen es (record { steppers = []; trigger_completion = waiting; home_end_clock = end' })
      ≡ some (last, out)
    → (notes k (stop false queried last).2 ≡ (if steppers_contain k last.steppers then 1 else 0))
      × (pauses (stop false queried last).2 ≡ length last.steppers - 1)
      × ((stop false queried last).0.trigger_completion ≡ none)
unfolding stop
stop-notes_each widen es waiting end' last out queried k h = (
  let d =
        run-IsDistinct widen es
          (record { steppers = []; trigger_completion = waiting; home_end_clock = end' }) last out h
          (λ j. omega arith) k in
      let n = notes-note_homing_ends k last.steppers in
      let o = occurrences-contains k last.steppers d in omega arith,
  let n = pauses-note_homing_ends last.steppers in omega arith,
  refl,
)
