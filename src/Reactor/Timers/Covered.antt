-- ===== src/Reactor/Timers/Covered.antt =====
-- The reactor never sleeps past a timer.
use klipper_go.Common.{
  ℕ, ◌+◌, min, max, ◌≤◌, ◌<◌, ◌≡◌, refl, ◌⊎◌, inl, inr, Bool, true, false, ◌||◌, List, [], ◌∷◌,
  ◌++◌, ◌==◌, ==_iff, ltb, leb, arith, Bool-cases,
}
use klipper_go.Reactor.Timers.{
  Reactor, Op, registers, unregisters, updates, Callbacks, update, apply, apply_all, without,
  Looked, fire, round, timer_loop, idle_timeout, checked, check_timers, new_reactor, never,
}

abbrev pub contains : ℕ → List ℕ → Bool
contains t [] = false
contains t (u ∷ us) = u == t || contains t us

-- Every registered timer outside `apart` has a time that is not before the next one noted.
abbrev pub Covers : List ℕ → Reactor → Type 0
Covers apart r =
    (u : ℕ) → contains u r.timers ≡ true → contains u apart ≡ false → r.next_timer ≤ r.waketime u

contains-append :
    (t : ℕ) (xs ys : List ℕ) → contains t (xs ++ ys) ≡ (contains t xs || contains t ys)
contains-append t [] ys = refl
contains-append t (x ∷ xs) ys = ground (arith, contains-append t xs ys)

contains-without :
    (t u : ℕ) (us : List ℕ)
    → contains u (without t us) ≡ true
    → (contains u us ≡ true) × (u == t ≡ false)
unfolding without
contains-without t u [] h = ground arith
contains-without t u (v ∷ us) h = ground (arith, contains-without t u us)

apply-Covers : (o : Op) (apart : List ℕ) (r : Reactor) → Covers apart r → Covers apart (apply o r)
unfolding apply
apply-Covers (registers w) apart r h u inside outside =
    ground (arith, h u, contains-append u r.timers (r.created ∷ []))
apply-Covers (unregisters t) apart r h u inside outside =
    ground (arith, h u, contains-without t u r.timers)
apply-Covers (updates t w) apart r h u inside outside = ground (arith, h u)

apply_all-Covers :
    (os : List Op) (apart : List ℕ) (r : Reactor) → Covers apart r → Covers apart (apply_all os r)
unfolding apply_all
apply_all-Covers [] apart r h = h
apply_all-Covers (o ∷ os) apart r h =
    apply_all-Covers os apart (apply o r) (apply-Covers o apart r h)

-- A timer that has been looked at counts from then on.
fire-Covers :
    (callback : Callbacks) (eventtime t : ℕ) (ts : List ℕ) (r : Reactor)
    → Covers (t ∷ ts) r
    → Covers ts (fire callback eventtime t r).0
unfolding fire
fire-Covers callback eventtime t ts r h u inside outside =
    let cleared : Reactor = record r { waketime = update r.waketime t never } in
    let outcome = callback t eventtime cleared in
    let start : Covers (t ∷ ts) cleared = λ v p q. ground (arith, h v) in
    let done = apply_all-Covers outcome.ops (t ∷ ts) cleared start u inside in
    elim (Bool-cases (u == t)) [
      | inl here ↦ ground arith
      | inr other ↦ ground (arith, done (ground arith))
    ]

skip-Covers :
    (t : ℕ) (ts : List ℕ) (r : Reactor)
    → Covers (t ∷ ts) r
    → Covers ts (record r { next_timer = min r.next_timer (r.waketime t) })
skip-Covers t ts r h u inside outside = elim (Bool-cases (u == t)) [
  | inl here ↦ ground (arith, ==_iff u t)
  | inr other ↦ ground (arith, h u)
]

round-Covers :
    (due : Bool) (t : ℕ) (ts : List ℕ) (r : Reactor) (fired : Reactor × Bool)
    (rest : Reactor → Looked)
    → Covers (t ∷ ts) r
    → Covers ts fired.0
    → ((r' : Reactor) → Covers ts r' → (rest r').switched ≡ false → Covers [] (rest r').reactor)
    → (round due t fired r rest).switched ≡ false
    → Covers [] (round due t fired r rest).reactor
unfolding round
round-Covers false t ts r (after, switched) rest h hf go calm =
    go (record r { next_timer = min r.next_timer (r.waketime t) }) (skip-Covers t ts r h) calm
round-Covers true t ts r (after, true) rest h hf go calm = ground arith
round-Covers true t ts r (after, false) rest h hf go calm = go after hf calm

timer_loop-Covers :
    (callback : Callbacks) (eventtime : ℕ) (ts : List ℕ) (r : Reactor)
    → Covers ts r
    → (timer_loop callback eventtime ts r).switched ≡ false
    → Covers [] (timer_loop callback eventtime ts r).reactor
unfolding timer_loop
timer_loop-Covers callback eventtime [] r h calm = h
timer_loop-Covers callback eventtime (t ∷ ts) r h calm =
    round-Covers (leb (r.waketime t) eventtime) t ts r (fire callback eventtime t r)
      (timer_loop callback eventtime ts) h (fire-Covers callback eventtime t ts r h)
      (timer_loop-Covers callback eventtime ts) calm

checked-Covers :
    (waits : Bool) (timeout : ℕ) (r : Reactor) (looked : Looked)
    → Covers [] r
    → (looked.switched ≡ false → Covers [] looked.reactor)
    → (checked waits timeout r looked).switched ≡ false
    → Covers [] (checked waits timeout r looked).reactor
unfolding checked
checked-Covers true timeout r looked h after calm = h
checked-Covers false timeout r looked h after calm = after calm

check_timers-Covers :
    (callback : Callbacks) (eventtime : ℕ) (busy : Bool) (r : Reactor)
    → Covers [] r
    → (check_timers callback eventtime busy r).switched ≡ false
    → Covers [] (check_timers callback eventtime busy r).reactor
unfolding check_timers
check_timers-Covers callback eventtime busy r h calm =
    let start : Reactor = record r { next_timer = never } in
    let unseen : Covers r.timers start = λ u p q. ground arith in
    checked-Covers (ltb eventtime r.next_timer) (idle_timeout eventtime busy r) r
      (timer_loop callback eventtime r.timers start) h
      (timer_loop-Covers callback eventtime r.timers start unseen) calm

-- The states of a reactor between two calls: operations, and checks during which no other greenlet
-- took over.
pub data Reached : Reactor → Type 0 where
  starts : Reached new_reactor
  does : (o : Op) (r : Reactor) → Reached r → Reached (apply o r)
  checks :
      (callback : Callbacks) (eventtime : ℕ) (busy : Bool) (r : Reactor)
      → Reached r
      → (check_timers callback eventtime busy r).switched ≡ false
      → Reached (check_timers callback eventtime busy r).reactor

Reached-Covers : (r : Reactor) → Reached r → Covers [] r
unfolding new_reactor
Reached-Covers _ starts = λ u p q. ground arith
Reached-Covers _ (does o r h) = apply-Covers o [] r (Reached-Covers r h)
Reached-Covers _ (checks callback eventtime busy r h calm) =
    check_timers-Covers callback eventtime busy r (Reached-Covers r h) calm

-- In every state that a new reactor reaches by registering, updating and unregistering timers and by
-- checks that no other greenlet interrupts, whose callbacks do the same, a check does not oversleep:
-- for each registered timer it either finds the timer not due yet or goes through the timers, and the
-- time that it then waits is at most one second and ends, but for the least wait of one millisecond,
-- no later than the timer's time.
pub sleeps_in_time :
    (callback : Callbacks) (eventtime : ℕ) (busy : Bool) (r : Reactor) (u : ℕ)
    → Reached r
    → contains u r.timers ≡ true
    → ((eventtime < r.waketime u) ⊎ (r.next_timer ≤ eventtime))
      × ((check_timers callback eventtime busy r).timeout ≤ 1_000_000)
      × (eventtime + (check_timers callback eventtime busy r).timeout
          ≤ max (eventtime + 1_000) (r.waketime u))
unfolding check_timers idle_timeout checked
sleeps_in_time callback eventtime busy r u reached inside =
    let covered = Reached-Covers r reached u inside refl in ground arith
