-- ===== src/Print/IdleTimeout/Wakes.antt =====
-- When the idle timer looks again.
use klipper_go.Common.{
  ◌+◌, ◌≡◌, refl, ◌⊎◌, inl, inr, Bool-cases, Bool, true, false, not, ◌||◌, some, if◌then◌else◌,
  arith,
}
use klipper_go.Common.Int.{
  ℤ, pos, negsuc, ◌+ℤ◌, ◌-ℤ◌, ◌<ℤ◌, ◌≤ℤ◌, leb_ℤ, ltb_ℤ, pos_part, neg_part, sub_ℕ-parts, later_by,
}
use klipper_go.Print.IdleTimeout.{
  Phase, idle, printing, ready, Decision, IdleTimeout, Printer, ready_timeout, min_ℤ, max_ℤ,
  check_idle_timeout, busy_handler, handler_in, timeout_handler,
}

-- A decision that keeps the timer going, at a later time.
abbrev pub KeepsTimer : ℤ → Decision → Type 0
KeepsTimer eventtime d =
    (t : ℤ) × (d.next_wake ≡ some t) × (eventtime <ℤ t) × (d.enter_idle ≡ false)

-- A decision to become idle, and what is known then.
abbrev pub BecomesIdle : Printer → IdleTimeout → Decision → Type 0
BecomesIdle p self d =
    (d.enter_idle ≡ true)
    × (self.state ≡ ready)
    × (p.lookahead_empty ≡ true)
    × (p.gcode_busy ≡ false)
    × (self.idle_timeout ≤ℤ p.est_print_time -ℤ p.print_time)

within : (e t i : ℤ) → i <ℤ t → e <ℤ (e +ℤ t) -ℤ i
within e t i h =
    let s = e +ℤ t in
    omega (
      arith,
      h,
      sub_ℕ-parts (pos_part e + pos_part t) (neg_part e + neg_part t),
      sub_ℕ-parts (pos_part s + neg_part i) (neg_part s + pos_part i),
    )

after_buffer : (e b : ℤ) → negsuc 499 <ℤ b → e <ℤ (e +ℤ ready_timeout) +ℤ b
after_buffer e b h =
    let s = e +ℤ ready_timeout in
    omega (
      arith,
      h,
      sub_ℕ-parts (pos_part e + 500) (neg_part e + 0),
      sub_ℕ-parts (pos_part s + pos_part b) (neg_part s + neg_part b),
    )

ltb_ℤ-true : (a b : ℤ) → ltb_ℤ a b ≡ true → a <ℤ b
ltb_ℤ-true a b h = ground arith

ltb_ℤ-false : (a b : ℤ) → ltb_ℤ a b ≡ false → b ≤ℤ a
ltb_ℤ-false a b h = ground arith

max-positive : (b : ℤ) → negsuc 499 <ℤ max_ℤ (pos 0) b
max-positive b = elim (Bool-cases (leb_ℤ (pos 0) b)) [
  | inl up ↦ rw up (ground arith)
  | inr down ↦ rw down (ground arith)
]

abbrev KeepsOrIdles : Printer → IdleTimeout → Decision → Type 0
KeepsOrIdles p self d =
    KeepsTimer p.eventtime d
    ⊎ ((d.enter_idle ≡ true)
        × (p.lookahead_empty ≡ true)
        × (p.gcode_busy ≡ false)
        × (self.idle_timeout ≤ℤ p.est_print_time -ℤ p.print_time))

is_empty : (b c : Bool) → (not b || c) ≡ false → b ≡ true
is_empty b c h = ground arith

-- The decisions of a chain of tests, each one for the case that the ones before failed.
chosen :
    (P : Decision → Type 0) (b : Bool) (x y : Decision)
    → (b ≡ true → P x)
    → (b ≡ false → P y)
    → P (if b then x else y)
chosen P true x y f g = f refl
chosen P false x y f g = g refl

check-KeepsOrIdles :
    (p : Printer) (self : IdleTimeout)
    → pos 0 <ℤ self.idle_timeout
    → KeepsOrIdles p self (check_idle_timeout p self)
unfolding check_idle_timeout
check-KeepsOrIdles p self h =
    let idle_time = p.est_print_time -ℤ p.print_time in
    chosen (KeepsOrIdles p self) (not p.lookahead_empty || ltb_ℤ idle_time (pos 1_000)) _ _
      (λ _.
        inl
          (p.eventtime +ℤ self.idle_timeout, refl, later_by p.eventtime self.idle_timeout h, refl))
      (λ settled.
        chosen (KeepsOrIdles p self) (ltb_ℤ idle_time self.idle_timeout) _ _
          (λ early. inl (
            (p.eventtime +ℤ self.idle_timeout) -ℤ idle_time,
            refl,
            within p.eventtime self.idle_timeout idle_time
                (ltb_ℤ-true idle_time self.idle_timeout early),
            refl,
          ))
          (λ late.
            chosen (KeepsOrIdles p self) p.gcode_busy _ _
              (λ _. inl (
                p.eventtime +ℤ pos 1_000,
                refl,
                later_by p.eventtime (pos 1_000) (omega arith),
                refl,
              ))
              (λ free. inr (
                refl,
                is_empty p.lookahead_empty (ltb_ℤ idle_time (pos 1_000)) settled,
                free,
                ltb_ℤ-false idle_time self.idle_timeout late,
              ))))

chosen_pair :
    (P : Decision → Type 0) (b : Bool) (x y : IdleTimeout × Decision)
    → (b ≡ true → P x.1)
    → (b ≡ false → P y.1)
    → P (if b then x else y).1
chosen_pair P true x y f g = f refl
chosen_pair P false x y f g = g refl

busy-KeepsTimer :
    (p : Printer) (self : IdleTimeout)
    → pos 0 <ℤ self.idle_timeout
    → KeepsTimer p.eventtime (busy_handler p self).1
unfolding busy_handler
busy-KeepsTimer p self h =
    let e = p.eventtime in
    let buffer_time = min_ℤ (pos 2_000) (p.print_time -ℤ p.est_print_time) in
    chosen_pair (KeepsTimer e) (not p.lookahead_empty) _ _
      (λ _. (
        (e +ℤ ready_timeout) +ℤ max_ℤ (pos 0) buffer_time,
        refl,
        after_buffer e (max_ℤ (pos 0) buffer_time) (max-positive buffer_time),
        refl,
      ))
      (λ _.
        chosen_pair (KeepsTimer e) (ltb_ℤ (negsuc 499) buffer_time) _ _
          (λ buffered. (
            (e +ℤ ready_timeout) +ℤ buffer_time,
            refl,
            after_buffer e buffer_time (ltb_ℤ-true (negsuc 499) buffer_time buffered),
            refl,
          ))
          (λ _.
            chosen_pair (KeepsTimer e) p.gcode_busy _ _
              (λ _. (e +ℤ ready_timeout, refl, later_by e ready_timeout (omega arith), refl))
              (λ _. (e +ℤ self.idle_timeout, refl, later_by e self.idle_timeout h, refl))))

-- With a timeout that is not 0, the timer's handler either asks to be called again at a later time, or
-- has the printer become idle: only in the state Ready, with no move queued, with no command running,
-- and when the timeout has passed since the last move.
pub handler_wakes_or_idles :
    (p : Printer) (self : IdleTimeout)
    → pos 0 <ℤ self.idle_timeout
    → KeepsTimer p.eventtime (timeout_handler p self).1
      ⊎ BecomesIdle p self (timeout_handler p self).1
unfolding timeout_handler handler_in
handler_wakes_or_idles p self h = in_phase self.state refl
  where
    in_phase :
        (s : Phase)
        → self.state ≡ s
        → KeepsTimer p.eventtime (handler_in s p self).1
          ⊎ BecomesIdle p self (handler_in s p self).1
    in_phase idle e = inl (busy-KeepsTimer p self h)
    in_phase printing e = inl (busy-KeepsTimer p self h)
    in_phase ready e = elim (check-KeepsOrIdles p self h) [
      | inl wakes ↦ inl wakes
      | inr (enters, empty, free, late) ↦ inr (enters, e, empty, free, late)
    ]
