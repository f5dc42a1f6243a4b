-- ===== src/Gcode/PauseResume/Balance.antt =====
-- The card is resumed only after it was paused, and never without a card.
use klipper_go.Common.{ℕ, ◌+◌, ◌≤◌, ◌≡◌, true, List, [], ◌∷◌, ◌++◌, if◌then◌else◌, arith}
use klipper_go.Gcode.PauseResume.{
  PauseResume, Effect, sd_do_pause, sd_do_resume, Call, set_card, send_pause, on_pause, on_cancel,
  send_resume, on_resume, on_clear, call, calls, new_pause_resume,
}

abbrev is_do_pause : Effect → ℕ
is_do_pause sd_do_pause = 1
is_do_pause _ = 0

abbrev is_do_resume : Effect → ℕ
is_do_resume sd_do_resume = 1
is_do_resume _ = 0

abbrev pub do_pauses : List Effect → ℕ
do_pauses [] = 0
do_pauses (e ∷ es) = is_do_pause e + do_pauses es

abbrev pub do_resumes : List Effect → ℕ
do_resumes [] = 0
do_resumes (e ∷ es) = is_do_resume e + do_resumes es

-- A pause of the card is remembered only with a card, and together with the command.
pub record IsConsistent (self : PauseResume) : Type 0 where
  pub card : self.sd_paused ≡ true → self.has_virtual_sd ≡ true
  pub sent : self.sd_paused ≡ true → self.pause_command_sent ≡ true

abbrev pub waiting : PauseResume → ℕ
waiting self = if self.sd_paused then 1 else 0

do_pauses-append : (xs ys : List Effect) → do_pauses (xs ++ ys) ≡ do_pauses xs + do_pauses ys
do_pauses-append [] ys = omega arith
do_pauses-append (x ∷ xs) ys = omega (arith, do_pauses-append xs ys)

do_resumes-append : (xs ys : List Effect) → do_resumes (xs ++ ys) ≡ do_resumes xs + do_resumes ys
do_resumes-append [] ys = omega arith
do_resumes-append (x ∷ xs) ys = omega (arith, do_resumes-append xs ys)

record Balanced (self self' : PauseResume) (out : List Effect) : Type 0 where
  consistent : IsConsistent self'
  balance : do_resumes out + waiting self' ≤ do_pauses out + waiting self

call-Balanced :
    (c : Call) (self : PauseResume)
    → IsConsistent self
    → Balanced self (call c self).0 (call c self).1
unfolding call
call-Balanced set_card self h = let a = h.card in let b = h.sent in ground arith
call-Balanced (send_pause active) self h = let a = h.card in let b = h.sent in ground arith
call-Balanced (on_pause active) self h = let a = h.card in let b = h.sent in ground arith
call-Balanced (on_cancel active) self h = let a = h.card in let b = h.sent in ground arith
call-Balanced send_resume self h = let a = h.card in let b = h.sent in ground arith
call-Balanced (on_resume v) self h = let a = h.card in let b = h.sent in ground arith
call-Balanced on_clear self h = let a = h.card in let b = h.sent in ground arith

calls-Balanced :
    (cs : List Call) (self : PauseResume)
    → IsConsistent self
    → Balanced self (calls cs self).0 (calls cs self).1
unfolding calls
calls-Balanced [] self h = record { consistent = h; balance = omega arith }
calls-Balanced (c ∷ cs) self h =
    let first = call-Balanced c self h in
    let rest = calls-Balanced cs (call c self).0 first.consistent in
    let b1 = first.balance in
    let b2 = rest.balance in
    record {
      consistent = rest.consistent;
      balance = omega (
        arith,
        do_resumes-append (call c self).1 (calls cs (call c self).0).1,
        do_pauses-append (call c self).1 (calls cs (call c self).0).1,
      );
    }

-- After any calls on a new state, the card was resumed at most as often as it was paused, one pause
-- more while one is remembered, and a pause is remembered only when there is a card to resume.
pub calls_balanced :
    (cs : List Call)
    → IsConsistent (calls cs new_pause_resume).0
      × (do_resumes (calls cs new_pause_resume).1 + waiting (calls cs new_pause_resume).0
          ≤ do_pauses (calls cs new_pause_resume).1)
calls_balanced cs =
    let start : IsConsistent new_pause_resume = unfold new_pause_resume in ground arith in
    let run = calls-Balanced cs new_pause_resume start in
    let b = run.balance in (run.consistent, unfold new_pause_resume in omega arith)
