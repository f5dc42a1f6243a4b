-- ===== src/Addon/VirtualSd/Work.antt =====
-- `Work_handler` of virtual_sd_module.go, as one step for every round of its loop, and the commands.
use klipper_go.Common.{
  ℕ, Bool, true, false, Option, none, some, List, [], ◌∷◌, ◌++◌, ◌==◌, if◌then◌else◌,
}
use klipper_go.Addon.VirtualSd.{
  File, VirtualSd, close_current_file, reset_sd, seek_to_file_position, seek_to_next_position, Read,
  Lines, read_error, end_of_file, lines_read, read_lines, trim_right, advance_line,
  commit_file_position,
}

-- The calls of the print statistics.
pub data Note : Type 0 where
  note_start note_pause note_complete note_error note_cancel note_reset : Note

-- What a script that runs a line does to the card: nothing, M25, setting the next position, cancelling
-- the print, or panicking, with or without a text of the error.
pub data Script : Type 0 where
  runs pauses cancels : Script
  jumps : ℕ → Script
  panics : Bool → Script

-- `has_timer` is `workTimer != nil`, during the handler. `ran` are the lines given to RunScript, oldest
-- first, `notes` newest first.
pub record Work : Type 0 where
  pub sd : VirtualSd
  pub has_timer : Bool
  pub lines : List (List ℕ)
  pub partial_input : List ℕ
  pub ran : List (List ℕ)
  pub notes : List Note

unfoldable pub new_work : VirtualSd → Work
new_work sd = record {
  sd = sd;
  has_timer = false;
  lines = [];
  partial_input = [];
  ran = [];
  notes = [];
}

unfoldable pub is_open : Option File → Bool
is_open none = false
is_open (some file) = true

-- The end of the handler.
unfoldable pub last_note : Bool → Bool → Note
last_note true is_open = note_error
last_note false true = note_pause
last_note false false = note_complete

unfoldable pub finish_work : Bool → Work → Work
unfolding last_note is_open
finish_work failed self = record self {
  has_timer = false;
  sd = record self.sd { cmd_from_sd = false };
  notes = last_note failed (is_open self.sd.current_file) ∷ self.notes;
}

-- `Do_pause`, from another greenlet or from a script: it does not wait in the latter.
unfoldable pub pause_if : Bool → VirtualSd → VirtualSd
pause_if true sd = record sd { must_pause_work = true }
pause_if false sd = sd

unfoldable pub do_pause : Work → Work
unfolding pause_if
do_pause self = record self { sd = pause_if self.has_timer self.sd }

-- `Do_cancel`
unfoldable pub cancel_notes : Option File → List Note → List Note
cancel_notes none notes = notes
cancel_notes (some file) notes = note_cancel ∷ notes

unfoldable pub do_cancel : Work → Work
unfolding cancel_notes reset_sd
do_cancel self = record self {
  sd = reset_sd self.sd;
  notes = cancel_notes self.sd.current_file self.notes;
}

-- `Do_resume`, and the beginning of the handler: the loop comes with the next rounds.
unfoldable pub start_work : Bool → Work → Work
unfolding seek_to_file_position
start_work true self = self
start_work false self = record self {
  has_timer = true;
  sd = seek_to_file_position (record self.sd { must_pause_work = false });
  lines = [];
  partial_input = [];
  notes = note_start ∷ self.notes;
}

unfoldable pub do_resume : Work → Work
unfolding start_work
do_resume self = start_work self.has_timer self

unfoldable pub after_read : VirtualSd × Lines → Work → Work
unfolding close_current_file finish_work
after_read (sd, read_error) self = finish_work true (record self { sd = close_current_file sd })
after_read (sd, end_of_file) self = finish_work false (record self { sd = sd })
after_read (sd, lines_read lines partial) self = record self {
  sd = sd;
  lines = lines;
  partial_input = partial;
}

-- What a line that ran without a panic leaves to do.
unfoldable pub jump_if : Bool → Work → Work
unfolding seek_to_next_position
jump_if false self = record self {
  sd = seek_to_next_position self.sd;
  lines = [];
  partial_input = [];
}
jump_if true self = self

unfoldable pub commit_line : ℕ → Work → Work
unfolding commit_file_position jump_if
commit_line next self =
    jump_if (self.sd.next_file_position == next)
      (record self { sd = commit_file_position (record self.sd { cmd_from_sd = false }) })

unfoldable pub after_script : Script → ℕ → Work → Work
unfolding do_pause do_cancel commit_line close_current_file finish_work
after_script runs next self = commit_line next self
after_script pauses next self = commit_line next (do_pause self)
after_script cancels next self = commit_line next (do_cancel self)
after_script (jumps position) next self =
    commit_line next (record self { sd = record self.sd { next_file_position = position } })
after_script (panics message) next self =
    finish_work message (record self { sd = close_current_file self.sd })

unfoldable pub run_line : Script → List ℕ → Work → Work
unfolding advance_line after_script
run_line script line self =
    let sd = advance_line line (record self.sd { cmd_from_sd = true }) in
    after_script script sd.next_file_position
      (record self { sd = sd; ran = self.ran ++ (trim_right line ∷ []) })

-- The last of the lines that wait is the next to run.
unfoldable pub pop_line : List (List ℕ) → Option (List (List ℕ) × List ℕ)
pop_line [] = none
pop_line (line ∷ []) = some ([], line)
pop_line (line ∷ next ∷ lines) = elim (pop_line (next ∷ lines)) [
  | none ↦ none
  | some (front, last) ↦ some (line ∷ front, last)
]

unfoldable pub run_next : Option (List (List ℕ) × List ℕ) → Bool → Read → Script → Work → Work
unfolding run_line after_read
run_next none busy read script self = after_read (read_lines read self.partial_input self.sd) self
run_next (some (front, line)) true read script self = self
run_next (some (front, line)) false read script self =
    run_line script line (record self { lines = front })

-- One round of the loop, with its test.
unfoldable pub work_round : Bool → Read → Script → Work → Work
unfolding run_next finish_work
work_round busy read script self =
    if self.sd.must_pause_work
    then finish_work false self
    else run_next (pop_line self.lines) busy read script self

pub data Step : Type 0 where
  resume_step : Step
  cancel_step : Step
  pause_step : Step
  work_step : Bool → Read → Script → Step

unfoldable pub round_if : Bool → Bool → Read → Script → Work → Work
unfolding work_round
round_if true busy read script self = work_round busy read script self
round_if false busy read script self = self

-- `Do_cancel` from another greenlet. During the handler it pauses the print and waits for the handler's
-- end while a file is open: the cancelling is a step of its own then.
unfoldable pub cancel_if : Bool → Work → Work
unfolding do_cancel do_pause
cancel_if true self = if is_open self.sd.current_file then do_pause self else do_cancel self
cancel_if false self = do_cancel self

unfoldable pub sd_step : Step → Work → Work
unfolding round_if do_resume do_pause cancel_if
sd_step resume_step self = do_resume self
sd_step cancel_step self = cancel_if self.has_timer self
sd_step pause_step self = do_pause self
sd_step (work_step busy read script) self = round_if self.has_timer busy read script self

unfoldable pub sd_steps : List Step → Work → Work
sd_steps [] self = self
sd_steps (s ∷ ss) self = sd_steps ss (sd_step s self)
