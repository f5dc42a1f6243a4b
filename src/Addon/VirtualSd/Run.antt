-- ===== src/Addon/VirtualSd/Run.antt =====
-- Which lines of a file a print has run, and what is left of the file, over any pauses and reads.
use klipper_go.Common.{
  ℕ, Bool, true, false, Option, none, some, List, [], ◌∷◌, if◌then◌else◌, ◌≡◌, refl, ◌⊎◌, inl, All,
  drop, length,
}
use klipper_go.Addon.VirtualSd.{
  File, VirtualSd, seek_file, seek_to_file_position, Read, reset_sd, new_virtual_sd, load_file,
}
use klipper_go.Addon.VirtualSd.Cut.{unlines, NoNewline}
use klipper_go.Addon.VirtualSd.Work.{
  new_work, note_start, Script, Work, finish_work, is_open, pause_if, do_pause, cancel_notes,
  do_cancel, start_work, do_resume, pop_line, run_next, work_round, Step, resume_step, cancel_step,
  pause_step, work_step, round_if, cancel_if, sd_step, sd_steps,
}
use klipper_go.Addon.VirtualSd.Place.{
  has_stopped, is_stop, IsPlainScript, BringsSome, IsPlainStep, Told, Emptied, Placed, IsGood,
}
use klipper_go.Addon.VirtualSd.Round.{finish-Placed, next-IsGood}

module _ (content : List ℕ) where
  started :
      (file : Option File) (rest : List ℕ) (w : Work)
      → w.has_timer ≡ false
      → Placed content file rest w
      → Placed content (seek_file w.sd.file_position file) rest (record w {
        has_timer = true;
        sd = record w.sd {
          must_pause_work = false;
          current_file = seek_file w.sd.file_position file;
        };
        lines = [];
        partial_input = [];
        notes = note_start ∷ w.notes;
      })
  unfolding seek_file has_stopped unlines
  started none rest w idle (h, lines) = (h, refl)
  started (some file) rest w idle (same, place, pending) = (same, place, (place, tt, tt))

  paused :
      (file : Option File) (active : Bool) (rest : List ℕ) (w : Work)
      → Placed content file rest w
      → Placed content file rest (record w { sd = pause_if active w.sd })
  unfolding pause_if
  paused none true rest w h = h
  paused (some file) true rest w h = h
  paused file false rest w h = h

  paused_round :
      (pausing : Bool) (busy : Bool) (read : Read) (script : Script) (w : Work)
      → BringsSome read
      → IsPlainScript script
      → w.has_timer ≡ true
      → IsGood content w
      → IsGood content
          (if pausing then finish_work false w else run_next (pop_line w.lines) busy read script w)
  unfolding finish_work
  paused_round true busy read script w some_read plain active (rs, rest, told, placed) =
      (rs, rest, told, finish-Placed content rest w placed)
  paused_round false busy read script w some_read plain active h =
      next-IsGood content busy read script w some_read plain active h

  start-IsGood :
      (active : Bool) (w : Work)
      → w.has_timer ≡ active
      → IsGood content w
      → IsGood content (start_work active w)
  unfolding start_work seek_to_file_position
  start-IsGood true w e h = h
  start-IsGood false w e (rs, rest, told, placed) =
      (rs, rest, told, started w.sd.current_file rest w e placed)

  -- Cancelling ends the handler first.
  cancel_placed :
      (file : Option File) (rest : List ℕ) (w : Work)
      → w.has_timer ≡ false
      → Placed content file rest w
      → ((has_stopped (cancel_notes file w.notes) ≡ true) ⊎ NoNewline rest)
        × Emptied content w.has_timer w.lines
  unfolding cancel_notes has_stopped is_stop
  cancel_placed none rest w e h = h
  cancel_placed (some file) rest w e h = (inl refl, rw e tt)

  pause-IsGood :
      (active : Bool) (w : Work)
      → IsGood content w
      → IsGood content (record w { sd = pause_if active w.sd })
  unfolding pause_if
  pause-IsGood true w (rs, rest, told, placed) =
      (rs, rest, told, paused w.sd.current_file true rest w placed)
  pause-IsGood false w h = h

  nothing_open :
      (file : Option File) (rest : List ℕ) (w : Work)
      → file ≡ none
      → Placed content file rest w
      → ((has_stopped (cancel_notes file w.notes) ≡ true) ⊎ NoNewline rest)
        × Emptied content w.has_timer w.lines
  unfolding cancel_notes
  nothing_open none rest w e h = h
  nothing_open (some file) rest w e h = cc

  running_cancel :
      (file : Option File) (w : Work)
      → w.sd.current_file ≡ file
      → IsGood content w
      → IsGood content (if is_open file then do_pause w else do_cancel w)
  unfolding is_open do_pause do_cancel reset_sd new_virtual_sd cancel_notes
  running_cancel (some file) w e h = pause-IsGood w.has_timer w h
  running_cancel none w e (rs, rest, told, placed) =
      (rs, rest, told, nothing_open w.sd.current_file rest w e placed)

  cancel-IsGood :
      (active : Bool) (w : Work)
      → w.has_timer ≡ active
      → IsGood content w
      → IsGood content (cancel_if active w)
  unfolding cancel_if do_cancel reset_sd new_virtual_sd
  cancel-IsGood true w e h = running_cancel w.sd.current_file w refl h
  cancel-IsGood false w e (rs, rest, told, placed) =
      (rs, rest, told, cancel_placed w.sd.current_file rest w e placed)

  round-IsGood :
      (active : Bool) (busy : Bool) (read : Read) (script : Script) (w : Work)
      → BringsSome read
      → IsPlainScript script
      → w.has_timer ≡ active
      → IsGood content w
      → IsGood content (round_if active busy read script w)
  unfolding round_if work_round
  round-IsGood true busy read script w some_read plain active h =
      paused_round w.sd.must_pause_work busy read script w some_read plain active h
  round-IsGood false busy read script w some_read plain active h = h

  step-IsGood :
      (s : Step) (w : Work) → IsPlainStep s → IsGood content w → IsGood content (sd_step s w)
  unfolding sd_step do_resume do_pause
  step-IsGood resume_step w plain h = start-IsGood w.has_timer w refl h
  step-IsGood cancel_step w plain h = cancel-IsGood w.has_timer w refl h
  step-IsGood pause_step w plain h = pause-IsGood w.has_timer w h
  step-IsGood (work_step busy read script) w (some_read, plain) h =
      round-IsGood w.has_timer busy read script w some_read plain refl h

  steps-IsGood :
      (ss : List Step) (w : Work)
      → All IsPlainStep ss
      → IsGood content w
      → IsGood content (sd_steps ss w)
  unfolding sd_steps
  steps-IsGood [] w plain h = h
  steps-IsGood (s ∷ ss) w (first, rest) h =
      steps-IsGood ss (sd_step s w) rest (step-IsGood s w first h)

-- What is left of a file: the part from the position on while it is open. Once it is closed, the print
-- was stopped, or no newline is left.
abbrev pub Left : List ℕ → Option File → List ℕ → Work → Type 0
Left content none rest w = (has_stopped w.notes ≡ true) ⊎ NoNewline rest
Left content (some file) rest w = rest ≡ drop w.sd.file_position content

remaining :
    (content : List ℕ) (file : Option File) (rest : List ℕ) (w : Work)
    → Placed content file rest w
    → Left content file rest w
remaining content none rest w (h, lines) = h
remaining content (some file) rest w (same, place, pending) = place

-- A file that is not empty is loaded. From then on, over any resuming, pausing, cancelling and rounds
-- of the handler, whatever number of bytes a read brings, a read failing or none left to bring, and
-- with scripts that pause, cancel or panic with a text, but do not set the position: the lines that ran
-- are lines of the file, without carriage returns at their ends, each once and in order from the first
-- on. Behind them is the part of the file that the position names, and once the file is closed without
-- an error or a cancel noted, that part has no newline.
pub lines_once :
    (b : ℕ) (bs : List ℕ) (sd : VirtualSd) (ss : List Step)
    → All IsPlainStep ss
    → (sd' : VirtualSd) × (load_file (b ∷ bs) sd ≡ some sd')
      × (let w = sd_steps ss (new_work sd') in
          (rs : List (List ℕ)) × (rest : List ℕ) × Told (b ∷ bs) rs rest w.ran
          × Left (b ∷ bs) w.sd.current_file rest w)
unfolding load_file new_work unlines
lines_once b bs sd ss plain =
    let sd' = record sd {
      current_file = some (record { content = b ∷ bs; cursor = 0 });
      file_position = 0;
      next_file_position = 0;
      file_size = length (b ∷ bs);
    } in
    let (rs, rest, told, placed) =
      steps-IsGood (b ∷ bs) ss (new_work sd') plain
        ([], b ∷ bs, (refl, refl, tt), (refl, refl, tt)) in
    let w = sd_steps ss (new_work sd') in
    (sd', refl, (rs, rest, told, remaining (b ∷ bs) w.sd.current_file rest w placed))
