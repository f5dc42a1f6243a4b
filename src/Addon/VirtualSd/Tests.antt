-- ===== src/Addon/VirtualSd/Tests.antt =====
-- A small file, printed with a pause in the middle and with reads that split its lines.
use klipper_go.Common.{ℕ, true, false, some, List, [], ◌∷◌, ◌≡◌, refl, arith}
use klipper_go.Addon.VirtualSd.{
  VirtualSd, new_virtual_sd, got, load_file, read_lines, split_last, join_partial, split_lines,
  trim_right,
}
use klipper_go.Addon.VirtualSd.Work.{
  runs, pauses, Step, resume_step, work_step, new_work, sd_steps, sd_step, pop_line,
}
use klipper_go.Addon.VirtualSd.Place.{Told}
use klipper_go.Addon.VirtualSd.Run.{Left, lines_once}

-- G0, a carriage return and a newline, G1 and a newline, M2 and no newline.
abbrev a_file : List ℕ
a_file = 71 ∷ 48 ∷ 13 ∷ 10 ∷ 71 ∷ 49 ∷ 10 ∷ 77 ∷ 50 ∷ []

-- The first reads bring three bytes and then two; the first line pauses the print.
abbrev some_steps : List Step
some_steps =
    resume_step
    ∷ work_step false (got 3 true) runs
    ∷ work_step false (got 2 true) runs
    ∷ work_step true (got 2 true) runs
    ∷ work_step false (got 2 true) pauses
    ∷ work_step false (got 2 true) runs
    ∷ resume_step
    ∷ work_step false (got 8 true) runs
    ∷ work_step false (got 8 true) runs
    ∷ work_step false (got 8 true) runs
    ∷ []

lines_once_example :
    (sd' : VirtualSd) × (load_file a_file new_virtual_sd ≡ some sd')
    × (let w = sd_steps some_steps (new_work sd') in
        (rs : List (List ℕ)) × (rest : List ℕ) × Told a_file rs rest w.ran
        × Left a_file w.sd.current_file rest w)
lines_once_example =
    lines_once 71 (48 ∷ 13 ∷ 10 ∷ 71 ∷ 49 ∷ 10 ∷ 77 ∷ 50 ∷ []) new_virtual_sd some_steps
      (omega arith)

abbrev loaded : VirtualSd
loaded = record new_virtual_sd {
  current_file = some (record { content = a_file; cursor = 0 });
  file_size = 9;
}

-- What ran: G0 and G1. The last line, without a newline, did not.
ran_of_steps : (sd_steps some_steps (new_work loaded)).ran ≡ (71 ∷ 48 ∷ []) ∷ (71 ∷ 49 ∷ []) ∷ []
unfolding sd_steps new_work new_virtual_sd sd_step pop_line read_lines split_last join_partial
    split_lines trim_right
ran_of_steps = refl
