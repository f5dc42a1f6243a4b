-- ===== src/Addon/VirtualSd/Round.antt =====
-- A round of the handler keeps what holds between the lines that ran and the file.
use klipper_go.Common.{
  ℕ, ◌+◌, ◌≤◌, min, Bool, true, false, Option, none, some, List, [], ◌∷◌, ◌++◌, ◌==◌, ◌≡◌, refl,
  sym, ap, ◌∙◌, inl, inr, append-nil, take, drop, drop_add, length, arith,
}
use mathlib.Core.List.{reverse, reverse-append}
use klipper_go.Addon.VirtualSd.{
  File, close_current_file, seek_file, seek_to_next_position, Read, read_failed, got, closing,
  take_lines, with_data, read_from, read_lines, trim_right, advance_line, commit_file_position,
  reset_sd, new_virtual_sd,
}
use klipper_go.Addon.VirtualSd.Cut.{unlines, NoNewline}
use klipper_go.Addon.VirtualSd.Work.{
  Script, runs, pauses, cancels, jumps, panics, Work, is_open, last_note, finish_work, pause_if,
  do_pause, cancel_notes, do_cancel, after_read, jump_if, commit_line, after_script, run_line,
  pop_line, run_next,
}
use klipper_go.Addon.VirtualSd.Place.{
  has_stopped, is_stop, IsPlainScript, BringsSome, pop_front, Placed, IsGood, next_line, behind,
  one_more, fed, cut_off, none_left,
}

module _ (content : List ℕ) where
  finished :
      (file : Option File) (rest : List ℕ) (w : Work)
      → Placed content file rest w
      → Placed content file rest (record w {
        has_timer = false;
        sd = record w.sd { cmd_from_sd = false };
        notes = last_note false (is_open file) ∷ w.notes;
      })
  unfolding last_note is_open has_stopped
  finished none rest w (h, lines) = (h, tt)
  finished (some file) rest w (same, place, pending) = (same, place, tt)

  pub finish-Placed :
      (rest : List ℕ) (w : Work)
      → Placed content w.sd.current_file rest w
      → Placed content (finish_work false w).sd.current_file rest (finish_work false w)
  unfolding finish_work
  finish-Placed rest w h = finished w.sd.current_file rest w h

  -- The handler is about to run a line.
  abbrev IsNext : List (List ℕ) → List ℕ → Work → Type 0
  IsNext front line w = (w.has_timer ≡ true) × (w.lines ≡ front ++ (line ∷ []))

  -- The state behind content a line that leaves the position as it advanced.
  abbrev moved_on : List (List ℕ) → List ℕ → Bool → Work → Work
  moved_on front line paused w = record w {
    lines = front;
    ran = w.ran ++ (trim_right line ∷ []);
    sd = record w.sd {
      must_pause_work = paused;
      cmd_from_sd = false;
      next_file_position = w.sd.file_position + length line + 1;
      file_position = w.sd.file_position + length line + 1;
    };
  }

  -- What is behind content the line.
  abbrev Ahead : Option File → List (List ℕ) → List ℕ → List ℕ → Work → Type 0
  Ahead file front line rest w =
      (after : List ℕ) × (rest ≡ line ++ (10 ∷ after))
      × NoNewline line
      × ((paused : Bool) → Placed content file after (moved_on front line paused w))

  not_empty : (front : List (List ℕ)) (line : List ℕ) → [] ≡ front ++ (line ∷ []) → ⊥
  not_empty [] line e = cc
  not_empty (x ∷ xs) line e = cc

  ahead :
      (file : Option File) (front : List (List ℕ)) (line rest : List ℕ) (w : Work)
      → IsNext front line w
      → Placed content file rest w
      → Ahead file front line rest w
  ahead none front line rest w (active, e) (h, lines) =
      absurd (not_empty front line (sym (rw active at lines) ∙ e))
  ahead (some file) front line rest w (active, e) (same, place, pending) =
      let (whole, each, last) = rw active at pending in
      let tail = w.partial_input ++ drop file.cursor content in
      let after = unlines (reverse front) ++ tail in
      let first : rest ≡ line ++ (10 ∷ after) =
        whole ∙ next_line content w.lines front line tail e in
      let (own, others) = rw (e, reverse-append front (line ∷ [])) at each in
      (
        after,
        first,
        own,
        λ paused. (
          same,
          sym (behind content w.sd.file_position line after (sym place ∙ first)),
          rw active (refl, others, last),
        ),
      )

  cancelled :
      (file : Option File) (front : List (List ℕ)) (line rest : List ℕ) (w : Work)
      → IsNext front line w
      → Placed content file rest w
      → has_stopped (cancel_notes file w.notes) ≡ true
  unfolding has_stopped cancel_notes is_stop
  cancelled none front line rest w (active, e) (h, lines) =
      absurd (not_empty front line (sym (rw active at lines) ∙ e))
  cancelled (some file) front line rest w next h = refl

  not_zero : (n : ℕ) → (0 == n + 1) ≡ false
  not_zero n = ground arith

  same_place : (n : ℕ) → (n == n) ≡ true
  same_place n = ground arith

  run-IsGood :
      (script : Script) (front : List (List ℕ)) (line : List ℕ) (w : Work)
      → IsPlainScript script
      → IsNext front line w
      → IsGood content w
      → IsGood content (run_line script line (record w { lines = front }))
  unfolding run_line advance_line after_script commit_line commit_file_position jump_if do_pause
      pause_if do_cancel reset_sd new_virtual_sd seek_to_next_position seek_file finish_work
      last_note close_current_file has_stopped is_stop
  run-IsGood runs front line w plain next (rs, rest, told, placed) =
      let (after, first, own, go) = ahead w.sd.current_file front line rest w next placed in
      rw (same_place (w.sd.file_position + length line + 1)) (
        rs ++ (line ∷ []),
        after,
        one_more content rs line after rest w.ran told first own,
        go w.sd.must_pause_work,
      )
  run-IsGood pauses front line w plain next (rs, rest, told, placed) =
      let (after, first, own, go) = ahead w.sd.current_file front line rest w next placed in
      rw (next.0, same_place (w.sd.file_position + length line + 1))
        (
          rs ++ (line ∷ []),
          after,
          one_more content rs line after rest w.ran told first own,
          rw next.0 at (go true),
        )
  run-IsGood cancels front line w plain next (rs, rest, told, placed) =
      let (after, first, own, go) = ahead w.sd.current_file front line rest w next placed in
      rw (not_zero (w.sd.file_position + length line)) (
        rs ++ (line ∷ []),
        after,
        one_more content rs line after rest w.ran told first own,
        (inl (cancelled w.sd.current_file front line rest w next placed), rw next.0 refl),
      )
  run-IsGood (panics true) front line w plain next (rs, rest, told, placed) =
      let (after, first, own, go) = ahead w.sd.current_file front line rest w next placed in
      (
        rs ++ (line ∷ []),
        after,
        one_more content rs line after rest w.ran told first own,
        (inl refl, tt),
      )
  run-IsGood (panics false) front line w plain next h = elim plain [ ]
  run-IsGood (jumps position) front line w plain next h = elim plain [ ]

  -- A read by the handler, with no lines left to run; `bs` are the bytes that it brings.
  data-Placed :
      (bs : List ℕ) (closes : Bool) (file : File) (rest : List ℕ) (w : Work)
      → w.has_timer ≡ true
      → w.lines ≡ []
      → drop file.cursor content ≡ bs ++ drop (file.cursor + length bs) content
      → (bs ≡ [] → drop file.cursor content ≡ [])
      → Placed content (some file) rest w
      → let w' = after_read (with_data bs closes w.partial_input file w.sd) w in
        (w'.ran ≡ w.ran) × Placed content w'.sd.current_file rest w'
  unfolding with_data after_read closing take_lines close_current_file finish_work last_note
      has_stopped is_stop is_open unlines
  data-Placed [] true file rest w active e more all (same, place, pending) =
      let (whole, each, last) = rw (active, e) at pending in
      let own = whole ∙ ap (λ t. w.partial_input ++ t) (all refl) ∙ append-nil w.partial_input in
      (refl, (inr (rw own last), tt))
  data-Placed [] false file rest w active e more all (same, place, pending) = (refl, (inl refl, tt))
  data-Placed (b ∷ bs) closes file rest w active e more all (same, place, pending) =
      let (whole, each, last) = rw (active, e) at pending in
      (
        refl,
        (
          same,
          place,
          rw active (fed content rest w.partial_input (b ∷ bs) file.cursor whole last more),
        ),
      )

  read-Placed :
      (file : Option File) (read : Read) (rest : List ℕ) (w : Work)
      → BringsSome read
      → w.has_timer ≡ true
      → w.lines ≡ []
      → w.sd.current_file ≡ file
      → Placed content file rest w
      → let w' = after_read (read_from file read w.partial_input w.sd) w in
        (w'.ran ≡ w.ran) × Placed content w'.sd.current_file rest w'
  unfolding read_from after_read close_current_file finish_work last_note is_open has_stopped
      is_stop
  read-Placed none read rest w some_read active e this (h, lines) = rw this (refl, (h, tt))
  read-Placed (some file) read_failed rest w some_read active e this h = (refl, (inl refl, tt))
  read-Placed (some file) (got n closes) rest w some_read active e this (same, place, pending) =
      let bs = take (min n 8_192) (drop file.cursor file.content) in
      let cs = take (min n 8_192) (drop file.cursor content) in
      let read_same : bs ≡ cs = ap (λ t. take (min n 8_192) (drop file.cursor t)) same in
      let many : 1 ≤ min n 8_192 = omega (arith, some_read) in
      let cut : drop file.cursor content ≡ cs ++ drop (file.cursor + length cs) content =
        sym (cut_off content (min n 8_192) (drop file.cursor content))
        ∙ ap (λ t. cs ++ t) (sym (drop_add file.cursor (length cs) content)) in
      data-Placed bs closes file rest w active e
        (cut ∙ ap (λ t. t ++ drop (file.cursor + length t) content) (sym read_same))
        (λ nothing.
          none_left content (min n 8_192) (drop file.cursor content) many (sym read_same ∙ nothing))
        (same, place, pending)

  line_round :
      (busy : Bool) (read : Read) (script : Script) (front : List (List ℕ)) (line : List ℕ)
      (w : Work)
      → IsPlainScript script
      → IsNext front line w
      → IsGood content w
      → IsGood content (run_next (some (front, line)) busy read script w)
  unfolding run_next
  line_round true read script front line w plain next h = h
  line_round false read script front line w plain next h =
      run-IsGood script front line w plain next h

  pub next-IsGood :
      (busy : Bool) (read : Read) (script : Script) (w : Work)
      → BringsSome read
      → IsPlainScript script
      → w.has_timer ≡ true
      → IsGood content w
      → IsGood content (run_next (pop_line w.lines) busy read script w)
  unfolding run_next read_lines
  next-IsGood busy read script w some_read plain active (rs, rest, told, placed) =
      elim (pop_front w.lines) [
        | inl (missed, e) ↦
            (let (ran, place) =
                read-Placed w.sd.current_file read rest w some_read active e refl placed in
              rw missed (rs, rest, (ran ∙ told.0, told.1, told.2), place))
        | inr (front, line, found, e) ↦
            rw found
              (line_round busy read script front line w plain (active, e) (rs, rest, told, placed))
      ]
