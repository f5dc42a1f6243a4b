-- ===== src/Addon/VirtualSd/Place.antt =====
-- What holds between the lines that ran and the file: the part behind them is where the file is read
-- on, or waits as lines, or is left when the print stopped.
use klipper_go.Common.{
  ℕ, zero, suc, ◌+◌, ◌≤◌, Bool, true, false, ◌||◌, Option, none, some, List, [], ◌∷◌, ◌++◌, map,
  ◌≡◌, refl, sym, ap, ◌∙◌, ◌⊎◌, inl, inr, append_assoc, All, All-append, take, drop, drop_add,
  drop-append_left, length, arith,
}
use mathlib.Core.List.{reverse, reverse-append, reverse-reverse}
use klipper_go.Addon.VirtualSd.{
  File, split_lines, join_partial, split_last, Read, read_failed, got, trim_right,
}
use klipper_go.Addon.VirtualSd.Cut.{unlines, NoNewline, unlines-append, split-IsCut}
use klipper_go.Addon.VirtualSd.Work.{
  Note, note_error, note_cancel, Script, jumps, panics, Work, pop_line, Step, work_step,
}

-- The print has been cancelled, or an error noted.
unfoldable pub is_stop : Note → Bool
is_stop note_error = true
is_stop note_cancel = true
is_stop other = false

unfoldable pub has_stopped : List Note → Bool
unfolding is_stop
has_stopped [] = false
has_stopped (n ∷ notes) = is_stop n || has_stopped notes

-- A script that leaves the place in the file alone and panics only with a text, and a read of a byte
-- or more unless it fails.
abbrev pub IsPlainScript : Script → Type 0
IsPlainScript (jumps position) = ⊥
IsPlainScript (panics false) = ⊥
IsPlainScript other = Unit

abbrev pub BringsSome : Read → Type 0
BringsSome read_failed = Unit
BringsSome (got n closes) = 1 ≤ n

abbrev pub IsPlainStep : Step → Type 0
IsPlainStep (work_step busy read script) = BringsSome read × IsPlainScript script
IsPlainStep other = Unit

map_last :
    (rs : List (List ℕ)) (line : List ℕ)
    → map trim_right (rs ++ (line ∷ [])) ≡ map trim_right rs ++ (trim_right line ∷ [])
map_last [] line = refl
map_last (r ∷ rs) line = ap (λ t. trim_right r ∷ t) (map_last rs line)

pop_cons :
    (line : List ℕ) (lines : List (List ℕ))
    → (front : List (List ℕ)) × (last : List ℕ) × (pop_line (line ∷ lines) ≡ some (front, last))
      × (line ∷ lines ≡ front ++ (last ∷ []))
unfolding pop_line
pop_cons line [] = ([], line, refl, refl)
pop_cons line (next ∷ lines) =
    let (front, last, found, e) = pop_cons next lines in
    (line ∷ front, last, rw found refl, ap (λ t. line ∷ t) e)

pub pop_front :
    (lines : List (List ℕ))
    → ((pop_line lines ≡ none) × (lines ≡ []))
      ⊎ ((front : List (List ℕ)) × (line : List ℕ) × (pop_line lines ≡ some (front, line))
          × (lines ≡ front ++ (line ∷ [])))
unfolding pop_line
pop_front [] = inl (refl, refl)
pop_front (line ∷ lines) = inr (pop_cons line lines)

module _ (content : List ℕ) where
  -- `rest` is the part of the file behind the lines that ran.
  abbrev pub Told : List (List ℕ) → List ℕ → List (List ℕ) → Type 0
  Told rs rest ran = (ran ≡ map trim_right rs) × (content ≡ unlines rs ++ rest) × All NoNewline rs

  abbrev pub Pending : Bool → ℕ → List ℕ → List (List ℕ) → List ℕ → Type 0
  Pending false cursor rest lines partial = Unit
  Pending true cursor rest lines partial =
      (rest ≡ unlines (reverse lines) ++ (partial ++ drop cursor content))
      × All NoNewline (reverse lines)
      × NoNewline partial

  abbrev pub Emptied : Bool → List (List ℕ) → Type 0
  Emptied false lines = Unit
  Emptied true lines = lines ≡ []

  abbrev pub Placed : Option File → List ℕ → Work → Type 0
  Placed none rest w = ((has_stopped w.notes ≡ true) ⊎ NoNewline rest) × Emptied w.has_timer w.lines
  Placed (some file) rest w =
      (file.content ≡ content)
      × (rest ≡ drop w.sd.file_position content)
      × Pending w.has_timer file.cursor rest w.lines w.partial_input

  abbrev pub IsGood : Work → Type 0
  IsGood w =
      (rs : List (List ℕ)) × (rest : List ℕ) × Told rs rest w.ran × Placed w.sd.current_file rest w

  -- The rest of the file begins with the line that is run.
  pub next_line :
      (lines front : List (List ℕ)) (line tail : List ℕ)
      → lines ≡ front ++ (line ∷ [])
      → unlines (reverse lines) ++ tail ≡ line ++ (10 ∷ (unlines (reverse front) ++ tail))
  unfolding unlines
  next_line lines front line tail e =
      ap (λ t. unlines (reverse t) ++ tail) e
      ∙ ap (λ t. unlines t ++ tail) (reverse-append front (line ∷ []))
      ∙ append_assoc line (10 ∷ unlines (reverse front)) tail

  pub behind :
      (position : ℕ) (line after : List ℕ)
      → drop position content ≡ line ++ (10 ∷ after)
      → drop (position + length line + 1) content ≡ after
  behind position line after e =
      let shift : position + length line + 1 ≡ position + (length line + 1) = omega arith in
      ap (λ n. drop n content) shift
      ∙ drop_add position (length line + 1) content
      ∙ ap (drop (length line + 1)) e
      ∙ drop_add (length line) 1 (line ++ (10 ∷ after))
      ∙ ap (drop 1) (drop-append_left (length line) line (10 ∷ after) refl)

  pub one_more :
      (rs : List (List ℕ)) (line after rest : List ℕ) (ran : List (List ℕ))
      → Told rs rest ran
      → rest ≡ line ++ (10 ∷ after)
      → NoNewline line
      → Told (rs ++ (line ∷ [])) after (ran ++ (trim_right line ∷ []))
  one_more rs line after rest ran (names, whole, lines) e own = (
    ap (λ t. t ++ (trim_right line ∷ [])) names ∙ sym (map_last rs line),
    whole
        ∙ ap (λ t. unlines rs ++ t) e
        ∙ ap (λ t. unlines rs ++ t) (sym (append_assoc line (10 ∷ []) after))
        ∙ sym (append_assoc (unlines rs) (line ++ (10 ∷ [])) after)
        ∙ ap (λ t. t ++ after) (sym (unlines-append rs line)),
    All-append NoNewline rs (line ∷ []) lines (own, tt),
  )

  -- What a read makes of the pending input.
  pub fed :
      (rest partial bs : List ℕ) (cursor : ℕ)
      → rest ≡ partial ++ drop cursor content
      → NoNewline partial
      → drop cursor content ≡ bs ++ drop (cursor + length bs) content
      → let cut = split_last (join_partial partial (split_lines bs)) in
        (rest ≡ unlines (reverse (reverse cut.0)) ++ (cut.1 ++ drop (cursor + length bs) content))
        × All NoNewline (reverse (reverse cut.0))
        × NoNewline cut.1
  fed rest partial bs cursor e own more =
      let (whole, lines, last) = split-IsCut partial bs own in
      let cut = split_last (join_partial partial (split_lines bs)) in
      rw (reverse-reverse cut.0) (
        e
            ∙ ap (λ t. partial ++ t) more
            ∙ sym (append_assoc partial bs (drop (cursor + length bs) content))
            ∙ ap (λ t. t ++ drop (cursor + length bs) content) whole
            ∙ append_assoc (unlines cut.0) cut.1 (drop (cursor + length bs) content),
        lines,
        last,
      )

  -- The rest of a file behind what a read brings.
  pub cut_off : (n : ℕ) (xs : List ℕ) → take n xs ++ drop (length (take n xs)) xs ≡ xs
  cut_off zero xs = refl
  cut_off (suc n) [] = refl
  cut_off (suc n) (x ∷ xs) = ap (λ t. x ∷ t) (cut_off n xs)

  pub none_left : (n : ℕ) (xs : List ℕ) → 1 ≤ n → take n xs ≡ [] → xs ≡ []
  none_left zero xs h e = absurd (omega (arith, h))
  none_left (suc n) [] h e = refl
  none_left (suc n) (x ∷ xs) h e = cc
