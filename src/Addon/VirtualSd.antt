-- ===== src/Addon/VirtualSd.antt =====
-- virtual_sd.go and virtual_sd_module.go: printing from a file. A file is its bytes and a place to read
-- at. What a read brings, what a script does, and when another greenlet asks for a pause come from
-- outside; what is noted and what is run is kept in lists. Positions are natural numbers. The names of
-- files, the log and the answers to the user are left out, and seeking succeeds.
pub mod Work
pub mod Cut
pub mod Place
pub mod Round
pub mod Run
mod Tests
use klipper_go.Common.{
  ℕ, ◌+◌, min, Bool, true, false, Option, none, some, List, [], ◌∷◌, ◌++◌, ◌==◌, if◌then◌else◌,
  length, take, drop,
}
use mathlib.Core.List.{reverse}

pub record File : Type 0 where
  pub content : List ℕ
  pub cursor : ℕ

pub record VirtualSd : Type 0 where
  pub current_file : Option File
  pub file_size : ℕ
  pub must_pause_work : Bool
  pub cmd_from_sd : Bool
  pub next_file_position : ℕ
  pub file_position : ℕ

unfoldable pub new_virtual_sd : VirtualSd
new_virtual_sd = record {
  current_file = none;
  file_size = 0;
  must_pause_work = false;
  cmd_from_sd = false;
  next_file_position = 0;
  file_position = 0;
}

unfoldable pub close_current_file : VirtualSd → VirtualSd
close_current_file self = record self { current_file = none }

-- `Reset`
unfoldable pub reset_sd : VirtualSd → VirtualSd
unfolding close_current_file new_virtual_sd
reset_sd self = new_virtual_sd

-- `LoadFile` of a file that opens: an empty one is refused.
unfoldable pub load_file : List ℕ → VirtualSd → Option VirtualSd
load_file [] self = none
load_file (b ∷ bs) self = some (record self {
  current_file = some (record { content = b ∷ bs; cursor = 0 });
  file_position = 0;
  next_file_position = 0;
  file_size = length (b ∷ bs);
})

-- `SeekToFilePosition` and `SeekToNextPosition`, which seek to the same place
unfoldable pub seek_file : ℕ → Option File → Option File
seek_file position none = none
seek_file position (some file) = some (record file { cursor = position })

unfoldable pub seek_to_file_position : VirtualSd → VirtualSd
unfolding seek_file
seek_to_file_position self = record self {
  current_file = seek_file self.file_position self.current_file;
}

unfoldable pub seek_to_next_position : VirtualSd → VirtualSd
unfolding seek_file
seek_to_next_position self = record self {
  current_file = seek_file self.file_position self.current_file;
}

-- `strings.Split(s, "\n")`
unfoldable pub cons_first : ℕ → List (List ℕ) → List (List ℕ)
cons_first c [] = (c ∷ []) ∷ []
cons_first c (line ∷ lines) = (c ∷ line) ∷ lines

unfoldable pub split_lines : List ℕ → List (List ℕ)
unfolding cons_first
split_lines [] = [] ∷ []
split_lines (c ∷ cs) = let rest = split_lines cs in if c == 10 then [] ∷ rest else cons_first c rest

-- `lines[0] = partialInput + lines[0]`
unfoldable pub join_partial : List ℕ → List (List ℕ) → List (List ℕ)
join_partial partial [] = []
join_partial partial (line ∷ lines) = (partial ++ line) ∷ lines

-- All lines but the last, and the last.
unfoldable pub split_last : List (List ℕ) → List (List ℕ) × List ℕ
split_last [] = ([], [])
split_last (line ∷ []) = ([], line)
split_last (line ∷ next ∷ lines) =
    let (front, last) = split_last (next ∷ lines) in (line ∷ front, last)

-- A read fails, or brings at most that many bytes; `bool` of the latter says whether the file closes.
pub data Read : Type 0 where
  read_failed : Read
  got : ℕ → Bool → Read

-- What `ReadLines` returns beside the state.
pub data Lines : Type 0 where
  read_error : Lines
  end_of_file : Lines
  lines_read : List (List ℕ) → List ℕ → Lines

unfoldable pub take_lines : List (List ℕ) × List ℕ → Lines
take_lines (lines, partial) = lines_read (reverse lines) partial

unfoldable pub closing : Bool → Lines
closing true = end_of_file
closing false = read_error

unfoldable pub with_data : List ℕ → Bool → List ℕ → File → VirtualSd → VirtualSd × Lines
unfolding closing close_current_file take_lines
with_data [] closes partial file self = (close_current_file self, closing closes)
with_data (b ∷ bs) closes partial file self = (
  record self { current_file = some (record file { cursor = file.cursor + length (b ∷ bs) }) },
  take_lines (split_last (join_partial partial (split_lines (b ∷ bs)))),
)

unfoldable pub read_from : Option File → Read → List ℕ → VirtualSd → VirtualSd × Lines
unfolding with_data
read_from none read partial self = (self, end_of_file)
read_from (some file) read_failed partial self = (self, read_error)
read_from (some file) (got n closes) partial self =
    with_data (take (min n 8_192) (drop file.cursor file.content)) closes partial file self

-- `ReadLines`
unfoldable pub read_lines : Read → List ℕ → VirtualSd → VirtualSd × Lines
unfolding read_from
read_lines read partial self = read_from self.current_file read partial self

-- `strings.TrimRight(line, "\r")`
unfoldable pub put_before : ℕ → List ℕ → List ℕ
put_before c [] = if c == 13 then [] else c ∷ []
put_before c (d ∷ ds) = c ∷ d ∷ ds

unfoldable pub trim_right : List ℕ → List ℕ
unfolding put_before
trim_right [] = []
trim_right (c ∷ cs) = put_before c (trim_right cs)

-- `AdvanceLine`, without the line.
unfoldable pub advance_line : List ℕ → VirtualSd → VirtualSd
advance_line line self = record self { next_file_position = self.file_position + length line + 1 }

unfoldable pub commit_file_position : VirtualSd → VirtualSd
commit_file_position self = record self { file_position = self.next_file_position }
