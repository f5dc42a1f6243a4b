-- ===== src/Gcode/Parse.antt =====
-- gcode_parse_helpers.go. A line is the list of its bytes; blanks, letters and digits are those of
-- ASCII. Where the code keeps an index into a text, here is the rest of the text from there on.
pub mod Tokens
pub mod Extended
use Prim.Native.String.{String}
use text.Mathlib.Text.{◌==◌ as str_eq}
use klipper_go.Common.{
  ℕ, zero, suc, ◌+◌, ◌-◌, Bool, true, false, not, ◌&&◌, ◌||◌, Option, none, some, List, [], ◌∷◌,
  ◌++◌, map, ◌==◌, ltb, leb, if◌then◌else◌, length,
}

abbrev pub bytes_eq : List ℕ → List ℕ → Bool
bytes_eq [] [] = true
bytes_eq [] (d ∷ ds) = false
bytes_eq (c ∷ cs) [] = false
bytes_eq (c ∷ cs) (d ∷ ds) = c == d && bytes_eq cs ds

abbrev pub all : (ℕ → Bool) → List ℕ → Bool
all test [] = true
all test (c ∷ cs) = test c && all test cs

-- A blank of `strings.TrimSpace` and `strings.Fields`.
abbrev pub is_space : ℕ → Bool
is_space c = c == 32 || (leb 9 c && leb c 13)

abbrev pub upper : ℕ → ℕ
upper c = if leb 97 c && leb c 122 then c - 32 else c

abbrev pub is_letter : ℕ → Bool
is_letter c = (leb 65 c && leb c 90) || (leb 97 c && leb c 122)

abbrev pub to_upper : List ℕ → List ℕ
to_upper = map upper

abbrev pub trim_start : List ℕ → List ℕ
trim_start [] = []
trim_start (c ∷ cs) = if is_space c then trim_start cs else c ∷ cs

abbrev pub is_empty : List ℕ → Bool
is_empty [] = true
is_empty (c ∷ cs) = false

abbrev pub trim_end : List ℕ → List ℕ
trim_end [] = []
trim_end (c ∷ cs) = let rest = trim_end cs in if is_empty rest && is_space c then [] else c ∷ rest

-- `strings.TrimSpace`
abbrev pub trim_space : List ℕ → List ℕ
trim_space s = trim_end (trim_start s)

-- `strings.TrimLeft(s, " \t")`
abbrev pub trim_left : List ℕ → List ℕ
trim_left [] = []
trim_left (c ∷ cs) = if c == 32 || c == 9 then trim_left cs else c ∷ cs

unfoldable pub is_digit_char : ℕ → Bool
is_digit_char c = leb 48 c && leb c 57

unfoldable pub is_digit_string : List ℕ → Bool
unfolding is_digit_char
is_digit_string [] = false
is_digit_string (c ∷ cs) = all is_digit_char (c ∷ cs)

unfoldable pub is_quote : ℕ → Bool
is_quote c = c == 34 || c == 39

abbrev pub digit_at_front : List ℕ → Bool
unfolding is_digit_char
digit_at_front [] = false
digit_at_front (c ∷ cs) = is_digit_char c

abbrev pub tail : List ℕ → List ℕ
tail [] = []
tail (c ∷ cs) = cs

unfoldable pub is_command_valid : List ℕ → Bool
unfolding is_digit_char
is_command_valid cmd =
    bytes_eq (to_upper cmd) cmd
    && all (λ c. c == 95 || is_letter c || is_digit_char c) cmd
    && not (digit_at_front cmd)
    && not (digit_at_front (tail cmd))

unfoldable pub is_value_part : ℕ → Bool
unfolding is_digit_char
is_value_part c = is_digit_char c || c == 46 || c == 45

-- The loop of the two functions: the bytes that pass the test, and the line from behind them.
abbrev pub run_of : (ℕ → Bool) → List ℕ → List ℕ × List ℕ
run_of test [] = ([], [])
run_of test (c ∷ cs) =
    let (run, rest) = run_of test cs in if test c then (c ∷ run, rest) else ([], c ∷ cs)

abbrev pub is_key_part : ℕ → Bool
is_key_part c = not (is_value_part c)

-- `GetKey`
unfoldable pub get_key : List ℕ → List ℕ × List ℕ
get_key = run_of is_key_part

-- `GetVal`
unfoldable pub get_val : List ℕ → List ℕ × List ℕ
get_val = run_of is_value_part

abbrev pub with_word : List ℕ → List (List ℕ) → List (List ℕ)
with_word [] ws = ws
with_word (c ∷ cs) ws = (c ∷ cs) ∷ ws

-- The letters before the first blank, and the words behind it.
abbrev pub words : List ℕ → List ℕ × List (List ℕ)
words [] = ([], [])
words (c ∷ cs) = let (w, ws) = words cs in if is_space c then ([], with_word w ws) else (c ∷ w, ws)

-- `strings.Fields`
abbrev pub fields : List ℕ → List (List ℕ)
fields s = with_word (words s).0 (words s).1

abbrev pub and_then : Option (List (List ℕ)) → Option (List (List ℕ)) → Option (List (List ℕ))
and_then none rest = none
and_then (some ts) none = none
and_then (some ts) (some us) = some (ts ++ us)

-- The loop over one part; `none` is a loop of more rounds than the fuel.
unfoldable pub tokens_of : ℕ → List ℕ → Option (List (List ℕ))
unfolding get_key get_val
tokens_of fuel [] = some []
tokens_of zero (c ∷ cs) = none
tokens_of (suc fuel) (c ∷ cs) =
    let (key, after_key) = get_key (c ∷ cs) in
    let (val, after_val) = get_val after_key in
    and_then (some (key ∷ val ∷ [])) (tokens_of fuel after_val)

unfoldable pub tokens_of_all : List (List ℕ) → Option (List (List ℕ))
unfolding tokens_of
tokens_of_all [] = some []
tokens_of_all (part ∷ parts) = and_then (tokens_of (length part) part) (tokens_of_all parts)

-- `ParseGcodeTokens`
unfoldable pub parse_gcode_tokens : List ℕ → Option (List (List ℕ))
unfolding tokens_of_all
parse_gcode_tokens input = and_then (some ([] ∷ [])) (tokens_of_all (fields input))

abbrev pub before_blank : List ℕ → List ℕ
before_blank [] = []
before_blank (c ∷ cs) = if c == 32 then [] else c ∷ before_blank cs

abbrev pub upper_at_front : List ℕ → Bool
upper_at_front [] = false
upper_at_front (c ∷ cs) = leb 65 c && leb c 90

-- `IsTraditionalGCode`; `before_blank` is `strings.Split(cmd, " ")[0]`.
unfoldable pub is_traditional_gcode : List ℕ → Bool
is_traditional_gcode cmd =
    let word = before_blank (to_upper cmd) in upper_at_front word && digit_at_front (tail word)

abbrev one_of : String → List String → Bool
one_of state [] = false
one_of state (name ∷ names) = str_eq state name || one_of state names

-- `ParseBooleanString`
unfoldable pub parse_boolean_string : String → Bool × Bool
parse_boolean_string state =
    if one_of state ("1" ∷ "true" ∷ "on" ∷ "enable" ∷ "enabled" ∷ [])
    then (true, true)
    else if one_of state ("0" ∷ "false" ∷ "off" ∷ "disable" ∷ "disabled" ∷ [])
    then (false, true)
    else (false, false)
