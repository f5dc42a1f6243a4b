-- ===== src/Gcode/Parse/Extended.antt =====
-- `ParseExtendedParams`. Its `pos` is 0 whenever a key is read, so that it is left out. A key and what
-- was read so far are handed from state to state.
pub mod Total
pub mod RoundTrip
use klipper_go.Common.{
  ℕ, zero, suc, Bool, true, false, ◌||◌, Option, none, some, List, [], ◌∷◌, ◌==◌, if◌then◌else◌,
  length,
}
use klipper_go.Gcode.Parse.{bytes_eq, to_upper, trim_space, trim_left, is_quote}

abbrev pub Params : Type 0
Params = List (List ℕ × List ℕ)

-- `results[key] = value`
abbrev pub put : List ℕ → List ℕ → Params → Params
put key value [] = (key, value) ∷ []
put key value ((held, old) ∷ rest) =
    if bytes_eq held key then (key, value) ∷ rest else (held, old) ∷ put key value rest

pub data State : Type 0 where
  read_key : State
  read_val : List ℕ → State

pub data Parsed : Type 0 where
  parsed : Params → Parsed
  missing_closing_quote : Parsed
  out_of_fuel : Parsed

-- The text before the first such byte, and the text behind it.
abbrev pub cut : ℕ → List ℕ → Option (List ℕ × List ℕ)
cut byte [] = none
cut byte (c ∷ cs) =
    if c == byte
    then some ([], cs)
    else elim (cut byte cs) [ none ↦ none | some (before, after) ↦ some (c ∷ before, after) ]

-- What one round of the loop leads to: the end, or a state with the text and the results.
pub data Next : Type 0 where
  ends : Parsed → Next
  goes : State → List ℕ → Params → Next

unfoldable pub after_quoted : List ℕ → Option (List ℕ × List ℕ) → Params → Next
after_quoted key none results = ends missing_closing_quote
after_quoted key (some (value, [])) results = ends (parsed (put key value results))
after_quoted key (some (value, c ∷ cs)) results =
    goes read_key (trim_left (c ∷ cs)) (put key value results)

unfoldable pub after_plain : List ℕ → List ℕ → Option (List ℕ × List ℕ) → Params → Next
after_plain key params none results = ends (parsed (put key (trim_space params) results))
after_plain key params (some (value, after)) results =
    goes read_key (trim_left after) (put key (trim_space value) results)

unfoldable pub after_equals : Option (List ℕ × List ℕ) → Params → Next
after_equals none results = ends (parsed results)
after_equals (some (key, after)) results = goes (read_val (to_upper (trim_space key))) after results

unfoldable pub params_step : State → List ℕ → Params → Next
unfolding after_quoted after_plain after_equals
params_step read_key params results = after_equals (cut 61 params) results
params_step (read_val key) [] results = ends (parsed results)
params_step (read_val key) (c ∷ cs) results =
    if is_quote c
    then after_quoted key (cut c cs) results
    else after_plain key (c ∷ cs) (cut 32 (c ∷ cs)) results

unfoldable pub follow : Next → (State → List ℕ → Params → Parsed) → Parsed
follow (ends done) rest = done
follow (goes state params results) rest = rest state params results

unfoldable pub params_loop : ℕ → State → List ℕ → Params → Parsed
unfolding params_step follow
params_loop zero state params results = out_of_fuel
params_loop (suc fuel) state params results =
    follow (params_step state params results) (params_loop fuel)

unfoldable pub parse_extended_params : List ℕ → Parsed
unfolding params_loop
parse_extended_params input =
    params_loop (suc (length (trim_space input))) read_key (trim_space input) []
