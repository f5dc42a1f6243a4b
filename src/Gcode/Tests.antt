-- ===== src/Gcode/Tests.antt =====
-- The theorem on pausing at a concrete sequence of calls.
use klipper_go.Common.{◌+◌, ◌≤◌, true, false, List, [], ◌∷◌}
use klipper_go.Gcode.PauseResume.{
  Call, set_card, on_pause, on_resume, on_cancel, calls, new_pause_resume,
}
use klipper_go.Gcode.PauseResume.Balance.{
  IsConsistent, do_resumes, do_pauses, waiting, calls_balanced,
}
use klipper_go.Common.{ℕ, ◌⊎◌, ◌≡◌, refl, some}
use klipper_go.Gcode.Parse.{is_value_part, is_quote, parse_gcode_tokens, trim_space}
use klipper_go.Gcode.Parse.Tokens.{joined, without_blanks, Alternates, parse_gcode_tokens_total}
use klipper_go.Gcode.Parse.Extended.{Params, parsed, missing_closing_quote, parse_extended_params}
use klipper_go.Gcode.Parse.Extended.Total.{Unclosed, parse_extended_params_total}
use klipper_go.Gcode.Parse.Extended.RoundTrip.{print, put_all, parse-print}

abbrev a_print : List Call
a_print =
    set_card ∷ on_pause true ∷ on_pause true ∷ on_resume 50 ∷ on_pause true ∷ on_cancel false ∷ []

calls_balanced_example :
    IsConsistent (calls a_print new_pause_resume).0
    × (do_resumes (calls a_print new_pause_resume).1 + waiting (calls a_print new_pause_resume).0
        ≤ do_pauses (calls a_print new_pause_resume).1)
calls_balanced_example = calls_balanced a_print

-- G1 X-2.5
abbrev move_line : List ℕ
move_line = 71 ∷ 49 ∷ 32 ∷ 88 ∷ 45 ∷ 50 ∷ 46 ∷ 53 ∷ []

parse_gcode_tokens_total_example :
    (ts : List (List ℕ)) × (parse_gcode_tokens move_line ≡ some ([] ∷ ts))
    × (joined ts ≡ without_blanks move_line)
    × Alternates ts
parse_gcode_tokens_total_example = parse_gcode_tokens_total move_line

tokens_of_move :
    parse_gcode_tokens move_line
    ≡ some ([] ∷ (71 ∷ []) ∷ (49 ∷ []) ∷ (88 ∷ []) ∷ (45 ∷ 50 ∷ 46 ∷ 53 ∷ []) ∷ [])
unfolding parse_gcode_tokens is_value_part
tokens_of_move = refl

-- A="B
abbrev unclosed_line : List ℕ
unclosed_line = 65 ∷ 61 ∷ 34 ∷ 66 ∷ []

parse_extended_params_total_example :
    ((results : Params) × (parse_extended_params unclosed_line ≡ parsed results))
    ⊎ ((parse_extended_params unclosed_line ≡ missing_closing_quote)
        × Unclosed (trim_space unclosed_line))
parse_extended_params_total_example = parse_extended_params_total unclosed_line

unclosed : parse_extended_params unclosed_line ≡ missing_closing_quote
unfolding parse_extended_params is_quote
unclosed = refl

-- A with the value `B C`, B with none, and A again.
abbrev three_params : Params
three_params = (65 ∷ [], 66 ∷ 32 ∷ 67 ∷ []) ∷ (66 ∷ [], []) ∷ (65 ∷ [], 68 ∷ []) ∷ []

parse-print_example : parse_extended_params (print three_params) ≡ parsed (put_all three_params [])
parse-print_example = parse-print three_params ((refl, refl), ((refl, refl), ((refl, refl), tt)))
