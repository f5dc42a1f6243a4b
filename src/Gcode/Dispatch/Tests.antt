-- ===== src/Gcode/Dispatch/Tests.antt =====
-- Commands that are registered, and lines that name them.
use klipper_go.Common.{ℕ, true, false, none, some, List, [], ◌∷◌, ◌≡◌, refl}
use klipper_go.Gcode.Parse.{parse_gcode_tokens, is_value_part}
use klipper_go.Gcode.Dispatch.{new_dispatch_runtime, parse_dispatch_command_line}
use klipper_go.Gcode.Dispatch.Known.{
  Registering, register, become_ready, registering, IsKnown, alike_when_ready,
}

-- M112 in both states, G1 once the printer is ready, STATUS in both, a name that is refused, G1 again.
abbrev some_calls : List Registering
some_calls =
    register (77 ∷ 49 ∷ 49 ∷ 50 ∷ []) (some 1) true
    ∷ register (71 ∷ 49 ∷ []) (some 2) false
    ∷ register (83 ∷ 84 ∷ 65 ∷ 84 ∷ 85 ∷ 83 ∷ []) (some 3) true
    ∷ register (49 ∷ 65 ∷ []) (some 4) true
    ∷ become_ready true
    ∷ register (71 ∷ 49 ∷ []) (some 5) true
    ∷ register (71 ∷ 49 ∷ []) none false
    ∷ []

alike_when_ready_example : IsKnown (registering some_calls new_dispatch_runtime)
alike_when_ready_example = alike_when_ready some_calls

-- G1 X2 ;a
abbrev plain_line : List ℕ
plain_line = 71 ∷ 49 ∷ 32 ∷ 88 ∷ 50 ∷ 32 ∷ 59 ∷ 97 ∷ []

plain_command :
    parse_dispatch_command_line plain_line
    ≡ some (record {
      original_line = plain_line;
      command = 71 ∷ 49 ∷ [];
      params = (71 ∷ [], 49 ∷ []) ∷ (88 ∷ [], 50 ∷ []) ∷ [];
    })
unfolding parse_dispatch_command_line parse_gcode_tokens is_value_part
plain_command = refl

-- N7 G1 X2
abbrev numbered_line : List ℕ
numbered_line = 78 ∷ 55 ∷ 32 ∷ 71 ∷ 49 ∷ 32 ∷ 88 ∷ 50 ∷ []

-- With a line number all the rest of the line is taken for the name of the command.
numbered_command :
    parse_dispatch_command_line numbered_line
    ≡ some (record {
      original_line = numbered_line;
      command = 71 ∷ 49 ∷ 88 ∷ 50 ∷ [];
      params = (78 ∷ [], 55 ∷ []) ∷ (71 ∷ [], 49 ∷ []) ∷ (88 ∷ [], 50 ∷ []) ∷ [];
    })
unfolding parse_dispatch_command_line parse_gcode_tokens is_value_part
numbered_command = refl
