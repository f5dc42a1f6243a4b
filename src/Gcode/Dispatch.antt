-- ===== src/Gcode/Dispatch.antt =====
-- dispatch_runtime.go: which command a line names, and the handlers of commands before and after the
-- printer is ready. A handler is a number, with the mark of `wrapExtendedCommand`; a panic of
-- `RegisterCommand` is an answer, and descriptions are left out.
pub mod Known
mod Tests
use klipper_go.Common.{
  ℕ, Bool, true, false, not, ◌&&◌, Option, none, some, List, [], ◌∷◌, ◌++◌, ◌==◌, if◌then◌else◌,
}
use mathlib.Core.List.{reverse}
use klipper_go.Gcode.Parse.{
  bytes_eq, to_upper, trim_space, is_command_valid, is_traditional_gcode, parse_gcode_tokens,
}
use klipper_go.Gcode.Parse.Extended.{Params, put}

pub record ParsedDispatchCommand : Type 0 where
  pub original_line : List ℕ
  pub command : List ℕ
  pub params : Params

-- `strings.Trim(input, " ")`
unfoldable pub trim_spaces_left : List ℕ → List ℕ
trim_spaces_left [] = []
trim_spaces_left (c ∷ cs) = if c == 32 then trim_spaces_left cs else c ∷ cs

unfoldable pub trim_spaces : List ℕ → List ℕ
unfolding trim_spaces_left
trim_spaces line = reverse (trim_spaces_left (reverse (trim_spaces_left line)))

unfoldable pub without_comment : List ℕ → List ℕ
without_comment [] = []
without_comment (c ∷ cs) = if c == 59 then [] else c ∷ without_comment cs

unfoldable pub join : List (List ℕ) → List ℕ
join [] = []
join (part ∷ parts) = part ++ join parts

-- The name of the command, from the parts of the line.
unfoldable pub command_of : List (List ℕ) → List ℕ
unfolding join
command_of (first ∷ key ∷ val ∷ rest) =
    if bytes_eq key (78 ∷ [])
    then trim_space (join rest)
    else trim_space (join (first ∷ key ∷ val ∷ []))
command_of parts = []

-- Keys and values in turns, from the second part on.
unfoldable pub params_of : List (List ℕ) → Params → Params
params_of (key ∷ val ∷ rest) params = params_of rest (put key (trim_space val) params)
params_of parts params = params

unfoldable pub behind_first : List (List ℕ) → List (List ℕ)
behind_first [] = []
behind_first (first ∷ rest) = rest

unfoldable pub parse_dispatch_command_line : List ℕ → Option ParsedDispatchCommand
unfolding trim_spaces without_comment command_of params_of behind_first
parse_dispatch_command_line input =
    let line = trim_spaces input in
    elim (parse_gcode_tokens (to_upper (without_comment line))) [
      | none ↦ none
      | some parts ↦ some (record {
        original_line = line;
        command = command_of parts;
        params = params_of (behind_first parts) [];
      })
    ]

pub record Handler : Type 0 where
  pub target : ℕ
  pub is_extended : Bool

abbrev pub Handlers : Type 0
Handlers = List (List ℕ × Handler)

pub record DispatchRuntime : Type 0 where
  pub base_handlers : Handlers
  pub ready_handlers : Handlers
  pub is_printer_ready : Bool

unfoldable pub new_dispatch_runtime : DispatchRuntime
new_dispatch_runtime = record { base_handlers = []; ready_handlers = []; is_printer_ready = false }

unfoldable pub handler_of : List ℕ → Handlers → Option Handler
handler_of cmd [] = none
handler_of cmd ((held, handler) ∷ rest) =
    if bytes_eq held cmd then some handler else handler_of cmd rest

unfoldable pub put_handler : List ℕ → Handler → Handlers → Handlers
put_handler cmd handler [] = (cmd, handler) ∷ []
put_handler cmd handler ((held, old) ∷ rest) =
    if bytes_eq held cmd then (cmd, handler) ∷ rest else (held, old) ∷ put_handler cmd handler rest

unfoldable pub delete_handler : List ℕ → Handlers → Handlers
delete_handler cmd [] = []
delete_handler cmd ((held, handler) ∷ rest) =
    let rest' = delete_handler cmd rest in
    if bytes_eq held cmd then rest' else (held, handler) ∷ rest'

-- `SetReady` chooses among the handlers, `ActiveHandlers` gives them.
unfoldable pub set_ready : Bool → DispatchRuntime → DispatchRuntime
set_ready ready self = record self { is_printer_ready = ready }

unfoldable pub active_handlers : DispatchRuntime → Handlers
active_handlers self = if self.is_printer_ready then self.ready_handlers else self.base_handlers

pub data Registered : Type 0 where
  added : Registered
  removed : Option Handler → Registered
  already_registered invalid_name : Registered

unfoldable pub add_if : Bool → List ℕ → Handler → Handlers → Handlers
unfolding put_handler
add_if true cmd handler handlers = put_handler cmd handler handlers
add_if false cmd handler handlers = handlers

unfoldable pub add_command :
    Bool → List ℕ → Handler → Bool → DispatchRuntime → DispatchRuntime × Registered
unfolding add_if
add_command false cmd handler when_not_ready self = (self, invalid_name)
add_command true cmd handler when_not_ready self = (
  record self {
    ready_handlers = put_handler cmd handler self.ready_handlers;
    base_handlers = add_if when_not_ready cmd handler self.base_handlers;
  },
  added,
)

unfoldable pub add_unless :
    Option Handler → List ℕ → ℕ → Bool → DispatchRuntime → DispatchRuntime × Registered
unfolding add_command
add_unless (some old) cmd target when_not_ready self = (self, already_registered)
add_unless none cmd target when_not_ready self =
    let traditional = is_traditional_gcode cmd in
    add_command (if traditional then true else is_command_valid cmd) cmd
      (record { target = target; is_extended = not traditional }) when_not_ready self

-- `RegisterCommand`: without a handler the command is taken away.
unfoldable pub register_command :
    List ℕ → Option ℕ → Bool → DispatchRuntime → DispatchRuntime × Registered
unfolding add_unless delete_handler handler_of
register_command cmd none when_not_ready self = (
  record self {
    ready_handlers = delete_handler cmd self.ready_handlers;
    base_handlers = delete_handler cmd self.base_handlers;
  },
  removed (handler_of cmd self.ready_handlers),
)
register_command cmd (some target) when_not_ready self =
    add_unless (handler_of cmd self.ready_handlers) cmd target when_not_ready self
