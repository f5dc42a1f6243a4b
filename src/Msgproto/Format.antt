-- ===== src/Msgproto/Format.antt =====
-- `MessageFormat.Encode` and `MessageFormat.Parse`, and what `MessageParser` does with them. The map
-- that `Parse` fills is an association list, written in the order of the parameters.
pub mod RoundTrip
pub mod Wire
pub mod ByName
use Prim.Native.String.{String}
use klipper_go.Common.{
  ℕ, ◌+◌, ◌-◌, ◌==◌, Bool, Option, none, some, List, [], ◌∷◌, ◌++◌, if◌then◌else◌, ◌>>=◌, length,
  get_elem?,
}
use klipper_go.Common.Int.{ℤ, pos, int_eq}
use klipper_go.Common.Assoc.{insert, lookup}
use klipper_go.Msgproto.Vlq.{encode, parse}
use klipper_go.Msgproto.Param.{
  ParamType, Arg, Value, num, bytes, encode_arg, encode_named, parse_param,
}

pub record MessageFormat : Type 0 where
  pub name : String
  pub msgid_bytes : List ℕ
  pub params : List (String × ParamType)

-- The loop of `Encode` over `Param_types`; `params[i]` panics when the arguments run out.
unfoldable pub encode_args : List (String × ParamType) → List Arg → List ℕ → Option (List ℕ)
encode_args [] args out = some out
encode_args (p ∷ ps) [] out = none
encode_args (p ∷ ps) (a ∷ as') out = encode_arg p.1 a out >>= λ out'. encode_args ps as' out'

unfoldable pub encode_message : MessageFormat → List Arg → Option (List ℕ)
unfolding encode_args
encode_message m args = encode_args m.params args m.msgid_bytes

-- `Encode_by_name`: the loop over `Param_names`.
unfoldable pub encode_names :
    List (String × ParamType) → List (String × Arg) → List ℕ → Option (List ℕ)
encode_names [] args out = some out
encode_names ((name, t) ∷ ps) args out =
    encode_named t (lookup name args) out >>= λ out'. encode_names ps args out'

unfoldable pub encode_by_name : MessageFormat → List (String × Arg) → Option (List ℕ)
unfolding encode_names
encode_by_name m args = encode_names m.params args m.msgid_bytes

-- The loop of `Parse`, which threads the position.
unfoldable pub parse_params :
    List (String × ParamType)
    → List ℕ
    → ℕ
    → List (String × Value)
    → Option (List (String × Value) × ℕ)
parse_params [] s at out = some (out, at)
parse_params ((name, t) ∷ ps) s at out =
    parse_param t s at >>= λ r. parse_params ps s r.1 (insert name r.0 out)

unfoldable pub parse_message : MessageFormat → List ℕ → ℕ → Option (List (String × Value) × ℕ)
unfolding parse_params
parse_message m s at = parse_params m.params s (at + length m.msgid_bytes) []

-- `UnknownFormat.Parse`: a one-element rest is its own id.
unfoldable pub parse_unknown : List ℕ → ℕ → Option (List (String × Value) × ℕ)
parse_unknown s at = parse Bool.false s at >>= λ r. elim (get_elem? s at) [
  | none ↦ none
  | some only ↦ some (
    ("#msgid", if length s == at + 1 then num (pos only) else num r.0) ∷ ("#msg", bytes s) ∷ [],
    length s - 3,
  )
]

-- `Messages_by_id`
abbrev pub Registry : Type 0
Registry = List (ℤ × MessageFormat)

unfoldable pub find_message : Registry → ℤ → Option MessageFormat
find_message [] msgid = none
find_message ((id, m) ∷ rest) msgid = if int_eq id msgid then some m else find_message rest msgid

-- The end of `MessageParser.Parse`: "Extra data at end of message" panics.
unfoldable pub finish_parse :
    String → List ℕ → List (String × Value) × ℕ → Option (List (String × Value))
finish_parse name s (params, at) =
    if at + 3 == length s then some (insert "#name" (Value.named name) params) else none

unfoldable pub parse_known : Option MessageFormat → List ℕ → Option (List (String × Value))
unfolding parse_unknown finish_parse
parse_known none s = parse_unknown s 2 >>= λ r. finish_parse "#unknown" s r
parse_known (some m) s = parse_message m s 2 >>= λ r. finish_parse m.name s r

unfoldable pub parse_packet : Registry → List ℕ → Option (List (String × Value))
parse_packet registry s = parse Bool.true s 2 >>= λ r. parse_known (find_message registry r.0) s
