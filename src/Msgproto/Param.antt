-- ===== src/Msgproto/Param.antt =====
-- The parameter types of msgproto.go and their `Encode` and `Parse`. A panic is `none`.
pub mod Names
use Prim.Native.String.{String}
use klipper_go.Common.{
  ℕ, ◌+◌, Bool, Option, none, some, List, [], ◌∷◌, ◌++◌, ltb, if◌then◌else◌, ◌>>=◌, length,
  get_elem?, take, drop,
}
use klipper_go.Common.Int.{ℤ, int_eq}
use klipper_go.Common.Assoc.{lookup}
use klipper_go.Msgproto.Vlq.{encode, parse}

-- The dynamic type of a number that `PT_uint32.Encode` is handed: an `int` or an `int64`, or the
-- `float64` that the JSON decoder makes of every number.
pub data Num : Type 0 where
  int : ℤ → Num
  int64 : ℤ → Num
  float64 : ℤ → Num

-- A row of `MessageTypes`, or an enumeration over one. The integer types differ in `Signed` and in
-- `Max_length`, which no operation of the file reads back; the buffers are one type.
pub data ParamType : Type 0 where
  integer : Bool → ParamType
  buffer : ParamType
  enumeration : Bool → List (String × Num) → ParamType

-- What a caller passes: `int` and `int64` are both numbers, `[]int` and `[]int64` both lists.
pub data Arg : Type 0 where
  number : Num → Arg
  ints : List ℕ → Arg
  text : String → Arg

-- What `Parse` returns. An enumeration's number without a name is printed with a question mark.
pub data Value : Type 0 where
  num : ℤ → Value
  bytes : List ℕ → Value
  named : String → Value
  unnamed : ℤ → Value

-- `PT_uint32.Encode`: `value.(int64)` panics on anything but the two integer types.
unfoldable pub encode_num : List ℕ → Num → Option (List ℕ)
encode_num out (int v) = some (encode out v)
encode_num out (int64 v) = some (encode out v)
encode_num out (float64 v) = none

-- `PT_string.Encode`
unfoldable pub encode_buffer : List ℕ → List ℕ → List ℕ
encode_buffer out v = (out ++ (length v ∷ [])) ++ v

-- `PT_string.Parse`: on a length that the slice does not hold it returns an empty slice and 0.
unfoldable pub parse_buffer : List ℕ → ℕ → Option (List ℕ × ℕ)
parse_buffer s at = do
  l ← get_elem? s at
  if ltb (length s) (at + l + 1) then some ([], 0) else some (take l (drop (at + 1) s), at + l + 1)

-- `Enumeration.Encode`: an unknown name panics, and so does a value that is no Go integer.
unfoldable pub encode_enum : List (String × Num) → List ℕ → String → Option (List ℕ)
unfolding encode_num
encode_enum enums out name = lookup name enums >>= λ tv. encode_num out tv

-- `Reverse_enums`, filled in the order of the list: a later row overwrites an earlier one.
unfoldable pub reverse_lookup : List (String × Num) → ℤ → Option String → Option String
reverse_lookup [] v found = found
reverse_lookup ((name, int w) ∷ rest) v found =
    reverse_lookup rest v (if int_eq w v then some name else found)
reverse_lookup ((name, int64 w) ∷ rest) v found = reverse_lookup rest v found
reverse_lookup ((name, float64 w) ∷ rest) v found =
    reverse_lookup rest v (if int_eq w v then some name else found)

unfoldable pub name_value : Option String → ℤ → Value
name_value (some name) v = named name
name_value none v = unnamed v

-- `t.Encode(&out, …)` as `MessageFormat.Encode` calls it: the integer types panic on a list, the
-- buffers on a number, an enumeration on both; a string or a float64 matches no case and appends
-- nothing.
unfoldable pub encode_arg : ParamType → Arg → List ℕ → Option (List ℕ)
unfolding encode_num encode_buffer
encode_arg t (text name) out = some out
encode_arg t (number (float64 v)) out = some out
encode_arg (integer signed) (number (int v)) out = encode_num out (int v)
encode_arg (integer signed) (number (int64 v)) out = encode_num out (int64 v)
encode_arg (integer signed) (ints v) out = none
encode_arg buffer (number (int v)) out = none
encode_arg buffer (number (int64 v)) out = none
encode_arg buffer (ints v) out = some (encode_buffer out v)
encode_arg (enumeration signed enums) (number (int v)) out = none
encode_arg (enumeration signed enums) (number (int64 v)) out = none
encode_arg (enumeration signed enums) (ints v) out = none

-- `encode_by_name`, with what the map holds under the parameter's name: the integer types take an int
-- or an int64, the buffers a list of int, an enumeration a string; anything else panics, and so does a
-- missing one. A list of int64, which `ints` stands for too elsewhere, would be a panic here.
unfoldable pub encode_named : ParamType → Option Arg → List ℕ → Option (List ℕ)
unfolding encode_num encode_buffer encode_enum
encode_named t none out = none
encode_named (integer signed) (some (number n)) out = encode_num out n
encode_named (integer signed) (some (ints v)) out = none
encode_named (integer signed) (some (text name)) out = none
encode_named buffer (some (number n)) out = none
encode_named buffer (some (ints v)) out = some (encode_buffer out v)
encode_named buffer (some (text name)) out = none
encode_named (enumeration signed enums) (some (number n)) out = none
encode_named (enumeration signed enums) (some (ints v)) out = none
encode_named (enumeration signed enums) (some (text name)) out = encode_enum enums out name

unfoldable pub parse_param : ParamType → List ℕ → ℕ → Option (Value × ℕ)
unfolding parse_buffer reverse_lookup name_value
parse_param (integer signed) s at = parse signed s at >>= λ r. some (num r.0, r.1)
parse_param buffer s at = parse_buffer s at >>= λ r. some (bytes r.0, r.1)
parse_param (enumeration signed enums) s at =
    parse signed s at >>= λ r. some (name_value (reverse_lookup enums r.0 none) r.0, r.1)
