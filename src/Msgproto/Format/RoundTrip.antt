-- ===== src/Msgproto/Format/RoundTrip.antt =====
-- A message from the arguments on one side to the parameters on the other.
use Prim.Native.String.{String}
use klipper_go.Common.{
  ℕ, suc, ◌+◌, ◌≡◌, refl, sym, ap, ◌∙◌, ◌⊎◌, Bool, true, some, List, [], ◌∷◌, ◌++◌, append_assoc,
  append-nil, arith, length, length-append, drop-append_right, take-append_left,
  get_elem?-append_right,
}
use klipper_go.Common.Int.{ℤ, neg_part}
use klipper_go.Common.Assoc.{insert}
use klipper_go.Msgproto.Vlq.{encode, parse}
use klipper_go.Msgproto.Vlq.RoundTrip.{parse-encode, finish_exact}
use klipper_go.Msgproto.Vlq.Groups.{IsWire, encode-append}
use klipper_go.Msgproto.Param.{
  Num, int, int64, float64, ParamType, integer, buffer, enumeration, Arg, number, ints, text, Value,
  num, bytes, encode_arg, parse_param, parse_buffer,
}
use klipper_go.Msgproto.Format.{encode_args, parse_params}

-- An argument that its parameter can carry: a wire integer, not negative for an unsigned type, or
-- the elements of a buffer.
abbrev pub FitsInt : Bool → ℤ → Type 0
FitsInt signed v = IsWire v × ((signed ≡ true) ⊎ (neg_part v ≡ 0))

abbrev pub Fits : ParamType → Arg → Type 0
Fits (integer signed) (number (int v)) = FitsInt signed v
Fits (integer signed) (number (int64 v)) = FitsInt signed v
Fits (integer signed) (number (float64 v)) = ⊥
Fits (integer signed) (ints v) = ⊥
Fits (integer signed) (text t) = ⊥
Fits buffer (number n) = ⊥
Fits buffer (ints v) = Unit {0}
Fits buffer (text t) = ⊥
Fits (enumeration signed enums) a = ⊥

abbrev pub AllFit : List (String × ParamType) → List Arg → Type 0
AllFit [] args = Unit {0}
AllFit (p ∷ ps) [] = ⊥
AllFit (p ∷ ps) (a ∷ as') = Fits p.1 a × AllFit ps as'

-- What is written for an argument, and what is read back.
unfoldable pub num_of : Num → ℤ
num_of (int v) = v
num_of (int64 v) = v
num_of (float64 v) = v

unfoldable pub arg_bytes : Arg → List ℕ
unfolding num_of
arg_bytes (number n) = encode [] (num_of n)
arg_bytes (ints v) = length v ∷ v
arg_bytes (text t) = []

unfoldable pub value_of : Arg → Value
unfolding num_of
value_of (number n) = num (num_of n)
value_of (ints v) = bytes v
value_of (text t) = Value.named t

unfoldable pub all_bytes : List (String × ParamType) → List Arg → List ℕ
all_bytes [] args = []
all_bytes (p ∷ ps) [] = []
all_bytes (p ∷ ps) (a ∷ as') = arg_bytes a ++ all_bytes ps as'

-- The map that holds each argument under its parameter's name.
unfoldable pub store :
    List (String × ParamType) → List Arg → List (String × Value) → List (String × Value)
unfolding value_of
store [] args out = out
store (p ∷ ps) [] out = out
store (p ∷ ps) (a ∷ as') out = store ps as' (insert p.0 (value_of a) out)

pub encode_arg-Fits :
    (t : ParamType) (a : Arg) (out : List ℕ)
    → Fits t a
    → encode_arg t a out ≡ some (out ++ arg_bytes a)
unfolding encode_arg arg_bytes
encode_arg-Fits (integer signed) (number (int v)) out h = ap some (encode-append out v)
encode_arg-Fits (integer signed) (number (int64 v)) out h = ap some (encode-append out v)
encode_arg-Fits (integer signed) (number (float64 v)) out h = absurd h
encode_arg-Fits (integer signed) (ints v) out h = absurd h
encode_arg-Fits (integer signed) (text t) out h = absurd h
encode_arg-Fits buffer (number n) out h = absurd h
encode_arg-Fits buffer (ints v) out h = ap some (append_assoc out (length v ∷ []) v)
encode_arg-Fits buffer (text t) out h = absurd h
encode_arg-Fits (enumeration signed enums) a out h = absurd h

-- An integer behind `front`.
pub parse_int_fits :
    (signed : Bool) (v : ℤ) (front rest : List ℕ)
    → FitsInt signed v
    → parse signed (front ++ (encode [] v ++ rest)) (length front)
      ≡ some (v, length front + length (encode [] v))
parse_int_fits signed v front rest h =
    let joined : front ++ (encode [] v ++ rest) ≡ encode front v ++ rest =
      sym (append_assoc front (encode [] v) rest)
      ∙ ap (λ t. t ++ rest) (sym (encode-append front v)) in
    let sized : length (encode front v) ≡ length front + length (encode [] v) =
      ap length (encode-append front v) ∙ length-append front (encode [] v) in
    ap (λ s. parse signed s (length front)) joined
    ∙ parse-encode v h.0 rest front signed
    ∙ ground (arith, finish_exact signed v h.0 h.1, sized)

parse_buffer_fits :
    (v front rest : List ℕ)
    → parse_buffer (front ++ (length v ∷ (v ++ rest))) (length front)
      ≡ some (v, length front + suc (length v))
unfolding parse_buffer
parse_buffer_fits v front rest = ground (
  arith,
  get_elem?-append_right (length front) front (length v ∷ (v ++ rest)) 0 (omega arith),
  length-append front (length v ∷ (v ++ rest)),
  length-append v rest,
  drop-append_right (length front + 1) front (length v ∷ (v ++ rest)) 1 refl,
  take-append_left (length v) v rest refl,
)

pub parse_param-Fits :
    (t : ParamType) (a : Arg) (front rest : List ℕ)
    → Fits t a
    → parse_param t (front ++ (arg_bytes a ++ rest)) (length front)
      ≡ some (value_of a, length front + length (arg_bytes a))
unfolding parse_param arg_bytes value_of
parse_param-Fits (integer signed) (number (int v)) front rest h =
    rw (parse_int_fits signed v front rest h)
parse_param-Fits (integer signed) (number (int64 v)) front rest h =
    rw (parse_int_fits signed v front rest h)
parse_param-Fits (integer signed) (number (float64 v)) front rest h = absurd h
parse_param-Fits (integer signed) (ints v) front rest h = absurd h
parse_param-Fits (integer signed) (text t) front rest h = absurd h
parse_param-Fits buffer (number n) front rest h = absurd h
parse_param-Fits buffer (ints v) front rest h = ground (arith, parse_buffer_fits v front rest)
parse_param-Fits buffer (text t) front rest h = absurd h
parse_param-Fits (enumeration signed enums) a front rest h = absurd h

pub encode_args_fits :
    (ps : List (String × ParamType)) (args : List Arg) (out : List ℕ)
    → AllFit ps args
    → encode_args ps args out ≡ some (out ++ all_bytes ps args)
unfolding encode_args all_bytes
encode_args_fits [] args out h = ap some (sym (append-nil out))
encode_args_fits (p ∷ ps) [] out h = absurd h
encode_args_fits (p ∷ ps) (a ∷ as') out h = rw (encode_arg-Fits p.1 a out h.0) (
    encode_args_fits ps as' (out ++ arg_bytes a) h.1
    ∙ ap some (append_assoc out (arg_bytes a) (all_bytes ps as')))

pub parse_params_fits :
    (ps : List (String × ParamType)) (args : List Arg) (front rest : List ℕ)
    (out : List (String × Value))
    → AllFit ps args
    → parse_params ps (front ++ (all_bytes ps args ++ rest)) (length front) out
      ≡ some (store ps args out, length front + length (all_bytes ps args))
unfolding parse_params all_bytes store
parse_params_fits [] args front rest out h = ground arith
parse_params_fits (p ∷ ps) [] front rest out h = absurd h
parse_params_fits ((name, t) ∷ ps) (a ∷ as') front rest out h =
    let here = arg_bytes a in
    let more = all_bytes ps as' in
    let ih = parse_params_fits ps as' (front ++ here) rest (insert name (value_of a) out) h.1 in
    let sized : length (front ++ here) ≡ length front + length here = length-append front here in
    let joined : (front ++ here) ++ (more ++ rest) ≡ front ++ (here ++ (more ++ rest)) =
      append_assoc front here (more ++ rest) in
    rw
      (
        append_assoc here more rest,
        parse_param-Fits t a front (more ++ rest) h.0,
        length-append here more,
      )
      (rw (sized, joined) at ih ∙ ground arith)
