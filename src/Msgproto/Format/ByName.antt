-- ===== src/Msgproto/Format/ByName.antt =====
-- A message encoded from named arguments and parsed, enumerations included.
use Prim.Native.String.{String}
use package.text.Mathlib.Text.{◌==◌ as str_eq}
use package.text.Mathlib.TextEquality.{eq_iff}
use klipper_go.Common.{
  ℕ, ◌+◌, ◌≡◌, refl, sym, ap, ◌∙◌, inl, inr, Bool, Bool-cases, Option, none, some, List, [], ◌∷◌,
  ◌++◌, append_assoc, append-nil, arith, length, length-append,
}
use klipper_go.Common.Int.{ℤ}
use klipper_go.Common.Assoc.{lookup, insert, lookup-insert_own, lookup-insert_other}
use klipper_go.Msgproto.Vlq.{encode}
use klipper_go.Msgproto.Vlq.Groups.{encode-append}
use klipper_go.Msgproto.Param.{
  Num, int, int64, float64, ParamType, integer, buffer, enumeration, Arg, number, ints, text, Value,
  encode_arg, encode_named, parse_param, name_value,
}
use klipper_go.Msgproto.Format.{
  MessageFormat, encode_names, encode_by_name, parse_params, parse_message,
}
use klipper_go.Msgproto.Format.RoundTrip.{
  Fits, FitsInt, arg_bytes, value_of, encode_arg-Fits, parse_param-Fits, parse_int_fits,
}
use klipper_go.Msgproto.Param.Names.{OnlyName, reverse-lookup}

-- An argument that its parameter can carry; for an enumeration a name of its own, with a Go int.
abbrev pub FitsNamed : ParamType → Arg → Type 0
FitsNamed (integer signed) a = Fits (integer signed) a
FitsNamed buffer a = Fits buffer a
FitsNamed (enumeration signed enums) (number n) = ⊥
FitsNamed (enumeration signed enums) (ints v) = ⊥
FitsNamed (enumeration signed enums) (text name) =
    (v : ℤ) × (lookup name enums ≡ some (int v)) × FitsInt signed v × OnlyName name v enums

-- Every parameter has an argument under its name.
abbrev pub AllNamed : List (String × ParamType) → List (String × Arg) → Type 0
AllNamed [] args = Unit {0}
AllNamed ((name, t) ∷ ps) args =
    ((a : Arg) × (lookup name args ≡ some a) × FitsNamed t a) × AllNamed ps args

-- And each comes back under it.
abbrev pub AllReturned :
    List (String × ParamType) → List (String × Arg) → List (String × Value) → Type 0
AllReturned [] args out = Unit {0}
AllReturned ((name, t) ∷ ps) args out =
    ((a : Arg) × (lookup name args ≡ some a) × (lookup name out ≡ some (value_of a)))
    × AllReturned ps args out

-- A parameter by itself, written behind anything and read behind anything.
abbrev Carried : ParamType → Arg → List ℕ → Type 0
Carried t a bytes =
    ((out : List ℕ) → encode_named t (some a) out ≡ some (out ++ bytes))
    × ((front rest : List ℕ)
        → parse_param t (front ++ (bytes ++ rest)) (length front)
          ≡ some (value_of a, length front + length bytes))

as_arg :
    (t : ParamType) (a : Arg)
    → Fits t a
    → (out : List ℕ) → encode_named t (some a) out ≡ encode_arg t a out
unfolding encode_named encode_arg
as_arg (integer signed) (number (int v)) h out = refl
as_arg (integer signed) (number (int64 v)) h out = refl
as_arg (integer signed) (number (float64 v)) h out = absurd h
as_arg (integer signed) (ints v) h out = absurd h
as_arg (integer signed) (text name) h out = absurd h
as_arg buffer (number n) h out = absurd h
as_arg buffer (ints v) h out = refl
as_arg buffer (text name) h out = absurd h
as_arg (enumeration signed enums) a h out = absurd h

plain-Carried : (t : ParamType) (a : Arg) → Fits t a → Carried t a (arg_bytes a)
plain-Carried t a h = (
  λ out. as_arg t a h out ∙ encode_arg-Fits t a out h,
  λ front rest. parse_param-Fits t a front rest h,
)

named-Carried :
    (signed : Bool) (enums : List (String × Num)) (name : String) (v : ℤ)
    → lookup name enums ≡ some (int v)
    → FitsInt signed v
    → OnlyName name v enums
    → Carried (enumeration signed enums) (text name) (encode [] v)
unfolding encode_named parse_param value_of name_value
named-Carried signed enums name v row fits only = (
  λ out. rw row (ap some (encode-append out v)),
  λ front rest.
      rw (parse_int_fits signed v front rest fits, reverse-lookup enums name v none only row) refl,
)

carried : (t : ParamType) (a : Arg) → FitsNamed t a → (bytes : List ℕ) × Carried t a bytes
carried (integer signed) a h = (arg_bytes a, plain-Carried (integer signed) a h)
carried buffer a h = (arg_bytes a, plain-Carried buffer a h)
carried (enumeration signed enums) (number n) h = absurd h
carried (enumeration signed enums) (ints v) h = absurd h
carried (enumeration signed enums) (text name) (v, row, fits, only) =
    (encode [] v, named-Carried signed enums name v row fits only)

all_bytes :
    (ps : List (String × ParamType)) (args : List (String × Arg)) → AllNamed ps args → List ℕ
all_bytes [] args h = []
all_bytes ((name, t) ∷ ps) args ((a, there, fits), more) =
    (carried t a fits).0 ++ all_bytes ps args more

stored :
    (ps : List (String × ParamType)) (args : List (String × Arg))
    → AllNamed ps args
    → List (String × Value)
    → List (String × Value)
stored [] args h out = out
stored ((name, t) ∷ ps) args ((a, there, fits), more) out =
    stored ps args more (insert name (value_of a) out)

encode_names-all_bytes :
    (ps : List (String × ParamType)) (args : List (String × Arg)) (h : AllNamed ps args)
    (out : List ℕ)
    → encode_names ps args out ≡ some (out ++ all_bytes ps args h)
unfolding encode_names all_bytes
encode_names-all_bytes [] args h out = ap some (sym (append-nil out))
encode_names-all_bytes ((name, t) ∷ ps) args ((a, there, fits), more) out =
    let bytes = (carried t a fits).0 in
    let writes = (carried t a fits).1.0 in
    rw (there, writes out)
      (encode_names-all_bytes ps args more (out ++ bytes)
        ∙ ap some (append_assoc out bytes (all_bytes ps args more)))

parse_params-stored :
    (ps : List (String × ParamType)) (args : List (String × Arg)) (h : AllNamed ps args)
    (front rest : List ℕ) (out : List (String × Value))
    → parse_params ps (front ++ (all_bytes ps args h ++ rest)) (length front) out
      ≡ some (stored ps args h out, length front + length (all_bytes ps args h))
unfolding parse_params all_bytes stored
parse_params-stored [] args h front rest out = ground arith
parse_params-stored ((name, t) ∷ ps) args ((a, there, fits), more) front rest out =
    let bytes = (carried t a fits).0 in
    let reads = (carried t a fits).1.1 in
    let later = all_bytes ps args more in
    let ih =
      parse_params-stored ps args more (front ++ bytes) rest (insert name (value_of a) out) in
    let sized : length (front ++ bytes) ≡ length front + length bytes = length-append front bytes in
    let joined : (front ++ bytes) ++ (later ++ rest) ≡ front ++ (bytes ++ (later ++ rest)) =
      append_assoc front bytes (later ++ rest) in
    rw (append_assoc bytes later rest, reads front (later ++ rest), length-append bytes later)
      (rw (sized, joined) at ih ∙ ground arith)

same_arg : {o : Option Arg} {a b : Arg} → o ≡ some a → o ≡ some b → a ≡ b
same_arg h k = cc

stored-kept :
    (ps : List (String × ParamType)) (args : List (String × Arg)) (h : AllNamed ps args)
    (out : List (String × Value)) (key : String) (a : Arg)
    → lookup key args ≡ some a
    → lookup key out ≡ some (value_of a)
    → lookup key (stored ps args h out) ≡ some (value_of a)
unfolding stored
stored-kept [] args h out key a given held = held
stored-kept ((name, t) ∷ ps) args ((b, there, fits), more) out key a given held =
    stored-kept ps args more (insert name (value_of b) out) key a given
      (elim (Bool-cases (str_eq name key)) [
        | inl own ↦
            (let same : name ≡ key = (eq_iff name key).0 own in
              let arg : b ≡ a = same_arg there (ap (λ k. lookup k args) same ∙ given) in
              ap (λ k. lookup k (insert name (value_of b) out)) (sym same)
              ∙ lookup-insert_own name (value_of b) out
              ∙ ap (λ x. some (value_of x)) arg)
        | inr other ↦ lookup-insert_other name key (value_of b) out other ∙ held
      ])

stored-AllReturned :
    (ps : List (String × ParamType)) (args : List (String × Arg)) (h : AllNamed ps args)
    (out : List (String × Value))
    → AllReturned ps args (stored ps args h out)
unfolding stored
stored-AllReturned [] args h out = tt
stored-AllReturned ((name, t) ∷ ps) args ((a, there, fits), more) out = (
  (
    a,
    there,
    stored-kept ps args more (insert name (value_of a) out) name a there
        (lookup-insert_own name (value_of a) out),
  ),
  stored-AllReturned ps args more (insert name (value_of a) out),
)

-- Where the arguments hold for each parameter one that it can carry, `Encode_by_name` does not panic,
-- and `MessageFormat.Parse` reads what it writes, behind any front and before any rest: it stops exactly
-- behind it, and each argument comes back under its parameter's name, an integer as the number, a
-- buffer as its elements, and an enumeration as the name that was given, whose value stands in its row
-- as a Go int and in no row of another name.
pub parse-encode_by_name :
    (m : MessageFormat) (args : List (String × Arg)) (front rest : List ℕ)
    → AllNamed m.params args
    → (bytes : List ℕ) × (out : List (String × Value)) × (encode_by_name m args ≡ some bytes)
      × (parse_message m (front ++ (bytes ++ rest)) (length front)
          ≡ some (out, length front + length bytes))
      × AllReturned m.params args out
unfolding encode_by_name parse_message
parse-encode_by_name m args front rest h =
    let body = all_bytes m.params args h in
    let id = m.msgid_bytes in
    let read = parse_params-stored m.params args h (front ++ id) rest [] in
    let sized : length (front ++ id) ≡ length front + length id = length-append front id in
    let joined : (front ++ id) ++ (body ++ rest) ≡ front ++ (id ++ (body ++ rest)) =
      append_assoc front id (body ++ rest) in
    (
      id ++ body,
      stored m.params args h [],
      encode_names-all_bytes m.params args h id,
      rw (append_assoc id body rest, length-append id body)
          (rw (sized, joined) at read ∙ ground arith),
      stored-AllReturned m.params args h [],
    )
