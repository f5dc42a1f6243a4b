-- ===== src/Gcode/Parse/Extended/RoundTrip.antt =====
-- Parameters that are written with quoted values are read back.
use klipper_go.Common.{
  ℕ, zero, suc, ◌+◌, ◌≤◌, ◌<◌, ◌≡◌, refl, ap, ◌∙◌, inl, inr, Bool-cases, Bool, true, false, ◌||◌,
  ◌&&◌, not, some, List, [], ◌∷◌, ◌++◌, length-append, ◌==◌, ==_iff, length, All, arith,
}
use klipper_go.Gcode.Parse.{
  all, is_quote, is_space, is_empty, upper, to_upper, trim_left, trim_start, trim_end, trim_space,
}
use klipper_go.Gcode.Parse.Extended.{
  Params, read_key, read_val, parsed, cut, goes, put, after_quoted, after_equals, params_step,
  follow, params_loop, parse_extended_params,
}

abbrev is_key_byte : ℕ → Bool
is_key_byte c = not (is_space c) && not (c == 61) && (upper c == c)

abbrev is_value_byte : ℕ → Bool
is_value_byte c = not (c == 34)

-- A key without blanks, equals signs and small letters, and a value without a double quote.
abbrev pub IsPair : List ℕ × List ℕ → Type 0
IsPair (key, value) = (all is_key_byte key ≡ true) × (all is_value_byte value ≡ true)

-- KEY1="value1" KEY2="value2" ...
abbrev pub behind_blank : List ℕ → List ℕ
behind_blank [] = []
behind_blank (c ∷ cs) = 32 ∷ c ∷ cs

unfoldable pub print : Params → List ℕ
print [] = []
print ((key, value) ∷ ps) = key ++ (61 ∷ 34 ∷ (value ++ (34 ∷ behind_blank (print ps))))

abbrev pub put_all : Params → Params → Params
put_all [] results = results
put_all ((key, value) ∷ ps) results = put_all ps (put key value results)

cut-append :
    (byte : ℕ) (test : ℕ → Bool) (xs ys : List ℕ)
    → ((c : ℕ) → test c ≡ true → c == byte ≡ false)
    → all test xs ≡ true
    → cut byte (xs ++ (byte ∷ ys)) ≡ some (xs, ys)
cut-append byte test [] ys apart h = let same : byte == byte ≡ true = ground arith in rw same refl
cut-append byte test (x ∷ xs) ys apart h =
    let here : test x ≡ true = ground arith in
    let rest : all test xs ≡ true = ground arith in
    rw (apart x here, cut-append byte test xs ys apart rest) refl

trim_start-key :
    (xs ys : List ℕ) → all is_key_byte xs ≡ true → trim_start (xs ++ (61 ∷ ys)) ≡ xs ++ (61 ∷ ys)
trim_start-key [] ys h = refl
trim_start-key (x ∷ xs) ys h = let letter : is_space x ≡ false = ground arith in rw letter refl

trim_left-key :
    (xs ys : List ℕ) → all is_key_byte xs ≡ true → trim_left (xs ++ (61 ∷ ys)) ≡ xs ++ (61 ∷ ys)
trim_left-key [] ys h = refl
trim_left-key (x ∷ xs) ys h =
    let letter : (x == 32 || x == 9) ≡ false = ground arith in rw letter refl

trim_end-key : (xs : List ℕ) → all is_key_byte xs ≡ true → trim_end xs ≡ xs
trim_end-key [] h = refl
trim_end-key (x ∷ xs) h =
    let letter : is_space x ≡ false = ground arith in
    let rest : all is_key_byte xs ≡ true = ground arith in
    rw (trim_end-key xs rest, letter)
      (elim (Bool-cases (is_empty xs)) [
        | inl none_left ↦ rw none_left refl
        | inr some_left ↦ rw some_left refl
      ])

trim_space-key : (xs : List ℕ) → all is_key_byte xs ≡ true → trim_space xs ≡ xs
trim_space-key [] h = refl
trim_space-key (x ∷ xs) h =
    let letter : is_space x ≡ false = ground arith in rw letter (trim_end-key (x ∷ xs) h)

to_upper-key : (xs : List ℕ) → all is_key_byte xs ≡ true → to_upper xs ≡ xs
to_upper-key [] h = refl
to_upper-key (x ∷ xs) h =
    let same : upper x ≡ x = ground (arith, ==_iff (upper x) x) in
    let rest : all is_key_byte xs ≡ true = ground arith in rw (same, to_upper-key xs rest) refl

is_empty-append : (xs : List ℕ) (y : ℕ) (ys : List ℕ) → is_empty (xs ++ (y ∷ ys)) ≡ false
is_empty-append [] y ys = refl
is_empty-append (x ∷ xs) y ys = refl

trim_end-append :
    (xs : List ℕ) (y : ℕ) (ys : List ℕ)
    → trim_end (y ∷ ys) ≡ y ∷ ys
    → trim_end (xs ++ (y ∷ ys)) ≡ xs ++ (y ∷ ys)
trim_end-append [] y ys h = h
trim_end-append (x ∷ xs) y ys h = rw (trim_end-append xs y ys h, is_empty-append xs y ys) refl

trim_end-quote : (xs ys : List ℕ) → trim_end ys ≡ ys → trim_end (xs ++ (34 ∷ ys)) ≡ xs ++ (34 ∷ ys)
trim_end-quote xs ys h = trim_end-append xs 34 ys (
    rw h (elim (Bool-cases (is_empty ys)) [
      | inl none_left ↦ rw none_left refl
      | inr some_left ↦ rw some_left refl
    ]))

trim_end-behind_blank :
    (ys : List ℕ) → trim_end ys ≡ ys → trim_end (behind_blank ys) ≡ behind_blank ys
trim_end-behind_blank [] h = refl
trim_end-behind_blank (c ∷ cs) h = trim_end-append (32 ∷ []) c cs h

trim_end-print : (ps : Params) → trim_end (print ps) ≡ print ps
unfolding print
trim_end-print [] = refl
trim_end-print ((key, value) ∷ ps) =
    trim_end-append key 61 (34 ∷ (value ++ (34 ∷ behind_blank (print ps)))) (
      trim_end-quote (61 ∷ 34 ∷ value) (behind_blank (print ps))
        (trim_end-behind_blank (print ps) (trim_end-print ps)))

trim_space-print : (ps : Params) → All IsPair ps → trim_space (print ps) ≡ print ps
unfolding print
trim_space-print [] h = refl
trim_space-print ((key, value) ∷ ps) h =
    ap trim_end (trim_start-key key (34 ∷ (value ++ (34 ∷ behind_blank (print ps)))) h.0.0)
    ∙ trim_end-print ((key, value) ∷ ps)

read_key_round :
    (key rest : List ℕ) (results : Params)
    → all is_key_byte key ≡ true
    → params_step read_key (key ++ (61 ∷ rest)) results ≡ goes (read_val key) rest results
unfolding params_step after_equals
read_key_round key rest results h =
    rw
      (
        cut-append 61 is_key_byte key rest (λ c p. ground arith) h,
        trim_space-key key h,
        to_upper-key key h,
      )
      refl

read_val_round :
    (key value rest : List ℕ) (results : Params)
    → all is_value_byte value ≡ true
    → params_step (read_val key) (34 ∷ (value ++ (34 ∷ rest))) results
      ≡ after_quoted key (some (value, rest)) results
unfolding params_step is_quote
read_val_round key value rest results h =
    rw (cut-append 34 is_value_byte value rest (λ c p. ground arith) h) refl

length-pair :
    (key value rest : List ℕ) → length rest + 2 ≤ length (key ++ (61 ∷ 34 ∷ (value ++ (34 ∷ rest))))
length-pair key value rest =
    omega
      (arith, length-append key (61 ∷ 34 ∷ (value ++ (34 ∷ rest))), length-append value (34 ∷ rest))

behind_blank-key :
    (key rest : List ℕ) → behind_blank (key ++ (61 ∷ rest)) ≡ 32 ∷ (key ++ (61 ∷ rest))
behind_blank-key [] rest = refl
behind_blank-key (c ∷ cs) rest = refl

params_loop-print :
    (fuel : ℕ) (p : List ℕ × List ℕ) (ps results : Params)
    → All IsPair (p ∷ ps)
    → length (print (p ∷ ps)) < fuel
    → params_loop fuel read_key (print (p ∷ ps)) results ≡ parsed (put_all (p ∷ ps) results)
unfolding params_loop print follow after_quoted
params_loop-print zero p ps results h less = absurd (omega arith)
params_loop-print (suc zero) (key, value) ps results h less =
    absurd (omega (arith, length-pair key value (behind_blank (print ps))))
params_loop-print (suc (suc fuel)) (key, value) [] results h less =
    rw
      (
        read_key_round key (34 ∷ (value ++ (34 ∷ []))) results h.0.0,
        read_val_round key value [] results h.0.1,
      )
      refl
params_loop-print (suc (suc fuel)) (key, value) ((k, v) ∷ ps) results h less =
    let more = print ((k, v) ∷ ps) in
    let behind : behind_blank more ≡ 32 ∷ more =
      behind_blank-key k (34 ∷ (v ++ (34 ∷ behind_blank (print ps)))) in
    rw
      (
        read_key_round key (34 ∷ (value ++ (34 ∷ behind_blank more))) results h.0.0,
        read_val_round key value (behind_blank more) results h.0.1,
      )
      (rw
        (
          behind,
          trim_left-key k (34 ∷ (v ++ (34 ∷ behind_blank (print ps)))) h.1.0.0,
          params_loop-print fuel (k, v) ps (put key value results) h.1
              (omega (arith, length-pair key value (behind_blank more), ap length behind)),
        )
        refl)

-- Parameters written as `KEY="value"` with a blank between them, with keys without blanks, equals signs
-- and small letters and values without a double quote, are read back in their order, empty values and
-- blanks in values included.
pub parse-print :
    (ps : Params) → All IsPair ps → parse_extended_params (print ps) ≡ parsed (put_all ps [])
unfolding parse_extended_params print
parse-print [] h = refl
parse-print (p ∷ ps) h =
    rw (trim_space-print (p ∷ ps) h)
      (params_loop-print (suc (length (print (p ∷ ps)))) p ps [] h (omega arith))
