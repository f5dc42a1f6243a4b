-- ===== src/Msgproto/Vlq/RoundTrip.antt =====
-- What `Parse` makes of what `Encode` wrote.
use klipper_go.Common.{
  ℕ, ◌+◌, ◌≤◌, ◌<◌, ◌≡◌, refl, ◌∙◌, ◌⊎◌, inl, inr, Bool-cases, Bool, true, false, some, List, [],
  ◌∷◌, ◌++◌, append_assoc, arith, length, length-append, drop-append_left,
}
use klipper_go.Common.Int.{neg_part, ℤ, pos, negsuc, shr_ℤ, mask_ℤ}
use klipper_go.Msgproto.Vlq.{
  outside, group, encode, first_value, next_value, parse_loop, finish, parse_at, parse,
}
use klipper_go.Msgproto.Vlq.Groups.{
  IsWire, encode-append, encode_five, encode_four, encode_three, encode_two, encode_one,
}

-- The value read so far is the integer without its low groups.
next_21 : (v : ℤ) → IsWire v → next_value (shr_ℤ 28 v) (group 21 v) ≡ shr_ℤ 21 v
unfolding next_value
next_21 (pos n) h = ground arith
next_21 (negsuc n) h = ground arith

next_14 : (v : ℤ) → IsWire v → next_value (shr_ℤ 21 v) (group 14 v) ≡ shr_ℤ 14 v
unfolding next_value
next_14 (pos n) h = ground arith
next_14 (negsuc n) h = ground arith

next_7 : (v : ℤ) → IsWire v → next_value (shr_ℤ 14 v) (group 7 v) ≡ shr_ℤ 7 v
unfolding next_value
next_7 (pos n) h = ground arith
next_7 (negsuc n) h = ground arith

next_0 : (v : ℤ) → IsWire v → next_value (shr_ℤ 7 v) (mask_ℤ 7 v) ≡ v
unfolding next_value
next_0 (pos n) h = ground arith
next_0 (negsuc n) h = ground arith

first_28 : (v : ℤ) → IsWire v → first_value (group 28 v) ≡ shr_ℤ 28 v
unfolding first_value
first_28 (pos n) h = ground arith
first_28 (negsuc n) h = ground arith

first_21 : (v : ℤ) → outside 0xc000000 0x4000000 v ≡ false → first_value (group 21 v) ≡ shr_ℤ 21 v
unfolding first_value
first_21 (pos n) h = ground arith
first_21 (negsuc n) h = ground arith

first_14 : (v : ℤ) → outside 0x180000 0x80000 v ≡ false → first_value (group 14 v) ≡ shr_ℤ 14 v
unfolding first_value
first_14 (pos n) h = ground arith
first_14 (negsuc n) h = ground arith

first_7 : (v : ℤ) → outside 0x3000 0x1000 v ≡ false → first_value (group 7 v) ≡ shr_ℤ 7 v
unfolding first_value
first_7 (pos n) h = ground arith
first_7 (negsuc n) h = ground arith

first_0 : (v : ℤ) → outside 0x60 0x20 v ≡ false → first_value (mask_ℤ 7 v) ≡ v
unfolding first_value
first_0 (pos n) h = ground arith
first_0 (negsuc n) h = ground arith

-- The loop of `Parse` takes the byte in hand when its top bit is clear.
loop_stops : (ds : List ℕ) (c : ℕ) (v : ℤ) (at : ℕ) → c < 128 → parse_loop ds c v at ≡ some (v, at)
unfolding parse_loop
loop_stops [] c v at h = ground arith
loop_stops (d ∷ ds) c v at h = ground arith

loop_goes :
    (ds : List ℕ) (g : ℕ) (d : ℕ) (v w : ℤ) (at : ℕ)
    → g < 128
    → next_value v d ≡ w
    → parse_loop (d ∷ ds) (g + 128) v at ≡ parse_loop ds d w (at + 1)
unfolding parse_loop
loop_goes ds g d v w at h e = ground arith

parse_starts :
    (signed : Bool) (c : ℕ) (cs : List ℕ) (at : ℕ) (w v : ℤ) (after end' : ℕ)
    → first_value c ≡ w
    → parse_loop cs c w (at + 1) ≡ some (v, after)
    → after ≡ end'
    → parse_at signed (c ∷ cs) at ≡ some (finish signed v, end')
unfolding parse_at
parse_starts signed c cs at w v after end' first loop e = ground arith

mask-lt : (v : ℤ) → mask_ℤ 7 v < 128
mask-lt (pos n) = omega arith
mask-lt (negsuc n) = omega arith

module _ (v : ℤ) (wire : IsWire v) (rest : List ℕ) where
  loop_0 : (at : ℕ) → parse_loop rest (mask_ℤ 7 v) v at ≡ some (v, at)
  loop_0 at = loop_stops rest (mask_ℤ 7 v) v at (mask-lt v)

  loop_7 : (at : ℕ) → parse_loop (mask_ℤ 7 v ∷ rest) (group 7 v) (shr_ℤ 7 v) at ≡ some (v, at + 1)
  loop_7 at =
      loop_goes rest _ (mask_ℤ 7 v) (shr_ℤ 7 v) v at (mask-lt (shr_ℤ 7 v)) (next_0 v wire)
      ∙ loop_0 (at + 1)

  loop_14 :
      (at : ℕ)
      → parse_loop (group 7 v ∷ mask_ℤ 7 v ∷ rest) (group 14 v) (shr_ℤ 14 v) at
        ≡ some (v, at + 1 + 1)
  loop_14 at =
      loop_goes (mask_ℤ 7 v ∷ rest) _ (group 7 v) (shr_ℤ 14 v) (shr_ℤ 7 v) at (mask-lt (shr_ℤ 14 v))
        (next_7 v wire)
      ∙ loop_7 (at + 1)

  loop_21 :
      (at : ℕ)
      → parse_loop (group 14 v ∷ group 7 v ∷ mask_ℤ 7 v ∷ rest) (group 21 v) (shr_ℤ 21 v) at
        ≡ some (v, at + 1 + 1 + 1)
  loop_21 at =
      loop_goes (group 7 v ∷ mask_ℤ 7 v ∷ rest) _ (group 14 v) (shr_ℤ 21 v) (shr_ℤ 14 v) at
        (mask-lt (shr_ℤ 21 v)) (next_14 v wire)
      ∙ loop_14 (at + 1)

  loop_28 :
      (at : ℕ)
      → parse_loop
          (group 21 v ∷ group 14 v ∷ group 7 v ∷ mask_ℤ 7 v ∷ rest)
          (group 28 v)
          (shr_ℤ 28 v)
          at
        ≡ some (v, at + 1 + 1 + 1 + 1)
  loop_28 at =
      loop_goes (group 14 v ∷ group 7 v ∷ mask_ℤ 7 v ∷ rest) _ (group 21 v) (shr_ℤ 28 v)
        (shr_ℤ 21 v) at (mask-lt (shr_ℤ 28 v)) (next_21 v wire)
      ∙ loop_21 (at + 1)

  -- The five lengths of an encoding, read at the head of a slice.
  parse_at-encode :
      (signed : Bool) (at : ℕ)
      → parse_at signed (encode [] v ++ rest) at ≡ some (finish signed v, at + length (encode [] v))
  parse_at-encode signed at = elim (Bool-cases (outside 0x60 0x20 v)) [
    | inr e1 ↦
        rw (encode_one v e1)
          (parse_starts _ _ _ at _ _ _ _ (first_0 v e1) (loop_0 (at + 1)) (omega arith))
    | inl e1 ↦ elim (Bool-cases (outside 0x3000 0x1000 v)) [
      | inr e2 ↦
          rw (encode_two v e2 e1)
            (parse_starts _ _ _ at _ _ _ _ (first_7 v e2) (loop_7 (at + 1)) (omega arith))
      | inl e2 ↦ elim (Bool-cases (outside 0x180000 0x80000 v)) [
        | inr e3 ↦
            rw (encode_three v e3 e2)
              (parse_starts _ _ _ at _ _ _ _ (first_14 v e3) (loop_14 (at + 1)) (omega arith))
        | inl e3 ↦ elim (Bool-cases (outside 0xc000000 0x4000000 v)) [
          | inr e4 ↦
              rw (encode_four v e4 e3)
                (parse_starts _ _ _ at _ _ _ _ (first_21 v e4) (loop_21 (at + 1)) (omega arith))
          | inl e4 ↦
              rw (encode_five v e4)
                (parse_starts _ _ _ at _ _ _ _ (first_28 v wire) (loop_28 (at + 1)) (omega arith))
        ]
      ]
    ]
  ]

  -- `Parse` at the place where `Encode` wrote, among other bytes: it returns the integer, reduced
  -- modulo 2 ^ 32 unless the type is signed, and the position of the first byte behind it.
  pub parse-encode :
      (front : List ℕ) (signed : Bool)
      → parse signed (encode front v ++ rest) (length front)
        ≡ some (finish signed v, length (encode front v))
  unfolding parse
  parse-encode front signed =
      rw
        (
          encode-append front v,
          append_assoc front (encode [] v) rest,
          drop-append_left (length front) front (encode [] v ++ rest) refl,
          length-append front (encode [] v),
        )
        (parse_at-encode signed (length front))

-- On one side of the sign the reduction changes nothing: a signed type returns every integer, an
-- unsigned one every non-negative integer.
pub finish_exact :
    (signed : Bool) (v : ℤ) → IsWire v → (signed ≡ true) ⊎ (neg_part v ≡ 0) → finish signed v ≡ v
unfolding finish
finish_exact true v wire h = refl
finish_exact false (pos n) wire h = ground arith
finish_exact false (negsuc n) wire h = ground arith

-- An encoding has one to five bytes.
pub length-encode : (v : ℤ) → (1 ≤ length (encode [] v)) × (length (encode [] v) ≤ 5)
unfolding encode
length-encode (pos n) = ground arith
length-encode (negsuc n) = ground arith
