-- ===== src/Msgproto/Vlq/Groups.antt =====
-- The groups of seven bits that `Encode` writes.
use klipper_go.Common.{
  ℕ, ◌^◌, ◌≤◌, ◌<◌, ◌≡◌, refl, sym, ap, ◌∙◌, inl, inr, Bool-cases, true, false, List, [], ◌∷◌, ◌++◌,
  append_assoc, append-nil, arith,
}
use klipper_go.Common.Int.{pos_part, neg_part, ℤ, pos, negsuc, mask_ℤ}
use klipper_go.Msgproto.Vlq.{outside, group, encode_group, encode}

-- The integers that fit a wire value of 32 bits, signed or unsigned.
abbrev pub IsWire : ℤ → Type 0
IsWire v = (pos_part v < 2 ^ 32) × (neg_part v ≤ 2 ^ 31)

encode_group-append :
    (high low k : ℕ) (v : ℤ) (a b : List ℕ)
    → encode_group high low k v (a ++ b) ≡ a ++ encode_group high low k v b
unfolding encode_group
encode_group-append high low k v a b = elim (Bool-cases (outside high low v)) [
  | inl wide ↦ rw wide (append_assoc a b (group k v ∷ []))
  | inr narrow ↦ rw narrow
]

encode_groups : List ℕ → ℤ → List ℕ
encode_groups out v = encode_group 0x60 0x20 7 v (
    encode_group 0x3000 0x1000 14 v
      (encode_group 0x180000 0x80000 21 v (encode_group 0xc000000 0x4000000 28 v out)))

encode_lem : (out : List ℕ) (v : ℤ) → encode out v ≡ encode_groups out v ++ (mask_ℤ 7 v ∷ [])
unfolding encode encode_groups
encode_lem out v = refl

encode_groups-append :
    (out : List ℕ) (v : ℤ) → encode_groups (out ++ []) v ≡ out ++ encode_groups [] v
unfolding encode_groups
encode_groups-append out v = rw (
  encode_group-append 0xc000000 0x4000000 28 v out [],
  encode_group-append 0x180000 0x80000 21 v out _,
  encode_group-append 0x3000 0x1000 14 v out _,
  encode_group-append 0x60 0x20 7 v out _,
)

-- `Encode` keeps what the slice held, and appends bytes that do not depend on it.
pub encode-append : (out : List ℕ) (v : ℤ) → encode out v ≡ out ++ encode [] v
encode-append out v =
    encode_lem out v
    ∙ ap (λ o. encode_groups o v ++ (mask_ℤ 7 v ∷ [])) (sym (append-nil out))
    ∙ ap (λ o. o ++ (mask_ℤ 7 v ∷ [])) (encode_groups-append out v)
    ∙ append_assoc out (encode_groups [] v) (mask_ℤ 7 v ∷ [])
    ∙ ap (λ t. out ++ t) (sym (encode_lem [] v))

-- The groups that are written, by the first test that passes.
pub encode_five :
    (v : ℤ)
    → outside 0xc000000 0x4000000 v ≡ true
    → encode [] v ≡ group 28 v ∷ group 21 v ∷ group 14 v ∷ group 7 v ∷ mask_ℤ 7 v ∷ []
unfolding encode
encode_five (pos n) h = ground arith
encode_five (negsuc n) h = ground arith

pub encode_four :
    (v : ℤ)
    → outside 0xc000000 0x4000000 v ≡ false
    → outside 0x180000 0x80000 v ≡ true
    → encode [] v ≡ group 21 v ∷ group 14 v ∷ group 7 v ∷ mask_ℤ 7 v ∷ []
unfolding encode
encode_four (pos n) g h = ground arith
encode_four (negsuc n) g h = ground arith

pub encode_three :
    (v : ℤ)
    → outside 0x180000 0x80000 v ≡ false
    → outside 0x3000 0x1000 v ≡ true
    → encode [] v ≡ group 14 v ∷ group 7 v ∷ mask_ℤ 7 v ∷ []
unfolding encode
encode_three (pos n) g h = ground arith
encode_three (negsuc n) g h = ground arith

pub encode_two :
    (v : ℤ)
    → outside 0x3000 0x1000 v ≡ false
    → outside 0x60 0x20 v ≡ true
    → encode [] v ≡ group 7 v ∷ mask_ℤ 7 v ∷ []
unfolding encode
encode_two (pos n) g h = ground arith
encode_two (negsuc n) g h = ground arith

pub encode_one : (v : ℤ) → outside 0x60 0x20 v ≡ false → encode [] v ≡ mask_ℤ 7 v ∷ []
unfolding encode
encode_one (pos n) h = ground arith
encode_one (negsuc n) h = ground arith
