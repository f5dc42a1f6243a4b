-- ===== src/Tmc/Fields/Extracted.antt =====
-- What is extracted from a register into which a value was merged.
use Prim.Native.Nat.{bit_and}
use native.Mathlib.Nat.{
  pow-suc, mod-eq_of_lt, mul-add-mod_self_right, mul-div_cancel, pow-le-pow_right,
}
use klipper_go.Common.{
  ℕ, zero, suc, ◌+◌, ◌-◌, ◌*◌, ◌/◌, ◌%◌, ◌^◌, ◌≤◌, ◌<◌, ◌≡◌, refl, sym, ap, ◌∙◌, inl, inr,
  Bool-cases, Bool, true, false, ◌&&◌, ltb, leb, arith,
}
use klipper_go.Common.Bits.{pow_add}
use klipper_go.Common.Int.{ℤ, pos, negsuc, ltb_ℤ, mask_ℤ, wrap_i64}
use klipper_go.Common.Digits.{pow_pos, bit_and-field, shifted-field}
use klipper_go.Tmc.Fields.{signed_value, extract, merge}
use klipper_go.Tmc.Fields.Masks.{
  ffs-field, bit_len_lem, mask_ℤ-lt, mask_ℤ-wrap, merged, merged-lt, merged-own, merged-other,
}

-- `suc w` bits from bit `s` on.
abbrev pub field_mask : ℕ → ℕ → ℕ
field_mask s w = (2 ^ suc w - 1) * 2 ^ s

-- The values that a field of `suc w` bits holds.
abbrev pub Fits : Bool → ℕ → ℤ → Type 0
Fits false w (pos n) = n < 2 ^ suc w
Fits false w (negsuc n) = suc n ≤ 0
Fits true w (pos n) = n < 2 ^ w
Fits true w (negsuc n) = n < 2 ^ w

abbrev raw : ℕ → ℤ → ℕ
raw w (pos n) = n
raw w (negsuc n) = 2 ^ suc w - 1 - n

product-lt : (a b c : ℕ) → a < b → 1 ≤ c → a * c < b * c
product-lt a b c h p = grind arith

power-le : (a b : ℕ) → a ≤ b → 2 ^ a ≤ 2 ^ b
power-le a b h = pow-le-pow_right (omega arith) h

raw-lt : (sg : Bool) (w : ℕ) (v : ℤ) → Fits sg w v → raw w v < 2 ^ suc w
raw-lt false w (pos n) h = h
raw-lt false w (negsuc n) h = absurd (omega arith)
raw-lt true w (pos n) h = omega (arith, pow-suc 2 w)
raw-lt true w (negsuc n) h = omega (arith, pow_pos (suc w))

one_less : (a b : ℕ) → 1 ≤ a → (a - 1) * b + b ≡ a * b
one_less zero b h = absurd (omega arith)
one_less (suc a) b h = let same : suc a - 1 ≡ a = omega arith in rw same (grind arith)

below : (sg : Bool) (w n : ℕ) → Fits sg w (negsuc n) → n < 2 ^ w
below false w n h = absurd (omega arith)
below true w n h = h

low_bits : (sg : Bool) (w : ℕ) (v : ℤ) → w < 62 → Fits sg w v → mask_ℤ 64 v % 2 ^ suc w ≡ raw w v
low_bits sg w (pos n) h p =
    let fits = raw-lt sg w (pos n) p in
    let small : n % 2 ^ 64 ≡ n = omega (arith, power-le (suc w) 62 h, fits) in
    rw small (mod-eq_of_lt fits)
low_bits sg w (negsuc n) h p =
    let small : n % 2 ^ 64 ≡ n = omega (arith, power-le w 62 (omega arith), below sg w n p) in
    let parts : 63 - w + suc w ≡ 64 = omega arith in
    let whole : 2 ^ 64 ≡ 2 ^ (63 - w) * 2 ^ suc w =
      ap (λ (t : ℕ). 2 ^ t) (sym parts) ∙ pow_add (63 - w) (suc w) in
    let split : 2 ^ 64 - 1 - n ≡ (2 ^ (63 - w) - 1) * 2 ^ suc w + (2 ^ suc w - 1 - n) = omega (
      arith,
      whole,
      one_less (2 ^ (63 - w)) (2 ^ suc w) (pow_pos (63 - w)),
      pow-suc 2 w,
      below sg w n p,
    ) in
    rw (small, split)
      (mul-add-mod_self_right (2 ^ (63 - w) - 1) (2 ^ suc w) (2 ^ suc w - 1 - n)
        ∙ mod-eq_of_lt (raw-lt sg w (negsuc n) p))

above : (s w n : ℕ) → s + suc w ≤ 62 → n < 2 ^ suc w → n * 2 ^ s < 2 ^ 62
above s w n h small = omega (
  arith,
  product-lt n (2 ^ suc w) (2 ^ s) small (pow_pos s),
  pow_add (suc w) s,
  power-le (suc w + s) 62 (omega arith),
)

wrap_small : (n : ℕ) → n < 2 ^ 63 → wrap_i64 (pos n) ≡ pos n
wrap_small n h =
    let small : n % 2 ^ 64 ≡ n = omega arith in
    let fits : ltb n (2 ^ 63) ≡ true = ground arith in rw (small, fits)

-- The test for a sign looks at the highest bit of the field.
sign_bit :
    (s w n : ℕ)
    → s + suc w ≤ 62
    → n < 2 ^ suc w
    → ltb_ℤ (pos (field_mask s w)) (wrap_i64 (pos (n * 2 ^ s * 2))) ≡ leb (2 ^ w) n
sign_bit s w n h small =
    rw (wrap_small (n * 2 ^ s * 2) (omega (arith, above s w n h small)))
      (elim (Bool-cases (leb (2 ^ w) n)) [
        | inl high ↦
            (let more =
                product-lt (2 ^ suc w - 1) (2 * n) (2 ^ s) (ground (arith, pow-suc 2 w, pow_pos w))
                  (pow_pos s) in
              let tested : ltb (field_mask s w + 0) (n * 2 ^ s * 2 + 0) ≡ true =
                ground (arith, more) in
              tested ∙ sym high)
        | inr low ↦
            (let less =
                product-lt (2 * n) (2 ^ suc w - 1) (2 ^ s) (ground (arith, pow-suc 2 w, pow_pos w))
                  (pow_pos s) in
              let tested : ltb (field_mask s w + 0) (n * 2 ^ s * 2 + 0) ≡ false =
                ground (arith, less) in
              tested ∙ sym low)
      ])

signed_value_lem :
    (sg : Bool) (w : ℕ) (v : ℤ)
    → w < 62
    → Fits sg w v
    → signed_value (sg && leb (2 ^ w) (raw w v)) (raw w v) ≡ v
unfolding signed_value
signed_value_lem false w (pos n) p h = refl
signed_value_lem false w (negsuc n) p h = absurd (omega arith)
signed_value_lem true w (pos n) p h = let low : leb (2 ^ w) n ≡ false = ground arith in rw low refl
signed_value_lem true w (negsuc n) p h =
    let high : leb (2 ^ w) (2 ^ suc w - 1 - n) ≡ true = ground (arith, pow-suc 2 w) in
    let wide =
      bit_len_lem 64 w (2 ^ suc w - 1 - n) (omega arith) (omega (arith, pow-suc 2 w))
        (omega (arith, pow_pos (suc w))) in
    rw (high, wide) (ground (arith, pow-suc 2 w))

extract-masked :
    (sg : Bool) (s w n : ℕ) (held : ℤ)
    → s + suc w ≤ 62
    → n < 2 ^ suc w
    → bit_and (mask_ℤ 64 held) (field_mask s w) ≡ n * 2 ^ s
    → extract sg (field_mask s w) held ≡ signed_value (sg && leb (2 ^ w) n) n
unfolding extract
extract-masked sg s w n held h small masked =
    rw (masked, ffs-field s w (omega arith), mul-div_cancel n (pow_pos s), sign_bit s w n h small)
      refl

merge-merged :
    (s w : ℕ) (held v : ℤ)
    → s < 64
    → merge (field_mask s w) held v
      ≡ wrap_i64 (pos (merged (field_mask s w) (mask_ℤ 64 held) (mask_ℤ 64 v * 2 ^ s % 2 ^ 64)))
unfolding merge merged
merge-merged s w held v h = rw (ffs-field s w h) refl

field_mask-lt : (s w : ℕ) → s + suc w ≤ 62 → field_mask s w < 2 ^ 62
field_mask-lt s w h = above s w (2 ^ suc w - 1) h (omega (arith, pow_pos (suc w)))

merge-low :
    (s w : ℕ) (held v : ℤ) (k : ℕ)
    → s + suc w ≤ 62
    → bit_and (mask_ℤ 64 (merge (field_mask s w) held v)) k
      ≡ bit_and (merged (field_mask s w) (mask_ℤ 64 held) (mask_ℤ 64 v * 2 ^ s % 2 ^ 64)) k
merge-low s w held v k h =
    let m = field_mask s w in
    let n = mask_ℤ 64 v * 2 ^ s % 2 ^ 64 in
    rw
      (
        merge-merged s w held v (omega arith),
        mask_ℤ-wrap (merged m (mask_ℤ 64 held) n)
            (merged-lt m (mask_ℤ 64 held) n (mask_ℤ-lt held) (omega arith)),
      )
      refl

pub extract-merge :
    (sg : Bool) (s w : ℕ) (held v : ℤ)
    → s + suc w ≤ 62
    → Fits sg w v
    → extract sg (field_mask s w) (merge (field_mask s w) held v) ≡ v
extract-merge sg s w held v h fits =
    let m = field_mask s w in
    let n = mask_ℤ 64 v * 2 ^ s % 2 ^ 64 in
    let own =
      merged-own m (mask_ℤ 64 held) n (omega (arith, field_mask-lt s w h)) (mask_ℤ-lt held)
        (omega arith) in
    let value : n / 2 ^ s % 2 ^ suc w ≡ raw w v =
      shifted-field s (suc w) 64 (mask_ℤ 64 v) (omega arith) ∙ low_bits sg w v (omega arith) fits in
    let masked : bit_and (mask_ℤ 64 (merge m held v)) m ≡ raw w v * 2 ^ s =
      merge-low s w held v m h
      ∙ own
      ∙ bit_and-field s (suc w) n
      ∙ ap (λ (t : ℕ). t * 2 ^ s) value in
    extract-masked sg s w (raw w v) (merge m held v) h (raw-lt sg w v fits) masked
    ∙ signed_value_lem sg w v (omega arith) fits

-- A mask with no bit in common reads as before.
pub extract-merge_apart :
    (sg : Bool) (s w k : ℕ) (held v : ℤ)
    → s + suc w ≤ 62
    → bit_and (field_mask s w) k ≡ 0
    → extract sg k (merge (field_mask s w) held v) ≡ extract sg k held
unfolding extract
extract-merge_apart sg s w k held v h apart =
    let n = mask_ℤ 64 v * 2 ^ s % 2 ^ 64 in
    rw
      (
        merge-low s w held v k h,
        merged-other (field_mask s w) k (mask_ℤ 64 held) n (omega (arith, field_mask-lt s w h))
            (mask_ℤ-lt held) (omega arith) apart,
      )
      refl
