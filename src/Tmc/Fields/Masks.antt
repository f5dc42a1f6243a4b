-- ===== src/Tmc/Fields/Masks.antt =====
-- Writing under a mask and reading under a mask, on the binary digits of a register.
use Prim.Native.Nat.{bit_and, bit_or}
use native.Mathlib.Nat.{pow-suc}
use klipper_go.Common.{
  ℕ, zero, suc, ◌-◌, ◌*◌, ◌/◌, ◌%◌, ◌^◌, ◌≤◌, ◌<◌, ◌≡◌, ap, inl, inr, Bool-cases, ltb, arith,
}
use klipper_go.Common.Bits.{bit_or-lt}
use klipper_go.Common.Int.{ℤ, pos, negsuc, mask_ℤ, wrap_i64}
use klipper_go.Common.Digits.{
  digit, digit-and, digit-or, digit-complement, digit-le_one, digit-zero, same_digits, bit_and-le,
  pow_pos,
}
use klipper_go.Tmc.Fields.{ffs, trailing_zeros, bit_len}

trailing_zeros-field : (bits s w : ℕ) → s < bits → trailing_zeros bits ((2 ^ suc w - 1) * 2 ^ s) ≡ s
unfolding trailing_zeros
trailing_zeros-field zero s w h = absurd (omega arith)
trailing_zeros-field (suc bits) zero w h = ground (arith, pow-suc 2 w, pow_pos w)
trailing_zeros-field (suc bits) (suc s) w h =
    let shifted : (2 ^ suc w - 1) * 2 ^ suc s ≡ 2 * ((2 ^ suc w - 1) * 2 ^ s) =
      omega (arith, ap (λ (t : ℕ). (2 ^ suc w - 1) * t) (pow-suc 2 s)) in
    let half : 2 * ((2 ^ suc w - 1) * 2 ^ s) / 2 ≡ (2 ^ suc w - 1) * 2 ^ s = omega arith in
    let even : 2 * ((2 ^ suc w - 1) * 2 ^ s) % 2 ≡ 0 = omega arith in
    rw (shifted, half, even) (ap suc (trailing_zeros-field bits s w (omega arith)))

pub ffs-field : (s w : ℕ) → s < 64 → ffs ((2 ^ suc w - 1) * 2 ^ s) ≡ s
unfolding ffs
ffs-field s w h = trailing_zeros-field 64 s w h

pub bit_len_lem : (bits w n : ℕ) → w < bits → 2 ^ w ≤ n → n < 2 ^ suc w → bit_len bits n ≡ suc w
unfolding bit_len
bit_len_lem zero w n h low high = absurd (omega arith)
bit_len_lem (suc zero) zero n h low high = ground arith
bit_len_lem (suc (suc bits)) zero n h low high = ground arith
bit_len_lem (suc bits) (suc w) n h low high =
    let ih =
      bit_len_lem bits w (n / 2) (omega arith) (omega (arith, pow-suc 2 w))
        (omega (arith, pow-suc 2 (suc w))) in
    ground (arith, ih, pow-suc 2 w, pow_pos w)

pub mask_ℤ-lt : (v : ℤ) → mask_ℤ 64 v < 2 ^ 64
mask_ℤ-lt (pos n) = omega arith
mask_ℤ-lt (negsuc n) = omega arith

pub mask_ℤ-wrap : (n : ℕ) → n < 2 ^ 64 → mask_ℤ 64 (wrap_i64 (pos n)) ≡ n
mask_ℤ-wrap n h = elim (Bool-cases (ltb (n % 2 ^ 64) (2 ^ 63))) [
  | inl small ↦ rw small (omega arith)
  | inr large ↦ rw large (omega arith)
]

-- A register's bits after `v` was written under the mask.
unfoldable pub merged : ℕ → ℕ → ℕ → ℕ
merged m r v = bit_or (bit_and r (2 ^ 64 - 1 - m)) (bit_and v m)

pub merged-lt : (m r v : ℕ) → r < 2 ^ 64 → v < 2 ^ 64 → merged m r v < 2 ^ 64
unfolding merged
merged-lt m r v hr hv =
    bit_or-lt 64 (bit_and r (2 ^ 64 - 1 - m)) (bit_and v m)
      (omega (arith, bit_and-le r r (2 ^ 64 - 1 - m) (omega arith)))
      (omega (arith, bit_and-le v v m (omega arith)))

-- The field written has the bits of the value,
pub merged-own :
    (m r v : ℕ) → m < 2 ^ 64 → r < 2 ^ 64 → v < 2 ^ 64 → bit_and (merged m r v) m ≡ bit_and v m
unfolding merged
merged-own m r v hm hr hv =
    same_digits 64 (bit_and (merged m r v) m) (bit_and v m)
      (omega
        (arith, bit_and-le (merged m r v) (merged m r v) m (omega arith), merged-lt m r v hr hv))
      (omega (arith, bit_and-le v v m (omega arith)))
      (λ i l. omega (
        arith,
        digit-and i (merged m r v) m,
        digit-or i (bit_and r (2 ^ 64 - 1 - m)) (bit_and v m),
        digit-and i r (2 ^ 64 - 1 - m),
        digit-and i v m,
        digit-complement 64 i m l hm,
        digit-le_one i m,
      ))

-- and the other bits are the register's.
pub merged-other :
    (m k r v : ℕ)
    → m < 2 ^ 64
    → r < 2 ^ 64
    → v < 2 ^ 64
    → bit_and m k ≡ 0
    → bit_and (merged m r v) k ≡ bit_and r k
unfolding merged
merged-other m k r v hm hr hv apart =
    same_digits 64 (bit_and (merged m r v) k) (bit_and r k)
      (omega
        (arith, bit_and-le (merged m r v) (merged m r v) k (omega arith), merged-lt m r v hr hv))
      (omega (arith, bit_and-le r r k (omega arith)))
      (λ i l. omega (
        arith,
        digit-and i (merged m r v) k,
        digit-or i (bit_and r (2 ^ 64 - 1 - m)) (bit_and v m),
        digit-and i r (2 ^ 64 - 1 - m),
        digit-and i v m,
        digit-and i r k,
        digit-complement 64 i m l hm,
        digit-le_one i m,
        digit-le_one i r,
        digit-and i m k,
        digit-zero i,
        ap (digit i) apart,
      ))
