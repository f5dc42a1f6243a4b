-- ===== src/Tmc/Uart/Frame.antt =====
-- The bits that `AddSerialBits` joins and the bytes that it cuts them into, as sums.
use native.Mathlib.Nat.{div-div-eq-div-mul, div-add-mod, mod-lt, mod-eq_of_lt, one-le-pow}
use Prim.Native.Nat.{bit_or}
use klipper_go.Common.{
  ℕ, zero, suc, ◌+◌, ◌*◌, ◌/◌, ◌%◌, ◌^◌, ◌<◌, ◌≡◌, refl, ap, ◌∙◌, List, [], ◌∷◌, arith, length, All,
}
use klipper_go.Common.Bits.{bit_or_fields, pow_add, place-lt}
use klipper_go.Msgproto.Crc.{IsByte}
use klipper_go.Tmc.Uart.{add_bits, to_bytes, join_bytes}

-- The frame of a list of bytes: ten bits for each, the first byte lowest.
unfoldable pub frame : List ℕ → ℕ
frame [] = 0
frame (d ∷ ds) = 512 + d * 2 + frame ds * 1024

stop_bit : (d : ℕ) → d < 256 → bit_or (d * 2) 0x200 ≡ d * 2 + 512
stop_bit d h = bit_or_fields 9 (d * 2) 1 (omega arith)

-- The loop adds the frame above the bits that are there.
pub add_bits-frame :
    (ds : List ℕ) (out at : ℕ)
    → out < 2 ^ at
    → All IsByte ds
    → add_bits out at ds ≡ out + frame ds * 2 ^ at
unfolding add_bits frame
add_bits-frame [] out at h bs = omega arith
add_bits-frame (d ∷ ds) out at h bs =
    let p = 2 ^ at in
    let bits = bit_or (d * 2) 0x200 in
    let framed : bits ≡ d * 2 + 512 = stop_bit d bs.0 in
    let joined : bit_or out (bits * p) ≡ out + bits * p = bit_or_fields at out bits h in
    let wider : 2 ^ (at + 10) ≡ p * 1024 = pow_add at 10 in
    let fits : bit_or out (bits * p) < 2 ^ (at + 10) =
      omega (arith, joined, wider, place-lt 1024 bits p (omega (arith, framed))) in
    let ih = add_bits-frame ds (bit_or out (bits * p)) (at + 10) fits bs.1 in
    omega (arith, ih, joined, ap (λ (t : ℕ). t * p) framed, ap (λ (t : ℕ). frame ds * t) wider)

pub frame-lt : (ds : List ℕ) → All IsByte ds → frame ds < 2 ^ (10 * length ds)
unfolding frame
frame-lt [] bs = omega arith
frame-lt (d ∷ ds) bs =
    let carry : 10 * suc (length ds) ≡ 10 * length ds + 10 = omega arith in
    rw carry (omega (arith, pow_add (10 * length ds) 10, frame-lt ds bs.1, bs.0))

split_place : (x p : ℕ) → x % p + x / p % 256 * p ≡ x % (p * 256)
split_place x p =
    let whole : p * (x / p) + x % p ≡ x = div-add-mod x p in
    let upper : 256 * (x / p / 256) + x / p % 256 ≡ x / p = div-add-mod (x / p) 256 in
    let wide : p * 256 * (x / p / 256) + x % (p * 256) ≡ x =
      rw (div-div-eq-div-mul x p 256) (div-add-mod x (p * 256)) in
    omega (arith, whole, ap (λ (t : ℕ). p * t) upper, wide)

low_bits_step : (x k : ℕ) → x % 2 ^ k + x / 2 ^ k % 256 * 2 ^ k ≡ x % 2 ^ (k + 8)
low_bits_step x k = rw (pow_add k 8) (split_place x (2 ^ k))

-- Cutting a number into bytes and joining them again gives its low bits.
pub join_bytes-to_bytes :
    (n i x : ℕ) → join_bytes (x % 2 ^ (i * 8)) (i * 8) (to_bytes n i x) ≡ x % 2 ^ ((i + n) * 8)
unfolding join_bytes to_bytes
join_bytes-to_bytes zero i x = let same : (i + 0) * 8 ≡ i * 8 = omega arith in rw same
join_bytes-to_bytes (suc n) i x =
    let k = i * 8 in
    let low = mod-lt x {m = 2 ^ k} (one-le-pow k 2 (omega arith)) in
    let joined = bit_or_fields k (x % 2 ^ k) (x / 2 ^ k % 256) low in
    let next : i * 8 + 8 ≡ (i + 1) * 8 = omega arith in
    let end' : (i + 1 + n) * 8 ≡ (i + suc n) * 8 = omega arith in
    ap (λ v. join_bytes v (k + 8) (to_bytes n (i + 1) x)) (joined ∙ low_bits_step x k)
    ∙ rw next (join_bytes-to_bytes n (i + 1) x ∙ ap (λ e. x % 2 ^ e) end')

pub length-to_bytes : (n i x : ℕ) → length (to_bytes n i x) ≡ n
unfolding to_bytes
length-to_bytes zero i x = refl
length-to_bytes (suc n) i x = ap suc (length-to_bytes n (i + 1) x)

pub join_bytes-to_bytes_whole : (n x : ℕ) → x < 2 ^ (n * 8) → join_bytes 0 0 (to_bytes n 0 x) ≡ x
join_bytes-to_bytes_whole n x h =
    let none_yet : x % 2 ^ (0 * 8) ≡ 0 = omega arith in
    let all_in : (0 + n) * 8 ≡ n * 8 = omega arith in
    rw none_yet at (join_bytes-to_bytes n 0 x) ∙ rw all_in (mod-eq_of_lt h)
