-- ===== src/Common/Bits.antt =====
-- `^` and `|` on non-negative integers keep a bound by a power of two.
use Prim.Native.Nat.{digits, differ, bit_xor, bit_or, bit_xor-bitwise, bit_or-bitwise}
use native.Mathlib.Nat.{pow-suc}
use klipper_go.Common.{ap, ℕ, zero, suc, ◌+◌, ◌*◌, ◌/◌, ◌%◌, ◌^◌, ◌≤◌, ◌<◌, max, ◌≡◌, refl, arith}

module _ (f : ℕ → ℕ → ℕ) (f_bit : (a b : ℕ) → f (a % 2) (b % 2) ≤ 1) where
  digits-lt : (k n a b : ℕ) → a < 2 ^ k → b < 2 ^ k → digits (λ y. y) f n a b < 2 ^ k
  digits-lt k zero a b ha hb = hb
  digits-lt k (suc n) zero b ha hb = hb
  digits-lt zero (suc n) (suc a) b ha hb = absurd (omega arith)
  digits-lt (suc k) (suc n) (suc a) b ha hb = omega (
    arith,
    pow-suc 2 k,
    f_bit (suc a) b,
    digits-lt k n (suc a / 2) (b / 2) (omega (arith, pow-suc 2 k)) (omega (arith, pow-suc 2 k)),
  )

differ-le_one : (a b : ℕ) → a ≤ 1 → b ≤ 1 → differ a b ≤ 1
differ-le_one zero b p q = q
differ-le_one (suc zero) zero p q = p
differ-le_one (suc (suc a)) zero p q = p
differ-le_one (suc a) (suc b) p q = differ-le_one a b (omega arith) (omega arith)

-- Both operands below 2 ^ k, so the result too.
pub bit_xor-lt : (k a b : ℕ) → a < 2 ^ k → b < 2 ^ k → bit_xor a b < 2 ^ k
bit_xor-lt k a b ha hb =
    let fits =
      digits-lt differ (λ x y. differ-le_one (x % 2) (y % 2) (omega arith) (omega arith)) k a a b ha
        hb in
    omega (arith, bit_xor-bitwise a b, fits)

pub bit_or-lt : (k a b : ℕ) → a < 2 ^ k → b < 2 ^ k → bit_or a b < 2 ^ k
bit_or-lt k a b ha hb =
    let fits = digits-lt max (λ x y. omega arith) k a a b ha hb in
    omega (arith, bit_or-bitwise a b, fits)

-- The recursion of `|` on binary digits, with its fuel dropped.
or_digits_fuel :
    (n m a b : ℕ) → a ≤ n → a ≤ m → digits (λ y. y) max n a b ≡ digits (λ y. y) max m a b
or_digits_fuel zero zero a b p q = refl
or_digits_fuel zero (suc m) zero b p q = refl
or_digits_fuel zero (suc m) (suc a) b p q = absurd (omega arith)
or_digits_fuel (suc n) zero zero b p q = refl
or_digits_fuel (suc n) zero (suc a) b p q = absurd (omega arith)
or_digits_fuel (suc n) (suc m) zero b p q = refl
or_digits_fuel (suc n) (suc m) (suc a) b p q =
    omega (arith, or_digits_fuel n m (suc a / 2) (b / 2) (omega arith) (omega arith))

pub bit_or_step : (x y : ℕ) → bit_or x y ≡ max (x % 2) (y % 2) + 2 * bit_or (x / 2) (y / 2)
bit_or_step zero y = omega (arith, bit_or-bitwise 0 y, bit_or-bitwise (0 / 2) (y / 2))
bit_or_step (suc x) y =
    let half = suc x / 2 in
    let same = or_digits_fuel x half half (y / 2) (omega arith) (omega arith) in
    omega (arith, bit_or-bitwise (suc x) y, bit_or-bitwise half (y / 2), same)

pub zero-bit_or : (b : ℕ) → bit_or 0 b ≡ b
zero-bit_or b = bit_or-bitwise 0 b

-- `low | (high << k)` is a sum where `low` fits `k` bits.
pub bit_or_fields : (k low high : ℕ) → low < 2 ^ k → bit_or low (high * 2 ^ k) ≡ low + high * 2 ^ k
bit_or_fields zero low high h =
    let none_left : low ≡ 0 = omega arith in
    rw (none_left, zero-bit_or (high * 2 ^ 0)) (omega arith)
bit_or_fields (suc k) low high h =
    let halved : high * 2 ^ suc k ≡ 2 * (high * 2 ^ k) =
      omega (arith, ap (λ (t : ℕ). high * t) (pow-suc 2 k)) in
    let half : high * 2 ^ suc k / 2 ≡ high * 2 ^ k = omega (arith, halved) in
    let ih = bit_or_fields k (low / 2) high (omega (arith, pow-suc 2 k)) in
    let step = rw half at (bit_or_step low (high * 2 ^ suc k)) in omega (arith, step, ih, halved)

bit_or-zero_fuel : (n a : ℕ) → a ≤ n → bit_or a 0 ≡ a
bit_or-zero_fuel n zero h = zero-bit_or 0
bit_or-zero_fuel zero (suc a) h = absurd (omega arith)
bit_or-zero_fuel (suc n) (suc a) h =
    omega (arith, bit_or_step (suc a) 0, bit_or-zero_fuel n (suc a / 2) (omega arith))

-- The same with the high part first.
pub bit_or_fields_high :
    (k high low : ℕ) → low < 2 ^ k → bit_or (high * 2 ^ k) low ≡ high * 2 ^ k + low
bit_or_fields_high zero high low h =
    let none_left : low ≡ 0 = omega arith in
    rw none_left (omega (arith, bit_or-zero_fuel (high * 2 ^ 0) (high * 2 ^ 0) (omega arith)))
bit_or_fields_high (suc k) high low h =
    let halved : high * 2 ^ suc k ≡ 2 * (high * 2 ^ k) =
      omega (arith, ap (λ (t : ℕ). high * t) (pow-suc 2 k)) in
    let half : high * 2 ^ suc k / 2 ≡ high * 2 ^ k = omega (arith, halved) in
    let ih = bit_or_fields_high k high (low / 2) (omega (arith, pow-suc 2 k)) in
    let step = rw half at (bit_or_step (high * 2 ^ suc k) low) in omega (arith, step, ih, halved)

pub pow_add : (a b : ℕ) → 2 ^ (a + b) ≡ 2 ^ a * 2 ^ b
pow_add a zero = let same : a + 0 ≡ a = omega arith in rw same (omega arith)
pow_add a (suc b) =
    let carry : a + suc b ≡ suc (a + b) = omega arith in
    rw carry
      (omega (arith, pow-suc 2 (a + b), ap (λ (t : ℕ). 2 ^ a * t) (pow-suc 2 b), pow_add a b))

-- A part below `m` of each place.
pub place-lt : (m x p : ℕ) → x < m → x * p + p ≤ m * p
place-lt m x p h = grind arith
