-- ===== src/Common/Digits.antt =====
-- Numbers below a power of two as sequences of binary digits: `&`, `|`, `^` and shifts digit by digit.
use Prim.Native.Nat.{digits, bit_and, bit_or, bit_and-bitwise}
use native.Mathlib.Nat.{pow-suc, div-add-mod, div-div-eq-div-mul, mul_comm, one-le-pow}
use klipper_go.Common.{
  ap, ℕ, zero, suc, ◌+◌, ◌-◌, ◌*◌, ◌/◌, ◌%◌, ◌^◌, ◌≤◌, ◌<◌, min, max, ◌≡◌, refl, sym, arith,
}
use klipper_go.Common.Bits.{bit_or_step}

-- The digit of `2 ^ i`.
abbrev pub digit : ℕ → ℕ → ℕ
digit zero n = n % 2
digit (suc i) n = digit i (n / 2)

and_fuel :
    (n m a b : ℕ) → a ≤ n → a ≤ m → digits (λ y. zero) min n a b ≡ digits (λ y. zero) min m a b
and_fuel zero zero a b p q = refl
and_fuel zero (suc m) zero b p q = refl
and_fuel zero (suc m) (suc a) b p q = absurd (omega arith)
and_fuel (suc n) zero zero b p q = refl
and_fuel (suc n) zero (suc a) b p q = absurd (omega arith)
and_fuel (suc n) (suc m) zero b p q = refl
and_fuel (suc n) (suc m) (suc a) b p q =
    omega (arith, and_fuel n m (suc a / 2) (b / 2) (omega arith) (omega arith))

pub bit_and_step : (x y : ℕ) → bit_and x y ≡ min (x % 2) (y % 2) + 2 * bit_and (x / 2) (y / 2)
bit_and_step zero y = omega (arith, bit_and-bitwise 0 y, bit_and-bitwise (0 / 2) (y / 2))
bit_and_step (suc x) y =
    let half = suc x / 2 in
    let same = and_fuel x half half (y / 2) (omega arith) (omega arith) in
    omega (arith, bit_and-bitwise (suc x) y, bit_and-bitwise half (y / 2), same)

pub digit-le_one : (i n : ℕ) → digit i n ≤ 1
digit-le_one zero n = omega arith
digit-le_one (suc i) n = digit-le_one i (n / 2)

pub digit-zero : (i : ℕ) → digit i 0 ≡ 0
digit-zero zero = refl
digit-zero (suc i) = digit-zero i

pub digit-and : (i x y : ℕ) → digit i (bit_and x y) ≡ min (digit i x) (digit i y)
digit-and zero x y = omega (arith, bit_and_step x y)
digit-and (suc i) x y =
    let half : bit_and x y / 2 ≡ bit_and (x / 2) (y / 2) = omega (arith, bit_and_step x y) in
    rw half (digit-and i (x / 2) (y / 2))

pub digit-or : (i x y : ℕ) → digit i (bit_or x y) ≡ max (digit i x) (digit i y)
digit-or zero x y = omega (arith, bit_or_step x y)
digit-or (suc i) x y =
    let half : bit_or x y / 2 ≡ bit_or (x / 2) (y / 2) = omega (arith, bit_or_step x y) in
    rw half (digit-or i (x / 2) (y / 2))

-- The complement in `k` bits.
pub digit-complement : (k i n : ℕ) → i < k → n < 2 ^ k → digit i (2 ^ k - 1 - n) ≡ 1 - digit i n
digit-complement zero i n h p = absurd (omega arith)
digit-complement (suc k) zero n h p = omega (arith, pow-suc 2 k)
digit-complement (suc k) (suc i) n h p =
    let half : (2 ^ suc k - 1 - n) / 2 ≡ 2 ^ k - 1 - n / 2 = omega (arith, pow-suc 2 k) in
    rw half (digit-complement k i (n / 2) (omega arith) (omega (arith, pow-suc 2 k)))

-- Numbers of `k` bits with the same digits are the same.
pub same_digits :
    (k a b : ℕ) → a < 2 ^ k → b < 2 ^ k → ((i : ℕ) → i < k → digit i a ≡ digit i b) → a ≡ b
same_digits zero a b p q h = omega arith
same_digits (suc k) a b p q h =
    let halves =
      same_digits k (a / 2) (b / 2) (omega (arith, pow-suc 2 k)) (omega (arith, pow-suc 2 k))
        (λ i l. h (suc i) (omega arith)) in
    let last = h zero (omega arith) in omega (arith, halves, last)

pub bit_and-le : (n x y : ℕ) → x ≤ n → bit_and x y ≤ x
bit_and-le zero zero y h = omega (arith, bit_and-bitwise 0 y)
bit_and-le zero (suc x) y h = absurd (omega arith)
bit_and-le (suc n) zero y h = omega (arith, bit_and-bitwise 0 y)
bit_and-le (suc n) (suc x) y h =
    omega (arith, bit_and_step (suc x) y, bit_and-le n (suc x / 2) (y / 2) (omega arith))

pub bit_and-zero : (n x : ℕ) → x ≤ n → bit_and x 0 ≡ 0
bit_and-zero zero zero h = omega (arith, bit_and-bitwise 0 0)
bit_and-zero zero (suc x) h = absurd (omega arith)
bit_and-zero (suc n) zero h = omega (arith, bit_and-bitwise 0 0)
bit_and-zero (suc n) (suc x) h =
    omega (arith, bit_and_step (suc x) 0, bit_and-zero n (suc x / 2) (omega arith))

pub mod_double : (x p : ℕ) → x % (2 * p) ≡ x % 2 + 2 * (x / 2 % p)
mod_double x p =
    let upper : p * (x / 2 / p) + x / 2 % p ≡ x / 2 = div-add-mod (x / 2) p in
    let wide : 2 * p * (x / 2 / p) + x % (2 * p) ≡ x =
      rw (div-div-eq-div-mul x 2 p) (div-add-mod x (2 * p)) in
    omega (arith, upper, wide)

mod-pow_suc : (w x : ℕ) → x % 2 ^ suc w ≡ x % 2 + 2 * (x / 2 % 2 ^ w)
mod-pow_suc w x =
    let twice : 2 ^ suc w ≡ 2 * 2 ^ w = omega (arith, pow-suc 2 w) in
    rw twice (mod_double x (2 ^ w))

pub pow_pos : (w : ℕ) → 1 ≤ 2 ^ w
pow_pos w = one-le-pow w 2 (omega arith)

-- A mask of the `w` low bits.
pub bit_and-ones : (w x : ℕ) → bit_and x (2 ^ w - 1) ≡ x % 2 ^ w
bit_and-ones zero x = omega (arith, bit_and-zero x x (omega arith))
bit_and-ones (suc w) x =
    let half : (2 ^ suc w - 1) / 2 ≡ 2 ^ w - 1 = omega (arith, pow-suc 2 w) in
    let step = rw half at (bit_and_step x (2 ^ suc w - 1)) in
    let odd : (2 ^ suc w - 1) % 2 ≡ 1 = omega (arith, pow-suc 2 w, pow_pos w) in
    omega (arith, step, odd, bit_and-ones w (x / 2), mod-pow_suc w x)

div_step : (s x : ℕ) → x / 2 / 2 ^ s ≡ x / 2 ^ suc s
div_step s x = rw (pow-suc 2 s) (rw (mul_comm (2 ^ s) 2) (div-div-eq-div-mul x 2 (2 ^ s)))

-- A mask of `w` bits from bit `s` on.
pub bit_and-field : (s w x : ℕ) → bit_and x ((2 ^ w - 1) * 2 ^ s) ≡ x / 2 ^ s % 2 ^ w * 2 ^ s
bit_and-field zero w x =
    let same : (2 ^ w - 1) * 2 ^ 0 ≡ 2 ^ w - 1 = omega arith in
    let whole : x / 2 ^ 0 ≡ x = omega arith in rw (same, whole) (omega (arith, bit_and-ones w x))
bit_and-field (suc s) w x =
    let shifted : (2 ^ w - 1) * 2 ^ suc s ≡ 2 * ((2 ^ w - 1) * 2 ^ s) =
      omega (arith, ap (λ (t : ℕ). (2 ^ w - 1) * t) (pow-suc 2 s)) in
    let half : (2 ^ w - 1) * 2 ^ suc s / 2 ≡ (2 ^ w - 1) * 2 ^ s = omega (arith, shifted) in
    let step = rw half at (bit_and_step x ((2 ^ w - 1) * 2 ^ suc s)) in
    let place : x / 2 / 2 ^ s ≡ x / 2 ^ suc s = div_step s x in
    let ih = rw place at (bit_and-field s w (x / 2)) in
    omega (arith, step, shifted, ih, ap (λ (t : ℕ). x / 2 ^ suc s % 2 ^ w * t) (pow-suc 2 s))

mod-mod_pow : (w n x : ℕ) → w ≤ n → x % 2 ^ n % 2 ^ w ≡ x % 2 ^ w
mod-mod_pow zero n x h = omega arith
mod-mod_pow (suc w) zero x h = absurd (omega arith)
mod-mod_pow (suc w) (suc n) x h =
    let outer = mod-pow_suc w (x % 2 ^ suc n) in
    let inner = mod-pow_suc n x in
    let half : x % 2 ^ suc n / 2 ≡ x / 2 % 2 ^ n = omega (arith, inner) in
    omega (arith, rw half at outer, inner, mod-pow_suc w x, mod-mod_pow w n (x / 2) (omega arith))

-- Such a mask takes a value that was shifted into its place, reduced to its width.
pub shifted-field : (s w n x : ℕ) → s + w ≤ n → x * 2 ^ s % 2 ^ n / 2 ^ s % 2 ^ w ≡ x % 2 ^ w
shifted-field zero w n x h =
    let same : x * 2 ^ 0 ≡ x = omega arith in
    let whole : x % 2 ^ n / 2 ^ 0 ≡ x % 2 ^ n = omega arith in
    rw (same, whole) (mod-mod_pow w n x (omega arith))
shifted-field (suc s) w zero x h = absurd (omega arith)
shifted-field (suc s) w (suc n) x h =
    let doubled : x * 2 ^ suc s ≡ 2 * (x * 2 ^ s) =
      omega (arith, ap (λ (t : ℕ). x * t) (pow-suc 2 s)) in
    let half : 2 * (x * 2 ^ s) / 2 ≡ x * 2 ^ s = omega arith in
    let reduced = rw half at (mod-pow_suc n (2 * (x * 2 ^ s))) in
    let cut : x * 2 ^ suc s % 2 ^ suc n / 2 ≡ x * 2 ^ s % 2 ^ n =
      rw doubled (omega (arith, reduced)) in
    rw (sym (div_step s (x * 2 ^ suc s % 2 ^ suc n)), cut) (shifted-field s w n x (omega arith))
