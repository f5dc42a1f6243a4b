-- ===== src/Common/Int.antt =====
-- Signed integers over the native numbers, under the library's names: Go's `int` and `int64` where
-- they can be negative. Sums and orders go through the two parts of an integer.
use klipper_go.Common.{
  ℕ, suc, ◌+◌, ◌-◌, ◌/◌, ◌%◌, ◌^◌, ◌≤◌, ◌<◌, Bool, false, ◌==◌, ltb, leb, if◌then◌else◌, ◌≡◌, inl,
  inr, Bool-cases, arith,
}

-- `negsuc n` is -(n + 1).
pub data ℤ : Type 0 where
  pos : ℕ → ℤ
  negsuc : ℕ → ℤ

abbrev pub pos_part : ℤ → ℕ
pos_part (pos n) = n
pos_part (negsuc n) = 0

abbrev pub neg_part : ℤ → ℕ
neg_part (pos n) = 0
neg_part (negsuc n) = suc n

-- a - b, as an integer.
abbrev pub sub_ℕ : ℕ → ℕ → ℤ
sub_ℕ a b = if leb b a then pos (a - b) else negsuc (b - a - 1)

infixl 65 ◌+ℤ◌ ◌-ℤ◌
infix 50 ◌≤ℤ◌ ◌<ℤ◌
abbrev pub ◌+ℤ◌ : ℤ → ℤ → ℤ
a +ℤ b = sub_ℕ (pos_part a + pos_part b) (neg_part a + neg_part b)

abbrev pub ◌-ℤ◌ : ℤ → ℤ → ℤ
a -ℤ b = sub_ℕ (pos_part a + neg_part b) (neg_part a + pos_part b)

abbrev pub ◌≤ℤ◌ : ℤ → ℤ → Type 0
a ≤ℤ b = pos_part a + neg_part b ≤ pos_part b + neg_part a

abbrev pub ◌<ℤ◌ : ℤ → ℤ → Type 0
a <ℤ b = pos_part a + neg_part b < pos_part b + neg_part a

abbrev pub ltb_ℤ : ℤ → ℤ → Bool
ltb_ℤ a b = ltb (pos_part a + neg_part b) (pos_part b + neg_part a)

abbrev pub leb_ℤ : ℤ → ℤ → Bool
leb_ℤ a b = leb (pos_part a + neg_part b) (pos_part b + neg_part a)

-- `v >> k`: the arithmetic shift, which rounds down.
abbrev pub shr_ℤ : ℕ → ℤ → ℤ
shr_ℤ k (pos n) = pos (n / 2 ^ k)
shr_ℤ k (negsuc n) = negsuc (n / 2 ^ k)

-- `v & (1<<k - 1)` on two's complement.
abbrev pub mask_ℤ : ℕ → ℤ → ℕ
mask_ℤ k (pos n) = n % 2 ^ k
mask_ℤ k (negsuc n) = 2 ^ k - 1 - n % 2 ^ k

-- The int64 that holds the 64 low bits of an integer.
abbrev pub wrap_i64 : ℤ → ℤ
wrap_i64 (pos n) =
    if ltb (n % 2 ^ 64) (2 ^ 63) then pos (n % 2 ^ 64) else negsuc (2 ^ 64 - 1 - n % 2 ^ 64)
wrap_i64 (negsuc n) =
    if ltb (n % 2 ^ 64) (2 ^ 63) then negsuc (n % 2 ^ 64) else pos (2 ^ 64 - 1 - n % 2 ^ 64)

abbrev pub int_eq : ℤ → ℤ → Bool
int_eq (pos m) (pos n) = m == n
int_eq (pos m) (negsuc n) = false
int_eq (negsuc m) (pos n) = false
int_eq (negsuc m) (negsuc n) = m == n

-- A difference and its two parts.
pub sub_ℕ-parts : (a b : ℕ) → pos_part (sub_ℕ a b) + b ≡ neg_part (sub_ℕ a b) + a
sub_ℕ-parts a b = elim (Bool-cases (leb b a)) [
  | inl small ↦ rw small (ground arith)
  | inr large ↦ rw large (ground arith)
]

pub later_by : (e d : ℤ) → pos 0 <ℤ d → e <ℤ e +ℤ d
later_by e d h = omega (arith, h, sub_ℕ-parts (pos_part e + pos_part d) (neg_part e + neg_part d))
