-- ===== src/Io/Buttons/Masks.antt =====
-- Every set of buttons has its own bits of a report.
use klipper_go.Common.{
  ℕ, zero, suc, ◌+◌, ◌*◌, ◌^◌, ◌<◌, ◌≡◌, refl, ap, ◌∙◌, Bool, List, [], ◌∷◌, ◌++◌, length, arith,
  if◌then◌else◌,
}
use klipper_go.Common.Bits.{bit_or_fields}
use native.Mathlib.Nat.{pow-suc}
use Prim.Native.Nat.{bit_or}
use klipper_go.Io.Buttons.{DigitalButtonState, add_pin_bits, add_pins}

-- The bit of the next pin is above all those before.
next_bit : (k m : ℕ) → m < 2 ^ k → bit_or m (2 ^ k) ≡ m + 2 ^ k
next_bit k m h =
    let one : 2 ^ k ≡ 1 * 2 ^ k = omega arith in
    ap (bit_or m) one ∙ bit_or_fields k m 1 h ∙ omega arith

grown : (k m : ℕ) → m < 2 ^ k → bit_or m (2 ^ k) < 2 ^ (k + 1)
grown k m h =
    let up : k + 1 ≡ suc k = omega arith in rw up (omega (arith, next_bit k m h, pow-suc 2 k))

positive : (k : ℕ) → 0 < 2 ^ k
positive zero = omega arith
positive (suc k) = omega (arith, positive k, pow-suc 2 k)

bits_of :
    (pins : List Bool) (mask : ℕ) (self : DigitalButtonState)
    → mask < 2 ^ self.pin_count
    → (add_pin_bits pins mask self).0 + 2 ^ self.pin_count
      ≡ mask + 2 ^ (self.pin_count + length pins)
unfolding add_pin_bits
bits_of [] mask self h =
    let same : self.pin_count + 0 ≡ self.pin_count = omega arith in rw same refl
bits_of (b ∷ pins) mask self h =
    let c = self.pin_count in
    let taken = bit_or mask (2 ^ c) in
    let self' : DigitalButtonState = record self {
      invert_mask = if b then bit_or self.invert_mask (2 ^ c) else self.invert_mask;
      pin_count = c + 1;
    } in
    let rest = bits_of pins taken self' (grown c mask h) in
    let up : c + 1 ≡ suc c = omega arith in
    let doubled = ap (λ k. 2 ^ k) up ∙ pow-suc 2 c in
    let further : c + 1 + length pins ≡ c + suc (length pins) = omega arith in
    let whole = ap (λ k. 2 ^ k) further in omega (arith, rest, doubled, whole, next_bit c mask h)

counted :
    (pins : List Bool) (mask : ℕ) (self : DigitalButtonState)
    → (add_pin_bits pins mask self).1.pin_count ≡ self.pin_count + length pins
unfolding add_pin_bits
counted [] mask self = omega arith
counted (b ∷ pins) mask self = omega (
  arith,
  counted pins (bit_or mask (2 ^ self.pin_count)) (record self {
    invert_mask = if b then bit_or self.invert_mask (2 ^ self.pin_count) else self.invert_mask;
    pin_count = self.pin_count + 1;
  }),
)

kept :
    (pins : List Bool) (mask : ℕ) (self : DigitalButtonState)
    → (add_pin_bits pins mask self).1.callbacks ≡ self.callbacks
unfolding add_pin_bits
kept [] mask self = refl
kept (b ∷ pins) mask self = kept pins _ _

-- The callback for a set of pins comes after those before it, with the number of pins so far as its
-- shift; its mask is 2^new - 2^old, the bits from the old number of pins up to the new one.
pub add_pins_own_bits :
    (pins : List Bool) (self : DigitalButtonState)
    → (mask : ℕ) × ((add_pins pins self).callbacks
        ≡ self.callbacks ++ (record { mask = mask; shift = self.pin_count } ∷ []))
      × ((add_pins pins self).pin_count ≡ self.pin_count + length pins)
      × (mask + 2 ^ self.pin_count ≡ 2 ^ (add_pins pins self).pin_count)
unfolding add_pins
add_pins_own_bits pins self = (
  (add_pin_bits pins 0 self).0,
  ap (λ cs. cs ++ (record { mask = (add_pin_bits pins 0 self).0; shift = self.pin_count } ∷ []))
      (kept pins 0 self),
  counted pins 0 self,
  let there = ap (λ k. 2 ^ k) (counted pins 0 self) in
      omega (arith, bits_of pins 0 self (positive self.pin_count), there),
)
