-- ===== src/Io/Buttons.antt =====
-- `DigitalButtonState` of buttons.go: the button reports of a micro-controller. A callback is known
-- by its place in the list. The count of acknowledged reports starts at 0 and only grows.
pub mod InOrder
pub mod Masks
use klipper_go.Common.{
  ℕ, ◌+◌, ◌-◌, ◌*◌, ◌/◌, ◌^◌, Bool, true, false, Option, none, some, List, [], ◌∷◌, ◌++◌, ltb, leb,
  ◌==◌, if◌then◌else◌, length, drop, not,
}
use klipper_go.Common.Int.{ℤ, pos, negsuc, ◌+ℤ◌, ◌-ℤ◌, mask_ℤ}
use Prim.Native.Nat.{bit_or, bit_and, bit_xor}

pub record ButtonCallback : Type 0 where
  pub mask : ℕ
  pub shift : ℕ

pub record DigitalButtonState : Type 0 where
  pub pin_count : ℕ
  pub invert_mask : ℕ
  pub last_button : ℕ
  pub ack_count : ℕ
  pub callbacks : List ButtonCallback

unfoldable pub new_digital_button_state : DigitalButtonState
new_digital_button_state = record {
  pin_count = 0;
  invert_mask = 0;
  last_button = 0;
  ack_count = 0;
  callbacks = [];
}

-- The loop of `AddPins`: the mask so far and the state; `invert` is the pin's setting.
unfoldable pub add_pin_bits : List Bool → ℕ → DigitalButtonState → ℕ × DigitalButtonState
add_pin_bits [] mask self = (mask, self)
add_pin_bits (invert ∷ pins) mask self =
    add_pin_bits pins (bit_or mask (2 ^ self.pin_count)) (record self {
      invert_mask =
          if invert then bit_or self.invert_mask (2 ^ self.pin_count) else self.invert_mask;
      pin_count = self.pin_count + 1;
    })

-- `AddPins`
unfoldable pub add_pins : List Bool → DigitalButtonState → DigitalButtonState
unfolding add_pin_bits
add_pins pins self =
    let (mask, grown) = add_pin_bits pins 0 self in
    record grown {
      callbacks = grown.callbacks ++ (record { mask = mask; shift = self.pin_count } ∷ []);
    }

-- The difference of two counts whose low byte is known, between -128 and 127.
unfoldable pub ack_diff : ℕ → ℤ → ℤ
ack_diff ack msg =
    let low = mask_ℤ 8 (pos ack -ℤ msg) in
    if not (bit_and low 0x80 == 0) then pos low -ℤ pos 0x100 else pos low

-- The number of reports of a message that are new.
unfoldable pub new_count : ℕ → ℤ → ℕ → ℤ
unfolding ack_diff
new_count ack msg count = pos ack -ℤ ack_diff ack msg +ℤ pos count -ℤ pos ack

-- With the number of new reports: the count that is acknowledged, and the reports that are
-- scheduled. More new reports than the message has are a slice out of range, a panic.
unfoldable pub take_new :
    ℤ → List ℕ → DigitalButtonState → Option (DigitalButtonState × Option ℕ × List ℕ)
take_new (negsuc n) buttons self = some (self, none, [])
take_new (pos n) buttons self =
    if n == 0
    then some (self, none, [])
    else if ltb (length buttons) n
    then none
    else some
        (record self { ack_count = self.ack_count + n }, some n, drop (length buttons - n) buttons)

-- `HandleButtonsState`
unfoldable pub handle_buttons_state :
    ℤ → List ℕ → DigitalButtonState → Option (DigitalButtonState × Option ℕ × List ℕ)
unfolding new_count take_new
handle_buttons_state msg buttons self =
    take_new (new_count self.ack_count msg (length buttons)) buttons self

-- The callbacks that a change concerns, each with its place and its bits of the button.
unfoldable pub notify : ℕ → ℕ → ℕ → List ButtonCallback → List (ℕ × ℕ)
notify place changed button [] = []
notify place changed button (c ∷ cs) =
    let rest = notify (place + 1) changed button cs in
    if not (bit_and changed c.mask == 0)
    then (place, bit_and button c.mask / 2 ^ c.shift) ∷ rest
    else rest

-- `HandleButton`
unfoldable pub handle_button : ℕ → DigitalButtonState → DigitalButtonState × List (ℕ × ℕ)
unfolding notify
handle_button value self =
    let button = bit_xor value self.invert_mask in
    let changed = bit_xor button self.last_button in
    (record self { last_button = button }, notify 0 changed button self.callbacks)
