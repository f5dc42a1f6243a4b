-- ===== src/Printer/Pins.antt =====
-- `PrinterPins` of pins.go. A text is the list of its bytes, a chip a number; log lines are left out,
-- and a panic is a constructor.
pub mod Exclusive
use klipper_go.Common.{
  ℕ, Bool, true, false, not, ◌&&◌, ◌||◌, Option, none, some, List, [], ◌∷◌, ◌++◌, ◌==◌,
  if◌then◌else◌,
}
use klipper_go.Common.Int.{ℤ, pos, negsuc, int_eq}
use klipper_go.Gcode.Parse.{bytes_eq, trim_space}

abbrev pub Text : Type 0
Text = List ℕ

pub record PinParams : Type 0 where
  pub chip : Option ℕ
  pub chip_name : Text
  pub pin : Text
  pub invert : Bool
  pub pullup : ℤ
  pub share_type : Option Text

-- A map with texts as keys.
module _ {V : Type 0} where
  unfoldable pub find : Text → List (Text × V) → Option V
  find key [] = none
  find key ((held, v) ∷ rest) = if bytes_eq held key then some v else find key rest

  unfoldable pub remove : Text → List (Text × V) → List (Text × V)
  remove key [] = []
  remove key ((held, v) ∷ rest) =
      let others = remove key rest in if bytes_eq held key then others else (held, v) ∷ others

abbrev pub member : Text → List Text → Bool
member key [] = false
member key (held ∷ rest) = bytes_eq held key || member key rest

pub record PrinterPins : Type 0 where
  pub chips : List (Text × ℕ)
  pub active_pins : List (Text × PinParams)
  pub allow_multi_use_pins : List Text

unfoldable pub new_printer_pins : PrinterPins
new_printer_pins = record { chips = []; active_pins = []; allow_multi_use_pins = [] }

abbrev pub starts_with : ℕ → Text → Bool
starts_with c [] = false
starts_with c (d ∷ ds) = d == c

abbrev pub rest_of : Text → Text
rest_of [] = []
rest_of (c ∷ cs) = cs

-- Up to the first colon, and from behind it.
abbrev pub before_colon : Text → Text
before_colon [] = []
before_colon (c ∷ cs) = let rest = before_colon cs in if c == 58 then [] else c ∷ rest

abbrev pub behind_colon : Text → Option Text
behind_colon [] = none
behind_colon (c ∷ cs) = let rest = behind_colon cs in if c == 58 then some cs else rest

-- `mcu`
abbrev pub default_chip : Text
default_chip = 109 ∷ 99 ∷ 117 ∷ []

unfoldable pub split_chip : Text → Option Text → Text × Text
split_chip desc none = (default_chip, desc)
split_chip desc (some behind) = (before_colon desc, before_colon behind)

-- `Parse_pin`: `^` is 94, `~` is 126 and `!` is 33.
unfoldable pub parse_pin : Text → Bool → Bool → PrinterPins → PinParams
unfolding split_chip find
parse_pin pin_desc can_invert can_pullup self =
    let desc = trim_space pin_desc in
    let pulled = can_pullup && (starts_with 94 desc || starts_with 126 desc) in
    let desc1 = if pulled then trim_space (rest_of desc) else desc in
    let inverted = can_invert && starts_with 33 desc1 in
    let desc2 = if inverted then trim_space (rest_of desc1) else desc1 in
    let parts = split_chip desc2 (behind_colon desc2) in
    record {
      chip = find parts.0 self.chips;
      chip_name = parts.0;
      pin = parts.1;
      invert = inverted;
      pullup = if pulled then (if starts_with 126 desc then negsuc 0 else pos 1) else pos 0;
      share_type = none;
    }

abbrev pub share_name : PinParams → Text
share_name p = p.chip_name ++ (58 ∷ p.pin)

pub data Looked : Type 0 where
  gives : PrinterPins → PinParams → Looked
  used_multiple_times : Looked
  must_have_same_polarity : Looked

abbrev pub same_share : Option Text → Option Text → Bool
same_share none other = false
same_share (some t) none = false
same_share (some t) (some u) = bytes_eq t u

unfoldable pub share : Bool → Option Text → PinParams → PinParams → PrinterPins → Looked
share allowed share_type params shared self =
    if allowed
    then gives self shared
    else if not (same_share share_type shared.share_type)
    then used_multiple_times
    else if not (
        (params.invert && shared.invert || not params.invert && not shared.invert)
        && int_eq params.pullup shared.pullup)
    then must_have_same_polarity
    else gives self shared

unfoldable pub take_pin : Option PinParams → Option Text → PinParams → PrinterPins → Looked
unfolding share
take_pin (some shared) share_type params self =
    share (member (share_name params) self.allow_multi_use_pins) share_type params shared self
take_pin none share_type params self =
    let typed : PinParams = record params { share_type = share_type } in
    gives (record self { active_pins = (share_name params, typed) ∷ self.active_pins }) typed

-- `Lookup_pin`
unfoldable pub lookup_pin : Text → Bool → Bool → Option Text → PrinterPins → Looked
unfolding take_pin
lookup_pin pin_desc can_invert can_pullup share_type self =
    let params = parse_pin pin_desc can_invert can_pullup self in
    take_pin (find (share_name params) self.active_pins) share_type params self

unfoldable pub reset_pin_sharing : PinParams → PrinterPins → PrinterPins
unfolding remove
reset_pin_sharing p self = record self { active_pins = remove (share_name p) self.active_pins }

-- `Register_chip`; the name that is there already is only reported.
unfoldable pub register_chip : Text → ℕ → PrinterPins → PrinterPins
unfolding remove
register_chip chip_name chip self = record self {
  chips = (trim_space chip_name, chip) ∷ remove (trim_space chip_name) self.chips;
}

unfoldable pub allow_multi_use_pin : Text → PrinterPins → PrinterPins
unfolding parse_pin
allow_multi_use_pin pin_desc self = record self {
  allow_multi_use_pins =
      share_name (parse_pin pin_desc false false self) ∷ self.allow_multi_use_pins;
}
