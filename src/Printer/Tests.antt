-- ===== src/Printer/Tests.antt =====
-- The theorem on pins at two requests.
use klipper_go.Common.{◌≡◌, refl, true, false, none, some, List, [], ◌∷◌}
use klipper_go.Common.Int.{pos}
use klipper_go.Printer.Pins.{
  PinParams, PrinterPins, new_printer_pins, register_chip, parse_pin, lookup_pin, share_name,
}
use klipper_go.Printer.Pins.Exclusive.{Request, lookups, apart, lookups_exclusive}

abbrev pins : PrinterPins
pins = register_chip (109 ∷ 99 ∷ 117 ∷ []) 7 new_printer_pins

-- ^!PA1 and mcu:PA2
abbrev requests : List Request
requests =
    record { pin_desc = 94 ∷ 33 ∷ 80 ∷ 65 ∷ 49 ∷ []; can_invert = true; can_pullup = true }
    ∷ record {
      pin_desc = 109 ∷ 99 ∷ 117 ∷ 58 ∷ 80 ∷ 65 ∷ 50 ∷ [];
      can_invert = true;
      can_pullup = false;
    }
    ∷ []

abbrev first_pin : PinParams
first_pin = record {
  chip = some 7;
  chip_name = 109 ∷ 99 ∷ 117 ∷ [];
  pin = 80 ∷ 65 ∷ 49 ∷ [];
  invert = true;
  pullup = pos 1;
  share_type = none;
}

abbrev second_pin : PinParams
second_pin = record first_pin { pin = 80 ∷ 65 ∷ 50 ∷ []; invert = false; pullup = pos 0 }

abbrev after_both : PrinterPins
after_both = record pins {
  active_pins = (share_name second_pin, second_pin) ∷ (share_name first_pin, first_pin) ∷ [];
}

lookups_exclusive_example : apart (first_pin ∷ second_pin ∷ []) ≡ true
unfolding lookups lookup_pin parse_pin new_printer_pins register_chip
lookups_exclusive_example =
    lookups_exclusive requests pins after_both (first_pin ∷ second_pin ∷ []) refl refl
