-- ===== src/Printer/Pins/Exclusive.antt =====
-- A pin that is asked for without a share type is given out once.
use klipper_go.Common.{
  ◌≡◌, refl, sym, ap, ◌∙◌, Bool, true, false, not, ◌&&◌, ◌||◌, Option, none, some, List, [], ◌∷◌,
  arith,
}
use klipper_go.Gcode.Parse.{bytes_eq}
use klipper_go.Printer.Pins.{
  Text, PinParams, PrinterPins, find, member, parse_pin, share_name, Looked, gives,
  used_multiple_times, must_have_same_polarity, share, take_pin, lookup_pin,
}

pub record Request : Type 0 where
  pub pin_desc : Text
  pub can_invert : Bool
  pub can_pullup : Bool

-- The pins given out, and the state; `none` is a panic.
abbrev pub Given : Type 0
Given = Option (List PinParams × PrinterPins)

unfoldable pub with_pin : PinParams → Given → Given
with_pin p none = none
with_pin p (some (ps, last)) = some (p ∷ ps, last)

unfoldable pub after_look : Looked → (PrinterPins → Given) → Given
unfolding with_pin
after_look (gives self p) rest = with_pin p (rest self)
after_look used_multiple_times rest = none
after_look must_have_same_polarity rest = none

-- Requests without a share type, one after the other.
unfoldable pub lookups : List Request → PrinterPins → Given
unfolding after_look
lookups [] self = some ([], self)
lookups (r ∷ rs) self =
    after_look (lookup_pin r.pin_desc r.can_invert r.can_pullup none self) (lookups rs)

abbrev pub clashes : Text → List PinParams → Bool
clashes name [] = false
clashes name (p ∷ ps) = bytes_eq name (share_name p) || clashes name ps

abbrev pub apart : List PinParams → Bool
apart [] = true
apart (p ∷ ps) = not (clashes (share_name p) ps) && apart ps

abbrev is_none : Option PinParams → Bool
is_none none = true
is_none (some p) = false

abbrev free : List (Text × PinParams) → List PinParams → Bool
free active [] = true
free active (p ∷ ps) = is_none (find (share_name p) active) && free active ps

-- No pin given out is active before, and no two are the same.
abbrev good : List (Text × PinParams) → Given → Bool
good active none = true
good active (some (ps, last)) = free active ps && apart ps

free-front :
    (name : Text) (v : PinParams) (active : List (Text × PinParams)) (ps : List PinParams)
    → free ((name, v) ∷ active) ps ≡ true
    → (free active ps ≡ true) × (clashes name ps ≡ false)
unfolding find
free-front name v active [] h = (refl, refl)
free-front name v active (p ∷ ps) h = ground (arith, free-front name v active ps)

with_pin-good :
    (p : PinParams) (active : List (Text × PinParams)) (given : Given)
    → find (share_name p) active ≡ none
    → good ((share_name p, p) ∷ active) given ≡ true
    → good active (with_pin p given) ≡ true
unfolding with_pin
with_pin-good p active none new h = refl
with_pin-good p active (some (ps, last)) new h =
    let unused : is_none (find (share_name p) active) ≡ true = ap is_none new in
    ground (arith, free-front (share_name p) p active ps)

take_pin-good :
    (found : Option PinParams) (params : PinParams) (self : PrinterPins)
    (rest : PrinterPins → Given)
    → self.allow_multi_use_pins ≡ []
    → find (share_name params) self.active_pins ≡ found
    → ((next : PrinterPins)
        → next.allow_multi_use_pins ≡ []
        → good next.active_pins (rest next) ≡ true)
    → good self.active_pins (after_look (take_pin found none params self) rest) ≡ true
unfolding after_look take_pin share
take_pin-good none params self rest alone new h =
    let typed : PinParams = record params { share_type = none } in
    let next : PrinterPins = record self {
      active_pins = (share_name params, typed) ∷ self.active_pins;
    } in
    with_pin-good typed self.active_pins (rest next) new (h next alone)
take_pin-good (some shared) params self rest alone new h =
    let single : member (share_name params) self.allow_multi_use_pins ≡ false =
      ap (member (share_name params)) alone in
    rw single refl

lookups-good :
    (rs : List Request) (self : PrinterPins)
    → self.allow_multi_use_pins ≡ []
    → good self.active_pins (lookups rs self) ≡ true
unfolding lookups lookup_pin
lookups-good [] self alone = refl
lookups-good (r ∷ rs) self alone =
    let params = parse_pin r.pin_desc r.can_invert r.can_pullup self in
    take_pin-good (find (share_name params) self.active_pins) params self (lookups rs) alone refl
      (lookups-good rs)

-- Where no pin may be used more than once, lookups without a share type that do not panic give out pins
-- of which no two have the same chip name and pin, whatever was active before.
pub lookups_exclusive :
    (rs : List Request) (self last : PrinterPins) (out : List PinParams)
    → self.allow_multi_use_pins ≡ []
    → lookups rs self ≡ some (out, last)
    → apart out ≡ true
lookups_exclusive rs self last out alone done =
    let all_good : good self.active_pins (some (out, last)) ≡ true =
      ap (good self.active_pins) (sym done) ∙ lookups-good rs self alone in
    ground arith
