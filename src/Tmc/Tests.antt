-- ===== src/Tmc/Tests.antt =====
-- The theorems on the driver chips at concrete inputs.
use klipper_go.Common.{ℕ, ◌^◌, ◌<◌, ◌≡◌, ◌↔◌, refl, true, inr, none, List, [], ◌∷◌, arith}
use klipper_go.Tmc.Uart.{encode_uart_write, decode_uart_read}
use klipper_go.Tmc.Uart.RoundTrip.{decode_uart_read_iff}
use Prim.Native.String.{String}
use klipper_go.Common.Int.{pos, negsuc}
use klipper_go.Common.Assoc.{lookup, insert}
use klipper_go.Tmc.Fields.{FieldHelper, new_field_helper, get_field, set_field, mask_of}
use klipper_go.Tmc.Fields.RoundTrip.{get_field-set_field}
use klipper_go.Tmc.Fields.Tracking.{Setting}

decode_uart_read_iff_example :
    (decode_uart_read 6 (encode_uart_write 0x05 0xff 6 0x2100_0040) ≡ (0x2100_0040, true)) ↔ (
      (encode_uart_write 0x05 0xff 6 0x2100_0040 ≡ encode_uart_write 0x05 0xff 6 0x2100_0040)
      × (0x2100_0040 < 2 ^ 32))
decode_uart_read_iff_example =
    decode_uart_read_iff 6 0x2100_0040 (encode_uart_write 0x05 0xff 6 0x2100_0040) (omega arith)

abbrev coolconf : List (String × List (String × ℕ))
coolconf = ("COOLCONF", ("sgt", 0x7f_0000) ∷ ("semin", 0xf) ∷ []) ∷ []

abbrev fields : FieldHelper
fields = new_field_helper coolconf ("sgt" ∷ []) none

-- A negative value in a signed field, beside a field that was set before.
abbrev with_semin : FieldHelper
with_semin = (set_field "semin" (pos 5) none none fields).0

get_field-set_field_example :
    (get_field "sgt" none none (set_field "sgt" (negsuc 9) none none with_semin).0 ≡ negsuc 9)
    × (get_field "semin" none none (set_field "sgt" (negsuc 9) none none with_semin).0
        ≡ get_field "semin" none none with_semin)
unfolding new_field_helper set_field mask_of lookup insert
get_field-set_field_example =
    get_field-set_field with_semin "sgt" "COOLCONF" "semin" "COOLCONF" 16 6 (negsuc 9) refl refl
      (omega arith) (omega arith) refl (inr refl)

abbrev two_settings : List Setting
two_settings =
    record { field = "sgt"; field_value = pos 1; reg_value = none; reg_name = none }
    ∷ record { field = "semin"; field_value = pos 3; reg_value = none; reg_name = none }
    ∷ []
