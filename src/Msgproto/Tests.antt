-- ===== src/Msgproto/Tests.antt =====
-- The wire format on concrete messages.
use klipper_go.Common.{
  ℕ, ◌+◌, ◌≤◌, ◌≡◌, refl, inl, inr, ◌⊎◌, false, some, List, [], ◌∷◌, ◌++◌, arith, length, take,
}
use klipper_go.Common.Int.{pos, negsuc}
use Prim.Native.String.{String}
use klipper_go.Common.Assoc.{insert, lookup}
use klipper_go.Msgproto.Crc.{crc_from, crc_step, crc_mix, crc_fold, crc16_ccitt}
use klipper_go.Msgproto.Vlq.{encode}
use klipper_go.Msgproto.Format.ByName.{AllNamed, AllReturned, parse-encode_by_name}
use klipper_go.Msgproto.Block.{
  block_body, encode_msgblock, check_crc, check_trailer, check_header, check_packet,
}
use klipper_go.Msgproto.Block.Accept.{check_packet-encode_msgblock, check_packet_sound}
use klipper_go.Msgproto.Block.Stream.{check_packet_total, check_packet_partial}
use klipper_go.Msgproto.Param.{
  integer, buffer, enumeration, Num, Arg, number, ints, text, int, Value,
}
use klipper_go.Msgproto.Format.{
  find_message, MessageFormat, Registry, encode_message, encode_by_name, parse_packet,
  parse_message,
}
use klipper_go.Msgproto.Format.RoundTrip.{store, all_bytes, arg_bytes, num_of}
use klipper_go.Msgproto.Format.Wire.{IsSendable, parse_packet-encode_msgblock}

encode_minus_one : encode [] (negsuc 0) ≡ 0x7f ∷ []
unfolding encode
encode_minus_one = refl

encode_big : encode [] (pos 0xffff_ffff) ≡ 0x8f ∷ 0xff ∷ 0xff ∷ 0xff ∷ 0x7f ∷ []
unfolding encode
encode_big = refl

check_packet-encode_msgblock_example :
    check_packet (encode_msgblock 3 (1 ∷ 2 ∷ []) ++ (0x7e ∷ 9 ∷ [])) ≡ some (pos 7)
check_packet-encode_msgblock_example =
    check_packet-encode_msgblock 3 (1 ∷ 2 ∷ []) (0x7e ∷ 9 ∷ []) (omega arith)

abbrev two_byte_block : List ℕ
two_byte_block = 7 ∷ 19 ∷ 1 ∷ 2 ∷ 4 ∷ 59 ∷ 126 ∷ []

two_byte_block_lem : encode_msgblock 3 (1 ∷ 2 ∷ []) ≡ two_byte_block
unfolding encode_msgblock block_body crc16_ccitt crc_from crc_step crc_mix crc_fold
two_byte_block_lem = refl

check_packet_sound_example :
    (seq : ℕ) × (cmd : List ℕ) × (take 7 two_byte_block ≡ encode_msgblock seq cmd)
    × (7 ≡ 5 + length cmd)
    × (length cmd ≤ 59)
    × (7 ≤ length two_byte_block)
unfolding check_packet check_header check_trailer check_crc crc16_ccitt crc_from crc_step crc_mix
    crc_fold
check_packet_sound_example = check_packet_sound two_byte_block 7 (omega arith) refl

check_packet_partial_example : check_packet (take 6 (encode_msgblock 3 (1 ∷ 2 ∷ []))) ≡ some (pos 0)
check_packet_partial_example = check_packet_partial 3 (1 ∷ 2 ∷ []) 6 (omega arith) (omega arith)

abbrev wrong_sequence : List ℕ
wrong_sequence = 5 ∷ 0x7f ∷ 0 ∷ 0 ∷ 0 ∷ []

check_packet_total_example :
    (check_packet wrong_sequence ≡ some (negsuc 0))
    ⊎ (check_packet wrong_sequence ≡ some (pos 0))
    ⊎ ((n : ℕ) × (check_packet wrong_sequence ≡ some (pos n))
        × (5 ≤ n)
        × (n ≤ 64)
        × (n ≤ length wrong_sequence))
check_packet_total_example = check_packet_total wrong_sequence

-- `set_pin oid=%c data=%*s` with message id 70.
abbrev set_pin : MessageFormat
set_pin = record {
  name = "set_pin";
  msgid_bytes = encode [] (pos 70);
  params = ("oid", integer false) ∷ ("data", buffer) ∷ [];
}

abbrev set_pin_args : List Arg
set_pin_args = number (int (pos 200)) ∷ ints (1 ∷ 2 ∷ 3 ∷ []) ∷ []

abbrev one_message : Registry
one_message = (pos 70, set_pin) ∷ []

set_pin-IsSendable : IsSendable one_message (pos 70) set_pin set_pin_args
unfolding find_message encode all_bytes arg_bytes num_of
set_pin-IsSendable = record {
  wire = omega arith;
  id_bytes = refl;
  known = refl;
  fit = ((omega arith, inr refl), (tt, tt));
  short = omega arith;
}

parse_packet-encode_msgblock_example :
    (cmd : List ℕ) × (encode_message set_pin set_pin_args ≡ some cmd)
    × (check_packet (encode_msgblock 3 cmd ++ []) ≡ some (pos (5 + length cmd)))
    × (length (encode_msgblock 3 cmd) ≡ 5 + length cmd)
    × (parse_packet one_message (encode_msgblock 3 cmd)
        ≡ some (insert "#name" (Value.named "set_pin") (store set_pin.params set_pin_args [])))
parse_packet-encode_msgblock_example =
    parse_packet-encode_msgblock one_message (pos 70) set_pin set_pin_args set_pin-IsSendable 3 []

-- `set_named oid=%c pin=%u data=%*s`, where the pins are an enumeration.
abbrev pins : List (String × Num)
pins = ("PC0", int (pos 32)) ∷ ("PC1", int (pos 33)) ∷ []

abbrev set_named : MessageFormat
set_named = record {
  name = "set_named";
  msgid_bytes = encode [] (pos 70);
  params = ("oid", integer false) ∷ ("pin", enumeration false pins) ∷ ("data", buffer) ∷ [];
}

abbrev named_args : List (String × Arg)
named_args =
    ("data", ints (1 ∷ 2 ∷ 3 ∷ [])) ∷ ("pin", text "PC1") ∷ ("oid", number (int (pos 200))) ∷ []

named_args-AllNamed : AllNamed set_named.params named_args
unfolding lookup
named_args-AllNamed = (
  (number (int (pos 200)), refl, ((omega arith, omega arith), inr refl)),
  (
    (
      text "PC1",
      refl,
      (pos 33, refl, ((omega arith, omega arith), inr refl), (inl refl, (inr refl, tt))),
    ),
    ((ints (1 ∷ 2 ∷ 3 ∷ []), refl, omega arith), tt),
  ),
)

parse-encode_by_name_example :
    (bytes : List ℕ) × (out : List (String × Value)) × (encode_by_name set_named named_args
      ≡ some bytes)
    × (parse_message set_named ((9 ∷ 0x10 ∷ []) ++ (bytes ++ (0x7e ∷ []))) 2
        ≡ some (out, 2 + length bytes))
    × AllReturned set_named.params named_args out
parse-encode_by_name_example =
    parse-encode_by_name set_named named_args (9 ∷ 0x10 ∷ []) (0x7e ∷ []) named_args-AllNamed
