-- ===== src/Tmc/Uart.antt =====
-- The UART frames of transport_codecs.go. The values that reach these functions are not negative,
-- and Go's `big.Int` has no width, so both are numbers; `&` with 0xff is a remainder.
pub mod Frame
pub mod RoundTrip
use Prim.Native.Nat.{bit_xor, bit_or}
use klipper_go.Common.{
  ℕ, zero, suc, ◌+◌, ◌-◌, ◌*◌, ◌/◌, ◌%◌, ◌^◌, Bool, true, false, not, List, [], ◌∷◌, ◌++◌, Option,
  none, some, ◌==◌, if◌then◌else◌, length,
}
use klipper_go.Msgproto.Block.{ints_equal}

-- One turn of the inner loop: the running checksum and the byte, shifted right by the caller.
unfoldable pub crc_bit : ℕ → ℕ → ℕ
crc_bit crc b =
    (if not (bit_xor (crc / 128) (b % 2) == 0) then bit_xor (crc * 2) 0x07 else crc * 2) % 256

unfoldable pub crc_byte : ℕ → ℕ → ℕ → ℕ
crc_byte zero crc b = crc
crc_byte (suc n) crc b = crc_byte n (crc_bit crc b) (b / 2)

unfoldable pub crc8_from : ℕ → List ℕ → ℕ
unfolding crc_byte crc_bit
crc8_from crc [] = crc
crc8_from crc (b ∷ bs) = crc8_from (crc_byte 8 crc b) bs

unfoldable pub calc_crc8_atm : List ℕ → ℕ
calc_crc8_atm bs = crc8_from 0 bs

-- The first loop of `AddSerialBits`: each byte between a start bit 0 and a stop bit 1.
unfoldable pub add_bits : ℕ → ℕ → List ℕ → ℕ
add_bits out at [] = out
add_bits out at (d ∷ ds) = add_bits (bit_or out (bit_or (d * 2) 0x200 * 2 ^ at)) (at + 10) ds

-- The second loop: the number in bytes, the lowest first, from byte `i` on.
unfoldable pub to_bytes : ℕ → ℕ → ℕ → List ℕ
to_bytes zero i out = []
to_bytes (suc n) i out = (out / 2 ^ (i * 8) % 256) ∷ to_bytes n (i + 1) out

unfoldable pub add_serial_bits : List ℕ → List ℕ
unfolding add_bits to_bytes
add_serial_bits bs = to_bytes ((10 * length bs + 7) / 8) 0 (add_bits 0 0 bs)

unfoldable pub encode_uart_read : ℕ → ℕ → ℕ → List ℕ
encode_uart_read sync addr reg =
    let msg : List ℕ = sync ∷ addr ∷ reg ∷ [] in add_serial_bits (msg ++ (calc_crc8_atm msg ∷ []))

unfoldable pub write_message : ℕ → ℕ → ℕ → ℕ → List ℕ
write_message sync addr reg val =
    sync
    ∷ addr
    ∷ reg
    ∷ (val / 2 ^ 24 % 256)
    ∷ (val / 2 ^ 16 % 256)
    ∷ (val / 2 ^ 8 % 256)
    ∷ (val % 256)
    ∷ []

unfoldable pub encode_uart_write : ℕ → ℕ → ℕ → ℕ → List ℕ
encode_uart_write sync addr reg val =
    let msg = write_message sync addr reg val in add_serial_bits (msg ++ (calc_crc8_atm msg ∷ []))

-- The loop of `DecodeUARTRead` that joins the bytes.
unfoldable pub join_bytes : ℕ → ℕ → List ℕ → ℕ
join_bytes mval at [] = mval
join_bytes mval at (d ∷ ds) = join_bytes (bit_or mval (d * 2 ^ at)) (at + 8) ds

-- The four data bytes stand at the bits 31, 41, 51 and 61 of the reply.
unfoldable pub reply_value : ℕ → ℕ
reply_value mval =
    bit_or
      (bit_or (bit_or (mval / 2 ^ 31 % 256 * 2 ^ 24) (mval / 2 ^ 41 % 256 * 2 ^ 16))
        (mval / 2 ^ 51 % 256 * 2 ^ 8))
      (mval / 2 ^ 61 % 256)

-- (value, true), or (0, false) for a reply that is not the one a chip sends for that value.
unfoldable pub decode_uart_read : ℕ → List ℕ → ℕ × Bool
unfolding reply_value join_bytes
decode_uart_read reg received =
    if not (length received == 10)
    then (0, false)
    else let val = reply_value (join_bytes 0 0 received) in
      if not (ints_equal received (encode_uart_write 0x05 0xff reg val))
      then (0, false)
      else (val, true)
