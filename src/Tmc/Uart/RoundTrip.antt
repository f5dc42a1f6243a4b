-- ===== src/Tmc/Uart/RoundTrip.antt =====
-- The reply of a chip to a read: what `EncodeUARTWrite` builds for it, and what `DecodeUARTRead`
-- makes of it.
use klipper_go.Common.{
  ℕ, zero, suc, ◌+◌, ◌*◌, ◌/◌, ◌%◌, ◌^◌, ◌<◌, ◌≡◌, refl, ap, ◌∙◌, ◌↔◌, true, List, [], ◌∷◌, ◌++◌,
  arith, length, All,
}
use Prim.Native.Nat.{bit_or}
use klipper_go.Common.Bits.{bit_or_fields_high, bit_or-lt}
use klipper_go.Msgproto.Crc.{IsByte}
use klipper_go.Msgproto.Block.Accept.{ints_equal_refl, ints_equal→eq}
use klipper_go.Tmc.Uart.{
  crc_bit, crc_byte, crc8_from, calc_crc8_atm, add_bits, to_bytes, add_serial_bits, write_message,
  encode_uart_write, join_bytes, reply_value, decode_uart_read,
}
use klipper_go.Tmc.Uart.Frame.{
  frame, add_bits-frame, frame-lt, join_bytes-to_bytes_whole, length-to_bytes,
}

crc_byte-lt : (n crc b : ℕ) → crc < 256 → crc_byte n crc b < 256
unfolding crc_byte crc_bit
crc_byte-lt zero crc b h = h
crc_byte-lt (suc n) crc b h = crc_byte-lt n (crc_bit crc b) (b / 2) (omega arith)

crc8_from-lt : (crc : ℕ) (bs : List ℕ) → crc < 256 → crc8_from crc bs < 256
unfolding crc8_from
crc8_from-lt crc [] h = h
crc8_from-lt crc (b ∷ bs) h = crc8_from-lt (crc_byte 8 crc b) bs (crc_byte-lt 8 crc b h)

-- The checksum is a byte.
pub calc_crc8_atm-lt : (bs : List ℕ) → calc_crc8_atm bs < 256
unfolding calc_crc8_atm
calc_crc8_atm-lt bs = crc8_from-lt 0 bs (omega arith)

add_serial_bits_lem :
    (bs : List ℕ) → add_serial_bits bs ≡ to_bytes ((10 * length bs + 7) / 8) 0 (add_bits 0 0 bs)
unfolding add_serial_bits
add_serial_bits_lem bs = refl

-- A message of eight bytes becomes the ten bytes of its frame.
serial_frame :
    (bs : List ℕ) → All IsByte bs → length bs ≡ 8 → add_serial_bits bs ≡ to_bytes 10 0 (frame bs)
serial_frame bs h e =
    let count : (10 * length bs + 7) / 8 ≡ 10 = omega arith in
    let framed : add_bits 0 0 bs ≡ frame bs =
      omega (arith, add_bits-frame bs 0 0 (omega arith) h) in
    add_serial_bits_lem bs ∙ rw (count, framed)

joined_frame :
    (bs : List ℕ) → All IsByte bs → length bs ≡ 8 → join_bytes 0 0 (add_serial_bits bs) ≡ frame bs
joined_frame bs h e =
    let bits : 10 * length bs ≡ 80 = omega arith in
    ap (join_bytes 0 0) (serial_frame bs h e)
    ∙ join_bytes-to_bytes_whole 10 (frame bs) (rw bits at (frame-lt bs h))

module _ (s a r d3 d2 d1 d0 c : ℕ) (h : All IsByte (s ∷ a ∷ r ∷ d3 ∷ d2 ∷ d1 ∷ d0 ∷ c ∷ [])) where
  fields_of_frame :
      let f = frame (s ∷ a ∷ r ∷ d3 ∷ d2 ∷ d1 ∷ d0 ∷ c ∷ []) in
      (f / 2 ^ 31 % 256 ≡ d3)
      × (f / 2 ^ 41 % 256 ≡ d2)
      × (f / 2 ^ 51 % 256 ≡ d1)
      × (f / 2 ^ 61 % 256 ≡ d0)
  unfolding frame
  fields_of_frame = (omega arith, omega arith, omega arith, omega arith)

  reply_value-frame :
      reply_value (frame (s ∷ a ∷ r ∷ d3 ∷ d2 ∷ d1 ∷ d0 ∷ c ∷ []))
      ≡ d3 * 2 ^ 24 + d2 * 2 ^ 16 + d1 * 2 ^ 8 + d0
  unfolding reply_value
  reply_value-frame =
      let (e3, e2, e1, e0) = fields_of_frame in
      let first : bit_or (d3 * 2 ^ 24) (d2 * 2 ^ 16) ≡ (d3 * 256 + d2) * 2 ^ 16 =
        omega (arith, bit_or_fields_high 24 d3 (d2 * 2 ^ 16) (omega arith)) in
      let second : bit_or ((d3 * 256 + d2) * 2 ^ 16) (d1 * 2 ^ 8)
          ≡ (d3 * 65536 + d2 * 256 + d1) * 2 ^ 8 =
        omega (arith, bit_or_fields_high 16 (d3 * 256 + d2) (d1 * 2 ^ 8) (omega arith)) in
      let third = bit_or_fields_high 8 (d3 * 65536 + d2 * 256 + d1) d0 (omega arith) in
      rw (e3, e2, e1, e0, first, second, third) (omega arith)

reply : ℕ → ℕ → List ℕ
reply reg val =
    write_message 0x05 0xff reg val ++ (calc_crc8_atm (write_message 0x05 0xff reg val) ∷ [])

encode_lem : (reg val : ℕ) → encode_uart_write 0x05 0xff reg val ≡ add_serial_bits (reply reg val)
unfolding encode_uart_write reply
encode_lem reg val = refl

module _ (reg val : ℕ) (reg_byte : reg < 256) where
  reply-IsByte : All IsByte (reply reg val)
  unfolding reply write_message
  reply-IsByte = omega (arith, calc_crc8_atm-lt (write_message 0x05 0xff reg val))

  length-reply : length (reply reg val) ≡ 8
  unfolding reply write_message
  length-reply = refl

  length-encode_uart_write : length (encode_uart_write 0x05 0xff reg val) ≡ 10
  length-encode_uart_write =
      ap length (encode_lem reg val ∙ serial_frame (reply reg val) reply-IsByte length-reply)
      ∙ length-to_bytes 10 0 (frame (reply reg val))

  reply_value-reply : val < 2 ^ 32 → reply_value (frame (reply reg val)) ≡ val
  unfolding reply write_message
  reply_value-reply small = reply_value-frame _ _ _ _ _ _ _ _ reply-IsByte ∙ omega arith

  reply_value-encode :
      val < 2 ^ 32 → reply_value (join_bytes 0 0 (encode_uart_write 0x05 0xff reg val)) ≡ val
  reply_value-encode small =
      ap (λ b. reply_value (join_bytes 0 0 b)) (encode_lem reg val)
      ∙ ap reply_value (joined_frame (reply reg val) reply-IsByte length-reply)
      ∙ reply_value-reply small

reply_value-lt : (mval : ℕ) → reply_value mval < 2 ^ 32
unfolding reply_value
reply_value-lt mval =
    let first =
      bit_or-lt 32 (mval / 2 ^ 31 % 256 * 2 ^ 24) (mval / 2 ^ 41 % 256 * 2 ^ 16) (omega arith)
        (omega arith) in
    let second = bit_or-lt 32 _ (mval / 2 ^ 51 % 256 * 2 ^ 8) first (omega arith) in
    bit_or-lt 32 _ (mval / 2 ^ 61 % 256) second (omega arith)

accepts :
    (reg val : ℕ) (received : List ℕ)
    → reg < 256
    → (received ≡ encode_uart_write 0x05 0xff reg val) × (val < 2 ^ 32)
    → decode_uart_read reg received ≡ (val, true)
unfolding decode_uart_read
accepts reg val received h (same, small) =
    let full = length-encode_uart_write reg val h in
    let back = reply_value-encode reg val h small in
    rw (same, full, back, ints_equal_refl (encode_uart_write 0x05 0xff reg val))

rejects :
    (reg val : ℕ) (received : List ℕ)
    → decode_uart_read reg received ≡ (val, true)
    → (received ≡ encode_uart_write 0x05 0xff reg val) × (val < 2 ^ 32)
unfolding decode_uart_read
rejects reg val received h =
    let mval = join_bytes 0 0 received in
    ground (
      arith,
      ints_equal→eq received (encode_uart_write 0x05 0xff reg (reply_value mval)),
      reply_value-lt mval,
    )

-- For a register number that is a byte, `DecodeUARTRead` answers (val, true) exactly when the bytes
-- received are the ten that `EncodeUARTWrite` builds for that register and value, checksum and bit
-- framing included, and the value has 32 bits.
pub decode_uart_read_iff :
    (reg val : ℕ) (received : List ℕ)
    → reg < 256
    → (decode_uart_read reg received ≡ (val, true))
      ↔ ((received ≡ encode_uart_write 0x05 0xff reg val) × (val < 2 ^ 32))
decode_uart_read_iff reg val received h = (rejects reg val received, accepts reg val received h)
