-- ===== src/Msgproto/Format/Wire.antt =====
-- A command from its arguments to a block on the wire and back: `Encode`, `Encode_msgblock`,
-- `Check_packet` and `MessageParser.Parse` together.
use klipper_go.Common.{
  ℕ, ◌+◌, ◌%◌, ◌≤◌, ◌≡◌, refl, ◌∙◌, true, inl, some, List, [], ◌∷◌, ◌++◌, append_assoc, arith,
  length, length-append,
}
use klipper_go.Common.Int.{ℤ, pos}
use klipper_go.Common.Assoc.{insert}
use klipper_go.Msgproto.Vlq.{encode, parse}
use klipper_go.Msgproto.Vlq.Groups.{IsWire}
use klipper_go.Msgproto.Param.{Arg, Value}
use klipper_go.Msgproto.Format.{
  MessageFormat, encode_message, parse_message, finish_parse, parse_packet, parse_known, Registry,
  find_message,
}
use klipper_go.Msgproto.Format.RoundTrip.{
  AllFit, all_bytes, store, parse_int_fits, encode_args_fits, parse_params_fits,
}
use klipper_go.Msgproto.Block.{encode_msgblock, check_packet, block_body}
use klipper_go.Msgproto.Block.Accept.{check_packet-encode_msgblock, length-crc16_ccitt}
use klipper_go.Msgproto.Crc.{crc16_ccitt}

-- What a registered message and its arguments must meet.
pub record IsSendable (registry : Registry) (msgid : ℤ) (m : MessageFormat) (args : List Arg)
    : Type 0 where
  pub wire : IsWire msgid
  pub id_bytes : m.msgid_bytes ≡ encode [] msgid
  pub known : find_message registry msgid ≡ some m
  pub fit : AllFit m.params args
  pub short : length m.msgid_bytes + length (all_bytes m.params args) ≤ 59

pub payload : MessageFormat → List Arg → List ℕ
payload m args = m.msgid_bytes ++ all_bytes m.params args

pub encode_message-fits :
    (m : MessageFormat) (args : List Arg)
    → AllFit m.params args
    → encode_message m args ≡ some (payload m args)
unfolding encode_message payload
encode_message-fits m args h = encode_args_fits m.params args m.msgid_bytes h

module _ (registry : Registry) (msgid : ℤ) (m : MessageFormat) (args : List Arg)
    (ready : IsSendable registry msgid m args) where
  -- The parts of a message behind a header of two elements and before a trailer.
  parse_behind :
      (a b : ℕ) (trailer : List ℕ)
      → parse_message m (a ∷ b ∷ (payload m args ++ trailer)) 2
        ≡ some (store m.params args [], 2 + length (payload m args))
  unfolding parse_message payload
  parse_behind a b trailer =
      let header : List ℕ = a ∷ b ∷ m.msgid_bytes in
      let ih = parse_params_fits m.params args header trailer [] ready.fit in
      let start : 2 + length m.msgid_bytes ≡ length header = omega arith in
      rw
        (
          append_assoc m.msgid_bytes (all_bytes m.params args) trailer,
          start,
          length-append m.msgid_bytes (all_bytes m.params args),
        )
        (ih ∙ ground arith)

  id_behind :
      (a b : ℕ) (trailer : List ℕ)
      → (r : ℕ) × (parse true (a ∷ b ∷ (payload m args ++ trailer)) 2 ≡ some (msgid, r))
  unfolding payload
  id_behind a b trailer = (
    2 + length (encode [] msgid),
    rw (append_assoc m.msgid_bytes (all_bytes m.params args) trailer, ready.id_bytes)
        (parse_int_fits true msgid (a ∷ b ∷ []) (all_bytes m.params args ++ trailer)
          (ready.wire, inl refl)),
  )

  parse_block :
      (a b : ℕ) (trailer : List ℕ)
      → length trailer ≡ 3
      → parse_packet registry (a ∷ b ∷ (payload m args ++ trailer))
        ≡ some (insert "#name" (Value.named m.name) (store m.params args []))
  unfolding parse_packet parse_known finish_parse
  parse_block a b trailer h = ground (
    arith,
    (id_behind a b trailer).1,
    ready.known,
    parse_behind a b trailer,
    length-append (payload m args) trailer,
  )

  -- A sendable command makes the whole trip: `Encode` gives a payload; the block that
  -- `Encode_msgblock` makes of it, at the head of a buffer, passes `Check_packet` with its length;
  -- and `MessageParser.Parse` of the block returns the arguments under the parameters' names, and
  -- the message's name under `#name`. Nothing panics on the way.
  pub parse_packet-encode_msgblock :
      (seq : ℕ) (rest : List ℕ)
      → (cmd : List ℕ) × (encode_message m args ≡ some cmd)
        × (check_packet (encode_msgblock seq cmd ++ rest) ≡ some (pos (5 + length cmd)))
        × (length (encode_msgblock seq cmd) ≡ 5 + length cmd)
        × (parse_packet registry (encode_msgblock seq cmd)
            ≡ some (insert "#name" (Value.named m.name) (store m.params args [])))
  unfolding encode_msgblock block_body
  parse_packet-encode_msgblock seq rest =
      let cmd = payload m args in
      let short : length cmd ≤ 59 =
        unfold payload in
        omega (arith, ready.short, length-append m.msgid_bytes (all_bytes m.params args)) in
      let crc = crc16_ccitt ((5 + length cmd) ∷ (seq % 16 + 16) ∷ cmd) in
      let three : length (crc ++ (0x7e ∷ [])) ≡ 3 = omega (
        arith,
        length-append crc (0x7e ∷ []),
        length-crc16_ccitt ((5 + length cmd) ∷ (seq % 16 + 16) ∷ cmd),
      ) in
      (
        cmd,
        encode_message-fits m args ready.fit,
        check_packet-encode_msgblock seq cmd rest short,
        omega (arith, three, length-append cmd (crc ++ (0x7e ∷ []))),
        parse_block (5 + length cmd) (seq % 16 + 16) (crc ++ (0x7e ∷ [])) three,
      )
