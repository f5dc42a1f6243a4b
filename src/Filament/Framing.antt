-- ===== src/Filament/Framing.antt =====
-- `CalcCRC` of ace_crc.go, the frame that `sendRequestV1` writes, and the part of `Reader` of
-- ace_commun.go that finds frames in what the serial line brings. Reading from the device, the
-- timeout, protobuf, JSON and the callbacks are not here.
pub mod Checksum
pub mod Resync
use klipper_go.Common.{
  ℕ, ◌+◌, ◌-◌, ◌*◌, ◌/◌, ◌%◌, Bool, true, false, not, ◌&&◌, Option, none, some, List, [], ◌∷◌, ◌++◌,
  length, get_elem?, take, drop, ltb, leb, ◌==◌, if◌then◌else◌,
}
use Prim.Native.Nat.{bit_xor, bit_or}

-- One round of `CalcCRC` on uint16 values, each shift to the left cut to 16 bits.
unfoldable pub calc_step : ℕ → ℕ → ℕ
calc_step crc byte =
    let data1 = bit_xor byte (crc % 256) in
    let data2 = bit_xor data1 (data1 % 16 * 16 % 65536) in
    bit_xor (bit_xor (bit_or (data2 * 256 % 65536) (crc / 256)) (data2 / 16)) (data2 * 8 % 65536)

unfoldable pub calc_from : ℕ → List ℕ → ℕ
calc_from crc [] = crc
calc_from crc (b ∷ bs) = calc_from (calc_step crc b) bs

unfoldable pub calc_crc : List ℕ → ℕ
unfolding calc_from
calc_crc buf = calc_from 0xffff buf

-- The bytes that `sendRequestV1` writes for a JSON text: the two low bytes of the size stand in front.
unfoldable pub frame : List ℕ → List ℕ
unfolding calc_crc
frame payload =
    let size = length payload in
    0xff
    ∷ 0xaa
    ∷ (size % 256)
    ∷ (size / 256 % 256)
    ∷ (payload ++ ((calc_crc payload % 256) ∷ (calc_crc payload / 256 % 256) ∷ 0xfe ∷ []))

-- An element of the buffer where a guard has made sure that it exists.
abbrev pub at : List ℕ → ℕ → ℕ
at bs i = elim (get_elem? bs i) [ none ↦ 0 | some b ↦ b ]

-- `payload_len`
abbrev pub payload_len : List ℕ → ℕ
payload_len bs = bit_or (at bs 2) (at bs 3 * 256)

-- The loop of `Reader`: the frame it finds, empty when there is none, and the buffer it leaves.
unfoldable pub take_frame : List ℕ → List ℕ × List ℕ
take_frame [] = ([], [])
take_frame (b ∷ bs) =
    let skipped = take_frame bs in
    if ltb (length (b ∷ bs)) 7
    then ([], b ∷ bs)
    else if not (b == 0xff && at bs 0 == 0xaa)
    then skipped
    else if ltb 4096 (payload_len (b ∷ bs) + 7)
    then skipped
    else if leb (payload_len (b ∷ bs) + 7) (length (b ∷ bs))
    then (take (payload_len (b ∷ bs) + 7) (b ∷ bs), drop (payload_len (b ∷ bs) + 7) (b ∷ bs))
    else ([], b ∷ bs)

pub data Outcome : Type 0 where
  nothing bad_end bad_crc : Outcome
  payload : List ℕ → Outcome

-- What `Reader` does with the frame it has found. Its length test can not fail here.
unfoldable pub check_frame : List ℕ → Outcome
unfolding calc_crc
check_frame [] = nothing
check_frame (b ∷ bs) =
    let buffer = b ∷ bs in
    let len = payload_len buffer in
    let body = take len (drop 4 buffer) in
    if not (at buffer (length buffer - 1) == 0xfe)
    then bad_end
    else if not (at buffer (4 + len) + at buffer (5 + len) * 256 == calc_crc body)
    then bad_crc
    else payload body

-- The buffer after a reading, and what came of it.
unfoldable pub read_frame : List ℕ → List ℕ × Outcome
unfolding take_frame check_frame
read_frame buffer = let (found, left) = take_frame buffer in (left, check_frame found)
