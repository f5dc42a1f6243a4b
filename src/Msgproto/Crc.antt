-- ===== src/Msgproto/Crc.antt =====
-- `Crc16_ccitt` of msgproto.go, on Go's `int`. The numbers stay non-negative, so a mask of low bits
-- is a remainder, and a shift is a product or a quotient.
use Prim.Native.Nat.{bit_xor, bit_or}
use klipper_go.Common.{ℕ, ◌*◌, ◌/◌, ◌%◌, ◌<◌, List, [], ◌∷◌, arith, All}
use klipper_go.Common.Bits.{bit_xor-lt, bit_or-lt}

abbrev pub IsByte : ℕ → Type 0
IsByte b = b < 256

-- `data ^= _crc & 0xff; data ^= (data & 0x0f) << 4`
unfoldable pub crc_mix : ℕ → ℕ → ℕ
crc_mix crc byte = let data' = bit_xor byte (crc % 256) in bit_xor data' (data' % 16 * 16)

-- `((data << 8) | (_crc >> 8)) ^ (data >> 4) ^ (data << 3)`
unfoldable pub crc_fold : ℕ → ℕ → ℕ
crc_fold crc data' = bit_xor (bit_xor (bit_or (data' * 256) (crc / 256)) (data' / 16)) (data' * 8)

-- One round of the loop.
unfoldable pub crc_step : ℕ → ℕ → ℕ
crc_step crc byte = crc_fold crc (crc_mix crc byte)

-- The loop from a given start.
unfoldable pub crc_from : ℕ → List ℕ → ℕ
crc_from crc [] = crc
crc_from crc (b ∷ bs) = crc_from (crc_step crc b) bs

unfoldable pub crc16_ccitt : List ℕ → List ℕ
crc16_ccitt buf = let crc = crc_from 0xffff buf in (crc / 256) ∷ (crc % 256) ∷ []

pub crc_mix-lt : (crc byte : ℕ) → byte < 256 → crc_mix crc byte < 256
unfolding crc_mix
crc_mix-lt crc byte h =
    let first = bit_xor-lt 8 byte (crc % 256) h (omega arith) in
    bit_xor-lt 8 _ _ first (omega arith)

pub crc_fold-lt : (crc data' : ℕ) → crc < 65536 → data' < 256 → crc_fold crc data' < 65536
unfolding crc_fold
crc_fold-lt crc data' hc hd =
    let joined = bit_or-lt 16 (data' * 256) (crc / 256) (omega arith) (omega arith) in
    let high = bit_xor-lt 16 _ (data' / 16) joined (omega arith) in
    bit_xor-lt 16 _ (data' * 8) high (omega arith)

pub crc_from-lt : (crc : ℕ) (bs : List ℕ) → crc < 65536 → All IsByte bs → crc_from crc bs < 65536
unfolding crc_from crc_step
crc_from-lt crc [] hc h = hc
crc_from-lt crc (b ∷ bs) hc h =
    crc_from-lt (crc_step crc b) bs (crc_fold-lt crc (crc_mix crc b) hc (crc_mix-lt crc b h.0)) h.1

-- Over bytes the running value stays a 16-bit number although it is kept in a Go `int`, so both
-- elements of the checksum are bytes.
pub crc16_ccitt-IsByte : (bs : List ℕ) → All IsByte bs → All IsByte (crc16_ccitt bs)
unfolding crc16_ccitt
crc16_ccitt-IsByte bs h = omega (arith, crc_from-lt 0xffff bs (omega arith) h)
