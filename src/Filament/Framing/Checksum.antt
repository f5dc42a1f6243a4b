-- ===== src/Filament/Framing/Checksum.antt =====
-- The checksum of the filament changer is that of the micro-controller protocol.
use Prim.Native.Nat.{bit_xor}
use klipper_go.Common.{ℕ, ◌*◌, ◌/◌, ◌%◌, ◌<◌, ◌≡◌, refl, List, [], ◌∷◌, All, arith}
use klipper_go.Msgproto.Crc.{
  IsByte, crc_mix, crc_fold, crc_step, crc_from, crc16_ccitt, crc_mix-lt, crc_from-lt,
}
use klipper_go.Filament.Framing.{calc_step, calc_from, calc_crc}

step_same : (crc byte : ℕ) → byte < 256 → calc_step crc byte ≡ crc_step crc byte
unfolding calc_step crc_step crc_mix crc_fold
step_same crc byte h =
    let shifted : bit_xor byte (crc % 256) % 16 * 16 % 65536 ≡ bit_xor byte (crc % 256) % 16 * 16 =
      omega arith in
    let small = crc_mix-lt crc byte h in
    let high : crc_mix crc byte * 256 % 65536 ≡ crc_mix crc byte * 256 = omega (arith, small) in
    let third : crc_mix crc byte * 8 % 65536 ≡ crc_mix crc byte * 8 = omega (arith, small) in
    rw (shifted, high, third) refl

from_same : (crc : ℕ) (bs : List ℕ) → All IsByte bs → calc_from crc bs ≡ crc_from crc bs
unfolding calc_from crc_from
from_same crc [] h = refl
from_same crc (b ∷ bs) h = rw (step_same crc b h.0) (from_same (crc_step crc b) bs h.1)

pub calc_crc-lt : (bs : List ℕ) → All IsByte bs → calc_crc bs < 65536
unfolding calc_crc
calc_crc-lt bs h = rw (from_same 0xffff bs h) (crc_from-lt 0xffff bs (omega arith) h)

-- On any bytes the changer's checksum, computed in uint16, and the checksum of the micro-controller
-- protocol, computed in a Go `int`, are the same, high byte first in the latter.
pub calc_crc_matches :
    (bs : List ℕ) → All IsByte bs → crc16_ccitt bs ≡ (calc_crc bs / 256) ∷ (calc_crc bs % 256) ∷ []
unfolding calc_crc crc16_ccitt
calc_crc_matches bs h = rw (from_same 0xffff bs h) refl
