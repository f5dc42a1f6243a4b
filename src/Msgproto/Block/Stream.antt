-- ===== src/Msgproto/Block/Stream.antt =====
-- `Check_packet` on a buffer that is still being filled.
use klipper_go.Common.{
  ℕ, zero, suc, ◌+◌, ◌-◌, ◌*◌, ◌/◌, ◌%◌, ◌≤◌, ◌<◌, ◌≡◌, refl, ◌⊎◌, inl, inr, some, List, [], ◌∷◌,
  ◌++◌, arith, length, Bool-cases, ltb, ◌||◌, not, ◌==◌, get_elem?-lt, take, length-take,
}
use native.Mathlib.Decide.{dec_le}
use klipper_go.Common.Int.{pos, negsuc}
use klipper_go.Msgproto.Crc.{crc16_ccitt}
use klipper_go.Msgproto.Block.{
  block_body, encode_msgblock, check_crc, check_trailer, check_header, check_packet,
}

-- An accepted length or no length: the trailer of a buffer that holds it never panics.
trailer_total :
    (s : List ℕ) (m : ℕ)
    → 5 ≤ m
    → m ≤ length s
    → (check_trailer s m ≡ some (negsuc 0)) ⊎ (check_trailer s m ≡ some (pos m))
unfolding check_trailer check_crc
trailer_total s m lo hi = let (sync, e) = get_elem?-lt s (m - 1) (omega arith) in ground (arith, e)

-- `Check_packet` never indexes or slices out of range, whatever the buffer holds, and its answer is
-- -1, 0, or a length between 5 and 64 that the buffer has.
pub check_packet_total :
    (s : List ℕ)
    → (check_packet s ≡ some (negsuc 0))
      ⊎ (check_packet s ≡ some (pos 0))
      ⊎ ((n : ℕ) × (check_packet s ≡ some (pos n)) × (5 ≤ n) × (n ≤ 64) × (n ≤ length s))
unfolding check_packet check_header
check_packet_total [] = ground arith
check_packet_total (a ∷ []) = ground arith
check_packet_total (a ∷ b ∷ t) = elim (dec_le 5 a) [
  | no low ↦ ground arith
  | yes lo ↦ elim (dec_le a (length t + 2)) [
    | no high ↦ ground arith
    | yes hi ↦ elim (trailer_total (a ∷ b ∷ t) a lo (omega arith)) [
      | inl bad ↦ ground (arith, bad)
      | inr good ↦ elim (Bool-cases (ltb 64 a || not (b / 16 * 16 == 16))) [
        | inl refused ↦ inl (ground arith)
        | inr passed ↦ inr (inr (a, ground (arith, good), lo, ground arith, omega arith))
      ]
    ]
  ]
]

-- While a block is still arriving, any proper part of its front is answered by 0: no byte of a
-- good block is thrown away because the block is incomplete.
pub check_packet_partial :
    (seq : ℕ) (cmd : List ℕ) (k : ℕ)
    → length cmd ≤ 59
    → k < 5 + length cmd
    → check_packet (take k (encode_msgblock seq cmd)) ≡ some (pos 0)
unfolding check_packet check_header encode_msgblock block_body
check_packet_partial seq cmd zero h hk = refl
check_packet_partial seq cmd (suc zero) h hk = refl
check_packet_partial seq cmd (suc (suc k)) h hk = ground (
  arith,
  length-take k (cmd ++ (crc16_ccitt ((5 + length cmd) ∷ (seq % 16 + 16) ∷ cmd) ++ (0x7e ∷ []))),
)
