-- ===== src/Msgproto/Block.antt =====
-- Message blocks: `Encode_msgblock` and `Check_packet` of msgproto.go. The Go slice is a list; an
-- index or a slice out of range panics, which is `none`.
pub mod Accept
pub mod Stream
use klipper_go.Common.{
  ℕ, ◌+◌, ◌-◌, ◌*◌, ◌/◌, ◌%◌, Bool, true, false, ◌&&◌, ◌||◌, not, Option, none, some, List, [], ◌∷◌,
  ◌++◌, ltb, leb, ◌==◌, if◌then◌else◌, ◌>>=◌, length, get_elem?, take, drop,
}
use klipper_go.Common.Int.{ℤ, pos, negsuc}
use klipper_go.Msgproto.Crc.{crc16_ccitt}

-- `reflect.DeepEqual` on two slices of `int`.
abbrev pub ints_equal : List ℕ → List ℕ → Bool
ints_equal [] [] = true
ints_equal [] (b ∷ bs) = false
ints_equal (a ∷ as') [] = false
ints_equal (a ∷ as') (b ∷ bs) = (a == b) && ints_equal as' bs

-- `s[from:to]`
abbrev pub slice : List ℕ → ℕ → ℕ → Option (List ℕ)
slice s from to =
    if leb from to && leb to (length s) then some (take (to - from) (drop from s)) else none

-- The fields that the checksum covers: length, sequence and payload. The sequence byte is
-- `(seq & 0x0f) | 0x10`; the two masks have no bit in common.
unfoldable pub block_body : ℕ → List ℕ → List ℕ
block_body seq cmd = (5 + length cmd) ∷ (seq % 16 + 16) ∷ cmd

unfoldable pub encode_msgblock : ℕ → List ℕ → List ℕ
encode_msgblock seq cmd = let out = block_body seq cmd in out ++ (crc16_ccitt out ++ (0x7e ∷ []))

-- The comparison of the checksums, and the result.
unfoldable pub check_crc : List ℕ → ℕ → List ℕ → ℤ
check_crc s msglen msgcrc =
    if not (ints_equal (crc16_ccitt (take (msglen - 3) s)) msgcrc) then negsuc 0 else pos msglen

-- From `s[msglen-MESSAGE_TRAILER_SYNC]` to the end.
unfoldable pub check_trailer : List ℕ → ℕ → Option ℤ
check_trailer s msglen = do
  sync ← get_elem? s (msglen - 1)
  if not (sync == 0x7e)
      then some (negsuc 0)
      else slice s (msglen - 3) (msglen - 3 + 2) >>= λ msgcrc. some (check_crc s msglen msgcrc)

-- From `s[MESSAGE_POS_SEQ]` to the test for more data.
unfoldable pub check_header : List ℕ → ℕ → Option ℤ
check_header s msglen = do
  msgseq ← get_elem? s 1
  if not (msgseq / 16 * 16 == 16)
      then some (negsuc 0)
      else if ltb (length s) msglen
      then some (pos 0)
      else check_trailer s msglen

-- -1 for garbage, 0 for "need more data", else the length of the block at the head of `s`.
unfoldable pub check_packet : List ℕ → Option ℤ
check_packet s =
    if ltb (length s) 5
    then some (pos 0)
    else get_elem? s 0 >>= λ msglen.
        if ltb msglen 5 || ltb 64 msglen then some (negsuc 0) else check_header s msglen
