-- ===== src/Tmc/Spi.antt =====
-- The commands of a chain of SPI drivers: `BuildSPIChainCommand` and `DecodeSPIChainResponse` of
-- transport_codecs.go. A chip's place counts from 1; a response is given by its bytes. A negative
-- count of Go's loops runs no turn, as the subtraction that stops at 0 does.
pub mod Slots
use Prim.Native.Nat.{bit_or}
use klipper_go.Common.{
  ℕ, ◌+◌, ◌-◌, ◌*◌, ◌^◌, ◌&&◌, Option, none, some, List, [], ◌∷◌, ◌++◌, leb, if◌then◌else◌, ◌>>=◌,
  length, take, drop, replicate, get_elem?,
}

unfoldable pub build_spi_chain_command : List ℕ → ℕ → ℕ → List ℕ
build_spi_chain_command words chain_len chain_pos =
    replicate ((chain_len - chain_pos) * 5) 0 ++ (words ++ replicate ((chain_pos - 1) * 5) 0)

-- `pr[(chainLen-chainPos)*5 : (chainLen-chainPos+1)*5]`; out of range it panics.
unfoldable pub chip_slot : List ℕ → ℕ → ℕ → Option (List ℕ)
chip_slot response chain_len chain_pos =
    let from = (chain_len - chain_pos) * 5 in
    if leb chain_pos chain_len && leb (from + 5) (length response)
    then some (take 5 (drop from response))
    else none

unfoldable pub word_of : List ℕ → Option ℕ
word_of pr = do
  a ← get_elem? pr 1
  b ← get_elem? pr 2
  c ← get_elem? pr 3
  d ← get_elem? pr 4
  some (bit_or (bit_or (bit_or (a * 2 ^ 24) (b * 2 ^ 16)) (c * 2 ^ 8)) d)

unfoldable pub decode_spi_chain_response : List ℕ → ℕ → ℕ → Option ℕ
unfolding chip_slot word_of
decode_spi_chain_response response chain_len chain_pos =
    chip_slot response chain_len chain_pos >>= λ pr. word_of pr
