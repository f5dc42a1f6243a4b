-- ===== src/Msgproto/Vlq.antt =====
-- The integers of a message: `PT_uint32.Encode` and `PT_uint32.Parse` of msgproto.go, which the
-- types of 8, 16 and 32 bits share. `Parse` reads `s[pos]` and on, so the slice is given from there.
pub mod RoundTrip
pub mod Groups
use klipper_go.Common.{
  ℕ, ◌+◌, ◌-◌, ◌*◌, ◌/◌, ◌%◌, ◌^◌, Bool, true, false, ◌||◌, not, Option, none, some, List, [], ◌∷◌,
  ◌++◌, ltb, ◌==◌, if◌then◌else◌, length, drop,
}
use klipper_go.Common.Int.{ℤ, pos, negsuc, ltb_ℤ, shr_ℤ, mask_ℤ, wrap_i64}

-- `v >= high || v < -low`, for `low` at least 1.
abbrev pub outside : ℕ → ℕ → ℤ → Bool
outside high low v = not (ltb_ℤ v (pos high)) || ltb_ℤ v (negsuc (low - 1))

-- `(v >> k) & 0x7f | 0x80`
abbrev pub group : ℕ → ℤ → ℕ
group k v = mask_ℤ 7 (shr_ℤ k v) + 128

-- One of the four tests of `Encode`, with the append under it.
unfoldable pub encode_group : ℕ → ℕ → ℕ → ℤ → List ℕ → List ℕ
encode_group high low k v out = if outside high low v then out ++ (group k v ∷ []) else out

unfoldable pub encode : List ℕ → ℤ → List ℕ
unfolding encode_group
encode out v =
    let out' = encode_group 0xc000000 0x4000000 28 v out in
    let out' = encode_group 0x180000 0x80000 21 v out' in
    let out' = encode_group 0x3000 0x1000 14 v out' in
    let out' = encode_group 0x60 0x20 7 v out' in out' ++ (mask_ℤ 7 v ∷ [])

-- `v = c & 0x7f; if (c & 0x60) == 0x60 { v |= -0x20 }`
unfoldable pub first_value : ℕ → ℤ
first_value c = if c % 128 / 32 == 3 then negsuc (31 - c % 32) else pos (c % 128)

-- `(v << 7) | (c & 0x7f)` on int64.
unfoldable pub next_value : ℤ → ℕ → ℤ
next_value (pos n) c = wrap_i64 (pos (n * 128 + c % 128))
next_value (negsuc n) c = wrap_i64 (negsuc (n * 128 + (127 - c % 128)))

-- The loop: `c` is the byte read last, and the list what follows it.
unfoldable pub parse_loop : List ℕ → ℕ → ℤ → ℕ → Option (ℤ × ℕ)
parse_loop [] c v at = if c / 128 % 2 == 1 then none else some (v, at)
parse_loop (d ∷ ds) c v at =
    if c / 128 % 2 == 1 then parse_loop ds d (next_value v d) (at + 1) else some (v, at)

-- `if !self.Signed { v = v & 0xffffffff }`
unfoldable pub finish : Bool → ℤ → ℤ
finish true v = v
finish false v = pos (mask_ℤ 32 v)

unfoldable pub parse_at : Bool → List ℕ → ℕ → Option (ℤ × ℕ)
parse_at signed [] at = none
parse_at signed (c ∷ cs) at = elim (parse_loop cs c (first_value c) (at + 1)) [
  | none ↦ none
  | some (v, after) ↦ some (finish signed v, after)
]

unfoldable pub parse : Bool → List ℕ → ℕ → Option (ℤ × ℕ)
parse signed s at = parse_at signed (drop at s) at
