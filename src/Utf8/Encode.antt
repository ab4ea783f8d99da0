-- ===== src/Utf8/Encode.antt =====
-- src/utf8.c, `encode_utf8_char`.
use Prim.Native.Nat.{bit_and, bit_or}
use ed.Common.{
  ℕ, ◌-◌, ◌/◌, ◌%◌, ◌^◌, Option, none, some, ◌&&◌, ◌||◌, List, [], ◌∷◌, leb, ◌==◌, if◌then◌else◌,
}
use ed.Utf8.Decode.{utf8_byte_mask, shl}

-- `~mask << k` of an `int`, as the unsigned number that it is turned into by `cp & …`
abbrev pub not_mask : ℕ → ℕ → ℕ
not_mask mask k = shl (0xFFFF_FFFF - mask) k % 2 ^ 32

-- `(cp & m) >> k`
abbrev pub field : ℕ → ℕ → ℕ → ℕ
field cp m k = bit_and cp m / 2 ^ k

-- what is stored by `*t++ = mask | v`
abbrev pub stored : ℕ → ℕ → ℕ
stored mask v = bit_or mask v % 256

-- `none` is the status ERR; otherwise the bytes written, whose number is `*len`.
unfoldable pub encode_utf8_char : ℕ → Option (List ℕ)
encode_utf8_char cp =
    if leb cp 0x7F
    then some (cp ∷ [])
    else if leb cp 0x7FF
    then some (
        stored (utf8_byte_mask 1) (field cp (shl (utf8_byte_mask 4) 3) 6)
        ∷ stored (utf8_byte_mask 0) (bit_and cp (not_mask (utf8_byte_mask 1) 0))
        ∷ [])
    else if leb cp 0xFFFF
    then (if (leb 0xDC80 cp && leb cp 0xDCFF) || (cp == 0xFFFE) || (cp == 0xFFFF)
        then none
        else some (
            stored (utf8_byte_mask 1) (field cp (shl (utf8_byte_mask 3) 8) 12)
            ∷ stored (utf8_byte_mask 0) (field cp (not_mask (utf8_byte_mask 1) 6) 6)
            ∷ stored (utf8_byte_mask 0) (bit_and cp (not_mask (utf8_byte_mask 1) 0))
            ∷ []))
    else if leb cp 0x10FFFF
    then some (
        stored (utf8_byte_mask 1) (field cp (shl (utf8_byte_mask 2) 13) 18)
        ∷ stored (utf8_byte_mask 0) (field cp (not_mask (utf8_byte_mask 1) 12) 12)
        ∷ stored (utf8_byte_mask 0) (field cp (not_mask (utf8_byte_mask 1) 6) 6)
        ∷ stored (utf8_byte_mask 0) (bit_and cp (not_mask (utf8_byte_mask 1) 0))
        ∷ [])
    else none
