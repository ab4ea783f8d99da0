-- ===== src/Utf8/Decode.antt =====
-- src/utf8.c, `decode_utf8_char`.
use Prim.Native.Nat.{bit_and, bit_or}
use ed.Common.{
  ℕ, zero, suc, ◌-◌, ◌*◌, ◌^◌, Bool, ◌&&◌, ◌||◌, List, [], ◌∷◌, ltb, leb, ◌==◌, if◌then◌else◌,
  get_or,
}

-- `size` is the number of bytes by which `*s` advances; on `eof` and `err` it stays.
pub data Decoded : Type 0 where
  eof err : Decoded
  code_point : (cp size : ℕ) → Decoded

abbrev pub utf8_byte_mask : ℕ → ℕ
utf8_byte_mask i = get_or (0x80 ∷ 0xC0 ∷ 0xE0 ∷ 0xF0 ∷ 0xF8 ∷ []) i 0

abbrev pub utf8_cp_offset : ℕ → ℕ
utf8_cp_offset i = get_or (0 ∷ 8 ∷ 16 ∷ 24 ∷ []) i 0

-- `*t & ~mask` at a byte `*t`
abbrev pub and_not : ℕ → ℕ → ℕ
and_not t mask = bit_and t (0xFF - mask)

-- `x << k` of an `int` that stays in range
abbrev pub shl : ℕ → ℕ → ℕ
shl x k = x * 2 ^ k

-- The length of the sequence that the leading byte announces, or none where it is refused.
pub data Lead : Type 0 where
  refused : Lead
  announces : ℕ → Lead

unfoldable pub lead_bytes : ℕ → Lead
lead_bytes t =
    if bit_and t (utf8_byte_mask 1) == utf8_byte_mask 0
    then refused
    else if bit_and t (utf8_byte_mask 2) == utf8_byte_mask 1
    then (if leb (and_not t (utf8_byte_mask 2)) 1 then refused else announces 2)
    else if bit_and t (utf8_byte_mask 3) == utf8_byte_mask 2
    then announces 3
    else if bit_and t (utf8_byte_mask 4) == utf8_byte_mask 3
    then (if ltb 5 (and_not t (utf8_byte_mask 4)) then refused else announces 4)
    else refused

unfoldable pub is_continuation : ℕ → Bool
is_continuation t = bit_and t (utf8_byte_mask 1) == utf8_byte_mask 0

-- The `while (--bytes > 0)` loop: `n` continuation bytes are left, the text begins at `t`.
-- `size` is `bytes`, the length of the whole sequence.
unfoldable pub continuation_loop : ℕ → ℕ → List ℕ → ℕ → Decoded
unfolding is_continuation
continuation_loop zero size t cp =
    if (cp == 0xFFFE) || (cp == 0xFFFF) || (leb 0xDC80 cp && leb cp 0xDCFF)
    then err
    else code_point cp size
continuation_loop (suc n) size [] cp = err
continuation_loop (suc n) size (b ∷ t) cp =
    let rest =
      continuation_loop n size t
        (bit_or cp (shl (and_not b (utf8_byte_mask 1)) (utf8_cp_offset n))) in
    if is_continuation b then rest else err

unfoldable pub decode_multibyte : ℕ → List ℕ → ℕ → Lead → Decoded
unfolding continuation_loop
decode_multibyte t s len refused = err
decode_multibyte t s len (announces bytes) =
    if ltb len bytes
    then err
    else continuation_loop (bytes - 1) bytes s
        (shl (and_not t (utf8_byte_mask bytes)) (utf8_cp_offset (bytes - 1)))

unfoldable pub decode_utf8_char : List ℕ → ℕ → Decoded
unfolding decode_multibyte lead_bytes
decode_utf8_char [] zero = eof
decode_utf8_char [] (suc len) = code_point 0 1
decode_utf8_char (t ∷ s) len =
    if ltb len 1
    then eof
    else if leb t 0x7F
    then code_point t 1
    else decode_multibyte t s len (lead_bytes t)
