-- ===== src/Utf8/Text.antt =====
-- src/utf8.c, the loops over `decode_utf8_char`, and what holds of every decoded text.
use ed.Common.{
  ℕ, zero, suc, ◌+◌, ◌-◌, ◌%◌, ◌^◌, ltb, Bool, true, false, Option, none, some, List, drop,
  if◌then◌else◌,
}
use ed.Utf8.Decode.{Decoded, decode_utf8_char}
use ed.Utf8.Width.{is_utf8_ea_wide}

-- A length of type `size_t` as the argument `int len` of `decode_utf8_char`, where a negative one has
-- the effect of 0.
abbrev pub int_len : ℕ → ℕ
int_len len = let n = len % 2 ^ 32 in if ltb n (2 ^ 31) then n else 0

-- The status of the functions that return an `int`.
pub data Status : Type 0 where
  fail : Status
  value : ℕ → Status

-- The `while` of `utf8_strlen`. One round takes a byte at least, so `len + 1` rounds are enough;
-- `none` is a run out of fuel.
unfoldable pub strlen_loop : ℕ → List ℕ → ℕ → ℕ → Option Status
strlen_loop zero t len utf8len = none
strlen_loop (suc fuel) t len utf8len = elim (decode_utf8_char t (int_len len)) [
  | Decoded.eof ↦ some (value utf8len)
  | Decoded.err ↦ some fail
  | Decoded.code_point _ size ↦ strlen_loop fuel (drop size t) (len - size) (utf8len + 1)
]

unfoldable pub utf8_strlen : List ℕ → ℕ → Option Status
unfolding strlen_loop
utf8_strlen s len = strlen_loop (len + 1) s len 0

unfoldable pub utf8_loop : ℕ → List ℕ → ℕ → Option Bool
utf8_loop zero t len = none
utf8_loop (suc fuel) t len = elim (decode_utf8_char t (int_len len)) [
  | Decoded.eof ↦ some true
  | Decoded.err ↦ some false
  | Decoded.code_point _ size ↦ utf8_loop fuel (drop size t) (len - size)
]

unfoldable pub is_utf8_str : List ℕ → ℕ → Option Bool
unfolding utf8_loop
is_utf8_str s len = utf8_loop (len + 1) s len

unfoldable pub utf8_char_size : List ℕ → ℕ → Status
utf8_char_size s len = elim (decode_utf8_char s (int_len len)) [
  | Decoded.eof ↦ value 0
  | Decoded.err ↦ fail
  | Decoded.code_point _ size ↦ value size
]

unfoldable pub utf8_char_display_width : List ℕ → ℕ → Status
utf8_char_display_width s len = elim (decode_utf8_char s (int_len len)) [
  | Decoded.eof ↦ value 0
  | Decoded.err ↦ fail
  | Decoded.code_point cp _ ↦ value (if is_utf8_ea_wide cp then 2 else 1)
]
