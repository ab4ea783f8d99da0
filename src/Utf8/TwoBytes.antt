-- ===== src/Utf8/TwoBytes.antt =====
-- The code points from U+0080 to U+07FF through `encode_utf8_char` and `decode_utf8_char`
-- (src/utf8.c).
use Prim.Native.Nat.{bit_and}
use ed.Common.{
  ℕ, ◌+◌, ◌*◌, ◌/◌, ◌%◌, ◌≤◌, ◌<◌, ◌≡◌, ◌≢◌, refl, Bool, true, false, ◌&&◌, ◌||◌, Option, some,
  List, [], ◌∷◌, ◌++◌, arith, leb, ◌==◌,
}
use ed.Common.Bits.{all_below, all_below_sound}
use ed.Utf8.Bytes.{masked, bit_or-join}
use ed.Utf8.Decode.{Decoded, continuation_loop, decode_multibyte, decode_utf8_char}
use ed.Utf8.Encode.{encode_utf8_char}
use ed.Utf8.Lead.{lead_bytes-class_of, class_of, is_continuation_lem}

-- The two bytes of RFC 3629.
abbrev pub two_bytes : ℕ → List ℕ
two_bytes cp = (0xC0 + cp / 64) ∷ (0x80 + cp % 64) ∷ []

same_two : Option (List ℕ) → ℕ → ℕ → Bool
same_two (some (a ∷ b ∷ [])) c d = (a == c) && (b == d)
same_two _ c d = false

same_two_sound : (o : Option (List ℕ)) (c d : ℕ) → same_two o c d ≡ true → o ≡ some (c ∷ d ∷ [])
unfolding same_two
same_two_sound (some (a ∷ b ∷ [])) c d h = ground arith
same_two_sound (some []) c d h = cc
same_two_sound (some (a ∷ [])) c d h = cc
same_two_sound (some (a ∷ b ∷ e ∷ r)) c d h = cc
same_two_sound _ c d h = cc

two_table :
    all_below 0x800
      (λ cp. leb cp 0x7F || same_two (encode_utf8_char cp) (0xC0 + cp / 64) (0x80 + cp % 64))
    ≡ true
unfolding all_below same_two encode_utf8_char
two_table = refl

-- `encode_utf8_char` writes the two bytes of RFC 3629 for a code point from U+0080 to U+07FF.
pub encode-two_bytes : (cp : ℕ) → 0x80 ≤ cp → cp < 0x800 → encode_utf8_char cp ≡ some (two_bytes cp)
encode-two_bytes cp lo hi = ground (
  arith,
  same_two_sound (encode_utf8_char cp) (0xC0 + cp / 64) (0x80 + cp % 64),
  all_below_sound 0x800
      (λ cp. leb cp 0x7F || same_two (encode_utf8_char cp) (0xC0 + cp / 64) (0x80 + cp % 64)) cp
      two_table hi,
)

low_bits : (b : ℕ) → b < 64 → bit_and (0x80 + b) 0x3F ≡ b
low_bits b h = omega (arith, (masked (0x80 + b) (omega arith)).low6)

lead_bits : (a : ℕ) → a < 32 → bit_and (0xC0 + a) 0x1F ≡ a
lead_bits a h = omega (arith, (masked (0xC0 + a) (omega arith)).low5)

continuation-two :
    (a b : ℕ) (rest : List ℕ)
    → 2 ≤ a
    → a < 32
    → b < 64
    → continuation_loop 1 2 ((0x80 + b) ∷ rest) (bit_and (0xC0 + a) 0x1F * 256)
      ≡ Decoded.code_point (a * 256 + b) 2
unfolding continuation_loop
continuation-two a b rest l h k =
    rw (is_continuation_lem b k, low_bits b k, lead_bits a h) (ground (arith, bit_or-join a b h k))

decode-two :
    (a b len : ℕ) (rest : List ℕ)
    → 2 ≤ a
    → a < 32
    → b < 64
    → 2 ≤ len
    → decode_utf8_char ((0xC0 + a) ∷ (0x80 + b) ∷ rest) len ≡ Decoded.code_point (a * 256 + b) 2
unfolding decode_utf8_char decode_multibyte class_of
decode-two a b len rest l h k m =
    rw (lead_bytes-class_of (0xC0 + a) (omega arith) (omega arith))
      (ground (arith, continuation-two a b rest l h k))

-- On the two bytes of a code point from U+0080 to U+07FF, `decode_utf8_char` takes both bytes and
-- returns a code point that is shifted by eight binary digits, where the encoding has six: it
-- is never the one encoded.
pub decode-two_bytes :
    (cp len : ℕ) (rest : List ℕ)
    → 0x80 ≤ cp
    → cp < 0x800
    → 2 ≤ len
    → (decode_utf8_char (two_bytes cp ++ rest) len ≡ Decoded.code_point (cp / 64 * 256 + cp % 64) 2)
      × (cp / 64 * 256 + cp % 64 ≢ cp)
decode-two_bytes cp len rest lo hi m = (
  decode-two (cp / 64) (cp % 64) len rest (omega arith) (omega arith) (omega arith) m,
  omega arith,
)
