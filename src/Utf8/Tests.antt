-- ===== src/Utf8/Tests.antt =====
-- The theorems on UTF-8 at concrete texts.
use ed.Common.{ℕ, ◌*◌, ◌+◌, ◌≡◌, ◌≢◌, refl, some, List, [], ◌∷◌, arith}
use ed.Utf8.Decode.{Decoded, decode_utf8_char}
use ed.Utf8.Text.{utf8_strlen, is_utf8_str, Status}
use ed.Utf8.Lead.{IsBytes}
use ed.Utf8.Strlen.{Agree, utf8_strlen-agrees}
use ed.Utf8.TwoBytes.{decode-two_bytes}

-- "aé", and a byte that begins no character.
abbrev text : List ℕ
text = b'a' ∷ 0xC3 ∷ 0xA9 ∷ 0xFF ∷ []

text-IsBytes : IsBytes text
text-IsBytes = (omega arith, (omega arith, (omega arith, (omega arith, tt))))

strlen_runs : utf8_strlen text 3 ≡ some (Status.value 2)
unfolding utf8_strlen decode_utf8_char
strlen_runs = refl

utf8_strlen-agrees_example : Agree 3 (utf8_strlen text 3) (is_utf8_str text 3)
utf8_strlen-agrees_example = utf8_strlen-agrees text 3 text-IsBytes

decode-two_bytes_example :
    (decode_utf8_char (0xC3 ∷ 0xA9 ∷ []) 2 ≡ Decoded.code_point 0x329 2) × (3 * 256 + 41 ≢ 0xE9)
decode-two_bytes_example = decode-two_bytes 0xE9 2 [] (omega arith) (omega arith) (omega arith)
