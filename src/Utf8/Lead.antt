-- ===== src/Utf8/Lead.antt =====
-- What `decode_utf8_char` (src/utf8.c) accepts.
use ed.Common.{
  ℕ, zero, suc, ◌+◌, ◌-◌, ◌≤◌, ◌<◌, ◌≡◌, refl, true, inl, inr, List, [], ◌∷◌, arith, drop, ltb,
  if◌then◌else◌, Bool-cases,
}
use ed.Utf8.Bytes.{masked}
use ed.Utf8.Decode.{
  Decoded, Lead, lead_bytes, is_continuation, continuation_loop, decode_multibyte, decode_utf8_char,
}

-- The classes of leading bytes, by ranges.
unfoldable pub class_of : ℕ → Lead
class_of t =
    if ltb t 0xC2
    then Lead.refused
    else if ltb t 0xE0
    then Lead.announces 2
    else if ltb t 0xF0
    then Lead.announces 3
    else if ltb t 0xF6
    then Lead.announces 4
    else Lead.refused

-- A byte from 0x80 on announces two bytes from 0xC2 to 0xDF, three from 0xE0 to 0xEF, four from
-- 0xF0 to 0xF5, and is refused otherwise.
pub lead_bytes-class_of : (t : ℕ) → 0x80 ≤ t → t < 256 → lead_bytes t ≡ class_of t
unfolding lead_bytes class_of
lead_bytes-class_of t lo hi = ground (arith, masked t hi)

pub is_continuation_lem : (b : ℕ) → b < 64 → is_continuation (0x80 + b) ≡ true
unfolding is_continuation
is_continuation_lem b h = ground (arith, masked (0x80 + b) (omega arith))

-- The result lies within the text: one to four bytes are taken, and no more than there are.
pub continuation_loop-size :
    (n size : ℕ) (t : List ℕ) (cp : ℕ) {cp' size' : ℕ}
    → continuation_loop n size t cp ≡ Decoded.code_point cp' size'
    → size' ≡ size
unfolding continuation_loop
continuation_loop-size zero size t cp h = ground arith
continuation_loop-size (suc n) size [] cp h = cc
continuation_loop-size (suc n) size (b ∷ t) cp h = elim (Bool-cases (is_continuation b)) [
  | inl e ↦ continuation_loop-size n size t _ (rw e at h)
  | inr e ↦ absurd (ground arith)
]

abbrev pub SizeWithin : ℕ → Decoded → Type 0
SizeWithin len (Decoded.code_point cp size) = (0 < size) × (size ≤ len) × (size ≤ 4)
SizeWithin len Decoded.eof = len ≡ 0
SizeWithin len Decoded.err = 0 < len

continuation_loop-SizeWithin :
    (n size len : ℕ) (t : List ℕ) (cp : ℕ)
    → 0 < size
    → size ≤ len
    → size ≤ 4
    → SizeWithin len (continuation_loop n size t cp)
unfolding continuation_loop
continuation_loop-SizeWithin zero size len t cp p q r = ground arith
continuation_loop-SizeWithin (suc n) size len [] cp p q r = omega arith
continuation_loop-SizeWithin (suc n) size len (b ∷ t) cp p q r =
    elim (Bool-cases (is_continuation b)) [
      | inl e ↦ rw e (continuation_loop-SizeWithin n size len t _ p q r)
      | inr e ↦ rw e (omega arith)
    ]

decode_multibyte-SizeWithin :
    (t : ℕ) (s : List ℕ) (len : ℕ)
    → 0 < len
    → 0x80 ≤ t
    → t < 256
    → SizeWithin len (decode_multibyte t s len (lead_bytes t))
unfolding decode_multibyte class_of
decode_multibyte-SizeWithin t s len p lo hi =
    rw (lead_bytes-class_of t lo hi) (ground (arith, continuation_loop-SizeWithin (2 - 1) 2 len s))

-- Every element of the text is a byte.
abbrev pub IsBytes : List ℕ → Type 0
IsBytes [] = Unit
IsBytes (t ∷ s) = (t < 256) × IsBytes s

pub IsBytes-drop : (n : ℕ) (s : List ℕ) → IsBytes s → IsBytes (drop n s)
IsBytes-drop zero s h = h
IsBytes-drop (suc n) [] h = h
IsBytes-drop (suc n) (t ∷ s) h = IsBytes-drop n s h.1

-- On a text of bytes `decode_utf8_char` returns EOF only where none is left, and ERR only where
-- one is left; a character takes one to four bytes, and no more than there are.
pub decode_utf8_char-SizeWithin :
    (s : List ℕ) (len : ℕ) → IsBytes s → SizeWithin len (decode_utf8_char s len)
unfolding decode_utf8_char
decode_utf8_char-SizeWithin [] zero h = refl
decode_utf8_char-SizeWithin [] (suc len) h = omega arith
decode_utf8_char-SizeWithin (t ∷ s) len h = ground (arith, decode_multibyte-SizeWithin t s len)
