-- ===== src/Utf8/Strlen.antt =====
-- The loops of src/utf8.c end, and agree with one another.
use ed.Common.{
  ℕ, zero, suc, ◌+◌, ◌-◌, ◌≤◌, ◌<◌, Bool, true, false, Option, none, some, List, arith, drop,
}
use ed.Utf8.Decode.{Decoded, decode_utf8_char}
use ed.Utf8.Lead.{IsBytes, IsBytes-drop, SizeWithin, decode_utf8_char-SizeWithin}
use ed.Utf8.Text.{int_len, Status, fail, value, strlen_loop, utf8_strlen, utf8_loop, is_utf8_str}

-- What `utf8_strlen` and `is_utf8_str` return on one text: a count, of at most a character for
-- each byte, and `true`; or ERR and `false`.
abbrev pub Agree : ℕ → Option Status → Option Bool → Type 0
Agree most (some (value n)) (some true) = n ≤ most
Agree most (some fail) (some false) = Unit
Agree most _ _ = ⊥

Agree-mono : (a b : ℕ) (x : Option Status) (y : Option Bool) → a ≤ b → Agree a x y → Agree b x y
Agree-mono a b (some (value n)) (some true) h g = omega arith
Agree-mono a b (some fail) (some false) h g = tt
Agree-mono a b (some (value n)) (some false) h g = g
Agree-mono a b (some fail) (some true) h g = g
Agree-mono a b none y h g = g
Agree-mono a b (some (value n)) none h g = g
Agree-mono a b (some fail) none h g = g

-- A character that is decoded lies in the text.
abbrev Taken : ℕ → Decoded → Type 0
Taken len (Decoded.code_point cp size) = (0 < size) × (size ≤ len)
Taken len _ = Unit

SizeWithin-Taken : (len : ℕ) (d : Decoded) → SizeWithin (int_len len) d → Taken len d
SizeWithin-Taken len Decoded.eof w = tt
SizeWithin-Taken len Decoded.err w = tt
SizeWithin-Taken len (Decoded.code_point cp size) w = ground (arith, w)

-- One round: the cases of the decoded character.
round-Agree :
    (fuel : ℕ) (t : List ℕ) (len n : ℕ) (d : Decoded)
    → Taken len d
    → ((size : ℕ)
        → 0 < size
        → size ≤ len
        → Agree
            (n + len)
            (strlen_loop fuel (drop size t) (len - size) (n + 1))
            (utf8_loop fuel (drop size t) (len - size)))
    → Agree
        (n + len)
        (elim d [
          | Decoded.eof ↦ some (value n)
          | Decoded.err ↦ some fail
          | Decoded.code_point _ size ↦ strlen_loop fuel (drop size t) (len - size) (n + 1)
        ])
        (elim d [
          | Decoded.eof ↦ some true
          | Decoded.err ↦ some false
          | Decoded.code_point _ size ↦ utf8_loop fuel (drop size t) (len - size)
        ])
round-Agree fuel t len n Decoded.eof w ih = omega arith
round-Agree fuel t len n Decoded.err w ih = tt
round-Agree fuel t len n (Decoded.code_point cp size) w ih = ih size w.0 w.1

loops-Agree :
    (fuel : ℕ) (t : List ℕ) (len n : ℕ)
    → IsBytes t
    → len < fuel
    → Agree (n + len) (strlen_loop fuel t len n) (utf8_loop fuel t len)
unfolding strlen_loop utf8_loop
loops-Agree zero t len n b h = absurd (omega arith)
loops-Agree (suc fuel) t len n b h =
    round-Agree fuel t len n (decode_utf8_char t (int_len len))
      (SizeWithin-Taken len _ (decode_utf8_char-SizeWithin t (int_len len) b))
      λ size p q.
        Agree-mono (n + 1 + (len - size)) (n + len) _ _ (omega arith) (
          loops-Agree fuel (drop size t) (len - size) (n + 1) (IsBytes-drop size t b) (omega arith))

-- On a text of bytes both loops return, within the fuel that they are given: either
-- `is_utf8_str` is true and `utf8_strlen` is a count of at most one character for each byte, or
-- `is_utf8_str` is false and `utf8_strlen` is ERR.
pub utf8_strlen-agrees :
    (s : List ℕ) (len : ℕ) → IsBytes s → Agree len (utf8_strlen s len) (is_utf8_str s len)
unfolding utf8_strlen is_utf8_str
utf8_strlen-agrees s len b =
    Agree-mono (0 + len) len _ _ (omega arith) (loops-Agree (len + 1) s len 0 b (omega arith))
