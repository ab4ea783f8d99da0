-- ===== src/Crypt/Lines.antt =====
-- The lines of an encrypted file (src/io.c: `get_stream_line` of a stream that is not stdin, with a
-- key). No read fails.
use ed.Common.{
  ℕ, zero, suc, Bool, true, false, not, ◌||◌, ◌&&◌, Option, none, some, List, [], ◌∷◌, ◌++◌, length,
  ◌==◌, if◌then◌else◌,
}
use ed.Crypt.{Cipher, Des, get_des_char, is_spent}

-- The stream: what is not read of the file, the variables of the cipher, and whether `feof` holds.
pub record Stream : Type 0 where
  pub fp : List ℕ
  pub des : Des
  pub eof : Bool
  pub input_is_binary : Bool

-- `get_des_char`. It reads a block where none is left, and then a character ahead, so that `feof`
-- holds from the last block on.
unfoldable pub read_char : Cipher → Stream → Option ℕ × Stream
read_char e st =
    let (c, s, rest) = get_des_char e st.fp st.des in
    (
      c,
      record st {
        fp = rest;
        des = s;
        eof = st.eof || (is_spent st.des.des_n st.des.des_ct && (length rest == 0));
      },
    )

-- A line with its newline, where the flag is `newline_missing`; the status NULL with "End-of-file
-- unexpected"; or a run out of fuel.
pub data StreamLine : Type 0 where
  line : List ℕ → Bool → Stream → StreamLine
  unexpected_eof : Stream → StreamLine
  out_of_fuel : StreamLine

-- What follows the loop, where `text` was read, and a newline, if any.
unfoldable pub end_line : List ℕ → Bool → Stream → StreamLine
end_line text newline st =
    if st.eof && (length text == 0)
    then unexpected_eof st
    else line (text ++ 10 ∷ []) (not newline) st

-- A round of the loop, where `again` is those after it.
abbrev pub after_char : List ℕ → (List ℕ → Stream → StreamLine) → Option ℕ × Stream → StreamLine
after_char text again (none, st) = end_line text false st
after_char text again (some c, st) =
    let st' : Stream = record st { input_is_binary = st.input_is_binary || (c == 0) } in
    if c == 10 then end_line text true st else again (text ++ c ∷ []) st'

-- The loop, for at most so many characters.
unfoldable pub line_loop : ℕ → Cipher → List ℕ → Stream → StreamLine
line_loop zero e text st = out_of_fuel
line_loop (suc fuel) e text st =
    after_char text (λ text st. line_loop fuel e text st) (read_char e st)

abbrev pub get_stream_line : ℕ → Cipher → Stream → StreamLine
get_stream_line fuel e st = line_loop fuel e [] st
