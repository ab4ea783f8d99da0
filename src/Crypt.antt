-- ===== src/Crypt.antt =====
-- Encryption of files (src/cbc.c): a stream of characters through a block cipher in the mode of
-- cipher block chaining. Characters are bytes, and a file is the list of those not read yet, or
-- of those written; a write takes all that it is given.
--
-- `encrypt` and `decrypt` of a cipher stand for `DES_ecb_encrypt` at the expanded key.
pub mod Xor
pub mod Blocks
pub mod Written
pub mod Restored
pub mod RoundTrip
pub mod Key
pub mod Parity
pub mod HexKey
pub mod Lines
pub mod Lost
pub mod Tests
use Prim.Native.Nat.{bit_xor}
use ed.Common.{
  ℕ, ◌+◌, ◌-◌, Bool, true, false, ◌&&◌, Option, none, some, List, [], ◌∷◌, ◌++◌, length, take, drop,
  get_or, set, ltb, leb, ◌==◌, if◌then◌else◌,
}
use ed.Common.Int.{ℤ, pos, negsuc}

pub record Cipher : Type 0 where
  pub encrypt : List ℕ → List ℕ
  pub decrypt : List ℕ → List ℕ

pub data DesError : Type 0 where
  block_corrupted incomplete_block : DesError

-- The static variables, and `ed->exec->err`.
pub record Des : Type 0 where
  pub ivec : List ℕ
  pub pvec : List ℕ
  pub des_buf : List ℕ
  pub des_ct : ℤ
  pub des_n : ℕ
  pub err : Option DesError

-- `random` is what `arc4random_buf` gives.
unfoldable pub init_des_cipher : List ℕ → Des → Des
init_des_cipher random s = record s {
  ivec = 0 ∷ 0 ∷ 0 ∷ 0 ∷ 0 ∷ 0 ∷ 0 ∷ 0 ∷ [];
  pvec = random;
  des_ct = pos 0;
  des_n = 0;
}

-- `msgbuf[n] ^= ivec[n]`, for each n
unfoldable pub xor_block : List ℕ → List ℕ → List ℕ
xor_block [] iv = []
xor_block (c ∷ cs) [] = c ∷ cs
xor_block (c ∷ cs) (v ∷ iv) = bit_xor c v ∷ xor_block cs iv

abbrev pub is_zero : ℤ → Bool
is_zero (pos n) = n == 0
is_zero (negsuc n) = false

-- The last block: the `n` bytes of `msgbuf`, the padding, and `n` in the last byte.
unfoldable pub last_block : List ℕ → List ℕ → ℕ → List ℕ
last_block msgbuf pvec n = set (take n msgbuf ++ take (8 - n) pvec) 7 n

-- `cbc_encode` of `n` bytes of `des_buf`: the value, the variables, and the bytes written.
unfoldable pub cbc_encode : Cipher → ℕ → Des → ℤ × Des × List ℕ
unfolding xor_block last_block
cbc_encode e n s =
    let block = e.encrypt (xor_block s.des_buf s.ivec) in
    let last = e.encrypt (xor_block (last_block s.des_buf s.pvec n) s.ivec) in
    if (n == 0) && is_zero s.des_ct
    then (pos 0, s, [])
    else if n == 8
    then (pos 8, record s { des_buf = block; ivec = block }, block)
    else (pos 8, record s { des_buf = last }, last)

-- The part that `put_des_char` and `flush_des_file` share: a full block is written.
unfoldable pub write_full : Cipher → Des → Des × List ℕ
unfolding cbc_encode
write_full e s =
    let (ct, s', out) = cbc_encode e s.des_n s in
    if s.des_n == 8 then (record s' { des_ct = ct; des_n = 0 }, out) else (s, [])

abbrev pub is_ok : ℤ → Bool
is_ok (pos n) = true
is_ok (negsuc n) = false

-- `none` is EOF.
unfoldable pub put_des_char : Cipher → ℕ → Des → Option ℕ × Des × List ℕ
unfolding write_full
put_des_char e c s =
    let (s', out) = write_full e s in
    if is_ok s'.des_ct
    then (some c, record s' { des_buf = set s'.des_buf s'.des_n c; des_n = s'.des_n + 1 }, out)
    else (none, s', out)

unfoldable pub flush_des_file : Cipher → Des → Bool × Des × List ℕ
unfolding write_full cbc_encode
flush_des_file e s =
    let (s', out) = write_full e s in
    let (ct, s'', last) = cbc_encode e s'.des_n s' in
    if is_ok s'.des_ct then (is_ok ct, s'', out ++ last) else (false, s', out)

-- `cbc_decode` into `des_buf`: the value, where -1 is EOF, the variables, and the rest of the file.
unfoldable pub cbc_decode : Cipher → List ℕ → Des → ℤ × Des × List ℕ
unfolding xor_block
cbc_decode e fp s =
    let msgbuf = take 8 fp in
    let rest = drop 8 fp in
    let plain = xor_block (e.decrypt msgbuf) s.ivec in
    let s' : Des = record s { des_buf = plain; ivec = msgbuf } in
    let n = get_or plain 7 0 in
    let read : Des = record s { des_buf = msgbuf ++ drop (length msgbuf) s.des_buf } in
    if length msgbuf == 8
    then if 0 == length rest
      then if ltb 7 n
        then (negsuc 0, record s' { err = some block_corrupted }, [])
        else (pos n, s', [])
      else (pos 8, s', rest)
    else if ltb 0 (length msgbuf)
    then (negsuc 0, record read { err = some incomplete_block }, [])
    else (negsuc 0, read, [])

-- `des_n >= des_ct`
abbrev pub is_spent : ℕ → ℤ → Bool
is_spent n (pos ct) = leb ct n
is_spent n (negsuc ct) = true

-- The next character of `des_buf`.
unfoldable pub next_char : Des → List ℕ → Option ℕ × Des × List ℕ
next_char s fp =
    if is_spent 0 s.des_ct
    then (none, s, fp)
    else (some (get_or s.des_buf s.des_n 0), record s { des_n = s.des_n + 1 }, fp)

-- `none` is EOF.
unfoldable pub get_des_char : Cipher → List ℕ → Des → Option ℕ × Des × List ℕ
unfolding next_char
get_des_char e fp s =
    let (ct, s', rest) = cbc_decode e fp (record s { des_n = 0 }) in
    if is_spent s.des_n s.des_ct then next_char (record s' { des_ct = ct }) rest else next_char s fp
