-- ===== src/Crypt/Written.antt =====
-- What `put_des_char` and `flush_des_file` (src/cbc.c) write.
use ed.Common.{
  ℕ, zero, suc, ◌+◌, ◌≤◌, ◌<◌, ◌≡◌, refl, sym, ap, subst, ◌∙◌, ◌⊎◌, inl, inr, true, false, List, [],
  ◌∷◌, ◌++◌, append-nil, append_assoc, arith, length, take, get_or, set, ◌==◌, Bool-cases, some,
  ◌&&◌, length-take, take-set, take-all,
}
use ed.Common.Int.{pos}
use ed.Crypt.{
  Cipher, Des, xor_block, is_zero, is_ok, last_block, cbc_encode, write_full, put_des_char,
  flush_des_file,
}
use ed.Crypt.Xor.{AreBytes, IsBlock, xor_block-IsBlock}
use ed.Crypt.Blocks.{get_or-last_block, take-last_block, set-IsBlock, last_block-IsBlock}

-- A cipher takes blocks to blocks, and decryption undoes encryption.
pub record IsCipher (e : Cipher) : Type 0 where
  pub encrypt-IsBlock : (b : List ℕ) → IsBlock b → IsBlock (e.encrypt b)
  pub decrypt-encrypt : (b : List ℕ) → IsBlock b → e.decrypt (e.encrypt b) ≡ b

-- The characters `text` as cipher block chaining encrypts them, from the vector `iv` on: `k` full
-- blocks, and a last one with the characters left, their number in its last byte.
abbrev pub Encrypts : Cipher → ℕ → List ℕ → List ℕ → List ℕ → Type 0
Encrypts e zero iv text out =
    (m : List ℕ) × IsBlock m
    × (length text < 8)
    × (take (length text) m ≡ text)
    × (get_or m 7 0 ≡ length text)
    × (out ≡ e.encrypt (xor_block m iv))
Encrypts e (suc k) iv text out =
    (p : List ℕ) × (t : List ℕ) × (o : List ℕ) × IsBlock p
    × (text ≡ p ++ t)
    × (out ≡ e.encrypt (xor_block p iv) ++ o)
    × Encrypts e k (e.encrypt (xor_block p iv)) t o

-- The bytes written by `put_des_char` for each character and `flush_des_file` at the end.
unfoldable pub write_all : Cipher → List ℕ → Des → List ℕ
write_all e [] s = (flush_des_file e s).2
write_all e (c ∷ cs) s = (put_des_char e c s).2 ++ write_all e cs (put_des_char e c s).1

-- The variables while characters are put.
pub record Writes (s : Des) : Type 0 where
  pub iv : IsBlock s.ivec
  pub pad : IsBlock s.pvec
  pub buf : IsBlock s.des_buf
  pub count : s.des_n ≤ 8
  pub status : is_ok s.des_ct ≡ true

abbrev full : Cipher → Des → Des
full e s = record s {
  des_buf = e.encrypt (xor_block s.des_buf s.ivec);
  ivec = e.encrypt (xor_block s.des_buf s.ivec);
  des_ct = pos 8;
  des_n = 0;
}

abbrev with_char : ℕ → Des → Des
with_char c s = record s { des_buf = set s.des_buf s.des_n c; des_n = s.des_n + 1 }

pub write_full-short : (e : Cipher) (s : Des) → (s.des_n == 8) ≡ false → write_full e s ≡ (s, [])
unfolding write_full
write_full-short e s h = rw h refl

write_full-full :
    (e : Cipher) (s : Des)
    → (s.des_n == 8) ≡ true
    → write_full e s ≡ (full e s, e.encrypt (xor_block s.des_buf s.ivec))
unfolding write_full
write_full-full e s h = ground arith

put_des_char-short :
    (e : Cipher) (c : ℕ) (s : Des)
    → (s.des_n == 8) ≡ false
    → is_ok s.des_ct ≡ true
    → put_des_char e c s ≡ (some c, with_char c s, [])
unfolding put_des_char
put_des_char-short e c s h o = ground (arith, write_full-short e s)

put_des_char-full :
    (e : Cipher) (c : ℕ) (s : Des)
    → (s.des_n == 8) ≡ true
    → put_des_char e c s ≡ (some c, with_char c (full e s), e.encrypt (xor_block s.des_buf s.ivec))
unfolding put_des_char
put_des_char-full e c s h = ground (arith, write_full-full e s)

abbrev last_bytes : Cipher → Des → List ℕ
last_bytes e s = e.encrypt (xor_block (last_block s.des_buf s.pvec s.des_n) s.ivec)

flush_des_file-short :
    (e : Cipher) (s : Des)
    → (s.des_n == 8) ≡ false
    → is_ok s.des_ct ≡ true
    → ((s.des_n == 0) && is_zero s.des_ct) ≡ false
    → (flush_des_file e s).2 ≡ last_bytes e s
unfolding flush_des_file cbc_encode
flush_des_file-short e s h o z = ground (arith, write_full-short e s)

flush_des_file-full :
    (e : Cipher) (s : Des)
    → (s.des_n == 8) ≡ true
    → (flush_des_file e s).2 ≡ e.encrypt (xor_block s.des_buf s.ivec) ++ last_bytes e (full e s)
unfolding flush_des_file cbc_encode
flush_des_file-full e s h = ground (arith, write_full-full e s)

-- Where the text is empty, no block has been written.
abbrev pub Started : Des → List ℕ → Type 0
Started s cs = (0 < s.des_n + length cs) ⊎ (is_zero s.des_ct ≡ false)

take-full : (s : Des) → Writes s → (s.des_n == 8) ≡ true → take s.des_n s.des_buf ≡ s.des_buf
take-full s w h = ap (λ n. take n s.des_buf) (ground (arith, w.buf.0)) ∙ take-all s.des_buf

take-with_char :
    (c : ℕ) (cs : List ℕ) (s : Des)
    → Writes s
    → s.des_n < 8
    → take (s.des_n + 1) (set s.des_buf s.des_n c) ++ cs ≡ take s.des_n s.des_buf ++ c ∷ cs
take-with_char c cs s w h =
    let a : s.des_n + 1 ≡ suc s.des_n = omega arith in
    ap (λ n. take n (set s.des_buf s.des_n c) ++ cs) a
    ∙ ap (◌++ cs) (take-set s.des_buf s.des_n c (omega (arith, w.buf.0)))
    ∙ append_assoc (take s.des_n s.des_buf) (c ∷ []) cs

module _ (e : Cipher) (lawful : IsCipher e) where
  pub encrypt_xor-IsBlock :
      (b iv : List ℕ) → IsBlock b → IsBlock iv → IsBlock (e.encrypt (xor_block b iv))
  encrypt_xor-IsBlock b iv p q =
      lawful.encrypt-IsBlock (xor_block b iv) (xor_block-IsBlock b iv p q)

  full-Writes : (s : Des) → Writes s → Writes (full e s)
  full-Writes s w = record {
    iv = encrypt_xor-IsBlock s.des_buf s.ivec w.buf w.iv;
    pad = w.pad;
    buf = encrypt_xor-IsBlock s.des_buf s.ivec w.buf w.iv;
    count = omega arith;
    status = refl;
  }

  with_char-Writes : (c : ℕ) (s : Des) → Writes s → s.des_n < 8 → c < 256 → Writes (with_char c s)
  with_char-Writes c s w h b = record {
    iv = w.iv;
    pad = w.pad;
    buf = set-IsBlock s.des_buf s.des_n c w.buf b;
    count = omega arith;
    status = w.status;
  }

  last-Encrypts :
      (s : Des)
      → Writes s
      → s.des_n < 8
      → Encrypts e zero s.ivec (take s.des_n s.des_buf) (last_bytes e s)
  last-Encrypts s w h =
      let m = last_block s.des_buf s.pvec s.des_n in
      let l : length (take s.des_n s.des_buf) ≡ s.des_n =
        omega (arith, length-take {0} s.des_n s.des_buf, w.buf.0) in
      (
        m,
        last_block-IsBlock s.des_buf s.pvec s.des_n w.buf w.pad h,
        omega arith,
        ap (λ n. take n m) l ∙ take-last_block s.des_buf s.pvec s.des_n w.buf.0 h,
        get_or-last_block s.des_buf s.pvec s.des_n w.buf.0 w.pad.0 h ∙ sym l,
        refl,
      )

  flush-Encrypts :
      (s : Des)
      → Writes s
      → Started s []
      → (k : ℕ) × Encrypts e k s.ivec (take s.des_n s.des_buf ++ []) (flush_des_file e s).2
  flush-Encrypts s w h = elim (Bool-cases (s.des_n == 8)) [
    | inl f ↦ (
      1,
      (
        s.des_buf,
        [],
        last_bytes e (full e s),
        w.buf,
        ap (◌++ []) (take-full s w f),
        flush_des_file-full e s f,
        last-Encrypts (full e s) (full-Writes s w) (omega arith),
      ),
    )
    | inr f ↦ (
      0,
      rw (append-nil (take s.des_n s.des_buf), flush_des_file-short e s f w.status (ground arith))
          (last-Encrypts s w (ground (arith, w.count))),
    )
  ]

  pub write_all-Encrypts :
      (cs : List ℕ) (s : Des)
      → Writes s
      → AreBytes cs
      → Started s cs
      → (k : ℕ) × Encrypts e k s.ivec (take s.des_n s.des_buf ++ cs) (write_all e cs s)
  unfolding write_all
  write_all-Encrypts [] s w b h = flush-Encrypts s w h
  write_all-Encrypts (c ∷ cs) s w (b, bs) h = elim (Bool-cases (s.des_n == 8)) [
    | inl f ↦
        let t = full e s in
        let v = with_char-Writes c t (full-Writes s w) (omega arith) b in
        let (k, i) = write_all-Encrypts cs (with_char c t) v bs (inr refl) in
        rw (put_des_char-full e c s f) (
          suc k,
          (
            s.des_buf,
            c ∷ cs,
            write_all e cs (with_char c t),
            w.buf,
            ap (◌++ (c ∷ cs)) (take-full s w f),
            refl,
            subst (λ x. Encrypts e k t.ivec x (write_all e cs (with_char c t)))
                (take-with_char c cs t (full-Writes s w) (omega arith)) i,
          ),
        )
    | inr f ↦
        let l : s.des_n < 8 = ground (arith, w.count) in
        let (k, i) =
          write_all-Encrypts cs (with_char c s) (with_char-Writes c s w l b) bs
            (inl (omega arith)) in
        rw (put_des_char-short e c s f w.status) (
          k,
          subst (λ x. Encrypts e k s.ivec x (write_all e cs (with_char c s)))
              (take-with_char c cs s w l) i,
        )
  ]
