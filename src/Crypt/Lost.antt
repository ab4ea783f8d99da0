-- ===== src/Crypt/Lost.antt =====
-- A line of an encrypted file that is lost (`get_stream_line` of src/io.c with src/cbc.c).
use ed.Common.{
  subst, ℕ, zero, suc, ◌+◌, ◌<◌, ◌≡◌, refl, sym, ap, ◌∙◌, Bool, true, false, ◌||◌, some, inl, List,
  [], ◌∷◌, ◌++◌, append-nil, append_assoc, arith, length, take, drop, get_or, ◌==◌, length-append,
  take-length_append, take-append-drop, take-all, drop-all, has_newline,
}
use ed.Common.Int.{pos}
use ed.Crypt.{Cipher, Des, init_des_cipher, xor_block, cbc_decode, is_spent}
use ed.Crypt.Xor.{AreBytes, IsBlock}
use ed.Crypt.Written.{IsCipher, Encrypts, write_all, write_all-Encrypts, encrypt_xor-IsBlock}
use ed.Crypt.Restored.{
  at, read_all, read_all-end, read_all-rest, cbc_decode-last, get_des_char-refill,
  get_des_char-next, decrypted,
}
use ed.Crypt.RoundTrip.{init-Writes}
use ed.Crypt.Lines.{
  Stream, StreamLine, read_char, line, unexpected_eof, end_line, after_char, line_loop,
  get_stream_line,
}

drop-head :
    (n : ℕ) (m : List ℕ) (c : ℕ) (r : List ℕ)
    → drop n m ≡ c ∷ r
    → (get_or m n 0 ≡ c) × (drop (suc n) m ≡ r)
drop-head zero [] c r e = cc
drop-head zero (x ∷ m) c r e = (cc, cc)
drop-head (suc n) [] c r e = cc
drop-head (suc n) (x ∷ m) c r e = drop-head n m c r e

-- The stream in its last block, where `n` characters of it are read.
abbrev within : Des → ℕ → Bool → Stream
within s n binary = record { fp = []; des = at s n; eof = true; input_is_binary = binary }

after_other :
    (c : ℕ) (t : List ℕ) (again : List ℕ → Stream → StreamLine) (st : Stream)
    → (c == 10) ≡ false
    → after_char t again (some c, st)
      ≡ again (t ++ c ∷ []) (record st { input_is_binary = st.input_is_binary || (c == 0) })
after_other c t again st e = rw e refl

module _ (e : Cipher) (s : Des) (ct : ℕ) (count : s.des_ct ≡ pos ct) where
  read_within :
      (n : ℕ) (binary : Bool)
      → n < ct
      → read_char e (within s n binary) ≡ (some (get_or s.des_buf n 0), within s (suc n) binary)
  unfolding read_char
  read_within n binary h = ground (arith, get_des_char-next e [] s n ct h count)

  -- A line within the block.
  line_within :
      (a r t : List ℕ) (n fuel : ℕ) (binary : Bool)
      → drop n s.des_buf ≡ a ++ 10 ∷ r
      → has_newline a ≡ false
      → n + length a < ct
      → length a < fuel
      → (binary' : Bool) × (line_loop fuel e t (within s n binary)
          ≡ end_line (t ++ a) true (within s (suc (n + length a)) binary'))
        × (drop (suc (n + length a)) s.des_buf ≡ r)
  unfolding line_loop has_newline
  line_within a r t n zero binary d w h f = absurd (omega arith)
  line_within [] r t n (suc fuel) binary d w h f =
      let (c, k) = drop-head n s.des_buf 10 r d in
      let again : List ℕ → Stream → StreamLine = λ text st. line_loop fuel e text st in
      let read : read_char e (within s n binary) ≡ (some 10, within s (suc n) binary) =
        read_within n binary (omega arith) ∙ ap (λ x. (some x, within s (suc n) binary)) c in
      let none_more : suc n ≡ suc (n + 0) = omega arith in
      (
        binary,
        ap (after_char t again) read
            ∙ ap (λ x. end_line x true (within s (suc n) binary)) (sym (append-nil t))
            ∙ ap (λ x. end_line (t ++ []) true (within s x binary)) none_more,
        ap (λ x. drop x s.des_buf) (sym none_more) ∙ k,
      )
  line_within (c ∷ a) r t n (suc fuel) binary d w h f =
      let (x, k) = drop-head n s.des_buf c (a ++ 10 ∷ r) d in
      let again : List ℕ → Stream → StreamLine = λ text st. line_loop fuel e text st in
      let read : read_char e (within s n binary) ≡ (some c, within s (suc n) binary) =
        read_within n binary (omega arith) ∙ ap (λ x. (some x, within s (suc n) binary)) x in
      let (binary', i, j) =
        line_within a r (t ++ c ∷ []) (suc n) fuel (binary || (c == 0)) k (ground (arith, w))
          (omega arith) (omega arith) in
      let count_on : suc (suc n + length a) ≡ suc (n + suc (length a)) = omega arith in
      (
        binary',
        ap (after_char t again) read
            ∙ after_other c t again (within s (suc n) binary) (ground (arith, w))
            ∙ i
            ∙ ap (λ x. end_line x true (within s (suc (suc n + length a)) binary'))
                (append_assoc t (c ∷ []) a)
            ∙ ap (λ x. end_line (t ++ c ∷ a) true (within s x binary')) count_on,
        ap (λ x. drop x s.des_buf) (sym count_on) ∙ j,
      )

-- A text shorter than a block takes a block.
one_block :
    (e : Cipher) (k : ℕ) (iv text out : List ℕ)
    → length text < 8
    → Encrypts e k iv text out
    → Encrypts e zero iv text out
one_block e zero iv text out h i = i
one_block e (suc k) iv text out h (p, t, o, b, te, oe, i) =
    absurd (omega (arith, h, ap (λ (x : List ℕ). length x) te, length-append {0} p t, b.0))

-- The block is decoded.
end_text :
    (a : List ℕ) (st : Stream)
    → st.eof ≡ true
    → 0 < length a
    → end_line a true st ≡ line (a ++ 10 ∷ []) false st
unfolding end_line
end_text a st e h = ground arith

end_empty : (st : Stream) → st.eof ≡ true → end_line [] true st ≡ unexpected_eof st
unfolding end_line
end_empty st e = rw e refl

-- One line is read, then the end of the file is reported, and `b` is left.
abbrev pub LosesLines : Cipher → ℕ → List ℕ → List ℕ → Stream → Type 0
LosesLines e fuel a b st =
    (st₁ : Stream) × (st₂ : Stream) × (get_stream_line fuel e st ≡ line (a ++ 10 ∷ []) false st₁)
    × (get_stream_line fuel e st₁ ≡ unexpected_eof st₂)
    × (read_all e (length b + 1) st₂.fp st₂.des ≡ b)

module _ (e : Cipher) (lawful : IsCipher e) (text m : List ℕ) (s : Des) (v : IsBlock s.ivec)
    (b : IsBlock m) (short : length text < 8) (number : get_or m 7 0 ≡ length text) where
  last_out : List ℕ
  last_out = e.encrypt (xor_block m s.ivec)

  decoded : Des
  decoded = record s { des_buf = m; ivec = last_out; des_n = 0; des_ct = pos (length text) }

  read_first :
      (binary : Bool)
      → is_spent s.des_n s.des_ct ≡ true
      → 0 < length text
      → read_char e (record { fp = last_out; des = s; eof = false; input_is_binary = binary })
        ≡ read_char e (within decoded 0 binary)
  unfolding read_char last_out decoded
  read_first binary sp l =
      let k : length last_out ≡ 8 = (encrypt_xor-IsBlock e lawful m s.ivec b v).0 in
      let s' : Des = record s { des_buf = m; ivec = last_out; des_n = 0 } in
      let d : cbc_decode e last_out (at s 0) ≡ (pos (length text), s', []) =
        cbc_decode-last e last_out last_out m (length text) (at s 0)
          (ap (λ n. take n last_out) (sym k) ∙ take-all last_out)
          (ap (λ n. drop n last_out) (sym k) ∙ drop-all last_out) (decrypted e lawful m s.ivec b v)
          k number short in
      let refill = get_des_char-refill e last_out [] s s' (length text) sp d refl l in
      let next = get_des_char-next e [] decoded 0 (length text) l refl in
      ground (arith, refill, next, sp)

  first_round :
      (fuel : ℕ) (binary : Bool)
      → is_spent s.des_n s.des_ct ≡ true
      → 0 < length text
      → line_loop fuel e []
          (record { fp = last_out; des = s; eof = false; input_is_binary = binary })
        ≡ line_loop fuel e [] (within decoded 0 binary)
  unfolding line_loop
  first_round zero binary sp l = refl
  first_round (suc fuel) binary sp l =
      ap (after_char [] (λ text st. line_loop fuel e text st)) (read_first binary sp l)

  loses_lines :
      (a b' : List ℕ) (fuel : ℕ) (binary : Bool)
      → is_spent s.des_n s.des_ct ≡ true
      → text ≡ a ++ 10 ∷ 10 ∷ b'
      → take (length text) m ≡ text
      → has_newline a ≡ false
      → 0 < length a
      → length a < fuel
      → LosesLines e fuel a b'
          (record { fp = last_out; des = s; eof = false; input_is_binary = binary })
  unfolding decoded has_newline
  loses_lines a b' fuel binary sp te tk w p f =
      let rest = drop (length text) m in
      let ct = length text in
      let n : ct ≡ length a + suc (suc (length b')) =
        ap (λ (x : List ℕ). length x) te ∙ length-append a (10 ∷ 10 ∷ b') in
      let whole : m ≡ a ++ 10 ∷ 10 ∷ (b' ++ rest) =
        sym (take-append-drop ct m)
        ∙ ap (λ x. x ++ rest) (tk ∙ te)
        ∙ append_assoc a (10 ∷ 10 ∷ b') rest in
      let (binary₁, i, j) =
        line_within e decoded ct refl a (10 ∷ (b' ++ rest)) [] 0 fuel binary whole w
          (omega (arith, n)) f in
      let (binary₂, i', j') =
        line_within e decoded ct refl [] (b' ++ rest) [] (suc (0 + length a)) fuel binary₁ j refl
          (omega (arith, n)) (omega arith) in
      let behind = suc (suc (0 + length a) + 0) in
      (
        within decoded (suc (0 + length a)) binary₁,
        within decoded behind binary₂,
        first_round fuel binary sp (omega (arith, n))
            ∙ i
            ∙ end_text a (within decoded (suc (0 + length a)) binary₁) refl p,
        i' ∙ end_empty (within decoded behind binary₂) refl,
        read_all-rest (length b') behind (length b' + 1) ct e [] [] decoded refl
              (omega (arith, b.0, short)) (omega (arith, n)) (omega arith)
              (λ g l. read_all-end e g (at decoded ct) (ground arith))
            ∙ append-nil (take (length b') (drop behind m))
            ∙ ap (take (length b')) j'
            ∙ take-length_append b' rest,
      )

-- Of an encrypted file of fewer than eight characters, whose first line `a` is not empty and whose
-- second is, `get_stream_line` reads the first line. Its next call reports the end of the file,
-- although all that follows the empty line, `b`, is still there to be read.
pub get_stream_line-lost :
    (e : Cipher)
    → IsCipher e
    → (random random' : List ℕ) (s s' : Des) → IsBlock random
    → IsBlock s.des_buf
    → (a b : List ℕ) (fuel : ℕ) (binary : Bool) → AreBytes (a ++ 10 ∷ 10 ∷ b)
    → length (a ++ 10 ∷ 10 ∷ b) < 8
    → has_newline a ≡ false
    → 0 < length a
    → length a < fuel
    → LosesLines e fuel a b (record {
      fp = write_all e (a ++ 10 ∷ 10 ∷ b) (init_des_cipher random s);
      des = init_des_cipher random' s';
      eof = false;
      input_is_binary = binary;
    })
unfolding init_des_cipher last_out
get_stream_line-lost e lawful random random' s s' padding buffer a b fuel binary bytes short w p f =
    let text = a ++ 10 ∷ 10 ∷ b in
    let zeros : List ℕ = 0 ∷ 0 ∷ 0 ∷ 0 ∷ 0 ∷ 0 ∷ 0 ∷ 0 ∷ [] in
    let out = write_all e text (init_des_cipher random s) in
    let (k, i) =
      write_all-Encrypts e lawful text (init_des_cipher random s)
        (init-Writes random s padding buffer) bytes
        (inl (omega (arith, length-append a (10 ∷ 10 ∷ b)))) in
    let (m, block, l, t, g, o) = one_block e k zeros text out short i in
    let start = init_des_cipher random' s' in
    subst
      (λ (fp : List ℕ).
        LosesLines e fuel a b
          (record { fp = fp; des = start; eof = false; input_is_binary = binary }))
      (sym o)
      (loses_lines e lawful text m start (refl, omega arith) block short g a b fuel binary refl refl
        t w p f)
