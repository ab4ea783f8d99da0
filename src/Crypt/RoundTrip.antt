-- ===== src/Crypt/RoundTrip.antt =====
-- An encrypted file (src/cbc.c, and the loops of src/io.c over its characters): what is written is
-- read, and the size that `write_stream` reports is that of the file.
use ed.Common.{
  ℕ, zero, suc, ◌+◌, ◌-◌, ◌*◌, ◌%◌, ◌<◌, ◌≡◌, refl, ap, ◌∙◌, inl, List, [], ◌∷◌, arith, length,
  length-append,
}
use ed.Crypt.{Cipher, Des, init_des_cipher, xor_block, cbc_encode, flush_des_file}
use ed.Crypt.Xor.{AreBytes, IsBlock}
use ed.Crypt.Written.{
  IsCipher, Encrypts, Writes, write_all, write_full-short, write_all-Encrypts, encrypt_xor-IsBlock,
}
use ed.Crypt.Restored.{read_all, read_all-end, read_all-Encrypts}

pub init-Writes :
    (random : List ℕ) (s : Des)
    → IsBlock random
    → IsBlock s.des_buf
    → Writes (init_des_cipher random s)
unfolding init_des_cipher
init-Writes random s r b = record {
  iv = (refl, omega arith);
  pad = r;
  buf = b;
  count = omega arith;
  status = refl;
}

-- Nothing is written for an empty file.
write_all-nil :
    (e : Cipher) (random : List ℕ) (s : Des) → write_all e [] (init_des_cipher random s) ≡ []
unfolding write_all init_des_cipher flush_des_file cbc_encode
write_all-nil e random s = ground (arith, write_full-short e (init_des_cipher random s))

-- The bytes of a file, in blocks.
Encrypts-length :
    (e : Cipher) (lawful : IsCipher e) (k : ℕ) (iv text out : List ℕ)
    → IsBlock iv
    → Encrypts e k iv text out
    → (length out ≡ 8 * k + 8) × (length text < 8 * k + 8) × (8 * k < length text + 1)
Encrypts-length e lawful zero iv text out v (m, b, l, t, g, o) =
    let n : length out ≡ 8 =
      ap (λ (x : List ℕ). length x) o ∙ (encrypt_xor-IsBlock e lawful m iv b v).0 in
    omega arith
Encrypts-length e lawful (suc k) iv text out v (p, t, o, b, te, oe, i) =
    let w = encrypt_xor-IsBlock e lawful p iv b v in
    let h = Encrypts-length e lawful k (e.encrypt (xor_block p iv)) t o w i in
    omega (
      arith,
      ap (λ (x : List ℕ). length x) te,
      ap (λ (x : List ℕ). length x) oe,
      length-append {0} p t,
      length-append {0} (e.encrypt (xor_block p iv)) o,
      b.0,
      w.0,
      h.0,
      h.1,
      h.2,
    )

module _ (e : Cipher) (lawful : IsCipher e) (random : List ℕ) (s : Des) (padding : IsBlock random)
    (buffer : IsBlock s.des_buf) where
  -- Of every text, `get_des_char` reads the characters that `put_des_char` and `flush_des_file`
  -- wrote, and then EOF, whatever the padding is and whatever variables the two start from.
  pub read_all-write_all :
      (text random' : List ℕ) (s' : Des)
      → AreBytes text
      → read_all e
          (length text + 1)
          (write_all e text (init_des_cipher random s))
          (init_des_cipher random' s')
        ≡ text
  unfolding init_des_cipher
  read_all-write_all [] random' s' b =
      ap (λ (fp : List ℕ). read_all e 1 fp (init_des_cipher random' s')) (write_all-nil e random s)
      ∙ read_all-end e 1 (init_des_cipher random' s') refl
  read_all-write_all (c ∷ cs) random' s' b =
      let (k, i) =
        write_all-Encrypts e lawful (c ∷ cs) (init_des_cipher random s)
          (init-Writes random s padding buffer) b (inl (omega arith)) in
      read_all-Encrypts e lawful k (length (c ∷ cs) + 1) (c ∷ cs) _ (init_des_cipher random' s')
        (refl, omega arith) refl i (omega arith)

  -- A file of `n` characters that is not empty takes `n + 8 - n % 8` bytes, as `write_stream` says.
  pub length-write_all :
      (c : ℕ) (cs : List ℕ)
      → AreBytes (c ∷ cs)
      → length (write_all e (c ∷ cs) (init_des_cipher random s))
        ≡ length (c ∷ cs) + (8 - length (c ∷ cs) % 8)
  unfolding init_des_cipher
  length-write_all c cs b =
      let (k, i) =
        write_all-Encrypts e lawful (c ∷ cs) (init_des_cipher random s)
          (init-Writes random s padding buffer) b (inl (omega arith)) in
      let h =
        Encrypts-length e lawful k (0 ∷ 0 ∷ 0 ∷ 0 ∷ 0 ∷ 0 ∷ 0 ∷ 0 ∷ []) (c ∷ cs)
          (write_all e (c ∷ cs) (init_des_cipher random s)) (refl, omega arith) i in
      omega (arith, h.0, h.1, h.2)
