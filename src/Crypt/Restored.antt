-- ===== src/Crypt/Restored.antt =====
-- What `get_des_char` (src/cbc.c) reads of a file that was written.
use ed.Common.{
  ℕ, zero, suc, ◌+◌, ◌≤◌, ◌<◌, ◌≡◌, refl, sym, ap, ◌∙◌, true, Option, none, some, List, [], ◌∷◌,
  ◌++◌, arith, length, take, drop, get_or, ◌==◌, Bool-cases, inl, inr, length-append,
  take-length_append, drop-length_append, take-all, drop-all, length-zero, append-nil,
}
use ed.Common.Int.{pos, negsuc}
use ed.Crypt.{Cipher, Des, xor_block, cbc_decode, is_spent, next_char, get_des_char}
use ed.Crypt.Xor.{IsBlock, xor_block-IsBlock, xor_block-xor_block}
use ed.Crypt.Written.{IsCipher, Encrypts, encrypt_xor-IsBlock}

abbrev collect : Option ℕ × Des × List ℕ → (Des → List ℕ → List ℕ) → List ℕ
collect (none, s, fp) rest = []
collect (some c, s, fp) rest = c ∷ rest s fp

-- The characters of so many calls of `get_des_char`, up to EOF.
unfoldable pub read_all : Cipher → ℕ → List ℕ → Des → List ℕ
read_all e zero fp s = []
read_all e (suc fuel) fp s = collect (get_des_char e fp s) (λ s' fp'. read_all e fuel fp' s')

abbrev pub at : Des → ℕ → Des
at s n = record s { des_n = n }

drop-step : (n : ℕ) (xs : List ℕ) → n < length xs → drop n xs ≡ get_or xs n 0 ∷ drop (suc n) xs
drop-step n [] h = absurd (omega arith)
drop-step zero (x ∷ xs) h = refl
drop-step (suc n) (x ∷ xs) h = drop-step n xs (omega arith)

-- A character that is in `des_buf`.
pub get_des_char-next :
    (e : Cipher) (fp : List ℕ) (s : Des) (n ct : ℕ)
    → n < ct
    → s.des_ct ≡ pos ct
    → get_des_char e fp (at s n) ≡ (some (get_or s.des_buf n 0), at s (suc n), fp)
unfolding get_des_char next_char
get_des_char-next e fp s n ct h c = rw c (ground arith)

-- The characters left in `des_buf`, and then `t`.
pub read_all-rest :
    (k n fuel ct : ℕ) (e : Cipher) (fp t : List ℕ) (s : Des)
    → s.des_ct ≡ pos ct
    → ct ≤ length s.des_buf
    → n + k ≡ ct
    → k + length t < fuel
    → ((f : ℕ) → length t < f → read_all e f fp (at s ct) ≡ t)
    → read_all e fuel fp (at s n) ≡ take k (drop n s.des_buf) ++ t
unfolding read_all
read_all-rest zero n fuel ct e fp t s c l i h r =
    let j : n ≡ ct = omega arith in rw j (r fuel (omega arith))
read_all-rest (suc k) n zero ct e fp t s c l i h r = absurd (omega arith)
read_all-rest (suc k) n (suc fuel) ct e fp t s c l i h r =
    let g = get_des_char-next e fp s n ct (omega arith) c in
    let ih = read_all-rest k (suc n) fuel ct e fp t s c l (omega arith) (omega arith) r in
    ap (λ (r : Option ℕ × Des × List ℕ). collect r (λ s' fp'. read_all e fuel fp' s')) g
    ∙ ap (get_or s.des_buf n 0 ∷◌) ih
    ∙ ap (λ xs. take (suc k) xs ++ t) (sym (drop-step n s.des_buf (omega arith)))

-- A file that is left is decoded.
cbc_decode-more :
    (e : Cipher) (fp msgbuf rest plain : List ℕ) (s : Des)
    → take 8 fp ≡ msgbuf
    → drop 8 fp ≡ rest
    → xor_block (e.decrypt msgbuf) s.ivec ≡ plain
    → length msgbuf ≡ 8
    → 0 < length rest
    → cbc_decode e fp s ≡ (pos 8, record s { des_buf = plain; ivec = msgbuf }, rest)
unfolding cbc_decode
cbc_decode-more e fp msgbuf rest plain s t d x l h = rw (t, d, x) (ground arith)

pub cbc_decode-last :
    (e : Cipher) (fp msgbuf plain : List ℕ) (n : ℕ) (s : Des)
    → take 8 fp ≡ msgbuf
    → drop 8 fp ≡ []
    → xor_block (e.decrypt msgbuf) s.ivec ≡ plain
    → length msgbuf ≡ 8
    → get_or plain 7 0 ≡ n
    → n < 8
    → cbc_decode e fp s ≡ (pos n, record s { des_buf = plain; ivec = msgbuf }, [])
unfolding cbc_decode
cbc_decode-last e fp msgbuf plain n s t d x l g h = rw (t, d, x, g) (ground arith)

pub get_des_char-refill :
    (e : Cipher) (fp rest : List ℕ) (s s' : Des) (ct : ℕ)
    → is_spent s.des_n s.des_ct ≡ true
    → cbc_decode e fp (at s 0) ≡ (pos ct, s', rest)
    → s'.des_n ≡ 0
    → 0 < ct
    → get_des_char e fp s ≡ get_des_char e rest (record s' { des_ct = pos ct })
unfolding get_des_char
get_des_char-refill e fp rest s s' ct sp d z h = ground arith

get_des_char-eof :
    (e : Cipher) (fp rest : List ℕ) (s s' : Des)
    → is_spent s.des_n s.des_ct ≡ true
    → cbc_decode e fp (at s 0) ≡ (pos 0, s', rest)
    → (get_des_char e fp s).0 ≡ none
unfolding get_des_char next_char
get_des_char-eof e fp rest s s' sp d = ground arith

read_all-refill :
    (e : Cipher) (fuel : ℕ) (fp rest : List ℕ) (s s' : Des) (ct : ℕ)
    → is_spent s.des_n s.des_ct ≡ true
    → cbc_decode e fp (at s 0) ≡ (pos ct, s', rest)
    → s'.des_n ≡ 0
    → 0 < ct
    → read_all e fuel fp s ≡ read_all e fuel rest (record s' { des_ct = pos ct })
unfolding read_all
read_all-refill e zero fp rest s s' ct sp d z h = refl
read_all-refill e (suc fuel) fp rest s s' ct sp d z h =
    ap (λ (r : Option ℕ × Des × List ℕ). collect r (λ s' fp'. read_all e fuel fp' s'))
      (get_des_char-refill e fp rest s s' ct sp d z h)

collect-none :
    (r : Option ℕ × Des × List ℕ) (f : Des → List ℕ → List ℕ) → r.0 ≡ none → collect r f ≡ []
collect-none (none, s, fp) f h = refl
collect-none (some c, s, fp) f h = cc

cbc_decode-eof : (e : Cipher) (s : Des) → (cbc_decode e [] s).0 ≡ negsuc 0
unfolding cbc_decode
cbc_decode-eof e s = refl

get_des_char-end :
    (e : Cipher) (s : Des) → is_spent s.des_n s.des_ct ≡ true → (get_des_char e [] s).0 ≡ none
unfolding get_des_char next_char
get_des_char-end e s sp = ground (arith, cbc_decode-eof e (at s 0))

pub read_all-end :
    (e : Cipher) (fuel : ℕ) (s : Des) → is_spent s.des_n s.des_ct ≡ true → read_all e fuel [] s ≡ []
unfolding read_all
read_all-end e zero s sp = refl
read_all-end e (suc fuel) s sp = collect-none (get_des_char e [] s) _ (get_des_char-end e s sp)

read_all-last :
    (e : Cipher) (fuel : ℕ) (fp rest : List ℕ) (s s' : Des)
    → is_spent s.des_n s.des_ct ≡ true
    → cbc_decode e fp (at s 0) ≡ (pos 0, s', rest)
    → read_all e fuel fp s ≡ []
unfolding read_all
read_all-last e zero fp rest s s' sp d = refl
read_all-last e (suc fuel) fp rest s s' sp d =
    collect-none (get_des_char e fp s) _ (get_des_char-eof e fp rest s s' sp d)

module _ (e : Cipher) (lawful : IsCipher e) where
  pub decrypted :
      (p iv : List ℕ)
      → IsBlock p
      → IsBlock iv
      → xor_block (e.decrypt (e.encrypt (xor_block p iv))) iv ≡ p
  decrypted p iv b v =
      ap (λ x. xor_block x iv)
        (lawful.decrypt-encrypt (xor_block p iv) (xor_block-IsBlock p iv b v))
      ∙ xor_block-xor_block p iv

  Encrypts-pos :
      (k : ℕ) (iv text out : List ℕ) → IsBlock iv → Encrypts e k iv text out → 0 < length out
  Encrypts-pos zero iv text out v (m, b, l, t, g, o) =
      omega (arith, ap (λ (x : List ℕ). length x) o, (encrypt_xor-IsBlock e lawful m iv b v).0)
  Encrypts-pos (suc k) iv text out v (p, t, o, b, te, oe, i) = omega (
    arith,
    ap (λ (x : List ℕ). length x) oe,
    length-append {0} (e.encrypt (xor_block p iv)) o,
    (encrypt_xor-IsBlock e lawful p iv b v).0,
  )

  -- The last block.
  read-last :
      (fuel : ℕ) (text m : List ℕ) (s : Des)
      → IsBlock s.ivec
      → is_spent s.des_n s.des_ct ≡ true
      → IsBlock m
      → length text < 8
      → take (length text) m ≡ text
      → get_or m 7 0 ≡ length text
      → length text < fuel
      → read_all e fuel (e.encrypt (xor_block m s.ivec)) s ≡ text
  read-last fuel text m s v sp b l t g h =
      let msgbuf = e.encrypt (xor_block m s.ivec) in
      let k : length msgbuf ≡ 8 = (encrypt_xor-IsBlock e lawful m s.ivec b v).0 in
      let s' : Des = record s { des_buf = m; ivec = msgbuf; des_n = 0 } in
      let decoded : cbc_decode e msgbuf (at s 0) ≡ (pos (length text), s', []) =
        cbc_decode-last e msgbuf msgbuf m (length text) (at s 0)
          (ap (λ n. take n msgbuf) (sym k) ∙ take-all msgbuf)
          (ap (λ n. drop n msgbuf) (sym k) ∙ drop-all msgbuf) (decrypted m s.ivec b v) k g l in
      elim (Bool-cases (length text == 0)) [
        | inl z ↦
            let none_left : length text ≡ 0 = ground arith in
            read_all-last e fuel msgbuf [] s s' sp
              (decoded ∙ ap (λ (n : ℕ). (pos n, s', [])) none_left)
            ∙ sym (length-zero text none_left)
        | inr z ↦
            read_all-refill e fuel msgbuf [] s s' (length text) sp decoded refl (ground arith)
            ∙ read_all-rest (length text) 0 fuel (length text) e [] []
                (record s' { des_ct = pos (length text) }) refl (omega (arith, b.0)) (omega arith)
                (omega arith)
                (λ f i.
                  read_all-end e f (record s' { des_ct = pos (length text); des_n = length text })
                    (ground arith))
            ∙ append-nil (take (length text) m)
            ∙ t
      ]

  -- What was written is read, whatever state the writer left.
  pub read_all-Encrypts :
      (k fuel : ℕ) (text fp : List ℕ) (s : Des)
      → IsBlock s.ivec
      → is_spent s.des_n s.des_ct ≡ true
      → Encrypts e k s.ivec text fp
      → length text < fuel
      → read_all e fuel fp s ≡ text
  read_all-Encrypts zero fuel text fp s v sp (m, b, l, t, g, o) h =
      ap (λ (x : List ℕ). read_all e fuel x s) o ∙ read-last fuel text m s v sp b l t g h
  read_all-Encrypts (suc k) fuel text fp s v sp (p, t, o, b, te, oe, i) h =
      let msgbuf = e.encrypt (xor_block p s.ivec) in
      let w = encrypt_xor-IsBlock e lawful p s.ivec b v in
      let s' : Des = record s { des_buf = p; ivec = msgbuf; des_n = 0 } in
      let d : Des = record s' { des_ct = pos 8 } in
      let decoded : cbc_decode e fp (at s 0) ≡ (pos 8, s', o) =
        cbc_decode-more e fp msgbuf o p (at s 0)
          (ap (take 8) oe ∙ ap (λ n. take n (msgbuf ++ o)) (sym w.0) ∙ take-length_append msgbuf o)
          (ap (drop 8) oe ∙ ap (λ n. drop n (msgbuf ++ o)) (sym w.0) ∙ drop-length_append msgbuf o)
          (decrypted p s.ivec b v) w.0 (Encrypts-pos k msgbuf t o w i) in
      read_all-refill e fuel fp o s s' 8 sp decoded refl (omega arith)
      ∙ read_all-rest 8 0 fuel 8 e o t d refl (omega (arith, b.0)) (omega arith)
          (omega (arith, ap (λ (x : List ℕ). length x) te, length-append {0} p t, b.0))
          (λ f l. read_all-Encrypts k f t o (at d 8) w refl i l)
      ∙ ap (◌++ t) (ap (λ n. take n p) (sym b.0) ∙ take-all p)
      ∙ sym te
