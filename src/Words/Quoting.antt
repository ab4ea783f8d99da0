-- ===== src/Words/Quoting.antt =====
-- `shell_quote` (src/parse.c) quotes every word for the shell, within its buffer.
use ed.Common.{
  ℕ, suc, ◌+◌, ◌≤◌, ◌≡◌, Bool, true, false, List, [], ◌∷◌, arith, length, ◌==◌, ==_iff, Bool-cases,
  inl, inr,
}
use ed.Words.Quote.{grown, quote_rest, quote_leading, shell_quote}
use ed.Words.Unquote.{
  unquote, Quotes, emit-Quotes, terminate-Quotes, grown-Quotes, unquote-plain, unquote-escaped,
  unquote-last, unquote-open,
}

grown-ge : (size n : ℕ) → n ≤ grown size n
grown-ge size n = ground arith

module _ (grow : ℕ → Bool) where
  -- Between quotes the count exceeds what is written by the characters left and the last quote.
  quote_rest-Quotes :
      (len size idx : ℕ) (c : ℕ) (fn : List ℕ)
      → idx + suc (length fn) + 1 ≤ len
      → len + 1 ≤ size
      → Quotes grow true (c ∷ fn) (quote_rest grow len size idx (c ∷ fn))
  unfolding quote_rest
  quote_rest-Quotes len size idx c [] h l = elim (Bool-cases (c == 39)) [
    | inl e ↦
        let g = grown-ge size (len + 3) in
        rw (e, (==_iff c 39).0 e)
          (grown-Quotes grow (len + 3) true (39 ∷ []) _ (
            emit-Quotes grow _ idx (39 ∷ 92 ∷ 39 ∷ []) true false (39 ∷ []) [] _ (omega arith)
              (λ q u. unquote-last _ _ (unquote-escaped _ _ u))
              (terminate-Quotes grow _ (idx + 3) (omega arith))))
    | inr e ↦ rw e (
        emit-Quotes grow size idx (c ∷ 39 ∷ []) true false (c ∷ []) [] _ (omega arith)
          (λ q u. unquote-plain [] (39 ∷ q) c e (unquote-last _ _ u))
          (terminate-Quotes grow size (idx + 2) (omega arith)))
  ]
  quote_rest-Quotes len size idx c (d ∷ fn) h l = elim (Bool-cases (c == 39)) [
    | inl e ↦
        let g = grown-ge size (len + 4) in
        rw (e, (==_iff c 39).0 e)
          (grown-Quotes grow (len + 4) true (39 ∷ d ∷ fn) _ (
            emit-Quotes grow _ idx (39 ∷ 92 ∷ 39 ∷ 39 ∷ []) true true (39 ∷ d ∷ fn) (d ∷ fn) _
              (omega arith) (λ q u. unquote-last _ _ (unquote-escaped _ _ (unquote-open d fn q u)))
              (quote_rest-Quotes (len + 3) (grown size (len + 4)) (idx + 4) d fn (omega arith)
                (omega arith))))
    | inr e ↦ rw e (
        emit-Quotes grow size idx (c ∷ []) true true (c ∷ d ∷ fn) (d ∷ fn) _ (omega arith)
          (λ q u. unquote-plain (d ∷ fn) q c e u)
          (quote_rest-Quotes len size (idx + 1) d fn (omega arith) (omega arith)))
  ]

  quote_leading-Quotes :
      (len size idx : ℕ) (fn : List ℕ)
      → idx + length fn + 2 ≤ len
      → len + 1 ≤ size
      → Quotes grow false fn (quote_leading grow len size idx fn)
  unfolding quote_leading
  quote_leading-Quotes len size idx [] h l = terminate-Quotes grow size idx (omega arith)
  quote_leading-Quotes len size idx (c ∷ fn) h l = elim (Bool-cases (c == 39)) [
    | inl e ↦
        let g = grown-ge size (len + 2) in
        rw (e, (==_iff c 39).0 e)
          (grown-Quotes grow (len + 2) false (39 ∷ fn) _ (
            emit-Quotes grow _ idx (92 ∷ 39 ∷ []) false false (39 ∷ fn) fn _ (omega arith)
              (λ q u. unquote-escaped _ _ u)
              (quote_leading-Quotes (len + 1) (grown size (len + 2)) (idx + 2) fn (omega arith)
                (omega arith))))
    | inr e ↦ rw e (
        emit-Quotes grow size idx (39 ∷ []) false true (c ∷ fn) (c ∷ fn) _ (omega arith)
          (λ q u. unquote-open c fn q u)
          (quote_rest-Quotes len size (idx + 1) c fn (omega arith) (omega arith)))
  ]

-- From a static buffer of any size, `shell_quote` writes a text that the shell reads as the given
-- word, and its NUL, all within the buffer; it fails only where an allocation has failed.
pub shell_quote-Quotes :
    (grow : ℕ → Bool) (size : ℕ) (fn : List ℕ) → Quotes grow false fn (shell_quote grow size fn)
unfolding shell_quote unquote
shell_quote-Quotes grow size [] =
    let g = grown-ge size 3 in
    grown-Quotes grow 3 false [] _ (
      emit-Quotes grow _ 0 (39 ∷ 39 ∷ []) false false [] [] _ (omega arith) (λ q u. u)
        (terminate-Quotes grow _ 2 (omega arith)))
shell_quote-Quotes grow size (c ∷ fn) =
    let g = grown-ge size (suc (length fn) + 3) in
    let more : (length (c ∷ fn) == 0) ≡ false = ground arith in
    grown-Quotes grow (suc (length fn) + 3) false (c ∷ fn) _ (
      rw more (
        quote_leading-Quotes grow (suc (length fn) + 2) (grown size (suc (length fn) + 3)) 0
          (c ∷ fn) (omega arith) (omega arith)))
