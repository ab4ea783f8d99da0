-- ===== src/Words/Unescape.antt =====
-- `strtok_with_delimiters` (src/parse.c) reads back escaped words.
use ed.Common.{
  ℕ, ◌≡◌, ◌≢◌, refl, true, false, ◌&&◌, Option, some, List, [], ◌∷◌, ◌++◌, arith, ◌==◌, Bool-cases,
  inl, inr, ap, ◌∙◌,
}
use ed.Words.Tokens.{
  member, strchr, strspn, start, token, prepend, token_loop, strip, strtok_with_delimiters, escape,
  IsWord,
}

not_nul : (v : ℕ) (w : List ℕ) → IsWord (v ∷ w) → v ≢ 0
not_nul v [] h = h.0
not_nul v (x ∷ w) h = h.0

module _ (delims : List ℕ) (slash : member delims 92 ≡ false) where
  -- A character that neither escapes nor ends.
  plain-step :
      (c e : ℕ) (t : List ℕ)
      → strchr delims c ≡ false
      → ((c == 92) && strchr delims e) ≡ false
      → token_loop delims (c ∷ e ∷ t) ≡ prepend c (token_loop delims (e ∷ t))
  unfolding token_loop
  plain-step c e t h k = rw (k, h) refl

  escaped-step :
      (c : ℕ) (t : List ℕ)
      → member delims c ≡ true
      → token_loop delims (92 ∷ c ∷ t) ≡ prepend c (token_loop delims t)
  unfolding token_loop
  escaped-step c t h = rw h (ground arith)

  ends :
      (d : ℕ) (t : List ℕ) → member delims d ≡ true → token_loop delims (d ∷ t) ≡ token [] (some t)
  unfolding token_loop
  ends d [] m = ground (arith, slash)
  ends d (e ∷ t) m = ground (arith, slash)

  -- The loop on an escaped word, up to what ends it.
  token_loop-escape :
      (w : List ℕ) (d : ℕ) (t : List ℕ)
      → IsWord w
      → member delims d ≡ true
      → token_loop delims (escape delims w ++ d ∷ t) ≡ token w (some t)
  unfolding escape
  token_loop-escape [] d t h m = ends d t m
  token_loop-escape (c ∷ []) d t h m = elim (Bool-cases (member delims c)) [
    | inl e ↦ rw (e, escaped-step c (d ∷ t) e, ends d t m) refl
    | inr e ↦ rw (e, plain-step c d t (ground arith) (ground arith), ends d t m) refl
  ]
  token_loop-escape (c ∷ v ∷ w) d t h m =
      let rest = token_loop-escape (v ∷ w) d t h.1 m in
      elim (Bool-cases (member delims c)) [
        | inl e ↦ rw (e, escaped-step c _ e, rest) refl
        | inr e ↦ elim (Bool-cases (member delims v)) [
          | inl f ↦
              rw
                (
                  e,
                  f,
                  plain-step c 92 (v ∷ escape delims w ++ d ∷ t) (ground arith)
                      (ground (arith, slash)),
                  (rw f at rest),
                )
                refl
          | inr f ↦
              rw
                (
                  e,
                  f,
                  plain-step c v (escape delims w ++ d ∷ t) (ground arith)
                      (ground (arith, not_nul v w h.1)),
                  (rw f at rest),
                )
                refl
        ]
      ]

  -- An escaped word begins with no delimiter.
  strspn-escape :
      (c : ℕ) (w rest : List ℕ)
      → strspn delims (escape delims (c ∷ w) ++ rest) ≡ escape delims (c ∷ w) ++ rest
  unfolding strspn escape
  strspn-escape c w rest = elim (Bool-cases (member delims c)) [
    | inl e ↦ rw (e, slash) refl
    | inr e ↦ rw (e, e) refl
  ]

  begun :
      (s : List ℕ) {c : ℕ} {w : List ℕ} {t : Option (List ℕ)}
      → token_loop delims s ≡ token (c ∷ w) t
      → start delims s ≡ token (c ∷ w) t
  unfolding start token_loop
  begun [] h = cc
  begun (x ∷ s) h = h

  -- A word that does not end in a backslash, with a backslash before each of its delimiters, is
  -- the token that is returned, up to the next delimiter. The backslash is no delimiter.
  pub strtok_with_delimiters-escape :
      (prev : Option (List ℕ)) (c : ℕ) (w : List ℕ) (d : ℕ) (t : List ℕ)
      → IsWord (c ∷ w)
      → member delims d ≡ true
      → strtok_with_delimiters (some (escape delims (c ∷ w) ++ d ∷ t)) prev delims
        ≡ token (c ∷ w) (some t)
  unfolding strtok_with_delimiters strip
  strtok_with_delimiters-escape prev c w d t h m =
      ap (start delims) (strspn-escape c w (d ∷ t))
      ∙ begun (escape delims (c ∷ w) ++ d ∷ t) (token_loop-escape (c ∷ w) d t h m)
