-- ===== src/Words/Unquote.antt =====
-- How the shell reads what `shell_quote` (src/parse.c) writes.
use ed.Common.{
  ℕ, ◌+◌, ◌≤◌, ◌<◌, ◌≡◌, refl, Bool, true, false, Option, none, some, List, [], ◌∷◌, ◌++◌, length,
  ◌==◌, if◌then◌else◌, Bool-cases, inl, inr, lt→ltb, le→leb,
}
use ed.Words.Quote.{Quoted, no_memory, overrun, quoted, emit, terminate}

abbrev pub cons : ℕ → Option (List ℕ) → Option (List ℕ)
cons c none = none
cons c (some s) = some (c ∷ s)

-- The word that the shell reads, where `inside` says whether it is between single quotes. A
-- character that is neither quoted nor escaped is none of these words.
unfoldable pub unquote : Bool → List ℕ → Option (List ℕ)
unquote false [] = some []
unquote false (c ∷ []) = none
unquote false (c ∷ d ∷ s) =
    let closed = unquote true (d ∷ s) in
    let after = unquote false s in
    if c == 39 then closed else if c == 92 then cons d after else none
unquote true [] = none
unquote true (c ∷ s) =
    let after = unquote false s in
    let within = cons c (unquote true s) in if c == 39 then after else within

-- The word is quoted within the buffer, or there was no memory for it.
abbrev pub Quotes : (ℕ → Bool) → Bool → List ℕ → Quoted → Type 0
Quotes grow inside fn no_memory = (n : ℕ) × (grow n ≡ false)
Quotes grow inside fn overrun = ⊥
Quotes grow inside fn (quoted q) = unquote inside q ≡ some fn

-- One step: bytes that fit, and whose reading goes on with `fn`.
pub emit-Quotes :
    (grow : ℕ → Bool) (size idx : ℕ) (bytes : List ℕ) (inside inside' : Bool) (fn fn' : List ℕ)
    (r : Quoted)
    → idx + length bytes ≤ size
    → ((q : List ℕ) → unquote inside' q ≡ some fn' → unquote inside (bytes ++ q) ≡ some fn)
    → Quotes grow inside' fn' r
    → Quotes grow inside fn (emit size idx bytes r)
unfolding emit
emit-Quotes grow size idx bytes i i' fn fn' no_memory l f h = h
emit-Quotes grow size idx bytes i i' fn fn' overrun l f h = absurd h
emit-Quotes grow size idx bytes i i' fn fn' (quoted q) l f h =
    rw (le→leb (idx + length bytes) size l) (f q h)

pub terminate-Quotes :
    (grow : ℕ → Bool) (size idx : ℕ) → idx < size → Quotes grow false [] (terminate size idx)
unfolding terminate unquote
terminate-Quotes grow size idx l = rw (lt→ltb idx size l) refl

-- What an allocation leads to.
pub grown-Quotes :
    (grow : ℕ → Bool) (n : ℕ) (inside : Bool) (fn : List ℕ) (r : Quoted)
    → Quotes grow inside fn r
    → Quotes grow inside fn (if grow n then r else no_memory)
grown-Quotes grow n inside fn r h = elim (Bool-cases (grow n)) [
  | inl e ↦ rw e h
  | inr e ↦ rw e (n, e)
]

-- A character that is not a quote, between quotes; and the ways to write a quote.
module _ (fn q : List ℕ) where
  pub unquote-plain :
      (c : ℕ) → (c == 39) ≡ false → unquote true q ≡ some fn → unquote true (c ∷ q) ≡ some (c ∷ fn)
  unfolding unquote
  unquote-plain c e h = rw (e, h) refl

  pub unquote-escaped : unquote false q ≡ some fn → unquote false (92 ∷ 39 ∷ q) ≡ some (39 ∷ fn)
  unfolding unquote
  unquote-escaped h = rw h refl

  pub unquote-last : unquote false q ≡ some fn → unquote true (39 ∷ q) ≡ some fn
  unfolding unquote
  unquote-last h = h

pub unquote-open :
    (c : ℕ) (fn q : List ℕ)
    → unquote true q ≡ some (c ∷ fn)
    → unquote false (39 ∷ q) ≡ some (c ∷ fn)
unfolding unquote
unquote-open c fn [] h = h
unquote-open c fn (d ∷ q) h = h
