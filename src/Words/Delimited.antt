-- ===== src/Words/Delimited.antt =====
-- Where `regular_expression` (src/parse.c) finds the end of a pattern.
use ed.Common.{
  has_newline, ℕ, zero, suc, ◌≤◌, ◌<◌, ◌≡◌, ◌≢◌, refl, ap, ◌∙◌, sym, subst, true, false, List, [],
  ◌∷◌, arith, length, ◌==◌, if◌then◌else◌,
}
use ed.Address.{char, advance}
use ed.Words.Pattern.{
  Scan, at, past_end, unbalanced, backslash, out_of_fuel, outside, class_loop, character_class,
  stops, pattern_loop, regular_expression,
}
use ed.Words.Bracket.{Bracket, body, Scanned, either, class_loop-Scanned, class_loop-Bracket}

-- A pattern, from the text `s` up to `t`: characters, escaped characters and bracket expressions,
-- none of which begins with a delimiter `dc` or a newline.
pub data Items : ℕ → List ℕ → List ℕ → Type 0 where
  here : (dc : ℕ) (s : List ℕ) → Items dc s s
  plain :
      (dc c : ℕ) (s t : List ℕ)
      → stops dc (c ∷ s) ≡ false
      → c ≢ b'['
      → c ≢ 92
      → Items dc s t
      → Items dc (c ∷ s) t
  escaped :
      (dc d : ℕ) (s t : List ℕ)
      → stops dc (92 ∷ d ∷ s) ≡ false
      → d ≢ 10
      → Items dc s t
      → Items dc (92 ∷ d ∷ s) t
  class :
      (dc : ℕ) (s u t : List ℕ)
      → stops dc (b'[' ∷ s) ≡ false
      → Bracket outside (body s) u
      → Items dc (advance u) t
      → Items dc (b'[' ∷ s) t

-- The results: a pattern up to the first delimiter or newline that is no part of an item; a text
-- without a newline; a backslash before a newline behind items; or a `[` behind items that begins
-- no bracket expression.
pub Found : ℕ → List ℕ → Scan → Type 0
Found dc s (at t) = Items dc s t × (stops dc t ≡ true)
Found dc s past_end = has_newline s ≡ false
Found dc s backslash = (u : List ℕ) × Items dc s (92 ∷ 10 ∷ u) × (stops dc (92 ∷ 10 ∷ u) ≡ false)
Found dc s unbalanced =
    (u : List ℕ) × Items dc s (b'[' ∷ u)
    × (stops dc (b'[' ∷ u) ≡ false)
    × ((t : List ℕ) → ¬ Bracket outside (body u) t)
Found dc s out_of_fuel = ⊥

Found-step :
    (dc : ℕ) (s s' : List ℕ) (r : Scan)
    → ((t : List ℕ) → Items dc s t → Items dc s' t)
    → has_newline s' ≡ has_newline s
    → Found dc s r
    → Found dc s' r
unfolding Found
Found-step dc s s' (at t) f n (i, e) = (f t i, e)
Found-step dc s s' past_end f n h = n ∙ h
Found-step dc s s' backslash f n (u, i, e) = (u, f (92 ∷ 10 ∷ u) i, e)
Found-step dc s s' unbalanced f n (u, i, e, b) = (u, f (b'[' ∷ u) i, e, b)
Found-step dc s s' out_of_fuel f n h = h

has_newline-advance : (s : List ℕ) → char s ≢ 10 → has_newline (advance s) ≡ has_newline s
unfolding has_newline
has_newline-advance [] n = refl
has_newline-advance (c ∷ s) n = ground (arith, n)

skipped : ℕ → List ℕ → List ℕ
skipped c s = if char s == c then advance s else s

skipped-newline : (c : ℕ) (s : List ℕ) → c ≢ 10 → has_newline (skipped c s) ≡ has_newline s
unfolding skipped
skipped-newline c s n = ground (arith, n, has_newline-advance s)

skipped-length : (c : ℕ) (s : List ℕ) → length (skipped c s) ≤ length s
unfolding skipped
skipped-length c [] = ground arith
skipped-length c (x ∷ s) = ground arith

has_newline-body : (s : List ℕ) → has_newline (body s) ≡ has_newline s
unfolding skipped
has_newline-body s =
    skipped-newline b']' (skipped b'^' s) (omega arith) ∙ skipped-newline b'^' s (omega arith)

length-body : (s : List ℕ) → length (body s) ≤ length s
unfolding skipped
length-body s =
    let l : length (skipped b'^' s) ≤ length s = skipped-length b'^' s in
    omega (arith, l, skipped-length b']' (skipped b'^' s))

advance_le : (s : List ℕ) → length (advance s) ≤ length s
advance_le [] = omega arith
advance_le (c ∷ s) = omega arith

-- A round at a `[`.
class_step :
    (fuel dc : ℕ) (s : List ℕ) (r : Scan)
    → stops dc (b'[' ∷ s) ≡ false
    → ((t : List ℕ) → length t ≤ length s → Found dc t (pattern_loop fuel dc t))
    → class_loop outside (body s) ≡ r
    → Scanned outside (body s) r
    → Found dc (b'[' ∷ s) (elim r [ at t ↦ pattern_loop fuel dc (advance t) | r ↦ r ])
unfolding Scanned Found has_newline
class_step fuel dc s (at u) e again q (b, n, l, c) =
    Found-step dc (advance u) (b'[' ∷ s) (pattern_loop fuel dc (advance u))
      (λ t i. class dc s u t e b i)
      (sym (has_newline-body s)
        ∙ sym n
        ∙ sym (has_newline-advance u (λ f. absurd (omega (arith, c, f)))))
      (again (advance u) (omega (arith, advance_le u, length-body s, l)))
class_step fuel dc s past_end e again q h = sym (has_newline-body s) ∙ h
class_step fuel dc s unbalanced e again q h =
    (s, here dc (b'[' ∷ s), e, λ t b. cc (q, class_loop-Bracket outside (body s) t b))
class_step fuel dc s backslash e again q h = absurd h
class_step fuel dc s out_of_fuel e again q h = absurd h

escaped-cases :
    (fuel dc : ℕ) (s : List ℕ)
    → stops dc (92 ∷ s) ≡ false
    → char s ≢ 10
    → ((t : List ℕ) → length t ≤ length s → Found dc t (pattern_loop fuel dc t))
    → Found dc (92 ∷ s) (elim s [ [] ↦ past_end | d ∷ t ↦ pattern_loop fuel dc t ])
unfolding Found has_newline
escaped-cases fuel dc [] e n again = refl
escaped-cases fuel dc (d ∷ s) e n again =
    Found-step dc s (92 ∷ d ∷ s) (pattern_loop fuel dc s) (λ t i. escaped dc d s t e n i)
      (ground (arith, n)) (again s (omega arith))

before_newline :
    (dc : ℕ) (s : List ℕ)
    → stops dc (92 ∷ s) ≡ false
    → (char s == 10) ≡ true
    → Found dc (92 ∷ s) backslash
unfolding Found
before_newline dc [] e n = absurd (ground (arith, n))
before_newline dc (d ∷ s) e n =
    let newline : 10 ≡ d = ground (arith, n) in
    subst (λ d. Found dc (92 ∷ d ∷ s) backslash) newline
      (s, here dc (92 ∷ 10 ∷ s), ap (λ d. stops dc (92 ∷ d ∷ s)) newline ∙ e)

at_char :
    (dc : ℕ) (s : List ℕ) (r : Scan) {c d : ℕ} → c ≡ d → Found dc (c ∷ s) r → Found dc (d ∷ s) r
at_char dc s r e f = subst (λ x. Found dc (x ∷ s) r) e f

at_bracket :
    (fuel dc c : ℕ) (s : List ℕ)
    → stops dc (c ∷ s) ≡ false
    → (c == b'[') ≡ true
    → ((t : List ℕ) → length t ≤ length s → Found dc t (pattern_loop fuel dc t))
    → Found dc
        (c ∷ s)
        (elim (character_class s) [ at t ↦ pattern_loop fuel dc (advance t) | r ↦ r ])
unfolding character_class
at_bracket fuel dc c s e f again =
    let bracket : b'[' ≡ c = ground (arith, f) in
    let e' : stops dc (b'[' ∷ s) ≡ false = ap (λ x. stops dc (x ∷ s)) bracket ∙ e in
    at_char dc s _ bracket
      (class_step fuel dc s (character_class s) e' again refl (class_loop-Scanned outside (body s)))

at_backslash :
    (fuel dc c : ℕ) (s : List ℕ)
    → stops dc (c ∷ s) ≡ false
    → (c == 92) ≡ true
    → ((t : List ℕ) → length t ≤ length s → Found dc t (pattern_loop fuel dc t))
    → Found dc (c ∷ s) (
        if char s == 10
        then backslash
        else elim s [ [] ↦ past_end | d ∷ t ↦ pattern_loop fuel dc t ])
at_backslash fuel dc c s e f again =
    let back : 92 ≡ c = ground (arith, f) in
    let e' : stops dc (92 ∷ s) ≡ false = ap (λ x. stops dc (x ∷ s)) back ∙ e in
    at_char dc s _ back (
      either (Found dc (92 ∷ s)) (char s == 10) backslash _ (λ n. before_newline dc s e' n)
        (λ n. escaped-cases fuel dc s e' (ground (arith, n)) again))

pattern_loop-Found :
    (fuel dc : ℕ) (s : List ℕ) → length s < fuel → Found dc s (pattern_loop fuel dc s)
unfolding pattern_loop character_class Found has_newline
pattern_loop-Found zero dc s h = absurd (omega (arith, h))
pattern_loop-Found (suc fuel) dc [] h =
    either (Found dc []) (stops dc []) (at []) past_end (λ e. (here dc [], e)) (λ e. refl)
pattern_loop-Found (suc fuel) dc (c ∷ s) h =
    let again : (t : List ℕ) → length t ≤ length s → Found dc t (pattern_loop fuel dc t) =
      λ t l. pattern_loop-Found fuel dc t (omega (arith, h, l)) in
    either (Found dc (c ∷ s)) (stops dc (c ∷ s)) (at (c ∷ s)) _ (λ e. (here dc (c ∷ s), e))
      (λ e.
        either (Found dc (c ∷ s)) (c == b'[') _ _ (λ f. at_bracket fuel dc c s e f again)
          (λ f.
            either (Found dc (c ∷ s)) (c == 92) _ _ (λ g. at_backslash fuel dc c s e g again)
              (λ g.
                Found-step dc s (c ∷ s) (pattern_loop fuel dc s)
                  (λ t i. plain dc c s t e (ground (arith, f)) (ground (arith, g)) i)
                  (ground (arith, e)) (again s (omega arith)))))

-- `regular_expression` returns. A pattern that it finds is made of characters, escaped characters
-- and bracket expressions, none of which begins with the delimiter or a newline, and ends at the
-- first delimiter (two of them, where it is a backslash, are no end) or newline that follows one of
-- these. It reads past the end of a text only where there is no newline in it, and it reports an
-- error only where, behind such a pattern, a backslash precedes a newline, or a `[` begins no
-- bracket expression.
pub regular_expression-Found : (dc : ℕ) (s : List ℕ) → Found dc s (regular_expression dc s)
unfolding regular_expression
regular_expression-Found dc s = pattern_loop-Found (suc (length s)) dc s (omega arith)
