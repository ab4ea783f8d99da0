-- ===== src/Words/Bracket.antt =====
-- The bracket expressions that `character_class` (src/parse.c) scans.
use ed.Common.{
  has_newline, ℕ, ◌≤◌, ◌<◌, ◌≡◌, ◌≢◌, refl, ◌∙◌, Bool, true, false, ◌&&◌, ◌||◌, List, [], ◌∷◌,
  arith, length, ◌==◌, if◌then◌else◌,
}
use ed.Address.{char, advance}
use ed.Words.Pattern.{
  Scan, at, past_end, unbalanced, backslash, out_of_fuel, Within, outside, inside, class_loop,
}

-- `[.`, `[:` or `[=`, which begins a name in a bracket expression
abbrev pub opens : ℕ → ℕ → Bool
opens x d = (x == b'[') && ((d == b'.') || (d == b':') || (d == b'='))

-- From the text `s` on, elements that are no `]` or newline, and names with their brackets, lead to
-- the closing bracket at `t`. In a name that `[d` begins, behind the character `c`, `d` and `]` end it.
pub data Bracket : Within → List ℕ → List ℕ → Type 0 where
  close : (x : ℕ) (s : List ℕ) → x ≡ b']' → Bracket outside (x ∷ s) (x ∷ s)
  element :
      (x : ℕ) (s t : List ℕ)
      → x ≢ b']'
      → x ≢ 10
      → opens x (char s) ≡ false
      → Bracket outside s t
      → Bracket outside (x ∷ s) t
  named :
      (x d : ℕ) (s t : List ℕ)
      → opens x d ≡ true
      → Bracket (inside d (char s)) s t
      → Bracket outside (x ∷ d ∷ s) t
  name_end :
      (d c x : ℕ) (s t : List ℕ)
      → x ≡ b']'
      → c ≡ d
      → Bracket outside s t
      → Bracket (inside d c) (x ∷ s) t
  name_more :
      (d c x : ℕ) (s t : List ℕ)
      → ((x == b']') && (c == d)) ≡ false
      → x ≢ 10
      → Bracket (inside d x) s t
      → Bracket (inside d c) (x ∷ s) t

-- A bracket expression behind its `[`: a `^` and a `]` at the front stand for no end.
abbrev pub body : List ℕ → List ℕ
body s =
    let s₁ = if char s == b'^' then advance s else s in if char s₁ == b']' then advance s₁ else s₁

-- What the scan finds.
unfoldable pub Scanned : Within → List ℕ → Scan → Type 0
Scanned w s (at t) =
    Bracket w s t × (has_newline t ≡ has_newline s) × (length t ≤ length s) × (char t ≡ b']')
Scanned w s past_end = has_newline s ≡ false
Scanned w s unbalanced = Unit
Scanned w s backslash = ⊥
Scanned w s out_of_fuel = ⊥

-- Both branches of a test.
pub either :
    (P : Scan → Type 0) (b : Bool) (x y : Scan)
    → (b ≡ true → P x)
    → (b ≡ false → P y)
    → P (if b then x else y)
either P true x y h k = h refl
either P false x y h k = k refl

Scanned-step :
    (w w' : Within) (s s' : List ℕ) (r : Scan)
    → ((t : List ℕ) → Bracket w s t → Bracket w' s' t)
    → has_newline s' ≡ has_newline s
    → length s ≤ length s'
    → Scanned w s r
    → Scanned w' s' r
unfolding Scanned
Scanned-step w w' s s' (at t) f n l (b, m, k, c) = (f t b, cc, omega arith, c)
Scanned-step w w' s s' past_end f n l h = n ∙ h
Scanned-step w w' s s' unbalanced f n l h = tt
Scanned-step w w' s s' backslash f n l h = h
Scanned-step w w' s s' out_of_fuel f n l h = h

pub class_loop-Scanned : (w : Within) (s : List ℕ) → Scanned w s (class_loop w s)
unfolding class_loop Scanned has_newline
class_loop-Scanned outside [] = refl
class_loop-Scanned outside (x ∷ []) =
    either (Scanned outside (x ∷ [])) (x == b']') (at (x ∷ [])) _
      (λ e.
        let x_close : x ≡ b']' = ground arith in (close x [] x_close, refl, omega arith, x_close))
      (λ e.
        either (Scanned outside (x ∷ [])) (x == 10) unbalanced past_end (λ f. tt)
          (λ f. ground (arith, f)))
class_loop-Scanned outside (x ∷ d ∷ s) =
    either (Scanned outside (x ∷ d ∷ s)) (x == b']') (at (x ∷ d ∷ s)) _
      (λ e.
        let x_close : x ≡ b']' = ground arith in
        (close x (d ∷ s) x_close, refl, omega arith, x_close))
      (λ e.
        either (Scanned outside (x ∷ d ∷ s)) (x == 10) unbalanced _ (λ f. tt)
          (λ f.
            either (Scanned outside (x ∷ d ∷ s)) (opens x d) _ _
              (λ g.
                Scanned-step (inside d (char s)) outside s (x ∷ d ∷ s) _ (λ t b. named x d s t g b)
                  (ground (arith, f, g)) (omega arith) (class_loop-Scanned (inside d (char s)) s))
              (λ g.
                Scanned-step outside outside (d ∷ s) (x ∷ d ∷ s) _
                  (λ t b. element x (d ∷ s) t (ground (arith, e)) (ground (arith, f)) g b)
                  (ground (arith, f)) (omega arith) (class_loop-Scanned outside (d ∷ s)))))
class_loop-Scanned (inside d c) [] = refl
class_loop-Scanned (inside d c) (x ∷ s) =
    either (Scanned (inside d c) (x ∷ s)) ((x == b']') && (c == d)) _ _
      (λ e.
        let x_close : x ≡ b']' = ground (arith, e) in
        Scanned-step outside (inside d c) s (x ∷ s) _
          (λ t b. name_end d c x s t x_close (ground (arith, e)) b) (ground (arith, x_close))
          (omega arith) (class_loop-Scanned outside s))
      (λ e.
        either (Scanned (inside d c) (x ∷ s)) (x == 10) unbalanced _ (λ f. tt)
          (λ f.
            Scanned-step (inside d x) (inside d c) s (x ∷ s) _
              (λ t b. name_more d c x s t e (ground (arith, f)) b) (ground (arith, f)) (omega arith)
              (class_loop-Scanned (inside d x) s)))

Bracket-pos : (w : Within) (s t : List ℕ) → Bracket w s t → 0 < length s
Bracket-pos w s t (close x u e) = omega arith
Bracket-pos w s t (element x u _ n m o b) = omega arith
Bracket-pos w s t (named x d u _ o b) = omega arith
Bracket-pos w s t (name_end d c x u _ e f b) = omega arith
Bracket-pos w s t (name_more d c x u _ n m b) = omega arith

-- Every bracket expression is scanned to its end.
pub class_loop-Bracket : (w : Within) (s t : List ℕ) → Bracket w s t → class_loop w s ≡ at t
unfolding class_loop
class_loop-Bracket outside [] t b = elim b [ ]
class_loop-Bracket outside (x ∷ []) t (close _ _ e) = ground (arith, e)
class_loop-Bracket outside (x ∷ d ∷ s) t (close _ _ e) = ground (arith, e)
class_loop-Bracket outside (x ∷ []) t (element _ _ _ n m o b) =
    absurd (omega (arith, Bracket-pos outside [] t b))
class_loop-Bracket outside (x ∷ d ∷ s) t (element _ _ _ n m o b) =
    ground (arith, n, m, o, class_loop-Bracket outside (d ∷ s) t b)
class_loop-Bracket outside (x ∷ d ∷ s) t (named _ _ _ _ o b) =
    ground (arith, o, class_loop-Bracket (inside d (char s)) s t b)
class_loop-Bracket (inside d c) [] t b = elim b [ ]
class_loop-Bracket (inside d c) (x ∷ s) t (name_end _ _ _ _ _ e f b) =
    ground (arith, e, f, class_loop-Bracket outside s t b)
class_loop-Bracket (inside d c) (x ∷ s) t (name_more _ _ _ _ _ n m b) =
    ground (arith, n, m, class_loop-Bracket (inside d x) s t b)
