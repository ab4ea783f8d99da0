-- ===== src/Subst/Letters.antt =====
-- The letters that the short form of a substitution spells (`resubstitute` of src/subst.c).
use ed.Common.{
  ℕ, ◌+◌, ◌-◌, ◌*◌, ◌≡◌, refl, ap, ◌∙◌, sym, Bool, true, false, not, ◌&&◌, ◌||◌, inl, inr, List, [],
  ◌∷◌, ◌++◌, append_assoc, arith, ◌==◌, if◌then◌else◌, Bool-cases,
}
use ed.Address.{
  Parse, Result, ok, err, out_of_fuel, ◌>>=◌, char, advance, isdigit, isspace, skip_whitespace,
  digits,
}
use ed.Address.Consume.{Returns}

-- Where the code succeeds, `P` holds.
abbrev pub Yields : {A : Type 0} → Result A → (A → Parse → Type 0) → Type 0
Yields (ok a p) P = P a p
Yields (err e p) P = Unit
Yields out_of_fuel P = Unit

pub then_yields :
    {A B : Type 0} (P : A → Parse → Type 0) (Q : B → Parse → Type 0) (r : Result A)
    (k : A → Parse → Result B)
    → Yields r P
    → ((a : A) (p : Parse) → P a p → Yields (k a p) Q)
    → Yields (r >>= k) Q
then_yields P Q (ok a p) k h f = f a p h
then_yields P Q (err e p) k h f = tt
then_yields P Q out_of_fuel k h f = tt

pub both :
    {A : Type 0} (P Q : A → Parse → Type 0) (r : Result A)
    → Returns r P
    → Yields r Q
    → Returns r (λ a p. P a p × Q a p)
both P Q (ok a p) h k = (h, k)
both P Q (err e p) h k = tt
both P Q out_of_fuel h k = h

pub yields_mono :
    {A : Type 0} (P Q : A → Parse → Type 0) (r : Result A)
    → Yields r P
    → ((a : A) (p : Parse) → P a p → Q a p)
    → Yields r Q
yields_mono P Q (ok a p) h f = f a p h
yields_mono P Q (err e p) h f = tt
yields_mono P Q out_of_fuel h f = tt

pub yields_either :
    {A : Type 0} (P : A → Parse → Type 0) (b : Bool) (x y : Result A)
    → Yields x P
    → Yields y P
    → Yields (if b then x else y) P
yields_either P true x y h k = h
yields_either P false x y h k = k

-- Whether `c` is one of the characters `u`.
unfoldable pub given : ℕ → List ℕ → Bool
given c [] = false
given c (x ∷ u) = (x == c) || given c u

-- A flag that each `c` in `u` turns over.
unfoldable pub toggles : ℕ → Bool → List ℕ → Bool
toggles c b [] = b
toggles c b (x ∷ u) = toggles c (if x == c then not b else b) u

-- The letters of the suffixes, and the newline
abbrev pub letters : List ℕ
letters = 10 ∷ b'g' ∷ b'p' ∷ b'r' ∷ []

unfoldable pub unlettered : List ℕ → Bool
unlettered [] = true
unlettered (x ∷ u) = not (given x letters) && unlettered u

pub given-append : (c : ℕ) (u v : List ℕ) → given c (u ++ v) ≡ (given c u || given c v)
unfolding given
given-append c [] v = refl
given-append c (x ∷ u) v = ground (arith, given-append c u v)

pub toggles-append :
    (c : ℕ) (b : Bool) (u v : List ℕ) → toggles c b (u ++ v) ≡ toggles c (toggles c b u) v
unfolding toggles
toggles-append c b [] v = refl
toggles-append c b (x ∷ u) v = toggles-append c (if x == c then not b else b) u v

unlettered-append :
    (u v : List ℕ) → unlettered u ≡ true → unlettered v ≡ true → unlettered (u ++ v) ≡ true
unfolding unlettered
unlettered-append [] v e f = f
unlettered-append (x ∷ u) v e f = ground (arith, e, unlettered-append u v (ground (arith, e)) f)

pub given-unlettered :
    (c : ℕ) (u : List ℕ) → given c letters ≡ true → unlettered u ≡ true → given c u ≡ false
unfolding given unlettered
given-unlettered c [] l e = refl
given-unlettered c (x ∷ u) l e = ground (arith, l, e, given-unlettered c u l (ground (arith, e)))

pub toggles-given : (c : ℕ) (b : Bool) (u : List ℕ) → given c u ≡ false → toggles c b u ≡ b
unfolding toggles given
toggles-given c b [] e = refl
toggles-given c b (x ∷ u) e = ground (arith, e, toggles-given c b u)

-- From `s` to `s'`, no letter is taken.
unfoldable pub Skips : List ℕ → List ℕ → Type 0
Skips s s' = (u : List ℕ) × (s ≡ u ++ s') × (unlettered u ≡ true)

pub Skips-trans : (s s' s'' : List ℕ) → Skips s s' → Skips s' s'' → Skips s s''
unfolding Skips
Skips-trans s s' s'' (u, e, f) (v, e', f') =
    (u ++ v, e ∙ ap (λ x. u ++ x) e' ∙ sym (append_assoc u v s''), unlettered-append u v f f')

pub Skips-refl : (s : List ℕ) → Skips s s
unfolding Skips unlettered
Skips-refl s = ([], refl, refl)

pub Skips-advance : (s : List ℕ) → given (char s) letters ≡ false → Skips s (advance s)
unfolding Skips unlettered
Skips-advance [] e = ([], refl, refl)
Skips-advance (c ∷ s) e = (c ∷ [], refl, ground (arith, e))

Skips-cons : (c : ℕ) (s s' : List ℕ) → given c letters ≡ false → Skips s s' → Skips (c ∷ s) s'
unfolding Skips unlettered
Skips-cons c s s' e (u, f, g) = (c ∷ u, ap (λ x. c ∷ x) f, ground (arith, e, g))

pub digits-Skips : (n : ℕ) (s : List ℕ) → Skips s (digits n s).1
unfolding digits given
digits-Skips n [] = Skips-refl []
digits-Skips n (c ∷ s) =
    let rest = digits-Skips (n * 10 + (c - b'0')) s in
    elim (Bool-cases (isdigit c)) [
      | inl d ↦ rw d (Skips-cons c s _ (ground (arith, d)) rest)
      | inr d ↦ rw d (Skips-refl (c ∷ s))
    ]

pub skip_whitespace-Skips : (s : List ℕ) → Skips s (skip_whitespace s)
unfolding skip_whitespace given
skip_whitespace-Skips [] = Skips-refl []
skip_whitespace-Skips (c ∷ s) = elim (Bool-cases (isspace c && not (c == 10))) [
  | inl d ↦ rw d (Skips-cons c s _ (ground (arith, d)) (skip_whitespace-Skips s))
  | inr d ↦ rw d (Skips-refl (c ∷ s))
]
