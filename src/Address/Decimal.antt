-- ===== src/Address/Decimal.antt =====
-- Decimal numerals as `strtoll` reads them.
use ed.Common.{
  ℕ, zero, suc, ◌+◌, ◌-◌, ◌*◌, ◌/◌, ◌%◌, ◌^◌, ◌≤◌, ◌<◌, ◌≡◌, refl, true, false, List, [], ◌∷◌,
  arith, ltb, if◌then◌else◌, ◌∙◌, ap, inl, inr, Bool-cases, ltb→lt, lt→ltb,
}
use ed.Common.Int.{ℤ}
use native.Mathlib.Nat.{pow-suc}
use ed.Address.{ok, isdigit, digits, strtoll, llong_max, char}

-- The numeral of `n`, with at most `fuel` digits, before the text `s`.
unfoldable pub show : ℕ → ℕ → List ℕ → List ℕ
show zero n s = s
show (suc fuel) n s =
    let more = show fuel (n / 10) ((b'0' + n % 10) ∷ s) in if ltb n 10 then (b'0' + n) ∷ s else more

-- The numeral of an address. It has at most 19 digits.
unfoldable pub decimal : ℕ → List ℕ → List ℕ
unfolding show
decimal n s = show 20 n s

decimal_runs : decimal 1203 [] ≡ b'1' ∷ b'2' ∷ b'0' ∷ b'3' ∷ []
unfolding decimal
decimal_runs = refl

digits-digit :
    (acc n : ℕ) (s : List ℕ) → n < 10 → digits acc ((b'0' + n) ∷ s) ≡ digits (acc * 10 + n) s
unfolding digits
digits-digit acc n s h = let e : b'0' + n - b'0' ≡ n = omega arith in rw e (ground arith)

digits-first : (n : ℕ) (s : List ℕ) → n < 10 → digits 0 ((b'0' + n) ∷ s) ≡ digits n s
digits-first n s h =
    let e : 0 * 10 + n ≡ n = omega arith in digits-digit 0 n s h ∙ ap (λ (m : ℕ). digits m s) e

-- Reading the numeral of `n` goes on with what follows it.
digits-show :
    (fuel n : ℕ) (s : List ℕ) → n < 10 ^ suc fuel → digits 0 (show (suc fuel) n s) ≡ digits n s
unfolding show
digits-show zero n s h = let l : n < 10 = h in rw (lt→ltb n 10 l) (digits-first n s l)
digits-show (suc fuel) n s h = elim (Bool-cases (ltb n 10)) [
  | inl e ↦ rw e (digits-first n s (ltb→lt n 10 e))
  | inr e ↦
      let less : n / 10 < 10 ^ suc fuel = omega (arith, pow-suc 10 (suc fuel)) in
      let whole : n / 10 * 10 + n % 10 ≡ n = omega arith in
      rw e (
        digits-show fuel (n / 10) ((b'0' + n % 10) ∷ s) less
        ∙ digits-digit (n / 10) (n % 10) s (omega arith)
        ∙ ap (λ (m : ℕ). digits m s) whole)
]

digits-stop : (n : ℕ) (s : List ℕ) → isdigit (char s) ≡ false → digits n s ≡ (n, s)
unfolding digits
digits-stop n [] h = refl
digits-stop n (c ∷ s) h = rw h

-- `strtoll` reads back the numeral of every address, up to the character that ends it.
pub strtoll-decimal :
    (n : ℕ) (s : List ℕ) (dot : ℤ)
    → n ≤ llong_max
    → isdigit (char s) ≡ false
    → strtoll (record { input = decimal n s; dot = dot }) ≡ ok n (record { input = s; dot = dot })
unfolding strtoll decimal
strtoll-decimal n s dot h e =
    let small : n < 10 ^ 20 = omega arith in
    rw (digits-show 19 n s small, digits-stop n s e) (ground arith)

isdigit-show :
    (fuel n : ℕ) (s : List ℕ) → n < 10 ^ suc fuel → isdigit (char (show (suc fuel) n s)) ≡ true
unfolding show
isdigit-show zero n s h = let l : n < 10 = h in rw (lt→ltb n 10 l) (ground arith)
isdigit-show (suc fuel) n s h = elim (Bool-cases (ltb n 10)) [
  | inl e ↦ rw e (ground arith)
  | inr e ↦
      let less : n / 10 < 10 ^ suc fuel = omega (arith, pow-suc 10 (suc fuel)) in
      rw e (isdigit-show fuel (n / 10) ((b'0' + n % 10) ∷ s) less)
]

-- A numeral begins with a digit.
pub isdigit-decimal : (n : ℕ) (s : List ℕ) → n ≤ llong_max → isdigit (char (decimal n s)) ≡ true
unfolding decimal
isdigit-decimal n s h = let small : n < 10 ^ 20 = omega arith in isdigit-show 19 n s small
