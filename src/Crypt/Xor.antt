-- ===== src/Crypt/Xor.antt =====
-- The exclusive or of bytes and blocks, which undoes itself.
use Prim.Native.Nat.{bit_xor, digits, differ, bit_xor-bitwise}
use ed.Common.{
  ℕ, zero, suc, ◌+◌, ◌*◌, ◌/◌, ◌%◌, ◌^◌, ◌≤◌, ◌<◌, ◌≡◌, refl, ap, ◌∙◌, List, [], ◌∷◌, arith, length,
}
use native.Mathlib.Nat.{pow-suc}
use ed.Crypt.{xor_block}

abbrev xor_digits : ℕ → ℕ → ℕ → ℕ
xor_digits n a b = digits (λ b. b) differ n a b

xor_digits_fuel : (n m a b : ℕ) → a ≤ n → a ≤ m → xor_digits n a b ≡ xor_digits m a b
xor_digits_fuel zero zero a b p q = refl
xor_digits_fuel zero (suc m) zero b p q = refl
xor_digits_fuel zero (suc m) (suc a) b p q = absurd (omega arith)
xor_digits_fuel (suc n) zero zero b p q = refl
xor_digits_fuel (suc n) zero (suc a) b p q = absurd (omega arith)
xor_digits_fuel (suc n) (suc m) zero b p q = refl
xor_digits_fuel (suc n) (suc m) (suc a) b p q =
    omega (arith, xor_digits_fuel n m (suc a / 2) (b / 2) (omega arith) (omega arith))

zero-bit_xor : (b : ℕ) → bit_xor 0 b ≡ b
zero-bit_xor b = bit_xor-bitwise 0 b

-- Two digits differ exactly where their sum is odd.
differ-bits : (a b : ℕ) → a < 2 → b < 2 → differ a b ≡ (a + b) % 2
differ-bits zero b p q = omega arith
differ-bits (suc zero) zero p q = refl
differ-bits (suc zero) (suc zero) p q = refl
differ-bits (suc zero) (suc (suc b)) p q = absurd (omega arith)
differ-bits (suc (suc a)) b p q = absurd (omega arith)

bit_xor_step : (a b : ℕ) → bit_xor a b ≡ bit_xor (a / 2) (b / 2) * 2 + (a % 2 + b % 2) % 2
bit_xor_step zero b = omega (arith, zero-bit_xor b, zero-bit_xor (b / 2))
bit_xor_step (suc a) b = omega (
  arith,
  bit_xor-bitwise (suc a) b,
  bit_xor-bitwise (suc a / 2) (b / 2),
  xor_digits_fuel a (suc a / 2) (suc a / 2) (b / 2) (omega arith) (omega arith),
  differ-bits (suc a % 2) (b % 2) (omega arith) (omega arith),
)

xor-xor_fuel : (n a b : ℕ) → a ≤ n → b ≤ n → bit_xor (bit_xor a b) b ≡ a
xor-xor_fuel zero zero zero p q = refl
xor-xor_fuel zero (suc a) b p q = absurd (omega arith)
xor-xor_fuel zero zero (suc b) p q = absurd (omega arith)
xor-xor_fuel (suc n) a b p q =
    let e = bit_xor_step a b in
    let f : bit_xor a b / 2 ≡ bit_xor (a / 2) (b / 2) = omega (arith, e) in
    omega (
      arith,
      e,
      bit_xor_step (bit_xor a b) b,
      ap (λ (x : ℕ). bit_xor x (b / 2)) f,
      xor-xor_fuel n (a / 2) (b / 2) (omega arith) (omega arith),
    )

xor-xor : (a b : ℕ) → bit_xor (bit_xor a b) b ≡ a
xor-xor a b = xor-xor_fuel (a + b) a b (omega arith) (omega arith)

xor-lt-pow : (k a b : ℕ) → a < 2 ^ k → b < 2 ^ k → bit_xor a b < 2 ^ k
xor-lt-pow zero zero zero p q = omega (arith, zero-bit_xor 0)
xor-lt-pow zero (suc a) b p q = absurd (omega arith)
xor-lt-pow zero zero (suc b) p q = absurd (omega arith)
xor-lt-pow (suc k) a b p q =
    let e : 2 ^ suc k ≡ 2 ^ k * 2 = pow-suc 2 k in
    omega (
      arith,
      e,
      bit_xor_step a b,
      xor-lt-pow k (a / 2) (b / 2) (omega (arith, e)) (omega (arith, e)),
    )

xor-byte : (a b : ℕ) → a < 256 → b < 256 → bit_xor a b < 256
xor-byte a b p q = xor-lt-pow 8 a b p q

-- Every entry is a byte.
abbrev pub AreBytes : List ℕ → Type 0
AreBytes [] = Unit
AreBytes (c ∷ cs) = (c < 256) × AreBytes cs

abbrev pub IsBlock : List ℕ → Type 0
IsBlock b = (length b ≡ 8) × AreBytes b

-- The second exclusive or with the same block undoes the first.
pub xor_block-xor_block : (b iv : List ℕ) → xor_block (xor_block b iv) iv ≡ b
unfolding xor_block
xor_block-xor_block [] iv = refl
xor_block-xor_block (c ∷ cs) [] = refl
xor_block-xor_block (c ∷ cs) (v ∷ iv) = rw (xor-xor c v, xor_block-xor_block cs iv) refl

pub length-xor_block : (b iv : List ℕ) → length (xor_block b iv) ≡ length b
unfolding xor_block
length-xor_block [] iv = refl
length-xor_block (c ∷ cs) [] = refl
length-xor_block (c ∷ cs) (v ∷ iv) = ap suc (length-xor_block cs iv)

xor_block-AreBytes : (b iv : List ℕ) → AreBytes b → AreBytes iv → AreBytes (xor_block b iv)
unfolding xor_block
xor_block-AreBytes [] iv p q = tt
xor_block-AreBytes (c ∷ cs) [] p q = p
xor_block-AreBytes (c ∷ cs) (v ∷ iv) (p, ps) (q, qs) =
    (xor-byte c v p q, xor_block-AreBytes cs iv ps qs)

pub xor_block-IsBlock : (b iv : List ℕ) → IsBlock b → IsBlock iv → IsBlock (xor_block b iv)
xor_block-IsBlock b iv (l, p) (k, q) = (length-xor_block b iv ∙ l, xor_block-AreBytes b iv p q)
