-- ===== src/Crypt/Parity.antt =====
-- The parity that `set_des_key` (src/cbc.c) gives the characters of a key.
use ed.Common.{
  ℕ, ◌+◌, ◌-◌, ◌*◌, ◌/◌, ◌%◌, ◌<◌, ◌≡◌, refl, ap, ◌∙◌, sym, Bool, true, ◌&&◌, ◌||◌, ◌++◌, take,
  get_or, List, [], ◌∷◌, map, arith, ◌==◌,
}
use ed.Common.Bits.{all_below, all_below_sound}
use ed.Crypt.Xor.{AreBytes}
use ed.Crypt.Key.{KeyEnv, Key, set_parity, zeros}

-- The number of ones among the eight bits of a character.
abbrev pub ones : ℕ → ℕ
ones b =
    b % 2 + b / 2 % 2 + b / 4 % 2 + b / 8 % 2 + b / 16 % 2 + b / 32 % 2 + b / 64 % 2 + b / 128 % 2

-- A character of odd parity, with the low seven bits of `b`.
abbrev pub OddParity : ℕ → ℕ → Type 0
OddParity b c = (c < 256) × (c % 128 ≡ b % 128) × (ones c % 2 ≡ 1)

abbrev parity_test : ℕ → Bool
parity_test b =
    (set_parity b / 256 == 0) && (set_parity b % 128 == b % 128) && (ones (set_parity b) % 2 == 1)

-- Each character of a key against that of the password.
abbrev pub OddParities : List ℕ → List ℕ → Type 0
OddParities [] [] = Unit
OddParities [] (k ∷ ks) = ⊥
OddParities (c ∷ cs) [] = ⊥
OddParities (c ∷ cs) (k ∷ ks) = OddParity c k × OddParities cs ks

-- What `DES_set_odd_parity` makes of a character: the low bit is set so that the parity is odd.
abbrev pub LowParity : ℕ → ℕ → Type 0
LowParity b c = (c < 256) × (c / 2 ≡ b / 2) × (ones c % 2 ≡ 1)

abbrev pub LowParities : List ℕ → List ℕ → Type 0
LowParities [] [] = Unit
LowParities [] (k ∷ ks) = ⊥
LowParities (c ∷ cs) [] = ⊥
LowParities (c ∷ cs) (k ∷ ks) = LowParity c k × LowParities cs ks

abbrev pub SetsOddParity : (List ℕ → List ℕ) → Type 0
SetsOddParity set_odd_parity = (bs : List ℕ) → AreBytes bs → LowParities bs (set_odd_parity bs)

-- The character with the high seven bits of `b` and odd parity.
abbrev pub odd_low : ℕ → ℕ
odd_low b = b / 2 * 2 + (1 - ones (b / 2) % 2)

abbrev odd_low_test : ℕ → Bool
odd_low_test c = (ones c % 2 == 0) || (odd_low c == c)

odd_low_table : all_below 256 odd_low_test ≡ true
unfolding all_below
odd_low_table = refl

odd_low-ones : (c : ℕ) → c < 256 → ones c % 2 ≡ 1 → odd_low c ≡ c
odd_low-ones c h o = ground (arith, all_below_sound 256 odd_low_test c odd_low_table h)

LowParity-odd_low : (b c : ℕ) → LowParity b c → c ≡ odd_low b
LowParity-odd_low b c (h, e, o) = sym (odd_low-ones c h o) ∙ ap (λ n. n * 2 + (1 - ones n % 2)) e

pub LowParities-odd_low : (bs cs : List ℕ) → LowParities bs cs → cs ≡ map odd_low bs
LowParities-odd_low [] [] h = refl
LowParities-odd_low [] (c ∷ cs) h = absurd h
LowParities-odd_low (b ∷ bs) [] h = absurd h
LowParities-odd_low (b ∷ bs) (c ∷ cs) (h, hs) =
    rw (LowParity-odd_low b c h, LowParities-odd_low bs cs hs) refl

-- Whether a password is read as digits.
abbrev pub is_digits : List ℕ → Bool
is_digits cs =
    (get_or cs 0 0 == b'0')
    && ((get_or cs 1 0 == b'b')
        || (get_or cs 1 0 == b'B')
        || (get_or cs 1 0 == b'x')
        || (get_or cs 1 0 == b'X'))

-- What holds of a key that the password `cs` gives.
pub Keyed : {S : Type 0} → KeyEnv S → List ℕ → Bool × Key S → Type 0
Keyed env cs (done, k) =
    (done ≡ true)
    × (k.have_key ≡ true)
    × ((key : List ℕ) × (k.expanded ≡ env.schedule key) × OddParities (take 8 (cs ++ zeros)) key)
