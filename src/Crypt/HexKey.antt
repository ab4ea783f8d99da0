-- ===== src/Crypt/HexKey.antt =====
-- Keys in hexadecimal digits (`expand_des_key` of src/cbc.c).
use Prim.Native.Nat.{bit_or, bit_and}
use ed.Common.{
  ℕ, zero, suc, ◌*◌, ◌/◌, ◌%◌, ◌<◌, ◌≡◌, refl, ap, ◌∙◌, Bool, true, false, some, List, [], ◌∷◌,
  arith, length, map, ◌==◌,
}
use ed.Common.Bits.{all_below, all_below_sound}
use ed.Crypt.Xor.{AreBytes, IsBlock}
use ed.Crypt.Parity.{SetsOddParity, LowParities-odd_low, odd_low}
use ed.Crypt.Key.{
  KeyEnv, Key, with_digit, char_to_int, key_digits, from_nibbles, whole, with_digits, with_key,
  expand_des_key, get_des_keyword,
}

-- `digit` prints the numbers below sixteen, and `strtol` reads them back.
abbrev pub ReadsDigits : (ℕ → ℕ → ℕ × Bool) → (ℕ → ℕ) → Type 0
ReadsDigits strtol digit = (d : ℕ) → d < 16 → strtol (digit d) 16 ≡ (d, false)

-- The two digits of each character of a key.
unfoldable pub hex_digits : (ℕ → ℕ) → List ℕ → List ℕ
hex_digits digit [] = []
hex_digits digit (b ∷ bs) = digit (b / 16) ∷ digit (b % 16) ∷ hex_digits digit bs

unfoldable nibbles : List ℕ → List ℕ
nibbles [] = []
nibbles (b ∷ bs) = b / 16 ∷ b % 16 ∷ nibbles bs

abbrev nibbles_test : ℕ → Bool
nibbles_test b = bit_or (bit_and (b / 16) 0xf * 16) (bit_and (b % 16) 0xf) == b

nibbles_table : all_below 256 nibbles_test ≡ true
unfolding all_below
nibbles_table = refl

from_nibbles-nibbles : (bs : List ℕ) → AreBytes bs → from_nibbles (nibbles bs) ≡ bs
unfolding from_nibbles nibbles
from_nibbles-nibbles [] h = refl
from_nibbles-nibbles (b ∷ bs) (h, hs) =
    let e : bit_or (bit_and (b / 16) 0xf * 16) (bit_and (b % 16) 0xf) ≡ b =
      ground (arith, all_below_sound 256 nibbles_test b nibbles_table h) in
    rw (e, from_nibbles-nibbles bs hs) refl

length-nibbles : (bs : List ℕ) → length (nibbles bs) ≡ 2 * length bs
unfolding nibbles
length-nibbles [] = refl
length-nibbles (b ∷ bs) = omega (arith, length-nibbles bs)

abbrev double : ℕ → ℕ
double zero = zero
double (suc n) = suc (suc (double n))

module _ (strtol : ℕ → ℕ → ℕ × Bool) (digit : ℕ → ℕ) (reads : ReadsDigits strtol digit) where
  char_to_int-digit : (d : ℕ) → d < 16 → char_to_int strtol (digit d) 16 ≡ some d
  unfolding char_to_int
  char_to_int-digit d h = rw (reads d h) (ground arith)

  key_digits-hex :
      (n : ℕ) (bs : List ℕ)
      → AreBytes bs
      → length bs ≡ n
      → key_digits strtol 16 (double n) (hex_digits digit bs) ≡ some (nibbles bs)
  unfolding key_digits hex_digits nibbles
  key_digits-hex zero [] h l = refl
  key_digits-hex zero (b ∷ bs) h l = absurd (omega arith)
  key_digits-hex (suc n) [] h l = absurd (omega arith)
  key_digits-hex (suc n) (b ∷ bs) (h, hs) l =
      let rest = key_digits strtol 16 (double n) (hex_digits digit bs) in
      ap (λ r. with_digit r (with_digit (char_to_int strtol (digit (b % 16)) 16) rest))
        (char_to_int-digit (b / 16) (omega arith))
      ∙ ap (λ r. with_digit (some (b / 16)) (with_digit r rest))
          (char_to_int-digit (b % 16) (omega arith))
      ∙ ap (λ r. with_digit (some (b / 16)) (with_digit (some (b % 16)) r))
          (key_digits-hex n bs hs (omega arith))

  whole-nibbles : (bs : List ℕ) → length bs ≡ 8 → whole 16 (some (nibbles bs)) ≡ some (nibbles bs)
  whole-nibbles bs l = ground (arith, length-nibbles bs)

  expand_des_key-hex :
      (bs obuf : List ℕ) (pflag : Bool)
      → IsBlock bs
      → expand_des_key strtol obuf (b'0' ∷ b'x' ∷ hex_digits digit bs) pflag ≡ some (bs, true)
  unfolding expand_des_key
  expand_des_key-hex bs obuf pflag (l, b) =
      ap (λ r. with_digits from_nibbles (whole 16 r)) (key_digits-hex 8 bs b l)
      ∙ ap (with_digits from_nibbles) (whole-nibbles bs l)
      ∙ ap (λ (key : List ℕ). some (key, true)) (from_nibbles-nibbles bs b)

-- Eight bytes, typed as `0x` and their hexadecimal digits, give the key of their high seven bits,
-- whatever key there was before: `DES_set_odd_parity` replaces the low bit of each by its parity,
-- although `pflag` is set.
pub get_des_keyword-hex :
    {S : Type 0} (env : KeyEnv S) (digit : ℕ → ℕ) (bs msgbuf : List ℕ) (k : Key S)
    → ReadsDigits env.strtol digit
    → SetsOddParity env.set_odd_parity
    → IsBlock bs
    → get_des_keyword env (some (b'0' ∷ b'x' ∷ hex_digits digit bs)) msgbuf k
      ≡ (true, record { expanded = env.schedule (map odd_low bs); pflag = true; have_key = true })
unfolding get_des_keyword
get_des_keyword-hex env digit bs msgbuf k reads law b =
    ap (with_key env k) (expand_des_key-hex env.strtol digit reads bs msgbuf k.pflag b)
    ∙ ap (λ key. (true, record { expanded = env.schedule key; pflag = true; have_key = true }))
        (LowParities-odd_low bs (env.set_odd_parity bs) (law bs b.1))
