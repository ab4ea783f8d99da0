-- ===== src/Crypt/Key.antt =====
-- The key of a cipher (src/cbc.c: `get_des_keyword` and what it calls).
use Prim.Native.Nat.{bit_and, bit_or}
use ed.Common.{
  ℕ, zero, suc, ◌+◌, ◌*◌, ◌%◌, Bool, true, false, ◌||◌, ◌&&◌, Option, none, some, List, [], ◌∷◌,
  ◌++◌, map, length, take, drop, get_or, ◌==◌, if◌then◌else◌,
}

-- What the C library and the DES library give: `strtol` of one character in a radix, and whether
-- `errno` is EINVAL behind it; `DES_set_odd_parity`; and `DES_set_key`.
pub record KeyEnv (S : Type 0) : Type 0 where
  pub strtol : ℕ → ℕ → ℕ × Bool
  pub set_odd_parity : List ℕ → List ℕ
  pub schedule : List ℕ → S

-- The variables: `schedule`, `pflag` and `ed->exec->have_key`.
pub record Key (S : Type 0) : Type 0 where
  pub expanded : S
  pub pflag : Bool
  pub have_key : Bool

-- `char_to_int`, as it is built with `strtol`; `none` is -1.
unfoldable pub char_to_int : (ℕ → ℕ → ℕ × Bool) → ℕ → ℕ → Option ℕ
char_to_int strtol c radix =
    let (n, einval) = strtol c radix in if (n == 0) && einval then none else some n

-- A digit and those behind it, if all are digits.
abbrev pub with_digit : Option ℕ → Option (List ℕ) → Option (List ℕ)
with_digit none rest = none
with_digit (some d) none = none
with_digit (some d) (some ds) = some (d ∷ ds)

-- The loop that fills `nbuf` with `n` digits at most, up to the end of the string.
unfoldable pub key_digits : (ℕ → ℕ → ℕ × Bool) → ℕ → ℕ → List ℕ → Option (List ℕ)
key_digits strtol radix zero kbuf = some []
key_digits strtol radix (suc n) [] = some []
key_digits strtol radix (suc n) (c ∷ cs) =
    with_digit (char_to_int strtol c radix) (key_digits strtol radix n cs)

-- All `n` digits, or no key.
abbrev pub whole : ℕ → Option (List ℕ) → Option (List ℕ)
whole n none = none
whole n (some ds) = if length ds == n then some ds else none

-- `obuf[i] = (obuf[i] << 1) | nbuf[8 * i + j]`, for each j
unfoldable pub shift_in : ℕ → List ℕ → ℕ
shift_in o [] = o
shift_in o (d ∷ ds) = shift_in (bit_or (o * 2) d % 256) ds

unfoldable pub from_bits : List ℕ → List ℕ → List ℕ
unfolding shift_in
from_bits [] nbuf = []
from_bits (o ∷ obuf) nbuf = shift_in o (take 8 nbuf) ∷ from_bits obuf (drop 8 nbuf)

-- `((nbuf[2 * i] & 0xf) << 4) | (nbuf[2 * i + 1] & 0xf)`, for each i
unfoldable pub from_nibbles : List ℕ → List ℕ
from_nibbles [] = []
from_nibbles (h ∷ []) = []
from_nibbles (h ∷ l ∷ ds) = bit_or (bit_and h 0xf * 16) (bit_and l 0xf) ∷ from_nibbles ds

abbrev pub with_digits : (List ℕ → List ℕ) → Option (List ℕ) → Option (List ℕ × Bool)
with_digits f none = none
with_digits f (some ds) = some (f ds, true)

abbrev pub zeros : List ℕ
zeros = 0 ∷ 0 ∷ 0 ∷ 0 ∷ 0 ∷ 0 ∷ 0 ∷ 0 ∷ []

-- `expand_des_key` of the string `kbuf` into `obuf`: the key, and `pflag`; `none` is the error
-- "Invalid key".
unfoldable pub expand_des_key : (ℕ → ℕ → ℕ × Bool) → List ℕ → List ℕ → Bool → Option (List ℕ × Bool)
unfolding key_digits from_bits from_nibbles
expand_des_key strtol obuf kbuf pflag =
    let prefix = get_or kbuf 1 0 in
    if (get_or kbuf 0 0 == b'0') && ((prefix == b'b') || (prefix == b'B'))
    then with_digits (from_bits obuf) (whole 64 (key_digits strtol 2 64 (drop 2 kbuf)))
    else if (get_or kbuf 0 0 == b'0') && ((prefix == b'x') || (prefix == b'X'))
    then with_digits from_nibbles (whole 16 (key_digits strtol 16 16 (drop 2 kbuf)))
    else some (take 8 (kbuf ++ zeros), pflag)

-- `par`: which of the bits 0100, 040, 020, 010, 04, 02 and 01 are set.
unfoldable pub count_bits : ℕ → List ℕ → ℕ
count_bits b [] = 0
count_bits b (bit ∷ bits) =
    let rest = count_bits b bits in if bit_and bit b == 0 then rest else rest + 1

abbrev pub bits : List ℕ
bits = 64 ∷ 32 ∷ 16 ∷ 8 ∷ 4 ∷ 2 ∷ 1 ∷ []

-- The parity bit of a character.
unfoldable pub set_parity : ℕ → ℕ
unfolding count_bits
set_parity b =
    if bit_and (count_bits b bits) 1 == 1 then bit_and b 0x7f else bit_or (bit_and b 0x7f) 0x80

unfoldable pub set_des_key : {S : Type 0} → KeyEnv S → List ℕ → Key S → Key S
unfolding set_parity
set_des_key env buf k = record k {
  expanded = env.schedule (env.set_odd_parity (if k.pflag then buf else map set_parity buf));
}

-- The key and `pflag` that `expand_des_key` gives, if any, are set; `false` is an error.
abbrev pub with_key : {S : Type 0} → KeyEnv S → Key S → Option (List ℕ × Bool) → Bool × Key S
with_key env k none = (false, k)
with_key env k (some (key, pflag)) =
    (true, record (set_des_key env key (record k { pflag = pflag })) { have_key = true })

-- `get_des_keyword`, where `getpass` gives `password`, a null pointer being `none`, and `msgbuf`
-- is what is in the buffer before.
unfoldable pub get_des_keyword :
    {S : Type 0} → KeyEnv S → Option (List ℕ) → List ℕ → Key S → Bool × Key S
unfolding set_des_key
get_des_keyword env none msgbuf k = (false, k)
get_des_keyword env (some []) msgbuf k = (true, record k { have_key = false })
get_des_keyword env (some (c ∷ cs)) msgbuf k =
    with_key env k (expand_des_key env.strtol msgbuf (c ∷ cs) k.pflag)
