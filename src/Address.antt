-- ===== src/Address.antt =====
-- Line addresses (src/parse.c): `address_range` and what it calls. The command buffer is the list
-- of its characters from `input` on; a read past its end gives the terminating NUL.
--
-- Addresses are of type off_t, with 64 bits. Where C leaves an addition undefined because its
-- result is out of range, the model returns the error `overflow`.
pub mod Offset
pub mod Range
pub mod Decimal
pub mod Consume
pub mod Bounds
pub mod Search
pub mod Found
pub mod Current
pub mod Tests
use ed.Common.{
  ℕ, zero, suc, ◌+◌, ◌-◌, ◌*◌, ◌^◌, ◌≤◌, ◌<◌, ◌≡◌, Bool, true, false, not, ◌&&◌, ◌||◌, Option, none,
  some, List, [], ◌∷◌, length, ltb, leb, ◌==◌, if◌then◌else◌,
}
use ed.Common.Int.{ℤ, pos, negsuc, pos_part, neg_part, ◌+ℤ◌, ◌-ℤ◌}

-- The part of the editor that addresses refer to: the number of lines, the marks
-- (`get_marked_node_address`), and the command-line flags POSIXLY_CORRECT and TRADITIONAL.
-- `search`, for `get_compiled_regex` at a delimiter, gives the lines that the pattern matches and
-- the command buffer behind the pattern.
pub record Env : Type 0 where
  pub lines : ℕ
  pub marked : ℕ → Option ℕ
  pub traditional : Bool
  pub search : ℕ → List ℕ → Option (ℕ → Bool) × List ℕ

-- `dot` is `ed->state->dot`.
pub record Parse : Type 0 where
  pub input : List ℕ
  pub dot : ℤ

pub data AddressError : Type 0 where
  out_of_range numerical_range no_match bad_pattern bad_mark overflow : AddressError

pub data Result (A : Type 0) : Type 0 where
  ok : A → Parse → Result A
  err : AddressError → Parse → Result A
  out_of_fuel : Result A

infixl 5 ◌>>=◌
abbrev pub ◌>>=◌ : {A B : Type 0} → Result A → (A → Parse → Result B) → Result B
ok a p >>= f = f a p
err e p >>= f = err e p
out_of_fuel >>= f = out_of_fuel

-- `*ed->input`
abbrev pub char : List ℕ → ℕ
char [] = 0
char (c ∷ s) = c

-- `++ed->input`
abbrev pub advance : List ℕ → List ℕ
advance [] = []
advance (c ∷ s) = s

abbrev pub isdigit : ℕ → Bool
isdigit c = leb b'0' c && leb c b'9'

-- `isspace` in the C locale
abbrev pub isspace : ℕ → Bool
isspace c = (c == 32) || (leb 9 c && leb c 13)

-- SKIP_WHITESPACE
unfoldable pub skip_whitespace : List ℕ → List ℕ
skip_whitespace [] = []
skip_whitespace (c ∷ s) =
    let rest = skip_whitespace s in if isspace c && not (c == 10) then rest else c ∷ s

-- IS_DELIMITER
abbrev pub is_delimiter : ℕ → Bool
is_delimiter c = (c == b'%') || (c == b',') || (c == b';')

-- The digits that `strtoll` reads.
unfoldable pub digits : ℕ → List ℕ → ℕ × List ℕ
digits n [] = (n, [])
digits n (c ∷ s) =
    let rest = digits (n * 10 + (c - b'0')) s in if isdigit c then rest else (n, c ∷ s)

abbrev pub llong_max : ℕ
llong_max = 2 ^ 63 - 1

-- STRTOLL_THROW, at a digit
unfoldable pub strtoll : Parse → Result ℕ
unfolding digits
strtoll p =
    let (n, rest) = digits 0 p.input in
    let q : Parse = record p { input = rest } in
    if leb n llong_max then ok n q else err numerical_range q

-- `addr += n` and `addr -= n`, of type off_t
abbrev pub off_t : ℤ → Parse → Result ℤ
off_t (pos n) p = if leb n llong_max then ok (pos n) p else err overflow p
off_t (negsuc n) p = if leb n llong_max then ok (negsuc n) p else err overflow p

-- check_address_bounds
unfoldable pub check_address_bounds : Env → ℤ → Parse → Result (Unit {0})
check_address_bounds env (pos n) p = if leb n env.lines then ok tt p else err out_of_range p
check_address_bounds env (negsuc n) p = err out_of_range p
