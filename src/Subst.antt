-- ===== src/Subst.antt =====
-- Substitution (src/subst.c): its modifiers, its template, and the matches of a line. Characters
-- are bytes, and a text is the list of them.
pub mod Template
pub mod Growth
pub mod Stack
pub mod Literal
pub mod Copy
pub mod Verbatim
pub mod Matches
pub mod Counts
pub mod Replace
pub mod Step
pub mod Ends
pub mod Same
pub mod Modifiers
pub mod Again
pub mod Letters
pub mod Offsets
pub mod Spelled
pub mod Suffixes
pub mod Division
pub mod Tests
use ed.Common.{
  ℕ, zero, suc, ◌+◌, ◌-◌, ◌*◌, ◌/◌, ◌^◌, Bool, true, false, ◌||◌, ◌&&◌, Option, none, some, List,
  [], ◌∷◌, ◌++◌, length, take, drop, ltb, leb, ◌==◌, if◌then◌else◌,
}

abbrev pub size_max : ℕ
size_max = 2 ^ 64 - 1

-- The size that `realloc_buffer` (src/buffer.c) gives a buffer of size `n` for `i` bytes, where
-- BUFSIZ of the C library is `bufsiz`, a power of two: the shifts are by its logarithm.
unfoldable pub realloc_buffer : ℕ → ℕ → ℕ → ℕ
realloc_buffer bufsiz n i =
    if ltb i n
    then n
    else if ltb i bufsiz
    then bufsiz
    else if leb (i / bufsiz) (size_max / (2 * bufsiz))
    then i / bufsiz * (2 * bufsiz)
    else i

-- `toupper` and `tolower` of the C library; whether there is memory for the text of a length.
pub record Env : Type 0 where
  pub toupper : ℕ → ℕ
  pub tolower : ℕ → ℕ
  pub grow : ℕ → Bool

-- A case change: 1, -1 or 0 in the source.
pub data Change : Type 0 where
  upper lower keep : Change

abbrev pub is_upper : Change → Bool
is_upper upper = true
is_upper lower = false
is_upper keep = false

abbrev pub is_lower : Change → Bool
is_lower upper = false
is_lower lower = true
is_lower keep = false

-- The groups of a match: `rm_so` and `rm_eo`, where -1 for a group that takes no part is `none`.
abbrev pub Groups : Type 0
Groups = List (Option (ℕ × ℕ))

abbrev pub group : Groups → ℕ → Option (Option (ℕ × ℕ))
group [] n = none
group (g ∷ gs) zero = some g
group (g ∷ gs) (suc n) = group gs n

-- What the loop of `apply_subst_template` carries: the text in `rb`, the stack of case changes from
-- the top down, the change of the next character, and whether `sub` is behind a backslash.
pub record Expansion : Type 0 where
  pub rb : List ℕ
  pub cc : List Change
  pub change_once : Change
  pub escaped : Bool

-- The loop goes on; there was no memory; or a write beyond the end of the stack `cc`.
pub data Applied : Type 0 where
  going : Expansion → Applied
  no_memory overrun : Applied

abbrev pub top : List Change → Change
top [] = keep
top (c ∷ cs) = c
