-- ===== src/Words/Tokens.antt =====
-- `strtok_with_delimiters` (src/parse.c).
use ed.Common.{
  ℕ, ◌≢◌, Bool, false, ◌&&◌, ◌||◌, Option, none, some, List, [], ◌∷◌, ◌==◌, if◌then◌else◌,
}

-- `strchr (delims, c)`, which finds the NUL at the end, too.
abbrev pub member : List ℕ → ℕ → Bool
member [] c = false
member (d ∷ ds) c = (d == c) || member ds c

abbrev pub strchr : List ℕ → ℕ → Bool
strchr delims c = (c == 0) || member delims c

-- `t += strspn (t, delims)`
unfoldable pub strspn : List ℕ → List ℕ → List ℕ
strspn delims [] = []
strspn delims (c ∷ t) = let rest = strspn delims t in if member delims c then rest else c ∷ t

-- A token, with the static `t` behind the character that ends it: `none` for NULL. `past_end` is
-- a read past the NUL of the string, which a trailing backslash leads to.
pub data Token : Type 0 where
  no_token past_end : Token
  token : List ℕ → Option (List ℕ) → Token

abbrev pub prepend : ℕ → Token → Token
prepend c no_token = no_token
prepend c past_end = past_end
prepend c (token s t) = token (c ∷ s) t

-- The `for` loop.
unfoldable pub token_loop : List ℕ → List ℕ → Token
token_loop delims [] = token [] none
token_loop delims (c ∷ []) =
    if c == 92
    then past_end
    else if strchr delims c
    then token [] (some [])
    else token (c ∷ []) none
token_loop delims (c ∷ d ∷ t) =
    let unescaped = prepend d (token_loop delims t) in
    let plain = prepend c (token_loop delims (d ∷ t)) in
    if (c == 92) && strchr delims d
    then unescaped
    else if strchr delims c
    then token [] (some (d ∷ t))
    else plain

-- What follows the leading delimiters.
unfoldable pub start : List ℕ → List ℕ → Token
start delims [] = no_token
start delims (c ∷ t) = token_loop delims (c ∷ t)

unfoldable pub strip : List ℕ → List ℕ → Token
strip delims t = start delims (strspn delims t)

-- `s` is NULL where it is `none`; `t` is the static variable, from the character behind it on.
unfoldable pub strtok_with_delimiters : Option (List ℕ) → Option (List ℕ) → List ℕ → Token
unfolding strip
strtok_with_delimiters (some s) t delims = strip delims s
strtok_with_delimiters none none delims = no_token
strtok_with_delimiters none (some []) delims = no_token
strtok_with_delimiters none (some (c ∷ t)) delims = strip delims (c ∷ t)

-- A backslash before each delimiter.
unfoldable pub escape : List ℕ → List ℕ → List ℕ
escape delims [] = []
escape delims (c ∷ w) = if member delims c then 92 ∷ c ∷ escape delims w else c ∷ escape delims w

-- The word has no NUL and does not end in a backslash.
abbrev pub IsWord : List ℕ → Type 0
IsWord [] = Unit
IsWord (c ∷ []) = (c ≢ 0) × (c ≢ 92)
IsWord (c ∷ d ∷ w) = (c ≢ 0) × IsWord (d ∷ w)
