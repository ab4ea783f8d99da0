-- ===== src/Words/Quote.antt =====
-- `shell_quote` (src/parse.c).
use ed.Common.{ℕ, ◌+◌, Bool, List, [], ◌∷◌, ◌++◌, length, ltb, leb, ◌==◌, if◌then◌else◌}

-- The bytes written before the NUL; a failed allocation; or a write past the end of the buffer.
pub data Quoted : Type 0 where
  no_memory overrun : Quoted
  quoted : List ℕ → Quoted

-- `*(quoted + idx++) = …` for each of the bytes, in a buffer of the size, and what follows.
unfoldable pub emit : ℕ → ℕ → List ℕ → Quoted → Quoted
emit size idx bytes (quoted rest) =
    if leb (idx + length bytes) size then quoted (bytes ++ rest) else overrun
emit size idx bytes no_memory = no_memory
emit size idx bytes overrun = overrun

-- `*(quoted + idx) = '\0'`
unfoldable pub terminate : ℕ → ℕ → Quoted
terminate size idx = if ltb idx size then quoted [] else overrun

-- REALLOC_ADD_THROW to `n` bytes, where `grow n` says whether there is memory: the size is at
-- least `n` then.
abbrev pub grown : ℕ → ℕ → ℕ
grown size n = if ltb n size then size else n

-- The `for` loop, with the length `len` counted so far.
unfoldable pub quote_rest : (ℕ → Bool) → ℕ → ℕ → ℕ → List ℕ → Quoted
unfolding emit terminate
quote_rest grow len size idx [] = terminate size idx
quote_rest grow len size idx (c ∷ []) =
    if c == 39
    then (if grow (len + 3)
        then emit (grown size (len + 3)) idx (39 ∷ 92 ∷ 39 ∷ [])
            (terminate (grown size (len + 3)) (idx + 3))
        else no_memory)
    else emit size idx (c ∷ 39 ∷ []) (terminate size (idx + 2))
quote_rest grow len size idx (c ∷ d ∷ fn) =
    let escaped = quote_rest grow (len + 3) (grown size (len + 4)) (idx + 4) (d ∷ fn) in
    let plain = quote_rest grow len size (idx + 1) (d ∷ fn) in
    if c == 39
    then (if grow (len + 4)
        then emit (grown size (len + 4)) idx (39 ∷ 92 ∷ 39 ∷ 39 ∷ []) escaped
        else no_memory)
    else emit size idx (c ∷ []) plain

-- The `while` loop over the leading quotes, and what follows it.
unfoldable pub quote_leading : (ℕ → Bool) → ℕ → ℕ → ℕ → List ℕ → Quoted
quote_leading grow len size idx [] = terminate size idx
quote_leading grow len size idx (c ∷ fn) =
    let rest = quote_leading grow (len + 1) (grown size (len + 2)) (idx + 2) fn in
    if c == 39
    then (if grow (len + 2) then emit (grown size (len + 2)) idx (92 ∷ 39 ∷ []) rest else no_memory)
    else emit size idx (39 ∷ []) (quote_rest grow len size (idx + 1) (c ∷ fn))

-- `size` is the size of the static buffer before the call.
unfoldable pub shell_quote : (ℕ → Bool) → ℕ → List ℕ → Quoted
unfolding quote_leading
shell_quote grow size fn =
    let len = length fn in
    let size' = grown size (len + 3) in
    if grow (len + 3)
    then if len == 0
      then emit size' 0 (39 ∷ 39 ∷ []) (terminate size' 2)
      else quote_leading grow (len + 2) size' 0 fn
    else no_memory
