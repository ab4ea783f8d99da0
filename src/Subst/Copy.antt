-- ===== src/Subst/Copy.antt =====
-- `substitution_template` (src/subst.c): the template is copied from the command buffer.
use ed.Common.{
  ℕ, ◌+◌, Bool, ◌||◌, ◌&&◌, Option, none, some, List, [], ◌∷◌, ◌++◌, ◌==◌, if◌then◌else◌,
}
use ed.Address.{char, advance}

-- The template with the command buffer behind it; "No previous substitution"; no memory; or a read
-- behind the end of the command buffer, which has no newline at its end then.
pub data Copied : Type 0 where
  copied : List ℕ → List ℕ → Copied
  no_previous no_memory past_end : Copied

abbrev pub prefixed : List ℕ → Copied → Copied
prefixed cs (copied rhs rest) = copied (cs ++ rhs) rest
prefixed cs no_previous = no_previous
prefixed cs no_memory = no_memory
prefixed cs past_end = past_end

-- What a round of the loop does at the character `c` before `d`.
pub data Round : Type 0 where
  ends newline_nul delimiter pair single : Round

unfoldable pub round : ℕ → ℕ → ℕ → Round
round dc c d =
    if c == dc
    then Round.ends
    else if (c == 10) && (d == 0)
    then Round.newline_nul
    else if c == 92
    then (if d == dc then Round.delimiter else if d == 92 then Round.pair else Round.single)
    else Round.single

-- The loop. `rhs_i` characters are copied already; `grow n` says whether `rhs` can have `n` bytes.
unfoldable pub template_copy : (ℕ → Bool) → ℕ → ℕ → List ℕ → Copied
unfolding round
template_copy grow dc rhs_i [] = past_end
template_copy grow dc rhs_i (c ∷ []) = elim (round dc c 0) [
  | Round.ends ↦ if grow (rhs_i + 1) then copied [] (c ∷ []) else no_memory
  | Round.newline_nul ↦
      if grow (rhs_i + 2) && grow (rhs_i + 1) then copied [] (c ∷ []) else no_memory
  | _ ↦ if grow (rhs_i + 2) then past_end else no_memory
]
template_copy grow dc rhs_i (c ∷ d ∷ s) = elim (round dc c d) [
  | Round.ends ↦ if grow (rhs_i + 1) then copied [] (c ∷ d ∷ s) else no_memory
  | Round.newline_nul ↦
      if grow (rhs_i + 2) && grow (rhs_i + 1) then copied [] (c ∷ d ∷ s) else no_memory
  | Round.delimiter ↦
      if grow (rhs_i + 2)
      then prefixed (d ∷ []) (template_copy grow dc (rhs_i + 1) s)
      else no_memory
  | Round.pair ↦
      if grow (rhs_i + 2)
      then prefixed (c ∷ d ∷ []) (template_copy grow dc (rhs_i + 2) s)
      else no_memory
  | Round.single ↦
      if grow (rhs_i + 2)
      then prefixed (c ∷ []) (template_copy grow dc (rhs_i + 1) (d ∷ s))
      else no_memory
]

-- substitution_template, at the delimiter before the template. `rhs` is the previous template.
unfoldable pub substitution_template : (ℕ → Bool) → ℕ → Option (List ℕ) → List ℕ → Copied
unfolding template_copy
substitution_template grow dc rhs input =
    let s = advance input in
    if (char s == b'%') && ((char (advance s) == dc) || (char (advance s) == 10))
    then elim rhs [ none ↦ no_previous | some r ↦ copied r (advance s) ]
    else template_copy grow dc 0 s
