-- ===== src/Words/Pattern.antt =====
-- `regular_expression` and `character_class` (src/parse.c).
use ed.Common.{
  ℕ, zero, suc, ◌-◌, Bool, not, ◌&&◌, ◌||◌, List, [], ◌∷◌, length, take, ◌==◌, if◌then◌else◌,
}
use ed.Address.{char, advance}

-- Where a scan of the command buffer stops; or its error; or a read past the end of the buffer,
-- which a newline always precedes.
pub data Scan : Type 0 where
  unbalanced backslash past_end out_of_fuel : Scan
  at : List ℕ → Scan

-- Outside of a class name, or inside of `[dc`, where `c` was read last.
pub data Within : Type 0 where
  outside : Within
  inside : (d c : ℕ) → Within

-- Both loops of `character_class`.
unfoldable pub class_loop : Within → List ℕ → Scan
class_loop outside [] = past_end
class_loop outside (x ∷ []) =
    if x == b']' then at (x ∷ []) else if x == 10 then unbalanced else past_end
class_loop outside (x ∷ d ∷ s) =
    let name = class_loop (inside d (char s)) s in
    let next = class_loop outside (d ∷ s) in
    if x == b']'
    then at (x ∷ d ∷ s)
    else if x == 10
    then unbalanced
    else if (x == b'[') && ((d == b'.') || (d == b':') || (d == b'='))
    then name
    else next
class_loop (inside d c) [] = past_end
class_loop (inside d c) (x ∷ s) =
    let closed = class_loop outside s in
    let more = class_loop (inside d x) s in
    if (x == b']') && (c == d) then closed else if x == 10 then unbalanced else more

unfoldable pub character_class : List ℕ → Scan
unfolding class_loop
character_class s =
    let s₁ = if char s == b'^' then advance s else s in
    let s₂ = if char s₁ == b']' then advance s₁ else s₁ in class_loop outside s₂

-- Whether the loop of `regular_expression` stops.
abbrev pub stops : ℕ → List ℕ → Bool
stops dc s = ((char s == dc) && not ((dc == 92) && (char (advance s) == dc))) || (char s == 10)

-- The `for` loop with `fuel` rounds left. A round takes a character at least.
unfoldable pub pattern_loop : ℕ → ℕ → List ℕ → Scan
unfolding character_class
pattern_loop zero dc s = out_of_fuel
pattern_loop (suc fuel) dc [] = if stops dc [] then at [] else past_end
pattern_loop (suc fuel) dc (c ∷ s) =
    let plain = pattern_loop fuel dc s in
    let escaped : Scan = elim s [ [] ↦ past_end | d ∷ t ↦ pattern_loop fuel dc t ] in
    let class : Scan = elim (character_class s) [
      | at t ↦ pattern_loop fuel dc (advance t)
      | r ↦ r
    ] in
    if stops dc (c ∷ s)
    then at (c ∷ s)
    else if c == b'['
    then class
    else if c == 92
    then (if char s == 10 then backslash else escaped)
    else plain

-- Where the pattern ends. The pattern is what stands before it.
unfoldable pub regular_expression : ℕ → List ℕ → Scan
unfolding pattern_loop
regular_expression dc s = pattern_loop (suc (length s)) dc s

abbrev pub pattern_before : List ℕ → List ℕ → List ℕ
pattern_before rest s = take (length s - length rest) s
