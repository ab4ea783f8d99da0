-- ===== src/Address/Found.antt =====
-- `get_matching_node_address` (src/regexp.c) finds the first match in the order of the search.
use ed.Common.{
  ℕ, zero, suc, ◌+◌, ◌-◌, ◌≤◌, ◌≡◌, Bool, true, false, Option, none, some, List, [], ◌∷◌, ◌++◌,
  arith, ltb, if◌then◌else◌, ◌&&◌,
}
use ed.Address.Search.{matching_loop, get_matching_node_address}

-- `k` numbers from `n` up, and from `n` down.
unfoldable pub up : ℕ → ℕ → List ℕ
up n zero = []
up n (suc k) = n ∷ up (suc n) k

unfoldable pub down : ℕ → ℕ → List ℕ
down n zero = []
down n (suc k) = n ∷ down (n - 1) k

-- The first line of the list that matches. Line 0 is no line.
unfoldable pub find : (ℕ → Bool) → List ℕ → Option ℕ
find matches [] = none
find matches (n ∷ ns) = let rest = find matches ns in if ltb 0 n && matches n then some n else rest

-- Forwards: the lines behind `dot`, then those from the beginning up to `dot`. Backwards: the
-- lines before `dot`, then those from the end down to `dot`.
unfoldable pub search_order : Bool → ℕ → ℕ → List ℕ
unfolding up down
search_order true lines dot = up (suc dot) (lines - dot) ++ up 0 (suc dot)
search_order false lines dot = down (dot - 1) dot ++ down lines (suc (lines - dot))

module _ (matches : ℕ → Bool) (lines dot : ℕ) where
  -- Forwards from a line before `dot`.
  forward_before :
      (k fuel addr : ℕ)
      → addr + suc k ≡ dot
      → dot ≤ lines
      → suc k ≤ fuel
      → matching_loop matches true lines dot fuel addr ≡ some (find matches (up (suc addr) (suc k)))
  unfolding matching_loop find up
  forward_before k zero addr e l m = absurd (omega arith)
  forward_before zero (suc fuel) addr e l m = ground arith
  forward_before (suc k) (suc fuel) addr e l m = ground (arith, forward_before k fuel (suc addr))

  -- Forwards from `dot` or a line behind it.
  forward_behind :
      (k fuel addr : ℕ)
      → addr + k ≡ lines
      → dot ≤ addr
      → suc (k + dot) ≤ fuel
      → matching_loop matches true lines dot fuel addr
        ≡ some (find matches (up (suc addr) k ++ up 0 (suc dot)))
  unfolding matching_loop find up
  forward_behind k zero addr e l m = absurd (omega arith)
  forward_behind zero (suc fuel) addr e l m = ground (arith, forward_before (dot - 1) fuel 0)
  forward_behind (suc k) (suc fuel) addr e l m = ground (arith, forward_behind k fuel (suc addr))

  -- Backwards from a line behind `dot`.
  backward_behind :
      (k fuel addr : ℕ)
      → dot + suc k ≡ addr
      → addr ≤ lines
      → suc k ≤ fuel
      → matching_loop matches false lines dot fuel addr
        ≡ some (find matches (down (addr - 1) (suc k)))
  unfolding matching_loop find down
  backward_behind k zero addr e l m = absurd (omega arith)
  backward_behind zero (suc fuel) addr e l m = ground arith
  backward_behind (suc k) (suc fuel) addr e l m = ground (arith, backward_behind k fuel (addr - 1))

  -- Backwards from `dot` or a line before it.
  backward_before :
      (fuel addr : ℕ)
      → addr ≤ dot
      → dot ≤ lines
      → suc (addr + (lines - dot)) ≤ fuel
      → matching_loop matches false lines dot fuel addr
        ≡ some (find matches (down (addr - 1) addr ++ down lines (suc (lines - dot))))
  unfolding matching_loop find down
  backward_before zero addr e l m = absurd (omega arith)
  backward_before (suc fuel) zero e l m =
      ground (arith, backward_behind (lines - dot - 1) fuel lines)
  backward_before (suc fuel) (suc addr) e l m = ground (arith, backward_before fuel addr)

-- The search ends, and returns the first matching line in the order of the search; ERR exactly
-- where no line matches.
pub get_matching_node_address-find :
    (matches : ℕ → Bool) (forward : Bool) (lines dot : ℕ)
    → dot ≤ lines
    → get_matching_node_address matches forward lines dot
      ≡ some (find matches (search_order forward lines dot))
unfolding get_matching_node_address search_order
get_matching_node_address-find matches true lines dot l =
    forward_behind matches lines dot (lines - dot) (lines + 1) dot (omega arith) (omega arith)
      (omega arith)
get_matching_node_address-find matches false lines dot l =
    backward_before matches lines dot (lines + 1) dot (omega arith) l (omega arith)
