-- ===== src/Line/Locate/Find.antt =====
-- `get_line_node_address` (src/buffer.c) searches the ring.
use ed.Common.{
  ℕ, zero, suc, ◌+◌, ◌<◌, ◌≡◌, false, Option, none, some, List, [], ◌∷◌, ◌++◌, arith, length, ◌==◌,
  ==_refl, if◌then◌else◌,
}
use ed.Line.{Ptr, Heap, has}
use ed.Line.Chain.{Chain}
use ed.Line.Ring.{IsRing}
use ed.Line.Locate.{address_loop, get_line_node_address}

-- The number of nodes of the list before `lp`.
unfoldable pub position : Ptr → List Ptr → Option ℕ
position lp [] = none
position lp (x ∷ xs) =
    if x == lp then some 0 else elim (position lp xs) [ none ↦ none | some i ↦ some (suc i) ]

-- What the search returns from `p` on, where `xs` are the nodes behind it.
found : Ptr → Ptr → ℕ → Option ℕ → ℕ → Ptr × ℕ
found head lp addr none n = (head, addr + n)
found head lp addr (some i) n = (lp, addr + i)

module _ (h : Heap) (head lp : Ptr) where
  address_loop_lem :
      (fuel : ℕ) (p : Ptr) (xs : List Ptr) (addr : ℕ)
      → Chain h p (xs ++ head ∷ [])
      → has head xs ≡ false
      → length xs < fuel
      → address_loop h head lp fuel p addr
        ≡ some (found head lp addr (position lp (p ∷ xs)) (length xs))
  unfolding address_loop position found
  address_loop_lem zero p xs addr c n l = absurd (omega arith)
  address_loop_lem (suc fuel) p [] addr c n l = rw c.0 (ground (arith, ==_refl head))
  address_loop_lem (suc fuel) p (x ∷ xs) addr c n l =
      rw (c.0, address_loop_lem fuel x xs (addr + 1) c.2 (ground arith) (omega arith))
        (ground arith)

-- In a ring `get_line_node_address` returns. The address of the head is 0, and that of the node
-- of line `i` is `i`. For any other pointer the status is ERR, but where the buffer is empty the
-- address is 0.
pub get_line_node_address_lem :
    (h : Heap) (head lp : Ptr) (xs : List Ptr)
    → IsRing h head xs
    → get_line_node_address h head (length xs) lp
      ≡ some (elim (position lp (head ∷ xs)) [
        | some i ↦ some i
        | none ↦ if length xs == 0 then some 0 else none
      ])
unfolding get_line_node_address found position
get_line_node_address_lem h head lp xs r =
    rw
      (
        address_loop_lem h head lp (length xs + 1) head xs 0 r.chain r.distinct.0 (omega arith),
        get_line_node_address,
      )
      (ground arith)
