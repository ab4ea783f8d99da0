-- ===== src/Line.antt =====
-- The deque of line nodes (src/ed.h, src/buffer.c): nodes at addresses, and the macros that link
-- them. `forw` and `back` give the fields `q_forw` and `q_back` of the node at an address; `live`
-- holds the addresses that are allocated.
pub mod Chain
pub mod Apart
pub mod Ring
pub mod Cut
pub mod Move
pub mod Locate
use ed.Common.{ℕ, ◌≡◌, Bool, true, false, ◌||◌, List, [], ◌∷◌, ◌==◌, if◌then◌else◌}

abbrev pub Ptr : Type 0
Ptr = ℕ

abbrev pub null : Ptr
null = 0

pub record Heap : Type 0 where
  pub forw : Ptr → Ptr
  pub back : Ptr → Ptr
  pub len : Ptr → ℕ
  pub seek : Ptr → ℕ
  pub live : List Ptr

abbrev pub write : (Ptr → ℕ) → Ptr → ℕ → Ptr → ℕ
write f p v q = if q == p then v else f q

-- LINK_NODES (prev, next)
unfoldable pub link_nodes : Ptr → Ptr → Heap → Heap
link_nodes prev next h = record h { forw = write h.forw prev next; back = write h.back next prev }

-- INIT_DEQUE (node)
unfoldable pub init_deque : Ptr → Heap → Heap
unfolding link_nodes
init_deque node = link_nodes node node

-- APPEND_NODE (node, prev)
unfoldable pub append_node : Ptr → Ptr → Heap → Heap
append_node node prev h = link_nodes prev node (link_nodes node (h.forw prev) h)

-- UNLINK_NODE (node)
unfoldable pub unlink_node : Ptr → Heap → Heap
unlink_node node h = link_nodes (h.back node) (h.forw node) h

abbrev pub has : Ptr → List Ptr → Bool
has p [] = false
has p (x ∷ xs) = (p == x) || has p xs

-- No address stands twice in the list.
abbrev pub Distinct : List Ptr → Type 0
Distinct [] = Unit
Distinct (x ∷ xs) = (has x xs ≡ false) × Distinct xs
