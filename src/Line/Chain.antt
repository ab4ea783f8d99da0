-- ===== src/Line/Chain.antt =====
-- Paths of nodes that are linked in both directions, and what a `LINK_NODES` does to them.
use ed.Common.{◌≡◌, ◌≢◌, List, [], ◌∷◌, ◌++◌, arith}
use ed.Line.{Ptr, Heap, link_nodes}

-- `b` follows `a`, and `a` precedes `b`.
abbrev pub Joint : Heap → Ptr → Ptr → Type 0
Joint h a b = (h.forw a ≡ b) × (h.back b ≡ a)

-- The nodes `p ∷ xs` are linked one to the next, in both directions.
abbrev pub Chain : Heap → Ptr → List Ptr → Type 0
Chain h p [] = Unit
Chain h p (x ∷ xs) = (h.forw p ≡ x) × (h.back x ≡ p) × Chain h x xs

abbrev pub last : Ptr → List Ptr → Ptr
last p [] = p
last p (x ∷ xs) = last x xs

-- The links of the path `p ∷ xs` are none of those that `LINK_NODES (a, b)` writes.
abbrev pub Off : Ptr → Ptr → Ptr → List Ptr → Type 0
Off a b p [] = Unit
Off a b p (x ∷ xs) = (p ≢ a) × (x ≢ b) × Off a b x xs

module _ (h : Heap) where
  pub Chain-append :
      (p : Ptr) (xs : List Ptr) {y : Ptr} (ys : List Ptr)
      → Chain h p xs
      → Joint h (last p xs) y
      → Chain h y ys
      → Chain h p (xs ++ y ∷ ys)
  Chain-append p [] ys c j d = (j.0, j.1, d)
  Chain-append p (x ∷ xs) ys c j d = (c.0, c.1, Chain-append x xs ys c.2 j d)

  pub Chain-split :
      (p : Ptr) (xs : List Ptr) {y : Ptr} (ys : List Ptr)
      → Chain h p (xs ++ y ∷ ys)
      → Chain h p xs × Joint h (last p xs) y × Chain h y ys
  Chain-split p [] ys c = (tt, (c.0, c.1), c.2)
  Chain-split p (x ∷ xs) ys c = let (d, j, e) = Chain-split x xs ys c.2 in ((c.0, c.1, d), j, e)

  pub Chain-link :
      (a b p : Ptr) (xs : List Ptr) → Off a b p xs → Chain h p xs → Chain (link_nodes a b h) p xs
  unfolding link_nodes
  Chain-link a b p [] off c = tt
  Chain-link a b p (x ∷ xs) off c =
      (ground (arith, off.0), ground (arith, off.1), Chain-link a b x xs off.2 c.2)

  pub Joint-link_self : (a b : Ptr) → Joint (link_nodes a b h) a b
  unfolding link_nodes
  Joint-link_self a b = (ground arith, ground arith)

  pub Joint-link : (a b p q : Ptr) → p ≢ a → q ≢ b → Joint h p q → Joint (link_nodes a b h) p q
  unfolding link_nodes
  Joint-link a b p q f g j = (ground arith, ground arith)
