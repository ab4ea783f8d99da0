-- ===== src/Line/Move.antt =====
-- A stretch of nodes that the three LINK_NODES of `move_lines` (src/cmds.c) take from one place in
-- the ring to another.
use ed.Common.{◌≡◌, ◌≢◌, List, [], ◌∷◌, ◌++◌, arith, sym, subst, ap, ◌∙◌}
use ed.Line.{Ptr, Heap, link_nodes, Distinct}
use ed.Line.Chain.{Chain, Joint, Joint-link_self, last}
use ed.Line.Apart.{Apart, Apart-symm, Apart-append, Apart-append_right, first, Distinct-split}
use ed.Line.Ring.{IsRing, AllDistinct, cut, cut_three, all_distinct, Distinct-without}
use ed.Line.Cut.{ends, unlink-IsRing, unlink-Detached, relink_parts}

-- Two heaps with the same links.
abbrev pub SameLinks : Heap → Heap → Type 0
SameLinks g h = (x : Ptr) → (g.forw x ≡ h.forw x) × (g.back x ≡ h.back x)

Chain-SameLinks :
    (g h : Heap) (p : Ptr) (xs : List Ptr) → SameLinks g h → Chain h p xs → Chain g p xs
Chain-SameLinks g h p [] s c = tt
Chain-SameLinks g h p (x ∷ xs) s c = ((s p).0 ∙ c.0, (s x).1 ∙ c.1, Chain-SameLinks g h x xs s c.2)

pub IsRing-SameLinks :
    (g h : Heap) {head : Ptr} {xs : List Ptr} → SameLinks g h → IsRing h head xs → IsRing g head xs
IsRing-SameLinks g h {head} {xs} s r = record {
  chain = Chain-SameLinks g h head (xs ++ head ∷ []) s r.chain;
  distinct = r.distinct;
}

-- The order in which the three are written is of no matter.
link_order :
    (h : Heap) (b1 a1 b2 a2 d t : Ptr)
    → b1 ≢ b2
    → t ≢ b1
    → t ≢ b2
    → d ≢ a1
    → d ≢ a2
    → a1 ≢ a2
    → SameLinks
        (link_nodes b1 a1 (link_nodes t a2 (link_nodes b2 d h)))
        (link_nodes t a2 (link_nodes b2 d (link_nodes b1 a1 h)))
unfolding link_nodes
link_order h b1 a1 b2 a2 d t p q r u v w x = ground arith

-- The distinct nodes of a ring, cut at another place of what the stretch leaves.
module _ {head : Ptr} (xs : List Ptr) (d : Ptr) (ds ys us vs : List Ptr)
    (e : xs ++ ys ≡ us ++ vs) where
  pub recut : AllDistinct head xs d ds ys → AllDistinct head us d ds vs
  recut a =
      let whole : Distinct (head ∷ (us ++ vs)) =
        subst (λ zs. Distinct (head ∷ zs)) e (Distinct-without a) in
      let (before, after, between) = Distinct-split (head ∷ us) vs whole in
      let off : Apart (d ∷ ds) (head ∷ (us ++ vs)) =
        subst (λ zs. Apart (d ∷ ds) (head ∷ zs)) e
          (Apart-append (d ∷ ds) (head ∷ xs) ys (Apart-symm (head ∷ xs) (d ∷ ds) a.before_middle)
            a.middle_after) in
      let (left, right) = Apart-append_right (d ∷ ds) (head ∷ us) vs off in
      record {
        before = before;
        middle = a.middle;
        after = (between.0, after);
        before_middle = Apart-symm (d ∷ ds) (head ∷ us) left;
        before_after = between;
        middle_after = right;
      }

  -- What follows the target, and the ring after the move.
  module _ (h : Heap) (r : IsRing h head (xs ++ (d ∷ ds ++ ys)))
      (n : last head us ≢ last head xs) where
    left-IsRing : IsRing (link_nodes (last head xs) (first ys head) h) head (us ++ vs)
    left-IsRing =
        subst (λ zs. IsRing (link_nodes (last head xs) (first ys head) h) head zs) e
          (unlink-IsRing xs d ds ys r)

    pub target : Joint h (last head us) (first vs head)
    unfolding link_nodes
    target = let j = (cut us vs left-IsRing).1 in (ground (arith, j, n), ground (arith, j, n))

    pub move-IsRing :
        IsRing
          (link_nodes
            (last head xs)
            (first ys head)
            (link_nodes (last d ds) (first vs head) (link_nodes (last head us) d h)))
          head
          (us ++ (d ∷ ds ++ vs))
    move-IsRing =
        let s = cut_three xs d ds ys r in
        let a = all_distinct head xs d ds ys r.distinct in
        let m = ends xs d ds ys a in
        let k = ends us d ds vs (recut a) in
        let b1 = last head xs in
        let a1 = first ys head in
        let b2 = last head us in
        let a2 = first vs head in
        let h' = link_nodes b1 a1 h in
        let j = (cut us vs left-IsRing).1 in
        let other : a1 ≢ a2 = λ q. n (sym j.1 ∙ ap h'.back (sym q) ∙ (Joint-link_self h b1 a1).1) in
        IsRing-SameLinks _ _
          (link_order h b1 a1 b2 a2 d (last d ds) (λ q. n (sym q)) (λ q. m.t_ne_last (sym q))
            (λ q. k.t_ne_last (sym q)) (λ q. m.d_ne_first (sym q)) (λ q. k.d_ne_first (sym q))
            other)
          (relink_parts us d ds vs left-IsRing (unlink-Detached xs d ds ys r).inner (recut a))
