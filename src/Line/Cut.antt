-- ===== src/Line/Cut.antt =====
-- Taking nodes out of the deque by one LINK_NODES, and putting them back by the two of
-- `undo_last_command` (src/undo.c): "dancing links" on stretches of nodes.
use ed.Common.{◌≡◌, ◌≢◌, false, List, [], ◌∷◌, ◌++◌, arith, sym}
use ed.Line.{Ptr, Heap, has, link_nodes}
use ed.Line.Chain.{Chain, last, Chain-link, Joint-link_self, Joint-link}
use ed.Line.Apart.{
  Apart, Apart-symm, Apart-last, first, rest, first-not_rest, has-rest, Off-before, Off-apart,
  Off-rest, ne-last,
}
use ed.Line.Ring.{
  IsRing, AllDistinct, cut, paste, cut_three, paste_three, all_distinct, Distinct-all,
  Distinct-without,
}

-- The nodes `d ∷ ds` hang together, and their ends still point to where they were.
pub record Detached (h : Heap) (b d : Ptr) (ds : List Ptr) (a : Ptr) : Type 0 where
  pub inner : Chain h d ds
  pub from : h.back d ≡ b
  pub to : h.forw (last d ds) ≡ a

first-has :
    (zs ys : List Ptr) (q : Ptr) → has q zs ≡ false → Apart zs ys → has (first ys q) zs ≡ false
first-has zs [] q h a = h
first-has zs (y ∷ ys) q h a = (Apart-symm zs (y ∷ ys) a).0

-- Where the ends of the stretches do not stand.
pub record Ends (head : Ptr) (xs : List Ptr) (d : Ptr) (ds ys : List Ptr) : Type 0 where
  pub first_before : has (first ys head) xs ≡ false
  pub first_middle : has (first ys head) (d ∷ ds) ≡ false
  pub first_after : has (first ys head) (rest ys head) ≡ false
  pub last_after : has (last head xs) ys ≡ false
  pub last_middle : has (last head xs) (d ∷ ds) ≡ false
  pub d_before : has d (head ∷ xs) ≡ false
  pub d_after : has d (rest ys head) ≡ false
  pub t_before : has (last d ds) (head ∷ xs) ≡ false
  pub t_after : has (last d ds) ys ≡ false
  pub t_ne_last : last head xs ≢ last d ds
  pub d_ne_first : first ys head ≢ d

module _ {head : Ptr} (xs : List Ptr) (d : Ptr) (ds ys : List Ptr) where
  pub ends : AllDistinct head xs d ds ys → Ends head xs d ds ys
  ends a =
      let m = Apart-symm (head ∷ xs) (d ∷ ds) a.before_middle in
      record {
        first_before = first-has xs ys head a.before.0 a.before_after.1;
        first_middle = first-has (d ∷ ds) ys head a.before_middle.0 a.middle_after;
        first_after = first-not_rest head ys a.after;
        last_after = Apart-last head xs ys a.before_after;
        last_middle = Apart-last head xs (d ∷ ds) a.before_middle;
        d_before = m.0;
        d_after = has-rest d head ys (ground (arith, m.0)) a.middle_after.0;
        t_before = Apart-last d ds (head ∷ xs) m;
        t_after = Apart-last d ds ys a.middle_after;
        t_ne_last = ne-last (last head xs) d ds (Apart-last head xs (d ∷ ds) a.before_middle);
        d_ne_first = ground (arith, first-has (d ∷ ds) ys head a.before_middle.0 a.middle_after);
      }

  module _ {h : Heap} where
    -- LINK_NODES from the node before the stretch to the node after it takes the stretch out.
    pub unlink-IsRing :
        IsRing h head (xs ++ (d ∷ ds ++ ys))
        → IsRing (link_nodes (last head xs) (first ys head) h) head (xs ++ ys)
    unlink-IsRing r =
        let s = cut_three xs d ds ys r in
        let a = all_distinct head xs d ds ys r.distinct in
        let n = ends a in
        let b = last head xs in
        let e = first ys head in
        paste xs ys
          (Chain-link h b e head xs (Off-before e head xs a.before n.first_before) s.before)
          (Joint-link_self h b e)
          (Chain-link h b e e (rest ys head) (Off-rest b e head ys n.last_after n.first_after)
            s.after)
          (Distinct-without a)

    pub unlink-Detached :
        IsRing h head (xs ++ (d ∷ ds ++ ys))
        → Detached (link_nodes (last head xs) (first ys head) h) (last head xs) d ds (first ys head)
    unfolding link_nodes
    unlink-Detached r =
        let s = cut_three xs d ds ys r in
        let n = ends (all_distinct head xs d ds ys r.distinct) in
        let b = last head xs in
        let e = first ys head in
        record {
          inner =
              Chain-link h b e d ds
                (Off-apart b e d ds n.last_middle (ground (arith, n.first_middle))) s.middle;
          from = ground (arith, n.d_ne_first, s.enter);
          to = ground (arith, n.t_ne_last, s.leave);
        }

    -- The two of `undo_last_command` put a stretch in.
    pub relink_parts :
        IsRing h head (xs ++ ys)
        → Chain h d ds
        → AllDistinct head xs d ds ys
        → IsRing
            (link_nodes (last d ds) (first ys head) (link_nodes (last head xs) d h))
            head
            (xs ++ (d ∷ ds ++ ys))
    relink_parts r inner a =
        let (before, j, after) = cut xs ys r in
        let n = ends a in
        let b = last head xs in
        let e = first ys head in
        let t = last d ds in
        let h' = link_nodes b d h in
        paste_three xs d ds ys
          (record {
            before = Chain-link h' t e head xs (Off-apart t e head xs n.t_before n.first_before) (
                Chain-link h b d head xs
                  (Off-before d head xs a.before (ground (arith, n.d_before))) before);
            enter =
                Joint-link h' t e b d n.t_ne_last (λ q. n.d_ne_first (sym q))
                  (Joint-link_self h b d);
            middle =
                Chain-link h' t e d ds (Off-before e d ds a.middle (ground (arith, n.first_middle)))
                  (Chain-link h b d d ds (Off-apart b d d ds n.last_middle a.middle.0) inner);
            leave = Joint-link_self h' t e;
            after =
                Chain-link h' t e e (rest ys head) (Off-rest t e head ys n.t_after n.first_after) (
                  Chain-link h b d e (rest ys head) (Off-rest b d head ys n.last_after n.d_after)
                    after);
          })
          (Distinct-all a)
