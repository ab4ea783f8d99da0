-- ===== src/Edit/Copies.antt =====
-- `copy_lines` (src/cmds.c) on the lines, and what it leaves for undo.
use ed.Common.{
  ◌≡◌, refl, Bool, true, false, List, [], ◌∷◌, ◌++◌, append_assoc, arith, ap, subst, ◌∙◌, length,
  ◌==◌, ==_refl,
}
use ed.Line.{Ptr, Heap, has, append_node, link_nodes}
use ed.Line.Ring.{IsRing}
use ed.Edit.{Buffer}
use ed.Edit.Tracked.{AllLive}
use ed.Edit.Recording.{Recording}
use ed.Edit.Copied.{Copies, sources, copies, AllFresh, Within, forw-Within, CopiedLine}

-- The node `q` has the length and offset of the node `d` before.
abbrev pub Alike : Heap → Ptr → Heap → Ptr → Type 0
Alike h d h' q = (h'.len q ≡ h.len d) × (h'.seek q ≡ h.seek d)

abbrev pub AllAlike : Heap → Heap → Copies → Type 0
AllAlike h h' [] = Unit
AllAlike h h' ((d, p) ∷ ls) = Alike h d h' p × AllAlike h h' ls

-- The memory in use with the copies.
abbrev pub with_copies : Copies → List Ptr → List Ptr
with_copies [] live = live
with_copies ((d, p) ∷ ls) live = with_copies ls (p ∷ live)

abbrev pub have_copied : Bool → Copies → Bool
have_copied up [] = up
have_copied up (l ∷ ls) = true

-- The copies stand behind the lines `xs`, with the texts of their lines, and nothing else has
-- changed.
pub record LoopCopied (old ed ed' : Buffer) (up : Bool) (xs : List Ptr) (ls : Copies)
    (ys : List Ptr) : Type 0 where
  pub recording : Recording old ed' (have_copied up ls) (xs ++ copies ls) ys
  pub alike : AllAlike ed.heap ed'.heap ls
  pub kept : (q : Ptr) → has q (copies ls) ≡ false → Alike ed.heap q ed'.heap q
  pub live : ed'.heap.live ≡ with_copies ls ed.heap.live
  pub dot : have_copied up ls ≡ true → ed'.state.dot ≡ length (xs ++ copies ls)

pub have_copied-true : (ls : Copies) → have_copied true ls ≡ true
have_copied-true [] = refl
have_copied-true (l ∷ ls) = refl

-- What is in use is not what is unused.
has-apart :
    (d p : Ptr) (live : List Ptr) → has d live ≡ true → has p live ≡ false → (d == p) ≡ false
has-apart d p [] l n = cc
has-apart d p (x ∷ xs) l n = ground (arith, has-apart d p xs)

pub AllFresh-apart :
    (live : List Ptr) (ls : Copies) (p : Ptr)
    → AllFresh live ls
    → has p live ≡ true
    → has p (copies ls) ≡ false
AllFresh-apart live [] p f h = refl
AllFresh-apart live ((d, q) ∷ ls) p f h =
    ground (arith, f.0, AllFresh-apart (q ∷ live) ls p f.2 (ground arith))

AllAlike-before :
    (live : List Ptr) (h h₁ h' : Heap) (p : Ptr) (ls : Copies)
    → AllLive live (sources ls)
    → has p live ≡ false
    → ((q : Ptr) → (q == p) ≡ false → Alike h q h₁ q)
    → AllAlike h₁ h' ls
    → AllAlike h h' ls
AllAlike-before live h h₁ h' p [] l n k a = tt
AllAlike-before live h h₁ h' p ((d, q) ∷ ls) l n k a =
    let (len, seek) = k d (has-apart d p live l.0 n) in
    ((a.0.0 ∙ len, a.0.1 ∙ seek), AllAlike-before live h h₁ h' p ls l.1 n k a.1)

-- The line that the loop copies first.
abbrev pub StartsAt : Ptr → Copies → Type 0
StartsAt lp [] = Unit
StartsAt lp ((d, p) ∷ ls) = lp ≡ d

pub StartsAt-Within :
    (h : Heap) (head : Ptr) (xs ys : List Ptr) (d : Ptr) (ls : Copies)
    → IsRing h head (xs ++ ys)
    → Within xs ys (d ∷ sources ls)
    → StartsAt (h.forw d) ls
StartsAt-Within h head xs ys d [] r w = tt
StartsAt-Within h head xs ys d ((e, p) ∷ ls) r w = forw-Within h head xs ys d e (sources ls) r w

module _ (old ed ed₁ : Buffer) (xs : List Ptr) (d p : Ptr) (ys : List Ptr) where
  -- What the copy of one line leaves alone.
  Alike-CopiedLine :
      CopiedLine old ed ed₁ xs p ys (ed.heap.len d) (ed.heap.seek d)
      → Alike ed.heap d ed₁.heap p × ((q : Ptr) → (q == p) ≡ false → Alike ed.heap q ed₁.heap q)
  unfolding append_node link_nodes
  Alike-CopiedLine v = (
    (
      ap (λ (h : Heap). h.len p) v.heap ∙ rw (==_refl p) refl,
      ap (λ (h : Heap). h.seek p) v.heap ∙ rw (==_refl p) refl,
    ),
    λ q n. (
      ap (λ (h : Heap). h.len q) v.heap ∙ rw n refl,
      ap (λ (h : Heap). h.seek q) v.heap ∙ rw n refl,
    ),
  )

  pub live-CopiedLine :
      CopiedLine old ed ed₁ xs p ys (ed.heap.len d) (ed.heap.seek d)
      → ed₁.heap.live ≡ p ∷ ed.heap.live
  unfolding append_node link_nodes
  live-CopiedLine v = ap (λ (h : Heap). h.live) v.heap

  pub LoopCopied-CopiedLine :
      (ed' : Buffer) (up : Bool) (ls : Copies)
      → AllLive ed.heap.live (sources ls)
      → has p ed.heap.live ≡ false
      → AllFresh (p ∷ ed.heap.live) ls
      → CopiedLine old ed ed₁ xs p ys (ed.heap.len d) (ed.heap.seek d)
      → LoopCopied old ed₁ ed' true (xs ++ p ∷ []) ls ys
      → LoopCopied old ed ed' up xs ((d, p) ∷ ls) ys
  LoopCopied-CopiedLine ed' up ls l n f v w =
      let (a, k) = Alike-CopiedLine v in
      let apart = AllFresh-apart (p ∷ ed.heap.live) ls p f (ground arith) in
      let (len, seek) = w.kept p apart in
      let done : have_copied true ls ≡ true = have_copied-true ls in
      let front : (xs ++ p ∷ []) ++ copies ls ≡ xs ++ p ∷ copies ls =
        append_assoc xs (p ∷ []) (copies ls) in
      record {
        recording =
            subst (λ (zs : List Ptr). Recording old ed' true zs ys) front
              (subst (λ up. Recording old ed' up ((xs ++ p ∷ []) ++ copies ls) ys) done
                w.recording);
        alike = (
          (len ∙ a.0, seek ∙ a.1),
          AllAlike-before ed.heap.live ed.heap ed₁.heap ed'.heap p ls l n k w.alike,
        );
        kept = λ q n.
            let (len, seek) = w.kept q (ground (arith, n)) in
            let (len', seek') = k q (ground (arith, n)) in (len ∙ len', seek ∙ seek');
        live = w.live ∙ ap (with_copies ls) (live-CopiedLine v);
        dot = λ e. w.dot done ∙ ap (λ (zs : List Ptr). length zs) front;
      }
