-- ===== src/Edit/Added.antt =====
-- A line added with its undo node (src/buffer.c, `append_line_node`; src/ed.h, APPEND_UNDO_NODE).
use ed.Common.{
  ℕ, ◌+◌, ◌≤◌, ◌<◌, ◌≡◌, ◌≢◌, refl, true, false, List, [], ◌∷◌, ◌++◌, arith, sym, ap, subst, ◌∙◌,
  length,
}
use ed.Line.{Ptr, null, Heap, has, link_nodes, append_node, Distinct}
use ed.Line.Chain.{last}
use ed.Line.Apart.{first, has-append}
use ed.Line.Ring.{cut}
use ed.Line.Locate.Walk.{node_at}
use ed.Edit.{Buffer, ok, uadd, ◌>>=◌}
use ed.Edit.Undo.{undo_node}
use ed.Edit.Lines.{append_undo_line}
use ed.Edit.Append.{append_line_node, Appended, append_line_node-Appended, off_t_max}
use ed.Edit.Valid.{
  IsBuffer-undo, Ensures, Ensures-bind, joined, length-joined, moved_to, moved_to-IsBuffer,
  node_from,
}
use ed.Edit.Delete.{append_undo_node_lem}
use ed.Edit.History.{added, one}
use ed.Edit.Tracked.{
  Tracked, AllLive, AllLive-split, AllLive-append, Live-last, Live-first, reverse-snoc,
}

-- Unused memory is no node of the buffer.
pub AllLive-fresh :
    (live : List Ptr) (p : Ptr) (xs : List Ptr)
    → AllLive live xs
    → has p live ≡ false
    → has p xs ≡ false
AllLive-fresh live p [] l n = refl
AllLive-fresh live p (x ∷ xs) l n = ground (arith, l.0, AllLive-fresh live p xs l.1 n)

pub AllLive-more :
    (live : List Ptr) (p : Ptr) (xs : List Ptr) → AllLive live xs → AllLive (p ∷ live) xs
AllLive-more live p [] l = tt
AllLive-more live p (x ∷ xs) l = (ground (arith, l.0), AllLive-more live p xs l.1)

pub Distinct-insert :
    (xs : List Ptr) (p : Ptr) (ys : List Ptr)
    → Distinct (xs ++ ys)
    → has p (xs ++ ys) ≡ false
    → Distinct (joined xs p [] ys)
Distinct-insert [] p ys dis n = (n, dis)
Distinct-insert (x ∷ xs) p ys dis n = (
  ground (arith, dis.0, n, has-append x xs ys, has-append x xs (p ∷ ys)),
  Distinct-insert xs p ys dis.1 (ground (arith, n)),
)

pub AllLive-insert :
    (live : List Ptr) (xs : List Ptr) (p : Ptr) (ys : List Ptr)
    → AllLive live (xs ++ ys)
    → AllLive (p ∷ live) (joined xs p [] ys)
AllLive-insert live xs p ys l =
    let (lx, ly) = AllLive-split live xs ys l in
    AllLive-append (p ∷ live) xs (p ∷ ys) (AllLive-more live p xs lx)
      (ground arith, AllLive-more live p ys ly)

-- Memory that is not in use is no node of the buffer.
pub Distinct-fresh :
    (old ed : Buffer) (xs : List Ptr) (p : Ptr) (ys : List Ptr)
    → Tracked old ed (xs ++ ys)
    → has p ed.heap.live ≡ false
    → Distinct (ed.line_head ∷ joined xs p [] ys)
Distinct-fresh old ed xs p ys t n =
    let fresh = AllLive-fresh ed.heap.live p (ed.line_head ∷ (xs ++ ys)) t.live n in
    let head : has ed.line_head (joined xs p [] ys) ≡ false = ground (
      arith,
      t.buffer.ring.distinct.0,
      fresh,
      has-append ed.line_head xs ys,
      has-append ed.line_head xs (p ∷ ys),
    ) in
    (head, Distinct-insert xs p ys t.buffer.ring.distinct.1 (ground (arith, fresh)))

module _ (old ed : Buffer) (xs : List Ptr) (p : Ptr) (ys : List Ptr) (size offset : ℕ) where
  pub Appended-moved_to :
      (ed' : Buffer) (v : Appended ed ed' xs p ys size offset) (n : ℕ)
      → n ≤ length (joined xs p [] ys)
      → Appended ed (moved_to ed' (joined xs p [] ys) v.buffer n) xs p ys size offset
  Appended-moved_to ed' v n l = record {
    buffer = moved_to-IsBuffer ed' (joined xs p [] ys) v.buffer n l;
    undo = v.undo;
    len = v.len;
    seek = v.seek;
    heap = v.heap;
    saved = v.saved;
    head = v.head;
  }

  Tracked-Appended :
      (q : Ptr) (ed' : Buffer)
      → q ≡ p
      → Tracked old ed (xs ++ ys)
      → has p ed.heap.live ≡ false
      → Appended ed ed' xs p ys size offset
      → Tracked old (record ed' { undo = ed'.undo ++ undo_node uadd q q ∷ [] }) (joined xs p [] ys)
  unfolding append_node link_nodes
  Tracked-Appended q ed' e t n v =
      let live = ed.heap.live in
      let (lx, ly) = AllLive-split live xs ys t.live.1 in
      record {
        buffer = IsBuffer-undo (ed'.undo ++ undo_node uadd q q ∷ []) v.buffer;
        live =
            subst (λ (q : Ptr). AllLive ed'.heap.live (q ∷ joined xs p [] ys)) (sym v.head)
              (subst (λ zs. AllLive zs (ed.line_head ∷ joined xs p [] ys))
                (sym (ap (λ (h : Heap). h.live) v.heap))
                (
                  (AllLive-more live p (ed.line_head ∷ []) (t.live.0, tt)).0,
                  AllLive-insert live xs p ys t.live.1,
                ));
        history =
            rw (e, v.heap, v.undo, reverse-snoc ed.undo)
              (added (last ed.line_head xs) (first ys ed.line_head) p p t.history
                (cut xs ys t.buffer.ring).1 (Live-last live ed.line_head xs (t.live.0, lx))
                (Live-first live ed.line_head ys t.live.0 ly) (one p size offset n));
        saved = v.saved ∙ t.saved;
        head = v.head ∙ t.head;
      }

  -- The undo node of a line that was added.
  pub append_undo_line-Appended :
      (lp : Ptr) (ed₁ : Buffer) (v : Appended ed ed₁ xs p ys size offset)
      → append_undo_line true false lp (length xs + 1) ed₁
        ≡ ok tt (record (moved_to ed₁ (joined xs p [] ys) v.buffer (length xs + 1)) {
          undo = ed₁.undo ++ undo_node uadd p p ∷ [];
        })
  unfolding append_undo_line
  append_undo_line-Appended lp ed₁ v =
      let l : length xs + 1 ≤ length (joined xs p [] ys) =
        omega (arith, length-joined xs p [] ys) in
      let node : node_at ed₁.line_head (joined xs p [] ys) (length xs + 1) ≡ p =
        subst (λ k. node_at ed₁.line_head (joined xs p [] ys) k ≡ p) (omega arith)
          (node_from ed₁.line_head xs p [] ys) in
      append_undo_node_lem uadd ed₁ (joined xs p [] ys) v.buffer (length xs + 1) (length xs + 1) l l
      ∙ ap
          (λ q. ok tt (record (moved_to ed₁ (joined xs p [] ys) v.buffer (length xs + 1)) {
            undo = ed₁.undo ++ undo_node uadd q q ∷ [];
          }))
          node

  pub Tracked-append_undo_line :
      (lp : Ptr) (ed₁ : Buffer)
      → Tracked old ed (xs ++ ys)
      → has p ed.heap.live ≡ false
      → (lp ≡ p) × Appended ed ed₁ xs p ys size offset
      → Ensures
          (append_undo_line true false lp (length xs + 1) ed₁)
          (λ _ ed'. Tracked old ed' (joined xs p [] ys))
  Tracked-append_undo_line lp ed₁ t n (e, v) =
      let l : length xs + 1 ≤ length (joined xs p [] ys) =
        omega (arith, length-joined xs p [] ys) in
      let w = Appended-moved_to ed₁ v (length xs + 1) l in
      subst (λ r. Ensures r (λ _ ed'. Tracked old ed' (joined xs p [] ys)))
        (sym (append_undo_line-Appended lp ed₁ v))
        (Tracked-Appended p (moved_to ed₁ (joined xs p [] ys) v.buffer (length xs + 1)) refl t n w)

  -- Given memory that is not in use, a line added behind the lines `xs` with its undo node stands
  -- behind them, and the addition is recorded for undo.
  pub append_line_node-Tracked :
      Tracked old ed (xs ++ ys)
      → has p ed.heap.live ≡ false
      → p ≢ null
      → ed.state.lines < off_t_max
      → Ensures
          (append_line_node true p size offset (length xs) ed >>= λ lp ed₁.
            append_undo_line true false lp (length xs + 1) ed₁)
          (λ _ ed'. Tracked old ed' (joined xs p [] ys))
  append_line_node-Tracked t n z l =
      Ensures-bind (λ lp ed'. (lp ≡ p) × Appended ed ed' xs p ys size offset)
        (λ _ ed'. Tracked old ed' (joined xs p [] ys))
        (append_line_node true p size offset (length xs) ed)
        (λ lp ed₁. append_undo_line true false lp (length xs + 1) ed₁)
        (append_line_node-Appended ed xs p ys size offset t.buffer
          (Distinct-fresh old ed xs p ys t n) z l)
        λ lp ed₁ v. Tracked-append_undo_line lp ed₁ t n v
