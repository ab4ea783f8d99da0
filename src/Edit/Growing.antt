-- ===== src/Edit/Growing.antt =====
-- Lines added one behind another under one undo node (src/ed.h, APPEND_UNDO_NODE: the node is
-- appended for the first line, and its tail moves with the others).
use ed.Common.{
  ℕ, ◌+◌, ◌≡◌, refl, true, false, some, List, [], ◌∷◌, ◌++◌, append_assoc, arith, sym, ap, subst,
  ◌∙◌, length,
}
use mathlib.Core.List.{reverse, reverse-append, reverse-reverse}
use ed.Line.{Ptr, Heap, has, link_nodes, append_node}
use ed.Line.Chain.{Joint, last}
use ed.Line.Apart.{first}
use ed.Line.Ring.{cut}
use ed.Line.Locate.Walk.{last-append_cons}
use ed.Edit.{Buffer, UndoNode, uadd}
use ed.Edit.Undo.{undo_node}
use ed.Edit.Lines.{append_undo_line, with_tail}
use ed.Edit.Append.{Appended, with_node}
use ed.Edit.Valid.{IsBuffer, IsBuffer-undo, Ensures, joined, length-joined, moved_to-IsBuffer}
use ed.Edit.History.{History, Live, Chunk, one, more, added}
use ed.Edit.Tracked.{Tracked, AllLive, AllLive-split, Live-last, Live-first, reverse-snoc}
use ed.Edit.Added.{AllLive-more, AllLive-insert, append_undo_line-Appended}

-- The undo queue is as in a buffer that is tracked, but for its newest node, which has the lines
-- from `f` to `t` that were added since. The line `t` stands behind the lines `xs`.
pub record Growing (old ed : Buffer) (xs : List Ptr) (f t : Ptr) (ys : List Ptr) : Type 0 where
  pub base : Heap
  pub queue : List UndoNode
  pub b : Ptr
  pub a : Ptr
  pub history : History old.heap base queue
  pub joint : Joint base b a
  pub live_b : Live base b
  pub live_a : Live base a
  pub chunk : Chunk base b a ed.heap f t
  pub undo : reverse ed.undo ≡ undo_node uadd f t ∷ queue
  pub buffer : IsBuffer ed (joined xs t [] ys)
  pub live : AllLive ed.heap.live (ed.line_head ∷ joined xs t [] ys)
  pub saved : ed.saved ≡ some old.state
  pub head : ed.line_head ≡ old.line_head

-- The additions are recorded.
pub Growing-Tracked :
    (old ed : Buffer) (xs : List Ptr) (f t : Ptr) (ys : List Ptr)
    → Growing old ed xs f t ys
    → Tracked old ed (joined xs t [] ys)
Growing-Tracked old ed xs f t ys g = record {
  buffer = g.buffer;
  live = g.live;
  history =
      subst (History old.heap ed.heap) (sym g.undo)
        (added g.b g.a f t g.history g.joint g.live_b g.live_a g.chunk);
  saved = g.saved;
  head = g.head;
}

with_tail-snoc :
    (p : Ptr) (q : List UndoNode) (n : UndoNode)
    → with_tail p (q ++ n ∷ []) ≡ q ++ record n { t = p } ∷ []
unfolding with_tail
with_tail-snoc p [] n = refl
with_tail-snoc p (m ∷ []) n = refl
with_tail-snoc p (m ∷ k ∷ q) n = ap (m ∷◌) (with_tail-snoc p (k ∷ q) n)

-- The tail of the newest undo node.
reverse-with_tail :
    (p : Ptr) (q : List UndoNode) (n : UndoNode) (r : List UndoNode)
    → reverse q ≡ n ∷ r
    → reverse (with_tail p q) ≡ record n { t = p } ∷ r
reverse-with_tail p q n r h =
    let split : q ≡ reverse r ++ n ∷ [] =
      sym (reverse-reverse q) ∙ ap reverse h ∙ reverse-append (n ∷ []) r in
    ap (λ q. reverse (with_tail p q)) split
    ∙ ap reverse (with_tail-snoc p (reverse r) n)
    ∙ reverse-snoc (reverse r) (record n { t = p })
    ∙ ap (record n { t = p } ∷◌) (reverse-reverse r)

AllLive-Appended :
    (ed ed' : Buffer) (xs : List Ptr) (p : Ptr) (ys : List Ptr) (size offset : ℕ)
    → Appended ed ed' xs p ys size offset
    → AllLive ed.heap.live (ed.line_head ∷ (xs ++ ys))
    → AllLive ed'.heap.live (ed'.line_head ∷ joined xs p [] ys)
unfolding append_node link_nodes
AllLive-Appended ed ed' xs p ys size offset v l =
    subst (λ (q : Ptr). AllLive ed'.heap.live (q ∷ joined xs p [] ys)) (sym v.head)
      (subst (λ zs. AllLive zs (ed.line_head ∷ joined xs p [] ys))
        (sym (ap (λ (h : Heap). h.live) v.heap))
        (
          (AllLive-more ed.heap.live p (ed.line_head ∷ []) (l.0, tt)).0,
          AllLive-insert ed.heap.live xs p ys l.1,
        ))

module _ (old ed ed₁ : Buffer) (xs : List Ptr) (p : Ptr) (ys : List Ptr) (size offset : ℕ)
    (v : Appended ed ed₁ xs p ys size offset) (fresh : has p ed.heap.live ≡ false) where
  -- The first line.
  pub Growing-first :
      (lp : Ptr)
      → Tracked old ed (xs ++ ys)
      → Ensures
          (append_undo_line true false lp (length xs + 1) ed₁)
          (λ _ ed'. Growing old ed' xs p p ys)
  unfolding append_node link_nodes
  Growing-first lp t =
      let (lx, ly) = AllLive-split ed.heap.live xs ys t.live.1 in
      subst (λ r. Ensures r (λ _ ed'. Growing old ed' xs p p ys))
        (sym (append_undo_line-Appended old ed xs p ys size offset lp ed₁ v))
        (record {
          base = ed.heap;
          queue = reverse ed.undo;
          b = last ed.line_head xs;
          a = first ys ed.line_head;
          history = t.history;
          joint = (cut xs ys t.buffer.ring).1;
          live_b = Live-last ed.heap.live ed.line_head xs (t.live.0, lx);
          live_a = Live-first ed.heap.live ed.line_head ys t.live.0 ly;
          chunk =
              subst (λ h. Chunk ed.heap (last ed.line_head xs) (first ys ed.line_head) h p p)
                (sym v.heap) (one p size offset fresh);
          undo =
              reverse-snoc ed₁.undo (undo_node uadd p p)
              ∙ ap (λ (q : List UndoNode). undo_node uadd p p ∷ reverse q) v.undo;
          buffer = IsBuffer-undo (ed₁.undo ++ undo_node uadd p p ∷ []) (
              moved_to-IsBuffer ed₁ (joined xs p [] ys) v.buffer (length xs + 1)
                (omega (arith, length-joined xs p [] ys)));
          live = AllLive-Appended ed ed₁ xs p ys size offset v t.live;
          saved = v.saved ∙ t.saved;
          head = v.head ∙ t.head;
        })

module _ (old ed ed₁ : Buffer) (xs : List Ptr) (f t p : Ptr) (ys : List Ptr) (size offset : ℕ)
    (v : Appended ed ed₁ (xs ++ t ∷ []) p ys size offset) (fresh : has p ed.heap.live ≡ false) where
  -- A line behind the first.
  pub Growing-more :
      (lp : Ptr) (addr : ℕ)
      → lp ≡ p
      → Growing old ed xs f t ys
      → Ensures
          (append_undo_line true true lp addr ed₁)
          (λ _ ed'. Growing old ed' (xs ++ t ∷ []) f p ys)
  unfolding append_undo_line
  Growing-more lp addr e g = record {
    base = g.base;
    queue = g.queue;
    b = g.b;
    a = g.a;
    history = g.history;
    joint = g.joint;
    live_b = g.live_b;
    live_a = g.live_a;
    chunk =
        subst (λ h. Chunk g.base g.b g.a h f p)
          (ap (λ b. append_node p b (with_node p size offset ed.heap))
              (sym (last-append_cons ed.line_head xs t []))
            ∙ sym v.heap)
          (more p size offset g.chunk fresh);
    undo =
        ap (λ q. reverse (with_tail q ed₁.undo)) e
        ∙ reverse-with_tail p ed₁.undo (undo_node uadd f t) g.queue (ap reverse v.undo ∙ g.undo);
    buffer = IsBuffer-undo (with_tail lp ed₁.undo) v.buffer;
    live = AllLive-Appended ed ed₁ (xs ++ t ∷ []) p ys size offset v (
        subst (λ zs. AllLive ed.heap.live (ed.line_head ∷ zs)) (sym (append_assoc xs (t ∷ []) ys))
          g.live);
    saved = v.saved ∙ g.saved;
    head = v.head ∙ g.head;
  }
