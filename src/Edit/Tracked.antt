-- ===== src/Edit/Tracked.antt =====
-- Buffers between two calls of `reset_undo_queue` (src/undo.c): every change since the first is in
-- the undo queue, and `undo_last_command` takes them all back.
use ed.Common.{
  suc, ◌+◌, ◌≡◌, refl, true, some, List, [], ◌∷◌, ◌++◌, arith, sym, ap, subst, ◌∙◌, length,
}
use mathlib.Core.List.{reverse, reverse-append}
use ed.Line.{Ptr, Heap, has, link_nodes}
use ed.Line.Chain.{Chain, last}
use ed.Line.Apart.{first, last-has}
use ed.Line.Ring.{IsRing, all_distinct, cut_three}
use ed.Line.Cut.{ends}
use ed.Edit.{Buffer, UndoNode}
use ed.Edit.Undo.{undo_loop}
use ed.Edit.Commands.{delete_lines, undo_last_command}
use ed.Edit.Valid.{IsBuffer, Ensures, Ensures-mono, locate_lem, joined}
use ed.Edit.Delete.{Deleted, delete_lines-Deleted}
use ed.Edit.Restore.{undone-IsBuffer}
use ed.Edit.History.{SameOn, History, deleted, Deletes, undo_loop-SameOn}

abbrev pub AllLive : List Ptr → List Ptr → Type 0
AllLive l [] = Unit
AllLive l (x ∷ xs) = (has x l ≡ true) × AllLive l xs

pub AllLive-has :
    (live : List Ptr) (x : Ptr) (xs : List Ptr)
    → AllLive live xs
    → has x xs ≡ true
    → has x live ≡ true
AllLive-has live x [] l e = cc
AllLive-has live x (y ∷ xs) l e = ground (arith, l.0, AllLive-has live x xs l.1)

pub AllLive-split :
    (live : List Ptr) (xs ys : List Ptr)
    → AllLive live (xs ++ ys)
    → AllLive live xs × AllLive live ys
AllLive-split live [] ys l = (tt, l)
AllLive-split live (x ∷ xs) ys l = let (p, q) = AllLive-split live xs ys l.1 in ((l.0, p), q)

pub AllLive-append :
    (live : List Ptr) (xs ys : List Ptr)
    → AllLive live xs
    → AllLive live ys
    → AllLive live (xs ++ ys)
AllLive-append live [] ys l m = m
AllLive-append live (x ∷ xs) ys l m = (l.0, AllLive-append live xs ys l.1 m)

pub Live-last :
    (live : List Ptr) (p : Ptr) (xs : List Ptr)
    → AllLive live (p ∷ xs)
    → has (last p xs) live ≡ true
Live-last live p xs l = AllLive-has live (last p xs) (p ∷ xs) l (last-has p xs)

pub Live-first :
    (live : List Ptr) (p : Ptr) (ys : List Ptr)
    → has p live ≡ true
    → AllLive live ys
    → has (first ys p) live ≡ true
Live-first live p [] l m = l
Live-first live p (y ∷ ys) l m = m.0

-- The same links at live nodes make the same ring.
Chain-SameOn :
    (g h : Heap) (p : Ptr) (xs : List Ptr)
    → SameOn h.live g h
    → AllLive h.live (p ∷ xs)
    → Chain h p xs
    → Chain g p xs
Chain-SameOn g h p [] s l c = tt
Chain-SameOn g h p (x ∷ xs) s l c =
    ((s p l.0).0 ∙ c.0, (s x l.1.0).1 ∙ c.1, Chain-SameOn g h x xs s l.1 c.2)

IsRing-SameOn :
    (g h : Heap) (head : Ptr) (xs : List Ptr)
    → SameOn h.live g h
    → AllLive h.live (head ∷ xs)
    → IsRing h head xs
    → IsRing g head xs
IsRing-SameOn g h head xs s l r = record {
  chain =
      Chain-SameOn g h head (xs ++ head ∷ []) s
        (l.0, AllLive-append h.live xs (head ∷ []) l.1 (l.0, tt)) r.chain;
  distinct = r.distinct;
}

-- `ed` is valid with the lines `xs`, and its undo queue records the changes since `old`.
pub record Tracked (old ed : Buffer) (xs : List Ptr) : Type 0 where
  pub buffer : IsBuffer ed xs
  pub live : AllLive ed.heap.live (ed.line_head ∷ xs)
  pub history : History old.heap ed.heap (reverse ed.undo)
  pub saved : ed.saved ≡ some old.state
  pub head : ed.line_head ≡ old.line_head

-- Whatever changes were made and recorded since the buffer `old`, the undo succeeds. It restores
-- the lines of `old`, in order, and its whole state with the current line and the flags.
pub undo_last_command-Tracked :
    (old ed : Buffer) (xs ys : List Ptr)
    → IsBuffer old xs
    → AllLive old.heap.live (old.line_head ∷ xs)
    → Tracked old ed ys
    → Ensures (undo_last_command ed) (λ _ ed'. IsBuffer ed' xs × (ed'.state ≡ old.state))
unfolding undo_last_command
undo_last_command-Tracked old ed xs ys v l t =
    subst
      (λ (e : Buffer).
        Ensures (undo_last_command e) (λ _ ed'. IsBuffer ed' xs × (ed'.state ≡ old.state)))
      (λ i. record ed { saved = sym t.saved i })
      (rw (locate_lem (record ed { saved = some old.state }) ys w 0 (omega arith)) (
        undone-IsBuffer (record ed { saved = some old.state }) old.state ys xs w _ _ _ ring v.lines
            v.dot (rw t.head v.not_null),
        refl,
      ))
  where
    w : IsBuffer (record ed { saved = some old.state }) ys
    w = record {
      ring = t.buffer.ring;
      lines = t.buffer.lines;
      dot = t.buffer.dot;
      cached = t.buffer.cached;
      not_null = t.buffer.not_null;
    }

    ring : IsRing (undo_loop (reverse ed.undo) ed.heap).0 ed.line_head xs
    ring = rw t.head (
        IsRing-SameOn (undo_loop (reverse ed.undo) ed.heap).0 old.heap old.line_head xs
          (undo_loop-SameOn ed.heap t.history (λ x e. (refl, refl))) l v.ring)

-- The queue with a node appended, from the newest to the oldest.
pub reverse-snoc : (q : List UndoNode) (up : UndoNode) → reverse (q ++ up ∷ []) ≡ up ∷ reverse q
reverse-snoc q up = reverse-append q (up ∷ [])

-- The links of a stretch of a valid buffer.
pub Deletes-joined :
    (ed : Buffer) (xs : List Ptr) (d : Ptr) (ds ys : List Ptr)
    → IsBuffer ed (joined xs d ds ys)
    → AllLive ed.heap.live (ed.line_head ∷ joined xs d ds ys)
    → Deletes ed.heap (last ed.line_head xs) d (last d ds) (first ys ed.line_head)
Deletes-joined ed xs d ds ys v l =
    let s = cut_three xs d ds ys v.ring in
    let (lx, ldy) = AllLive-split ed.heap.live xs (d ∷ ds ++ ys) l.1 in
    let (ld, ly) = AllLive-split ed.heap.live (d ∷ ds) ys ldy in
    record {
      enter = s.enter;
      leave = s.leave;
      apart = (ends xs d ds ys (all_distinct ed.line_head xs d ds ys v.ring.distinct)).t_ne_last;
      live_b = Live-last ed.heap.live ed.line_head xs (l.0, lx);
      live_d = ld.0;
      live_t = Live-last ed.heap.live d ds ld;
      live_a = Live-first ed.heap.live ed.line_head ys l.0 ly;
    }

AllLive-without :
    (live : List Ptr) (p : Ptr) (xs : List Ptr) (d : Ptr) (ds ys : List Ptr)
    → AllLive live (p ∷ joined xs d ds ys)
    → AllLive live (p ∷ (xs ++ ys))
AllLive-without live p xs d ds ys l =
    let (lx, ldy) = AllLive-split live xs (d ∷ ds ++ ys) l.1 in
    let (ld, ly) = AllLive-split live (d ∷ ds) ys ldy in (l.0, AllLive-append live xs ys lx ly)

module _ (old ed : Buffer) (xs : List Ptr) (d : Ptr) (ds ys : List Ptr) where
  pub Tracked-Deleted :
      (ed' : Buffer)
      → Tracked old ed (joined xs d ds ys)
      → Deleted ed ed' xs d ds ys
      → Tracked old ed' (xs ++ ys)
  unfolding link_nodes
  Tracked-Deleted ed' t v = record {
    buffer = v.buffer;
    live =
        subst (λ (p : Ptr). AllLive ed'.heap.live (p ∷ (xs ++ ys))) (sym v.head)
          (subst (λ (l : List Ptr). AllLive l (ed.line_head ∷ (xs ++ ys)))
            (sym (ap (λ (h : Heap). h.live) v.heap))
            (AllLive-without ed.heap.live ed.line_head xs d ds ys t.live));
    history =
        rw (v.heap, v.undo, reverse-snoc ed.undo)
          (deleted (last ed.line_head xs) d (last d ds) (first ys ed.line_head) t.history
            (Deletes-joined ed xs d ds ys t.buffer t.live));
    saved = v.saved ∙ t.saved;
    head = v.head ∙ t.head;
  }

  -- A deletion is recorded.
  pub delete_lines-Tracked :
      Tracked old ed (joined xs d ds ys)
      → Ensures
          (delete_lines true (suc (length xs)) (length xs + suc (length ds)) ed)
          (λ _ ed'. Tracked old ed' (xs ++ ys))
  delete_lines-Tracked t =
      Ensures-mono (λ _ ed'. Deleted ed ed' xs d ds ys) (λ _ ed'. Tracked old ed' (xs ++ ys)) _
        (delete_lines-Deleted ed xs d ds ys t.buffer) λ _ ed' v. Tracked-Deleted ed' t v
