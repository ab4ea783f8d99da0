-- ===== src/Edit/Frees.antt =====
-- `reset_undo_queue` (src/undo.c) ends, and frees the deleted lines.
use ed.Common.{
  ℕ, zero, suc, ◌+◌, ◌≤◌, ◌<◌, ◌≡◌, ◌≢◌, refl, true, false, Option, none, some, List, [], ◌∷◌, ◌++◌,
  arith, length, length-append, ==_false, subst, sym, ap, ◌∙◌,
}
use ed.Line.{Ptr, Heap, has, Distinct}
use ed.Line.Apart.{has-append}
use ed.Edit.{Buffer, UndoNode, UndoOp, uadd, udel, umov, uret}
use ed.Edit.Undo.{undo_node}
use ed.Edit.Marks.{unmark_line_node}
use ed.Edit.Queue.{removed, free_loop, reset_loop, reset_undo_queue, freed}
use ed.Edit.Tracked.{AllLive}

-- The nodes from `d` on, linked forwards, the last of them before `e`.
abbrev pub Run : Heap → Ptr → List Ptr → Ptr → Type 0
Run h d [] e = h.forw d ≡ e
Run h d (x ∷ xs) e = (h.forw d ≡ x) × Run h x xs e

-- The nodes that the deletions of a queue hold.
pub data Holds (h : Heap) : List UndoNode → List Ptr → Type 0 where
  holds_none : Holds h [] []
  holds_other :
      {q : List UndoNode} {ns : List Ptr} (up : UndoNode)
      → up.type ≢ udel
      → Holds h q ns
      → Holds h (up ∷ q) ns
  holds_deleted :
      {q : List UndoNode} {ns : List Ptr} (d : Ptr) (ds : List Ptr) (t : Ptr)
      → Run h d ds (h.forw t)
      → has (h.forw t) (d ∷ ds) ≡ false
      → Holds h q ns
      → Holds h (undo_node udel d t ∷ q) (d ∷ ds ++ ns)

removed-other : (p x : Ptr) (live : List Ptr) → p ≢ x → has x (removed p live) ≡ has x live
unfolding removed
removed-other p x [] n = refl
removed-other p x (y ∷ live) n = ground (arith, removed-other p x live n)

length-removed :
    (p : Ptr) (live : List Ptr) → has p live ≡ true → suc (length (removed p live)) ≡ length live
unfolding removed
length-removed p [] h = cc
length-removed p (y ∷ live) h = ground (arith, length-removed p live)

AllLive-removed :
    (p : Ptr) (live ns : List Ptr)
    → has p ns ≡ false
    → AllLive live ns
    → AllLive (removed p live) ns
AllLive-removed p live [] n l = tt
AllLive-removed p live (x ∷ ns) n l =
    (ground (arith, removed-other p x live, l.0), AllLive-removed p live ns (ground (arith, n)) l.1)

-- `b'` is `b` without the nodes `ns`, each freed once.
pub record Freed (b b' : Buffer) (ns : List Ptr) : Type 0 where
  pub forw : b'.heap.forw ≡ b.heap.forw
  pub undo : b'.undo ≡ b.undo
  pub kept : (x : Ptr) → has x ns ≡ false → has x b'.heap.live ≡ has x b.heap.live
  pub count : length b'.heap.live + length ns ≡ length b.heap.live

-- There is a result, and it has the property.
abbrev pub Results : {A : Type 0} → Option A → (A → Type 0) → Type 0
Results none P = ⊥
Results (some a) P = P a

free_loop-end : (fuel : ℕ) (e : Ptr) (b : Buffer) → free_loop fuel e e b ≡ some b
unfolding free_loop
free_loop-end zero e b = ground arith
free_loop-end (suc fuel) e b = ground arith

free_loop-next :
    (fuel : ℕ) (d e : Ptr) (b : Buffer)
    → d ≢ e
    → free_loop (suc fuel) d e b ≡ free_loop fuel (b.heap.forw d) e (freed d (unmark_line_node d b))
unfolding free_loop
free_loop-next fuel d e b n = rw (==_false d e n) refl

Freed-none : (b : Buffer) → Freed b b []
Freed-none b = record { forw = refl; undo = refl; kept = λ x n. refl; count = omega arith }

Freed-one :
    (d : Ptr) (b : Buffer)
    → has d b.heap.live ≡ true
    → Freed b (freed d (unmark_line_node d b)) (d ∷ [])
unfolding unmark_line_node
Freed-one d b l = record {
  forw = refl;
  undo = refl;
  kept = λ x n. removed-other d x b.heap.live (λ e. ground (arith, n, e));
  count = omega (arith, length-removed d b.heap.live l);
}

Freed-append :
    {a b c : Buffer} (ms ns : List Ptr) → Freed a b ms → Freed b c ns → Freed a c (ms ++ ns)
Freed-append ms ns f g = record {
  forw = g.forw ∙ f.forw;
  undo = g.undo ∙ f.undo;
  kept = λ x n.
      g.kept x (ground (arith, has-append x ms ns, n))
      ∙ f.kept x (ground (arith, has-append x ms ns, n));
  count = omega (arith, f.count, g.count, length-append ms ns);
}

pub Results-mono :
    {A : Type 0} (P Q : A → Type 0) (o : Option A)
    → Results o P
    → ((a : A) → P a → Q a)
    → Results o Q
Results-mono P Q none h f = absurd h
Results-mono P Q (some a) h f = f a h

-- Of the nodes from `d` on and the nodes `ns`, the inner loop frees the first.
free_loop-Freed :
    (fuel : ℕ) (d : Ptr) (ds ns : List Ptr) (e : Ptr) (b : Buffer)
    → length ds < fuel
    → Run b.heap d ds e
    → has e (d ∷ ds) ≡ false
    → Distinct (d ∷ ds ++ ns)
    → AllLive b.heap.live (d ∷ ds ++ ns)
    → Results (free_loop fuel d e b) (λ b'. Freed b b' (d ∷ ds) × AllLive b'.heap.live ns)
unfolding unmark_line_node
free_loop-Freed zero d ds ns e b m r n dis l = absurd (omega arith)
free_loop-Freed (suc fuel) d [] ns e b m r n dis l =
    rw
      (
        free_loop-next fuel d e b (λ q. ground (arith, n, q)),
        r,
        free_loop-end fuel e (freed d (unmark_line_node d b)),
      )
      (Freed-one d b l.0, AllLive-removed d b.heap.live ns dis.0 l.1)
free_loop-Freed (suc fuel) d (x ∷ ds) ns e b m r n dis l =
    rw (free_loop-next fuel d e b (λ q. ground (arith, n, q)), r.0)
      (Results-mono _ (λ b'. Freed b b' (d ∷ x ∷ ds) × AllLive b'.heap.live ns) _
        (free_loop-Freed fuel x ds ns e (freed d (unmark_line_node d b)) (omega arith) r.1
          (ground (arith, n)) dis.1 (AllLive-removed d b.heap.live (x ∷ ds ++ ns) dis.0 l.1))
        λ b' f. (Freed-append (d ∷ []) (x ∷ ds) (Freed-one d b l.0) f.0, f.1))

-- Distinct nodes in use are no more than the nodes in use.
length-AllLive : (live ns : List Ptr) → Distinct ns → AllLive live ns → length ns ≤ length live
length-AllLive live [] dis l = omega arith
length-AllLive live (x ∷ ns) dis l = omega (
  arith,
  length-removed x live l.0,
  length-AllLive (removed x live) ns dis.1 (AllLive-removed x live ns dis.0 l.1),
)

Run-same :
    (h h' : Heap) (d : Ptr) (ds : List Ptr) (e : Ptr)
    → h'.forw ≡ h.forw
    → Run h d ds e
    → Run h' d ds e
Run-same h h' d [] e s r = subst (λ f. f d ≡ e) (sym s) r
Run-same h h' d (x ∷ ds) e s r = (subst (λ f. f d ≡ x) (sym s) r.0, Run-same h h' x ds e s r.1)

other_node :
    (op : UndoOp) (r s : Option Buffer) (P : Buffer → Type 0)
    → op ≢ udel
    → Results r P
    → Results (elim op [ udel ↦ s | _ ↦ r ]) P
other_node uadd r s P n h = h
other_node udel r s P n h = absurd (n refl)
other_node umov r s P n h = h
other_node uret r s P n h = h

bind_results :
    (r : Option Buffer) (k : Buffer → Option Buffer) (P Q : Buffer → Type 0)
    → Results r P
    → ((b : Buffer) → P b → Results (k b) Q)
    → Results (elim r [ none ↦ none | some b ↦ k b ]) Q
bind_results none k P Q h f = absurd h
bind_results (some b) k P Q h f = f b h

Distinct-right : (xs ys : List Ptr) → Distinct (xs ++ ys) → Distinct ys
Distinct-right [] ys d = d
Distinct-right (x ∷ xs) ys d = Distinct-right xs ys d.1

reset_loop-Freed :
    (h : Heap) (b : Buffer) {q : List UndoNode} {ns : List Ptr}
    → b.heap.forw ≡ h.forw
    → Holds h q ns
    → Distinct ns
    → AllLive b.heap.live ns
    → Results (reset_loop q b) (λ b'. Freed b b' ns)
unfolding reset_loop
reset_loop-Freed h b s holds_none dis l = Freed-none b
reset_loop-Freed h b s (holds_other {q} {ns} up n k) dis l =
    other_node up.type (reset_loop q b) _ (λ b'. Freed b b' ns) n (reset_loop-Freed h b s k dis l)
reset_loop-Freed h b s (holds_deleted {q} {ns} d ds t r n k) dis l =
    let m = length-AllLive b.heap.live (d ∷ ds ++ ns) dis l in
    let e : h.forw t ≡ b.heap.forw t = ap (λ f. f t) (sym s) in
    bind_results (free_loop (length b.heap.live) d (b.heap.forw t) b) (reset_loop q)
      (λ b'. Freed b b' (d ∷ ds) × AllLive b'.heap.live ns) (λ b'. Freed b b' (d ∷ ds ++ ns))
      (free_loop-Freed (length b.heap.live) d ds ns (b.heap.forw t) b
        (omega (arith, m, length-append ds ns))
        (subst (λ x. Run b.heap d ds x) e (Run-same h b.heap d ds (h.forw t) s r))
        (subst (λ x. has x (d ∷ ds) ≡ false) e n) dis l)
      λ b₁ f.
        Results-mono (λ b'. Freed b₁ b' ns) (λ b'. Freed b b' (d ∷ ds ++ ns)) _
          (reset_loop-Freed h b₁ (f.0.forw ∙ s) k (Distinct-right (d ∷ ds) ns dis) f.1)
          λ b' g. Freed-append (d ∷ ds) ns f.0 g

-- The queue is empty, and undoing restores the present state.
pub record Reset (b b' : Buffer) (ns : List Ptr) : Type 0 where
  pub undo : b'.undo ≡ []
  pub saved : b'.saved ≡ some b'.state
  pub kept : (x : Ptr) → has x ns ≡ false → has x b'.heap.live ≡ has x b.heap.live
  pub count : length b'.heap.live + length ns ≡ length b.heap.live

-- Where the deletions in the undo queue hold distinct nodes that are in use, `reset_undo_queue`
-- ends. It frees each of these nodes once and no other, and leaves an empty queue with the present
-- state as the one to restore.
pub reset_undo_queue-Reset :
    (b : Buffer) (ns : List Ptr)
    → Holds b.heap b.undo ns
    → Distinct ns
    → AllLive b.heap.live ns
    → Results (reset_undo_queue b) (λ b'. Reset b b' ns)
unfolding reset_undo_queue
reset_undo_queue-Reset b ns k dis l =
    finish (reset_loop b.undo b) (reset_loop-Freed b.heap b refl k dis l)
  where
    finish :
        (r : Option Buffer)
        → Results r (λ b'. Freed b b' ns)
        → Results
            (elim r [
              | none ↦ none
              | some b₁ ↦ some (record b₁ { undo = []; saved = some b₁.state })
            ])
            (λ b'. Reset b b' ns)
    finish none h = absurd h
    finish (some b₁) f = record { undo = refl; saved = refl; kept = f.kept; count = f.count }
