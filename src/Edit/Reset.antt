-- ===== src/Edit/Reset.antt =====
-- `reset_undo_queue` (src/undo.c) keeps the lines of the buffer.
use ed.Common.{
  ℕ, zero, suc, ◌≡◌, refl, Option, none, some, List, [], ◌∷◌, length, ◌==◌, Bool-cases, inl, inr,
  subst, sym, ◌∙◌,
}
use ed.Line.{Ptr, Heap}
use ed.Line.Chain.{Chain}
use ed.Edit.{Buffer, UndoNode, UndoOp, uadd, udel, umov, uret}
use ed.Edit.Marks.{unmark_line_node}
use ed.Edit.Queue.{free_loop, reset_loop, reset_undo_queue, freed}
use ed.Edit.Valid.{IsBuffer}

-- The links and the head decide about the lines; the memory in use, the marks and the undo queue
-- do not.
pub record SameLines (b b' : Buffer) : Type 0 where
  pub forw : b'.heap.forw ≡ b.heap.forw
  pub back : b'.heap.back ≡ b.heap.back
  pub head : b'.line_head ≡ b.line_head
  pub cache : b'.cache ≡ b.cache
  pub state : b'.state ≡ b.state

Chain-same :
    (h h' : Heap) (p : Ptr) (xs : List Ptr)
    → h'.forw ≡ h.forw
    → h'.back ≡ h.back
    → Chain h p xs
    → Chain h' p xs
Chain-same h h' p [] f b c = tt
Chain-same h h' p (x ∷ xs) f b c = (
  subst (λ g. g p ≡ x) (sym f) c.0,
  subst (λ g. g x ≡ p) (sym b) c.1,
  Chain-same h h' x xs f b c.2,
)

pub IsBuffer-SameLines :
    (b b' : Buffer) (xs : List Ptr) → SameLines b b' → IsBuffer b xs → IsBuffer b' xs
IsBuffer-SameLines b b' xs s v = record {
  ring = record {
    chain = rw s.head (Chain-same b.heap b'.heap b.line_head _ s.forw s.back v.ring.chain);
    distinct = rw s.head v.ring.distinct;
  };
  lines = rw s.state v.lines;
  dot = rw s.state v.dot;
  cached = rw (s.head, s.cache) v.cached;
  not_null = rw s.head v.not_null;
}

-- Where there is a result, it has the property.
abbrev pub IfSome : {A : Type 0} → Option A → (A → Type 0) → Type 0
IfSome none P = Unit
IfSome (some a) P = P a

same_refl : (b : Buffer) → SameLines b b
same_refl b = record { forw = refl; back = refl; head = refl; cache = refl; state = refl }

same_trans : {a b c : Buffer} → SameLines a b → SameLines b c → SameLines a c
same_trans s t = record {
  forw = t.forw ∙ s.forw;
  back = t.back ∙ s.back;
  head = t.head ∙ s.head;
  cache = t.cache ∙ s.cache;
  state = t.state ∙ s.state;
}

same_freed : (lp : Ptr) (b : Buffer) → SameLines b (freed lp (unmark_line_node lp b))
unfolding unmark_line_node
same_freed lp b = record { forw = refl; back = refl; head = refl; cache = refl; state = refl }

IfSome-mono :
    {A : Type 0} (P Q : A → Type 0) (o : Option A) → IfSome o P → ((a : A) → P a → Q a) → IfSome o Q
IfSome-mono P Q none h f = tt
IfSome-mono P Q (some a) h f = f a h

free_loop-same :
    (fuel : ℕ) (lp ep : Ptr) (b : Buffer) → IfSome (free_loop fuel lp ep b) (SameLines b)
unfolding free_loop
free_loop-same zero lp ep b = elim (Bool-cases (lp == ep)) [
  | inl e ↦ rw e (same_refl b)
  | inr e ↦ rw e tt
]
free_loop-same (suc fuel) lp ep b = elim (Bool-cases (lp == ep)) [
  | inl e ↦ rw e (same_refl b)
  | inr e ↦ rw e (
      IfSome-mono (SameLines (freed lp (unmark_line_node lp b))) (SameLines b) _
        (free_loop-same fuel (b.heap.forw lp) ep (freed lp (unmark_line_node lp b)))
        λ b' s. same_trans (same_freed lp b) s)
]

bind_same :
    (b : Buffer) (r : Option Buffer) (k : Buffer → Option Buffer)
    → IfSome r (SameLines b)
    → ((b₁ : Buffer) → IfSome (k b₁) (SameLines b₁))
    → IfSome (elim r [ none ↦ none | some b₁ ↦ k b₁ ]) (SameLines b)
bind_same b none k h f = tt
bind_same b (some b₁) k h f =
    IfSome-mono (SameLines b₁) (SameLines b) _ (f b₁) λ b' s. same_trans h s

reset_node-same :
    (op : UndoOp) (b : Buffer) (r : Option Buffer) (k : Buffer → Option Buffer)
    → IfSome r (SameLines b)
    → ((b₁ : Buffer) → IfSome (k b₁) (SameLines b₁))
    → IfSome (elim op [ udel ↦ elim r [ none ↦ none | some b₁ ↦ k b₁ ] | _ ↦ k b ]) (SameLines b)
reset_node-same uadd b r k h f = f b
reset_node-same udel b r k h f = bind_same b r k h f
reset_node-same umov b r k h f = f b
reset_node-same uret b r k h f = f b

reset_loop-same : (q : List UndoNode) (b : Buffer) → IfSome (reset_loop q b) (SameLines b)
unfolding reset_loop
reset_loop-same [] b = same_refl b
reset_loop-same (up ∷ ups) b =
    reset_node-same up.type b _ (reset_loop ups)
      (free_loop-same (length b.heap.live) up.h (b.heap.forw up.t) b) (reset_loop-same ups)

pub reset_undo_queue-same : (b : Buffer) → IfSome (reset_undo_queue b) (SameLines b)
unfolding reset_undo_queue
reset_undo_queue-same b = finish (reset_loop b.undo b) (reset_loop-same b.undo b)
  where
    finish :
        (r : Option Buffer)
        → IfSome r (SameLines b)
        → IfSome
            (elim r [
              | none ↦ none
              | some b₁ ↦ some (record b₁ { undo = []; saved = some b₁.state })
            ])
            (SameLines b)
    finish none h = tt
    finish (some b₁) h = record {
      forw = h.forw;
      back = h.back;
      head = h.head;
      cache = h.cache;
      state = h.state;
    }
