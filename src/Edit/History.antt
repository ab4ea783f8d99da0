-- ===== src/Edit/History.antt =====
-- The changes that commands make to the links (src/cmds.c, src/buffer.c) with the undo nodes that
-- they leave, and what `undo_last_command` (src/undo.c) makes of a whole sequence of them.
use ed.Common.{ℕ, ◌≡◌, ◌≢◌, refl, true, false, List, [], ◌∷◌, arith}
use ed.Line.{Ptr, Heap, has, link_nodes, append_node}
use ed.Line.Chain.{Joint}
use ed.Edit.{UndoNode, uadd, udel, umov}
use ed.Edit.Undo.{undo_node, undo_add, undo_delete, undo_move, undo_loop}
use ed.Edit.Append.{with_node}

abbrev pub Live : Heap → Ptr → Type 0
Live h p = has p h.live ≡ true

-- The nodes of `live` have the links that they have in `h`.
abbrev pub SameOn : List Ptr → Heap → Heap → Type 0
SameOn live g h = (x : Ptr) → has x live ≡ true → (g.forw x ≡ h.forw x) × (g.back x ≡ h.back x)

-- New nodes, from `f` to `t`, between the nodes `b` and `a` of `h`.
pub data Chunk (h : Heap) (b a : Ptr) : Heap → Ptr → Ptr → Type 0 where
  one :
      (p len seek : ℕ)
      → has p h.live ≡ false
      → Chunk h b a (append_node p b (with_node p len seek h)) p p
  more :
      {g : Heap} {f t : Ptr} (p len seek : ℕ)
      → Chunk h b a g f t
      → has p g.live ≡ false
      → Chunk h b a (append_node p t (with_node p len seek g)) f p

-- A deletion of the nodes from `d` to `t`, between `b` and `a`.
pub record Deletes (h : Heap) (b d t a : Ptr) : Type 0 where
  pub enter : Joint h b d
  pub leave : Joint h t a
  pub apart : b ≢ t
  pub live_b : Live h b
  pub live_d : Live h d
  pub live_t : Live h t
  pub live_a : Live h a

-- A move of the nodes from `d` to `t`, between `b1` and `a1`, to between `b2` and `a2`.
pub record Moves (h : Heap) (b1 d t a1 b2 a2 : Ptr) : Type 0 where
  pub deletes : Deletes h b1 d t a1
  pub target : Joint h b2 a2
  pub elsewhere : b1 ≢ b2
  pub outside : t ≢ b2
  pub live_b : Live h b2
  pub live_a : Live h a2

-- From `h` on, with the undo nodes, the newest first.
pub data History (h : Heap) : Heap → List UndoNode → Type 0 where
  start : History h h []
  deleted :
      {g : Heap} {q : List UndoNode} (b d t a : Ptr)
      → History h g q
      → Deletes g b d t a
      → History h (link_nodes b a g) (undo_node udel d t ∷ q)
  added :
      {g k : Heap} {q : List UndoNode} (b a f t : Ptr)
      → History h g q
      → Joint g b a
      → Live g b
      → Live g a
      → Chunk g b a k f t
      → History h k (undo_node uadd f t ∷ q)
  moved :
      {g : Heap} {q : List UndoNode} (b1 d t a1 b2 a2 : Ptr)
      → History h g q
      → Moves g b1 d t a1 b2 a2
      → History h
          (link_nodes b1 a1 (link_nodes t a2 (link_nodes b2 d g)))
          (undo_node umov b2 a2 ∷ undo_node umov b1 a1 ∷ q)

-- Undoing one change. The heap `k` agrees with what the change has left.
undo_delete-SameOn :
    (g k : Heap) (b d t a : Ptr)
    → Deletes g b d t a
    → SameOn g.live k (link_nodes b a g)
    → SameOn g.live (undo_delete (undo_node udel d t) k) g
unfolding undo_delete link_nodes
undo_delete-SameOn g k b d t a v s x l =
    ground (arith, v.enter, v.leave, v.apart, s x l, s d v.live_d, s t v.live_t)

undo_move-SameOn :
    (g k : Heap) (b1 d t a1 b2 a2 : Ptr)
    → Moves g b1 d t a1 b2 a2
    → SameOn g.live k (link_nodes b1 a1 (link_nodes t a2 (link_nodes b2 d g)))
    → SameOn g.live (undo_move (undo_node umov b2 a2) (undo_node umov b1 a1) k) g
unfolding undo_move link_nodes
undo_move-SameOn g k b1 d t a1 b2 a2 v s x l = ground (
  arith,
  v.deletes.enter,
  v.deletes.leave,
  v.deletes.apart,
  v.target,
  v.elsewhere,
  v.outside,
  s x l,
  s b2 v.live_b,
  s a2 v.live_a,
)

-- What a chunk leaves of the other nodes.
pub record InChunk (h : Heap) (b a : Ptr) (k : Heap) (f t : Ptr) : Type 0 where
  pub back_f : k.back f ≡ b
  pub forw_t : k.forw t ≡ a
  pub new_f : has f h.live ≡ false
  pub live_f : Live k f
  pub live_t : Live k t
  pub new_t : has t h.live ≡ false
  pub keeps : (x : Ptr) → Live h x → Live k x
  pub forw : (x : Ptr) → Live h x → x ≢ b → k.forw x ≡ h.forw x
  pub back : (x : Ptr) → Live h x → x ≢ a → k.back x ≡ h.back x

module _ (h : Heap) (b a : Ptr) (j : Joint h b a) (live_b : Live h b) (live_a : Live h a) where
  InChunk-one :
      (p len seek : ℕ)
      → has p h.live ≡ false
      → InChunk h b a (append_node p b (with_node p len seek h)) p p
  unfolding append_node link_nodes
  InChunk-one p len seek n = record {
    back_f = ground (arith, j);
    forw_t = ground (arith, j);
    new_f = n;
    live_f = ground arith;
    live_t = ground arith;
    new_t = n;
    keeps = λ x l. ground arith;
    forw = λ x l e. ground (arith, j);
    back = λ x l e. ground (arith, j);
  }

  InChunk-more :
      {g : Heap} {f t : Ptr} (p len seek : ℕ)
      → InChunk h b a g f t
      → has p g.live ≡ false
      → InChunk h b a (append_node p t (with_node p len seek g)) f p
  unfolding append_node link_nodes
  InChunk-more {g} {f} {t} p len seek c n = record {
    back_f = ground (arith, c.back_f, c.forw_t, c.live_f, c.new_f);
    forw_t = ground (arith, c.forw_t);
    new_f = c.new_f;
    live_f = ground (arith, c.live_f);
    live_t = ground arith;
    new_t = ground (arith, c.keeps p);
    keeps = λ x l. ground (arith, c.keeps x l);
    forw = λ x l e. ground (arith, c.keeps x l, c.forw x l e, c.new_t);
    back = λ x l e. ground (arith, c.keeps x l, c.back x l e, c.forw_t);
  }

  Chunk-InChunk : {k : Heap} {f t : Ptr} → Chunk h b a k f t → InChunk h b a k f t
  Chunk-InChunk (one p len seek n) = InChunk-one p len seek n
  Chunk-InChunk (more p len seek c n) = InChunk-more p len seek (Chunk-InChunk c) n

  undo_add-SameOn :
      (k l : Heap) (f t : Ptr)
      → InChunk h b a k f t
      → SameOn k.live l k
      → SameOn h.live (undo_add (undo_node uadd f t) l) h
  unfolding undo_add link_nodes
  undo_add-SameOn k l f t c s x e = ground (
    arith,
    j,
    s x (c.keeps x e),
    s f c.live_f,
    s t c.live_t,
    c.back_f,
    c.forw_t,
    c.forw x e,
    c.back x e,
  )

undo_loop-delete :
    (d t : Ptr) (q : List UndoNode) (h : Heap)
    → (undo_loop (undo_node udel d t ∷ q) h).0
      ≡ (undo_loop q (undo_delete (undo_node udel d t) h)).0
unfolding undo_loop
undo_loop-delete d t [] h = refl
undo_loop-delete d t (up ∷ q) h = refl

undo_loop-add :
    (d t : Ptr) (q : List UndoNode) (h : Heap)
    → (undo_loop (undo_node uadd d t ∷ q) h).0 ≡ (undo_loop q (undo_add (undo_node uadd d t) h)).0
unfolding undo_loop
undo_loop-add d t [] h = refl
undo_loop-add d t (up ∷ q) h = refl

undo_loop-move :
    (up prev : UndoNode) (q : List UndoNode) (h : Heap)
    → up.type ≡ umov
    → (undo_loop (up ∷ prev ∷ q) h).0 ≡ (undo_loop q (undo_move up prev h)).0
unfolding undo_loop
undo_loop-move up prev q h e = rw e refl

-- Undoing a whole sequence of changes, from the newest to the oldest, gives every node that was
-- there at the start the links that it had.
pub undo_loop-SameOn :
    {h k : Heap} {q : List UndoNode} (j : Heap)
    → History h k q
    → SameOn k.live j k
    → SameOn h.live (undo_loop q j).0 h
unfolding undo_loop link_nodes
undo_loop-SameOn j start s = s
undo_loop-SameOn j (deleted {g} {q} b d t a r v) s =
    rw (undo_loop-delete d t q j)
      (undo_loop-SameOn (undo_delete (undo_node udel d t) j) r (undo_delete-SameOn g j b d t a v s))
undo_loop-SameOn j (added {g} {k} {q} b a f t r i lb la c) s = rw (undo_loop-add f t q j) (
    undo_loop-SameOn (undo_add (undo_node uadd f t) j) r
      (undo_add-SameOn g b a i lb la k j f t (Chunk-InChunk g b a i lb la c) s))
undo_loop-SameOn j (moved {g} {q} b1 d t a1 b2 a2 r v) s =
    rw (undo_loop-move (undo_node umov b2 a2) (undo_node umov b1 a1) q j refl) (
      undo_loop-SameOn (undo_move (undo_node umov b2 a2) (undo_node umov b1 a1) j) r
        (undo_move-SameOn g j b1 d t a1 b2 a2 v s))
