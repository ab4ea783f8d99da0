-- ===== src/Edit/Restore.antt =====
-- `undo_last_command` (src/undo.c) after `delete_lines` (src/cmds.c), and again after itself.
use ed.Common.{
  suc, ◌+◌, ◌≤◌, ◌≡◌, refl, true, false, some, List, [], ◌∷◌, ◌++◌, arith, length, ap, sym, subst,
  ◌∙◌,
}
use ed.Line.{Ptr, null, Heap, has, Distinct, link_nodes}
use ed.Line.Chain.{last}
use ed.Line.Apart.{first}
use ed.Line.Ring.{IsRing, AllDistinct, all_distinct, cut_three}
use ed.Line.Cut.{Detached, ends, unlink-IsRing, unlink-Detached, relink_parts}
use ed.Line.Locate.Walk.{node_at-zero}
use ed.Edit.{GlobalBuffer, Buffer, EdState, ◌>>=◌, UndoNode, udel, uadd}
use ed.Edit.Undo.{undo_node, undo_delete, undo_add, undo_loop, toggle}
use ed.Edit.Commands.{delete_lines, undo_last_command}
use ed.Edit.Valid.{
  IsBuffer, Ensures, Ensures-bind, Ensures-mono, has-left, moved_to, locate_lem, joined,
}
use ed.Edit.Delete.{Deleted, delete_lines-Deleted}

module _ {h : Heap} {head : Ptr} (xs : List Ptr) (d : Ptr) (ds ys : List Ptr) where
  -- Undoing a deletion links the stretch in again.
  pub undo_delete-IsRing :
      IsRing h head (xs ++ ys)
      → Detached h (last head xs) d ds (first ys head)
      → AllDistinct head xs d ds ys
      → IsRing (undo_delete (undo_node udel d (last d ds)) h) head (joined xs d ds ys)
  unfolding undo_delete
  undo_delete-IsRing r det a =
      let h₁ = link_nodes (last head xs) d h in
      let stays : h₁.forw (last d ds) ≡ first ys head =
        unfold link_nodes in (ground (arith, det.to, (ends xs d ds ys a).t_ne_last)) in
      rw (det.from, stays) (relink_parts xs d ds ys r det.inner a)

  -- Undoing an addition takes the stretch out.
  pub undo_add-IsRing :
      IsRing h head (joined xs d ds ys)
      → (IsRing (undo_add (undo_node uadd d (last d ds)) h) head (xs ++ ys))
        × Detached (undo_add (undo_node uadd d (last d ds)) h) (last head xs) d ds (first ys head)
  unfolding undo_add
  undo_add-IsRing r =
      let s = cut_three xs d ds ys r in
      rw (s.enter.1, s.leave.0) (unlink-IsRing xs d ds ys r, unlink-Detached xs d ds ys r)

-- A buffer whose undo queue is one node, and whose saved state is `before`.
abbrev pub with_change : Buffer → UndoNode → EdState → Buffer
with_change ed up before = record ed { undo = up ∷ []; saved = some before }

IsBuffer-with_change :
    {ed : Buffer} {xs : List Ptr} (up : UndoNode) (before : EdState)
    → IsBuffer ed xs
    → IsBuffer (with_change ed up before) xs
IsBuffer-with_change up before v = record {
  ring = v.ring;
  lines = v.lines;
  dot = v.dot;
  cached = v.cached;
  not_null = v.not_null;
}

-- What a successful undo leaves: the lines, the states exchanged, and one node with its type
-- toggled.
pub record Undone (ed ed' : Buffer) (up : UndoNode) (before : EdState) (lines : List Ptr)
    : Type 0 where
  pub buffer : IsBuffer ed' lines
  pub state : ed'.state ≡ before
  pub saved : ed'.saved ≡ some ed.state
  pub undo : ed'.undo ≡ up ∷ []
  pub head : ed'.line_head ≡ ed.line_head

-- The invariant after an undo that leaves the ring `ring`: the cache is at line 0.
module _ (ed : Buffer) (before : EdState) (xs ys : List Ptr) (v : IsBuffer ed xs) where
  pub undone-IsBuffer :
      (h : Heap) (queue : List UndoNode) (gb : GlobalBuffer)
      → IsRing h ed.line_head ys
      → before.lines ≡ length ys
      → before.dot ≤ length ys
      → has null (ed.line_head ∷ ys) ≡ false
      → IsBuffer
          (record (moved_to ed xs v 0) {
            heap = h;
            undo = queue;
            global_buffer = gb;
            state = before;
            saved = some ed.state;
          })
          ys
  undone-IsBuffer h queue gb r l m z = record {
    ring = r;
    lines = l;
    dot = m;
    cached = record {
      node = ground (arith, z, node_at-zero ed.line_head xs, node_at-zero ed.line_head ys);
      line = omega arith;
    };
    not_null = z;
  }

module _ (ed : Buffer) (before : EdState) (xs : List Ptr) (d : Ptr) (ds ys : List Ptr) where
  -- Undoing a deletion.
  pub undo-removed :
      IsBuffer ed (xs ++ ys)
      → Detached ed.heap (last ed.line_head xs) d ds (first ys ed.line_head)
      → Distinct (ed.line_head ∷ joined xs d ds ys)
      → has null (ed.line_head ∷ joined xs d ds ys) ≡ false
      → before.lines ≡ length (joined xs d ds ys)
      → before.dot ≤ length (joined xs d ds ys)
      → Ensures
          (undo_last_command (with_change ed (undo_node udel d (last d ds)) before))
          (λ _ ed'. Undone ed ed' (undo_node uadd d (last d ds)) before (joined xs d ds ys))
  unfolding undo_last_command undo_loop toggle
  undo-removed v det dis z l m =
      let up = undo_node udel d (last d ds) in
      let v' = IsBuffer-with_change up before v in
      rw (locate_lem (with_change ed up before) (xs ++ ys) v' 0 (omega arith)) (record {
        buffer =
            undone-IsBuffer ed before (xs ++ ys) (joined xs d ds ys) v _ _ _
              (undo_delete-IsRing xs d ds ys v.ring det (all_distinct ed.line_head xs d ds ys dis))
              l m z;
        state = refl;
        saved = refl;
        undo = refl;
        head = refl;
      })

  pub undo-added :
      IsBuffer ed (joined xs d ds ys)
      → before.lines ≡ length (xs ++ ys)
      → before.dot ≤ length (xs ++ ys)
      → Ensures
          (undo_last_command (with_change ed (undo_node uadd d (last d ds)) before))
          (λ _ ed'. Undone ed ed' (undo_node udel d (last d ds)) before (xs ++ ys))
  unfolding undo_last_command undo_loop toggle
  undo-added v l m =
      let up = undo_node uadd d (last d ds) in
      let v' = IsBuffer-with_change up before v in
      rw (locate_lem (with_change ed up before) (joined xs d ds ys) v' 0 (omega arith)) (record {
        buffer =
            undone-IsBuffer ed before (joined xs d ds ys) (xs ++ ys) v _ _ _
              (undo_add-IsRing xs d ds ys v.ring).0 l m
              (has-left null ed.line_head xs d ds ys v.not_null);
        state = refl;
        saved = refl;
        undo = refl;
        head = refl;
      })

-- The undo of an undo of the deletion, from what the first leaves.
undo-Undone :
    (ed ed' : Buffer) (before : EdState) (xs : List Ptr) (d : Ptr) (ds ys : List Ptr)
    → IsBuffer ed (xs ++ ys)
    → Undone ed ed' (undo_node uadd d (last d ds)) before (joined xs d ds ys)
    → Ensures
        (undo_last_command ed')
        (λ _ ed''. Undone ed' ed'' (undo_node udel d (last d ds)) ed.state (xs ++ ys))
undo-Undone ed ed' before xs d ds ys v un =
    subst
      (λ (e : Buffer).
        Ensures (undo_last_command e)
          (λ _ ed''. Undone ed' ed'' (undo_node udel d (last d ds)) ed.state (xs ++ ys)))
      same (undo-added ed' ed.state xs d ds ys un.buffer v.lines v.dot)
  where
    same : with_change ed' (undo_node uadd d (last d ds)) ed.state ≡ ed'
    same = λ i. record ed' { undo = sym un.undo i; saved = sym un.saved i }

-- `reset_undo_queue` was called before the command: the queue is empty and the state is saved.
pub record IsFresh (ed : Buffer) : Type 0 where
  pub undo : ed.undo ≡ []
  pub saved : ed.saved ≡ some ed.state

module _ (ed : Buffer) (xs : List Ptr) (d : Ptr) (ds ys : List Ptr) where
  -- The undo of the deletion, from what the deletion leaves.
  undo-Deleted :
      (ed' : Buffer)
      → IsBuffer ed (joined xs d ds ys)
      → IsFresh ed
      → Deleted ed ed' xs d ds ys
      → Ensures
          (undo_last_command ed')
          (λ _ ed''. Undone ed' ed'' (undo_node uadd d (last d ds)) ed.state (joined xs d ds ys))
  undo-Deleted ed' v f del =
      subst
        (λ e.
          Ensures (undo_last_command e)
            (λ _ ed''. Undone ed' ed'' (undo_node uadd d (last d ds)) ed.state (joined xs d ds ys)))
        same
        (undo-removed ed' ed.state xs d ds ys del.buffer (rw del.head del.detached)
          (rw del.head v.ring.distinct) (rw del.head v.not_null) v.lines v.dot)
    where
      up : UndoNode
      up = undo_node udel d (last d ds)

      queue : up ∷ [] ≡ ed'.undo
      queue = sym (del.undo ∙ ap (λ (q : List UndoNode). q ++ up ∷ []) f.undo)

      saved : some ed.state ≡ ed'.saved
      saved = sym (del.saved ∙ f.saved)

      same : with_change ed' up ed.state ≡ ed'
      same = λ i. record ed' { undo = queue i; saved = saved i }

  -- In a buffer whose undo queue was just cleared, a deletion of the lines `d ∷ ds` and an undo
  -- succeed, given memory for the undo node. They restore the lines, in order, and the whole
  -- state with the current line and the flags.
  pub undo-delete_lines :
      IsBuffer ed (joined xs d ds ys)
      → IsFresh ed
      → Ensures
          (delete_lines true (suc (length xs)) (length xs + suc (length ds)) ed >>= λ _.
            undo_last_command)
          (λ _ ed'. IsBuffer ed' (joined xs d ds ys) × (ed'.state ≡ ed.state))
  undo-delete_lines v f =
      Ensures-bind (λ _ ed₁. Deleted ed ed₁ xs d ds ys)
        (λ _ ed'. IsBuffer ed' (joined xs d ds ys) × (ed'.state ≡ ed.state)) _ _
        (delete_lines-Deleted ed xs d ds ys v)
        λ _ ed₁ del.
          Ensures-mono
            (λ _ ed₂. Undone ed₁ ed₂ (undo_node uadd d (last d ds)) ed.state (joined xs d ds ys))
            (λ _ ed'. IsBuffer ed' (joined xs d ds ys) × (ed'.state ≡ ed.state)) _
            (undo-Deleted ed₁ v f del) λ _ ed₂ un. (un.buffer, un.state)

  -- After the deletion, in a buffer whose undo queue was just cleared, a first and a second undo
  -- succeed. The second leaves the lines without `d ∷ ds`, with the current line before them.
  pub undo-undo-delete_lines :
      IsBuffer ed (joined xs d ds ys)
      → IsFresh ed
      → Ensures
          (delete_lines true (suc (length xs)) (length xs + suc (length ds)) ed >>= λ _ ed₁.
            undo_last_command ed₁ >>= λ _ ed₂. undo_last_command ed₂)
          (λ _ ed'. IsBuffer ed' (xs ++ ys) × (ed'.state.dot ≡ length xs))
  undo-undo-delete_lines v f =
      Ensures-bind (λ _ ed₁. Deleted ed ed₁ xs d ds ys) Again _ _
        (delete_lines-Deleted ed xs d ds ys v)
        λ _ ed₁ del.
          Ensures-bind
            (λ _ ed₂. Undone ed₁ ed₂ (undo_node uadd d (last d ds)) ed.state (joined xs d ds ys))
            Again _ _ (undo-Deleted ed₁ v f del)
            λ _ ed₂ un.
              Ensures-mono
                (λ _ ed₃. Undone ed₂ ed₃ (undo_node udel d (last d ds)) ed₁.state (xs ++ ys)) Again
                _ (undo-Undone ed₁ ed₂ ed.state xs d ds ys del.buffer un)
                λ _ ed₃ re. (re.buffer, ap (λ (s : EdState). s.dot) re.state ∙ del.dot)
    where
      Again : Unit {0} → Buffer → Type 0
      Again _ ed' = IsBuffer ed' (xs ++ ys) × (ed'.state.dot ≡ length xs)
