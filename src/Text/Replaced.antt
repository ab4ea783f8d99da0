-- ===== src/Text/Replaced.antt =====
-- A range of lines replaced by one line (the last part of `join_lines` of src/cmds.c).
use ed.Common.{
  ℕ, suc, ◌+◌, ◌≤◌, ◌<◌, ◌≡◌, ◌≢◌, refl, sym, ap, subst, ◌∙◌, Bool, true, false, List, [], ◌∷◌,
  ◌++◌, length, ◌==◌,
}
use ed.Line.{Ptr, Heap, null, has, link_nodes}
use ed.Edit.{Buffer, EdState, UndoOp, uadd, locate}
use ed.Edit.Valid
use ed.Edit.Valid.{IsBuffer, joined, length-joined}
use ed.Edit.Append.{off_t_max, OnSuccess, Ensures-both}
use ed.Edit.Commands.{delete_lines}
use ed.Edit.Undo.{append_undo_node}
use ed.Edit.Delete.{Deleted, delete_lines-Deleted}
use ed.Edit.Tracked.{Tracked, Tracked-Deleted}
use ed.Edit.Lines.{append_undo_line}
use ed.Edit.Added.{Distinct-fresh, Tracked-append_undo_line}
use ed.Text.{Core, Calls, run, with_buffer, put_buffer_line}
use ed.Text.Store.{IsStore, Succeeds, Ensures, Ensures-mono, Ensures-run, InFile, text_of}
use ed.Text.Put.{Written, put_buffer_line-Written}
use ed.Text.Kept.{
  SameNodes, SameText, SameNodes-SameText, SameText-trans, Written-SameText, Written-text,
}

pub IsStore-with_buffer : (c : Core) (ed : Buffer) → IsStore c → IsStore (with_buffer c ed)
IsStore-with_buffer c ed s = record { offset = s.offset; at_end = s.at_end }

module _ (old : Buffer) (xs : List Ptr) (d : Ptr) (ds ys : List Ptr) where
  -- The range is gone, and its texts are not.
  pub record Removed (c c' : Core) : Type 0 where
    pub tracked : Tracked old c'.buffer (xs ++ ys)
    pub dot : c'.buffer.state.dot ≡ length xs
    pub nodes : SameNodes c c'
    pub live : c'.buffer.heap.live ≡ c.buffer.heap.live
    pub store : IsStore c'

  Removed-Deleted :
      (c c' : Core)
      → Tracked old c.buffer (joined xs d ds ys)
      → IsStore c
      → Deleted c.buffer c'.buffer xs d ds ys × (c' ≡ with_buffer c c'.buffer)
      → Removed c c'
  unfolding link_nodes
  Removed-Deleted c c' t s (v, same) = record {
    tracked = Tracked-Deleted old c.buffer xs d ds ys c'.buffer t v;
    dot = v.dot;
    nodes = record {
      len = λ q. ap (λ (h : Heap). h.len q) v.heap;
      seek = λ q. ap (λ (h : Heap). h.seek q) v.heap;
      file = ap (λ (c : Core). c.fp) same;
    };
    live = ap (λ (h : Heap). h.live) v.heap;
    store = subst IsStore (sym same) (IsStore-with_buffer c c'.buffer s);
  }

  pub delete_lines-Removed :
      (c : Core)
      → Tracked old c.buffer (joined xs d ds ys)
      → IsStore c
      → Ensures
          (run c (delete_lines true (suc (length xs)) (length xs + suc (length ds)) c.buffer))
          (λ _ c'. Removed c c')
  delete_lines-Removed c t s =
      Ensures-mono _ (λ _ c'. Removed c c') _
        (Ensures-run (λ _ ed. Deleted c.buffer ed xs d ds ys) c _
          (delete_lines-Deleted c.buffer xs d ds ys t.buffer))
        λ _ c' v. Removed-Deleted c c' t s v

pub same-append_undo_node :
    (memory : Bool) (op : UndoOp) (from to : ℕ) (ed : Buffer)
    → OnSuccess
        (append_undo_node memory op from to ed)
        (λ _ ed'. (ed'.heap ≡ ed.heap) × (ed'.state ≡ ed.state))
unfolding append_undo_node locate
same-append_undo_node true op from to ed = (refl, refl)
same-append_undo_node false op from to ed = tt

-- The line `p` with the text `t` stands behind the lines `xs`, recorded for undo.
pub record Put (old : Buffer) (c c' : Core) (xs : List Ptr) (p : Ptr) (ys : List Ptr) (t : List ℕ)
    : Type 0 where
  pub tracked : Tracked old c'.buffer (joined xs p [] ys)
  pub text : text_of c' p ≡ t
  pub in_file : InFile c' p
  pub others : (q : Ptr) → (q == p) ≡ false → InFile c q → SameText c c' q
  pub store : IsStore c'
  pub dot : c'.buffer.state.dot ≡ length xs + 1

module _ (old : Buffer) (c : Core) (xs : List Ptr) (p : Ptr) (ys : List Ptr) (t : List ℕ) where
  pub put-Written :
      (calls : Calls)
      → Succeeds calls
      → IsStore c
      → Tracked old c.buffer (xs ++ ys)
      → c.buffer.state.dot ≡ length xs
      → has p c.buffer.heap.live ≡ false
      → p ≢ null
      → c.buffer.state.lines < off_t_max
      → length c.fp + length t ≤ off_t_max
      → Ensures
          (put_buffer_line calls p (t ++ 10 ∷ []) (length t + 1) c)
          (λ left c'. (left ≡ []) × Written c c' xs p ys t)
  put-Written calls s st tr dot n z l f =
      put_buffer_line-Written c xs p ys t calls [] s st tr.buffer dot
        (Distinct-fresh old c.buffer xs p ys tr n) z l f

  Put-same :
      (c₁ c' : Core)
      → Written c c₁ xs p ys t
      → Tracked old c'.buffer (joined xs p [] ys)
      → c'.buffer.heap ≡ c₁.buffer.heap
      → c'.buffer.state ≡ c₁.buffer.state
      → c' ≡ with_buffer c₁ c'.buffer
      → Put old c c' xs p ys t
  Put-same c₁ c' w tr h st same =
      let (e, i) = Written-text c c₁ xs p ys t w in
      let nodes : SameNodes c₁ c' = record {
        len = λ q. ap (λ (h : Heap). h.len q) h;
        seek = λ q. ap (λ (h : Heap). h.seek q) h;
        file = ap (λ (c : Core). c.fp) same;
      } in
      let kept = SameNodes-SameText c₁ c' p nodes i in
      record {
        tracked = tr;
        text = kept.text ∙ e;
        in_file = kept.in_file;
        others = λ q n i.
            let v = Written-SameText c c₁ xs p ys t q w n i in
            SameText-trans c c₁ c' q v (SameNodes-SameText c₁ c' q nodes v.in_file);
        store = subst IsStore (sym same) (IsStore-with_buffer c₁ c'.buffer w.store);
        dot = ap (λ (s : EdState). s.dot) st ∙ w.dot;
      }

  -- The undo node of the new line.
  pub append_undo_node-Put :
      (c₁ : Core)
      → Tracked old c.buffer (xs ++ ys)
      → has p c.buffer.heap.live ≡ false
      → Written c c₁ xs p ys t
      → Ensures
          (run c₁ (append_undo_node true uadd c₁.buffer.state.dot c₁.buffer.state.dot c₁.buffer))
          (λ _ c'. Put old c c' xs p ys t)
  unfolding append_undo_line
  append_undo_node-Put c₁ tr n w =
      let at = c₁.buffer.state.dot in
      let node = append_undo_node true uadd at at c₁.buffer in
      let tracked : ℕ → Type 0 = λ k.
        Valid.Ensures (append_undo_node true uadd k k c₁.buffer)
          (λ _ ed. Tracked old ed (joined xs p [] ys)) in
      let recorded : tracked at = subst tracked (sym w.dot) (
        Tracked-append_undo_line old c.buffer xs p ys (length t) (length c.fp) p c₁.buffer tr n
          (refl, w.appended)) in
      let good : Unit {0} → Buffer → Type 0 = λ _ ed.
        Tracked old ed (joined xs p [] ys)
        × ((ed.heap ≡ c₁.buffer.heap) × (ed.state ≡ c₁.buffer.state)) in
      Ensures-mono _ (λ _ c'. Put old c c' xs p ys t) (run c₁ node)
        (Ensures-run good c₁ node
          (Ensures-both _ _ node recorded (same-append_undo_node true uadd at at c₁.buffer)))
        λ _ c' ((tr', (h, st)), same). Put-same c₁ c' w tr' h st same
