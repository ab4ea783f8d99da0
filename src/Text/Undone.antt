-- ===== src/Text/Undone.antt =====
-- `undo_last_command` (src/undo.c) leaves the texts alone, also those of lines that were joined.
use ed.Common.{
  ℕ, ◌+◌, ◌≡◌, refl, ap, true, false, none, some, Option, List, [], ◌∷◌, suc, arith, length, ◌==◌,
}
use mathlib.Core.List.{reverse}
use ed.Line.{Ptr, Heap, link_nodes}
use ed.Edit.{Buffer, UndoNode, EdState, locate}
use ed.Edit.Valid.{IsBuffer, joined}
use ed.Edit.Append.{OnSuccess, Ensures-both}
use ed.Edit.Undo.{undo_add, undo_delete, undo_move, undo_loop}
use ed.Edit.Commands.{undo_last_command}
use ed.Edit.Tracked.{Tracked, AllLive, undo_last_command-Tracked}
use ed.Text.{Core, Calls, ◌>>=◌, run, join_lines}
use ed.Text.Store.{IsStore, Succeeds, Ensures, Ensures-bind, Ensures-mono, Ensures-run, InFile}
use ed.Text.Kept.{SameText, SameNodes, SameNodes-SameText, SameText-trans}
use ed.Text.Join.{joined_text, Readable, AllSucceed}
use ed.Text.Joined.{join_lines-Replaced}
use ed.Text.Replacing.{Replaced, HasRoom}

undo_loop-len : (q : List UndoNode) (h : Heap) (x : Ptr) → (undo_loop q h).0.len x ≡ h.len x
unfolding undo_loop link_nodes
undo_loop-len [] h x = refl
undo_loop-len (up ∷ []) h x = ground arith
undo_loop-len (up ∷ prev ∷ ups) h x = ground (
  arith,
  undo_loop-len (prev ∷ ups) (undo_add up h) x,
  undo_loop-len (prev ∷ ups) (undo_delete up h) x,
  undo_loop-len ups (undo_move up prev h) x,
)

undo_loop-seek : (q : List UndoNode) (h : Heap) (x : Ptr) → (undo_loop q h).0.seek x ≡ h.seek x
unfolding undo_loop link_nodes
undo_loop-seek [] h x = refl
undo_loop-seek (up ∷ []) h x = ground arith
undo_loop-seek (up ∷ prev ∷ ups) h x = ground (
  arith,
  undo_loop-seek (prev ∷ ups) (undo_add up h) x,
  undo_loop-seek (prev ∷ ups) (undo_delete up h) x,
  undo_loop-seek ups (undo_move up prev h) x,
)

abbrev Fields : Buffer → Buffer → Type 0
Fields ed ed' = (q : Ptr) → (ed'.heap.len q ≡ ed.heap.len q) × (ed'.heap.seek q ≡ ed.heap.seek q)

undo_last_command-Fields :
    (ed : Buffer) (saved : Option EdState)
    → OnSuccess (undo_last_command (record ed { saved = saved })) (λ _ ed'. Fields ed ed')
unfolding undo_last_command locate
undo_last_command-Fields ed none = tt
undo_last_command-Fields ed (some before) =
    λ q. (undo_loop-len (reverse ed.undo) ed.heap q, undo_loop-seek (reverse ed.undo) ed.heap q)

-- The buffer is as it was, with the lines `xs`, and the texts of the nodes in the file are the same.
pub record Undone (old : Buffer) (c c' : Core) (xs : List Ptr) (p : Ptr) : Type 0 where
  pub buffer : IsBuffer c'.buffer xs
  pub state : c'.buffer.state ≡ old.state
  pub texts : (q : Ptr) → (q == p) ≡ false → InFile c q → SameText c c' q

module _ (old : Buffer) (c : Core) (zs xs : List Ptr) (d : Ptr) (ds ys : List Ptr) (p : Ptr) where
  undo-Replaced :
      (c₁ : Core) (t : List ℕ)
      → IsBuffer old zs
      → AllLive old.heap.live (old.line_head ∷ zs)
      → Replaced old c c₁ xs p ys t
      → Ensures (run c₁ (undo_last_command c₁.buffer)) (λ _ c'. Undone old c c' zs p)
  undo-Replaced c₁ t v l r =
      let undo = undo_last_command c₁.buffer in
      let good : Unit {0} → Buffer → Type 0 =
        λ _ ed. (IsBuffer ed zs × (ed.state ≡ old.state)) × Fields c₁.buffer ed in
      Ensures-mono _ (λ _ c'. Undone old c c' zs p) (run c₁ undo)
        (Ensures-run good c₁ undo (
          Ensures-both _ _ undo
            (undo_last_command-Tracked old c₁.buffer zs (joined xs p [] ys) v l r.tracked)
            (undo_last_command-Fields c₁.buffer c₁.buffer.saved)))
        λ _ c' (((b, st), f), same).
          let nodes : SameNodes c₁ c' = record {
            len = λ q. (f q).0;
            seek = λ q. (f q).1;
            file = ap (λ (c : Core). c.fp) same;
          } in
          record {
            buffer = b;
            state = st;
            texts = λ q n i.
                let s = r.others q n i in
                SameText-trans c c₁ c' q s (SameNodes-SameText c₁ c' q nodes s.in_file);
          }

  -- Undoing after `join_lines` takes back the join, with all that was recorded before it since the
  -- buffer `old`: its lines and its state are there again, and every text that was in the file is.
  pub undo-join_lines :
      (reads : ℕ → Calls) (put : Calls)
      → AllSucceed reads
      → Succeeds put
      → IsBuffer old zs
      → AllLive old.heap.live (old.line_head ∷ zs)
      → IsStore c
      → Tracked old c.buffer (joined xs d ds ys)
      → Readable c (d ∷ ds)
      → HasRoom c p (joined_text c (d ∷ ds))
      → Ensures
          (join_lines reads true put true p (suc (length xs)) (length xs + suc (length ds)) c
            >>= λ _ c₁. run c₁ (undo_last_command c₁.buffer))
          (λ _ c'. Undone old c c' zs p)
  undo-join_lines reads put s sp v l st t r room =
      Ensures-bind (λ _ c₁. Replaced old c c₁ xs p ys (joined_text c (d ∷ ds)))
        (λ _ c'. Undone old c c' zs p) _ _
        (join_lines-Replaced old c xs d ds ys p reads put s sp st t r room)
        λ _ c₁ w. undo-Replaced c₁ (joined_text c (d ∷ ds)) v l w
