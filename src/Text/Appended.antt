-- ===== src/Text/Appended.antt =====
-- A line that `append_lines` (src/cmds.c) reads, from its text to its undo node.
use ed.Common.{
  ℕ, ◌+◌, ◌≤◌, ◌≡◌, refl, sym, ap, subst, ◌∙◌, Bool, true, false, List, [], ◌∷◌, ◌++◌, arith,
  length, length-append, ◌==◌,
}
use ed.Line.{Ptr, Heap, has, append_node, link_nodes}
use ed.Line.Locate.Walk.{node_at}
use ed.Edit.{Buffer, EdState, locate, located}
use ed.Edit.Valid
use ed.Edit.Valid.{IsBuffer, joined, length-joined, locate_lem, moved_to, node_from}
use ed.Edit.Append.{Ensures-both}
use ed.Edit.Added.{Appended-moved_to}
use ed.Edit.Lines.{append_undo_line}
use ed.Edit.Recording.{
  Recording, Recording-state, append_undo_line-Recording, same-append_undo_line,
}
use ed.Text.{Core, run, with_buffer}
use ed.Text.Store.{IsStore, Ensures, Ensures-mono, Ensures-run, InFile, text_of}
use ed.Text.Put.{Written}
use ed.Text.Kept.{
  SameText, SameNodes, SameNodes-SameText, SameText-trans, Written-SameText, Written-text,
}
use ed.Text.Replaced.{IsStore-with_buffer}
use ed.Text.Appending.{after_line}

-- The line `p` with the text `t` was added behind the lines `xs`.
pub record Stepped (old : Buffer) (c c' : Core) (xs : List Ptr) (p : Ptr) (ys : List Ptr)
    (t : List ℕ) : Type 0 where
  pub recording : Recording old c'.buffer true (xs ++ p ∷ []) ys
  pub live : c'.buffer.heap.live ≡ p ∷ c.buffer.heap.live
  pub file : length c'.fp ≡ length c.fp + length t
  pub store : IsStore c'
  pub dot : c'.buffer.state.dot ≡ length (xs ++ p ∷ [])
  pub text : text_of c' p ≡ t
  pub in_file : InFile c' p
  pub others : (q : Ptr) → (q == p) ≡ false → InFile c q → SameText c c' q

module _ (old : Buffer) (c : Core) (xs : List Ptr) (p : Ptr) (ys : List Ptr) (t : List ℕ) where
  -- The undo node and the flags change no text.
  Stepped-Written :
      (c₁ c₃ : Core)
      → Written c c₁ xs p ys t
      → Recording old c₃.buffer true (xs ++ p ∷ []) ys
      → c₃.buffer.heap ≡ c₁.buffer.heap
      → c₃.buffer.state ≡ c₁.buffer.state
      → c₃ ≡ with_buffer c₁ c₃.buffer
      → Stepped old c (after_line c₃) xs p ys t
  unfolding append_node link_nodes
  Stepped-Written c₁ c₃ w r h st same =
      let c' = after_line c₃ in
      let (e, i) = Written-text c c₁ xs p ys t w in
      let fp : c₃.fp ≡ c₁.fp = ap (λ (c : Core). c.fp) same in
      let nodes : SameNodes c₁ c' = record {
        len = λ q. ap (λ (h : Heap). h.len q) h;
        seek = λ q. ap (λ (h : Heap). h.seek q) h;
        file = fp;
      } in
      let kept = SameNodes-SameText c₁ c' p nodes i in
      let dot : c₃.buffer.state.dot ≡ length (xs ++ p ∷ []) =
        omega (arith, ap (λ (s : EdState). s.dot) st, w.dot, length-append xs (p ∷ [])) in
      record {
        recording =
            Recording-state old c₃.buffer (c'.buffer.state) true (xs ++ p ∷ []) ys refl dot r;
        live = ap (λ (h : Heap). h.live) (h ∙ w.appended.heap);
        file = ap (λ (f : List ℕ). length f) (fp ∙ w.file) ∙ length-append c.fp t;
        store =
            IsStore-with_buffer c₃ (c'.buffer)
              (subst IsStore (sym same) (IsStore-with_buffer c₁ c₃.buffer w.store));
        dot = dot;
        text = kept.text ∙ e;
        in_file = kept.in_file;
        others = λ q n i.
            let v = Written-SameText c c₁ xs p ys t q w n i in
            SameText-trans c c₁ c' q v (SameNodes-SameText c₁ c' q nodes v.in_file);
      }

  -- The undo node of the line.
  pub record_line :
      (c₁ : Core) (up : Bool)
      → Recording old c.buffer up xs ys
      → has p c.buffer.heap.live ≡ false
      → Written c c₁ xs p ys t
      → (let c₂ = with_buffer c₁ (locate c₁.buffer.state.dot c₁.buffer) in
          Ensures
            (run c₂ (append_undo_line true up (located c₂.buffer) c₂.buffer.state.dot c₂.buffer))
            (λ _ c₃. Stepped old c (after_line c₃) xs p ys t))
  record_line c₁ up r n w =
      let line = length xs + 1 in
      let lines = joined xs p [] ys in
      let l : line ≤ length lines = omega (arith, length-joined xs p [] ys) in
      let ed₂ = moved_to c₁.buffer lines w.appended.buffer line in
      let c₂ = with_buffer c₁ ed₂ in
      let found : locate c₁.buffer.state.dot c₁.buffer ≡ ed₂ =
        ap (λ n. locate n c₁.buffer) w.dot ∙ locate_lem c₁.buffer lines w.appended.buffer line l in
      let node : located ed₂ ≡ p =
        subst (λ k. node_at c₁.buffer.line_head lines k ≡ p) (omega arith)
          (node_from c₁.buffer.line_head xs p [] ys) in
      let a =
        Appended-moved_to old c.buffer xs p ys (length t) (length c.fp) c₁.buffer w.appended line
          l in
      let at = c₂.buffer.state.dot in
      let add = append_undo_line true up (located ed₂) at ed₂ in
      let recorded : Valid.Ensures add (λ _ ed. Recording old ed true (xs ++ p ∷ []) ys) =
        subst
          (λ k.
            Valid.Ensures (append_undo_line true up (located ed₂) k ed₂)
              (λ _ ed. Recording old ed true (xs ++ p ∷ []) ys))
          (sym w.dot)
          (append_undo_line-Recording old c.buffer ed₂ up xs p ys (length t) (length c.fp)
            (located ed₂) a n node r) in
      let good : Unit {0} → Buffer → Type 0 = λ _ ed.
        Recording old ed true (xs ++ p ∷ []) ys × ((ed.heap ≡ ed₂.heap) × (ed.state ≡ ed₂.state)) in
      subst
        (λ (ed : Buffer).
          let c₂ = with_buffer c₁ ed in
          Ensures (run c₂ (append_undo_line true up (located ed) ed.state.dot ed))
            (λ _ c₃. Stepped old c (after_line c₃) xs p ys t))
        (sym found)
        (Ensures-mono _ (λ _ c₃. Stepped old c (after_line c₃) xs p ys t) (run c₂ add)
          (Ensures-run good c₂ add
            (Ensures-both _ _ add recorded (same-append_undo_line true up (located ed₂) at ed₂)))
          λ _ c₃ ((r', (h, st)), same). Stepped-Written c₁ c₃ w r' h st same)
