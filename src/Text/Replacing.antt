-- ===== src/Text/Replacing.antt =====
-- The last part of `join_lines` (src/cmds.c): the lines are replaced by one.
use ed.Common.{
  ℕ, suc, ◌+◌, ◌-◌, ◌≤◌, ◌<◌, ◌≡◌, ◌≢◌, refl, sym, ap, subst, ◌∙◌, true, false, List, [], ◌∷◌, ◌++◌,
  arith, length, length-append, ◌==◌,
}
use ed.Line.{Ptr, null, has}
use ed.Edit.{Buffer, uadd}
use ed.Edit.Valid.{joined, length-joined}
use ed.Edit.Append.{off_t_max}
use ed.Edit.Undo.{append_undo_node}
use ed.Edit.Tracked.{Tracked}
use ed.Text.{Core, ok, ◌>>=◌, Calls, run, with_dot, put_buffer_line, replace_lines, modified}
use ed.Text.Store.{IsStore, Succeeds, Ensures, Ensures-bind, InFile, text_of}
use ed.Text.Put.{Written}
use ed.Text.Kept.{SameText, SameNodes-SameText, SameText-trans}
use ed.Text.Replaced.{Removed, delete_lines-Removed, Put, put-Written, append_undo_node-Put}

-- The lines `d ∷ ds` are replaced by the line `p` with the text `t`, and all that is recorded for
-- undo. Every text that was in the file is as before.
pub record Replaced (old : Buffer) (c c' : Core) (xs : List Ptr) (p : Ptr) (ys : List Ptr)
    (t : List ℕ) : Type 0 where
  pub tracked : Tracked old c'.buffer (joined xs p [] ys)
  pub text : text_of c' p ≡ t
  pub others : (q : Ptr) → (q == p) ≡ false → InFile c q → SameText c c' q
  pub store : IsStore c'
  pub dot : c'.buffer.state.dot ≡ length xs + 1
  pub is_modified : c'.buffer.state.is_modified ≡ true

-- Room for a line with the text `t`, at an address that is not in use.
pub record HasRoom (c : Core) (p : Ptr) (t : List ℕ) : Type 0 where
  pub fresh : has p c.buffer.heap.live ≡ false
  pub not_null : p ≢ null
  pub lines : c.buffer.state.lines < off_t_max
  pub file : length c.fp + length t ≤ off_t_max

Tracked-modified :
    (old ed : Buffer) (xs : List Ptr)
    → Tracked old ed xs
    → Tracked old (record ed { state = record (ed.state) { is_modified = true } }) xs
Tracked-modified old ed xs t = record {
  buffer = record {
    ring = t.buffer.ring;
    lines = t.buffer.lines;
    dot = t.buffer.dot;
    cached = t.buffer.cached;
    not_null = t.buffer.not_null;
  };
  live = t.live;
  history = t.history;
  saved = t.saved;
  head = t.head;
}

module _ (old : Buffer) (xs : List Ptr) (d : Ptr) (ds ys : List Ptr) (p : Ptr) (t : List ℕ) where
  Replaced-Put :
      (c c₁ c' : Core)
      → Removed old xs d ds ys c c₁
      → Put old c₁ c' xs p ys t
      → Replaced old c (modified c') xs p ys t
  Replaced-Put c c₁ c' r w = record {
    tracked = Tracked-modified old c'.buffer (joined xs p [] ys) w.tracked;
    text = w.text;
    others = λ q n i.
        let s = SameNodes-SameText c c₁ q r.nodes i in
        let s' = SameText-trans c c₁ c' q s (w.others q n s.in_file) in
        record { text = s'.text; in_file = s'.in_file };
    store = record { offset = w.store.offset; at_end = w.store.at_end };
    dot = w.dot;
    is_modified = refl;
  }

  pub replace_lines-Replaced :
      (put : Calls) (c : Core)
      → Succeeds put
      → IsStore c
      → Tracked old c.buffer (joined xs d ds ys)
      → HasRoom c p t
      → Ensures
          (replace_lines true put true p (suc (length xs)) (length xs + suc (length ds)) t c)
          (λ _ c'. Replaced old c c' xs p ys t)
  unfolding replace_lines
  replace_lines-Replaced put c s st tr room =
      Ensures-bind (λ _ c₁. Removed old xs d ds ys c c₁) (λ _ c'. Replaced old c c' xs p ys t) _ _
        (delete_lines-Removed old xs d ds ys c tr st)
        λ _ c₁ r.
          let here : suc (length xs) - 1 ≡ c₁.buffer.state.dot = omega (arith, r.dot) in
          let n : has p c₁.buffer.heap.live ≡ false = ap (has p) r.live ∙ room.fresh in
          let few : c₁.buffer.state.lines < off_t_max = omega (
            arith,
            r.tracked.buffer.lines,
            tr.buffer.lines,
            length-append {0} xs ys,
            length-joined xs d ds ys,
            room.lines,
          ) in
          let fits : length c₁.fp + length t ≤ off_t_max =
            omega (arith, ap (λ (f : List ℕ). length f) r.nodes.file, room.file) in
          subst
            (λ (c₂ : Core).
              Ensures
                (put_buffer_line put p (t ++ 10 ∷ []) (length t + 1) c₂ >>= λ _ c₃.
                  run c₃
                    (append_undo_node true uadd c₃.buffer.state.dot c₃.buffer.state.dot c₃.buffer)
                  >>= λ _ c₄. ok tt (modified c₄))
                (λ _ c'. Replaced old c c' xs p ys t))
            (ap (λ n. with_dot n c₁) (sym here))
            (Ensures-bind (λ left c₃. (left ≡ []) × Written c₁ c₃ xs p ys t)
              (λ _ c'. Replaced old c c' xs p ys t) _ _
              (put-Written old c₁ xs p ys t put s r.store r.tracked r.dot n room.not_null few fits)
              λ left c₃ (e, w).
                Ensures-bind (λ _ c₄. Put old c₁ c₄ xs p ys t) (λ _ c'. Replaced old c c' xs p ys t)
                  _ _ (append_undo_node-Put old c₁ xs p ys t c₃ r.tracked n w)
                  λ _ c₄ q. Replaced-Put c c₁ c₄ r q)
