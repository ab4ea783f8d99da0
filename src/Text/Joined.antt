-- ===== src/Text/Joined.antt =====
-- `join_lines` (src/cmds.c) on the lines and their texts.
use ed.Common.{
  ℕ, suc, ◌+◌, ◌-◌, ◌≤◌, ◌≡◌, refl, sym, ap, subst, ◌∙◌, Bool, true, false, List, [], ◌∷◌, arith,
  length, if◌then◌else◌,
}
use ed.Line.{Ptr, Heap, has}
use ed.Line.Ring.{cut_three}
use ed.Edit.{Buffer, EdState, located}
use ed.Edit.Valid.{joined, length-joined, locate_lem, moved_to, node_from}
use ed.Edit.Tracked.{Tracked}
use ed.Edit.Recording.{Tracked-moved_to}
use ed.Text.{
  Core, Status, err, ◌>>=◌, Calls, with_buffer, replace_lines, memory_exhausted, join_lines,
  join_loop,
}
use ed.Text.Store.{IsStore, Succeeds, Ensures, Ensures-bind, Ensures-mono}
use ed.Text.Kept.{SameNodes, SameNodes-SameText, SameText-trans}
use ed.Text.Join.{joined_text, Readable, Reads, AllSucceed, join_loop-joined_text}
use ed.Text.Replacing.{replace_lines-Replaced, HasRoom, Replaced}

Ensures-if :
    {A : Type 0} (b : Bool) (P : A → Core → Type 0) (r s : Status A)
    → b ≡ true
    → Ensures r P
    → Ensures (if b then r else s) P
Ensures-if true P r s e h = h
Ensures-if false P r s e h = cc

module _ (old : Buffer) (c : Core) (xs : List Ptr) (d : Ptr) (ds ys : List Ptr) (p : Ptr) where
  text : List ℕ
  text = joined_text c (d ∷ ds)

  Replaced-Reads :
      (c₁ c' : Core)
      → c₁.buffer.heap ≡ c.buffer.heap
      → c₁.fp ≡ c.fp
      → Replaced old c₁ c' xs p ys text
      → Replaced old c c' xs p ys text
  Replaced-Reads c₁ c' h f r = record {
    tracked = r.tracked;
    text = r.text;
    others = λ q n i.
        let nodes : SameNodes c c₁ = record {
          len = λ q. ap (λ (h : Heap). h.len q) h;
          seek = λ q. ap (λ (h : Heap). h.seek q) h;
          file = f;
        } in
        let s = SameNodes-SameText c c₁ q nodes i in
        SameText-trans c c₁ c' q s (r.others q n s.in_file);
    store = r.store;
    dot = r.dot;
    is_modified = r.is_modified;
  }

  -- The lines are replaced, once their texts were read.
  replaced :
      (lj : List ℕ) (ed₁ : Buffer) (c₂ : Core) (put : Calls)
      → Succeeds put
      → lj ≡ text
      → ed₁.heap ≡ c.buffer.heap
      → ed₁.state ≡ c.buffer.state
      → Reads (with_buffer c ed₁) c₂
      → Tracked old ed₁ (joined xs d ds ys)
      → HasRoom c p text
      → Ensures
          (if put.join_memory
            then replace_lines true put true p (suc (length xs)) (length xs + suc (length ds)) lj c₂
            else err memory_exhausted c₂)
          (λ _ c'. Replaced old c c' xs p ys text)
  replaced lj ed₁ c₂ put sp e h st v t room =
      let heap : c₂.buffer.heap ≡ c.buffer.heap = ap (λ (b : Buffer). b.heap) v.buffer ∙ h in
      let lines : c₂.buffer.state.lines ≡ c.buffer.state.lines =
        ap (λ (b : Buffer). b.state.lines) v.buffer ∙ ap (λ (s : EdState). s.lines) st in
      let room₂ : HasRoom c₂ p text = record {
        fresh = ap (λ (h : Heap). has p h.live) heap ∙ room.fresh;
        not_null = room.not_null;
        lines = omega (arith, lines, room.lines);
        file = omega (arith, ap (λ (f : List ℕ). length f) v.file, room.file);
      } in
      Ensures-if put.join_memory (λ _ c'. Replaced old c c' xs p ys text) _ _ sp.join_memory
        (rw e (
          Ensures-mono (λ _ c'. Replaced old c₂ c' xs p ys text)
            (λ _ c'. Replaced old c c' xs p ys text) _
            (replace_lines-Replaced old xs d ds ys p text put c₂ sp v.store
              (subst (λ b. Tracked old b (joined xs d ds ys)) (sym v.buffer) t) room₂)
            λ _ c' r. Replaced-Reads c₂ c' heap v.file r))

  -- `join_lines` of the lines `d ∷ ds` replaces them by one line with their texts, one behind
  -- another, and the new line becomes the current one. Every text that was in the file stays as it
  -- is, and the undo queue records every change since `old` before and then. The calls of the C
  -- library succeed, the texts of the lines are in the file, and there is room for the new one at
  -- an address that is not in use.
  pub join_lines-Replaced :
      (reads : ℕ → Calls) (put : Calls)
      → AllSucceed reads
      → Succeeds put
      → IsStore c
      → Tracked old c.buffer (joined xs d ds ys)
      → Readable c (d ∷ ds)
      → HasRoom c p (joined_text c (d ∷ ds))
      → Ensures
          (join_lines reads true put true p (suc (length xs)) (length xs + suc (length ds)) c)
          (λ _ c'. Replaced old c c' xs p ys (joined_text c (d ∷ ds)))
  unfolding join_lines text
  join_lines-Replaced reads put s sp st tr r room =
      let from = suc (length xs) in
      let lines = joined xs d ds ys in
      let l : from ≤ length lines = omega (arith, length-joined xs d ds ys) in
      let ed₁ = moved_to c.buffer lines tr.buffer from in
      let c₁ = with_buffer c ed₁ in
      let n : length xs + suc (length ds) + 1 - suc (length xs) ≡ suc (length ds) = omega arith in
      let tr₁ = Tracked-moved_to old c.buffer lines tr from l in
      let k : List ℕ → Core → Status (Unit {0}) = λ lj c₂.
        if put.join_memory
        then replace_lines true put true p from (length xs + suc (length ds)) lj c₂
        else err memory_exhausted c₂ in
      let m = length xs + suc (length ds) + 1 - from in
      let steps : join_lines reads true put true p from (length xs + suc (length ds)) c
          ≡ (join_loop reads (suc (length ds)) d [] c₁ >>= k) =
        ap (λ (ed : Buffer). join_loop reads m (located ed) [] (with_buffer c ed) >>= k)
          (locate_lem c.buffer lines tr.buffer from l)
        ∙ ap (λ (z : Ptr). join_loop reads m z [] c₁ >>= k)
            (node_from c.buffer.line_head xs d ds ys)
        ∙ ap (λ m. join_loop reads m d [] c₁ >>= k) n in
      subst (λ r. Ensures r (λ _ c'. Replaced old c c' xs p ys (joined_text c (d ∷ ds))))
        (sym steps)
        (Ensures-bind (λ lj c₂. (lj ≡ joined_text c (d ∷ ds)) × Reads c₁ c₂)
          (λ _ c'. Replaced old c c' xs p ys (joined_text c (d ∷ ds)))
          (join_loop reads (suc (length ds)) d [] c₁) k
          (join_loop-joined_text reads d ds [] c₁ s st.offset
            (cut_three xs d ds ys tr.buffer.ring).middle r)
          λ lj c₂ (e, v). replaced lj ed₁ c₂ put sp e refl refl v tr₁ room)
