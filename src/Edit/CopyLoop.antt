-- ===== src/Edit/CopyLoop.antt =====
-- The inner loop of `copy_lines` (src/cmds.c).
use ed.Common.{
  ℕ, ◌+◌, ◌≤◌, ◌≡◌, refl, Bool, true, List, [], ◌∷◌, ◌++◌, append_assoc, append-nil, arith, sym, ap,
  subst, ◌∙◌, length, length-append,
}
use ed.Line.{Ptr}
use ed.Edit.{Buffer}
use ed.Edit.Lines.{Copying, copy_loop, append_undo_line, modified}
use ed.Edit.Append.{append_line_node, append_line_node-Appended, off_t_max, Appended}
use ed.Edit.Added.{Distinct-fresh, AllLive-more}
use ed.Edit.Valid.{Ensures, Ensures-mono, Ensures-bind}
use ed.Edit.Tracked.{AllLive}
use ed.Edit.Recording.{Recording, Recording-Tracked, Recording-state}
use ed.Edit.Copied.{
  Copies, sources, copies, AllFresh, Within, Within-grow, Within-tail, CopiedLine, copied_line,
}
use ed.Edit.Copies.{
  StartsAt, have_copied-true, have_copied, LoopCopied-CopiedLine, StartsAt-Within, LoopCopied,
  live-CopiedLine,
}

CopiedLine-modified :
    (old ed ed₁ : Buffer) (xs : List Ptr) (p : Ptr) (ys : List Ptr) (size offset : ℕ)
    → CopiedLine old ed ed₁ xs p ys size offset
    → CopiedLine old ed (modified ed₁) xs p ys size offset
CopiedLine-modified old ed ed₁ xs p ys size offset v = record {
  recording =
      Recording-state old ed₁ ((modified ed₁).state) true (xs ++ p ∷ []) ys refl
        (omega (arith, v.dot, length-append xs (p ∷ []))) v.recording;
  heap = v.heap;
  dot = v.dot;
}

module _ (old : Buffer) (ys spare : List Ptr) where
  abbrev pub Looped : Buffer → Bool → List Ptr → Copies → Copying → Buffer → Type 0
  Looped ed up xs ls c ed' =
      (c ≡ record { after = length (xs ++ copies ls); up = have_copied up ls; fresh = spare })
      × LoopCopied old ed ed' up xs ls ys

  -- The inner loop.
  pub copy_loop-LoopCopied :
      (ls : Copies) (lp : Ptr) (ed : Buffer) (up : Bool) (xs : List Ptr)
      → Recording old ed up xs ys
      → (up ≡ true → ed.state.dot ≡ length xs)
      → Within xs ys (sources ls)
      → StartsAt lp ls
      → AllLive ed.heap.live (sources ls)
      → AllFresh ed.heap.live ls
      → ed.state.lines + length ls ≤ off_t_max
      → Ensures
          (copy_loop true
            (length ls)
            lp
            (record { after = length xs; up = up; fresh = copies ls ++ spare })
            ed)
          (Looped ed up xs ls)
  unfolding copy_loop
  copy_loop-LoopCopied [] lp ed up xs r dot w s l f few =
      let e : xs ++ [] ≡ xs = append-nil xs in
      (
        ap (λ n. record { after = n; up = up; fresh = spare })
            (sym (ap (λ (zs : List Ptr). length zs) e)),
        record {
          recording = subst (λ zs. Recording old ed up zs ys) (sym e) r;
          alike = tt;
          kept = λ q n. (refl, refl);
          live = refl;
          dot = λ u. dot u ∙ sym (ap (λ (zs : List Ptr). length zs) e);
        },
      )
  copy_loop-LoopCopied ((d, p) ∷ ls) lp ed up xs r dot w s l f few =
      let t = Recording-Tracked old ed up xs ys r in
      let size = ed.heap.len d in
      let offset = ed.heap.seek d in
      let fresh = copies ls ++ spare in
      rw s (
        Ensures-bind (λ np ed₁. (np ≡ p) × Appended ed ed₁ xs p ys size offset)
          (Looped ed up xs ((d, p) ∷ ls)) (append_line_node true p size offset (length xs) ed) _
          (append_line_node-Appended ed xs p ys size offset t.buffer
            (Distinct-fresh old ed xs p ys t f.0) f.1 (omega arith))
          λ np ed₁ (e, v).
            Ensures-bind (λ _ ed₂. CopiedLine old ed ed₂ xs p ys size offset)
              (Looped ed up xs ((d, p) ∷ ls))
              (append_undo_line true up np (length xs + 1)
                (record ed₁ { state = record (ed₁.state) { dot = length xs + 1 } }))
              (λ _ ed₂.
                copy_loop true (length ls) (ed₂.heap.forw d)
                  (record { after = length xs + 1; up = true; fresh = fresh }) (modified ed₂))
              (copied_line old ed xs p ys size offset ed₁ up np r f.0 e v)
              λ _ ed₂ v₂.
                let ed₃ = modified ed₂ in
                let zs = xs ++ p ∷ [] in
                let v₃ = CopiedLine-modified old ed ed₂ xs p ys size offset v₂ in
                let t₃ = Recording-Tracked old ed₃ true zs ys v₃.recording in
                let live = live-CopiedLine old ed ed₃ xs d p ys v₃ in
                let n : length zs ≡ length xs + 1 = length-append xs (p ∷ []) in
                let front : zs ++ copies ls ≡ xs ++ p ∷ copies ls =
                  append_assoc xs (p ∷ []) (copies ls) in
                let start =
                  StartsAt-Within ed₃.heap ed₃.line_head zs ys d ls t₃.buffer.ring
                    (Within-grow xs ys (d ∷ sources ls) p w) in
                let room : ed₃.state.lines + length ls ≤ off_t_max = omega (
                  arith,
                  t.buffer.lines,
                  t₃.buffer.lines,
                  length-append xs ys,
                  length-append zs ys,
                  few,
                ) in
                Ensures-mono (Looped ed₃ true zs ls) (Looped ed up xs ((d, p) ∷ ls)) _
                  (subst
                    (λ n.
                      Ensures
                        (copy_loop true (length ls) (ed₃.heap.forw d)
                          (record { after = n; up = true; fresh = fresh }) ed₃)
                        (Looped ed₃ true zs ls))
                    n
                    (copy_loop-LoopCopied ls (ed₃.heap.forw d) ed₃ true zs v₃.recording
                      (λ e. v₃.dot ∙ sym n)
                      (Within-grow xs ys (sources ls) p (Within-tail xs ys d (sources ls) w)) start
                      (subst (λ live. AllLive live (sources ls)) (sym live)
                        (AllLive-more ed.heap.live p (sources ls) l.1))
                      (subst (λ live. AllFresh live ls) (sym live) f.2) room))
                  λ c ed' (e, z). (
                    e
                        ∙ ap
                            (λ (ps : List Ptr). record {
                              after = length ps;
                              up = have_copied true ls;
                              fresh = spare;
                            })
                            front
                        ∙ ap
                            (λ up. record {
                              after = length (xs ++ p ∷ copies ls);
                              up = up;
                              fresh = spare;
                            })
                            (have_copied-true ls),
                    LoopCopied-CopiedLine old ed ed₃ xs d p ys ed' up ls l.1 f.0 f.2 v₃ z,
                  ))
