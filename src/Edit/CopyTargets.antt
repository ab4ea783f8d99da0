-- ===== src/Edit/CopyTargets.antt =====
-- `copy_lines` (src/cmds.c) by where its target is.
use ed.Common.{
  ℕ, suc, ◌+◌, ◌-◌, ◌≤◌, ◌<◌, ◌≡◌, refl, true, false, List, [], ◌∷◌, ◌++◌, append_assoc, append-nil,
  arith, sym, ap, subst, ◌∙◌, length, length-append, leb, ltb, ◌&&◌, if◌then◌else◌,
}
use ed.Line.{Ptr}
use ed.Edit.{Buffer, Outcome, ok, ◌>>=◌, locate, located}
use ed.Edit.Lines.{Copying, copy_loop, copy_lines}
use ed.Edit.Append.{off_t_max}
use ed.Edit.Valid.{Ensures, Ensures-bind}
use ed.Edit.Tracked.{Tracked, AllLive-split}
use ed.Edit.Recording.{Recording-Tracked}
use ed.Edit.Copied.{Copies, sources, copies, AllFresh, Within, before, behind}
use ed.Edit.Copies.{with_copies}
use ed.Edit.CopyLoop.{Looped}
use ed.Edit.CopyLines.{Copied, copy_loop-from, Copied-LoopCopied, length-copies}

-- The two rounds, of `n₁` and `n₂` lines.
abbrev two_loops : ℕ → ℕ → ℕ → ℕ → List Ptr → Buffer → Outcome (Unit {0})
two_loops n₁ n₂ from after fresh ed =
    let ed₁ = locate from ed in
    copy_loop true n₁ (located ed₁) (record { after = after; up = false; fresh = fresh }) ed₁
    >>= λ c ed₂.
        let ed₃ = locate (c.after + 1) ed₂ in copy_loop true n₂ (located ed₃) c ed₃ >>= λ _. ok tt

copy_lines-two_loops :
    (fresh : List Ptr) (from to after n₁ n₂ : ℕ) (ed : Buffer)
    → (let split = leb from after && ltb after to in
        ((if split then after else to) + 1 - from ≡ n₁) × ((if split then to - after else 0) ≡ n₂))
    → copy_lines true fresh from to after ed ≡ two_loops n₁ n₂ from after fresh ed
unfolding copy_lines
copy_lines-two_loops fresh from to after n₁ n₂ ed (e, f) =
    let split = leb from after && ltb after to in
    ap (λ n. two_loops n (if split then to - after else 0) from after fresh ed) e
    ∙ ap (λ n. two_loops n₁ n from after fresh ed) f

module _ (old ed : Buffer) (xs bs spare : List Ptr) (d p : Ptr) (ls ms : Copies) where
  abbrev all : Copies
  all = (d, p) ∷ ls

  two_loops-Copied :
      (zs us : List Ptr)
      → Tracked old ed (xs ++ (sources ms ++ bs))
      → Within xs (sources ms ++ bs) (sources all)
      → xs ++ (sources ms ++ bs) ≡ zs ++ (sources all ++ us)
      → AllFresh ed.heap.live all
      → AllFresh (with_copies all ed.heap.live) ms
      → ed.state.lines + length all + length ms ≤ off_t_max
      → Ensures
          (two_loops
            (length all)
            (length ms)
            (suc (length zs))
            (length xs)
            (copies all ++ (copies ms ++ spare))
            ed)
          (λ _ ed'. Copied old ed ed' xs all ms (sources ms ++ bs))
  two_loops-Copied zs us t w e f g few =
      let ys = sources ms ++ bs in
      let fr = xs ++ copies all in
      let (lx, ly) = AllLive-split ed.heap.live xs ys t.live.1 in
      let lm = (AllLive-split ed.heap.live (sources ms) bs ly).0 in
      let n : length fr + 1 ≡ suc (length fr) = omega arith in
      Ensures-bind (Looped old ys (copies ms ++ spare) ed false xs all)
        (λ _ ed'. Copied old ed ed' xs all ms ys) _ _
        (copy_loop-from old ys (copies ms ++ spare) zs us all ed false xs t (λ e. cc) w e f
          (omega arith))
        λ c ed₁ (same, v).
          let t₁ = Recording-Tracked old ed₁ true fr ys v.recording in
          let room : ed₁.state.lines + length ms ≤ off_t_max = omega (
            arith,
            t.buffer.lines,
            t₁.buffer.lines,
            length-append xs ys,
            length-append fr ys,
            length-append xs (copies all),
            length-copies ls,
            few,
          ) in
          subst
            (λ (c : Copying).
              Ensures
                (copy_loop true (length ms) (located (locate (c.after + 1) ed₁)) c
                    (locate (c.after + 1) ed₁)
                  >>= λ _. ok tt)
                (λ _ ed'. Copied old ed ed' xs all ms ys))
            (sym same)
            (Ensures-bind (Looped old ys spare ed₁ true fr ms)
              (λ _ ed'. Copied old ed ed' xs all ms ys) _ _
              (subst
                (λ n.
                  Ensures
                    (copy_loop true (length ms) (located (locate n ed₁))
                      (record { after = length fr; up = true; fresh = copies ms ++ spare })
                      (locate n ed₁))
                    (Looped old ys spare ed₁ true fr ms))
                (sym n)
                (copy_loop-from old ys spare fr bs ms ed₁ true fr v.recording v.dot
                  (behind [] bs refl) refl (subst (λ live. AllFresh live ms) (sym v.live) g) room))
              λ c' ed' (e, z). Copied-LoopCopied old ed xs bs d p ls ms ed₁ ed' lm f g v z)

-- The range from the address `from` to `to` has the lines of `ls` and `ms`, the target stands
-- behind the lines `xs`. It is behind the range, before it, or in it, where the lines of `ms` are
-- those behind the target.
pub data Range (xs ys : List Ptr) (ls ms : Copies) (from to : ℕ) : Type 0 where
  above :
      (us mid : List Ptr)
      → xs ≡ us ++ (sources ls ++ mid)
      → ms ≡ []
      → from ≡ suc (length us)
      → to ≡ length us + length ls
      → Range xs ys ls ms from to
  below :
      (mid bs : List Ptr)
      → ys ≡ mid ++ (sources ls ++ bs)
      → ms ≡ []
      → from ≡ suc (length xs + length mid)
      → to ≡ length xs + length mid + length ls
      → Range xs ys ls ms from to
  around :
      (us bs : List Ptr)
      → xs ≡ us ++ sources ls
      → ys ≡ sources ms ++ bs
      → 0 < length ms
      → from ≡ suc (length us)
      → to ≡ length us + length ls + length ms
      → Range xs ys ls ms from to

length-sources : (ls : Copies) → length (sources ls) ≡ length ls
length-sources [] = refl
length-sources ((d, p) ∷ ls) = omega (arith, length-sources ls)

module _ (old ed : Buffer) (xs ys spare : List Ptr) (d p : Ptr) (ls ms : Copies) (from to : ℕ) where
  Counts : Type 0
  Counts =
      let split = leb from (length xs) && ltb (length xs) to in
      ((if split then length xs else to) + 1 - from ≡ suc (length ls))
      × ((if split then to - length xs else 0) ≡ length ms)

  copy_lines-at :
      (zs us bs : List Ptr)
      → ys ≡ sources ms ++ bs
      → from ≡ suc (length zs)
      → Counts
      → Within xs ys (d ∷ sources ls)
      → xs ++ ys ≡ zs ++ (d ∷ sources ls ++ us)
      → Tracked old ed (xs ++ ys)
      → AllFresh ed.heap.live ((d, p) ∷ ls)
      → AllFresh (with_copies ((d, p) ∷ ls) ed.heap.live) ms
      → ed.state.lines + length ((d, p) ∷ ls) + length ms ≤ off_t_max
      → Ensures
          (copy_lines true (copies ((d, p) ∷ ls) ++ (copies ms ++ spare)) from to (length xs) ed)
          (λ _ ed'. Copied old ed ed' xs ((d, p) ∷ ls) ms ys)
  unfolding Counts
  copy_lines-at zs us bs y f c w e t a b few =
      let fresh = copies ((d, p) ∷ ls) ++ (copies ms ++ spare) in
      subst (λ r. Ensures r (λ _ ed'. Copied old ed ed' xs ((d, p) ∷ ls) ms ys))
        (sym (
          copy_lines-two_loops fresh from to (length xs) (suc (length ls)) (length ms) ed c
          ∙ ap (λ n. two_loops (suc (length ls)) (length ms) n (length xs) fresh ed) f))
        (subst
          (λ ys.
            Ensures (two_loops (suc (length ls)) (length ms) (suc (length zs)) (length xs) fresh ed)
              (λ _ ed'. Copied old ed ed' xs ((d, p) ∷ ls) ms ys))
          (sym y)
          (two_loops-Copied old ed xs bs spare d p ls ms zs us
            (subst (λ ys. Tracked old ed (xs ++ ys)) y t)
            (subst (λ ys. Within xs ys (d ∷ sources ls)) y w)
            (ap (λ (ys : List Ptr). xs ++ ys) (sym y) ∙ e) a b few))

  -- `copy_lines` of a range that is not empty adds a copy of each of its lines, in their order,
  -- behind the target, which may be anywhere, also in the range. Each copy has the length and the
  -- offset of its line, and those of the other nodes do not change; the last copy becomes the
  -- current line. The undo queue records every change since `old` before and then. There is memory
  -- at addresses that are not in use, and there is room for the lines.
  pub copy_lines-Copied :
      Range xs ys ((d, p) ∷ ls) ms from to
      → Tracked old ed (xs ++ ys)
      → AllFresh ed.heap.live ((d, p) ∷ ls)
      → AllFresh (with_copies ((d, p) ∷ ls) ed.heap.live) ms
      → ed.state.lines + length ((d, p) ∷ ls) + length ms ≤ off_t_max
      → Ensures
          (copy_lines true (copies ((d, p) ∷ ls) ++ (copies ms ++ spare)) from to (length xs) ed)
          (λ _ ed'. Copied old ed ed' xs ((d, p) ∷ ls) ms ys)
  unfolding Counts
  copy_lines-Copied (above us mid x m f g) t a b few =
      let ds = d ∷ sources ls in
      let l : length xs ≡ length us + (suc (length ls) + length mid) = omega (
        arith,
        ap (λ (xs : List Ptr). length xs) x,
        length-append us (ds ++ mid),
        length-append ds mid,
        length-sources ls,
      ) in
      let n : length ms ≡ 0 = ap (λ (ms : Copies). length ms) m in
      copy_lines-at us (mid ++ ys) ys (ap (λ ms. sources ms ++ ys) (sym m)) f
        (ground (arith, f, g, l), ground (arith, f, g, l, n)) (before us mid x)
        (ap (λ (xs : List Ptr). xs ++ ys) x
          ∙ append_assoc us (ds ++ mid) ys
          ∙ ap (λ (zs : List Ptr). us ++ zs) (append_assoc ds mid ys))
        t a b few
  copy_lines-Copied (below mid bs y m f g) t a b few =
      let n : length ms ≡ 0 = ap (λ (ms : Copies). length ms) m in
      copy_lines-at (xs ++ mid) bs ys (ap (λ ms. sources ms ++ ys) (sym m))
        (f ∙ ap suc (sym (length-append xs mid))) (ground (arith, f, g), ground (arith, f, g, n))
        (behind mid bs y)
        (ap (λ (ys : List Ptr). xs ++ ys) y ∙ sym (append_assoc xs mid (d ∷ sources ls ++ bs))) t a
        b few
  copy_lines-Copied (around us bs x y h f g) t a b few =
      let ds = d ∷ sources ls in
      let l : length xs ≡ length us + suc (length ls) =
        omega
          (arith, ap (λ (xs : List Ptr). length xs) x, length-append us ds, length-sources ls) in
      copy_lines-at us ys bs y f (ground (arith, f, g, l, h), ground (arith, f, g, l, h))
        (before us [] (x ∙ ap (λ (zs : List Ptr). us ++ zs) (sym (append-nil ds))))
        (ap (λ (xs : List Ptr). xs ++ ys) x ∙ append_assoc us ds ys) t a b few
