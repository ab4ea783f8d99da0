-- ===== src/Edit/Moves.antt =====
-- A range of lines moved towards the beginning and towards the end (src/cmds.c, `move_lines`).
use ed.Common.{
  ℕ, suc, ◌+◌, ◌≡◌, refl, true, List, ◌∷◌, ◌++◌, arith, sym, ap, subst, ◌∙◌, append_assoc, length,
  length-append, inl, inr,
}
use ed.Line.{Ptr, Heap, link_nodes, Distinct}
use ed.Line.Chain.{last}
use ed.Line.Apart.{first}
use ed.Line.Ring.{all_distinct, Distinct-without}
use ed.Line.Cut.{ends}
use ed.Line.Move.{target, recut}
use ed.Line.Locate.Walk.{node_at-length, node_at-suc-length, last-append_cons}
use ed.Edit.{Buffer}
use ed.Edit.Global.{inc_mod}
use ed.Edit.Lines.{move_lines}
use ed.Edit.Valid.{IsBuffer, Ensures, Ensures-mono, joined, length-joined, node_to, node_behind}
use ed.Edit.History.{moved, Moves}
use ed.Edit.Tracked.{
  Tracked, AllLive, AllLive-split, AllLive-append, Live-last, Live-first, reverse-snoc,
  Deletes-joined,
}
use ed.Edit.Moved.{Place, Moved, move_lines-Moved}

-- A move is recorded.
module _ (old ed : Buffer) (xs : List Ptr) (d : Ptr) (ds ys us vs : List Ptr) (after : ℕ) where
  Tracked-Moved :
      (ed' : Buffer)
      → Tracked old ed (joined xs d ds ys)
      → Place ed xs d ds ys us vs after
      → Moved ed xs d ds ys us vs after ed'
      → Tracked old ed' (joined us d ds vs)
  unfolding link_nodes
  Tracked-Moved ed' t p m =
      let l = ed.heap.live in
      let (lx, ldy) = AllLive-split l xs (d ∷ ds ++ ys) t.live.1 in
      let (ld, ly) = AllLive-split l (d ∷ ds) ys ldy in
      let whole : AllLive l (us ++ vs) =
        subst (λ zs. AllLive l zs) p.split (AllLive-append l xs ys lx ly) in
      let (lu, lv) = AllLive-split l us vs whole in
      let live : AllLive l (ed.line_head ∷ joined us d ds vs) =
        (t.live.0, AllLive-append l us (d ∷ ds ++ vs) lu (AllLive-append l (d ∷ ds) vs ld lv)) in
      let a = all_distinct ed.line_head xs d ds ys t.buffer.ring.distinct in
      let moves : Moves ed.heap (last ed.line_head xs) d (last d ds) (first ys ed.line_head)
          (last ed.line_head us) (first vs ed.line_head) =
        record {
          deletes = Deletes-joined ed xs d ds ys t.buffer t.live;
          target = target xs d ds ys us vs p.split ed.heap t.buffer.ring p.apart;
          elsewhere = λ e. p.apart (sym e);
          outside = λ e. (ends us d ds vs (recut xs d ds ys us vs p.split a)).t_ne_last (sym e);
          live_b = Live-last l ed.line_head us (t.live.0, lu);
          live_a = Live-first l ed.line_head vs t.live.0 lv;
        } in
      record {
        buffer = m.buffer;
        live =
            subst (λ (q : Ptr). AllLive ed'.heap.live (q ∷ joined us d ds vs)) (sym m.head)
              (subst (λ zs. AllLive zs (ed.line_head ∷ joined us d ds vs))
                (sym (ap (λ (h : Heap). h.live) m.heap)) live);
        history =
            rw (m.heap, m.undo, reverse-snoc (ed.undo ++ _), reverse-snoc ed.undo)
              (moved (last ed.line_head xs) d (last d ds) (first ys ed.line_head)
                (last ed.line_head us) (first vs ed.line_head) t.history moves);
        saved = m.saved ∙ t.saved;
        head = m.head ∙ t.head;
      }

  move_lines-Tracked :
      Tracked old ed (joined xs d ds ys)
      → Place ed xs d ds ys us vs after
      → Ensures
          (move_lines true true (suc (length xs)) (length xs + suc (length ds)) after ed)
          (λ _ ed'.
            Tracked old ed' (joined us d ds vs) × (ed'.state.dot ≡ length us + suc (length ds)))
  move_lines-Tracked t p =
      Ensures-mono (λ _ ed'. Moved ed xs d ds ys us vs after ed')
        (λ _ ed'.
          Tracked old ed' (joined us d ds vs) × (ed'.state.dot ≡ length us + suc (length ds)))
        _ (move_lines-Moved ed xs d ds ys us vs after t.buffer p)
        λ _ ed' m. (Tracked-Moved ed' t p m, m.dot)

module _ (ed : Buffer) (us : List Ptr) (c : Ptr) (cs : List Ptr) (d : Ptr) (ds ys : List Ptr) where
  Place-up :
      IsBuffer ed (joined (us ++ c ∷ cs) d ds ys)
      → Place ed (us ++ c ∷ cs) d ds ys us (c ∷ cs ++ ys) (length us)
  Place-up v =
      let head = ed.line_head in
      let whole : joined (us ++ c ∷ cs) d ds ys ≡ joined us c cs (d ∷ ds ++ ys) =
        append_assoc us (c ∷ cs) (d ∷ ds ++ ys) in
      let dis : Distinct (head ∷ joined us c cs (d ∷ ds ++ ys)) =
        subst (λ zs. Distinct (head ∷ zs)) whole v.ring.distinct in
      let n = length-joined (us ++ c ∷ cs) d ds ys in
      let m = length-append us (c ∷ cs) in
      let next : inc_mod (length us) (length (joined (us ++ c ∷ cs) d ds ys)) ≡ suc (length us) =
        ground (arith, n, m) in
      record {
        split = append_assoc us (c ∷ cs) ys;
        apart =
            rw (last-append_cons head us c cs)
              (ends us c cs (d ∷ ds ++ ys)
                (all_distinct head us c cs (d ∷ ds ++ ys) dis)).t_ne_last;
        before = rw whole (node_at-length head us (c ∷ cs ++ (d ∷ ds ++ ys)));
        behind = rw (next, whole) (node_at-suc-length head us c (cs ++ (d ∷ ds ++ ys)));
        bound = omega (arith, n, m);
        not_before = λ e. omega (arith, m);
        not_to = λ e. omega (arith, m);
        outside = inl (omega (arith, m), omega arith);
      }

module _ (ed : Buffer) (xs : List Ptr) (d : Ptr) (ds : List Ptr) (c : Ptr) (cs vs : List Ptr) where
  Place-down :
      IsBuffer ed (joined xs d ds (c ∷ cs ++ vs))
      → Place ed xs d ds
          (c ∷ cs ++ vs)
          (xs ++ c ∷ cs)
          vs
          (length xs + suc (length ds) + suc (length cs))
  Place-down v =
      let head = ed.line_head in
      let whole : joined (xs ++ d ∷ ds) c cs vs ≡ joined xs d ds (c ∷ cs ++ vs) =
        append_assoc xs (d ∷ ds) (c ∷ cs ++ vs) in
      let dis : Distinct (head ∷ joined xs c cs vs) =
        Distinct-without (all_distinct head xs d ds (c ∷ cs ++ vs) v.ring.distinct) in
      let n = length-joined xs d ds (c ∷ cs ++ vs) in
      let k = length-append (c ∷ cs) vs in
      let m : length (xs ++ d ∷ ds) ≡ length xs + suc (length ds) = length-append xs (d ∷ ds) in
      record {
        split = sym (append_assoc xs (c ∷ cs) vs);
        apart =
            rw (last-append_cons head xs c cs)
              (λ e. (ends xs c cs vs (all_distinct head xs c cs vs dis)).t_ne_last (sym e));
        before =
            rw (last-append_cons head xs c cs, ← whole, ← m) (node_to head (xs ++ d ∷ ds) c cs vs);
        behind = rw (← whole, ← m) (node_behind head (xs ++ d ∷ ds) c cs vs);
        bound = omega (arith, n, k);
        not_before = λ e. omega arith;
        not_to = λ e. omega arith;
        outside = inr (c ∷ cs, omega arith, omega (arith, length-append xs (c ∷ cs)), refl);
      }

module _ (old ed : Buffer) where
  -- Given memory, the lines `d ∷ ds` move up behind the lines `us`, over the lines `c ∷ cs`: the
  -- buffer stays valid, the move is recorded for undo, and the last line moved is the current one.
  pub move_lines-up :
      (us : List Ptr) (c : Ptr) (cs : List Ptr) (d : Ptr) (ds ys : List Ptr)
      → Tracked old ed (joined (us ++ c ∷ cs) d ds ys)
      → Ensures
          (move_lines true true
            (suc (length (us ++ c ∷ cs)))
            (length (us ++ c ∷ cs) + suc (length ds))
            (length us)
            ed)
          (λ _ ed'.
            Tracked old ed' (joined us d ds (c ∷ cs ++ ys))
            × (ed'.state.dot ≡ length us + suc (length ds)))
  move_lines-up us c cs d ds ys t =
      move_lines-Tracked old ed (us ++ c ∷ cs) d ds ys us (c ∷ cs ++ ys) (length us) t
        (Place-up ed us c cs d ds ys t.buffer)

  -- Given memory, the lines `d ∷ ds` move down over the lines `c ∷ cs` to before the lines `vs`.
  pub move_lines-down :
      (xs : List Ptr) (d : Ptr) (ds : List Ptr) (c : Ptr) (cs vs : List Ptr)
      → Tracked old ed (joined xs d ds (c ∷ cs ++ vs))
      → Ensures
          (move_lines true true
            (suc (length xs))
            (length xs + suc (length ds))
            (length xs + suc (length ds) + suc (length cs))
            ed)
          (λ _ ed'.
            Tracked old ed' (joined (xs ++ c ∷ cs) d ds vs)
            × (ed'.state.dot ≡ length (xs ++ c ∷ cs) + suc (length ds)))
  move_lines-down xs d ds c cs vs t =
      move_lines-Tracked old ed xs d ds (c ∷ cs ++ vs) (xs ++ c ∷ cs) vs
        (length xs + suc (length ds) + suc (length cs)) t (Place-down ed xs d ds c cs vs t.buffer)
