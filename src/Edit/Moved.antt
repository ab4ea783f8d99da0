-- ===== src/Edit/Moved.antt =====
-- `move_lines` (src/cmds.c): the lines move, the buffer stays valid, and the undo queue records it.
use ed.Common.{
  ℕ, suc, ◌+◌, ◌-◌, ◌≤◌, ◌<◌, ◌≡◌, ◌≢◌, refl, true, false, List, [], ◌∷◌, ◌++◌, arith, sym, ap,
  subst, ◌∙◌, append_assoc, length, length-append, ltb, ◌⊎◌, inl, inr, lt→ltb, ◌==◌, if◌then◌else◌,
  ◌||◌,
}
use ed.Line.{Ptr, null, Heap, has, link_nodes}
use ed.Line.Chain.{Joint, last}
use ed.Line.Apart.{first, has-append}
use ed.Line.Ring.{IsRing, all_distinct, cut_three}
use ed.Line.Cut.{ends}
use ed.Line.Move.{move-IsRing, target}
use ed.Line.Locate.{Cache, at_line}
use ed.Line.Locate.Walk.{node_at, IsCached, cached-at_line}
use ed.Edit.{Buffer, UndoNode, umov, ok, locate}
use ed.Edit.Global.{inc_mod}
use ed.Edit.Undo.{undo_node, append_undo_node}
use ed.Edit.Lines.{move_nodes, move_ends, move_between, move_range, move_lines, modified}
use ed.Edit.Valid.{IsBuffer, Ensures, locate_lem, joined, length-joined, node_before, node_behind}
use ed.Edit.Delete.{append_undo_node_lem, IsCached-last}

-- The values that the three LINK_NODES read.
move_nodes_lem :
    (h : Heap) (b1 d t a1 b2 a2 : Ptr)
    → Joint h b1 d
    → Joint h t a1
    → Joint h b2 a2
    → a1 ≢ d
    → move_nodes b1 a1 b2 h ≡ link_nodes b1 a1 (link_nodes t a2 (link_nodes b2 d h))
unfolding move_nodes
move_nodes_lem h b1 d t a1 b2 a2 i j k n =
    let stays : (link_nodes b2 d h).back a1 ≡ t = unfold link_nodes in (ground (arith, j, n)) in
    rw (i.0, k.0, stays) refl

module _ (ed : Buffer) (xs : List Ptr) (d : Ptr) (ds ys us vs : List Ptr) (after : ℕ) where
  abbrev pub lines : List Ptr
  lines = joined xs d ds ys

  abbrev pub to : ℕ
  to = length xs + suc (length ds)

  -- The place between `us` and `vs`, behind line `after`.
  pub record Place : Type 0 where
    pub split : xs ++ ys ≡ us ++ vs
    pub apart : last ed.line_head us ≢ last ed.line_head xs
    pub before : node_at ed.line_head lines after ≡ last ed.line_head us
    pub behind : node_at ed.line_head lines (inc_mod after (length lines)) ≡ first vs ed.line_head
    pub bound : after ≤ length lines
    pub not_before : after ≢ length xs
    pub not_to : after ≢ to
    pub outside :
        ((after < suc (length xs)) × (after ≡ length us))
        ⊎ ((bs : List Ptr) × (to < after) × (after ≡ length us + suc (length ds)) × (us ≡ xs ++ bs))

  -- `ed'` is `ed` with the range at that place.
  pub record Moved (ed' : Buffer) : Type 0 where
    pub buffer : IsBuffer ed' (joined us d ds vs)
    pub heap :
        ed'.heap
        ≡ link_nodes (last ed.line_head xs) (first ys ed.line_head) (
            link_nodes
              (last d ds)
              (first vs ed.line_head)
              (link_nodes (last ed.line_head us) d ed.heap))
    pub undo :
        ed'.undo
        ≡ (ed.undo ++ undo_node umov (last ed.line_head xs) (first ys ed.line_head) ∷ [])
          ++ undo_node umov (last ed.line_head us) (first vs ed.line_head) ∷ []
    pub dot : ed'.state.dot ≡ length us + suc (length ds)
    pub modified : ed'.state.is_modified ≡ true
    pub saved : ed'.saved ≡ ed.saved
    pub head : ed'.line_head ≡ ed.line_head

  module _ (v : IsBuffer ed lines) (p : Place) where
    links :
        move_nodes (last ed.line_head xs) (first ys ed.line_head) (last ed.line_head us) ed.heap
        ≡ link_nodes (last ed.line_head xs) (first ys ed.line_head) (
            link_nodes
              (last d ds)
              (first vs ed.line_head)
              (link_nodes (last ed.line_head us) d ed.heap))
    links =
        let s = cut_three xs d ds ys v.ring in
        move_nodes_lem ed.heap (last ed.line_head xs) d (last d ds) (first ys ed.line_head)
          (last ed.line_head us) (first vs ed.line_head) s.enter s.leave
          (target xs d ds ys us vs p.split ed.heap v.ring p.apart)
          (ends xs d ds ys (all_distinct ed.line_head xs d ds ys v.ring.distinct)).d_ne_first

    not_null : has null (ed.line_head ∷ joined us d ds vs) ≡ false
    not_null =
        let e : has null (xs ++ ys) ≡ has null (us ++ vs) = ap (has null) p.split in
        ground (
          arith,
          v.not_null,
          e,
          has-append null xs ys,
          has-append null us vs,
          has-append null xs (d ∷ ds ++ ys),
          has-append null us (d ∷ ds ++ vs),
          has-append null ds ys,
          has-append null ds vs,
        )

    same_length : length lines ≡ length (joined us d ds vs)
    same_length = omega (
      arith,
      length-joined xs d ds ys,
      length-joined us d ds vs,
      length-append xs ys,
      length-append us vs,
      ap (λ (zs : List Ptr). length zs) p.split,
    )

    -- The line that `get_line_node` returned last stays where it is.
    cached_up :
        IsCached ed.line_head (joined us d ds vs) (at_line (last ed.line_head us) (length us))
    cached_up = IsCached-last us (d ∷ ds ++ vs) not_null refl

    cached_down :
        (bs : List Ptr)
        → us ≡ xs ++ bs
        → IsCached ed.line_head (joined us d ds vs) (at_line (last ed.line_head xs) (length xs))
    cached_down bs e =
        let whole : joined us d ds vs ≡ xs ++ (bs ++ (d ∷ ds ++ vs)) =
          ap (λ (zs : List Ptr). zs ++ (d ∷ ds ++ vs)) e ∙ append_assoc xs bs (d ∷ ds ++ vs) in
        subst
          (λ (zs : List Ptr). IsCached ed.line_head zs (at_line (last ed.line_head xs) (length xs)))
          (sym whole)
          (IsCached-last xs (bs ++ (d ∷ ds ++ vs))
            (subst (λ (zs : List Ptr). has null (ed.line_head ∷ zs) ≡ false) whole not_null) refl)

    -- The queue after the two calls of `append_undo_node`.
    abbrev queue : List UndoNode
    queue =
        (ed.undo ++ undo_node umov (last ed.line_head xs) (first ys ed.line_head) ∷ [])
        ++ undo_node umov (last ed.line_head us) (first vs ed.line_head) ∷ []

    beyond : node_at ed.line_head lines (inc_mod to ed.state.lines) ≡ first ys ed.line_head
    beyond = rw v.lines (node_behind ed.line_head xs d ds ys)

    behind : node_at ed.line_head lines (inc_mod after ed.state.lines) ≡ first vs ed.line_head
    behind = rw v.lines p.behind

    succ_within : inc_mod to ed.state.lines ≤ length lines
    succ_within = ground (arith, v.lines, length-joined xs d ds ys)

    place_within : inc_mod after ed.state.lines ≤ length lines
    place_within = ground (arith, v.lines, p.bound)

    ring :
        IsRing
          (move_nodes (last ed.line_head xs) (first ys ed.line_head) (last ed.line_head us) ed.heap)
          ed.line_head
          (joined us d ds vs)
    ring = rw links (move-IsRing xs d ds ys us vs p.split ed.heap v.ring p.apart)

    -- The buffer once the nodes are in the queue, with the line `c` returned last.
    abbrev moving : Cache → Buffer
    moving c = record ed { cache = c; undo = queue }

    moving-IsBuffer : (c : Cache) → IsCached ed.line_head lines c → IsBuffer (moving c) lines
    moving-IsBuffer c k = record {
      ring = v.ring;
      lines = v.lines;
      dot = v.dot;
      cached = k;
      not_null = v.not_null;
    }

    locate-moving :
        (n : ℕ) (c : Cache)
        → n ≤ length lines
        → IsCached ed.line_head lines c
        → locate n (moving c) ≡ moving (at_line (node_at ed.line_head lines n) n)
    locate-moving n c l k = locate_lem (moving c) lines (moving-IsBuffer c k) n l

    at_line-IsCached :
        (n : ℕ)
        → n ≤ length lines
        → IsCached ed.line_head lines (at_line (node_at ed.line_head lines n) n)
    at_line-IsCached n l = record {
      node = cached-at_line ed.line_head lines n v.not_null l;
      line = l;
    }

    move_ends-up :
        (c : Cache)
        → IsCached ed.line_head lines c
        → after < suc (length xs)
        → move_ends (suc (length xs)) after (moving c) ≡ (
          last ed.line_head xs,
          last ed.line_head us,
          moving (at_line (last ed.line_head us) after),
        )
    unfolding move_ends
    move_ends-up c k l =
        let prec : suc (length xs) - 1 ≡ length xs = omega arith in
        let n : length xs ≤ length lines = omega (arith, length-joined xs d ds ys) in
        rw
          (
            lt→ltb after (suc (length xs)) l,
            prec,
            locate-moving (length xs) c n k,
            locate-moving after _ p.bound (at_line-IsCached (length xs) n),
            node_before ed.line_head xs d ds ys,
            p.before,
          )
          refl

    move_ends-down :
        (c : Cache)
        → IsCached ed.line_head lines c
        → to < after
        → move_ends (suc (length xs)) after (moving c) ≡ (
          last ed.line_head xs,
          last ed.line_head us,
          moving (at_line (last ed.line_head xs) (length xs)),
        )
    unfolding move_ends
    move_ends-down c k l =
        let prec : suc (length xs) - 1 ≡ length xs = omega arith in
        let n : length xs ≤ length lines = omega (arith, length-joined xs d ds ys) in
        let not_less : ltb after (suc (length xs)) ≡ false = ground arith in
        rw
          (
            not_less,
            prec,
            locate-moving after c p.bound k,
            locate-moving (length xs) _ n (at_line-IsCached after p.bound),
            node_before ed.line_head xs d ds ys,
            p.before,
          )
          refl

    -- `move_between`, where the line `n` was looked up last.
    move_between-Moved :
        (n : ℕ) (q : Ptr)
        → IsCached ed.line_head (joined us d ds vs) (at_line q n)
        → after + (if ltb after (suc (length xs)) then to - suc (length xs) + 1 else 0)
          ≡ length us + suc (length ds)
        → Moved (
            modified (
              move_between
                (suc (length xs))
                to
                after
                (first ys ed.line_head)
                (last ed.line_head xs, last ed.line_head us, moving (at_line q n))))
    unfolding move_between
    move_between-Moved n q k e = record {
      buffer = record {
        ring = ring;
        lines = v.lines ∙ same_length;
        dot = rw e (omega (arith, length-joined us d ds vs));
        cached = k;
        not_null = not_null;
      };
      heap = links;
      undo = refl;
      dot = e;
      modified = refl;
      saved = refl;
      head = refl;
    }

    move_range-Moved :
        (c : Cache)
        → IsCached ed.line_head lines c
        → Moved (modified (move_range (suc (length xs)) to after (moving c)))
    unfolding move_range
    move_range-Moved c k =
        let c₁ = at_line (first ys ed.line_head) (inc_mod to ed.state.lines) in
        let k₁ : IsCached ed.line_head lines c₁ =
          subst (λ (q : Ptr). IsCached ed.line_head lines (at_line q (inc_mod to ed.state.lines)))
            beyond (at_line-IsCached (inc_mod to ed.state.lines) succ_within) in
        elim p.outside [
          | inl (l, e) ↦
              rw
                (
                  locate-moving (inc_mod to ed.state.lines) c succ_within k,
                  beyond,
                  move_ends-up c₁ k₁ l,
                )
                (move_between-Moved after (last ed.line_head us) (rw e cached_up) (ground arith))
          | inr (bs, l, e, f) ↦
              rw
                (
                  locate-moving (inc_mod to ed.state.lines) c succ_within k,
                  beyond,
                  move_ends-down c₁ k₁ l,
                )
                (move_between-Moved (length xs) (last ed.line_head xs) (cached_down bs f)
                  (ground arith))
        ]

    -- After the first call of `append_undo_node`.
    abbrev halfway : Buffer
    halfway = record ed {
      cache = at_line (first ys ed.line_head) (inc_mod to ed.state.lines);
      undo = ed.undo ++ undo_node umov (last ed.line_head xs) (first ys ed.line_head) ∷ [];
    }

    halfway-IsBuffer : IsBuffer halfway lines
    halfway-IsBuffer = record {
      ring = v.ring;
      lines = v.lines;
      dot = v.dot;
      cached =
          subst (λ (q : Ptr). IsCached ed.line_head lines (at_line q (inc_mod to ed.state.lines)))
            beyond (at_line-IsCached (inc_mod to ed.state.lines) succ_within);
      not_null = v.not_null;
    }

    first_call :
        append_undo_node true umov (length xs) (inc_mod to ed.state.lines) ed ≡ ok tt halfway
    first_call =
        let n : length xs ≤ length lines = omega (arith, length-joined xs d ds ys) in
        append_undo_node_lem umov ed lines v (length xs) (inc_mod to ed.state.lines) n succ_within
        ∙ rw (node_before ed.line_head xs d ds ys, beyond) refl

    second_call :
        append_undo_node true umov after (inc_mod after ed.state.lines) halfway
        ≡ ok tt (moving (at_line (first vs ed.line_head) (inc_mod after ed.state.lines)))
    second_call =
        append_undo_node_lem umov halfway lines halfway-IsBuffer after
          (inc_mod after ed.state.lines) p.bound place_within
        ∙ rw (p.before, behind) refl

    -- The two nodes are appended, and the range moves.
    pub move_lines-Moved :
        Ensures (move_lines true true (suc (length xs)) to after ed) (λ _ ed'. Moved ed')
    unfolding move_lines
    move_lines-Moved =
        let prec : suc (length xs) - 1 ≡ length xs = omega arith in
        let here : ((after + 1 == suc (length xs)) || (after == to)) ≡ false =
          ground (arith, p.not_before, p.not_to) in
        rw (here, prec, first_call, second_call)
          (move_range-Moved (at_line (first vs ed.line_head) (inc_mod after ed.state.lines)) (
            subst
              (λ (q : Ptr). IsCached ed.line_head lines (at_line q (inc_mod after ed.state.lines)))
              behind (at_line-IsCached (inc_mod after ed.state.lines) place_within)))
