-- ===== src/Edit/Lines.antt =====
-- `move_lines`, `copy_lines` (src/cmds.c) and APPEND_UNDO_NODE (src/ed.h).
use ed.Common.{
  ℕ, zero, suc, ◌+◌, ◌-◌, Bool, true, false, ◌||◌, ◌&&◌, List, [], ◌∷◌, ltb, leb, ◌==◌,
  if◌then◌else◌,
}
use ed.Line.{Ptr, null, Heap, link_nodes}
use ed.Edit.{Buffer, Outcome, ok, ◌>>=◌, locate, located, UndoNode, uadd, umov}
use ed.Edit.Global.{inc_mod}
use ed.Edit.Undo.{append_undo_node}
use ed.Edit.Commands.{clear_if_global}
use ed.Edit.Append.{append_line_node}

-- The nodes `b1`, `a1` around the range, and `b2` before its new place.
unfoldable pub move_nodes : Ptr → Ptr → Ptr → Heap → Heap
move_nodes b1 a1 b2 h =
    let a2 = h.forw b2 in
    let h₁ = link_nodes b2 (h.forw b1) h in
    let h₂ = link_nodes (h₁.back a1) a2 h₁ in link_nodes b1 a1 h₂

-- The nodes `b1` and `b2`. The line that is looked up last stays where it is.
unfoldable pub move_ends : ℕ → ℕ → Buffer → Ptr × Ptr × Buffer
move_ends from after ed =
    if ltb after from
    then (let ed₂ = locate (from - 1) ed in
        let ed₃ = locate after ed₂ in (located ed₂, located ed₃, ed₃))
    else let ed₂ = locate after ed in
      let ed₃ = locate (from - 1) ed₂ in (located ed₃, located ed₂, ed₃)

-- The links, the current line, and the global buffer.
unfoldable pub move_between : ℕ → ℕ → ℕ → Ptr → Ptr × Ptr × Buffer → Buffer
move_between from to after a1 (b1, b2, ed) =
    clear_if_global ((move_nodes b1 a1 b2 ed.heap).forw b2) (ed.heap.forw b2) (record ed {
      heap = move_nodes b1 a1 b2 ed.heap;
      state = record (ed.state) { dot = after + (if ltb after from then to - from + 1 else 0) };
    })

-- The last branch of `move_lines`.
unfoldable pub move_range : ℕ → ℕ → ℕ → Buffer → Buffer
unfolding move_ends move_between
move_range from to after ed =
    let ed₁ = locate (inc_mod to ed.state.lines) ed in
    move_between from to after (located ed₁) (move_ends from after ed₁)

-- Where the range stands at its new place.
unfoldable pub move_nowhere : ℕ → ℕ → Buffer → Buffer
move_nowhere from to ed =
    let ed₁ = locate (inc_mod to ed.state.lines) ed in
    let ed₂ = locate (from - 1) ed₁ in
    let ed₃ = record ed₂ { state = record (ed₂.state) { dot = to } } in
    clear_if_global (ed₃.heap.forw (located ed₂)) (located ed₁) ed₃

abbrev pub modified : Buffer → Buffer
modified ed = record ed { state = record (ed.state) { is_modified = true } }

-- The range begins at line 1 or behind it. `m₁` and `m₂` say whether there is memory for the undo
-- nodes.
unfoldable pub move_lines : Bool → Bool → ℕ → ℕ → ℕ → Buffer → Outcome (Unit {0})
move_lines m₁ m₂ from to after ed =
    if (after + 1 == from) || (after == to)
    then ok tt (modified (move_nowhere from to ed))
    else append_undo_node m₁ umov (from - 1) (inc_mod to ed.state.lines) ed >>= λ _ ed₁.
        append_undo_node m₂ umov after (inc_mod after ed₁.state.lines) ed₁ >>= λ _ ed₂.
        ok tt (modified (move_range from to after ed₂))

-- `up->t = lp`, where `up` is the node appended last.
unfoldable pub with_tail : Ptr → List UndoNode → List UndoNode
with_tail lp [] = []
with_tail lp (up ∷ []) = record up { t = lp } ∷ []
with_tail lp (up ∷ next ∷ ups) = up ∷ with_tail lp (next ∷ ups)

-- `up` says whether the command has appended a node.
unfoldable pub append_undo_line : Bool → Bool → Ptr → ℕ → Buffer → Outcome (Unit {0})
unfolding with_tail
append_undo_line memory up lp addr ed =
    if up
    then ok tt (record ed { undo = with_tail lp ed.undo })
    else append_undo_node memory uadd addr addr ed

-- What `copy_lines` carries through its loops: `after`, whether there is an undo node, and the
-- addresses that malloc will return for line nodes; it returns none after these.
pub record Copying : Type 0 where
  pub after : ℕ
  pub up : Bool
  pub fresh : List Ptr

abbrev pub allocated : List Ptr → Ptr
allocated [] = null
allocated (p ∷ ps) = p

abbrev pub others : List Ptr → List Ptr
others [] = []
others (p ∷ ps) = ps

abbrev pub nonempty : List Ptr → Bool
nonempty [] = false
nonempty (p ∷ ps) = true

-- The inner loop, over `n` lines from `lp` on. `memory` is for the undo node.
unfoldable pub copy_loop : Bool → ℕ → Ptr → Copying → Buffer → Outcome Copying
copy_loop memory zero lp c ed = ok c ed
copy_loop memory (suc n) lp c ed =
    append_line_node (nonempty c.fresh) (allocated c.fresh) (ed.heap.len lp) (ed.heap.seek lp)
      c.after ed
    >>= λ np ed₁.
        append_undo_line memory c.up np (c.after + 1)
          (record ed₁ { state = record (ed₁.state) { dot = c.after + 1 } })
        >>= λ _ ed₂.
            copy_loop memory n (ed₂.heap.forw lp)
              (record { after = c.after + 1; up = true; fresh = others c.fresh }) (modified ed₂)

-- The two rounds of the outer loop, where the second copies the lines behind a target within the
-- range.
unfoldable pub copy_lines : Bool → List Ptr → ℕ → ℕ → ℕ → Buffer → Outcome (Unit {0})
unfolding copy_loop append_undo_line
copy_lines memory fresh from to after ed =
    let split = leb from after && ltb after to in
    let ed₁ = locate from ed in
    copy_loop memory ((if split then after else to) + 1 - from) (located ed₁)
      (record { after = after; up = false; fresh = fresh }) ed₁
    >>= λ c ed₂.
        let ed₃ = locate (c.after + 1) ed₂ in
        copy_loop memory (if split then to - after else 0) (located ed₃) c ed₃ >>= λ _. ok tt
