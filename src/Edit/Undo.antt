-- ===== src/Edit/Undo.antt =====
-- The undo queue (src/undo.c).
use ed.Common.{ℕ, Bool, List, [], ◌∷◌, ◌++◌, if◌then◌else◌}
use ed.Line.{Ptr, null, Heap, link_nodes}
use ed.Edit.{
  Buffer, UndoNode, UndoOp, uadd, udel, umov, uret, EdError, Outcome, ok, err, locate, located,
}

abbrev pub undo_node : UndoOp → Ptr → Ptr → UndoNode
undo_node op h t = record { type = op; h = h; t = t }

-- `memory` says whether malloc returned the node.
unfoldable pub append_undo_node : Bool → UndoOp → ℕ → ℕ → Buffer → Outcome (Unit {0})
append_undo_node memory op from to ed =
    if memory
    then (let ed₁ = locate from ed in
        let ed₂ = locate to ed₁ in
        ok tt (record ed₂ { undo = ed₂.undo ++ undo_node op (located ed₁) (located ed₂) ∷ [] }))
    else err EdError.memory_exhausted ed

-- `up->type ^= 1`
unfoldable pub toggle : UndoOp → UndoOp
toggle uadd = udel
toggle udel = uadd
toggle umov = uret
toggle uret = umov

abbrev pub toggled : UndoNode → UndoNode
toggled up = record up { type = toggle up.type }

-- The links that undoing an addition, a deletion and a move write.
unfoldable pub undo_add : UndoNode → Heap → Heap
undo_add up h = link_nodes (h.back up.h) (h.forw up.t) h

unfoldable pub undo_delete : UndoNode → Heap → Heap
undo_delete up h = let h₁ = link_nodes (h.back up.h) up.h h in link_nodes up.t (h₁.forw up.t) h₁

-- `prev` is `up->q_back`, the node before `up` in the deque.
unfoldable pub undo_move : UndoNode → UndoNode → Heap → Heap
undo_move up prev h =
    let h₁ = link_nodes prev.h (h.forw up.h) h in
    let h₂ = link_nodes (h₁.back up.t) prev.t h₁ in link_nodes up.h up.t h₂

-- The `while` over the deque, here over its nodes from the newest to the oldest. The nodes come
-- back in the order met, with their types toggled: a node that a move skips keeps its type. The
-- head of the deque stands for a missing node before a move, which `move_lines` never leaves.
unfoldable pub undo_loop : List UndoNode → Heap → Heap × List UndoNode
unfolding undo_add undo_delete undo_move toggle
undo_loop [] h = (h, [])
undo_loop (up ∷ []) h = elim up.type [
  | uadd ↦ (undo_add up h, toggled up ∷ [])
  | udel ↦ (undo_delete up h, toggled up ∷ [])
  | _ ↦ (undo_move up (undo_node uadd null null) h, toggled up ∷ [])
]
undo_loop (up ∷ prev ∷ ups) h = elim up.type [
  | uadd ↦ (let (g, q) = undo_loop (prev ∷ ups) (undo_add up h) in (g, toggled up ∷ q))
  | udel ↦ (let (g, q) = undo_loop (prev ∷ ups) (undo_delete up h) in (g, toggled up ∷ q))
  | _ ↦ (let (g, q) = undo_loop ups (undo_move up prev h) in (g, up ∷ toggled prev ∷ q))
]
