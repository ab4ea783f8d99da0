-- ===== src/Edit/Delete.antt =====
-- `delete_lines` (src/cmds.c) takes a range of lines out of the buffer.
use ed.Common.{
  ℕ, suc, ◌+◌, ◌-◌, ◌≤◌, ◌≡◌, refl, true, false, List, [], ◌∷◌, ◌++◌, arith, length, length-append,
}
use ed.Line.{Ptr, null, has, link_nodes}
use ed.Line.Chain.{last}
use ed.Line.Apart.{first}
use ed.Line.Cut.{Detached, unlink-IsRing, unlink-Detached}
use ed.Line.Locate.{Cache, at_line}
use ed.Line.Locate.Walk.{node_at, IsCached, cached-at_line, node_at-length}
use ed.Edit.{Buffer, ok, UndoOp, udel}
use ed.Edit.Global.{inc_mod}
use ed.Edit.Undo.{undo_node, append_undo_node}
use ed.Edit.Commands.{delete_lines, remove_range}
use ed.Edit.Valid.{
  IsBuffer, IsBuffer-undo, Ensures, has-left, moved_to, moved_to-IsBuffer, locate_lem, joined,
  length-joined, node_before, node_from, node_to, node_behind,
}

pub append_undo_node_lem :
    (op : UndoOp) (ed : Buffer) (xs : List Ptr) (v : IsBuffer ed xs) (from to : ℕ)
    → from ≤ length xs
    → to ≤ length xs
    → append_undo_node true op from to ed
      ≡ ok tt (record (moved_to ed xs v to) {
        undo =
            ed.undo
            ++ undo_node op (node_at ed.line_head xs from) (node_at ed.line_head xs to) ∷ [];
      })
unfolding append_undo_node
append_undo_node_lem op ed xs v from to l m = rw (
  locate_lem ed xs v from l,
  locate_lem (moved_to ed xs v from) xs (moved_to-IsBuffer ed xs v from l) to m,
)

-- The buffer `ed'` is `ed` without the lines `d ∷ ds`.
pub record Deleted (ed ed' : Buffer) (xs : List Ptr) (d : Ptr) (ds ys : List Ptr) : Type 0 where
  pub buffer : IsBuffer ed' (xs ++ ys)
  pub detached : Detached ed'.heap (last ed.line_head xs) d ds (first ys ed.line_head)
  pub undo : ed'.undo ≡ ed.undo ++ undo_node udel d (last d ds) ∷ []
  pub dot : ed'.state.dot ≡ length xs
  pub modified : ed'.state.is_modified ≡ true
  pub saved : ed'.saved ≡ ed.saved
  pub head : ed'.line_head ≡ ed.line_head
  pub heap : ed'.heap ≡ link_nodes (last ed.line_head xs) (first ys ed.line_head) ed.heap

-- The cache at the line before a cut stays right: the reason why it is asked for last.
pub IsCached-last :
    {head : Ptr} {c : Cache} (xs ys : List Ptr)
    → has null (head ∷ (xs ++ ys)) ≡ false
    → c ≡ at_line (last head xs) (length xs)
    → IsCached head (xs ++ ys) c
IsCached-last {head} xs ys z e =
    let l : length xs ≤ length (xs ++ ys) = omega (arith, length-append xs ys) in
    rw (e, ← node_at-length head xs ys)
      (record { node = cached-at_line head (xs ++ ys) (length xs) z l; line = l })

-- The invariant of what is left.
IsBuffer-remove_range :
    (ed : Buffer) (xs : List Ptr) (d : Ptr) (ds ys : List Ptr)
    → IsBuffer ed (joined xs d ds ys)
    → ed.cache ≡ at_line (last ed.line_head xs) (length xs)
    → IsBuffer
        (remove_range
          (suc (length xs))
          (length xs + suc (length ds))
          (last ed.line_head xs)
          (first ys ed.line_head)
          ed)
        (xs ++ ys)
unfolding remove_range
IsBuffer-remove_range ed xs d ds ys v e = record {
  ring = unlink-IsRing xs d ds ys v.ring;
  lines = omega (arith, v.lines, length-joined xs d ds ys, length-append xs ys);
  dot = omega (arith, length-append xs ys);
  cached = IsCached-last xs ys left e;
  not_null = left;
}
  where
    left : has null (ed.line_head ∷ (xs ++ ys)) ≡ false
    left = has-left null ed.line_head xs d ds ys v.not_null

Deleted-remove_range :
    (ed : Buffer) (xs : List Ptr) (d : Ptr) (ds ys : List Ptr)
    → IsBuffer ed (joined xs d ds ys)
    → Deleted ed
        (remove_range
          (suc (length xs))
          (length xs + suc (length ds))
          (last ed.line_head xs)
          (first ys ed.line_head)
          (record ed {
            cache = at_line (last ed.line_head xs) (length xs);
            undo = ed.undo ++ undo_node udel d (last d ds) ∷ [];
          }))
        xs
        d
        ds
        ys
unfolding remove_range
Deleted-remove_range ed xs d ds ys v =
    let n : length xs ≤ length (joined xs d ds ys) = omega (arith, length-joined xs d ds ys) in
    let w : IsBuffer (record ed { cache = at_line (last ed.line_head xs) (length xs) })
        (joined xs d ds ys) =
      rw (← node_before ed.line_head xs d ds ys) (moved_to-IsBuffer ed _ v (length xs) n) in
    record {
      buffer =
          IsBuffer-remove_range _ xs d ds ys
            (IsBuffer-undo (ed.undo ++ undo_node udel d (last d ds) ∷ []) w) refl;
      detached = unlink-Detached xs d ds ys v.ring;
      undo = refl;
      dot = omega arith;
      modified = refl;
      saved = refl;
      head = refl;
      heap = refl;
    }

-- Given memory for the undo node, `delete_lines` of the lines `d ∷ ds` behind `xs` succeeds. It
-- leaves the lines before and after them, in order, with the current line before the range, and
-- appends one undo node for the range, whose nodes still hang together.
pub delete_lines-Deleted :
    (ed : Buffer) (xs : List Ptr) (d : Ptr) (ds ys : List Ptr)
    → IsBuffer ed (joined xs d ds ys)
    → Ensures
        (delete_lines true (suc (length xs)) (length xs + suc (length ds)) ed)
        (λ _ ed'. Deleted ed ed' xs d ds ys)
unfolding delete_lines
delete_lines-Deleted ed xs d ds ys v =
    let n = length-joined xs d ds ys in
    let lines = joined xs d ds ys in
    let to = length xs + suc (length ds) in
    let behind = inc_mod to ed.state.lines in
    let within : behind ≤ length lines = ground (arith, v.lines) in
    let v₁ =
      IsBuffer-undo
        (ed.undo
          ++ undo_node udel (node_at ed.line_head lines (suc (length xs)))
              (node_at ed.line_head lines to)
            ∷ [])
        (moved_to-IsBuffer ed lines v to (omega (arith, n))) in
    let v₂ = moved_to-IsBuffer _ lines v₁ behind within in
    let prev : suc (length xs) - 1 ≡ length xs = omega arith in
    let head = ed.line_head in
    let beyond : node_at head lines behind ≡ first ys head =
      rw v.lines (node_behind head xs d ds ys) in
    rw
      (
        append_undo_node_lem udel ed lines v (suc (length xs)) to (omega (arith, n))
            (omega (arith, n)),
        locate_lem _ lines v₁ behind within,
        locate_lem _ lines v₂ (suc (length xs) - 1) (omega (arith, n)),
        prev,
        node_before head xs d ds ys,
        beyond,
        node_from head xs d ds ys,
        node_to head xs d ds ys,
      )
      (Deleted-remove_range ed xs d ds ys v)
