-- ===== src/Edit/Tests.antt =====
-- A buffer of three lines, and the theorems on it.
use ed.Edit.CopyLines.{Copied}
use ed.Edit.CopyTargets.{copy_lines-Copied, around}
use ed.Common.{ℕ, ◌-◌, ◌*◌, Option, ◌≡◌, refl, true, false, none, some, [], ◌∷◌, arith}
use ed.Line.{null, Heap, init_deque, append_node, link_nodes}
use ed.Line.Ring.{IsRing}
use ed.Line.Locate.{at_line, get_line_node, get_line_node_address}
use ed.Line.Locate.Walk.{node_at, get_line_node_lem}
use ed.Line.Locate.Find.{position, get_line_node_address_lem}
use ed.Edit.{EdState, GlobalBuffer, Outcome, Buffer, ok, err, ◌>>=◌, locate}
use ed.Edit.Commands.{delete_lines, undo_last_command}
use ed.Edit.Valid.{IsBuffer, Ensures, joined}
use ed.Edit.Lines.{move_lines, move_range, move_nodes, copy_lines, append_undo_line}
use ed.Edit.Undo.{append_undo_node}
use ed.Edit.Append.{append_line_node}
use ed.Edit.Delete.{Deleted, delete_lines-Deleted}
use ed.Edit.Restore.{IsFresh, undo-undo-delete_lines}
use ed.Edit.History.{start}
use ed.Edit.Tracked.{Tracked, undo_last_command-Tracked, delete_lines-Tracked}
use ed.Edit.Added.{append_line_node-Tracked}
use ed.Edit.Drain.{drain, entries, drain-entries}
use ed.Edit.Moves.{move_lines-up, move_lines-down}

abbrev unlinked : Heap
unlinked = record {
  forw = λ p. null;
  back = λ p. null;
  len = λ p. 2;
  seek = λ p. (p - 2) * 2;
  live = 1 ∷ 2 ∷ 3 ∷ 4 ∷ [];
}

-- The lines 2, 3 and 4, with the head 1.
unfoldable pub three_nodes : Heap
unfolding init_deque append_node link_nodes
three_nodes = append_node 4 3 (append_node 3 2 (append_node 2 1 (init_deque 1 unlinked)))

three_nodes-IsRing : IsRing three_nodes 1 (2 ∷ 3 ∷ 4 ∷ [])
unfolding three_nodes
three_nodes-IsRing = record {
  chain = (refl, refl, (refl, refl, (refl, refl, (refl, refl, tt))));
  distinct = (refl, (refl, (refl, (refl, tt))));
}

abbrev pub three_state : EdState
three_state = record {
  dot = 3;
  lines = 3;
  is_binary = false;
  is_utf8 = true;
  is_empty = false;
  is_modified = false;
  newline_appended = false;
  newline_missing = false;
  input_is_binary = false;
}

abbrev pub three_lines : Buffer
three_lines = record {
  state = three_state;
  saved = some three_state;
  heap = three_nodes;
  line_head = 1;
  cache = at_line null 0;
  undo = [];
  global_buffer = record { lbuf = []; ptr = 0; index = 0 };
  global = false;
  mark = [];
  marks = 0;
}

pub three_lines-IsBuffer : IsBuffer three_lines (joined (2 ∷ []) 3 [] (4 ∷ []))
unfolding node_at
three_lines-IsBuffer = record {
  ring = three_nodes-IsRing;
  lines = refl;
  dot = omega arith;
  cached = record { node = refl; line = omega arith };
  not_null = refl;
}

three_lines-IsFresh : IsFresh three_lines
three_lines-IsFresh = record { undo = refl; saved = refl }

delete_lines-Deleted_example :
    Ensures
      (delete_lines true 2 2 three_lines)
      (λ _ ed'. Deleted three_lines ed' (2 ∷ []) 3 [] (4 ∷ []))
delete_lines-Deleted_example =
    delete_lines-Deleted three_lines (2 ∷ []) 3 [] (4 ∷ []) three_lines-IsBuffer

undo-undo-delete_lines_example :
    Ensures
      (delete_lines true 2 2 three_lines >>= λ _ ed₁.
        undo_last_command ed₁ >>= λ _ ed₂. undo_last_command ed₂)
      (λ _ ed'. IsBuffer ed' (2 ∷ 4 ∷ []) × (ed'.state.dot ≡ 1))
undo-undo-delete_lines_example =
    undo-undo-delete_lines three_lines (2 ∷ []) 3 [] (4 ∷ []) three_lines-IsBuffer
      three_lines-IsFresh

get_line_node_example : get_line_node three_nodes 1 3 3 (at_line 2 1) ≡ at_line 4 3
unfolding node_at
get_line_node_example =
    get_line_node_lem 1 (2 ∷ 3 ∷ 4 ∷ []) three_nodes three_nodes-IsRing 3 (at_line 2 1)
      (omega arith) (record { node = refl; line = omega arith })

get_line_node_address_example : get_line_node_address three_nodes 1 3 3 ≡ some (some 2)
unfolding position
get_line_node_address_example =
    get_line_node_address_lem three_nodes 1 3 (2 ∷ 3 ∷ 4 ∷ []) three_nodes-IsRing

-- The address of a node in what an operation leaves.
abbrev address_in : {A : Type 0} → ℕ → Outcome A → Option (Option ℕ)
address_in p (ok _ ed) = get_line_node_address ed.heap ed.line_head ed.state.lines p
address_in p (err _ ed) = none

-- Moving line 1 behind line 3.
move_lines_runs : address_in 2 (move_lines true true 1 1 3 three_lines) ≡ some (some 3)
unfolding move_lines move_range move_nodes append_undo_node get_line_node get_line_node_address
    locate three_nodes
move_lines_runs = refl

-- Copying lines 1 to 2 behind line 1: the second copy stands behind the first.
copy_lines_runs : address_in 6 (copy_lines true (5 ∷ 6 ∷ []) 1 2 1 three_lines) ≡ some (some 3)
unfolding copy_lines append_line_node append_undo_node get_line_node get_line_node_address locate
    three_nodes
copy_lines_runs = refl

pub three_lines-Tracked : Tracked three_lines three_lines (2 ∷ 3 ∷ 4 ∷ [])
unfolding three_nodes
three_lines-Tracked = record {
  buffer = three_lines-IsBuffer;
  live = (refl, (refl, (refl, (refl, tt))));
  history = start;
  saved = refl;
  head = refl;
}

delete_lines-Tracked_example :
    Ensures (delete_lines true 2 2 three_lines) (λ _ ed'. Tracked three_lines ed' (2 ∷ 4 ∷ []))
delete_lines-Tracked_example =
    delete_lines-Tracked three_lines three_lines (2 ∷ []) 3 [] (4 ∷ []) three_lines-Tracked

move_lines-up_example :
    Ensures
      (move_lines true true 2 3 0 three_lines)
      (λ _ ed'. Tracked three_lines ed' (3 ∷ 4 ∷ 2 ∷ []) × (ed'.state.dot ≡ 2))
move_lines-up_example =
    move_lines-up three_lines three_lines [] 2 [] 3 (4 ∷ []) [] three_lines-Tracked

move_lines-down_example :
    Ensures
      (move_lines true true 1 1 2 three_lines)
      (λ _ ed'. Tracked three_lines ed' (3 ∷ 2 ∷ 4 ∷ []) × (ed'.state.dot ≡ 2))
move_lines-down_example =
    move_lines-down three_lines three_lines [] 2 [] 3 [] (4 ∷ []) three_lines-Tracked

append_line_node-Tracked_example :
    Ensures
      (append_line_node true 5 12 40 1 three_lines >>= λ lp ed. append_undo_line true false lp 2 ed)
      (λ _ ed'. Tracked three_lines ed' (2 ∷ 5 ∷ 3 ∷ 4 ∷ []))
unfolding three_nodes
append_line_node-Tracked_example =
    append_line_node-Tracked three_lines three_lines (2 ∷ []) 5 (3 ∷ 4 ∷ []) 12 40
      three_lines-Tracked refl (omega arith) (omega arith)

-- The buffer that a successful operation leaves.
abbrev left_by : {A : Type 0} → Outcome A → Buffer → Buffer
left_by (ok a ed) none_left = ed
left_by (err e ed) none_left = none_left

Ensures-left_by :
    {A : Type 0} (r : Outcome A) (none_left : Buffer) (Q : Buffer → Type 0)
    → Ensures r (λ _ ed. Q ed)
    → Q (left_by r none_left)
Ensures-left_by (ok a ed) none_left Q q = q
Ensures-left_by (err e ed) none_left Q q = absurd q

abbrev four_lines : Buffer
four_lines =
    left_by
      (append_line_node true 5 12 40 1 three_lines >>= λ lp ed. append_undo_line true false lp 2 ed)
      three_lines

undo_last_command-Tracked_example :
    Ensures
      (undo_last_command four_lines)
      (λ _ ed'. IsBuffer ed' (2 ∷ 3 ∷ 4 ∷ []) × (ed'.state ≡ three_state))
unfolding three_nodes
undo_last_command-Tracked_example =
    undo_last_command-Tracked three_lines four_lines (2 ∷ 3 ∷ 4 ∷ []) (2 ∷ 5 ∷ 3 ∷ 4 ∷ [])
      three_lines-IsBuffer (refl, (refl, (refl, (refl, tt))))
      (Ensures-left_by
        (append_line_node true 5 12 40 1 three_lines >>= λ lp ed.
          append_undo_line true false lp 2 ed)
        three_lines (λ ed. Tracked three_lines ed (2 ∷ 5 ∷ 3 ∷ 4 ∷ []))
        append_line_node-Tracked_example)

abbrev marked : GlobalBuffer
marked = record { lbuf = 7 ∷ 2 ∷ 0 ∷ 3 ∷ []; ptr = 1; index = 0 }

drain-entries_example : drain 4 marked ≡ 2 ∷ 3 ∷ []
unfolding entries
drain-entries_example = drain-entries 4 marked (omega arith)

-- `1,2t1`: the target is in the range.
copy_lines-Copied_example :
    Ensures (copy_lines true (5 ∷ 6 ∷ []) 1 2 1 three_lines) (λ _ ed'.
      Copied three_lines three_lines ed' (2 ∷ []) ((2, 5) ∷ []) ((3, 6) ∷ []) (3 ∷ 4 ∷ []))
unfolding three_nodes
copy_lines-Copied_example =
    copy_lines-Copied three_lines three_lines (2 ∷ []) (3 ∷ 4 ∷ []) [] 2 5 [] ((3, 6) ∷ []) 1 2
      (around [] (4 ∷ []) refl refl (omega arith) refl refl) three_lines-Tracked
      (refl, (λ e. omega arith), tt) (refl, (λ e. omega arith), tt) (omega arith)
