-- ===== src/Edit/Queue.antt =====
-- `reset_undo_queue` (src/undo.c), `init_ed_state` (src/buffer.c), and the loop of
-- `set_global_lines` (src/global.c).
use ed.Common.{
  ℕ, zero, suc, ◌+◌, Bool, true, false, Option, none, some, List, [], ◌∷◌, length, ◌==◌,
  if◌then◌else◌,
}
use ed.Line.{Ptr, Heap}
use ed.Edit.{Buffer, EdState, UndoNode, udel, GlobalBuffer}
use ed.Edit.Marks.{unmark_line_node}
use ed.Edit.Global.{append_global_line}

-- `free (lp)`
unfoldable pub removed : Ptr → List Ptr → List Ptr
removed lp [] = []
removed lp (p ∷ ps) = if p == lp then ps else p ∷ removed lp ps

abbrev pub freed : Ptr → Buffer → Buffer
freed lp ed = record ed { heap = record (ed.heap) { live = removed lp ed.heap.live } }

-- The inner loop from `lp` up to `ep`. Each round frees a node; `none` is a run out of fuel.
unfoldable pub free_loop : ℕ → Ptr → Ptr → Buffer → Option Buffer
unfolding removed
free_loop zero lp ep ed = if lp == ep then some ed else none
free_loop (suc fuel) lp ep ed =
    let rest = free_loop fuel (ed.heap.forw lp) ep (freed lp (unmark_line_node lp ed)) in
    if lp == ep then some ed else rest

-- The outer loop.
unfoldable pub reset_loop : List UndoNode → Buffer → Option Buffer
unfolding free_loop
reset_loop [] ed = some ed
reset_loop (up ∷ ups) ed = elim up.type [
  | udel ↦ elim (free_loop (length ed.heap.live) up.h (ed.heap.forw up.t) ed) [
    | none ↦ none
    | some ed₁ ↦ reset_loop ups ed₁
  ]
  | _ ↦ reset_loop ups ed
]

unfoldable pub reset_undo_queue : Buffer → Option Buffer
unfolding reset_loop
reset_undo_queue ed = elim (reset_loop ed.undo ed) [
  | none ↦ none
  | some ed₁ ↦ some (record ed₁ { undo = []; saved = some ed₁.state })
]

-- At an address from 0 on. At -1, which disables undo, the state is that of `none`.
unfoldable pub init_ed_state : ℕ → EdState
init_ed_state addr = record {
  dot = addr;
  lines = addr;
  is_binary = false;
  is_utf8 = true;
  is_empty = true;
  is_modified = false;
  newline_appended = false;
  newline_missing = false;
  input_is_binary = false;
}

-- The loop over `n` lines from `lp` on. `matches lp` says whether `regexec` matches the text of
-- the node, or is `none` where the text cannot be read; `memory k` whether the global buffer
-- could be enlarged to `k` entries. `none` is the status ERR.
unfoldable pub set_global_loop :
    (Ptr → Option Bool) → (ℕ → Bool) → Bool → Heap → ℕ → Ptr → GlobalBuffer → Option GlobalBuffer
set_global_loop matches memory want_match h zero lp gb = some gb
set_global_loop matches memory want_match h (suc n) lp gb =
    let skip = set_global_loop matches memory want_match h n (h.forw lp) gb in
    let taken : Option GlobalBuffer =
      elim (append_global_line (memory (length gb.lbuf + 1)) lp gb) [
        | none ↦ none
        | some gb' ↦ set_global_loop matches memory want_match h n (h.forw lp) gb'
      ] in
    elim (matches lp) [
      | none ↦ none
      | some true ↦ if want_match then taken else skip
      | some false ↦ if want_match then skip else taken
    ]
