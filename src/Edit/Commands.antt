-- ===== src/Edit/Commands.antt =====
-- The commands on ranges of lines (src/cmds.c), and the ends of the undo queue (src/undo.c).
-- `memory` says for each call of malloc in turn whether it returned memory.
use ed.Common.{ℕ, ◌+◌, ◌-◌, Bool, true, false, none, some, ◌==◌, if◌then◌else◌}
use ed.Line.{Ptr, link_nodes}
use ed.Edit.{Buffer, EdError, Outcome, ok, err, ◌>>=◌, locate, located, udel}
use ed.Edit.Global.{inc_mod, reset_global_buffer, clear_global_lines}
use ed.Edit.Undo.{append_undo_node, undo_loop}
use mathlib.Core.List.{reverse}

-- `clear_global_lines (np, mp, …)` where a global command is run
abbrev pub clear_if_global : Ptr → Ptr → Buffer → Buffer
clear_if_global np mp ed = record ed {
  global_buffer =
      if ed.global
      then clear_global_lines ed.heap (ed.state.lines + 1) np mp ed.global_buffer
      else ed.global_buffer;
}

-- The last part of `delete_lines`, where `b` and `a` are the nodes around the range.
unfoldable pub remove_range : ℕ → ℕ → Ptr → Ptr → Buffer → Buffer
remove_range from to b a ed =
    let ed₁ = clear_if_global (ed.heap.forw b) a ed in
    record ed₁ {
      heap = link_nodes b a ed₁.heap;
      state = record (ed₁.state) {
        newline_appended = if to == ed₁.state.lines then false else ed₁.state.newline_appended;
        lines = ed₁.state.lines - (to - from + 1);
        dot = from - 1;
        is_modified = true;
      };
    }

-- delete_lines
unfoldable pub delete_lines : Bool → ℕ → ℕ → Buffer → Outcome (Unit {0})
delete_lines memory from to ed = append_undo_node memory udel from to ed >>= λ _ ed₀.
    let ed₁ = locate (inc_mod to ed₀.state.lines) ed₀ in
    let ed₂ = locate (from - 1) ed₁ in ok tt (remove_range from to (located ed₂) (located ed₁) ed₂)

-- undo_last_command
unfoldable pub undo_last_command : Buffer → Outcome (Unit {0})
unfolding undo_loop
undo_last_command ed = elim ed.saved [
  | none ↦ err EdError.nothing_to_undo ed
  | some before ↦
      let ed₁ = locate 0 ed in
      let (heap', queue) = undo_loop (reverse ed₁.undo) ed₁.heap in
      ok tt (record ed₁ {
        heap = heap';
        undo = queue;
        global_buffer =
            if ed₁.global then reset_global_buffer ed₁.global_buffer else ed₁.global_buffer;
        state = before;
        saved = some ed.state;
      })
]
