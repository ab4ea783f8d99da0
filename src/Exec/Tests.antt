-- ===== src/Exec/Tests.antt =====
-- The theorems on commands at concrete editors.
use ed.Common.{◌==◌, if◌then◌else◌, refl, true, false, none, some, [], ◌∷◌, arith, inr}
use ed.Line.{null, Heap}
use ed.Line.Locate.{at_line}
use ed.Line.Locate.Walk.{node_at}
use ed.Edit.{EdState, Buffer, udel}
use ed.Edit.Undo.{undo_node}
use ed.Edit.Valid.{IsBuffer}
use ed.Edit.Frees.{holds_none, holds_deleted, Results, Reset, reset_undo_queue-Reset}
use ed.Edit.Queue.{reset_undo_queue}
use ed.Exec.{Editor}
use ed.Exec.Commands.{d_cmd}
use ed.Exec.Kept.{Post}
use ed.Exec.Ready.{Resets}
use ed.Exec.Deletes.{Remains, d_cmd-Remains}

-- The head 1 and the lines 2 and 3; the line 4 was deleted from behind them.
abbrev two_nodes : Heap
two_nodes = record {
  forw = λ p. if p == 1 then 2 else if p == 2 then 3 else 1;
  back = λ p. if p == 2 then 1 else if p == 3 then 2 else 3;
  len = λ p. 0;
  seek = λ p. 0;
  live = 4 ∷ 3 ∷ 2 ∷ 1 ∷ [];
}

abbrev two_state : EdState
two_state = record {
  dot = 2;
  lines = 2;
  is_binary = false;
  is_utf8 = true;
  is_empty = false;
  is_modified = true;
  newline_appended = false;
  newline_missing = false;
  input_is_binary = false;
}

abbrev two_lines : Buffer
two_lines = record {
  state = two_state;
  saved = some two_state;
  heap = two_nodes;
  line_head = 1;
  cache = at_line null 0;
  undo = undo_node udel 4 4 ∷ [];
  global_buffer = record { lbuf = []; ptr = 0; index = 0 };
  global = false;
  mark = [];
  marks = 0;
}

two_lines-IsBuffer : IsBuffer two_lines (2 ∷ 3 ∷ [])
unfolding node_at
two_lines-IsBuffer = record {
  ring = record {
    chain = (refl, refl, (refl, refl, (refl, refl, tt)));
    distinct = (refl, (refl, (refl, tt)));
  };
  lines = refl;
  dot = omega arith;
  cached = record { node = refl; line = omega arith };
  not_null = refl;
}

two_lines-Resets : Resets two_lines
two_lines-Resets = record {
  nodes = 4 ∷ [];
  holds = holds_deleted 4 [] 4 refl refl holds_none;
  distinct = (refl, tt);
  live = (refl, tt);
}

reset_undo_queue-Reset_example :
    Results (reset_undo_queue two_lines) (λ b'. Reset two_lines b' (4 ∷ []))
reset_undo_queue-Reset_example =
    reset_undo_queue-Reset two_lines (4 ∷ []) (holds_deleted 4 [] 4 refl refl holds_none) (refl, tt)
      (refl, tt)

-- The command buffer "p\n" behind a `d`, with the region from line 1 to line 1.
abbrev at_first : Editor
at_first = record {
  buffer = two_lines;
  input = b'p' ∷ 10 ∷ [];
  region = record { start = 1; end = 1; addrs = 1 };
  dio_f = record { prnt = false; list = false; nmbr = false };
  options = record { traditional = false; scripted = false; prompt = false };
  sp = false;
  search = λ c s. (none, s);
}

d_cmd-Remains_example :
    Post (d_cmd true at_first) (λ _. Remains (3 ∷ []) 1) (λ e'. IsBuffer e'.buffer (2 ∷ 3 ∷ []))
d_cmd-Remains_example =
    d_cmd-Remains true at_first (2 ∷ 3 ∷ []) two_lines-IsBuffer (inr two_lines-Resets)
