-- ===== src/Edit.antt =====
-- The editor buffer (src/ed.h: ed_state, ed_core, ed_global_buffer, ed_undo_node) and what
-- src/buffer.c, src/undo.c, src/global.c and src/cmds.c do to it.
--
-- A flag of the source is a Bool. `saved` is `state[1]`, where `none` stands for the addresses -1
-- that disable undo. The undo deque is the list of its nodes, the oldest first. `lbuf` holds the
-- `last` entries of the global buffer, a NULL being `null`.
pub mod Global
pub mod Drain
pub mod Undo
pub mod Marks
pub mod Commands
pub mod Valid
pub mod Delete
pub mod Restore
pub mod Append
pub mod Lines
pub mod Queue
pub mod Reset
pub mod Frees
pub mod History
pub mod Tracked
pub mod Added
pub mod Growing
pub mod Recording
pub mod Copied
pub mod Copies
pub mod CopyLoop
pub mod CopyLines
pub mod CopyTargets
pub mod Moved
pub mod Moves
pub mod Tests
use ed.Common.{ℕ, Bool, true, false, Option, none, some, List, [], ◌∷◌}
use ed.Line.{Ptr, Heap}
use ed.Line.Locate
use ed.Line.Locate.{Cache}

pub record EdState : Type 0 where
  pub dot : ℕ
  pub lines : ℕ
  pub is_binary : Bool
  pub is_utf8 : Bool
  pub is_empty : Bool
  pub is_modified : Bool
  pub newline_appended : Bool
  pub newline_missing : Bool
  pub input_is_binary : Bool

pub data UndoOp : Type 0 where
  uadd udel umov uret : UndoOp

pub record UndoNode : Type 0 where
  pub type : UndoOp
  pub h : Ptr
  pub t : Ptr

pub record GlobalBuffer : Type 0 where
  pub lbuf : List Ptr
  pub ptr : ℕ
  pub index : ℕ

pub record Buffer : Type 0 where
  pub state : EdState
  pub saved : Option EdState
  pub heap : Heap
  pub line_head : Ptr
  pub cache : Cache
  pub undo : List UndoNode
  pub global_buffer : GlobalBuffer
  pub global : Bool
  pub mark : List Ptr
  pub marks : ℕ

-- The error messages of the operations.
pub data EdError : Type 0 where
  memory_exhausted buffer_full nothing_to_undo out_of_range invalid_mark : EdError

-- The status of an operation, with the buffer that it leaves.
pub data Outcome (A : Type 0) : Type 0 where
  ok : A → Buffer → Outcome A
  err : EdError → Buffer → Outcome A

infixl 5 ◌>>=◌
abbrev pub ◌>>=◌ : {A B : Type 0} → Outcome A → (A → Buffer → Outcome B) → Outcome B
ok a b >>= f = f a b
err e b >>= f = err e b

-- `get_line_node (n, ed)`: the buffer with its static variables after the call. The node is
-- `cache.lp`.
unfoldable pub locate : ℕ → Buffer → Buffer
locate n ed = record ed {
  cache = Locate.get_line_node ed.heap ed.line_head ed.state.lines n ed.cache;
}

abbrev pub located : Buffer → Ptr
located ed = ed.cache.lp

abbrev pub relink : Buffer → Heap → Buffer
relink ed h = record ed { heap = h }
