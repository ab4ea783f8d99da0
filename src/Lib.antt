-- ===== src/Lib.antt =====
-- The line editor ed: its buffer of lines and their texts, its addresses, its
-- substitutions, its text in UTF-8 and its encryption of files.
--
-- The editor keeps its lines in a ring of nodes (src/ed.h, src/buffer.c). A command is read as
-- addresses (`address_range` of src/parse.c, which asks src/regexp.c for the lines that match and
-- src/cmds.c for the marks) and applied to a range of lines (src/cmds.c). Each change appends
-- nodes to the undo queue (src/undo.c), and while a global command runs it also clears the lines
-- that it moves or deletes from the global command buffer (src/global.c).
--
-- - Line: the nodes as a heap of links by address, and LINK_NODES and its like. Line.Ring has the
--   invariant: from the head the links lead through distinct nodes back to the head. Line.Cut
--   takes a stretch out of the ring and puts it back. Line.Locate is `get_line_node`, with its two
--   static variables as a cache that goes through the state, and `get_line_node_address`.
-- - Edit: the buffer as a record that each operation takes and returns, with an error where the
--   source returns ERR. Edit.Commands has the deletion of lines and the undo of a command,
--   Edit.Append `append_line_node`, Edit.Lines `move_lines` and `copy_lines`, Edit.Undo and
--   Edit.Queue the undo queue, a list of nodes from the oldest to the newest, Edit.Marks the 26
--   line marks, and Edit.Global the global command buffer, which Edit.Drain empties. Edit.Valid has the invariant of the
--   buffer. Edit.History has the changes that are recorded for undo, Edit.Tracked the buffers
--   whose undo queue records every change since another buffer, and Edit.Recording those that a
--   command adds lines to, under one undo node.
-- - Address: `address_range`, `next_address`, `line_address`, `address_offset` and
--   `check_address_bounds` under these names, and `get_matching_node_address`. The command buffer
--   is the list of characters not read yet.
-- - Utf8: the functions of src/utf8.c under their names. `int` and `unsigned` have 32 bits. A
--   length of type size_t that is converted to int keeps its low 32 bits.
-- - Exec: `exec_command` and its key map, `is_valid_range`, COMMAND_SUFFIX, DESTINATION_ADDRESS and
--   the handlers of d, k, m, t, u, q, P, = and # of src/exec.c under these names, as they are built
--   without the extensions of configure (no registers, macros or file globs). The other handlers
--   are a parameter of `exec_command`.
-- - Subst: `substitution_template`, `substitution_modifiers`, `resubstitute`, `apply_subst_template`,
--   `count_matches` and
--   `substitute_matching` of src/subst.c, and `realloc_buffer` of src/buffer.c, under these names.
--   `regexec` is a parameter that gives the offsets of a match. The count of the matches, of type
--   int in the source, is a natural number: a line has fewer than 2 ^ 31 of them.
-- - Text: the texts of the lines. `get_buffer_line` and `put_buffer_line` of src/buffer.c read and
--   write the on-disk buffer, a file of bytes with the position of its stream, beside the offset
--   and the flag of `ed_core`. `join_lines` and `append_lines` of src/cmds.c use them, the latter
--   as it is built without macros, on lines that are typed, the argument of a command, or the
--   command list of a global command.
-- - Crypt: the functions of src/cbc.c under these names, with their static variables as a record.
--   The block cipher of the DES library, DES_set_odd_parity, DES_set_key, `strtol`, `getpass` and
--   `arc4random_buf` are parameters, and a write to an encrypted file takes all that it is given.
--   Crypt.Lines is `get_stream_line` of src/io.c on such a file.
-- - Words: `shell_quote`, `regular_expression`, `character_class`, `strtok_with_delimiters`,
--   `expand_shell_command` and `trailing_escapes` of src/parse.c under these names. The size
--   of a static buffer is a number, and a write past it, like a read past the end of a string, is
--   an outcome of its own.
-- - Common: the tests, lists and integers that the parts share.
--
-- Loops run on fuel where they are no recursion on a list or a number. `address_range` has two
-- rounds more than there are characters, since each round but the first takes a delimiter;
-- `address_offset` one more; the search for a match as many as there are lines and one, since it
-- stops where it began; `get_line_node_address` the same; the text loops and the scan
-- for a pattern one more than there are bytes. A run out of fuel is a value of its own there.
-- `reset_undo_queue` frees a node in each round and has as many as there are nodes in use.
-- `count_matches` and `substitute_matching` have two rounds for each character and two more: a
-- round takes a character, or is an empty match, which the next round steps over.
-- `append_lines` has a round more than there are typed lines or characters, since each round takes
-- one of them, and the reading of an encrypted file one more than it has characters.
-- `clear_global_lines` has one round more than there are lines, and stops after them.
--
-- malloc is a Bool at each call, whether it returned memory; for `copy_lines` the list of the
-- addresses that it returns, and for the static buffers of strings a function of the size. The pattern compiler and `regexec`
-- are one function of the environment of an address. An addition of addresses that overflows off_t
-- is the error `overflow`.
--
-- Not modelled: the handlers of src/exec.c not named above, registers and
-- macros (src/register.c), display (src/page.c), the rest of I/O, filters, signals and start-up (src/io.c,
-- src/filter.c, src/signal.c, src/main.c); gettext and the masking of
-- signals by `spl1` and `spl0`; lib, a copy of gnulib. Of src/parse.c,
-- file names and globbing; of src/subst.c, the
-- entry points of the two sides of a substitution and its run over lines; of
-- src/cmds.c, `system_shell`.
pub mod Common
pub mod Utf8
pub mod Line
pub mod Edit
pub mod Address
pub mod Words
pub mod Exec
pub mod Subst
pub mod Text
pub mod Crypt
