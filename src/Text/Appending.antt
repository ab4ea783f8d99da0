-- ===== src/Text/Appending.antt =====
-- `append_lines` (src/cmds.c), as it is built without macros.
use ed.Common.{
  ℕ, zero, suc, Bool, true, false, ◌||◌, ◌&&◌, Option, none, some, List, [], ◌∷◌, ◌++◌, length,
  ◌==◌, if◌then◌else◌,
}
use ed.Line.{Ptr}
use ed.Address.{char, advance}
use ed.Edit.{locate, located}
use ed.Edit.Lines.{append_undo_line, allocated, others, nonempty}
use ed.Text.{
  Core, TextError, Status, ok, err, ◌>>=◌, run, with_buffer, Calls, put_buffer_line, eof_unexpected,
  input_error, unterminated, out_of_fuel, memory_exhausted,
}

-- Where the lines come from: `get_stdin_line` gives lines, and then the end of the file or an error;
-- the argument of the command; or the command list of a global command.
pub data Source : Type 0 where
  typed : List (List ℕ) → Bool → Source
  argument : List ℕ → Source
  commands : List ℕ → Source

-- The end of the input; an error; or a line of so many characters at the front of `ed->input`.
pub data Next : Type 0 where
  finished : Next
  failed : TextError → Next
  text : List ℕ → ℕ → Next

unfoldable pub ends_in_newline : List ℕ → Bool
ends_in_newline [] = false
ends_in_newline (c ∷ []) = c == 10
ends_in_newline (c ∷ d ∷ s) = ends_in_newline (d ∷ s)

-- The characters up to a newline, with it. Without one the source reads past the end of the string.
unfoldable pub to_newline : List ℕ → Option ℕ
to_newline [] = none
to_newline (c ∷ s) =
    let rest : Option ℕ = elim (to_newline s) [ none ↦ none | some n ↦ some (suc n) ] in
    if c == 10 then some 1 else rest

abbrev pub given : List ℕ → Next
given [] = finished
given (c ∷ s) = elim (to_newline (c ∷ s)) [ none ↦ failed unterminated | some n ↦ text (c ∷ s) n ]

unfoldable pub next : Source → Next
unfolding ends_in_newline to_newline
next (typed [] eof) = if eof then finished else failed input_error
next (typed (l ∷ ls) eof) = if ends_in_newline l then text l (length l) else failed eof_unexpected
next (argument s) = given s
next (commands s) = given s

-- The input behind a line, where `left` is what is left of `ed->input`.
abbrev pub resume : Source → List ℕ → Source
resume (typed [] eof) left = typed [] eof
resume (typed (l ∷ ls) eof) left = typed ls eof
resume (argument s) left = argument left
resume (commands s) left = commands left

-- A NUL that `get_stdin_line` reads makes the input binary.
unfoldable pub has_nul : List ℕ → Bool
has_nul [] = false
has_nul (c ∷ s) = let rest = has_nul s in if c == 0 then true else rest

abbrev pub reads_nul : Source → Bool
reads_nul (typed (l ∷ ls) eof) = has_nul l
reads_nul (typed [] eof) = false
reads_nul (argument s) = false
reads_nul (commands s) = false

-- `.` and a newline
abbrev pub is_dot : List ℕ → Bool
is_dot s = (char s == b'.') && (char (advance s) == 10)

-- What the loop carries: the input, whether there is an undo node, and the addresses that malloc
-- will return for line nodes; it returns none after these.
pub record Appending : Type 0 where
  pub source : Source
  pub up : Bool
  pub fresh : List Ptr

-- The flags before a line is put, where the lines are added behind `after`.
abbrev pub before_line : ℕ → Bool → Core → Core
before_line after nul c =
    let s = c.buffer.state in
    let binary = s.input_is_binary || nul in
    with_buffer c (record (c.buffer) {
      state = record s {
        input_is_binary = binary;
        is_binary = s.is_binary || binary;
        newline_appended = if after == s.lines then false else s.newline_appended;
      };
    })

abbrev pub after_line : Core → Core
after_line c =
    with_buffer c (record (c.buffer) {
      state = record (c.buffer.state) { is_empty = false; is_modified = true };
    })

-- A line of `len` characters at the front of `input`: what is left of the input.
unfoldable pub append_text : Calls → Bool → ℕ → List ℕ → ℕ → Appending → Core → Status Appending
append_text calls undo_memory after input len a c =
    let node : Calls = record calls { memory = calls.memory && nonempty a.fresh } in
    put_buffer_line node (allocated a.fresh) input len (before_line after (reads_nul a.source) c)
    >>= λ left c₁.
        let c₂ = with_buffer c₁ (locate c₁.buffer.state.dot c₁.buffer) in
        run c₂ (append_undo_line undo_memory a.up (located c₂.buffer) c₂.buffer.state.dot c₂.buffer)
        >>= λ _ c₃.
            ok (record { source = resume a.source left; up = true; fresh = others a.fresh })
              (after_line c₃)

-- The loop, for at most so many rounds. A round takes a line typed, or a character at least.
unfoldable pub append_loop : ℕ → Calls → Bool → ℕ → Appending → Core → Status Appending
unfolding append_text next
append_loop zero calls undo_memory after a c = err out_of_fuel c
append_loop (suc fuel) calls undo_memory after a c = elim (next a.source) [
  | finished ↦ ok a c
  | failed e ↦ err e c
  | text input len ↦ elim (is_dot input) [
    | true ↦ ok (record a { source = resume a.source (advance input) }) c
    | false ↦ append_text calls undo_memory after input len a c >>= λ a' c'.
        append_loop fuel calls undo_memory after a' c'
  ]
]

abbrev pub rounds : Source → ℕ
rounds (typed ls eof) = suc (length ls)
rounds (argument s) = suc (length s)
rounds (commands s) = suc (length s)

abbrev pub append_from : Calls → Bool → List Ptr → ℕ → Source → Core → Status Appending
append_from calls undo_memory fresh after source c =
    append_loop (rounds source) calls undo_memory after
      (record { source = source; up = false; fresh = fresh })
      (with_buffer c (record (c.buffer) {
        state = record (c.buffer.state) { input_is_binary = false; dot = after };
      }))

-- `extended` is what `get_extended_line` gives for an argument, where `none` is the end of the file
-- or, without `eof`, another error; `memory` says whether it could be copied.
unfoldable pub append_lines :
    Calls
    → Bool
    → List Ptr
    → ℕ
    → List ℕ
    → Option (List ℕ)
    → Bool
    → Bool
    → List (List ℕ)
    → Core
    → Status Appending
unfolding append_loop
append_lines calls undo_memory fresh after input extended eof memory lines c =
    if c.buffer.global
    then append_from calls undo_memory fresh after (commands input) c
    else elim input [
      | [] ↦ append_from calls undo_memory fresh after (typed lines eof) c
      | h ∷ t ↦ elim extended [
        | none ↦ err (if eof then eof_unexpected else input_error) c
        | some s ↦
            if memory
            then append_from calls undo_memory fresh after (argument (s ++ b'.' ∷ 10 ∷ [])) c
            else err memory_exhausted c
      ]
    ]
