-- ===== src/Text.antt =====
-- The texts of the lines (src/buffer.c: `get_buffer_line`, `put_buffer_line`; src/cmds.c:
-- `join_lines`, `append_lines`). The on-disk buffer is a file of bytes with the position of its stream; the line
-- nodes have the place and the length of their texts in it.
pub mod Store
pub mod Put
pub mod Join
pub mod Kept
pub mod Replaced
pub mod Replacing
pub mod Joined
pub mod Undone
pub mod Appending
pub mod Appended
pub mod Round
pub mod Typed
pub mod Tests
use ed.Common.{
  ℕ, zero, suc, ◌+◌, ◌-◌, Bool, true, false, not, ◌&&◌, Option, none, some, List, [], ◌∷◌, ◌++◌,
  length, take, drop, ltb, ◌==◌, if◌then◌else◌,
}
use ed.Line.{Ptr}
use ed.Edit
use ed.Edit.{Buffer, EdError, Outcome, locate, located, uadd}
use ed.Edit.Append.{off_t_max, append_line_node}
use ed.Edit.Commands.{delete_lines}
use ed.Edit.Undo.{append_undo_node}

-- `fp` and `position` are the file and where its stream stands, `offset` and `seek_on_write` the
-- fields of `ed_core`, where `none` is the offset -1.
pub record Core : Type 0 where
  pub buffer : Buffer
  pub fp : List ℕ
  pub position : ℕ
  pub offset : Option ℕ
  pub seek_on_write : Bool

pub data TextError : Type 0 where
  edit : EdError → TextError
  seek_error read_error write_error memory_exhausted : TextError
  eof_unexpected input_error unterminated out_of_fuel : TextError

-- The status of an operation, with the state that it leaves.
pub data Status (A : Type 0) : Type 0 where
  ok : A → Core → Status A
  err : TextError → Core → Status A

infixl 5 ◌>>=◌
abbrev pub ◌>>=◌ : {A B : Type 0} → Status A → (A → Core → Status B) → Status B
ok a c >>= f = f a c
err e c >>= f = err e c

abbrev pub with_buffer : Core → Buffer → Core
with_buffer c ed = record c { buffer = ed }

-- An operation on the buffer.
abbrev pub run : {A : Type 0} → Core → Outcome A → Status A
run c (Edit.ok a ed) = ok a (with_buffer c ed)
run c (Edit.err e ed) = err (edit e) (with_buffer c ed)

-- Which calls of the C library succeed: of malloc or of realloc for the text, of realloc for the
-- line join buffer, of fseek, and of fwrite.
pub record Calls : Type 0 where
  pub memory : Bool
  pub join_memory : Bool
  pub seek : Bool
  pub write : Bool

abbrev pub is_at : Option ℕ → ℕ → Bool
is_at none n = false
is_at (some m) n = m == n

-- `fread` of `n` bytes
abbrev pub read_bytes : ℕ → Core → List ℕ
read_bytes n c = take n (drop c.position c.fp)

-- The seek to a line that is out of position.
unfoldable pub seek_to : Calls → ℕ → Core → Status (Unit {0})
seek_to calls n c =
    let c₁ : Core = record c { offset = some n } in
    if is_at c.offset n
    then ok tt c
    else if calls.seek
    then ok tt (record c₁ { position = n })
    else err seek_error c₁

-- The text of `n` bytes at the offset `start`, where the stream stands.
unfoldable pub read_line : Calls → ℕ → ℕ → Core → Status (List ℕ)
read_line calls start n c =
    let text = read_bytes n c in
    let c₁ : Core = record c { position = c.position + length text } in
    if not calls.memory
    then err memory_exhausted c
    else if length text == n
    then ok text (record c₁ { offset = some (start + n) })
    else err read_error c₁

-- `get_buffer_line`: the text of the node.
unfoldable pub get_buffer_line : Calls → Ptr → Core → Status (List ℕ)
get_buffer_line calls lp c =
    let h = c.buffer.heap in
    if lp == c.buffer.line_head
    then if calls.memory then ok [] c else err memory_exhausted c
    else seek_to calls (h.seek lp) (record c { seek_on_write = true }) >>= λ _.
        read_line calls (h.seek lp) (h.len lp)

-- `fwrite`: the bytes go over what is at the position, and behind the end of the file.
abbrev pub write_bytes : List ℕ → Core → Core
write_bytes t c = record c {
  fp = take c.position c.fp ++ (t ++ drop (c.position + length t) c.fp);
  position = c.position + length t;
}

-- `put_buffer_line` where the stream stands at the offset: the text `t` without its last character
-- is written, and a node at the address `lp` added behind the current line.
unfoldable pub put_line : Calls → Ptr → List ℕ → ℕ → Core → Status (Unit {0})
put_line calls lp t offset c =
    let ed = c.buffer in
    if ltb off_t_max (offset + length t)
    then err (edit EdError.buffer_full) c
    else if not calls.write
    then err write_error (record c { offset = none })
    else run (write_bytes t c) (append_line_node calls.memory lp (length t) offset ed.state.dot ed)
      >>= λ _ c₁.
          let ed₁ = c₁.buffer in
          ok tt (record c₁ {
            buffer = record ed₁ { state = record (ed₁.state) { dot = ed₁.state.dot + 1 } };
            offset = some (offset + length t);
          })

-- At an offset of -1 the comparison with OFF_T_MAX is of unsigned numbers.
abbrev pub put_at : Calls → Ptr → List ℕ → Option ℕ → Core → Status (Unit {0})
put_at calls lp t none c = err (edit EdError.buffer_full) c
put_at calls lp t (some offset) c = put_line calls lp t offset c

-- `put_buffer_line` of the `len` characters before the rest of `t`: the rest.
unfoldable pub put_buffer_line : Calls → Ptr → List ℕ → ℕ → Core → Status (List ℕ)
unfolding put_line
put_buffer_line calls lp t len c =
    let end = length c.fp in
    let c₁ : Core = record c { position = end; offset = some end; seek_on_write = false } in
    if c.seek_on_write && not calls.seek
    then err seek_error c
    else put_at calls lp (take (len - 1) t) (if c.seek_on_write then some end else c.offset)
        (if c.seek_on_write then c₁ else c)
      >>= λ _. ok (drop len t)

-- The loop of `join_lines` over `n` lines from `lp` on: the texts behind `lj`. `calls` are those
-- for the line at each number of lines left.
unfoldable pub join_loop : (ℕ → Calls) → ℕ → Ptr → List ℕ → Core → Status (List ℕ)
join_loop calls zero lp lj c = ok lj c
join_loop calls (suc n) lp lj c = get_buffer_line (calls n) lp c >>= λ s c₁.
    let rest = join_loop calls n (c₁.buffer.heap.forw lp) (lj ++ s) c₁ in
    if (calls n).join_memory then rest else err memory_exhausted c₁

abbrev pub modified : Core → Core
modified c =
    with_buffer c (record (c.buffer) { state = record (c.buffer.state) { is_modified = true } })

abbrev pub with_dot : ℕ → Core → Core
with_dot n c = with_buffer c (record (c.buffer) { state = record (c.buffer.state) { dot = n } })

-- The last part of `join_lines`: the range is replaced by the line `lj`.
unfoldable pub replace_lines : Bool → Calls → Bool → Ptr → ℕ → ℕ → List ℕ → Core → Status (Unit {0})
replace_lines m₁ put m₂ lp from to lj c = run c (delete_lines m₁ from to c.buffer) >>= λ _ c₁.
    put_buffer_line put lp (lj ++ 10 ∷ []) (length lj + 1) (with_dot (from - 1) c₁) >>= λ _ c₂.
    run c₂ (append_undo_node m₂ uadd c₂.buffer.state.dot c₂.buffer.state.dot c₂.buffer) >>= λ _ c₃.
    ok tt (modified c₃)

-- `join_lines`, where the range begins at line 1 or behind it. `lp` is the address of the new
-- node; `m₁` and `m₂` say whether there is memory for the undo nodes.
unfoldable pub join_lines :
    (ℕ → Calls) → Bool → Calls → Bool → Ptr → ℕ → ℕ → Core → Status (Unit {0})
join_lines reads m₁ put m₂ lp from to c =
    let c₁ = with_buffer c (locate from c.buffer) in
    join_loop reads (to + 1 - from) (located c₁.buffer) [] c₁ >>= λ lj c₂.
    if put.join_memory then replace_lines m₁ put m₂ lp from to lj c₂ else err memory_exhausted c₂
