-- ===== src/Exec/Commands.antt =====
-- The commands d, k, m, t, u, q, P, = and #, and `invalid_cmd` (src/exec.c). `memory` and `fresh`
-- are as in `Edit`.
use ed.Common.{ℕ, Bool, false, not, ◌&&◌, List, [], ◌∷◌, ltb, leb, ◌==◌, if◌then◌else◌}
use ed.Common.Int.{pos}
use ed.Line.{Ptr}
use ed.Address
use ed.Address.{char, advance}
use ed.Address.Range.{next_address}
use ed.Edit.{Buffer, locate, located}
use ed.Edit.Global.{inc_mod}
use ed.Edit.Marks.{mark_line_node}
use ed.Edit.Commands.{delete_lines, undo_last_command}
use ed.Edit.Lines.{move_lines, copy_lines}
use ed.Exec.{
  Editor, CmdStatus, ok, err, out_of_fuel, ◌>>=◌, address_unexpected, invalid_destination,
  invalid_address, unknown_command, Reply, request, eof, emod, run, dot, with_buffer,
  command_suffix, is_valid_range, reset_unless_nested, destination_address, address_env, at_parse,
}

-- `return ed->display->dio_f`
abbrev pub requested : {A : Type 0} → A → Editor → CmdStatus Reply
requested a e = ok (request e.dio_f) e

-- The current line behind a deletion, and the flags of an empty buffer.
unfoldable pub after_deletion : Buffer → Buffer
after_deletion b =
    let s = b.state in
    let addr = inc_mod s.dot s.lines in
    record b {
      state = record s {
        dot = if addr == 0 then s.dot else addr;
        is_empty = s.lines == 0;
        is_binary = if s.lines == 0 then false else s.is_binary;
      };
    }

unfoldable pub d_cmd : Bool → Editor → CmdStatus Reply
unfolding after_deletion
d_cmd memory e = is_valid_range (dot e) (dot e) e >>= λ _ e₁. command_suffix e₁ >>= λ _ e₂.
    reset_unless_nested e₂ >>= λ _ e₃.
    run e₃ (delete_lines memory e₃.region.start e₃.region.end e₃.buffer) >>= λ _ e₄.
    requested tt (with_buffer e₄ (after_deletion e₄.buffer))

unfoldable pub k_cmd : Editor → CmdStatus Reply
k_cmd e = command_suffix (record e { input = advance e.input }) >>= λ _ e₁.
    let b = locate e₁.region.end e₁.buffer in
    run e₁ (mark_line_node (located b) (char e.input) b) >>= requested

unfoldable pub m_cmd : Bool → Bool → Editor → CmdStatus Reply
m_cmd m₁ m₂ e = is_valid_range (dot e) (dot e) e >>= λ _ e₁. destination_address e₁ >>= λ addr e₂.
    if leb e₂.region.start addr && ltb addr e₂.region.end
    then err invalid_destination e₂
    else command_suffix e₂ >>= λ _ e₃. reset_unless_nested e₃ >>= λ _ e₄.
        run e₄ (move_lines m₁ m₂ e₄.region.start e₄.region.end addr e₄.buffer) >>= requested

unfoldable pub t_cmd : Bool → List Ptr → Editor → CmdStatus Reply
t_cmd memory fresh e = is_valid_range (dot e) (dot e) e >>= λ _ e₁.
    destination_address e₁ >>= λ addr e₂. command_suffix e₂ >>= λ _ e₃.
    reset_unless_nested e₃ >>= λ _ e₄.
    run e₄ (copy_lines memory fresh e₄.region.start e₄.region.end addr e₄.buffer) >>= requested

unfoldable pub u_cmd : Editor → CmdStatus Reply
u_cmd e =
    if ltb 0 e.region.addrs
    then err address_unexpected e
    else command_suffix e >>= λ _ e₁. run e₁ (undo_last_command e₁.buffer) >>= requested

-- `c` is the character of the command, `q` or `Q`.
unfoldable pub q_cmd : ℕ → Editor → CmdStatus Reply
q_cmd c e =
    if ltb 0 e.region.addrs
    then err address_unexpected e
    else command_suffix e >>= λ _ e₁.
        ok
          (if (c == b'q') && e₁.buffer.state.is_modified && not e₁.options.scripted
            then emod
            else eof)
          e₁

unfoldable pub P_cmd : Editor → CmdStatus Reply
P_cmd e =
    if ltb 0 e.region.addrs
    then err address_unexpected e
    else command_suffix e >>= λ _ e₁.
        requested tt
          (record e₁ { options = record (e₁.options) { prompt = not e₁.options.prompt } })

-- The number that `=` prints, with the print request.
unfoldable pub address_cmd : Editor → CmdStatus (ℕ × Reply)
address_cmd e = command_suffix e >>= λ _ e₁.
    ok (if e₁.region.addrs == 0 then e₁.buffer.state.lines else e₁.region.end, request e₁.dio_f) e₁

-- The command buffer behind its newline.
unfoldable pub behind_newline : List ℕ → List ℕ
behind_newline [] = []
behind_newline (c ∷ s) = let rest = behind_newline s in if c == 10 then s else rest

unfoldable pub comment_cmd : Editor → CmdStatus (Unit {0})
unfolding behind_newline
comment_cmd e =
    if e.options.traditional
    then err unknown_command e
    else ok tt (record e { input = behind_newline e.input })

unfoldable pub invalid_cmd : {A : Type 0} → Editor → CmdStatus A
invalid_cmd e =
    elim (next_address (address_env e) (pos (dot e))
      (record { input = e.input; dot = pos (dot e) })) [
        | Address.out_of_fuel ↦ out_of_fuel
        | Address.err m p ↦ err unknown_command (at_parse e p)
        | Address.ok a p ↦ err (if a.1 then invalid_address else unknown_command) (at_parse e p)
      ]
