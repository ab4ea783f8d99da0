-- ===== src/Exec/Dispatch.antt =====
-- `exec_command` with its key map (src/exec.c), and one round of the main loop (src/main.c).
use ed.Common.{
  ℕ, ◌-◌, ◌%◌, Bool, false, List, [], ◌∷◌, get_or, leb, ltb, ◌==◌, ◌||◌, ◌&&◌, if◌then◌else◌,
}
use ed.Common.Int.{pos, pos_part}
use ed.Line.{Ptr}
use ed.Address
use ed.Address.{char, advance, skip_whitespace}
use ed.Address.Range.{address_range}
use ed.Exec.{
  Editor, CmdStatus, ok, err, out_of_fuel, ◌>>=◌, of_address, Reply, request, dot, address_env,
  at_parse,
}
use ed.Exec.Commands.{
  d_cmd, k_cmd, m_cmd, t_cmd, u_cmd, q_cmd, P_cmd, address_cmd, comment_cmd, invalid_cmd,
}

-- The functions of the key map, and those for a newline, `!` and `#`. `for_z` is z_cmd.
pub data Handler : Type 0 where
  for_invalid for_address for_big_e for_global for_big_h for_big_p for_q for_w for_big_z
        for_backward for_forward for_a for_c for_d for_e for_f for_h for_i for_j for_k for_l for_m
        for_n for_p for_r for_s for_t for_u for_z for_newline for_shell for_comment :
      Handler

-- ed_cmd, from `<` on
abbrev pub ed_cmd : List Handler
ed_cmd =
    for_invalid ∷ for_address ∷ for_invalid ∷ for_invalid ∷ for_invalid ∷ for_invalid ∷ for_invalid
    ∷ for_invalid ∷ for_invalid ∷ for_big_e ∷ for_invalid ∷ for_global ∷ for_big_h ∷ for_invalid
    ∷ for_invalid ∷ for_invalid ∷ for_invalid ∷ for_invalid ∷ for_invalid ∷ for_invalid ∷ for_big_p
    ∷ for_q ∷ for_invalid ∷ for_invalid ∷ for_invalid ∷ for_invalid ∷ for_global ∷ for_w
    ∷ for_invalid ∷ for_invalid ∷ for_big_z ∷ for_backward ∷ for_invalid ∷ for_forward ∷ for_invalid
    ∷ for_invalid ∷ for_invalid ∷ for_a ∷ for_invalid ∷ for_c ∷ for_d ∷ for_e ∷ for_f ∷ for_global
    ∷ for_h ∷ for_i ∷ for_j ∷ for_k ∷ for_l ∷ for_m ∷ for_n ∷ for_invalid ∷ for_p ∷ for_q ∷ for_r
    ∷ for_s ∷ for_t ∷ for_u ∷ for_global ∷ for_w ∷ for_invalid ∷ for_invalid ∷ for_z ∷ for_invalid
    ∷ []

abbrev pub ed_key_first : ℕ
ed_key_first = 60

-- The second `switch`. A byte from 128 on is negative as a `char`, and so below ED_KEY_FIRST. The
-- mask 0x3f is a remainder by 64.
unfoldable pub handler : ℕ → Handler
handler c =
    if c == 10
    then for_newline
    else if c == b'!'
    then for_shell
    else if c == b'#'
    then for_comment
    else if leb ed_key_first c && ltb c 128
    then get_or ed_cmd ((c - ed_key_first) % 64) for_invalid
    else for_invalid

-- What malloc returns for a command: memory for undo nodes, and line nodes.
pub record Supply : Type 0 where
  pub m₁ : Bool
  pub m₂ : Bool
  pub fresh : List Ptr

-- What a command writes to the standard output, if the model has it, and what it returns.
pub data Answer : Type 0 where
  replies : Reply → Answer
  prints : ℕ → Reply → Answer

abbrev pub reply : Reply → Editor → CmdStatus Answer
reply r e = ok (replies r) e

-- `return 0`
abbrev pub no_request : Reply
no_request = request (record { prnt = false; list = false; nmbr = false })

-- The handler is called with the input behind its character `c`. `other` stands for the handlers
-- that are not modelled.
unfoldable pub run_handler :
    Supply → (Handler → Editor → CmdStatus Answer) → Handler → ℕ → Editor → CmdStatus Answer
run_handler s other for_d c e = d_cmd s.m₁ e >>= reply
run_handler s other for_k c e = k_cmd e >>= reply
run_handler s other for_m c e = m_cmd s.m₁ s.m₂ e >>= reply
run_handler s other for_t c e = t_cmd s.m₁ s.fresh e >>= reply
run_handler s other for_u c e = u_cmd e >>= reply
run_handler s other for_q c e = q_cmd c e >>= reply
run_handler s other for_big_p c e = P_cmd e >>= reply
run_handler s other for_address c e = address_cmd e >>= λ r. ok (prints r.0 r.1)
run_handler s other for_comment c e = comment_cmd e >>= λ _. reply no_request
run_handler s other for_invalid c e = invalid_cmd e
run_handler s other h c e = other h e

-- exec_command
unfoldable pub exec_command :
    Supply → (Handler → Editor → CmdStatus Answer) → Editor → CmdStatus Answer
unfolding handler run_handler
exec_command s other e =
    let input = skip_whitespace e.input in
    let c = char input in
    let e₁ = record e {
      dio_f = record { prnt = false; list = false; nmbr = false };
      input = advance input;
    } in
    if ((c == b'm') || (c == b't')) && e.options.traditional
    then invalid_cmd e₁
    else run_handler s other (handler c) c e₁

-- `address_range` and `exec_command`, as the main loop calls them on a line of input.
unfoldable pub one_command :
    Supply → (Handler → Editor → CmdStatus Answer) → Editor → CmdStatus Answer
unfolding exec_command
one_command s other e =
    elim (address_range (address_env e) (record { input = e.input; dot = pos (dot e) })) [
      | Address.out_of_fuel ↦ out_of_fuel
      | Address.err m p ↦ err (of_address m) (at_parse e p)
      | Address.ok r p ↦ exec_command s other (record (at_parse e p) {
        region = record { start = pos_part r.start; end = pos_part r.end; addrs = r.addrs };
      })
    ]
