-- ===== src/Address/Offset.antt =====
-- `address_offset` (src/parse.c).
use ed.Common.{ℕ, zero, suc, ◌||◌, length, ◌==◌, if◌then◌else◌}
use ed.Common.Int.{ℤ, pos, ◌+ℤ◌, ◌-ℤ◌}
use ed.Address.{
  Parse, Result, ok, out_of_fuel, ◌>>=◌, char, advance, isdigit, skip_whitespace, strtoll, off_t,
}

-- `n` of one round: the number that stands at the command buffer, or 1.
unfoldable pub offset : Parse → Result ℕ
offset p = if isdigit (char p.input) then strtoll p else ok 1 p

-- The branches of the `switch`.
pub data Branch : Type 0 where
  number plus minus blank other : Branch

unfoldable pub branch : ℕ → Branch
branch c =
    if isdigit c
    then Branch.number
    else if c == b'+'
    then Branch.plus
    else if (c == b'-') || (c == b'^')
    then Branch.minus
    else if (c == 32) || (c == 9)
    then Branch.blank
    else Branch.other

-- One round, at a character that is an offset: the new `*addr`.
unfoldable pub offset_round : Branch → ℤ → Parse → Result ℤ
unfolding offset
offset_round Branch.number addr p = strtoll p >>= λ n. off_t (addr +ℤ pos n)
offset_round Branch.plus addr p =
    offset (record p { input = advance p.input }) >>= λ n. off_t (addr +ℤ pos n)
offset_round Branch.minus addr p =
    offset (record p { input = advance p.input }) >>= λ n. off_t (addr -ℤ pos n)
offset_round Branch.blank addr p =
    let q : Parse = record p { input = skip_whitespace p.input } in
    if isdigit (char q.input) then (strtoll q >>= λ n. off_t (addr +ℤ pos n)) else ok addr q
offset_round Branch.other addr p = ok addr p

-- The `for` loop with `fuel` rounds left. A round takes a character at least.
unfoldable pub offset_loop : ℕ → ℤ → Parse → Result ℤ
unfolding offset_round branch
offset_loop zero addr p = out_of_fuel
offset_loop (suc fuel) addr p = elim (branch (char p.input)) [
  | Branch.other ↦ ok addr p
  | b ↦ offset_round b addr p >>= λ addr' q. offset_loop fuel addr' q
]

unfoldable pub address_offset : ℤ → Parse → Result ℤ
unfolding offset_loop
address_offset addr p = offset_loop (suc (length p.input)) addr p
