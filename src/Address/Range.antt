-- ===== src/Address/Range.antt =====
-- `line_address`, `next_address` and `address_range` (src/parse.c).
use ed.Common.{
  ℕ, zero, suc, ◌+◌, Bool, not, ◌||◌, Option, none, some, List, length, ltb, ◌==◌, if◌then◌else◌,
}
use ed.Common.Int.{ℤ, pos, negsuc, pos_part, ◌==ℤ◌}
use ed.Address.{
  Env, Parse, no_match, bad_pattern, bad_mark, Result, ok, err, out_of_fuel, ◌>>=◌, char, advance,
  isdigit, skip_whitespace, strtoll, is_delimiter, check_address_bounds,
}
use ed.Address.Offset.{address_offset}
use ed.Address.Search.{get_matching_node_address}

-- What follows the bounds check in the cases '/' and '?' of `line_address`: `found` and `rest` are
-- the pattern and the command buffer behind it.
unfoldable pub searched : Env → ℕ → ℤ → List ℕ → Option (ℕ → Bool) → Result ℤ
searched env c addr rest none = err bad_pattern (record { input = rest; dot = addr })
searched env c addr rest (some matches) =
    let q : Parse = record { input = rest; dot = addr } in
    elim (get_matching_node_address matches (c == b'/') env.lines (pos_part addr)) [
      | none ↦ out_of_fuel
      | some none ↦ err no_match q
      | some (some n) ↦ ok (pos n) (if char rest == c then record q { input = advance rest } else q)
    ]

unfoldable pub search_address : Env → ℕ → ℤ → Parse → Result ℤ
unfolding searched
search_address env c addr p = check_address_bounds env addr p >>= λ _ _.
    let (found, rest) = env.search c p.input in searched env c addr rest found

-- The case '\''.
unfoldable pub marked_address : Env → Parse → Result ℤ
marked_address env p =
    let s = advance p.input in
    let q : Parse = record p { input = advance s } in
    elim (env.marked (char s)) [ none ↦ err bad_mark q | some n ↦ ok (pos n) q ]

unfoldable pub line_address : Env → ℤ → Parse → Result ℤ
unfolding search_address marked_address
line_address env addr p =
    let c = char p.input in
    if isdigit c
    then (strtoll p >>= λ n. ok (pos n))
    else if c == b'$'
    then ok (pos env.lines) (record p { input = advance p.input })
    else if c == b'.'
    then ok addr (record p { input = advance p.input })
    else if (c == b'/') || (c == b'?')
    then search_address env c addr p
    else if c == 39
    then marked_address env p
    else ok addr p

-- The address, and whether there was one: the status 1 or 0.
unfoldable pub next_address : Env → ℤ → Parse → Result (ℤ × Bool)
unfolding line_address
next_address env addr p =
    let input_prev = skip_whitespace p.input in
    line_address env addr (record p { input = input_prev }) >>= λ addr' q.
    address_offset addr' q >>= λ addr'' r. ok (addr'', not (length r.input == length input_prev)) r

-- The local variables of `address_range`; `addrs` is that of the region.
pub record Vars : Type 0 where
  pub first : ℤ
  pub second : ℤ
  pub dot : ℤ
  pub addrs : ℕ

-- The body of the `do` loop up to `ed->input += have_dc`, at a delimiter `c`.
unfoldable pub delimiter : Env → ℕ → Vars → Vars
delimiter env c v =
    if ltb 0 v.addrs
    then if c == b';'
      then record v { first = v.second; dot = v.second }
      else record v { first = v.second }
    else record v { first = if c == b';' then v.dot else pos 1; second = pos env.lines; addrs = 2 }

-- One round of the `do` loop.
unfoldable pub range_round : Env → Vars → Parse → Result Vars
unfolding delimiter
range_round env v p =
    let c = char p.input in
    let have_dc = is_delimiter c in
    let w : Vars = if have_dc then delimiter env c v else v in
    next_address env w.dot (record p { input = if have_dc then advance p.input else p.input })
    >>= λ a q. ok (if a.1 then record w { second = a.0; addrs = w.addrs + 1 } else w) q

-- The `do` loop with `fuel` rounds left. Each round but the first takes a delimiter, so two rounds
-- more than there are characters are enough.
unfoldable pub range_loop : Env → ℕ → Vars → Parse → Result Vars
unfolding range_round
range_loop env zero v p = out_of_fuel
range_loop env (suc fuel) v p = range_round env v p >>= λ w q.
    let again = range_loop env fuel w q in if is_delimiter (char q.input) then again else ok w q

-- "Allow one-line rollover of addresses."
unfoldable pub rollover : Env → ℤ → ℤ
rollover env a =
    if env.traditional
    then a
    else if a ==ℤ negsuc 0
    then pos env.lines
    else if a ==ℤ pos (env.lines + 1)
    then pos 0
    else a

pub record Region : Type 0 where
  pub start : ℤ
  pub end : ℤ
  pub addrs : ℕ

-- What follows the loop: the region, with the number of addresses returned.
unfoldable pub close_range : Env → Vars → Parse → Result Region
unfolding rollover
close_range env v p =
    let first = rollover env (if ltb v.addrs 2 then v.second else v.first) in
    let second = rollover env v.second in
    check_address_bounds env first p >>= λ _ _. check_address_bounds env second p >>= λ _ _.
    check_address_bounds env v.dot p >>= λ _ _.
    ok (record { start = first; end = second; addrs = if ltb v.addrs 2 then v.addrs else 2 })
      (record p { dot = v.dot })

unfoldable pub address_range : Env → Parse → Result Region
unfolding range_loop close_range next_address
address_range env p =
    let s = skip_whitespace p.input in
    range_loop env (suc (suc (length s)))
      (record { first = p.dot; second = p.dot; dot = p.dot; addrs = 0 }) (record p { input = s })
    >>= λ v q. close_range env v q
