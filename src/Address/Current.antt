-- ===== src/Address/Current.antt =====
-- The current line while `address_range` (src/parse.c) reads addresses, errors included.
use ed.Common.{
  ℕ, zero, suc, Bool, Option, none, some, List, inl, inr, Bool-cases, arith, length, leb, leb→le,
}
use ed.Common.Int.{ℤ, pos, negsuc, ◌+ℤ◌, ◌-ℤ◌}
use ed.Address.{
  Env, Parse, Result, ok, err, out_of_fuel, ◌>>=◌, char, advance, skip_whitespace, strtoll, off_t,
  check_address_bounds,
}
use ed.Address.Offset.{offset, Branch, branch, offset_round, offset_loop, address_offset}
use ed.Address.Range.{
  searched, search_address, marked_address, line_address, next_address, Vars, range_round,
  range_loop, close_range, address_range,
}
use ed.Address.Bounds.{InBuffer}

-- Where the code returns, successful or not, the current line lies in the buffer.
abbrev pub Stays : {A : Type 0} → Env → Result A → Type 0
Stays env (ok a p) = InBuffer env p.dot
Stays env (err e p) = InBuffer env p.dot
Stays env out_of_fuel = Unit

module _ (env : Env) where
  bind-Stays :
      {A B : Type 0} (r : Result A) (k : A → Parse → Result B)
      → Stays env r
      → ((a : A) (p : Parse) → InBuffer env p.dot → Stays env (k a p))
      → Stays env (r >>= k)
  bind-Stays (ok a p) k h f = f a p h
  bind-Stays (err e p) k h f = h
  bind-Stays out_of_fuel k h f = tt

  strtoll-Stays : (p : Parse) → InBuffer env p.dot → Stays env (strtoll p)
  unfolding strtoll
  strtoll-Stays p d = ground (arith, d)

  off_t-Stays : (n : ℤ) (p : Parse) → InBuffer env p.dot → Stays env (off_t n p)
  off_t-Stays (pos n) p d = ground (arith, d)
  off_t-Stays (negsuc n) p d = ground (arith, d)

  offset-Stays : (p : Parse) → InBuffer env p.dot → Stays env (offset p)
  unfolding offset
  offset-Stays p d = ground (arith, d, strtoll-Stays p d)

  offset_round-Stays :
      (b : Branch) (addr : ℤ) (p : Parse) → InBuffer env p.dot → Stays env (offset_round b addr p)
  unfolding offset_round
  offset_round-Stays Branch.number addr p d =
      bind-Stays (strtoll p) _ (strtoll-Stays p d) λ n q e. off_t-Stays (addr +ℤ pos n) q e
  offset_round-Stays Branch.plus addr p d =
      bind-Stays (offset (record p { input = advance p.input })) _
        (offset-Stays (record p { input = advance p.input }) d)
        λ n q e. off_t-Stays (addr +ℤ pos n) q e
  offset_round-Stays Branch.minus addr p d =
      bind-Stays (offset (record p { input = advance p.input })) _
        (offset-Stays (record p { input = advance p.input }) d)
        λ n q e. off_t-Stays (addr -ℤ pos n) q e
  offset_round-Stays Branch.blank addr p d =
      let q : Parse = record p { input = skip_whitespace p.input } in
      let number =
        bind-Stays (strtoll q) (λ n. off_t (addr +ℤ pos n)) (strtoll-Stays q d)
          λ n r e. off_t-Stays (addr +ℤ pos n) r e in
      ground (arith, d, number)
  offset_round-Stays Branch.other addr p d = d

  offset_branch-Stays :
      (b : Branch) (fuel : ℕ) (addr : ℤ) (p : Parse)
      → InBuffer env p.dot
      → ((a : ℤ) (q : Parse) → InBuffer env q.dot → Stays env (offset_loop fuel a q))
      → Stays env (elim b [
        | Branch.other ↦ ok addr p
        | b ↦ offset_round b addr p >>= λ addr' q. offset_loop fuel addr' q
      ])
  offset_branch-Stays Branch.number fuel addr p d f =
      bind-Stays _ _ (offset_round-Stays Branch.number addr p d) f
  offset_branch-Stays Branch.plus fuel addr p d f =
      bind-Stays _ _ (offset_round-Stays Branch.plus addr p d) f
  offset_branch-Stays Branch.minus fuel addr p d f =
      bind-Stays _ _ (offset_round-Stays Branch.minus addr p d) f
  offset_branch-Stays Branch.blank fuel addr p d f =
      bind-Stays _ _ (offset_round-Stays Branch.blank addr p d) f
  offset_branch-Stays Branch.other fuel addr p d f = d

  offset_loop-Stays :
      (fuel : ℕ) (addr : ℤ) (p : Parse) → InBuffer env p.dot → Stays env (offset_loop fuel addr p)
  unfolding offset_loop
  offset_loop-Stays zero addr p d = tt
  offset_loop-Stays (suc fuel) addr p d =
      offset_branch-Stays (branch (char p.input)) fuel addr p d
        λ a q e. offset_loop-Stays fuel a q e

  searched-Stays :
      (c : ℕ) (addr : ℤ) (rest : List ℕ) (found : Option (ℕ → Bool))
      → InBuffer env addr
      → Stays env (searched env c addr rest found)
  unfolding searched
  searched-Stays c addr rest none d = d
  searched-Stays c addr rest (some matches) d = ground (arith, d)

  search_address-Stays :
      (c : ℕ) (addr : ℤ) (p : Parse) → InBuffer env p.dot → Stays env (search_address env c addr p)
  unfolding search_address check_address_bounds
  search_address-Stays c (negsuc n) p d = d
  search_address-Stays c (pos n) p d = elim (Bool-cases (leb n env.lines)) [
    | inl e ↦ rw e (
        searched-Stays c (pos n) (env.search c p.input).1 (env.search c p.input).0
          (leb→le n env.lines e))
    | inr e ↦ rw e d
  ]

  marked_address-Stays : (p : Parse) → InBuffer env p.dot → Stays env (marked_address env p)
  unfolding marked_address
  marked_address-Stays p d = ground (arith, d)

  line_address-Stays :
      (addr : ℤ) (p : Parse) → InBuffer env p.dot → Stays env (line_address env addr p)
  unfolding line_address
  line_address-Stays addr p d =
      let number = bind-Stays (strtoll p) (λ n. ok (pos n)) (strtoll-Stays p d) (λ a q e. e) in
      ground
        (arith, d, number, search_address-Stays (char p.input) addr p d, marked_address-Stays p d)

  pub next_address-Stays :
      (addr : ℤ) (p : Parse) → InBuffer env p.dot → Stays env (next_address env addr p)
  unfolding next_address address_offset
  next_address-Stays addr p d =
      bind-Stays _ _ (line_address-Stays addr (record p { input = skip_whitespace p.input }) d)
        λ a q e. bind-Stays _ _ (offset_loop-Stays (suc (length q.input)) a q e) λ b r e'. e'

  range_round-Stays : (w : Vars) (p : Parse) → InBuffer env p.dot → Stays env (range_round env w p)
  unfolding range_round
  range_round-Stays w p d = bind-Stays _ _ (next_address-Stays _ _ d) λ a q e. e

  range_loop-Stays :
      (fuel : ℕ) (w : Vars) (p : Parse) → InBuffer env p.dot → Stays env (range_loop env fuel w p)
  unfolding range_loop
  range_loop-Stays zero w p d = tt
  range_loop-Stays (suc fuel) w p d =
      bind-Stays _ _ (range_round-Stays w p d)
        λ x q e. ground (arith, e, range_loop-Stays fuel x q e)

  bind_check :
      {B : Type 0} (a : ℤ) (p : Parse) (k : Unit {0} → Parse → Result B)
      → InBuffer env p.dot
      → (InBuffer env a → Stays env (k tt p))
      → Stays env (check_address_bounds env a p >>= k)
  unfolding check_address_bounds
  bind_check (pos n) p k d f = elim (Bool-cases (leb n env.lines)) [
    | inl e ↦ rw e (f (leb→le n env.lines e))
    | inr e ↦ rw e d
  ]
  bind_check (negsuc n) p k d f = d

  close_range-Stays : (w : Vars) (p : Parse) → InBuffer env p.dot → Stays env (close_range env w p)
  unfolding close_range
  close_range-Stays w p d =
      bind_check _ p _ d λ _. bind_check _ p _ d λ _. bind_check w.dot p _ d λ e. e

  -- Whether the addresses are accepted or not, the current line stays in the buffer: a search
  -- within a refused address moves it to a line of the buffer only.
  pub address_range-Stays : (p : Parse) → InBuffer env p.dot → Stays env (address_range env p)
  unfolding address_range
  address_range-Stays p d =
      bind-Stays _ _
        (range_loop-Stays (suc (suc (length (skip_whitespace p.input))))
          (record { first = p.dot; second = p.dot; dot = p.dot; addrs = 0 })
          (record p { input = skip_whitespace p.input }) d)
        λ v q e. close_range-Stays v q e
