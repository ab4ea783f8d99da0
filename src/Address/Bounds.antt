-- ===== src/Address/Bounds.antt =====
-- `address_range` (src/parse.c) returns, and what it accepts lies in the buffer.
use ed.Common.{
  ℕ, zero, suc, ◌+◌, ◌≤◌, ◌<◌, ◌≡◌, refl, Bool, true, inl, inr, Option, none, some, List, [], ◌∷◌,
  arith, length, ltb, leb, ◌==◌, if◌then◌else◌, Bool-cases, leb→le,
}
use ed.Common.Int.{ℤ, pos, negsuc}
use ed.Address.{
  Env, Parse, ok, char, advance, skip_whitespace, strtoll, is_delimiter, check_address_bounds,
}
use ed.Address.Consume.{
  Returns, bind, weaken, Left, length-skip_whitespace, length-advance, strtoll-Left,
  address_offset-Left,
}
use ed.Address.Found.{get_matching_node_address-find}
use ed.Address.Range.{
  searched, search_address, marked_address, line_address, next_address, Vars, range_round,
  range_loop, rollover, Region, close_range, address_range,
}

-- `get_compiled_regex` goes forward in the command buffer.
pub record IsEnv (env : Env) : Type 0 where
  pub forward : (c : ℕ) (s : List ℕ) → length (env.search c s).1 ≤ length s

taken_lt :
    (s : List ℕ)
    → is_delimiter (char s) ≡ true
    → length (if is_delimiter (char s) then advance s else s) < length s
taken_lt [] e = cc
taken_lt (c ∷ s) e = rw e (omega arith)

module _ (env : Env) (v : IsEnv env) where
  searched-Left :
      (n c a : ℕ) (rest : List ℕ) (found : Option (ℕ → Bool))
      → a ≤ env.lines
      → length rest ≤ n
      → Returns (searched env c (pos a) rest found) (Left n)
  unfolding searched
  searched-Left n c a rest none l h = tt
  searched-Left n c a rest (some matches) l h =
      ground (
        arith,
        get_matching_node_address-find matches (c == b'/') env.lines a l,
        length-advance rest,
      )

  search_address-Left :
      (c : ℕ) (addr : ℤ) (p : Parse) → Returns (search_address env c addr p) (Left (length p.input))
  unfolding search_address check_address_bounds
  search_address-Left c (negsuc n) p = tt
  search_address-Left c (pos n) p = elim (Bool-cases (leb n env.lines)) [
    | inl e ↦ rw e (
        searched-Left (length p.input) c n (env.search c p.input).1 (env.search c p.input).0
          (leb→le n env.lines e) (v.forward c p.input))
    | inr e ↦ rw e tt
  ]

  marked_address-Left : (p : Parse) → Returns (marked_address env p) (Left (length p.input))
  unfolding marked_address
  marked_address-Left p = ground (arith, length-advance p.input, length-advance (advance p.input))

  line_address-Left :
      (addr : ℤ) (p : Parse) → Returns (line_address env addr p) (Left (length p.input))
  unfolding line_address
  line_address-Left addr p =
      let number =
        bind (Left (length p.input)) (Left (length p.input)) (strtoll p) (λ n. ok (pos n))
          (strtoll-Left (length p.input) p (omega arith)) (λ a q l. l) in
      ground (
        arith,
        number,
        search_address-Left (char p.input) addr p,
        marked_address-Left p,
        length-advance p.input,
      )

  next_address-Left :
      (addr : ℤ) (p : Parse) → Returns (next_address env addr p) (Left (length p.input))
  unfolding next_address
  next_address-Left addr p =
      let s = skip_whitespace p.input in
      weaken (length s) (length p.input) (length-skip_whitespace p.input) _ (
        bind (Left (length s)) (Left (length s)) _ _
          (line_address-Left addr (record p { input = s }))
          λ a q l.
            bind (Left (length q.input)) (Left (length s)) _ _ (address_offset-Left a q)
              λ a' r m. omega arith)

  -- A round takes its delimiter, if there is one.
  abbrev taken : Parse → List ℕ
  taken p = if is_delimiter (char p.input) then advance p.input else p.input

  range_round-Left :
      (w : Vars) (p : Parse) → Returns (range_round env w p) (Left (length (taken p)))
  unfolding range_round
  range_round-Left w p =
      bind (Left (length (taken p))) (Left (length (taken p))) _ _
        (next_address-Left _ (record p { input = taken p })) λ a q l. l

  delimiter-less :
      (p : Parse) → is_delimiter (char p.input) ≡ true → length (taken p) < length p.input
  delimiter-less p e = taken_lt p.input e

  range_loop-Returns :
      (fuel : ℕ) (w : Vars) (p : Parse)
      → length (taken p) + 1 < fuel
      → Returns (range_loop env fuel w p) (λ _ _. Unit {0})
  unfolding range_loop
  range_loop-Returns zero w p h = absurd (omega arith)
  range_loop-Returns (suc fuel) w p h =
      bind (Left (length (taken p))) (λ _ _. Unit {0}) _ _ (range_round-Left w p)
        λ x q l. elim (Bool-cases (is_delimiter (char q.input))) [
          | inl e ↦ rw e (range_loop-Returns fuel x q (omega (arith, delimiter-less q e)))
          | inr e ↦ rw e tt
        ]

-- `addr` is a line of the buffer, or 0.
abbrev pub InBuffer : Env → ℤ → Type 0
InBuffer env (pos n) = n ≤ env.lines
InBuffer env (negsuc n) = ⊥

pub check_address_bounds-InBuffer :
    (env : Env) (a : ℤ) (p : Parse)
    → Returns (check_address_bounds env a p) (λ _ q. InBuffer env a × (q ≡ p))
unfolding check_address_bounds
check_address_bounds-InBuffer env (pos n) p = elim (Bool-cases (leb n env.lines)) [
  | inl e ↦ rw e (leb→le n env.lines e, refl)
  | inr e ↦ rw e tt
]
check_address_bounds-InBuffer env (negsuc n) p = tt

-- What a successful `address_range` has set: the region and the current line lie in the buffer.
abbrev pub Accepted : Env → Region → Parse → Type 0
Accepted env r q = InBuffer env r.start × InBuffer env r.end × InBuffer env q.dot × (r.addrs ≤ 2)

close_range-Accepted :
    (env : Env) (w : Vars) (p : Parse) → Returns (close_range env w p) (Accepted env)
unfolding close_range
close_range-Accepted env w p =
    let first = rollover env (if ltb w.addrs 2 then w.second else w.first) in
    bind (λ _ q. InBuffer env first × (q ≡ p)) (Accepted env) _ _
      (check_address_bounds-InBuffer env first p)
      λ _ _ a.
        bind (λ _ q. InBuffer env (rollover env w.second) × (q ≡ p)) (Accepted env) _ _
          (check_address_bounds-InBuffer env (rollover env w.second) p)
          λ _ _ b.
            bind (λ _ q. InBuffer env w.dot × (q ≡ p)) (Accepted env) _ _
              (check_address_bounds-InBuffer env w.dot p) λ _ _ c. (a.0, b.0, c.0, ground arith)

-- `address_range` returns on every command buffer. Where it succeeds, both ends of the region and
-- the new current line lie between 0 and the last line, and it counts two addresses at most.
pub address_range-Accepted :
    (env : Env) (p : Parse) → IsEnv env → Returns (address_range env p) (Accepted env)
unfolding address_range
address_range-Accepted env p v =
    bind (λ _ _. Unit {0}) (Accepted env) _ _
      (range_loop-Returns env v (suc (suc (length (skip_whitespace p.input))))
        (record { first = p.dot; second = p.dot; dot = p.dot; addrs = 0 })
        (record p { input = skip_whitespace p.input })
        (ground (arith, length-advance (skip_whitespace p.input))))
      λ w q _. close_range-Accepted env w q
