-- ===== src/Address/Consume.antt =====
-- The functions that `address_range` (src/parse.c) calls take characters from the command buffer.
use ed.Common.{
  ℕ, zero, suc, ◌+◌, ◌-◌, ◌*◌, ◌≤◌, ◌<◌, ◌≡◌, ◌≢◌, refl, true, not, ◌&&◌, inl, inr, List, [], ◌∷◌,
  arith, length, ◌==◌, Bool-cases,
}
use ed.Common.Int.{ℤ, pos, negsuc, ◌+ℤ◌, ◌-ℤ◌}
use ed.Address.{
  Parse, Result, ok, err, out_of_fuel, ◌>>=◌, char, advance, isdigit, isspace, skip_whitespace,
  digits, strtoll, off_t,
}
use ed.Address.Offset.{offset, Branch, branch, offset_round, offset_loop, address_offset}

-- The code returns, and where it succeeds `P` holds.
abbrev pub Returns : {A : Type 0} → Result A → (A → Parse → Type 0) → Type 0
Returns (ok a p) P = P a p
Returns (err e p) P = Unit
Returns out_of_fuel P = ⊥

pub bind :
    {A B : Type 0} (P : A → Parse → Type 0) (Q : B → Parse → Type 0) (r : Result A)
    (k : A → Parse → Result B)
    → Returns r P
    → ((a : A) (p : Parse) → P a p → Returns (k a p) Q)
    → Returns (r >>= k) Q
bind P Q (ok a p) k h f = f a p h
bind P Q (err e p) k h f = tt
bind P Q out_of_fuel k h f = absurd h

pub mono :
    {A : Type 0} (P Q : A → Parse → Type 0) (r : Result A)
    → Returns r P
    → ((a : A) (p : Parse) → P a p → Q a p)
    → Returns r Q
mono P Q (ok a p) h f = f a p h
mono P Q (err e p) h f = tt
mono P Q out_of_fuel h f = h

-- The command buffer left is no longer than `n` characters.
abbrev pub Left : {A : Type 0} → ℕ → A → Parse → Type 0
Left n a p = length p.input ≤ n

pub weaken :
    {A : Type 0} (m n : ℕ) → m ≤ n → (r : Result A) → Returns r (Left m) → Returns r (Left n)
weaken m n h r k = mono (Left m) (Left n) r k (λ a p l. omega arith)

pub length-skip_whitespace : (s : List ℕ) → length (skip_whitespace s) ≤ length s
unfolding skip_whitespace
length-skip_whitespace [] = omega arith
length-skip_whitespace (c ∷ s) = ground (arith, length-skip_whitespace s)

pub length-digits : (n : ℕ) (s : List ℕ) → length (digits n s).1 ≤ length s
unfolding digits
length-digits n [] = omega arith
length-digits n (c ∷ s) = ground (arith, length-digits (n * 10 + (c - b'0')) s)

pub length-digits_lt :
    (n acc : ℕ) (s : List ℕ)
    → isdigit (char s) ≡ true
    → length s ≤ suc n
    → length (digits acc s).1 ≤ n
unfolding digits
length-digits_lt n acc [] d h = cc
length-digits_lt n acc (c ∷ s) d h = ground (arith, length-digits (acc * 10 + (c - b'0')) s)

pub length-advance : (s : List ℕ) → length (advance s) ≤ length s
length-advance [] = omega arith
length-advance (c ∷ s) = omega arith

off_t-Left : (n : ℕ) (a : ℤ) (p : Parse) → length p.input ≤ n → Returns (off_t a p) (Left n)
off_t-Left n (pos m) p h = ground arith
off_t-Left n (negsuc m) p h = ground arith

pub strtoll-Left : (n : ℕ) (p : Parse) → length p.input ≤ n → Returns (strtoll p) (Left n)
unfolding strtoll
strtoll-Left n p h = ground (arith, length-digits 0 p.input)

-- A digit is read.
strtoll-less :
    (n : ℕ) (p : Parse)
    → isdigit (char p.input) ≡ true
    → length p.input ≤ suc n
    → Returns (strtoll p) (Left n)
unfolding strtoll
strtoll-less n p d h = ground (arith, length-digits_lt n 0 p.input d h)

offset-Left : (n : ℕ) (p : Parse) → length p.input ≤ n → Returns (offset p) (Left n)
unfolding offset
offset-Left n p h = ground (arith, strtoll-Left n p)

branch-isdigit : (p : Parse) → branch (char p.input) ≡ Branch.number → isdigit (char p.input) ≡ true
unfolding branch
branch-isdigit p e = ground arith

branch-plus : (p : Parse) → branch (char p.input) ≡ Branch.plus → char p.input ≢ 0
unfolding branch
branch-plus p e = ground arith

branch-minus : (p : Parse) → branch (char p.input) ≡ Branch.minus → char p.input ≢ 0
unfolding branch
branch-minus p e = ground arith

branch-blank :
    (p : Parse)
    → branch (char p.input) ≡ Branch.blank
    → (isspace (char p.input) && not (char p.input == 10)) ≡ true
unfolding branch
branch-blank p e = ground arith

pub advance_lt : (n : ℕ) (s : List ℕ) → char s ≢ 0 → length s ≤ suc n → length (advance s) ≤ n
advance_lt n [] c h = absurd (c refl)
advance_lt n (x ∷ s) c h = omega arith

advance-less :
    (n : ℕ) (p : Parse) → char p.input ≢ 0 → length p.input ≤ suc n → length (advance p.input) ≤ n
advance-less n p = advance_lt n p.input

skip_lt :
    (n : ℕ) (s : List ℕ)
    → (isspace (char s) && not (char s == 10)) ≡ true
    → length s ≤ suc n
    → length (skip_whitespace s) ≤ n
unfolding skip_whitespace
skip_lt n [] e h = cc
skip_lt n (c ∷ s) e h = rw e (omega (arith, length-skip_whitespace s))

-- A round that is not the last takes a character at least.
round-Left :
    (n : ℕ) (b : Branch) (addr : ℤ) (p : Parse)
    → branch (char p.input) ≡ b
    → b ≢ Branch.other
    → length p.input ≤ suc n
    → Returns (offset_round b addr p) (Left n)
unfolding offset_round
round-Left n Branch.number addr p e ne h =
    bind (Left n) (Left n) (strtoll p) _ (strtoll-less n p (branch-isdigit p e) h)
      λ m q l. off_t-Left n (addr +ℤ pos m) q l
round-Left n Branch.plus addr p e ne h =
    bind (Left n) (Left n) (offset (record p { input = advance p.input })) _
      (offset-Left n (record p { input = advance p.input }) (advance-less n p (branch-plus p e) h))
      λ m q l. off_t-Left n (addr +ℤ pos m) q l
round-Left n Branch.minus addr p e ne h =
    bind (Left n) (Left n) (offset (record p { input = advance p.input })) _
      (offset-Left n (record p { input = advance p.input }) (advance-less n p (branch-minus p e) h))
      λ m q l. off_t-Left n (addr -ℤ pos m) q l
round-Left n Branch.blank addr p e ne h =
    let q : Parse = record p { input = skip_whitespace p.input } in
    let l = skip_lt n p.input (branch-blank p e) h in
    elim (Bool-cases (isdigit (char (skip_whitespace p.input)))) [
      | inl d ↦ rw d (
          bind (Left n) (Left n) (strtoll q) _ (strtoll-Left n q l)
            λ m r k. off_t-Left n (addr +ℤ pos m) r k)
      | inr d ↦ rw d l
    ]
round-Left n Branch.other addr p e ne h = absurd (ne refl)

branch-pos : (s : List ℕ) → branch (char s) ≢ Branch.other → 0 < length s
unfolding branch
branch-pos [] ne = absurd (ne refl)
branch-pos (c ∷ s) ne = omega arith

-- A round and what follows it, where what follows leaves no more than `m` characters.
offset_step :
    (n m fuel : ℕ) (addr : ℤ) (p : Parse) (b : Branch)
    → branch (char p.input) ≡ b
    → length p.input ≤ suc n
    → (b ≡ Branch.other → length p.input ≤ m)
    → ((addr' : ℤ) (q : Parse)
        → length q.input ≤ n
        → 0 < length p.input
        → Returns (offset_loop fuel addr' q) (Left m))
    → Returns
        (elim b [
          | Branch.other ↦ ok addr p
          | b ↦ offset_round b addr p >>= λ addr' q. offset_loop fuel addr' q
        ])
        (Left m)
offset_step n m fuel addr p Branch.other e h o ih = o refl
offset_step n m fuel addr p Branch.number e h o ih =
    bind (Left n) _ _ _ (round-Left n Branch.number addr p e (λ z. cc) h)
      λ a q l. ih a q l (branch-pos p.input (rw e (λ z. cc)))
offset_step n m fuel addr p Branch.plus e h o ih =
    bind (Left n) _ _ _ (round-Left n Branch.plus addr p e (λ z. cc) h)
      λ a q l. ih a q l (branch-pos p.input (rw e (λ z. cc)))
offset_step n m fuel addr p Branch.minus e h o ih =
    bind (Left n) _ _ _ (round-Left n Branch.minus addr p e (λ z. cc) h)
      λ a q l. ih a q l (branch-pos p.input (rw e (λ z. cc)))
offset_step n m fuel addr p Branch.blank e h o ih =
    bind (Left n) _ _ _ (round-Left n Branch.blank addr p e (λ z. cc) h)
      λ a q l. ih a q l (branch-pos p.input (rw e (λ z. cc)))

offset_loop-Left :
    (fuel : ℕ) (addr : ℤ) (p : Parse)
    → length p.input < fuel
    → Returns (offset_loop fuel addr p) (Left (length p.input))
unfolding offset_loop
offset_loop-Left zero addr p h = absurd (omega arith)
offset_loop-Left (suc fuel) addr p h =
    offset_step (length p.input - 1) (length p.input) fuel addr p (branch (char p.input)) refl
      (omega arith) (λ o. omega arith)
      λ a q l pos.
        weaken (length q.input) (length p.input) (omega arith) _
          (offset_loop-Left fuel a q (omega arith))

-- `address_offset` returns, within the fuel that it is given.
pub address_offset-Left :
    (addr : ℤ) (p : Parse) → Returns (address_offset addr p) (Left (length p.input))
unfolding address_offset
address_offset-Left addr p = offset_loop-Left (suc (length p.input)) addr p (omega arith)

-- At an offset, a character at least is taken.
pub address_offset-less :
    (n : ℕ) (addr : ℤ) (p : Parse)
    → branch (char p.input) ≢ Branch.other
    → length p.input ≤ suc n
    → Returns (address_offset addr p) (Left n)
unfolding address_offset offset_loop
address_offset-less n addr p ne h =
    offset_step (length p.input - 1) n (length p.input) addr p (branch (char p.input)) refl
      (omega arith) (λ o. absurd (ne o))
      λ a q l pos.
        weaken (length q.input) n (omega arith) _
          (offset_loop-Left (length p.input) a q (omega arith))
