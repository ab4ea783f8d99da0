-- ===== src/Subst/Offsets.antt =====
-- The offsets of the short form of a substitution (`address_offset` of src/parse.c) hold no letter.
use ed.Common.{ℕ, zero, suc, ◌≡◌, ◌⊎◌, refl, false, inl, inr, List, arith, Bool-cases, length}
use ed.Common.Int.{ℤ, pos, negsuc, ◌+ℤ◌, ◌-ℤ◌}
use ed.Address.{
  Parse, Result, ok, err, out_of_fuel, ◌>>=◌, char, advance, isdigit, skip_whitespace, strtoll,
  off_t,
}
use ed.Address.Offset.{offset, Branch, branch, offset_round, offset_loop, address_offset}
use ed.Subst.Letters.{
  Yields, then_yields, given, letters, Skips, Skips-refl, Skips-trans, Skips-advance, digits-Skips,
  skip_whitespace-Skips,
}

-- No letter is taken from the command buffer `s`.
abbrev pub From : {A : Type 0} → List ℕ → A → Parse → Type 0
From s a q = Skips s q.input

off_t-From : (s : List ℕ) (a : ℤ) (p : Parse) → Skips s p.input → Yields (off_t a p) (From s)
off_t-From s (pos m) p h = ground (arith, h)
off_t-From s (negsuc m) p h = ground (arith, h)

strtoll-From : (s : List ℕ) (p : Parse) → Skips s p.input → Yields (strtoll p) (From s)
unfolding strtoll
strtoll-From s p h = let t = Skips-trans s p.input _ h (digits-Skips 0 p.input) in ground (arith, t)

offset-From : (s : List ℕ) (p : Parse) → Skips s p.input → Yields (offset p) (From s)
unfolding offset
offset-From s p h = elim (Bool-cases (isdigit (char p.input))) [
  | inl d ↦ rw d (strtoll-From s p h)
  | inr d ↦ rw d h
]

unlettered-branch :
    (c : ℕ) (b : Branch)
    → branch c ≡ b
    → (b ≡ Branch.plus) ⊎ (b ≡ Branch.minus)
    → given c letters ≡ false
unfolding branch given
unlettered-branch c Branch.plus e h = ground (arith, e)
unlettered-branch c Branch.minus e h = ground (arith, e)
unlettered-branch c Branch.number e h = ground (arith, h)
unlettered-branch c Branch.blank e h = ground (arith, h)
unlettered-branch c Branch.other e h = ground (arith, h)

round-From :
    (b : Branch) (addr : ℤ) (p : Parse)
    → branch (char p.input) ≡ b
    → Yields (offset_round b addr p) (From p.input)
unfolding offset_round
round-From Branch.number addr p e =
    then_yields (From p.input) (From p.input) (strtoll p) _
      (strtoll-From p.input p (Skips-refl p.input)) λ m q l. off_t-From p.input (addr +ℤ pos m) q l
round-From Branch.plus addr p e =
    let q : Parse = record p { input = advance p.input } in
    then_yields (From p.input) (From p.input) (offset q) _
      (offset-From p.input q
        (Skips-advance p.input (unlettered-branch (char p.input) Branch.plus e (inl refl))))
      λ m q l. off_t-From p.input (addr +ℤ pos m) q l
round-From Branch.minus addr p e =
    let q : Parse = record p { input = advance p.input } in
    then_yields (From p.input) (From p.input) (offset q) _
      (offset-From p.input q
        (Skips-advance p.input (unlettered-branch (char p.input) Branch.minus e (inr refl))))
      λ m q l. off_t-From p.input (addr -ℤ pos m) q l
round-From Branch.blank addr p e =
    let q : Parse = record p { input = skip_whitespace p.input } in
    let k = skip_whitespace-Skips p.input in
    elim (Bool-cases (isdigit (char (skip_whitespace p.input)))) [
      | inl d ↦ rw d (
          then_yields (From p.input) (From p.input) (strtoll q) _ (strtoll-From p.input q k)
            λ m r l. off_t-From p.input (addr +ℤ pos m) r l)
      | inr d ↦ rw d k
    ]
round-From Branch.other addr p e = Skips-refl p.input

-- Nor is one taken from `s` on.
pub further :
    {A : Type 0} (s t : List ℕ) (r : Result A) → Skips s t → Yields r (From t) → Yields r (From s)
further s t (ok a p) k y = Skips-trans s t p.input k y
further s t (err e p) k y = tt
further s t out_of_fuel k y = tt

offset_step :
    (fuel : ℕ) (addr : ℤ) (p : Parse) (b : Branch)
    → branch (char p.input) ≡ b
    → ((a : ℤ) (q : Parse) → Yields (offset_loop fuel a q) (From q.input))
    → Yields
        (elim b [
          | Branch.other ↦ ok addr p
          | b ↦ offset_round b addr p >>= λ addr' q. offset_loop fuel addr' q
        ])
        (From p.input)
offset_step fuel addr p Branch.other e ih = Skips-refl p.input
offset_step fuel addr p Branch.number e ih =
    then_yields (From p.input) (From p.input) _ _ (round-From Branch.number addr p e)
      λ a q l. further p.input q.input _ l (ih a q)
offset_step fuel addr p Branch.plus e ih =
    then_yields (From p.input) (From p.input) _ _ (round-From Branch.plus addr p e)
      λ a q l. further p.input q.input _ l (ih a q)
offset_step fuel addr p Branch.minus e ih =
    then_yields (From p.input) (From p.input) _ _ (round-From Branch.minus addr p e)
      λ a q l. further p.input q.input _ l (ih a q)
offset_step fuel addr p Branch.blank e ih =
    then_yields (From p.input) (From p.input) _ _ (round-From Branch.blank addr p e)
      λ a q l. further p.input q.input _ l (ih a q)

offset_loop-From :
    (fuel : ℕ) (addr : ℤ) (p : Parse) → Yields (offset_loop fuel addr p) (From p.input)
unfolding offset_loop
offset_loop-From zero addr p = tt
offset_loop-From (suc fuel) addr p =
    offset_step fuel addr p (branch (char p.input)) refl (λ a q. offset_loop-From fuel a q)

pub address_offset-From : (addr : ℤ) (p : Parse) → Yields (address_offset addr p) (From p.input)
unfolding address_offset
address_offset-From addr p = offset_loop-From (suc (length p.input)) addr p
