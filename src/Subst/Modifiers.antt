-- ===== src/Subst/Modifiers.antt =====
-- The modifiers of a substitution (`substitution_modifiers` of src/subst.c).
use ed.Common.{ℕ, zero, suc, ◌≤◌, ◌≡◌, refl, Bool, true, false, ◌||◌, ◌==◌, if◌then◌else◌, length}
use ed.Common.Int.{ℤ, pos, negsuc}
use ed.Address.{Parse, Result, ok, out_of_fuel, ◌>>=◌, char, advance, isdigit}
use ed.Address.Offset.{address_offset}
use ed.Address.Consume.{Returns, bind, Left}
use ed.Subst.Replace.{Modifiers}

-- The cases of the switch.
pub data Modifier : Type 0 where
  last number global other : Modifier

unfoldable pub modifier : ℕ → Modifier
modifier c =
    if c == b'$'
    then last
    else if (c == b'+') || (c == b'-') || isdigit c
    then number
    else if c == b'g'
    then global
    else other

-- `n <= 0`
abbrev pub is_relative : ℤ → Bool
is_relative (pos n) = n == 0
is_relative (negsuc n) = true

-- A round of the loop that is not the last.
unfoldable pub modifier_round : Modifier → Modifiers → Parse → Result Modifiers
modifier_round Modifier.last m p =
    let q : Parse = record p { input = advance p.input } in
    if m.gsub
    then (address_offset m.s_mod q >>= λ n r. ok (record m { s_mod = n; smlr = true }) r)
    else address_offset m.s_nth q >>= λ n r. ok (record m { s_nth = n; snlr = true }) r
modifier_round Modifier.number m p =
    if m.gsub
    then (address_offset m.s_mod p >>= λ n r. ok (record m { s_mod = n; smlr = is_relative n }) r)
    else address_offset m.s_nth p >>= λ n r.
        ok (record m { s_nth = n; snlr = is_relative n; smlr = false }) r
modifier_round Modifier.global m p =
    ok (record m { gsub = true }) (record p { input = advance p.input })
modifier_round Modifier.other m p = ok m p

-- The loop, for at most so many rounds. A round takes a character at least.
unfoldable pub modifier_loop : ℕ → Modifiers → Parse → Result Modifiers
unfolding modifier modifier_round
modifier_loop zero m p = out_of_fuel
modifier_loop (suc fuel) m p = elim (modifier (char p.input)) [
  | Modifier.other ↦ ok m p
  | k ↦ modifier_round k m p >>= λ m' q. modifier_loop fuel m' q
]

unfoldable pub substitution_modifiers : Modifiers → Parse → Result Modifiers
unfolding modifier_loop
substitution_modifiers m p = modifier_loop (suc (length p.input)) m p

-- What holds of a result: no modifier is left to be read, and `g` is not taken back.
pub Read : Modifiers → Parse → Modifiers → Parse → Type 0
unfolding modifier
Read m p m' q =
    (length q.input ≤ length p.input)
    × (modifier (char q.input) ≡ Modifier.other)
    × (m.gsub ≡ true → m'.gsub ≡ true)

-- A round: at most `n` characters are left.
Taken : ℕ → Modifiers → Modifiers → Parse → Type 0
Taken n m m' q = (length q.input ≤ n) × (m.gsub ≡ true → m'.gsub ≡ true)

-- The offset that a round reads is stored by `store`, after which `K` holds.
pub storing :
    {A : Type 0} (n : ℕ) (K : A → Type 0) (r : Result ℤ) (store : ℤ → A)
    → Returns r (Left n)
    → ((a : ℤ) → K (store a))
    → Returns (r >>= λ a q. ok (store a) q) (λ b q. (length q.input ≤ n) × K b)
storing n K r store h g =
    bind (Left n) (λ b q. (length q.input ≤ n) × K b) r _ h (λ a q l. (l, g a))

pub either :
    {A : Type 0} (b : Bool) (P : A → Parse → Type 0) (r s : Result A)
    → ((b ≡ true) → Returns r P)
    → ((b ≡ false) → Returns s P)
    → Returns (if b then r else s) P
either true P r s h k = h refl
either false P r s h k = k refl
