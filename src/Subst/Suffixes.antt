-- ===== src/Subst/Suffixes.antt =====
-- What `resubstitute` (src/subst.c) accepts.
use ed.Common.{ℕ, ◌≤◌, List, [], ◌∷◌, ◌≡◌, Bool, false, length, true, ◌++◌}
use ed.Address.{Parse, char}
use ed.Subst.Replace.{Modifiers}
use ed.Subst.Letters.{given}
use ed.Subst.Spelled.{Spelled}
use ed.Subst.Again.{Short, Resubstituted, full, repeated, unknown_suffix, Suffix, suffix_of}

-- Where `g` is not given, the modifiers that belong to it are the same.
Keeps : Short → Short → Type 0
Keeps t t' =
    t'.g_f ≡ false
    → (t.g_f ≡ false)
      × (t'.modifiers.gsub ≡ t.modifiers.gsub)
      × (t'.modifiers.s_mod ≡ t.modifiers.s_mod)
      × (t'.modifiers.smlr ≡ t.modifiers.smlr)

-- The results of the loop.
Ends : Short → Resubstituted → Parse → Type 0
Ends t (full m) q = ⊥
Ends t (repeated t') q = (char q.input ≡ 10) × Keeps t t'
Ends t unknown_suffix q = suffix_of (char q.input) ≡ Suffix.other

-- A round: at most `n` characters are left.
Taken : ℕ → Short → Short → Parse → Type 0
Taken n t t' q = (length q.input ≤ n) × Keeps t t'

-- The characters of SGPR_CHARS, with the NUL that ends the string
abbrev pub sgpr_chars : List ℕ
sgpr_chars =
    10 ∷ b'$' ∷ b'+' ∷ b'-' ∷ b'g' ∷ b'p' ∷ b'r' ∷ b'0' ∷ b'1' ∷ b'2' ∷ b'3' ∷ b'4' ∷ b'5' ∷ b'6'
    ∷ b'7' ∷ b'8' ∷ b'9' ∷ 0 ∷ []

-- What the loop begins with.
abbrev pub unset : Modifiers → Short
unset m = record { modifiers = m; tgsg = false; tgsp = false; tgsr = false; g_f = false }

-- A command is of the short form.
pub IsShort : Bool → Parse → Type 0
IsShort strict p = (strict ≡ false) × (given (char p.input) sgpr_chars ≡ true)

-- The results of `resubstitute`, on the command buffer `p`.
pub Resubstitutes : Bool → Modifiers → Parse → Resubstituted → Parse → Type 0
Resubstitutes strict m p (full m') q = (m' ≡ m) × (q ≡ p) × (¬ IsShort strict p)
Resubstitutes strict m p (repeated t) q =
    IsShort strict p
    × (char q.input ≡ 10)
    × Spelled (unset m) p.input t q.input
    × (t.g_f ≡ false
        → (t.modifiers.gsub ≡ m.gsub) × (t.modifiers.s_mod ≡ m.s_mod) × (t.modifiers.smlr ≡ m.smlr))
Resubstitutes strict m p unknown_suffix q =
    IsShort strict p
    × (suffix_of (char q.input) ≡ Suffix.other)
    × ((u : List ℕ) × (p.input ≡ u ++ q.input) × (given 10 u ≡ false))
