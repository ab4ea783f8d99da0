-- ===== src/Subst/Verbatim.antt =====
-- A replacement text written so that it is taken verbatim (src/subst.c).
use ed.Common.{
  ℕ, ◌+◌, ◌≡◌, ◌≢◌, refl, Bool, true, false, ◌||◌, Option, List, [], ◌∷◌, ◌++◌, arith, length, ◌==◌,
  if◌then◌else◌, ◌≤◌,
}
use ed.Address.{char}
use ed.Subst.{Env, Groups, going, keep}
use ed.Subst.Template.{stack_size, apply_subst_template}
use ed.Subst.Copy.{copied, prefixed, round, template_copy, substitution_template}
use ed.Subst.Literal.{literal, apply_subst_template-literal}

-- The text with a backslash before each `&`, backslash and delimiter.
unfoldable pub quote : ℕ → List ℕ → List ℕ
quote dc [] = []
quote dc (c ∷ cs) =
    let rest = quote dc cs in
    if (c == b'&') || (c == 92) || (c == dc) then 92 ∷ c ∷ rest else c ∷ rest

-- No character is the NUL.
abbrev pub NoNul : List ℕ → Type 0
NoNul [] = Unit
NoNul (c ∷ cs) = (c ≢ 0) × NoNul cs

module _ (grow : ℕ → Bool) (memory : (n : ℕ) → grow n ≡ true) (dc : ℕ) where
  copy_plain :
      (rhs_i c : ℕ) (s : List ℕ)
      → c ≢ dc
      → c ≢ 92
      → char s ≢ 0
      → template_copy grow dc rhs_i (c ∷ s)
        ≡ prefixed (c ∷ []) (template_copy grow dc (rhs_i + 1) s)
  unfolding template_copy round
  copy_plain rhs_i c [] n m z = absurd (z refl)
  copy_plain rhs_i c (d ∷ s) n m z = ground (arith, n, m, z, memory (rhs_i + 2))

  copy_pair :
      (rhs_i : ℕ) (s : List ℕ)
      → dc ≢ 92
      → template_copy grow dc rhs_i (92 ∷ 92 ∷ s)
        ≡ prefixed (92 ∷ 92 ∷ []) (template_copy grow dc (rhs_i + 2) s)
  unfolding template_copy round
  copy_pair rhs_i s n = ground (arith, n, memory (rhs_i + 2))

  copy_delimiter :
      (rhs_i : ℕ) (s : List ℕ)
      → dc ≢ 92
      → template_copy grow dc rhs_i (92 ∷ dc ∷ s)
        ≡ prefixed (dc ∷ []) (template_copy grow dc (rhs_i + 1) s)
  unfolding template_copy round
  copy_delimiter rhs_i s n = ground (arith, n, memory (rhs_i + 2))

  copy_and :
      (rhs_i : ℕ) (s : List ℕ)
      → dc ≢ 92
      → dc ≢ b'&'
      → template_copy grow dc rhs_i (92 ∷ b'&' ∷ s)
        ≡ prefixed (92 ∷ []) (template_copy grow dc (rhs_i + 1) (b'&' ∷ s))
  unfolding template_copy round
  copy_and rhs_i s n m = ground (arith, n, m, memory (rhs_i + 2))

  copy_end : (rhs_i : ℕ) (s : List ℕ) → template_copy grow dc rhs_i (dc ∷ s) ≡ copied [] (dc ∷ s)
  unfolding template_copy round
  copy_end rhs_i [] = ground (arith, memory (rhs_i + 1))
  copy_end rhs_i (d ∷ s) = ground (arith, memory (rhs_i + 1))

  module _ (not_and : dc ≢ b'&') (not_escape : dc ≢ 92) (not_nul : dc ≢ 0) (rest : List ℕ) where
    behind : (cs : List ℕ) → NoNul cs → char (quote dc cs ++ dc ∷ rest) ≢ 0
    unfolding quote
    behind [] n = not_nul
    behind (c ∷ cs) n = λ e. ground (arith, e, n.0)

    template_copy-quote :
        (rhs_i : ℕ) (cs : List ℕ)
        → NoNul cs
        → template_copy grow dc rhs_i (quote dc cs ++ dc ∷ rest) ≡ copied (literal cs) (dc ∷ rest)
    unfolding quote literal
    template_copy-quote rhs_i [] n = copy_end rhs_i rest
    template_copy-quote rhs_i (c ∷ cs) n =
        let s = quote dc cs ++ dc ∷ rest in
        let b = behind cs n.1 in
        ground (
          arith,
          not_and,
          not_escape,
          n.0,
          copy_plain rhs_i c s,
          copy_plain (rhs_i + 1) c s,
          copy_pair rhs_i s not_escape,
          copy_delimiter rhs_i s not_escape,
          copy_and rhs_i s not_escape not_and,
          template_copy-quote (rhs_i + 1) cs n.1,
          template_copy-quote (rhs_i + 2) cs n.1,
          template_copy-quote (rhs_i + 1 + 1) cs n.1,
        )

    not_percent :
        (cs : List ℕ)
        → char (cs ++ dc ∷ []) ≢ b'%'
        → (char (quote dc cs ++ dc ∷ rest) == b'%') ≡ false
    unfolding quote
    not_percent [] p = ground (arith, p)
    not_percent (c ∷ cs) p = ground (arith, p)

-- A text in which `&`, the backslash and the delimiter are quoted by a backslash is taken from the
-- command buffer up to the delimiter behind it, and replaces any match by the text itself. The
-- delimiter is no NUL, `&` or backslash, the text has no NUL, and neither begins with `%`.
pub substitution_template-verbatim :
    (env : Env) (bufsiz cc_size dc : ℕ) (previous : Option (List ℕ)) (cs rest : List ℕ)
    (boln : List ℕ) (rm : Groups) (rb : List ℕ)
    → ((n : ℕ) → env.grow n ≡ true)
    → 4 ≤ stack_size bufsiz cc_size (length (literal cs))
    → dc ≢ b'&'
    → dc ≢ 92
    → dc ≢ 0
    → char (cs ++ dc ∷ []) ≢ b'%'
    → NoNul cs
    → (substitution_template env.grow dc previous (dc ∷ (quote dc cs ++ dc ∷ rest))
        ≡ copied (literal cs) (dc ∷ rest))
      × (apply_subst_template env true bufsiz cc_size boln rm (literal cs) rb
          ≡ going (record { rb = rb ++ cs; cc = keep ∷ []; change_once = keep; escaped = false }))
unfolding substitution_template
substitution_template-verbatim env bufsiz cc_size dc previous cs rest boln rm rb memory l a e z p
      n =
    (
      rw (not_percent env.grow memory dc a e z rest cs p)
          (template_copy-quote env.grow memory dc a e z rest 0 cs n),
      apply_subst_template-literal env bufsiz cc_size boln rm cs rb memory l,
    )
