-- ===== src/Subst/Literal.antt =====
-- Templates of `apply_subst_template` (src/subst.c) with a known expansion: literal text, and more
-- case changes than the stack holds.
use ed.Common.{
  ℕ, zero, suc, ◌+◌, ◌*◌, ◌≤◌, ◌<◌, ◌≡◌, refl, true, false, ◌||◌, List, [], ◌∷◌, ◌++◌, arith,
  length, leb, ◌==◌, if◌then◌else◌, append_assoc, append-nil, sym, ◌∙◌, ap,
}
use ed.Subst.{realloc_buffer, Env, Change, upper, keep, Groups, Expansion, going, overrun}
use ed.Subst.Template.{
  cased, put, push, escape_step, template_step, template_loop, stack_size, closed,
  apply_subst_template,
}

-- The text with a backslash before each `&` and each backslash.
unfoldable pub literal : List ℕ → List ℕ
literal [] = []
literal (c ∷ cs) =
    let rest = literal cs in if (c == b'&') || (c == 92) then 92 ∷ c ∷ rest else c ∷ rest

-- No case change is pending.
abbrev plain : List ℕ → Expansion
plain rb = record { rb = rb; cc = keep ∷ []; change_once = keep; escaped = false }

module _ (env : Env) (memory : (n : ℕ) → env.grow n ≡ true) (size : ℕ) (boln : List ℕ)
    (rm : Groups) where
  literal_step :
      (c : ℕ) (rb sub : List ℕ)
      → template_loop env size boln rm
          (if (c == b'&') || (c == 92) then 92 ∷ c ∷ sub else c ∷ sub)
          (plain rb)
        ≡ template_loop env size boln rm sub (plain (rb ++ c ∷ []))
  unfolding template_loop template_step escape_step put cased
  literal_step c rb sub = ground (arith, memory (length rb + 1))

  literal_loop :
      (cs rb : List ℕ)
      → template_loop env size boln rm (literal cs) (plain rb) ≡ going (plain (rb ++ cs))
  unfolding template_loop literal
  literal_loop [] rb = ap (λ zs. going (plain zs)) (sym (append-nil rb))
  literal_loop (c ∷ cs) rb =
      literal_step c rb (literal cs)
      ∙ literal_loop cs (rb ++ c ∷ [])
      ∙ ap (λ zs. going (plain zs)) (append_assoc rb (c ∷ []) cs)

-- Given memory, a text with a backslash before each `&` and each backslash is its own expansion,
-- whatever was matched.
pub apply_subst_template-literal :
    (env : Env) (bufsiz cc_size : ℕ) (boln : List ℕ) (rm : Groups) (cs rb : List ℕ)
    → ((n : ℕ) → env.grow n ≡ true)
    → 4 ≤ stack_size bufsiz cc_size (length (literal cs))
    → apply_subst_template env true bufsiz cc_size boln rm (literal cs) rb
      ≡ going (plain (rb ++ cs))
unfolding apply_subst_template push closed
apply_subst_template-literal env bufsiz cc_size boln rm cs rb memory l =
    let size = stack_size bufsiz cc_size (length (literal cs)) in
    let first : leb ((0 + 1) * 4) size ≡ true = ground (arith, l) in
    rw (first, literal_loop env memory size boln rm cs rb, memory (length (rb ++ cs) + 1)) refl

-- `k` times the template `\U`
unfoldable pub upper_cases : ℕ → List ℕ
upper_cases zero = []
upper_cases (suc k) = 92 ∷ b'U' ∷ upper_cases k

length-upper_cases : (k : ℕ) → length (upper_cases k) ≡ 2 * k
unfolding upper_cases
length-upper_cases zero = omega arith
length-upper_cases (suc k) = omega (arith, length-upper_cases k)

module _ (env : Env) (size : ℕ) (boln : List ℕ) (rm : Groups) where
  upper_cases-overrun :
      (k : ℕ) (rb : List ℕ) (cc : List Change)
      → length cc * 4 ≤ size
      → size < 4 * (length cc + k)
      → template_loop env size boln rm
          (upper_cases k)
          (record { rb = rb; cc = cc; change_once = keep; escaped = false })
        ≡ overrun
  unfolding upper_cases template_loop template_step escape_step push
  upper_cases-overrun zero rb cc l m = absurd (omega arith)
  upper_cases-overrun (suc k) rb cc l m =
      ground (arith, l, m, upper_cases-overrun k rb (upper ∷ cc))

first_size : (bufsiz k : ℕ) → k + 1 < bufsiz → stack_size bufsiz 0 (length (upper_cases k)) ≡ bufsiz
unfolding stack_size realloc_buffer
first_size bufsiz k l = ground (arith, length-upper_cases k)

-- In a first expansion of `k` times the template `\U`, the stack gets BUFSIZ bytes, and each `\U`
-- takes four. Where BUFSIZ is at least four and greater than `k + 1`, but less than four times
-- `k + 1`, the expansion writes beyond the stack.
pub apply_subst_template-overrun :
    (env : Env) (bufsiz k : ℕ) (boln : List ℕ) (rm : Groups) (rb : List ℕ)
    → 4 ≤ bufsiz
    → k + 1 < bufsiz
    → bufsiz < 4 * (k + 1)
    → apply_subst_template env true bufsiz 0 boln rm (upper_cases k) rb ≡ overrun
unfolding apply_subst_template push closed
apply_subst_template-overrun env bufsiz k boln rm rb b l m =
    let size = stack_size bufsiz 0 (length (upper_cases k)) in
    let s = first_size bufsiz k l in
    let first : leb ((0 + 1) * 4) size ≡ true = ground (arith, b, s) in
    rw
      (
        first,
        upper_cases-overrun env size boln rm k rb (keep ∷ []) (omega (arith, s)) (omega (arith, s)),
      )
      refl
