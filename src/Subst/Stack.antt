-- ===== src/Subst/Stack.antt =====
-- How far the stack of case changes in `apply_subst_template` (src/subst.c) is large enough.
use ed.Common.{
  ℕ, suc, ◌+◌, ◌-◌, ◌*◌, ◌/◌, ◌≤◌, ◌<◌, ◌≡◌, ◌≢◌, Bool, true, false, Option, none, some, List, [],
  ◌∷◌, arith, length, ltb, leb, ◌⊎◌, inl, inr, Bool-cases,
}
use ed.Subst.{
  size_max, realloc_buffer, Env, Change, keep, Groups, group, Expansion, Applied, going, no_memory,
  overrun,
}
use ed.Subst.Growth.{realloc_buffer-Grown}
use ed.Subst.Template.{
  put, push, popped, unescaped, matched, put_group, escape_step, template_step, template_loop,
  stack_size, closed, apply_subst_template,
}

-- The step has not written beyond the stack, and `P` holds where the loop goes on.
abbrev NoOverrun : Applied → (Expansion → Type 0) → Type 0
NoOverrun (going x) P = P x
NoOverrun no_memory P = Unit
NoOverrun overrun P = ⊥

abbrev pending : Bool → ℕ
pending true = 1
pending false = 0

-- Twice the entries of the stack, with what the template still can add.
abbrev need : ℕ → Expansion → ℕ
need left x = 2 * length x.cc + left + pending x.escaped

length-popped : (cc : List Change) → length (popped cc) ≤ length cc
length-popped [] = omega arith
length-popped (c ∷ []) = omega arith
length-popped (c ∷ d ∷ cs) = omega arith

module _ (env : Env) (size : ℕ) (boln : List ℕ) (rm : Groups) where
  put-NoOverrun :
      (n left : ℕ) (cs : List ℕ) (x : Expansion)
      → 2 * length x.cc + left ≤ n
      → NoOverrun (put env cs x) (λ y. need left y ≤ n)
  unfolding put
  put-NoOverrun n left cs x l = ground (arith, l)

  put_group-NoOverrun :
      (n left k : ℕ) (x : Expansion)
      → 2 * length x.cc + left ≤ n
      → NoOverrun (put_group env boln rm k x) (λ y. need left y ≤ n)
  unfolding put_group
  put_group-NoOverrun n left k x l = by_group (group rm k)
    where
      by_group :
          (g : Option (Option (ℕ × ℕ)))
          → NoOverrun
              (elim g [ none ↦ going (unescaped x) | some g ↦ put env (matched boln g) x ])
              (λ y. need left y ≤ n)
      by_group none = omega arith
      by_group (some g) = put-NoOverrun n left (matched boln g) x l

  escape_step-NoOverrun :
      (n left c : ℕ) (x : Expansion)
      → 2 * length x.cc + left + 2 ≤ n
      → 2 * n ≤ size
      → NoOverrun (escape_step env size boln rm c x) (λ y. need left y ≤ n)
  unfolding escape_step push
  escape_step-NoOverrun n left c x l m = ground (
    arith,
    put_group-NoOverrun n left (c - b'0') x,
    put-NoOverrun n left (c ∷ []) x,
    length-popped x.cc,
  )

  template_step-NoOverrun :
      (n left c : ℕ) (x : Expansion)
      → need (suc left) x ≤ n
      → 2 * n ≤ size
      → NoOverrun (template_step env size boln rm c x) (λ y. need left y ≤ n)
  unfolding template_step
  template_step-NoOverrun n left c x l m = elim (Bool-cases x.escaped) [
    | inl e ↦ rw e (escape_step-NoOverrun n left c x (ground (arith, l, e)) m)
    | inr e ↦ rw e (
        ground (
          arith,
          e,
          l,
          put_group-NoOverrun n left 0 (unescaped x),
          put-NoOverrun n left (c ∷ []) x,
        ))
  ]

  template_loop-NoOverrun :
      (n : ℕ) (sub : List ℕ) (x : Expansion)
      → need (length sub) x ≤ n
      → 2 * n ≤ size
      → NoOverrun (template_loop env size boln rm sub x) (λ _. Unit {0})
  unfolding template_loop
  template_loop-NoOverrun n [] x l m = ground (arith, put-NoOverrun n 0 (0 ∷ []) x)
  template_loop-NoOverrun n (c ∷ sub) x l m =
      next (template_step env size boln rm c x) (template_step-NoOverrun n (length sub) c x l m)
        λ y k. template_loop-NoOverrun n sub y k m
    where
      next :
          (r : Applied)
          → NoOverrun r (λ y. need (length sub) y ≤ n)
          → ((y : Expansion)
              → need (length sub) y ≤ n
              → NoOverrun (template_loop env size boln rm sub y) (λ _. Unit {0}))
          → NoOverrun
              (elim r [
                | going y ↦ template_loop env size boln rm sub y
                | no_memory ↦ no_memory
                | overrun ↦ overrun
              ])
              (λ _. Unit {0})
      next (going y) k f = f y k
      next no_memory k f = tt
      next overrun k f = k

size_lem :
    (bufsiz cc_size rhs_i : ℕ)
    → 0 < bufsiz
    → bufsiz ≤ size_max
    → rhs_i < size_max
    → (cc_size ≡ 0) ⊎ (bufsiz ≤ cc_size)
    → bufsiz ≤ stack_size bufsiz cc_size rhs_i
unfolding stack_size
size_lem bufsiz cc_size rhs_i z b r (inl e) =
    let g = realloc_buffer-Grown bufsiz 0 (rhs_i / 2 + 1) z b (omega arith) (omega arith) in
    let l : bufsiz ≤ realloc_buffer bufsiz 0 (rhs_i / 2 + 1) = g.least (omega arith) in
    rw e (ground (arith, l))
size_lem bufsiz cc_size rhs_i z b r (inr e) = elim (Bool-cases (ltb cc_size (rhs_i / 2 + 1))) [
  | inl f ↦
      let g =
        realloc_buffer-Grown bufsiz cc_size (rhs_i / 2 + 1) z b (ground (arith, f)) (omega arith) in
      rw f (omega (arith, g.kept))
  | inr f ↦ rw f e
]

closed-NoOverrun : (env : Env) (r : Applied) → NoOverrun r (λ _. Unit {0}) → closed env r ≢ overrun
unfolding closed
closed-NoOverrun env (going x) k = elim (Bool-cases (env.grow (length x.rb + 1))) [
  | inl e ↦ rw e (λ f. cc)
  | inr e ↦ rw e (λ f. cc)
]
closed-NoOverrun env no_memory k = λ f. cc
closed-NoOverrun env overrun k = absurd k

-- The expansion of a template never writes beyond the stack of case changes, if the template has
-- at most half as many characters as BUFSIZ, less two, and the stack was allocated with BUFSIZ
-- bytes or more, if at all.
pub apply_subst_template-stack :
    (env : Env) (memory : Bool) (bufsiz cc_size : ℕ) (boln : List ℕ) (rm : Groups) (rhs rb : List ℕ)
    → 2 * (length rhs + 2) ≤ bufsiz
    → bufsiz ≤ size_max
    → (cc_size ≡ 0) ⊎ (bufsiz ≤ cc_size)
    → apply_subst_template env memory bufsiz cc_size boln rm rhs rb ≢ overrun
unfolding apply_subst_template push
apply_subst_template-stack env false bufsiz cc_size boln rm rhs rb l b h = λ e. cc
apply_subst_template-stack env true bufsiz cc_size boln rm rhs rb l b h =
    let size = stack_size bufsiz cc_size (length rhs) in
    let x : Expansion = record { rb = rb; cc = keep ∷ []; change_once = keep; escaped = false } in
    let s : bufsiz ≤ size = size_lem bufsiz cc_size (length rhs) (omega arith) b (omega arith) h in
    let first : leb ((0 + 1) * 4) size ≡ true = ground (arith, s) in
    rw first (
      closed-NoOverrun env (template_loop env size boln rm rhs x) (
        template_loop-NoOverrun env size boln rm (length rhs + 2) rhs x (omega arith)
          (omega arith)))
