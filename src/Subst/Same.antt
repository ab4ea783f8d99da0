-- ===== src/Subst/Same.antt =====
-- `substitute_matching` (src/subst.c) on every line, and with the template `&`.
use ed.Common.{
  drop-drop, ℕ, ◌+◌, ◌-◌, ◌*◌, ◌≤◌, ◌≡◌, refl, Bool, true, false, some, List, [], ◌∷◌, ◌++◌, arith,
  length, take, drop, take-append-drop, append_assoc, Bool-cases, inl, inr, ap, sym, ◌∙◌, leb,
  subst,
}
use ed.Subst.{Env, keep, Groups, Expansion, Applied, going, no_memory, overrun}
use ed.Subst.Template.{
  push, put, put_group, once_behind, cased, cased_all, template_step, template_loop, stack_size,
  closed, apply_subst_template,
}
use ed.Subst.Matches.{Regexec}
use ed.Subst.Counts.{IsRegexec}
use ed.Subst.Replace.{Modifiers, Plan, substitute_matching}
use ed.Subst.Ends.{IsInvariant, plan, OnText, substitute_matching-On}

-- Where a match ends within the text that is searched, `substitute_matching` ends on every line,
-- for every template and all modifiers, and a modified text ends in a newline.
pub substitute_matching-newline :
    (env : Env) (memory : Bool) (bufsiz cc_size : ℕ) (re : Regexec) (rhs : List ℕ) (m : Modifiers)
    (txt : List ℕ)
    → IsRegexec re
    → OnText
        (substitute_matching env memory bufsiz cc_size re rhs m txt)
        (λ t. (s : List ℕ) × (t ≡ s ++ 10 ∷ []))
substitute_matching-newline env memory bufsiz cc_size re rhs m txt v =
    substitute_matching-On env memory bufsiz cc_size re rhs m txt (λ _ _ _. Unit {0}) _ v
      (λ s. record { skips = λ t b r j i. tt; replaces = λ t b r bol so eo size rm y i e g. tt }) tt
      λ t b r i. (r ++ t, sym (append_assoc r t (10 ∷ [])))

-- No case change is pending.
abbrev plain : List ℕ → Expansion
plain rb = record { rb = rb; cc = keep ∷ []; change_once = keep; escaped = false }

-- Where the expansion succeeds, the text has been appended.
abbrev Appends : List ℕ → Applied → Type 0
Appends rb (going y) = y.rb ≡ rb
Appends rb no_memory = Unit
Appends rb overrun = Unit

cased_all-keep : (env : Env) (cs : List ℕ) → cased_all env keep keep cs ≡ cs
unfolding cased_all cased
cased_all-keep env [] = refl
cased_all-keep env (c ∷ cs) = ap (c ∷◌) (cased_all-keep env cs)

once_behind-keep : (cs : List ℕ) → once_behind cs keep ≡ keep
once_behind-keep [] = refl
once_behind-keep (c ∷ cs) = refl

closed-Appends : (env : Env) (rb : List ℕ) (r : Applied) → Appends rb r → Appends rb (closed env r)
unfolding closed
closed-Appends env rb (going y) h = elim (Bool-cases (env.grow (length y.rb + 1))) [
  | inl e ↦ rw e h
  | inr e ↦ rw e tt
]
closed-Appends env rb no_memory h = tt
closed-Appends env rb overrun h = tt

module _ (env : Env) (size so eo : ℕ) (txt : List ℕ) (rm : Groups) (rb : List ℕ) where
  loop-Appends :
      Appends
        (rb ++ take (eo - so) (drop so txt))
        (template_loop env size txt (some (so, eo) ∷ rm) (b'&' ∷ []) (plain rb))
  unfolding template_loop template_step put_group put
  loop-Appends =
      let cs = take (eo - so) (drop so txt) in
      elim (Bool-cases (env.grow (length rb + length cs))) [
        | inl e ↦
            rw (template_loop, template_step, put_group, put, e)
              (ap (rb ++◌) (cased_all-keep env cs))
        | inr e ↦ rw (template_loop, template_step, put_group, put, e) tt
      ]

-- The template `&` gives the text of the match.
apply-and :
    (env : Env) (memory : Bool) (bufsiz size so eo : ℕ) (txt : List ℕ) (rm : Groups) (rb : List ℕ)
    → Appends
        (rb ++ take (eo - so) (drop so txt))
        (apply_subst_template env memory bufsiz size txt (some (so, eo) ∷ rm) (b'&' ∷ []) rb)
unfolding apply_subst_template push closed
apply-and env false bufsiz size so eo txt rm rb = tt
apply-and env true bufsiz size so eo txt rm rb =
    let all = stack_size bufsiz size 1 in
    elim (Bool-cases (leb ((0 + 1) * 4) all)) [
      | inl e ↦ rw e (closed-Appends env _ _ (loop-Appends env all so eo txt rm rb))
      | inr e ↦ rw e tt
    ]

-- The parts of a text at a match.
parts :
    (so eo : ℕ) (t : List ℕ) → so ≤ eo → take so t ++ (take (eo - so) (drop so t) ++ drop eo t) ≡ t
parts so eo t l =
    let e : drop (eo - so) (drop so t) ≡ drop eo t =
      drop-drop so (eo - so) t ∙ ap (λ n. drop n t) (omega arith) in
    ap (λ s. take so t ++ (take (eo - so) (drop so t) ++ s)) (sym e)
    ∙ ap (take so t ++◌) (take-append-drop (eo - so) (drop so t))
    ∙ take-append-drop so t

result : {r : Applied} {y : Expansion} {rb : List ℕ} → r ≡ going y → Appends rb r → y.rb ≡ rb
result {r} {y} {rb} e a = subst (Appends rb) e a

-- The text written and the text left make up the whole.
abbrev Whole : List ℕ → List ℕ → Bool → List ℕ → Type 0
Whole txt t matched rb = rb ++ t ≡ txt

Whole-IsInvariant :
    (re : Regexec) (v : IsRegexec re) (p : Plan) (txt : List ℕ)
    → p.rhs ≡ b'&' ∷ []
    → IsInvariant p re (Whole txt)
Whole-IsInvariant re v p txt r = record {
  skips =
      λ t b rb j i. append_assoc rb (take j t) (drop j t) ∙ ap (rb ++◌) (take-append-drop j t) ∙ i;
  replaces = λ t b rb bol so eo size rm y i e g.
      let a = apply-and p.env p.memory p.bufsiz size so eo t rm (rb ++ take so t) in
      let h : y.rb ≡ (rb ++ take so t) ++ take (eo - so) (drop so t) = result (rw r at g) a in
      ap (λ (s : List ℕ). s ++ drop eo t) h
      ∙ append_assoc (rb ++ take so t) (take (eo - so) (drop so t)) (drop eo t)
      ∙ append_assoc rb (take so t) (take (eo - so) (drop so t) ++ drop eo t)
      ∙ ap (rb ++◌) (parts so eo t (v.order bol t so eo rm e))
      ∙ i;
}

-- Where a match ends within the text that is searched, the template `&` never changes the text of
-- a line, with any modifiers: a modified text is the text itself with its newline.
pub substitute_matching-same :
    (env : Env) (memory : Bool) (bufsiz cc_size : ℕ) (re : Regexec) (m : Modifiers) (txt : List ℕ)
    → IsRegexec re
    → OnText
        (substitute_matching env memory bufsiz cc_size re (b'&' ∷ []) m txt)
        (λ t. t ≡ txt ++ 10 ∷ [])
substitute_matching-same env memory bufsiz cc_size re m txt v =
    substitute_matching-On env memory bufsiz cc_size re (b'&' ∷ []) m txt (Whole txt) _ v
      (λ s. Whole-IsInvariant re v (plan env memory bufsiz (b'&' ∷ []) m s) txt refl) refl
      λ t b r i. sym (append_assoc r t (10 ∷ [])) ∙ ap (λ (s : List ℕ). s ++ 10 ∷ []) i
