-- ===== src/Subst/Division.antt =====
-- The modifier `g-n` of a substitution (src/subst.c) on a line with `n` matches.
use ed.Common.{
  ℕ, zero, suc, ◌+◌, ◌*◌, ◌<◌, ◌≡◌, refl, Bool, true, false, none, some, List, arith, length,
  Option-cases, inl, inr, ◌∙◌, sym,
}
use ed.Common.Int.{pos, negsuc, ◌+ℤ◌}
use ed.Subst.{Env, Groups}
use ed.Subst.Matches.{Regexec, Count, count_loop, count_matches}
use ed.Subst.Replace.{
  Plan, division_by_zero, selected, match_step, match_loop, Modifiers, selection, close_text,
  by_zero, beginning, substitute_matching,
}
use ed.Subst.Ends.{plan}

-- `g-(n + 1)`
abbrev pub every_from_last : ℕ → Modifiers
every_from_last n = record {
  s_nth = pos 0;
  s_mod = negsuc n;
  gsub = true;
  snlr = false;
  smlr = true;
}

selection-every : (n : ℕ) → selection (every_from_last n) (suc n) ≡ some (pos 1, pos 0)
unfolding selection ◌+ℤ◌
selection-every n = ground arith

-- A first match is counted, and selected.
first_step :
    (p : Plan) (txt : List ℕ) (cc_size so eo : ℕ) (rm : Groups)
    → p.first ≡ 1
    → p.every ≡ 0
    → match_step p so eo rm (beginning txt cc_size) ≡ division_by_zero
unfolding match_step selected
first_step p txt cc_size so eo rm e f = ground (arith, e, f)

first_division :
    (fuel : ℕ) (re : Regexec) (p : Plan) (txt : List ℕ) (cc_size : ℕ) (m : (ℕ × ℕ) × Groups)
    → 0 < fuel
    → re true txt ≡ some m
    → p.first ≡ 1
    → p.every ≡ 0
    → match_loop fuel re p (beginning txt cc_size) ≡ some division_by_zero
unfolding match_loop
first_division zero re p txt cc_size m l r e f = absurd (omega arith)
first_division (suc fuel) re p txt cc_size m l r e f =
    rw (match_loop, r, first_step p txt cc_size m.0.0 m.0.1 m.1 e f) refl

none_counted :
    (fuel : ℕ) (re : Regexec) (x : Count)
    → 0 < fuel
    → re x.bol x.txt ≡ none
    → count_loop fuel re x ≡ some x.nmatches
unfolding count_loop
none_counted zero re x l z = absurd (omega arith)
none_counted (suc fuel) re x l z = rw (count_loop, z) refl

-- Where matches are counted, there is a first match.
first_match :
    (re : Regexec) (txt : List ℕ) (n : ℕ)
    → count_matches re txt ≡ some (suc n)
    → (m : (ℕ × ℕ) × Groups) × (re true txt ≡ some m)
unfolding count_matches
first_match re txt n e = elim (Option-cases (re true txt)) [
  | inl z ↦ absurd (differ (sym (none_counted (2 * length txt + 2) re _ (omega arith) z) ∙ e))
  | inr m ↦ m
]
  where
    differ : some 0 ≡ some (suc n) → ⊥
    differ d = cc

-- With the modifier `g-n`, on a line where `n` matches are counted, the step from one match to the
-- next is 0: `substitute_matching` divides by zero, whatever the pattern and the template.
pub substitute_matching-division :
    (env : Env) (memory : Bool) (bufsiz cc_size : ℕ) (re : Regexec) (rhs txt : List ℕ) (n : ℕ)
    → count_matches re txt ≡ some (suc n)
    → substitute_matching env memory bufsiz cc_size re rhs (every_from_last n) txt ≡ some by_zero
unfolding substitute_matching close_text
substitute_matching-division env memory bufsiz cc_size re rhs txt n e =
    let (m, f) = first_match re txt n e in
    rw
      (
        substitute_matching,
        e,
        selection-every n,
        first_division (2 * length txt + 2) re
            (plan env memory bufsiz rhs (every_from_last n) (pos 1, pos 0)) txt cc_size m
            (omega arith) f refl refl,
        close_text,
      )
      refl
