-- ===== src/Subst/Ends.antt =====
-- `substitute_matching` (src/subst.c) ends.
use ed.Common.{
  ℕ, zero, suc, ◌+◌, ◌-◌, ◌*◌, ◌≤◌, ◌<◌, ◌≡◌, refl, Bool, true, false, ◌||◌, Option, none, some,
  List, [], ◌∷◌, ◌++◌, arith, length, take, drop, length-drop, ◌==◌, Bool-cases, inl, inr,
}
use ed.Common.Int.{ℤ}
use ed.Subst.{Env, Groups, Expansion, Applied, going, no_memory, overrun}
use ed.Subst.Template.{apply_subst_template, stack_size}
use ed.Subst.Matches.{Regexec, count_matches}
use ed.Subst.Counts.{IsRegexec, AtMost, count_matches-AtMost}
use ed.Subst.Step.{OnProgress, at, match_step-On}
use ed.Subst.Replace.{
  Plan, Progress, Step, next, stop, failed, overran, division_by_zero, replace, match_step,
  match_loop, Modifiers, selection, size_t, close_text, Modified, unchanged, failure, overrunning,
  by_zero, modified_text, substitute_matching, beginning,
}

abbrev pub flag : Bool → ℕ
flag true = 1
flag false = 0

-- The rounds that are left.
abbrev pub left : List ℕ → Bool → ℕ
left txt matched = 2 * length txt + (1 - flag matched)

-- The loop ends, and where it is not stopped by a failure, the text left and the text written have
-- the property.
abbrev pub OnEnd : Option Step → (List ℕ → Bool → List ℕ → Type 0) → Type 0
OnEnd none I = ⊥
OnEnd (some (next y)) I = ⊥
OnEnd (some (stop y)) I = I y.txt y.matched_prev y.rb
OnEnd (some failed) I = Unit
OnEnd (some overran) I = Unit
OnEnd (some division_by_zero) I = Unit

-- A property of them that a round keeps.
pub record IsInvariant (p : Plan) (re : Regexec) (I : List ℕ → Bool → List ℕ → Type 0)
    : Type 0 where
  pub skips :
      (txt : List ℕ) (matched : Bool) (rb : List ℕ) (j : ℕ)
      → I txt matched rb
      → I (drop j txt) false (rb ++ take j txt)
  pub replaces :
      (txt : List ℕ) (matched : Bool) (rb : List ℕ) (bol : Bool) (so eo size : ℕ) (rm : Groups)
      (y : Expansion)
      → I txt matched rb
      → re bol txt ≡ some ((so, eo), rm)
      → apply_subst_template p.env p.memory p.bufsiz size txt
          (some (so, eo) ∷ rm)
          p.rhs
          (rb ++ take so txt)
        ≡ going y
      → I (drop eo txt) true y.rb

module _ (re : Regexec) (v : IsRegexec re) (p : Plan) (I : List ℕ → Bool → List ℕ → Type 0)
    (keeps : IsInvariant p re I) where
  replace-On :
      (so eo : ℕ) (rm : Groups) (x : Progress) (P Q : List ℕ → Bool → List ℕ → Type 0)
      → ((y : Expansion)
          → apply_subst_template p.env p.memory p.bufsiz x.cc_size x.txt
              (some (so, eo) ∷ rm)
              p.rhs
              (x.rb ++ take so x.txt)
            ≡ going y
          → P (drop eo x.txt) true y.rb)
      → OnProgress (replace p so eo rm x) P Q
  unfolding replace
  replace-On so eo rm x P Q f = elim (Bool-cases (p.env.grow (length x.rb + so))) [
    | inl e ↦ rw e (by_result _ f)
    | inr e ↦ rw e tt
  ]
    where
      by_result :
          (r : Applied)
          → ((y : Expansion) → r ≡ going y → P (drop eo x.txt) true y.rb)
          → OnProgress
              (elim r [
                | going y ↦ next (record x {
                  txt = drop eo x.txt;
                  bol = false;
                  matched_prev = true;
                  changed = x.changed + 1;
                  rb = y.rb;
                  cc_size = stack_size p.bufsiz x.cc_size (length p.rhs);
                })
                | no_memory ↦ failed
                | overrun ↦ overran
              ])
              P
              Q
      by_result (going y) g = g y refl
      by_result no_memory g = tt
      by_result overrun g = tt

  -- Fewer rounds are left, and the property is kept.
  abbrev Goes : Progress → List ℕ → Bool → List ℕ → Type 0
  Goes x txt matched rb = (left txt matched < left x.txt x.matched_prev) × I txt matched rb

  match_step-Goes :
      (so eo : ℕ) (rm : Groups) (x : Progress)
      → re x.bol x.txt ≡ some ((so, eo), rm)
      → I x.txt x.matched_prev x.rb
      → OnProgress (match_step p so eo rm x) (Goes x) I
  match_step-Goes so eo rm x e i =
      let l : eo ≤ length x.txt = v.within x.bol x.txt so eo rm e in
      match_step-On p (Goes x) I x.txt x.matched_prev x.rb
        (λ j m n. (omega (arith, length-drop j x.txt), keeps.skips x.txt x.matched_prev x.rb j i)) i
        so eo rm
        (λ c bol nil k changed utf8 size.
          replace-On so eo rm (at x.txt x.matched_prev x.rb bol nil k changed utf8 size) (Goes x) I
            λ y g. (
              ground (arith, c, l, length-drop eo x.txt),
              keeps.replaces x.txt x.matched_prev x.rb x.bol so eo size rm y i e g,
            ))
        x.bol x.nil_next x.k x.changed x.is_utf8 x.cc_size

  match_loop-On :
      (fuel : ℕ) (x : Progress)
      → left x.txt x.matched_prev < fuel
      → I x.txt x.matched_prev x.rb
      → OnEnd (match_loop fuel re p x) I
  unfolding match_loop
  match_loop-On zero x l i = absurd (omega arith)
  match_loop-On (suc fuel) x l i =
      by_flag ((x.changed == 0) || p.gsub) λ y m j. match_loop-On fuel y m j
    where
      by_step :
          (s : Step)
          → OnProgress s (Goes x) I
          → ((y : Progress)
              → left y.txt y.matched_prev < fuel
              → I y.txt y.matched_prev y.rb
              → OnEnd (match_loop fuel re p y) I)
          → OnEnd
              (elim s [
                | next y ↦ match_loop fuel re p y
                | stop y ↦ some (stop y)
                | failed ↦ some failed
                | overran ↦ some overran
                | division_by_zero ↦ some division_by_zero
              ])
              I
      by_step (next y) g f = f y (omega (arith, g.0)) g.1
      by_step (stop y) g f = g
      by_step failed g f = tt
      by_step overran g f = tt
      by_step division_by_zero g f = tt

      by_match :
          (r : Option ((ℕ × ℕ) × Groups))
          → re x.bol x.txt ≡ r
          → ((y : Progress)
              → left y.txt y.matched_prev < fuel
              → I y.txt y.matched_prev y.rb
              → OnEnd (match_loop fuel re p y) I)
          → OnEnd
              (elim r [
                | none ↦ some (stop x)
                | some m ↦ elim (match_step p m.0.0 m.0.1 m.1 x) [
                  | next y ↦ match_loop fuel re p y
                  | stop y ↦ some (stop y)
                  | failed ↦ some failed
                  | overran ↦ some overran
                  | division_by_zero ↦ some division_by_zero
                ]
              ])
              I
      by_match none e f = i
      by_match (some ((so, eo), rm)) e f =
          by_step (match_step p so eo rm x) (match_step-Goes so eo rm x e i) f

      by_flag :
          (b : Bool)
          → ((y : Progress)
              → left y.txt y.matched_prev < fuel
              → I y.txt y.matched_prev y.rb
              → OnEnd (match_loop fuel re p y) I)
          → OnEnd
              (elim b [
                | false ↦ some (stop x)
                | true ↦ elim (re x.bol x.txt) [
                  | none ↦ some (stop x)
                  | some m ↦ elim (match_step p m.0.0 m.0.1 m.1 x) [
                    | next y ↦ match_loop fuel re p y
                    | stop y ↦ some (stop y)
                    | failed ↦ some failed
                    | overran ↦ some overran
                    | division_by_zero ↦ some division_by_zero
                  ]
                ]
              ])
              I
      by_flag false f = i
      by_flag true f = by_match (re x.bol x.txt) refl f

-- The numbers of a substitution, as `substitute_matching` hands them to its loop.
abbrev pub plan : Env → Bool → ℕ → List ℕ → Modifiers → ℤ × ℤ → Plan
plan env memory bufsiz rhs m s = record {
  env = env;
  memory = memory;
  bufsiz = bufsiz;
  rhs = rhs;
  first = size_t s.0;
  every = size_t s.1;
  gsub = m.gsub;
}

-- The result, where the text is modified, has the property.
abbrev pub OnText : Option Modified → (List ℕ → Type 0) → Type 0
OnText none P = ⊥
OnText (some unchanged) P = Unit
OnText (some failure) P = Unit
OnText (some overrunning) P = Unit
OnText (some by_zero) P = Unit
OnText (some (modified_text t)) P = P t

pub substitute_matching-On :
    (env : Env) (memory : Bool) (bufsiz cc_size : ℕ) (re : Regexec) (rhs : List ℕ) (m : Modifiers)
    (txt : List ℕ) (I : List ℕ → Bool → List ℕ → Type 0) (P : List ℕ → Type 0)
    → IsRegexec re
    → ((s : ℤ × ℤ) → IsInvariant (plan env memory bufsiz rhs m s) re I)
    → I txt false []
    → ((t : List ℕ) (matched : Bool) (rb : List ℕ) → I t matched rb → P (rb ++ (t ++ 10 ∷ [])))
    → OnText (substitute_matching env memory bufsiz cc_size re rhs m txt) P
unfolding substitute_matching close_text
substitute_matching-On env memory bufsiz cc_size re rhs m txt I P v keeps i f =
    by_count (count_matches re txt) (count_matches-AtMost re txt v)
  where
    closes :
        (s : Option Step)
        → OnEnd s I
        → OnText (elim s [ none ↦ none | some r ↦ some (close_text env r) ]) P
    closes none g = g
    closes (some (next y)) g = absurd g
    closes (some (stop y)) g = elim (Bool-cases (y.changed == 0)) [
      | inl e ↦ rw e tt
      | inr e ↦ rw e (elim (Bool-cases (env.grow (length y.rb + length y.txt + 2))) [
        | inl h ↦ rw h (f y.txt y.matched_prev y.rb g)
        | inr h ↦ rw h tt
      ])
    ]
    closes (some failed) g = tt
    closes (some overran) g = tt
    closes (some division_by_zero) g = tt

    by_selection :
        (o : Option (ℤ × ℤ))
        → OnText
            (elim o [
              | none ↦ some unchanged
              | some s ↦
                  elim (match_loop
                    (2 * length txt + 2)
                    re
                    (plan env memory bufsiz rhs m s)
                    (beginning txt cc_size)) [ none ↦ none | some r ↦ some (close_text env r) ]
            ])
            P
    by_selection none = tt
    by_selection (some s) =
        closes
          (match_loop (2 * length txt + 2) re (plan env memory bufsiz rhs m s)
            (beginning txt cc_size))
          (match_loop-On re v (plan env memory bufsiz rhs m s) I (keeps s) (2 * length txt + 2)
            (beginning txt cc_size) (omega arith) i)

    by_count :
        (c : Option ℕ)
        → AtMost (length txt + 1) c
        → OnText
            (elim c [
              | none ↦ none
              | some n ↦ elim (selection m n) [
                | none ↦ some unchanged
                | some s ↦
                    elim (match_loop
                      (2 * length txt + 2)
                      re
                      (plan env memory bufsiz rhs m s)
                      (beginning txt cc_size)) [ none ↦ none | some r ↦ some (close_text env r) ]
              ]
            ])
            P
    by_count none g = g
    by_count (some n) g = by_selection (selection m n)
