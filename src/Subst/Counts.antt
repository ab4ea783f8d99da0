-- ===== src/Subst/Counts.antt =====
-- `count_matches` (src/subst.c) ends, and how many matches it counts at most.
use ed.Common.{
  ℕ, zero, suc, ◌+◌, ◌-◌, ◌*◌, ◌≤◌, ◌<◌, ◌≡◌, refl, Bool, true, false, Option, none, some, List, [],
  ◌∷◌, arith, length, length-drop, ◌==◌,
}
use ed.Address.{char}
use ed.Subst.{Groups}
use ed.Subst.Matches.{Regexec, Count, count_step, count_loop, count_matches}

-- A match begins before it ends, and ends within the text.
pub record IsRegexec (re : Regexec) : Type 0 where
  pub order :
      (bol : Bool) (txt : List ℕ) (so eo : ℕ) (rm : Groups)
      → re bol txt ≡ some ((so, eo), rm)
      → so ≤ eo
  pub within :
      (bol : Bool) (txt : List ℕ) (so eo : ℕ) (rm : Groups)
      → re bol txt ≡ some ((so, eo), rm)
      → eo ≤ length txt

abbrev flag : Bool → ℕ
flag true = 1
flag false = 0

-- The rounds that are left.
abbrev left : Count → ℕ
left x = 2 * length x.txt + (1 - flag x.matched_prev)

-- The matches that are counted, and that there is room for.
abbrev room : Count → ℕ
room x = x.nmatches + length x.txt + (1 - flag x.matched_prev)

-- A round that goes on leaves fewer.
abbrev Less : Count → Option Count → Type 0
Less x none = Unit
Less x (some y) = (left y < left x) × (room y ≤ room x)

char-pos : (s : List ℕ) → (char s == 0) ≡ false → 0 < length s
char-pos [] e = cc
char-pos (c ∷ s) e = omega arith

count_step-Less : (eo : ℕ) (x : Count) → eo ≤ length x.txt → Less x (count_step eo x)
unfolding count_step
count_step-Less eo x l =
    ground (arith, l, char-pos x.txt, length-drop 1 x.txt, length-drop eo x.txt)

-- There is a count, of that many at most.
abbrev pub AtMost : ℕ → Option ℕ → Type 0
AtMost n none = ⊥
AtMost n (some k) = k ≤ n

module _ (re : Regexec) (v : IsRegexec re) where
  round-AtMost :
      (n fuel : ℕ) (x : Count) (r : Option ((ℕ × ℕ) × Groups))
      → re x.bol x.txt ≡ r
      → room x ≤ n
      → left x < suc fuel
      → ((y : Count) → room y ≤ n → left y < fuel → AtMost n (count_loop fuel re y))
      → AtMost n (elim r [
        | none ↦ some x.nmatches
        | some m ↦ elim (count_step m.0.1 x) [
          | none ↦ some x.nmatches
          | some y ↦ count_loop fuel re y
        ]
      ])
  round-AtMost n fuel x none e l m f = omega arith
  round-AtMost n fuel x (some ((so, eo), rm)) e l m f =
      by_step (count_step eo x) (count_step-Less eo x (v.within x.bol x.txt so eo rm e))
    where
      by_step :
          (s : Option Count)
          → Less x s
          → AtMost n (elim s [ none ↦ some x.nmatches | some y ↦ count_loop fuel re y ])
      by_step none k = omega arith
      by_step (some y) k = f y (omega (arith, k.1)) (omega (arith, k.0))

  count_loop-AtMost :
      (n fuel : ℕ) (x : Count) → room x ≤ n → left x < fuel → AtMost n (count_loop fuel re x)
  unfolding count_loop
  count_loop-AtMost n zero x l m = absurd (omega arith)
  count_loop-AtMost n (suc fuel) x l m =
      round-AtMost n fuel x (re x.bol x.txt) refl l m λ y k h. count_loop-AtMost n fuel y k h

-- Where a match ends within the text that is searched, `count_matches` ends on every line: the
-- step behind an empty match keeps the loop from staying in place. It counts one match more than
-- there are characters at most.
pub count_matches-AtMost :
    (re : Regexec) (txt : List ℕ) → IsRegexec re → AtMost (length txt + 1) (count_matches re txt)
unfolding count_matches
count_matches-AtMost re txt v =
    count_loop-AtMost re v (length txt + 1) (2 * length txt + 2) _ (omega arith) (omega arith)
