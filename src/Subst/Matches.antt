-- ===== src/Subst/Matches.antt =====
-- `count_matches` and the loop of `substitute_matching` (src/subst.c).
use ed.Common.{
  ℕ, zero, suc, ◌+◌, ◌*◌, Bool, true, false, not, ◌||◌, ◌&&◌, Option, none, some, List, length,
  drop, ◌==◌, if◌then◌else◌,
}
use ed.Address.{char}
use ed.Subst.{Groups}

-- `regexec` of the C library with a compiled pattern, at a text that is the beginning of a line or
-- not (REG_NOTBOL): the offsets of the match, and its groups from the first on.
abbrev pub Regexec : Type 0
Regexec = Bool → List ℕ → Option ((ℕ × ℕ) × Groups)

-- The variables of the loop of `count_matches`; `bol` says that REG_NOTBOL is not set.
pub record Count : Type 0 where
  pub txt : List ℕ
  pub bol : Bool
  pub matched_prev : Bool
  pub nul_next : Bool
  pub nmatches : ℕ

-- `txt += off`, with what else changes.
abbrev pub counted : ℕ → Bool → Bool → ℕ → Count → Count
counted off matched nul n x = record {
  txt = drop off x.txt;
  bol = false;
  matched_prev = matched;
  nul_next = nul;
  nmatches = n;
}

-- The body of the loop at a match that ends at `eo`; `none` is the `break`.
unfoldable pub count_step : ℕ → Count → Option Count
count_step eo x =
    let nul = eo == 0 in
    if x.matched_prev && nul
    then (if char x.txt == 0 then none else some (counted 1 false nul x.nmatches x))
    else if not nul || x.nul_next
    then some (counted eo true nul (x.nmatches + 1) x)
    else if nul && (char x.txt == 0)
    then none
    else some (counted (if eo == 0 then 1 else eo) false nul x.nmatches x)

-- The loop; `none` is a run out of fuel.
unfoldable pub count_loop : ℕ → Regexec → Count → Option ℕ
unfolding count_step
count_loop zero re x = none
count_loop (suc fuel) re x = elim (re x.bol x.txt) [
  | none ↦ some x.nmatches
  | some m ↦ elim (count_step m.0.1 x) [ none ↦ some x.nmatches | some y ↦ count_loop fuel re y ]
]

-- count_matches, where the length of the text, which the source takes as an `int`, is below 2 ^ 31.
-- An empty match is followed by a step in the text, so two rounds for each
-- character and two more are enough.
unfoldable pub count_matches : Regexec → List ℕ → Option ℕ
unfolding count_loop
count_matches re txt =
    count_loop (2 * length txt + 2) re
      (record { txt = txt; bol = true; matched_prev = false; nul_next = true; nmatches = 0 })
