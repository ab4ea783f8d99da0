-- ===== src/Subst/Replace.antt =====
-- `substitute_matching` (src/subst.c), as it is built with REG_STARTEND. The text of the line is an
-- argument, and the vector of groups is large enough.
use ed.Common.{
  ℕ, zero, suc, ◌+◌, ◌-◌, ◌*◌, ◌%◌, ◌^◌, Bool, true, false, not, ◌||◌, ◌&&◌, Option, none, some,
  List, [], ◌∷◌, ◌++◌, length, take, drop, leb, ◌==◌, if◌then◌else◌,
}
use ed.Common.Int.{ℤ, pos, negsuc, ◌+ℤ◌, ◌==ℤ◌}
use ed.Address.{char}
use ed.Utf8.Text.{Status, fail, value, is_utf8_str, utf8_char_size}
use ed.Subst.{Env, Groups, going, no_memory, overrun}
use ed.Subst.Template.{apply_subst_template, stack_size}
use ed.Subst.Matches.{Regexec, count_matches}

-- The modifiers of a substitution: s_nth, s_mod, and the flags GSUB, SNLR and SMLR.
pub record Modifiers : Type 0 where
  pub s_nth : ℤ
  pub s_mod : ℤ
  pub gsub : Bool
  pub snlr : Bool
  pub smlr : Bool

abbrev pub labs : ℤ → ℕ
labs (pos n) = n
labs (negsuc n) = suc n

-- The number of the first match to replace and the step to the next one, with `n` matches; `none`
-- where there is nothing to do.
unfoldable pub selection : Modifiers → ℕ → Option (ℤ × ℤ)
selection m n =
    if (m.snlr || m.smlr) && leb n (labs m.s_nth)
    then none
    else some (
      if m.snlr then m.s_nth +ℤ pos n else if m.s_nth ==ℤ pos 0 then pos 1 else m.s_nth,
      if m.smlr then m.s_mod +ℤ pos n else if m.s_mod ==ℤ pos 0 then pos 1 else m.s_mod,
    )

-- The conversion of off_t to size_t, where the two meet in an expression.
abbrev pub size_t : ℤ → ℕ
size_t (pos n) = n % 2 ^ 64
size_t (negsuc n) = 2 ^ 64 - 1 - n

-- What the expansion of a template takes, and the numbers selected.
pub record Plan : Type 0 where
  pub env : Env
  pub memory : Bool
  pub bufsiz : ℕ
  pub rhs : List ℕ
  pub first : ℕ
  pub every : ℕ
  pub gsub : Bool

-- The variables of the loop; `is_utf8` is `none` for -1.
pub record Progress : Type 0 where
  pub txt : List ℕ
  pub bol : Bool
  pub matched_prev : Bool
  pub nil_next : Bool
  pub k : ℕ
  pub changed : ℕ
  pub rb : List ℕ
  pub is_utf8 : Option Bool
  pub cc_size : ℕ

-- The loop goes on; `break`; and how it fails. `overrun` is a write or read outside a buffer.
pub data Step : Type 0 where
  next : Progress → Step
  stop : Progress → Step
  failed overran division_by_zero : Step

-- The bytes of the character at the text: `utf8_char_size`, or 1 where it is 0 or the text is no
-- UTF-8. The status ERR is a huge size, here `none`.
abbrev pub sized : Status → Option ℕ
sized fail = none
sized (value n) = some (if n == 0 then 1 else n)

unfoldable pub char_size : Bool → List ℕ → Option ℕ
char_size true txt = sized (utf8_char_size txt (length txt))
char_size false txt = some 1

-- `memcpy (rb + *len, txt, j)`, and `txt += j`.
abbrev pub skip : Plan → ℕ → Progress → Step
skip p j x =
    if p.env.grow (length x.rb + j)
    then if leb j (length x.txt)
      then next (record x {
        txt = drop j x.txt;
        bol = false;
        matched_prev = false;
        rb = x.rb ++ take j x.txt;
      })
      else overran
    else failed

-- `if (is_utf8 < 0) is_utf8 = is_utf8_str (txt, eot - txt);`
abbrev pub checked : Progress → Option Bool
checked x = elim x.is_utf8 [ none ↦ is_utf8_str x.txt (length x.txt) | some b ↦ some b ]

-- A character is copied without a match. `is_utf8_str` returns on every text of bytes, so its run out
-- of fuel makes no difference.
unfoldable pub skip_char : Plan → Progress → Step
unfolding char_size
skip_char p x = elim (checked x) [
  | none ↦ failed
  | some b ↦ elim (char_size b x.txt) [
    | none ↦ overran
    | some j ↦ skip p j (record x { is_utf8 = some b })
  ]
]

-- The text up to the match, and the template.
unfoldable pub replace : Plan → ℕ → ℕ → Groups → Progress → Step
replace p so eo rm x =
    if p.env.grow (length x.rb + so)
    then elim (apply_subst_template p.env p.memory p.bufsiz x.cc_size x.txt (some (so, eo) ∷ rm)
        p.rhs (x.rb ++ take so x.txt)) [
          | going y ↦ next (record x {
            txt = drop eo x.txt;
            bol = false;
            matched_prev = true;
            changed = x.changed + 1;
            rb = y.rb;
            cc_size = stack_size p.bufsiz x.cc_size (length p.rhs);
          })
          | no_memory ↦ failed
          | overrun ↦ overran
        ]
    else failed

-- The last branch.
unfoldable pub not_yet : Plan → ℕ → Progress → Step
unfolding skip_char
not_yet p eo x =
    if (eo == 0) && (char x.txt == 0)
    then stop x
    else if eo == 0
    then skip_char p x
    else skip p eo (record x { is_utf8 = checked x })

-- `k` is that of the present match; the numbers selected decide whether it is replaced.
unfoldable pub selected : Plan → ℕ → ℕ → Groups → Progress → Step
unfolding replace not_yet
selected p so eo rm x =
    if leb p.first x.k
    then if p.every == 0
      then division_by_zero
      else if (x.k - p.first) % p.every == 0
      then replace p so eo rm x
      else not_yet p eo x
    else not_yet p eo x

-- The body of the loop at a match.
unfoldable pub match_step : Plan → ℕ → ℕ → Groups → Progress → Step
unfolding skip_char selected not_yet
match_step p so eo rm x =
    let nil = eo == 0 in
    let y = record x { nil_next = nil } in
    if x.matched_prev && nil
    then if char x.txt == 0 then stop y else skip_char p y
    else if not nil || x.nil_next
    then selected p so eo rm (record y { k = x.k + 1 })
    else not_yet p eo y

-- What the loop ends with; `none` is a run out of fuel.
unfoldable pub match_loop : ℕ → Regexec → Plan → Progress → Option Step
unfolding match_step
match_loop zero re p x = none
match_loop (suc fuel) re p x = elim ((x.changed == 0) || p.gsub) [
  | false ↦ some (stop x)
  | true ↦ elim (re x.bol x.txt) [
    | none ↦ some (stop x)
    | some m ↦ elim (match_step p m.0.0 m.0.1 m.1 x) [
      | next y ↦ match_loop fuel re p y
      | stop y ↦ some (stop y)
      | failed ↦ some failed
      | overran ↦ some overran
      | division_by_zero ↦ some division_by_zero
    ]
  ]
]

-- The length 0 for an unchanged line; the modified text with its newline; or a failure.
pub data Modified : Type 0 where
  unchanged failure overrunning by_zero : Modified
  modified_text : List ℕ → Modified

-- What follows the loop.
unfoldable pub close_text : Env → Step → Modified
close_text env (next x) = unchanged
close_text env (stop x) =
    if x.changed == 0
    then unchanged
    else if env.grow (length x.rb + length x.txt + 2)
    then modified_text (x.rb ++ (x.txt ++ 10 ∷ []))
    else failure
close_text env failed = failure
close_text env overran = overrunning
close_text env division_by_zero = by_zero

abbrev pub beginning : List ℕ → ℕ → Progress
beginning txt cc_size = record {
  txt = txt;
  bol = true;
  matched_prev = false;
  nil_next = true;
  k = 0;
  changed = 0;
  rb = [];
  is_utf8 = none;
  cc_size = cc_size;
}

-- substitute_matching, with the text of the line. `rhs` is the template, and `memory`, `bufsiz` and
-- `cc_size` are as in `apply_subst_template`. Two rounds for each character and two more are enough.
unfoldable pub substitute_matching :
    Env → Bool → ℕ → ℕ → Regexec → List ℕ → Modifiers → List ℕ → Option Modified
unfolding match_loop close_text
substitute_matching env memory bufsiz cc_size re rhs m txt = elim (count_matches re txt) [
  | none ↦ none
  | some n ↦ elim (selection m n) [
    | none ↦ some unchanged
    | some s ↦
        elim (match_loop (2 * length txt + 2) re
          (record {
            env = env;
            memory = memory;
            bufsiz = bufsiz;
            rhs = rhs;
            first = size_t s.0;
            every = size_t s.1;
            gsub = m.gsub;
          })
          (beginning txt cc_size)) [ none ↦ none | some r ↦ some (close_text env r) ]
  ]
]
