-- ===== src/Subst/Again.antt =====
-- The short form of a substitution, which repeats the last one (`resubstitute` of src/subst.c).
use ed.Common.{ℕ, zero, suc, Bool, true, false, not, ◌||◌, ◌==◌, if◌then◌else◌, length}
use ed.Common.Int.{pos}
use ed.Address.{Parse, Result, ok, out_of_fuel, ◌>>=◌, char, advance, isdigit}
use ed.Address.Offset.{address_offset}
use ed.Subst.Replace.{Modifiers}
use ed.Subst.Modifiers.{is_relative}

-- What the loop carries: the modifiers, the flags TGSG, TGSP and TGSR of `sgpr_f`, where SGPR is
-- always set, and `g_f`.
pub record Short : Type 0 where
  pub modifiers : Modifiers
  pub tgsg : Bool
  pub tgsp : Bool
  pub tgsr : Bool
  pub g_f : Bool

-- The command is not of the short form; it is; or it is, but ends in an unknown suffix.
pub data Resubstituted : Type 0 where
  full : Modifiers → Resubstituted
  repeated : Short → Resubstituted
  unknown_suffix : Resubstituted

-- The cases of the switch.
pub data Suffix : Type 0 where
  newline last number global print regex other : Suffix

unfoldable pub suffix_of : ℕ → Suffix
suffix_of c =
    if c == 10
    then newline
    else if c == b'$'
    then last
    else if (c == b'+') || (c == b'-') || isdigit c
    then number
    else if c == b'g'
    then global
    else if c == b'p'
    then print
    else if c == b'r'
    then regex
    else other

-- `strchr` of SGPR_CHARS, which also finds the terminating NUL
abbrev pub is_sgpr_char : ℕ → Bool
is_sgpr_char c =
    (c == 10)
    || (c == b'$')
    || (c == b'+')
    || (c == b'-')
    || (c == b'g')
    || (c == b'p')
    || (c == b'r')
    || isdigit c
    || (c == 0)

-- A round of the loop that is not the last.
unfoldable pub short_round : Suffix → Short → Parse → Result Short
short_round Suffix.newline t p = ok t p
short_round Suffix.last t p =
    let q : Parse = record p { input = advance p.input } in
    let m = t.modifiers in
    if t.g_f
    then (address_offset m.s_mod q >>= λ n r.
        ok (record t { modifiers = record m { s_mod = n; smlr = true } }) r)
    else address_offset (pos 0) q >>= λ n r.
        ok (record t { modifiers = record m { s_nth = n; snlr = true } }) r
short_round Suffix.number t p =
    let m = t.modifiers in
    if t.g_f
    then (address_offset (pos 0) p >>= λ n r.
        ok (record t { modifiers = record m { s_mod = n; gsub = false; smlr = is_relative n } }) r)
    else address_offset (pos 0) p >>= λ n r.
        ok (record t { modifiers = record m { s_nth = n; snlr = is_relative n } }) r
short_round Suffix.global t p =
    ok (record t { g_f = true; tgsg = not t.tgsg }) (record p { input = advance p.input })
short_round Suffix.print t p =
    ok (record t { tgsp = not t.tgsp }) (record p { input = advance p.input })
short_round Suffix.regex t p =
    ok (record t { tgsr = not t.tgsr }) (record p { input = advance p.input })
short_round Suffix.other t p = ok t p

-- The loop, for at most so many rounds. A round takes a character at least.
unfoldable pub short_loop : ℕ → Short → Parse → Result Resubstituted
unfolding suffix_of short_round
short_loop zero t p = out_of_fuel
short_loop (suc fuel) t p = elim (suffix_of (char p.input)) [
  | Suffix.newline ↦ ok (repeated t) p
  | Suffix.other ↦ ok unknown_suffix p
  | k ↦ short_round k t p >>= λ t' q. short_loop fuel t' q
]

-- `strict` says whether one of the flags POSIXLY_CORRECT and TRADITIONAL is set.
unfoldable pub resubstitute : Bool → Modifiers → Parse → Result Resubstituted
unfolding short_loop
resubstitute strict m p =
    if strict || not (is_sgpr_char (char p.input))
    then ok (full m) p
    else short_loop (suc (length p.input))
        (record { modifiers = m; tgsg = false; tgsp = false; tgsr = false; g_f = false }) p
