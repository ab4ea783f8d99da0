-- ===== src/Words/Shell.antt =====
-- `expand_shell_command` and `trailing_escapes` (src/parse.c), where the allocations succeed. The
-- command line is that of `get_extended_line`, or the rest of the line in a global command.
use ed.Common.{
  ℕ, ◌+◌, Bool, ◌&&◌, not, Option, none, some, List, [], ◌∷◌, ◌++◌, length, drop, ltb, ◌==◌,
  if◌then◌else◌,
}

-- `quote` is `shell_quote` where UNSAFE_NAMES is set, `none` where it fails; otherwise it returns
-- the name as it is. `single` says that POSIXLY_CORRECT or TRADITIONAL is set, `script_flags` that
-- WANT_SCRIPT_FLAGS is defined.
pub record ShellEnv : Type 0 where
  pub restricted : Bool
  pub script_flags : Bool
  pub single : Bool
  pub name : List ℕ
  pub script_pathname : List ℕ
  pub quote : List ℕ → Option (List ℕ)

-- The expanded command with the number of substitutions, or an error.
pub data Expanded : Type 0 where
  restricted no_previous not_quoted : Expanded
  expanded : List ℕ → ℕ → Expanded

-- Characters before the rest, with the number of their substitutions.
abbrev pub before : List ℕ → ℕ → Expanded → Expanded
before s subs restricted = restricted
before s subs no_previous = no_previous
before s subs not_quoted = not_quoted
before s subs (expanded t n) = expanded (s ++ t) (subs + n)

-- What a name is expanded to, and the rest.
abbrev pub named : Option (List ℕ) → Expanded → Expanded
named none rest = not_quoted
named (some fn) rest = before fn 1 rest

-- The loop where `*len` is not 0: `!` stands for itself.
unfoldable pub expand_begun : ShellEnv → List ℕ → Expanded
expand_begun env [] = expanded [] 0
expand_begun env (x ∷ []) =
    if x == b'%' then named (env.quote env.name) (expanded [] 0) else expanded (x ∷ []) 0
expand_begun env (x ∷ y ∷ xl) =
    let next = expand_begun env (y ∷ xl) in
    let behind = expand_begun env xl in
    if x == b'%'
    then (if env.script_flags && (y == b'-')
        then named (env.quote env.script_pathname) behind
        else named (env.quote env.name) next)
    else if (x == 92) && (y == b'%')
    then before (b'%' ∷ []) 0 behind
    else before (x ∷ []) 0 next

-- The command that `!!` is replaced by, from its first character on: the previous one,
-- and the current one without its first two bytes. The previous one begins with `!`.
unfoldable pub previous : ShellEnv → Option (List ℕ) → List ℕ → Expanded
unfolding expand_begun
previous env none curr = no_previous
previous env (some prev) curr =
    if env.single && not (ltb 1 (length prev)) then no_previous else after (prev ++ drop 2 curr)
  where
    after : List ℕ → Expanded
    after [] = before (0 ∷ []) 1 (expanded [] 0)
    after (x ∷ xl) = before (x ∷ []) 1 (expand_begun env xl)

-- The loop while `*len` is 0, which an empty name leaves at 0.
unfoldable pub expand : ShellEnv → Option (List ℕ) → List ℕ → List ℕ → Expanded
unfolding previous
expand env prev curr [] = expanded [] 0
expand env prev curr (x ∷ []) = expand_begun env (x ∷ [])
expand env prev curr (x ∷ y ∷ xl) =
    let next = expand env prev curr (y ∷ xl) in
    let behind = expand env prev curr xl in
    if x == b'%'
    then (if env.script_flags && (y == b'-')
        then empty_or (env.quote env.script_pathname) behind (expand_begun env xl)
        else empty_or (env.quote env.name) next (expand_begun env (y ∷ xl)))
    else if (x == b'!') && (y == b'!')
    then previous env prev curr
    else expand_begun env (x ∷ y ∷ xl)
  where
    empty_or : Option (List ℕ) → Expanded → Expanded → Expanded
    empty_or none e begun = not_quoted
    empty_or (some []) e begun = before [] 1 e
    empty_or (some (c ∷ fn)) e begun = before (c ∷ fn) 1 begun

-- `prev` is `sc_prev`.
unfoldable pub expand_shell_command : ShellEnv → Option (List ℕ) → List ℕ → Expanded
unfolding expand
expand_shell_command env prev xl = if env.restricted then restricted else expand env prev xl xl

-- The characters before `t`, the last first: the number of escapes that they begin with.
unfoldable pub trailing_escapes : List ℕ → ℕ
trailing_escapes [] = 0
trailing_escapes (c ∷ s) = let n = trailing_escapes s in if c == 92 then n + 1 else 0
