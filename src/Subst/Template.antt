-- ===== src/Subst/Template.antt =====
-- `apply_subst_template` and `substitution_template` (src/subst.c).
use ed.Common.{
  ℕ, ◌+◌, ◌-◌, ◌*◌, ◌/◌, Bool, true, false, ◌||◌, ◌&&◌, Option, none, some, List, [], ◌∷◌, ◌++◌,
  length, take, drop, ltb, leb, ◌==◌, if◌then◌else◌,
}
use ed.Subst.{
  realloc_buffer, Env, Change, upper, lower, keep, is_upper, is_lower, Groups, group, Expansion,
  Applied, going, no_memory, overrun, top,
}

-- A character under the case changes.
unfoldable pub cased : Env → Change → Change → ℕ → ℕ
cased env cc once c =
    if is_upper cc || is_upper once
    then env.toupper c
    else if is_lower cc || is_lower once
    then env.tolower c
    else c

-- The characters of a group: the change once is for the first of them.
unfoldable pub cased_all : Env → Change → Change → List ℕ → List ℕ
unfolding cased
cased_all env cc once [] = []
cased_all env cc once (c ∷ cs) = cased env cc once c ∷ cased_all env cc keep cs

-- The change once behind so many characters.
abbrev pub once_behind : List ℕ → Change → Change
once_behind [] once = once
once_behind (c ∷ cs) once = keep

-- REALLOC_ADD_THROW and the copying into `rb`.
unfoldable pub put : Env → List ℕ → Expansion → Applied
unfolding cased_all
put env cs x =
    if env.grow (length x.rb + length cs)
    then going (record x {
      rb = x.rb ++ cased_all env (top x.cc) x.change_once cs;
      change_once = once_behind cs x.change_once;
      escaped = false;
    })
    else no_memory

-- `cc[cc_top++] = change`, where an entry of `cc` takes four bytes and `cc` has `size` bytes.
unfoldable pub push : ℕ → Change → Expansion → Applied
push size change x =
    if leb ((length x.cc + 1) * 4) size
    then going (record x { cc = change ∷ x.cc; escaped = false })
    else overrun

-- `if (cc_top > 1) --cc_top;`
abbrev pub popped : List Change → List Change
popped [] = []
popped (c ∷ []) = c ∷ []
popped (c ∷ d ∷ cs) = d ∷ cs

-- The characters from `boln` of a group.
abbrev pub matched : List ℕ → Option (ℕ × ℕ) → List ℕ
matched boln none = []
matched boln (some (so, eo)) = take (eo - so) (drop so boln)

abbrev pub unescaped : Expansion → Expansion
unescaped x = record x { escaped = false }

-- A digit: the group, or nothing where the pattern has no such group.
unfoldable pub put_group : Env → List ℕ → Groups → ℕ → Expansion → Applied
unfolding put
put_group env boln rm n x = elim (group rm n) [
  | none ↦ going (unescaped x)
  | some g ↦ put env (matched boln g) x
]

abbrev pub isdigit : ℕ → Bool
isdigit c = leb b'0' c && leb c b'9'

-- The `switch` on the character behind a backslash.
unfoldable pub escape_step : Env → ℕ → List ℕ → Groups → ℕ → Expansion → Applied
unfolding put push put_group
escape_step env size boln rm c x =
    if isdigit c
    then put_group env boln rm (c - b'0') x
    else if c == b'U'
    then push size upper x
    else if c == b'u'
    then going (record x { change_once = upper; escaped = false })
    else if c == b'L'
    then push size lower x
    else if c == b'l'
    then going (record x { change_once = lower; escaped = false })
    else if c == b'E'
    then going (record x { cc = popped x.cc; escaped = false })
    else put env (c ∷ []) x

-- One character of the template.
unfoldable pub template_step : Env → ℕ → List ℕ → Groups → ℕ → Expansion → Applied
unfolding escape_step put_group
template_step env size boln rm c x =
    if x.escaped
    then escape_step env size boln rm c x
    else if c == b'&'
    then put_group env boln rm 0 x
    else if c == 92
    then going (record x { escaped = true })
    else put env (c ∷ []) x

-- The loop over the template. Behind a backslash at its end stands the NUL.
unfoldable pub template_loop : Env → ℕ → List ℕ → Groups → List ℕ → Expansion → Applied
unfolding template_step
template_loop env size boln rm [] x = if x.escaped then put env (0 ∷ []) x else going x
template_loop env size boln rm (c ∷ sub) x = elim (template_step env size boln rm c x) [
  | going y ↦ template_loop env size boln rm sub y
  | no_memory ↦ no_memory
  | overrun ↦ overrun
]

-- The size of the stack, for which REALLOC_ADD_THROW counts a byte for each entry.
unfoldable pub stack_size : ℕ → ℕ → ℕ → ℕ
stack_size bufsiz cc_size rhs_i =
    if ltb cc_size (rhs_i / 2 + 1) then realloc_buffer bufsiz cc_size (rhs_i / 2 + 1) else cc_size

-- The memory for the last NUL.
unfoldable pub closed : Env → Applied → Applied
closed env (going x) = if env.grow (length x.rb + 1) then going x else no_memory
closed env no_memory = no_memory
closed env overrun = overrun

-- apply_subst_template, behind the text `rb`. `cc_size` is the size of the stack before the call;
-- `memory` says whether it could be enlarged.
unfoldable pub apply_subst_template :
    Env → Bool → ℕ → ℕ → List ℕ → Groups → List ℕ → List ℕ → Applied
unfolding template_loop stack_size closed
apply_subst_template env memory bufsiz cc_size boln rm rhs rb =
    if memory
    then closed env
        (elim (push (stack_size bufsiz cc_size (length rhs)) keep
          (record { rb = rb; cc = []; change_once = keep; escaped = false })) [
            | going x ↦ template_loop env (stack_size bufsiz cc_size (length rhs)) boln rm rhs x
            | no_memory ↦ no_memory
            | overrun ↦ overrun
          ])
    else no_memory
