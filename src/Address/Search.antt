-- ===== src/Address/Search.antt =====
-- `get_matching_node_address` (src/regexp.c): the search for the next line that a pattern matches.
-- `matches n` says whether `regexec` matches the text of line `n`.
use ed.Common.{ℕ, zero, suc, ◌+◌, Bool, Option, none, some, ltb, ◌==◌, if◌then◌else◌, ◌&&◌}
use ed.Edit.Global.{inc_mod, dec_mod}

-- The lines before and after a line, as the loop goes round.
abbrev pub next_line : Bool → ℕ → ℕ → ℕ
next_line forward lines n = if forward then inc_mod n lines else dec_mod n lines

-- The `do` loop with `fuel` rounds left; `none` is a run out of fuel, `some none` is ERR.
unfoldable pub matching_loop : (ℕ → Bool) → Bool → ℕ → ℕ → ℕ → ℕ → Option (Option ℕ)
matching_loop matches forward lines dot zero addr = none
matching_loop matches forward lines dot (suc fuel) addr =
    let next = next_line forward lines addr in
    let again = matching_loop matches forward lines dot fuel next in
    if ltb 0 next && matches next
    then some (some next)
    else if next == dot
    then some none
    else again

unfoldable pub get_matching_node_address : (ℕ → Bool) → Bool → ℕ → ℕ → Option (Option ℕ)
unfolding matching_loop
get_matching_node_address matches forward lines dot =
    matching_loop matches forward lines dot (lines + 1) dot
