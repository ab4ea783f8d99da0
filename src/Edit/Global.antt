-- ===== src/Edit/Global.antt =====
-- The global command buffer (src/global.c).
use ed.Common.{
  ℕ, zero, suc, ◌+◌, ◌-◌, Bool, Option, none, some, List, [], ◌∷◌, ◌++◌, length, get_or, set, ◌==◌,
  if◌then◌else◌,
}
use ed.Line.{Ptr, null, Heap}
use ed.Edit.{GlobalBuffer}

-- INC_MOD (l, k)
abbrev pub inc_mod : ℕ → ℕ → ℕ
inc_mod l k = if l == k then 0 else l + 1

abbrev pub dec_mod : ℕ → ℕ → ℕ
dec_mod l k = if l == 0 then k else l - 1

unfoldable pub reset_global_buffer : GlobalBuffer → GlobalBuffer
reset_global_buffer gb = record { lbuf = []; ptr = 0; index = 0 }

-- `memory` says whether the buffer could be enlarged.
unfoldable pub append_global_line : Bool → Ptr → GlobalBuffer → Option GlobalBuffer
append_global_line memory lp gb =
    if memory then some (record gb { lbuf = gb.lbuf ++ lp ∷ [] }) else none

-- The inner loop of `clear_global_lines`, with `n` rounds left.
unfoldable pub clear_scan : ℕ → Ptr → GlobalBuffer → GlobalBuffer
clear_scan zero lp gb = gb
clear_scan (suc n) lp gb =
    let next = inc_mod gb.index (length gb.lbuf - 1) in
    let again = clear_scan n lp (record gb { index = next }) in
    if get_or gb.lbuf gb.index null == lp
    then record gb { lbuf = set gb.lbuf gb.index null; index = next }
    else again

-- The outer loop, over the nodes from `lp` up to `mp`; `fuel` bounds their number.
unfoldable pub clear_global_lines : Heap → ℕ → Ptr → Ptr → GlobalBuffer → GlobalBuffer
unfolding clear_scan
clear_global_lines h zero lp mp gb = gb
clear_global_lines h (suc fuel) lp mp gb =
    let rest = clear_global_lines h fuel (h.forw lp) mp (clear_scan (length gb.lbuf) lp gb) in
    if lp == mp then gb else rest

-- The `while` of `next_global_line`, over the entries from `ptr` on: the number of NULLs skipped
-- and the node returned, if any.
unfoldable pub next_entry : List Ptr → ℕ → ℕ → ℕ × Option Ptr
next_entry [] zero skipped = (skipped, none)
next_entry [] (suc n) skipped = (skipped, none)
next_entry (p ∷ ps) zero skipped =
    let rest = next_entry ps zero (skipped + 1) in if p == null then rest else (skipped, some p)
next_entry (p ∷ ps) (suc n) skipped = next_entry ps n skipped

unfoldable pub next_global_line : GlobalBuffer → Option Ptr × GlobalBuffer
unfolding next_entry
next_global_line gb =
    let (skipped, found) = next_entry gb.lbuf gb.ptr 0 in
    elim found [
      | none ↦ (none, record gb { ptr = gb.ptr + skipped })
      | some p ↦ (some p, record gb { ptr = gb.ptr + skipped + 1 })
    ]
