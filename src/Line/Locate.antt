-- ===== src/Line/Locate.antt =====
-- src/buffer.c, `get_line_node` and `get_line_node_address`.
pub mod Walk
pub mod Find
use ed.Common.{ℕ, zero, suc, ◌+◌, ◌-◌, ◌/◌, Option, none, some, leb, ltb, ◌==◌, if◌then◌else◌}
use ed.Line.{Ptr, null, Heap}

-- The static variables of `get_line_node`: the node that it returned last, and its address.
pub record Cache : Type 0 where
  pub lp : Ptr
  pub n_prev : ℕ

abbrev pub at_line : Ptr → ℕ → Cache
at_line p n = record { lp = p; n_prev = n }

-- `k` rounds of `lp = lp->q_forw`, and of `lp = lp->q_back`
unfoldable pub walk_forw : Heap → ℕ → Ptr → Ptr
walk_forw h zero lp = lp
walk_forw h (suc k) lp = walk_forw h k (h.forw lp)

unfoldable pub walk_back : Heap → ℕ → Ptr → Ptr
walk_back h zero lp = lp
walk_back h (suc k) lp = walk_back h k (h.back lp)

abbrev pub cached : Ptr → Cache → Ptr
cached line_head c = if c.lp == null then line_head else c.lp

-- The node returned is `lp` of the new cache.
unfoldable pub get_line_node : Heap → Ptr → ℕ → ℕ → Cache → Cache
unfolding walk_forw walk_back
get_line_node h line_head lines n c =
    let lp = cached line_head c in
    if ltb c.n_prev n
    then (if leb n ((c.n_prev + lines) / 2)
        then at_line (walk_forw h (n - c.n_prev) lp) n
        else at_line (walk_back h (lines - n) (h.back line_head))
            (if ltb lines n then lines else n))
    else if leb (c.n_prev / 2) n
    then at_line (walk_back h (c.n_prev - n) lp) n
    else at_line (walk_forw h n line_head) n

-- The loop of `get_line_node_address`: `cp` and `*addr`. One round takes a node of the ring, so
-- `lines + 1` rounds are enough; `none` is a run out of fuel.
unfoldable pub address_loop : Heap → Ptr → Ptr → ℕ → Ptr → ℕ → Option (Ptr × ℕ)
address_loop h line_head lp zero cp addr = none
address_loop h line_head lp (suc fuel) cp addr =
    let next = h.forw cp in
    let again = address_loop h line_head lp fuel next (addr + 1) in
    if cp == lp then some (cp, addr) else if next == line_head then some (next, addr) else again

-- `none` is a run out of fuel, `some none` the status ERR ("Address out of range").
unfoldable pub get_line_node_address : Heap → Ptr → ℕ → Ptr → Option (Option ℕ)
unfolding address_loop
get_line_node_address h line_head lines lp =
    elim (address_loop h line_head lp (lines + 1) line_head 0) [
      | none ↦ none
      | some (cp, addr) ↦
          if ltb 0 addr
          then (if cp == line_head then some none else some (some addr))
          else some (some addr)
    ]
