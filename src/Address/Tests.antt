-- ===== src/Address/Tests.antt =====
-- The theorems on addresses at concrete inputs.
use ed.Common.{◌≡◌, refl, true, false, none, some, [], ◌∷◌, arith, ◌==◌, if◌then◌else◌}
use ed.Common.Int.{pos, ◌-ℤ◌}
use ed.Address.{Env, Parse, ok, strtoll, skip_whitespace, check_address_bounds}
use ed.Address.Offset.{address_offset}
use ed.Address.Consume.{Returns}
use ed.Address.Search.{get_matching_node_address}
use ed.Address.Found.{find, search_order, get_matching_node_address-find}
use ed.Address.Range.{address_range}
use ed.Address.Bounds.{Accepted, address_range-Accepted}
use ed.Address.Current.{Stays, address_range-Stays}

-- Nine lines, of which a pattern matches the seventh, and the mark `a` is on line 4.
abbrev nine_lines : Env
nine_lines = record {
  lines = 9;
  marked = λ c. if c == b'a' then some 4 else none;
  traditional = false;
  search = λ c s. (some (λ n. n == 7), s);
}

abbrev two_to_last : Parse
two_to_last = record { input = b'2' ∷ b',' ∷ b'$' ∷ b'-' ∷ 10 ∷ []; dot = pos 5 }

-- "2,$-" is the region from line 2 to line 8.
address_range_runs :
    address_range nine_lines two_to_last
    ≡ ok
        (record { start = pos 2; end = pos 8; addrs = 2 })
        (record { input = 10 ∷ []; dot = pos 5 })
unfolding address_range skip_whitespace strtoll address_offset ◌-ℤ◌ check_address_bounds
address_range_runs = refl

address_range-Accepted_example :
    Returns (address_range nine_lines two_to_last) (Accepted nine_lines)
address_range-Accepted_example =
    address_range-Accepted nine_lines two_to_last (record { forward = λ c s. omega arith })

get_matching_node_address_example : get_matching_node_address (λ n. n == 2) true 4 3 ≡ some (some 2)
unfolding find search_order
get_matching_node_address_example =
    get_matching_node_address-find (λ n. n == 2) true 4 3 (omega arith)

-- A search from line 5, and an address out of range behind it.
abbrev seventh_and_20 : Parse
seventh_and_20 = record { input = b'/' ∷ b'+' ∷ b'2' ∷ b'0' ∷ 10 ∷ []; dot = pos 5 }

address_range-Stays_example : Stays nine_lines (address_range nine_lines seventh_and_20)
address_range-Stays_example = address_range-Stays nine_lines seventh_and_20 (omega arith)
