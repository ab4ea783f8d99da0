-- ===== src/Utf8/ThreeBytes.antt =====
-- The code points from U+0800 to U+FFFF through `encode_utf8_char` (src/utf8.c).
use Prim.Native.Nat.{bit_and}
use ed.Common.{
  ℕ, ◌+◌, ◌*◌, ◌/◌, ◌%◌, ◌≤◌, ◌<◌, ◌≡◌, ◌≢◌, refl, true, some, List, [], ◌∷◌, arith, ◌==◌, ==_iff,
  ap,
}
use ed.Common.Bits.{all_below, all_below_sound}
use ed.Utf8.Decode.{Lead, lead_bytes}
use ed.Utf8.Lead.{class_of, lead_bytes-class_of}
use ed.Utf8.Encode.{encode_utf8_char, stored, field, not_mask}

lead_table :
    all_below 256 (λ hi. all_below 256 (λ lo. bit_and (hi * 256 + lo) 0xF000 == hi / 16 * 4096))
    ≡ true
unfolding all_below
lead_table = refl

lead_bits : (cp : ℕ) → cp < 0x10000 → bit_and cp 0xF000 ≡ cp / 4096 * 4096
lead_bits cp h =
    let split : cp / 256 * 256 + cp % 256 ≡ cp = omega arith in
    omega (
      arith,
      (==_iff _ _).0 (
          all_below_sound 256 _ (cp % 256)
            (all_below_sound 256 _ (cp / 256) lead_table (omega arith)) (omega arith)),
      ap (λ (x : ℕ). bit_and x 0xF000) split,
    )

mark_table : all_below 16 (λ x. stored 0xC0 x == 0xC0 + x) ≡ true
unfolding all_below
mark_table = refl

mark_bits : (x : ℕ) → x < 16 → stored 0xC0 x ≡ 0xC0 + x
mark_bits x h = (==_iff _ _).0 (all_below_sound 16 (λ x. stored 0xC0 x == 0xC0 + x) x mark_table h)

-- The bytes that `encode_utf8_char` writes for a code point from U+0800 to U+FFFF that it accepts
-- begin with 0xC0 + cp / 4096, and the decoder takes no such byte for the first of three.
pub encode-three_bytes :
    (cp : ℕ) {bytes : List ℕ}
    → 0x800 ≤ cp
    → cp < 0x10000
    → encode_utf8_char cp ≡ some bytes
    → (b c : ℕ) × (bytes ≡ (0xC0 + cp / 4096) ∷ b ∷ c ∷ [])
      × (lead_bytes (0xC0 + cp / 4096) ≢ Lead.announces 3)
unfolding encode_utf8_char class_of
encode-three_bytes cp lo hi h = (
  stored 0x80 (field cp (not_mask 0xC0 6) 6),
  stored 0x80 (bit_and cp (not_mask 0xC0 0)),
  ground (arith, lead_bits cp hi, mark_bits (cp / 4096)),
  rw (lead_bytes-class_of (0xC0 + cp / 4096) (omega arith) (omega arith)) (ground arith),
)
