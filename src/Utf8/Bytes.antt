-- ===== src/Utf8/Bytes.antt =====
-- The masks of src/utf8.c as arithmetic: what `&` and `|` compute on bytes, by evaluation.
use Prim.Native.Nat.{bit_and, bit_or}
use ed.Common.{ℕ, ◌+◌, ◌*◌, ◌/◌, ◌%◌, ◌<◌, ◌≡◌, refl, true, ◌==◌, ==_iff}
use ed.Common.Bits.{all_below, all_below_sound}

-- The masked byte, for each mask that is used.
pub record Masked (t : ℕ) : Type 0 where
  pub top2 : bit_and t 0xC0 ≡ t / 64 * 64
  pub top3 : bit_and t 0xE0 ≡ t / 32 * 32
  pub top4 : bit_and t 0xF0 ≡ t / 16 * 16
  pub top5 : bit_and t 0xF8 ≡ t / 8 * 8
  pub low6 : bit_and t 0x3F ≡ t % 64
  pub low5 : bit_and t 0x1F ≡ t % 32
  pub low4 : bit_and t 0x0F ≡ t % 16
  pub low3 : bit_and t 0x07 ≡ t % 8

by_table : (f g : ℕ → ℕ) (t : ℕ) → all_below 256 (λ x. f x == g x) ≡ true → t < 256 → f t ≡ g t
by_table f g t table h = (==_iff _ _).0 (all_below_sound 256 _ t table h)

pub masked : (t : ℕ) → t < 256 → Masked t
unfolding all_below
masked t h = record {
  top2 = by_table (λ x. bit_and x 0xC0) (λ x. x / 64 * 64) t refl h;
  top3 = by_table (λ x. bit_and x 0xE0) (λ x. x / 32 * 32) t refl h;
  top4 = by_table (λ x. bit_and x 0xF0) (λ x. x / 16 * 16) t refl h;
  top5 = by_table (λ x. bit_and x 0xF8) (λ x. x / 8 * 8) t refl h;
  low6 = by_table (λ x. bit_and x 0x3F) (λ x. x % 64) t refl h;
  low5 = by_table (λ x. bit_and x 0x1F) (λ x. x % 32) t refl h;
  low4 = by_table (λ x. bit_and x 0x0F) (λ x. x % 16) t refl h;
  low3 = by_table (λ x. bit_and x 0x07) (λ x. x % 8) t refl h;
}

join_table : all_below 32 (λ hi. all_below 64 (λ lo. bit_or (hi * 256) lo == hi * 256 + lo)) ≡ true
unfolding all_below
join_table = refl

-- The two parts of a sequence of two bytes have no digit in common.
pub bit_or-join : (hi lo : ℕ) → hi < 32 → lo < 64 → bit_or (hi * 256) lo ≡ hi * 256 + lo
bit_or-join hi lo h l =
    (==_iff _ _).0 (all_below_sound 64 _ lo (all_below_sound 32 _ hi join_table h) l)
