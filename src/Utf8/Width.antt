-- ===== src/Utf8/Width.antt =====
-- src/utf8.c, `is_utf8_ea_wide`: the table of East Asian wide code points.
use ed.Common.{
  ℕ, suc, ◌<◌, ◌≡◌, refl, Bool, true, false, ◌&&◌, ◌||◌, List, [], ◌∷◌, arith, ltb, leb,
  if◌then◌else◌,
}

-- The disjuncts of the return statement, in order. A comparison with one code point is a range of
-- one.
abbrev pub wide_ranges : List (ℕ × ℕ)
wide_ranges =
    (0x1100, 0x115f)
    ∷ (0x231a, 0x231b)
    ∷ (0x2329, 0x2329)
    ∷ (0x232a, 0x232a)
    ∷ (0x23e9, 0x23ec)
    ∷ (0x23f0, 0x23f0)
    ∷ (0x23f3, 0x23f3)
    ∷ (0x25fd, 0x25fe)
    ∷ (0x2614, 0x2615)
    ∷ (0x2648, 0x2653)
    ∷ (0x267f, 0x267f)
    ∷ (0x2693, 0x2693)
    ∷ (0x26a1, 0x26a1)
    ∷ (0x26aa, 0x26ab)
    ∷ (0x26bd, 0x26be)
    ∷ (0x26c4, 0x26c5)
    ∷ (0x26ce, 0x26ce)
    ∷ (0x26d4, 0x26d4)
    ∷ (0x26ea, 0x26ea)
    ∷ (0x26f2, 0x26f3)
    ∷ (0x26f5, 0x26f5)
    ∷ (0x26fa, 0x26fa)
    ∷ (0x26fd, 0x26fd)
    ∷ (0x2705, 0x2705)
    ∷ (0x270a, 0x270b)
    ∷ (0x2728, 0x2728)
    ∷ (0x274c, 0x274c)
    ∷ (0x274e, 0x274e)
    ∷ (0x2753, 0x2755)
    ∷ (0x2757, 0x2757)
    ∷ (0x2795, 0x2797)
    ∷ (0x27b0, 0x27b0)
    ∷ (0x27bf, 0x27bf)
    ∷ (0x2b1b, 0x2b1c)
    ∷ (0x2b50, 0x2b50)
    ∷ (0x2b55, 0x2b55)
    ∷ (0x2e80, 0x2e99)
    ∷ (0x2e9b, 0x2ef3)
    ∷ (0x2f00, 0x2fd5)
    ∷ (0x2ff0, 0x2ffb)
    ∷ (0x3001, 0x303e)
    ∷ (0x3041, 0x3096)
    ∷ (0x3099, 0x30ff)
    ∷ (0x3105, 0x312f)
    ∷ (0x3131, 0x318e)
    ∷ (0x3190, 0x31ba)
    ∷ (0x31c0, 0x31e3)
    ∷ (0x31f0, 0x321e)
    ∷ (0x3220, 0x3247)
    ∷ (0x3250, 0x32fe)
    ∷ (0x3300, 0x4dbf)
    ∷ (0x4e00, 0xa48c)
    ∷ (0xa490, 0xa4c6)
    ∷ (0xa960, 0xa97c)
    ∷ (0xac00, 0xd7a3)
    ∷ (0xf900, 0xfaff)
    ∷ (0xfe10, 0xfe19)
    ∷ (0xfe30, 0xfe52)
    ∷ (0xfe54, 0xfe6b)
    ∷ (0x16fe0, 0x16fe1)
    ∷ (0x17000, 0x187f1)
    ∷ (0x18800, 0x18af2)
    ∷ (0x1b000, 0x1b11e)
    ∷ (0x1b170, 0x1b2fb)
    ∷ (0x1f004, 0x1f004)
    ∷ (0x1f0cf, 0x1f0cf)
    ∷ (0x1f18e, 0x1f18e)
    ∷ (0x1f191, 0x1f19a)
    ∷ (0x1f200, 0x1f202)
    ∷ (0x1f210, 0x1f23b)
    ∷ (0x1f240, 0x1f248)
    ∷ (0x1f250, 0x1f251)
    ∷ (0x1f260, 0x1f265)
    ∷ (0x1f300, 0x1f320)
    ∷ (0x1f32d, 0x1f335)
    ∷ (0x1f337, 0x1f37c)
    ∷ (0x1f37e, 0x1f393)
    ∷ (0x1f3a0, 0x1f3ca)
    ∷ (0x1f3cf, 0x1f3d3)
    ∷ (0x1f3e0, 0x1f3f0)
    ∷ (0x1f3f4, 0x1f3f4)
    ∷ (0x1f3f8, 0x1f43e)
    ∷ (0x1f440, 0x1f440)
    ∷ (0x1f442, 0x1f4fc)
    ∷ (0x1f4ff, 0x1f53d)
    ∷ (0x1f54b, 0x1f54e)
    ∷ (0x1f550, 0x1f567)
    ∷ (0x1f57a, 0x1f57a)
    ∷ (0x1f595, 0x1f596)
    ∷ (0x1f5a4, 0x1f5a4)
    ∷ (0x1f5fb, 0x1f64f)
    ∷ (0x1f680, 0x1f6c5)
    ∷ (0x1f6cc, 0x1f6cc)
    ∷ (0x1f6d0, 0x1f6d2)
    ∷ (0x1f6eb, 0x1f6ec)
    ∷ (0x1f6f4, 0x1f6f9)
    ∷ (0x1f910, 0x1f93e)
    ∷ (0x1f940, 0x1f970)
    ∷ (0x1f973, 0x1f976)
    ∷ (0x1f97a, 0x1f97a)
    ∷ (0x1f97c, 0x1f9a2)
    ∷ (0x1f9b0, 0x1f9b9)
    ∷ (0x1f9c0, 0x1f9c2)
    ∷ (0x1f9d0, 0x1f9ff)
    ∷ (0x20000, 0x2fffd)
    ∷ (0x30000, 0x3fffd)
    ∷ []

unfoldable pub in_ranges : List (ℕ × ℕ) → ℕ → Bool
in_ranges [] code = false
in_ranges ((lo, hi) ∷ rest) code = (leb lo code && leb code hi) || in_ranges rest code

unfoldable pub is_utf8_ea_wide : ℕ → Bool
unfolding in_ranges
is_utf8_ea_wide code = if ltb code 0x1100 then false else in_ranges wide_ranges code

-- Each range ends before the next begins, and none is empty.
pub ascending : ℕ → List (ℕ × ℕ) → Bool
ascending from [] = true
ascending from ((lo, hi) ∷ rest) = leb from lo && (leb lo hi && ascending (suc hi) rest)

in_ranges-below :
    (from : ℕ) (rs : List (ℕ × ℕ)) (code : ℕ)
    → ascending from rs ≡ true
    → code < from
    → in_ranges rs code ≡ false
unfolding ascending in_ranges
in_ranges-below from [] code h lt = refl
in_ranges-below from ((lo, hi) ∷ rest) code h lt =
    ground (arith, in_ranges-below (suc hi) rest code)

wide_ranges-ascending : ascending 0x1100 wide_ranges ≡ true
unfolding ascending
wide_ranges-ascending = refl

-- Every code point below U+1100 is narrow: the early return agrees with the table, whose ranges
-- ascend from U+1100.
pub early_return_agrees :
    (code : ℕ) → code < 0x1100 → is_utf8_ea_wide code ≡ in_ranges wide_ranges code
unfolding is_utf8_ea_wide
early_return_agrees code h =
    ground (arith, in_ranges-below 0x1100 wide_ranges code wide_ranges-ascending h)
