-- ===== src/Subst/Growth.antt =====
-- `realloc_buffer` (src/buffer.c): the sizes that it gives.
use ed.Common.{ℕ, ◌*◌, ◌/◌, ◌≤◌, ◌<◌, arith, ltb, leb, Bool-cases, inl, inr, leb→le}
use native.Mathlib.Nat.{le-div_iff_mul-le, lt-div-mul-add}
use ed.Subst.{realloc_buffer, size_max}

-- `r` bytes in place of `n`, for at least `i`.
pub record Grown (bufsiz n i r : ℕ) : Type 0 where
  pub enough : i ≤ r
  pub kept : n ≤ r
  pub least : n ≤ i → bufsiz ≤ r
  pub bound : r ≤ size_max

doubled :
    (bufsiz i : ℕ)
    → 0 < bufsiz
    → bufsiz ≤ i
    → (i ≤ i / bufsiz * (2 * bufsiz)) × (bufsiz ≤ i / bufsiz * (2 * bufsiz))
doubled bufsiz i z l = grind (
  arith,
  lt-div-mul-add {a = i} {b = bufsiz} z,
  (le-div_iff_mul-le {k = bufsiz} {x = 1} {y = i} z).1,
)

-- The size is at least that asked for and the old one, at least BUFSIZ where the buffer was not
-- large enough, and doubling it never exceeds SIZE_MAX.
pub realloc_buffer-Grown :
    (bufsiz n i : ℕ)
    → 0 < bufsiz
    → bufsiz ≤ size_max
    → n ≤ size_max
    → i ≤ size_max
    → Grown bufsiz n i (realloc_buffer bufsiz n i)
unfolding realloc_buffer
realloc_buffer-Grown bufsiz n i z b l m = elim (Bool-cases (ltb i n)) [
  | inl e ↦ rw e (record {
    enough = ground (arith, e);
    kept = omega arith;
    least = λ k. ground (arith, e);
    bound = l;
  })
  | inr e ↦ rw e (elim (Bool-cases (ltb i bufsiz)) [
    | inl f ↦ rw f (record {
      enough = ground (arith, f);
      kept = ground (arith, e, f);
      least = λ k. omega arith;
      bound = b;
    })
    | inr f ↦ rw f (elim (Bool-cases (leb (i / bufsiz) (size_max / (2 * bufsiz)))) [
      | inl g ↦ rw g (record {
        enough = (doubled bufsiz i z (ground (arith, f))).0;
        kept = ground (arith, e, (doubled bufsiz i z (ground (arith, f))).0);
        least = λ k. (doubled bufsiz i z (ground (arith, f))).1;
        bound =
            (le-div_iff_mul-le {k = 2 * bufsiz} {x = i / bufsiz} {y = size_max} (omega arith)).0
              (leb→le (i / bufsiz) (size_max / (2 * bufsiz)) g);
      })
      | inr g ↦ rw g (record {
        enough = omega arith;
        kept = ground (arith, e);
        least = λ k. ground (arith, f);
        bound = m;
      })
    ])
  ])
]
