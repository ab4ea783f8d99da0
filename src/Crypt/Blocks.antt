-- ===== src/Crypt/Blocks.antt =====
-- The bytes of the last block that `cbc_encode` (src/cbc.c) writes.
use ed.Common.{
  ℕ, zero, suc, ◌-◌, ◌<◌, ◌≡◌, subst, ◌∙◌, List, [], ◌∷◌, ◌++◌, arith, length, take, get_or, set,
  length-set, length-append, length-take, take-length_append, take-set_le, get_or-set,
}
use ed.Crypt.{last_block}
use ed.Crypt.Xor.{AreBytes, IsBlock}

set-AreBytes : (xs : List ℕ) (i v : ℕ) → AreBytes xs → v < 256 → AreBytes (set xs i v)
set-AreBytes [] i v h l = tt
set-AreBytes (x ∷ xs) zero v (p, ps) l = (l, ps)
set-AreBytes (x ∷ xs) (suc i) v (p, ps) l = (p, set-AreBytes xs i v ps l)

pub set-IsBlock : (b : List ℕ) (i v : ℕ) → IsBlock b → v < 256 → IsBlock (set b i v)
set-IsBlock b i v (l, p) h = (length-set b i v ∙ l, set-AreBytes b i v p h)

pub append-AreBytes : (xs ys : List ℕ) → AreBytes xs → AreBytes ys → AreBytes (xs ++ ys)
append-AreBytes [] ys p q = q
append-AreBytes (x ∷ xs) ys (p, ps) q = (p, append-AreBytes xs ys ps q)

pub take-AreBytes : (n : ℕ) (xs : List ℕ) → AreBytes xs → AreBytes (take n xs)
take-AreBytes zero xs p = tt
take-AreBytes (suc n) [] p = tt
take-AreBytes (suc n) (x ∷ xs) (p, ps) = (p, take-AreBytes n xs ps)

-- The last block has the characters, and their number at its end.
pub last_block-IsBlock :
    (buf pad : List ℕ) (n : ℕ) → IsBlock buf → IsBlock pad → n < 8 → IsBlock (last_block buf pad n)
unfolding last_block
last_block-IsBlock buf pad n (l, b) (k, p) h =
    set-IsBlock (take n buf ++ take (8 - n) pad) 7 n
      (
        omega (
          arith,
          length-append {0} (take n buf) (take (8 - n) pad),
          length-take {0} n buf,
          length-take {0} (8 - n) pad,
        ),
        append-AreBytes (take n buf) (take (8 - n) pad) (take-AreBytes n buf b)
            (take-AreBytes (8 - n) pad p),
      )
      (omega arith)

pub take-last_block :
    (buf pad : List ℕ) (n : ℕ) → length buf ≡ 8 → n < 8 → take n (last_block buf pad n) ≡ take n buf
unfolding last_block
take-last_block buf pad n l h =
    take-set_le (take n buf ++ take (8 - n) pad) n 7 n (omega arith)
    ∙ subst (λ m. take m (take n buf ++ take (8 - n) pad) ≡ take n buf)
        (omega (arith, length-take {0} n buf)) (take-length_append (take n buf) (take (8 - n) pad))

pub get_or-last_block :
    (buf pad : List ℕ) (n : ℕ)
    → length buf ≡ 8
    → length pad ≡ 8
    → n < 8
    → get_or (last_block buf pad n) 7 0 ≡ n
unfolding last_block
get_or-last_block buf pad n l k h = get_or-set (take n buf ++ take (8 - n) pad) 7 n 0 (
    omega (
      arith,
      length-append {0} (take n buf) (take (8 - n) pad),
      length-take {0} n buf,
      length-take {0} (8 - n) pad,
    ))
