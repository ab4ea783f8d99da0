-- ===== src/Line/Ring.antt =====
-- The deque as a ring of distinct nodes through its head, cut in two and in three.
use ed.Common.{List, [], ◌∷◌, ◌++◌}
use ed.Line.{Ptr, Heap, Distinct}
use ed.Line.Chain.{Chain, Joint, last, Chain-append, Chain-split}
use ed.Line.Apart.{
  Apart, Apart-append, Apart-append_right, Distinct-split, Distinct-append, first, rest, first-rest,
}

-- From `head` the links lead through the distinct nodes `xs`, in order, back to `head`.
pub record IsRing (h : Heap) (head : Ptr) (xs : List Ptr) : Type 0 where
  pub chain : Chain h head (xs ++ head ∷ [])
  pub distinct : Distinct (head ∷ xs)

-- The three stretches of a ring: before, the nodes `d ∷ ds`, and after.
pub record Stretches (h : Heap) (head : Ptr) (xs : List Ptr) (d : Ptr) (ds ys : List Ptr)
    : Type 0 where
  pub before : Chain h head xs
  pub enter : Joint h (last head xs) d
  pub middle : Chain h d ds
  pub leave : Joint h (last d ds) (first ys head)
  pub after : Chain h (first ys head) (rest ys head)

-- Their nodes are distinct.
pub record AllDistinct (head : Ptr) (xs : List Ptr) (d : Ptr) (ds ys : List Ptr) : Type 0 where
  pub before : Distinct (head ∷ xs)
  pub middle : Distinct (d ∷ ds)
  pub after : Distinct (head ∷ ys)
  pub before_middle : Apart (head ∷ xs) (d ∷ ds)
  pub before_after : Apart (head ∷ xs) ys
  pub middle_after : Apart (d ∷ ds) ys

module _ {h : Heap} {head : Ptr} where
  pub cut :
      (xs ys : List Ptr)
      → IsRing h head (xs ++ ys)
      → Chain h head xs
        × Joint h (last head xs) (first ys head)
        × Chain h (first ys head) (rest ys head)
  cut xs ys r = Chain-split h head xs _ (rw first-rest at r.chain)

  pub paste :
      (xs ys : List Ptr)
      → Chain h head xs
      → Joint h (last head xs) (first ys head)
      → Chain h (first ys head) (rest ys head)
      → Distinct (head ∷ (xs ++ ys))
      → IsRing h head (xs ++ ys)
  paste xs ys c j e d = record {
    chain = rw first-rest (Chain-append h head xs _ c j e);
    distinct = d;
  }

  pub cut_three :
      (xs : List Ptr) (d : Ptr) (ds ys : List Ptr)
      → IsRing h head (xs ++ (d ∷ ds ++ ys))
      → Stretches h head xs d ds ys
  cut_three xs d ds ys r =
      let (c, j, e) = cut xs (d ∷ ds ++ ys) r in
      let (m, k, f) = Chain-split h d ds _ (rw first-rest at e) in
      record { before = c; enter = j; middle = m; leave = k; after = f }

  pub paste_three :
      (xs : List Ptr) (d : Ptr) (ds ys : List Ptr)
      → Stretches h head xs d ds ys
      → Distinct (head ∷ (xs ++ (d ∷ ds ++ ys)))
      → IsRing h head (xs ++ (d ∷ ds ++ ys))
  paste_three xs d ds ys s dis =
      paste xs (d ∷ ds ++ ys) s.before s.enter
        (rw first-rest (Chain-append h d ds _ s.middle s.leave s.after)) dis

pub all_distinct :
    (head : Ptr) (xs : List Ptr) (d : Ptr) (ds ys : List Ptr)
    → Distinct (head ∷ (xs ++ (d ∷ ds ++ ys)))
    → AllDistinct head xs d ds ys
all_distinct head xs d ds ys dis =
    let (a, b, c) = Distinct-split (head ∷ xs) (d ∷ ds ++ ys) dis in
    let (e, f, g) = Distinct-split (d ∷ ds) ys b in
    let (i, j) = Apart-append_right (head ∷ xs) (d ∷ ds) ys c in
    record {
      before = a;
      middle = e;
      after = (j.0, f);
      before_middle = i;
      before_after = j;
      middle_after = g;
    }

module _ {head : Ptr} {xs : List Ptr} {d : Ptr} {ds ys : List Ptr} where
  pub Distinct-all : AllDistinct head xs d ds ys → Distinct (head ∷ (xs ++ (d ∷ ds ++ ys)))
  Distinct-all a =
      Distinct-append (head ∷ xs) (d ∷ ds ++ ys) a.before
        (Distinct-append (d ∷ ds) ys a.middle a.after.1 a.middle_after)
        (Apart-append (head ∷ xs) (d ∷ ds) ys a.before_middle a.before_after)

  pub Distinct-without : AllDistinct head xs d ds ys → Distinct (head ∷ (xs ++ ys))
  Distinct-without a = Distinct-append (head ∷ xs) ys a.before a.after.1 a.before_after
