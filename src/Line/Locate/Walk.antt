-- ===== src/Line/Locate/Walk.antt =====
-- `get_line_node` (src/buffer.c) returns the node of the line, from every cache.
use ed.Common.{
  ℕ, zero, suc, ◌+◌, ◌-◌, ◌≤◌, ◌<◌, ◌≡◌, refl, true, false, List, [], ◌∷◌, ◌++◌, arith, length,
  length-append, ◌∙◌, sym, ap,
}
use ed.Line.{Ptr, null, Heap, has}
use ed.Line.Chain.{Chain, last}
use ed.Line.Ring.{IsRing}
use ed.Line.Locate.{Cache, at_line, walk_forw, walk_back, cached, get_line_node}

-- The node of line `i`, where line 0 is `p`.
unfoldable pub node_at : Ptr → List Ptr → ℕ → Ptr
node_at p [] i = p
node_at p (x ∷ xs) zero = p
node_at p (x ∷ xs) (suc i) = node_at x xs i

pub node_at-zero : (p : Ptr) (xs : List Ptr) → node_at p xs 0 ≡ p
unfolding node_at
node_at-zero p [] = refl
node_at-zero p (x ∷ xs) = refl

pub node_at-append :
    (p : Ptr) (xs ys : List Ptr) (i : ℕ) → i ≤ length xs → node_at p (xs ++ ys) i ≡ node_at p xs i
unfolding node_at
node_at-append p [] ys zero h = node_at-zero p ys
node_at-append p [] ys (suc i) h = absurd (omega arith)
node_at-append p (x ∷ xs) ys zero h = refl
node_at-append p (x ∷ xs) ys (suc i) h = node_at-append x xs ys i (omega arith)

pub node_at-end :
    (p : Ptr) (xs : List Ptr) (q : Ptr) → node_at p (xs ++ q ∷ []) (suc (length xs)) ≡ q
unfolding node_at
node_at-end p [] q = refl
node_at-end p (x ∷ xs) q = node_at-end x xs q

pub node_at-has :
    (p : Ptr) (xs : List Ptr) (i : ℕ) → i ≤ length xs → has (node_at p xs i) (p ∷ xs) ≡ true
unfolding node_at
node_at-has p [] i h = ground arith
node_at-has p (x ∷ xs) zero h = ground arith
node_at-has p (x ∷ xs) (suc i) h = ground (arith, node_at-has x xs i (omega arith))

module _ (h : Heap) where
  pub forw-node_at :
      (p : Ptr) (xs : List Ptr) (i : ℕ)
      → Chain h p xs
      → i < length xs
      → h.forw (node_at p xs i) ≡ node_at p xs (suc i)
  unfolding node_at
  forw-node_at p [] i c l = absurd (omega arith)
  forw-node_at p (x ∷ xs) zero c l = c.0 ∙ sym (node_at-zero x xs)
  forw-node_at p (x ∷ xs) (suc i) c l = forw-node_at x xs i c.2 (omega arith)

  pub back-node_at :
      (p : Ptr) (xs : List Ptr) (i : ℕ)
      → Chain h p xs
      → i < length xs
      → h.back (node_at p xs (suc i)) ≡ node_at p xs i
  unfolding node_at
  back-node_at p [] i c l = absurd (omega arith)
  back-node_at p (x ∷ xs) zero c l = ap h.back (node_at-zero x xs) ∙ c.1
  back-node_at p (x ∷ xs) (suc i) c l = back-node_at x xs i c.2 (omega arith)

  module _ (p : Ptr) (xs : List Ptr) (c : Chain h p xs) where
    walk_forw_lem :
        (k i j : ℕ) → i + k ≡ j → j ≤ length xs → walk_forw h k (node_at p xs i) ≡ node_at p xs j
    unfolding walk_forw
    walk_forw_lem zero i j e l = ap (node_at p xs) (omega arith)
    walk_forw_lem (suc k) i j e l =
        rw (forw-node_at p xs i c (omega arith)) (walk_forw_lem k (suc i) j (omega arith) l)

    walk_back_lem :
        (k i j : ℕ) → i + k ≡ j → j ≤ length xs → walk_back h k (node_at p xs j) ≡ node_at p xs i
    unfolding walk_back
    walk_back_lem zero i j e l = ap (node_at p xs) (omega arith)
    walk_back_lem (suc k) i zero e l = absurd (omega arith)
    walk_back_lem (suc k) i (suc j) e l =
        rw (back-node_at p xs j c (omega arith)) (walk_back_lem k i j (omega arith) (omega arith))

-- The cache holds the node of the line that it names.
pub record IsCached (head : Ptr) (xs : List Ptr) (c : Cache) : Type 0 where
  pub node : cached head c ≡ node_at head xs c.n_prev
  pub line : c.n_prev ≤ length xs

module _ (head : Ptr) (xs : List Ptr) where
  pub cached-at_line :
      (n : ℕ)
      → has null (head ∷ xs) ≡ false
      → n ≤ length xs
      → cached head (at_line (node_at head xs n) n) ≡ node_at head xs n
  cached-at_line n z l = ground (arith, node_at-has head xs n l)

  module _ (h : Heap) (r : IsRing h head xs) where
    to_line_forw :
        (k i j : ℕ)
        → i + k ≡ j
        → j ≤ length xs
        → walk_forw h k (node_at head xs i) ≡ node_at head xs j
    to_line_forw k i j e l = rw (← node_at-append head xs (head ∷ []) i (omega arith)) (
        walk_forw_lem h head (xs ++ head ∷ []) r.chain k i j e
          (omega (arith, length-append xs (head ∷ [])))
        ∙ node_at-append head xs (head ∷ []) j l)

    to_line_back :
        (k i j : ℕ)
        → i + k ≡ j
        → j ≤ length xs
        → walk_back h k (node_at head xs j) ≡ node_at head xs i
    to_line_back k i j e l = rw (← node_at-append head xs (head ∷ []) j l) (
        walk_back_lem h head (xs ++ head ∷ []) r.chain k i j e
          (omega (arith, length-append xs (head ∷ [])))
        ∙ node_at-append head xs (head ∷ []) i (omega arith))

    back-head : h.back head ≡ node_at head xs (length xs)
    back-head =
        ap h.back (sym (node_at-end head xs head))
        ∙ back-node_at h head (xs ++ head ∷ []) (length xs) r.chain
            (omega (arith, length-append xs (head ∷ [])))
        ∙ node_at-append head xs (head ∷ []) (length xs) (omega arith)

    -- In a ring, from a cache that holds the node of the line that it names, `get_line_node`
    -- returns the node of any line of the buffer, whichever of the four walks it takes, and
    -- caches it.
    pub get_line_node_lem :
        (n : ℕ) (c : Cache)
        → n ≤ length xs
        → IsCached head xs c
        → get_line_node h head (length xs) n c ≡ at_line (node_at head xs n) n
    unfolding get_line_node
    get_line_node_lem n c l v = rw v.node (
        ground (
          arith,
          v.line,
          back-head,
          to_line_forw (n - c.n_prev) c.n_prev n,
          to_line_back (length xs - n) n (length xs),
          to_line_back (c.n_prev - n) n c.n_prev,
          to_line_forw n 0 n,
          node_at-zero head xs,
        ))

    -- Behind the last line it returns and caches the last.
    pub get_line_node-past :
        (n : ℕ) (c : Cache)
        → length xs < n
        → IsCached head xs c
        → get_line_node h head (length xs) n c ≡ at_line (node_at head xs (length xs)) (length xs)
    unfolding get_line_node walk_back
    get_line_node-past n c l v = ground (arith, v.line, back-head, to_line_back 0 (length xs))

    pub IsCached-get_line_node :
        (n : ℕ) (c : Cache)
        → has null (head ∷ xs) ≡ false
        → n ≤ length xs
        → IsCached head xs c
        → IsCached head xs (get_line_node h head (length xs) n c)
    IsCached-get_line_node n c z l v =
        rw (get_line_node_lem n c l v) (record { node = cached-at_line n z l; line = l })

node_at-last : (p : Ptr) (xs : List Ptr) → node_at p xs (length xs) ≡ last p xs
unfolding node_at
node_at-last p [] = refl
node_at-last p (x ∷ xs) = node_at-last x xs

-- The node of the last line of a front part, and the one behind it.
pub node_at-length : (p : Ptr) (xs ys : List Ptr) → node_at p (xs ++ ys) (length xs) ≡ last p xs
node_at-length p xs ys = node_at-append p xs ys (length xs) (omega arith) ∙ node_at-last p xs

pub node_at-suc-length :
    (p : Ptr) (xs : List Ptr) (y : Ptr) (ys : List Ptr)
    → node_at p (xs ++ y ∷ ys) (suc (length xs)) ≡ y
unfolding node_at
node_at-suc-length p [] y ys = node_at-zero y ys
node_at-suc-length p (x ∷ xs) y ys = node_at-suc-length x xs y ys

pub last-append_cons :
    (p : Ptr) (xs : List Ptr) (d : Ptr) (ds : List Ptr) → last p (xs ++ d ∷ ds) ≡ last d ds
last-append_cons p [] d ds = refl
last-append_cons p (x ∷ xs) d ds = last-append_cons x xs d ds
