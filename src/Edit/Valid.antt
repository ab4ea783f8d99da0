-- ===== src/Edit/Valid.antt =====
-- The invariant of the editor buffer, and `get_line_node` under it.
use ed.Common.{
  ℕ, suc, ◌+◌, ◌≤◌, ◌<◌, ◌≡◌, false, leb, Bool-cases, inl, inr, sym, subst, List, [], ◌∷◌, ◌++◌,
  arith, length, length-append, ap, ◌∙◌, append_assoc,
}
use ed.Line.{Ptr, null, has}
use ed.Line.Chain.{last}
use ed.Line.Apart.{first, has-append}
use ed.Line.Ring.{IsRing}
use ed.Line.Locate.{Cache, at_line}
use ed.Line.Locate.Walk.{
  node_at, node_at-zero, IsCached, cached-at_line, get_line_node_lem, get_line_node-past,
  node_at-length, node_at-suc-length, last-append_cons,
}
use ed.Edit.{Buffer, UndoNode, Outcome, ok, err, ◌>>=◌, locate}
use ed.Edit.Global.{inc_mod}

-- The lines of the buffer are the nodes `xs`.
pub record IsBuffer (ed : Buffer) (xs : List Ptr) : Type 0 where
  pub ring : IsRing ed.heap ed.line_head xs
  pub lines : ed.state.lines ≡ length xs
  pub dot : ed.state.dot ≤ length xs
  pub cached : IsCached ed.line_head xs ed.cache
  pub not_null : has null (ed.line_head ∷ xs) ≡ false

-- The operation succeeds, and leaves a buffer with the property.
abbrev pub Ensures : {A : Type 0} → Outcome A → (A → Buffer → Type 0) → Type 0
Ensures (ok a ed) P = P a ed
Ensures (err e ed) P = ⊥

pub Ensures-mono :
    {A : Type 0} (P Q : A → Buffer → Type 0) (r : Outcome A)
    → Ensures r P
    → ((a : A) (ed : Buffer) → P a ed → Q a ed)
    → Ensures r Q
Ensures-mono P Q (ok a ed) p f = f a ed p
Ensures-mono P Q (err e ed) p f = absurd p

pub Ensures-bind :
    {A B : Type 0} (P : A → Buffer → Type 0) (Q : B → Buffer → Type 0) (r : Outcome A)
    (k : A → Buffer → Outcome B)
    → Ensures r P
    → ((a : A) (ed : Buffer) → P a ed → Ensures (k a ed) Q)
    → Ensures (r >>= k) Q
Ensures-bind P Q (ok a ed) k p f = f a ed p
Ensures-bind P Q (err e ed) k p f = absurd p

module _ (ed : Buffer) (xs : List Ptr) (v : IsBuffer ed xs) where
  abbrev pub moved_to : ℕ → Buffer
  moved_to n = record ed { cache = at_line (node_at ed.line_head xs n) n }

  pub locate_lem : (n : ℕ) → n ≤ length xs → locate n ed ≡ moved_to n
  unfolding locate
  locate_lem n l =
      ap (λ (c : Cache). record ed { cache = c })
        (rw v.lines (get_line_node_lem ed.line_head xs ed.heap v.ring n ed.cache l v.cached))

  pub moved_to-IsBuffer : (n : ℕ) → n ≤ length xs → IsBuffer (moved_to n) xs
  moved_to-IsBuffer n l = record {
    ring = v.ring;
    lines = v.lines;
    dot = v.dot;
    cached = record { node = cached-at_line ed.line_head xs n v.not_null l; line = l };
    not_null = v.not_null;
  }

  -- The buffer stays valid, also where there is no such line.
  pub locate-IsBuffer : (n : ℕ) → IsBuffer (locate n ed) xs
  unfolding locate
  locate-IsBuffer n = elim (Bool-cases (leb n (length xs))) [
    | inl e ↦
        let l : n ≤ length xs = ground (arith, e) in
        subst (λ (ed : Buffer). IsBuffer ed xs) (sym (locate_lem n l)) (moved_to-IsBuffer n l)
    | inr e ↦
        let l : length xs < n = ground (arith, e) in
        let past : locate n ed ≡ moved_to (length xs) =
          ap (λ (c : Cache). record ed { cache = c })
            (rw v.lines
              (get_line_node-past ed.line_head xs ed.heap v.ring n ed.cache l v.cached)) in
        subst (λ (ed : Buffer). IsBuffer ed xs) (sym past)
          (moved_to-IsBuffer (length xs) (omega arith))
  ]

pub IsBuffer-undo :
    {ed : Buffer} {xs : List Ptr} (queue : List UndoNode)
    → IsBuffer ed xs
    → IsBuffer (record ed { undo = queue }) xs
IsBuffer-undo queue v = record {
  ring = v.ring;
  lines = v.lines;
  dot = v.dot;
  cached = v.cached;
  not_null = v.not_null;
}

-- The nodes of the lines at the ends of a range, and around it.
abbrev pub joined : List Ptr → Ptr → List Ptr → List Ptr → List Ptr
joined xs d ds ys = xs ++ (d ∷ ds ++ ys)

pub length-joined :
    (xs : List Ptr) (d : Ptr) (ds ys : List Ptr)
    → length (joined xs d ds ys) ≡ length xs + suc (length ds) + length ys
length-joined xs d ds ys = omega (arith, length-append xs (d ∷ ds ++ ys), length-append ds ys)

-- What is no node of the whole is no node of the part.
pub has-left :
    (p head : Ptr) (xs : List Ptr) (d : Ptr) (ds ys : List Ptr)
    → has p (head ∷ joined xs d ds ys) ≡ false
    → has p (head ∷ (xs ++ ys)) ≡ false
has-left p head xs d ds ys h =
    ground (arith, has-append p xs ys, has-append p xs (d ∷ ds ++ ys), has-append p ds ys)

module _ (p : Ptr) (xs : List Ptr) (d : Ptr) (ds ys : List Ptr) where
  pub node_before : node_at p (joined xs d ds ys) (length xs) ≡ last p xs
  node_before = node_at-length p xs (d ∷ ds ++ ys)

  pub node_from : node_at p (joined xs d ds ys) (suc (length xs)) ≡ d
  node_from = node_at-suc-length p xs d (ds ++ ys)

  pub node_to : node_at p (joined xs d ds ys) (length xs + suc (length ds)) ≡ last d ds
  node_to =
      rw (← length-append xs (d ∷ ds), ← append_assoc xs (d ∷ ds) ys)
        (node_at-length p (xs ++ d ∷ ds) ys ∙ last-append_cons p xs d ds)

  after_range :
      (y : Ptr) (zs : List Ptr)
      → node_at p (xs ++ (d ∷ ds ++ y ∷ zs)) (length xs + suc (length ds) + 1) ≡ y
  after_range y zs =
      let e : suc (length (xs ++ d ∷ ds)) ≡ length xs + suc (length ds) + 1 =
        omega (arith, length-append xs (d ∷ ds)) in
      rw (← e, ← append_assoc xs (d ∷ ds) (y ∷ zs)) (node_at-suc-length p (xs ++ d ∷ ds) y zs)

pub node_behind :
    (p : Ptr) (xs : List Ptr) (d : Ptr) (ds ys : List Ptr)
    → node_at p
        (joined xs d ds ys)
        (inc_mod (length xs + suc (length ds)) (length (joined xs d ds ys)))
      ≡ first ys p
node_behind p xs d ds [] =
    ground (arith, node_at-zero p (joined xs d ds []), length-joined xs d ds [])
node_behind p xs d ds (y ∷ ys) =
    ground (arith, after_range p xs d ds ys y ys, length-joined xs d ds (y ∷ ys))
