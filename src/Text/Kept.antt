-- ===== src/Text/Kept.antt =====
-- The texts that stay as they are while lines are added and removed (src/buffer.c).
use ed.Common.{
  ℕ, zero, suc, ◌+◌, ◌≤◌, ◌<◌, ◌≡◌, ◌≢◌, refl, ap, ◌∙◌, false, List, [], ◌∷◌, ◌++◌, arith, length,
  take, drop, ◌==◌, length-append, drop-length_append, take-all,
}
use ed.Line.{Ptr, Heap, null, has, Distinct, link_nodes, append_node}
use ed.Line.Apart.{has-append}
use ed.Edit.Valid.{IsBuffer, joined}
use ed.Edit.Append.{off_t_max}
use ed.Text.{Core, Calls, ◌>>=◌, put_buffer_line, get_buffer_line}
use ed.Text.Store.{text_of, InFile, IsStore, Succeeds, Ensures, Ensures-bind, get_buffer_line_lem}
use ed.Text.Put.{Written, put_buffer_line-Written}

take-append_le : (n : ℕ) (xs ys : List ℕ) → n ≤ length xs → take n (xs ++ ys) ≡ take n xs
take-append_le zero xs ys h = refl
take-append_le (suc n) [] ys h = absurd (omega arith)
take-append_le (suc n) (x ∷ xs) ys h = ap (x ∷◌) (take-append_le n xs ys (omega arith))

-- A stretch of a file is the same when the file grows.
stretch-append :
    (start n : ℕ) (xs ys : List ℕ)
    → start + n ≤ length xs
    → take n (drop start (xs ++ ys)) ≡ take n (drop start xs)
stretch-append zero n xs ys h = take-append_le n xs ys (omega arith)
stretch-append (suc start) zero [] ys h = refl
stretch-append (suc start) (suc n) [] ys h = absurd (omega arith)
stretch-append (suc start) n (x ∷ xs) ys h = stretch-append start n xs ys (omega arith)

-- The node has the same text in the same place.
pub record SameText (c c' : Core) (q : Ptr) : Type 0 where
  pub text : text_of c' q ≡ text_of c q
  pub in_file : InFile c' q

module _ (c c' : Core) (xs : List Ptr) (p : Ptr) (ys : List Ptr) (t : List ℕ) where
  fields :
      (q : Ptr)
      → Written c c' xs p ys t
      → (q == p) ≡ false
      → (c'.buffer.heap.len q ≡ c.buffer.heap.len q)
        × (c'.buffer.heap.seek q ≡ c.buffer.heap.seek q)
  unfolding append_node link_nodes
  fields q w n = (
    ap (λ (h : Heap). h.len q) w.appended.heap ∙ rw n refl,
    ap (λ (h : Heap). h.seek q) w.appended.heap ∙ rw n refl,
  )

  -- The other texts stay.
  pub Written-SameText :
      (q : Ptr) → Written c c' xs p ys t → (q == p) ≡ false → InFile c q → SameText c c' q
  Written-SameText q w n i =
      let (l, s) = fields q w n in
      record {
        text =
            ap (λ k. take k (drop (c'.buffer.heap.seek q) c'.fp)) l
            ∙ ap (λ k. take (c.buffer.heap.len q) (drop k c'.fp)) s
            ∙ ap (λ f. take (c.buffer.heap.len q) (drop (c.buffer.heap.seek q) f)) w.file
            ∙ stretch-append (c.buffer.heap.seek q) (c.buffer.heap.len q) c.fp t i;
        in_file =
            omega (arith, l, s, ap (λ (f : List ℕ). length f) w.file, length-append {0} c.fp t);
      }

  -- The text of the new line.
  pub Written-text : Written c c' xs p ys t → (text_of c' p ≡ t) × InFile c' p
  Written-text w = (
    ap (λ k. take k (drop (c'.buffer.heap.seek p) c'.fp)) w.appended.len
        ∙ ap (λ k. take (length t) (drop k c'.fp)) w.appended.seek
        ∙ ap (λ f. take (length t) (drop (length c.fp) f)) w.file
        ∙ ap (take (length t)) (drop-length_append c.fp t)
        ∙ take-all t,
    omega (
      arith,
      w.appended.len,
      w.appended.seek,
      ap (λ (f : List ℕ). length f) w.file,
      length-append {0} c.fp t,
    ),
  )

head-apart :
    (head : Ptr) (xs : List Ptr) (p : Ptr) (ys : List Ptr)
    → has head (joined xs p [] ys) ≡ false
    → (p == head) ≡ false
head-apart head xs p ys h = ground (arith, h, has-append head xs (p ∷ ys))

-- A line that `put_buffer_line` writes, given room for it, is the text that `get_buffer_line` reads
-- of the new node.
pub get_buffer_line-put_buffer_line :
    (c : Core) (xs : List Ptr) (p : Ptr) (ys : List Ptr) (t rest : List ℕ) (put get : Calls)
    → Succeeds put
    → Succeeds get
    → IsStore c
    → IsBuffer c.buffer (xs ++ ys)
    → c.buffer.state.dot ≡ length xs
    → Distinct (c.buffer.line_head ∷ joined xs p [] ys)
    → p ≢ null
    → c.buffer.state.lines < off_t_max
    → length c.fp + length t ≤ off_t_max
    → Ensures
        (put_buffer_line put p (t ++ 10 ∷ rest) (length t + 1) c >>= λ left c₁.
          get_buffer_line get p c₁)
        (λ s c'. (s ≡ t) × IsStore c' × IsBuffer c'.buffer (joined xs p [] ys))
get_buffer_line-put_buffer_line c xs p ys t rest put get sp sg st v d dis z l f =
    Ensures-bind (λ left c₁. (left ≡ rest) × Written c c₁ xs p ys t)
      (λ s c'. (s ≡ t) × IsStore c' × IsBuffer c'.buffer (joined xs p [] ys)) _ _
      (put_buffer_line-Written c xs p ys t put rest sp st v d dis z l f)
      λ left c₁ (e, w).
        let (text, i) = Written-text c c₁ xs p ys t w in
        let n : (p == c₁.buffer.line_head) ≡ false =
          ap (p ==◌) w.appended.head ∙ head-apart c.buffer.line_head xs p ys dis.0 in
        rw (get_buffer_line_lem get p c₁ sg w.store.offset i n)
          (text, record { offset = refl; at_end = λ e. cc }, w.appended.buffer)

-- The nodes and the file are the same.
pub record SameNodes (c c' : Core) : Type 0 where
  pub len : (q : Ptr) → c'.buffer.heap.len q ≡ c.buffer.heap.len q
  pub seek : (q : Ptr) → c'.buffer.heap.seek q ≡ c.buffer.heap.seek q
  pub file : c'.fp ≡ c.fp

pub SameNodes-SameText : (c c' : Core) (q : Ptr) → SameNodes c c' → InFile c q → SameText c c' q
SameNodes-SameText c c' q s i = record {
  text =
      ap (λ k. take k (drop (c'.buffer.heap.seek q) c'.fp)) (s.len q)
      ∙ ap (λ k. take (c.buffer.heap.len q) (drop k c'.fp)) (s.seek q)
      ∙ ap (λ f. take (c.buffer.heap.len q) (drop (c.buffer.heap.seek q) f)) s.file;
  in_file = omega (arith, s.len q, s.seek q, ap (λ (f : List ℕ). length f) s.file);
}

pub SameText-trans :
    (c c' c'' : Core) (q : Ptr) → SameText c c' q → SameText c' c'' q → SameText c c'' q
SameText-trans c c' c'' q s t = record { text = t.text ∙ s.text; in_file = t.in_file }
