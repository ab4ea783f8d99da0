-- ===== src/Text/Store.antt =====
-- The texts that `get_buffer_line` and `put_buffer_line` (src/buffer.c) read and write.
use ed.Common.{
  ℕ, ◌+◌, ◌-◌, ◌≤◌, ◌≡◌, refl, ap, ◌∙◌, true, false, some, List, arith, length, take, drop, ◌==◌,
  inl, inr, Bool-cases, length-take, length-drop,
}
use ed.Line.{Ptr}
use ed.Edit
use ed.Edit.{Buffer, Outcome}
use ed.Edit.Valid
use ed.Text.{
  Core, Status, ok, err, run, with_buffer, ◌>>=◌, Calls, seek_to, read_line, get_buffer_line,
  put_line, put_buffer_line,
}

-- The text of a node.
abbrev pub text_of : Core → Ptr → List ℕ
text_of c p = take (c.buffer.heap.len p) (drop (c.buffer.heap.seek p) c.fp)

abbrev pub InFile : Core → Ptr → Type 0
InFile c p = c.buffer.heap.seek p + c.buffer.heap.len p ≤ length c.fp

-- The stream stands at the offset, and at the end of the file where it need not seek to write.
pub record IsStore (c : Core) : Type 0 where
  pub offset : c.offset ≡ some c.position
  pub at_end : c.seek_on_write ≡ false → c.position ≡ length c.fp

-- Every call succeeds.
pub record Succeeds (calls : Calls) : Type 0 where
  pub memory : calls.memory ≡ true
  pub join_memory : calls.join_memory ≡ true
  pub seek : calls.seek ≡ true
  pub write : calls.write ≡ true

abbrev pub after_read : Ptr → Core → Core
after_read p c =
    let end = c.buffer.heap.seek p + c.buffer.heap.len p in
    record c { offset = some end; position = end; seek_on_write = true }

seek_to_lem :
    (calls : Calls) (n : ℕ) (c : Core)
    → calls.seek ≡ true
    → c.offset ≡ some c.position
    → seek_to calls n c ≡ ok tt (record c { offset = some n; position = n })
unfolding seek_to
seek_to_lem calls n c s o = rw (o, s) (ground (arith, o))

length-text :
    (file : List ℕ) (start n : ℕ) → start + n ≤ length file → length (take n (drop start file)) ≡ n
length-text file start n h =
    omega (arith, length-take {0} n (drop start file), length-drop {0} start file)

-- A text that is in the file is read, whatever was read or written before.
pub get_buffer_line_lem :
    (calls : Calls) (p : Ptr) (c : Core)
    → Succeeds calls
    → c.offset ≡ some c.position
    → InFile c p
    → (p == c.buffer.line_head) ≡ false
    → get_buffer_line calls p c ≡ ok (text_of c p) (after_read p c)
unfolding get_buffer_line read_line
get_buffer_line_lem calls p c s o i n =
    let h = c.buffer.heap in
    let l = length-text c.fp (h.seek p) (h.len p) i in
    rw (n, seek_to_lem calls (h.seek p) (record c { seek_on_write = true }) s.seek o, s.memory, l)
      (ground arith)

-- The operation succeeds, with the property.
abbrev pub Ensures : {A : Type 0} → Status A → (A → Core → Type 0) → Type 0
Ensures (ok a c) P = P a c
Ensures (err e c) P = ⊥

pub Ensures-bind :
    {A B : Type 0} (P : A → Core → Type 0) (Q : B → Core → Type 0) (r : Status A)
    (k : A → Core → Status B)
    → Ensures r P
    → ((a : A) (c : Core) → P a c → Ensures (k a c) Q)
    → Ensures (r >>= k) Q
Ensures-bind P Q (ok a c) k p f = f a c p
Ensures-bind P Q (err e c) k p f = absurd p

pub Ensures-mono :
    {A : Type 0} (P Q : A → Core → Type 0) (r : Status A)
    → Ensures r P
    → ((a : A) (c : Core) → P a c → Q a c)
    → Ensures r Q
Ensures-mono P Q (ok a c) p f = f a c p
Ensures-mono P Q (err e c) p f = absurd p

-- An operation on the buffer, which leaves the file alone.
pub Ensures-run :
    {A : Type 0} (P : A → Buffer → Type 0) (c : Core) (r : Outcome A)
    → Valid.Ensures r P
    → Ensures (run c r) (λ a c'. P a c'.buffer × (c' ≡ with_buffer c c'.buffer))
Ensures-run P c (Edit.ok a ed) h = (h, refl)
Ensures-run P c (Edit.err e ed) h = absurd h

abbrev pub at_end : Core → Core
at_end c = record c { position = length c.fp; offset = some (length c.fp); seek_on_write = false }

at_end-same : (c : Core) → IsStore c → c.seek_on_write ≡ false → c ≡ at_end c
at_end-same c v e = λ i. record c {
  position = v.at_end e i;
  offset = (v.offset ∙ ap some (v.at_end e)) i;
  seek_on_write = e i;
}

pub put_buffer_line-at_end :
    (calls : Calls) (lp : Ptr) (t : List ℕ) (len : ℕ) (c : Core)
    → Succeeds calls
    → IsStore c
    → put_buffer_line calls lp t len c
      ≡ (put_line calls lp (take (len - 1) t) (length c.fp) (at_end c) >>= λ _. ok (drop len t))
unfolding put_buffer_line
put_buffer_line-at_end calls lp t len c s v = elim (Bool-cases c.seek_on_write) [
  | inl e ↦ rw (e, s.seek) refl
  | inr e ↦ ap (put_buffer_line calls lp t len) (at_end-same c v e)
]
