-- ===== src/Text/Put.antt =====
-- A line that `put_buffer_line` (src/buffer.c) writes behind the current line.
use ed.Common.{
  ℕ, zero, suc, ◌+◌, ◌-◌, ◌≤◌, ◌<◌, ◌≡◌, ◌≢◌, refl, sym, ap, subst, ◌∙◌, true, false, some, List,
  [], ◌∷◌, ◌++◌, arith, length, take, drop, ltb, append-nil, take-all, length-append,
  take-length_append, drop-length_append, drop-drop,
}
use ed.Line.{Ptr, null, Distinct}
use ed.Edit.{Buffer}
use ed.Edit.Valid
use ed.Edit.Valid.{IsBuffer, joined, length-joined}
use ed.Edit.Append.{
  Appended, append_line_node, append_line_node-Appended, off_t_max, Ensures-both,
  dot-append_line_node,
}
use ed.Text.{Core, run, with_buffer, Calls, write_bytes, put_line, put_buffer_line}
use ed.Text.Store.{
  IsStore, Succeeds, Ensures, Ensures-bind, Ensures-run, at_end, put_buffer_line-at_end,
}

drop-beyond : (n : ℕ) (xs : List ℕ) → length xs ≤ n → drop n xs ≡ []
drop-beyond zero [] h = refl
drop-beyond zero (x ∷ xs) h = absurd (omega arith)
drop-beyond (suc n) [] h = refl
drop-beyond (suc n) (x ∷ xs) h = drop-beyond n xs (omega arith)

-- A write at the end of the file.
write_bytes-end : (t : List ℕ) (c : Core) → (write_bytes t (at_end c)).fp ≡ c.fp ++ t
write_bytes-end t c =
    rw (take-all c.fp, drop-beyond (length c.fp + length t) c.fp (omega arith), append-nil t) refl

-- The text `t` was written, and the line `p` with it added behind the lines `xs`.
pub record Written (c c' : Core) (xs : List Ptr) (p : Ptr) (ys : List Ptr) (t : List ℕ)
    : Type 0 where
  pub appended : Appended c.buffer c'.buffer xs p ys (length t) (length c.fp)
  pub file : c'.fp ≡ c.fp ++ t
  pub store : IsStore c'
  pub dot : c'.buffer.state.dot ≡ length xs + 1

abbrev next_dot : Buffer → Buffer
next_dot ed = record ed { state = record (ed.state) { dot = ed.state.dot + 1 } }

module _ (c : Core) (xs : List Ptr) (p : Ptr) (ys : List Ptr) (t : List ℕ) where
  -- What `put_line` makes of the added line.
  put-Written :
      (ed : Buffer)
      → Appended c.buffer ed xs p ys (length t) (length c.fp)
      → ed.state.dot ≡ length xs
      → Written c
          (record (write_bytes t (at_end c)) {
            buffer = next_dot ed;
            offset = some (length c.fp + length t);
          })
          xs
          p
          ys
          t
  put-Written ed v d = record {
    appended = record {
      buffer = record {
        ring = v.buffer.ring;
        lines = v.buffer.lines;
        dot = omega (arith, length-joined xs p [] ys);
        cached = v.buffer.cached;
        not_null = v.buffer.not_null;
      };
      undo = v.undo;
      len = v.len;
      seek = v.seek;
      heap = v.heap;
      saved = v.saved;
      head = v.head;
    };
    file = write_bytes-end t c;
    store = record {
      offset = refl;
      at_end = λ e.
          omega (
            arith,
            ap (λ (xs : List ℕ). length xs) (write_bytes-end t c),
            length-append {0} c.fp t,
          );
    };
    dot = omega arith;
  }

  put_line-Written :
      (calls : Calls)
      → Succeeds calls
      → IsBuffer c.buffer (xs ++ ys)
      → c.buffer.state.dot ≡ length xs
      → Distinct (c.buffer.line_head ∷ joined xs p [] ys)
      → p ≢ null
      → c.buffer.state.lines < off_t_max
      → length c.fp + length t ≤ off_t_max
      → Ensures (put_line calls p t (length c.fp) (at_end c)) (λ _ c'. Written c c' xs p ys t)
  unfolding put_line
  put_line-Written calls s v d dis z l f =
      let fits : ltb off_t_max (length c.fp + length t) ≡ false = ground arith in
      let add = append_line_node true p (length t) (length c.fp) c.buffer.state.dot c.buffer in
      let w = write_bytes t (at_end c) in
      let good : ℕ → Buffer → Type 0 = λ lp ed.
        ((lp ≡ p) × Appended c.buffer ed xs p ys (length t) (length c.fp))
        × (ed.state.dot ≡ c.buffer.state.dot) in
      let added : Valid.Ensures add good =
        Ensures-both _ _ add
          (subst
            (λ n.
              Valid.Ensures (append_line_node true p (length t) (length c.fp) n c.buffer)
                (λ lp ed. (lp ≡ p) × Appended c.buffer ed xs p ys (length t) (length c.fp)))
            (sym d) (append_line_node-Appended c.buffer xs p ys (length t) (length c.fp) v dis z l))
          (dot-append_line_node true p (length t) (length c.fp) c.buffer.state.dot c.buffer) in
      rw (fits, s.write, s.memory)
        (Ensures-bind (λ lp c'. good lp c'.buffer × (c' ≡ with_buffer w c'.buffer))
          (λ _ c'. Written c c' xs p ys t) (run w add) _ (Ensures-run good w add added)
          λ lp c' (((e, a), k), same).
            subst
              (λ (c₁ : Core).
                Written c
                  (record c₁ {
                    buffer = next_dot c'.buffer;
                    offset = some (length c.fp + length t);
                  })
                  xs p ys t)
              (sym same) (put-Written c'.buffer a (k ∙ d)))

  -- `put_buffer_line` of a line before the rest of the input.
  pub put_buffer_line-Written :
      (calls : Calls) (rest : List ℕ)
      → Succeeds calls
      → IsStore c
      → IsBuffer c.buffer (xs ++ ys)
      → c.buffer.state.dot ≡ length xs
      → Distinct (c.buffer.line_head ∷ joined xs p [] ys)
      → p ≢ null
      → c.buffer.state.lines < off_t_max
      → length c.fp + length t ≤ off_t_max
      → Ensures
          (put_buffer_line calls p (t ++ 10 ∷ rest) (length t + 1) c)
          (λ left c'. (left ≡ rest) × Written c c' xs p ys t)
  put_buffer_line-Written calls rest s st v d dis z l f =
      let n : length t + 1 - 1 ≡ length t = omega arith in
      let shorter : take (length t + 1 - 1) (t ++ 10 ∷ rest) ≡ t =
        ap (λ k. take k (t ++ 10 ∷ rest)) n ∙ take-length_append t (10 ∷ rest) in
      let left : drop (length t + 1) (t ++ 10 ∷ rest) ≡ rest =
        sym (drop-drop (length t) 1 (t ++ 10 ∷ rest))
        ∙ ap (drop 1) (drop-length_append t (10 ∷ rest)) in
      rw (put_buffer_line-at_end calls p (t ++ 10 ∷ rest) (length t + 1) c s st, shorter, left)
        (Ensures-bind (λ _ c'. Written c c' xs p ys t)
          (λ left c'. (left ≡ rest) × Written c c' xs p ys t)
          (put_line calls p t (length c.fp) (at_end c)) _ (put_line-Written calls s v d dis z l f)
          λ _ c' w. (refl, w))
