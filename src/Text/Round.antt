-- ===== src/Text/Round.antt =====
-- A round of `append_lines` (src/cmds.c) on lines that are typed.
use ed.Common.{
  ℕ, ◌+◌, ◌≤◌, ◌<◌, ◌≡◌, ◌≢◌, refl, Bool, true, false, List, [], ◌∷◌, ◌++◌, arith, length,
  length-append,
}
use ed.Line.{Ptr, null, has}
use ed.Edit.{Buffer}
use ed.Edit.Append.{off_t_max}
use ed.Edit.Tracked.{Tracked}
use ed.Edit.Recording.{Recording, Recording-Tracked, Recording-state}
use ed.Text.{Core, ok, Calls, put_buffer_line}
use ed.Text.Store.{IsStore, Succeeds, Ensures, Ensures-bind, InFile, text_of}
use ed.Text.Put.{Written}
use ed.Text.Kept.{SameText}
use ed.Text.Replaced.{put-Written, IsStore-with_buffer}
use ed.Text.Appending.{
  typed, Appending, append_text, after_line, before_line, reads_nul, is_dot, ends_in_newline,
}
use ed.Text.Appended.{Stepped, record_line}

-- The new lines: their nodes and texts.
abbrev pub Lines : Type 0
Lines = List (Ptr × List ℕ)

abbrev pub nodes : Lines → List Ptr
nodes [] = []
nodes ((p, t) ∷ ls) = p ∷ nodes ls

abbrev pub typed_lines : Lines → List (List ℕ)
typed_lines [] = []
typed_lines ((p, t) ∷ ls) = (t ++ 10 ∷ []) ∷ typed_lines ls

abbrev pub size : Lines → ℕ
size [] = 0
size ((p, t) ∷ ls) = length t + size ls

-- Each node is memory that is not in use, those of the lines before it included.
abbrev pub AllFresh : List Ptr → Lines → Type 0
AllFresh live [] = Unit
AllFresh live ((p, t) ∷ ls) = (has p live ≡ false) × (p ≢ null) × AllFresh (p ∷ live) ls

-- No line is a single period.
abbrev pub NoDots : Lines → Type 0
NoDots [] = Unit
NoDots ((p, t) ∷ ls) = (is_dot (t ++ 10 ∷ []) ≡ false) × NoDots ls

abbrev pub AllTexts : Core → Lines → Type 0
AllTexts c [] = Unit
AllTexts c ((p, t) ∷ ls) = (text_of c p ≡ t) × AllTexts c ls

pub AllFresh-apart :
    (live : List Ptr) (ls : Lines) (p : Ptr)
    → AllFresh live ls
    → has p live ≡ true
    → has p (nodes ls) ≡ false
AllFresh-apart live [] p f h = refl
AllFresh-apart live ((q, t) ∷ ls) p f h =
    ground (arith, f.0, AllFresh-apart (q ∷ live) ls p f.2 (ground arith))

pub ends_in_newline-append : (t : List ℕ) → ends_in_newline (t ++ 10 ∷ []) ≡ true
unfolding ends_in_newline
ends_in_newline-append [] = refl
ends_in_newline-append (c ∷ []) = refl
ends_in_newline-append (c ∷ d ∷ t) = ends_in_newline-append (d ∷ t)

-- The lines `ls` stand behind the lines `xs`, with their texts, and their addition is recorded for
-- undo. Every text that was in the file is as before, and the last of the lines is the current one.
pub record AllAdded (old : Buffer) (c c' : Core) (xs : List Ptr) (ls : Lines) (ys : List Ptr)
    : Type 0 where
  pub tracked : Tracked old c'.buffer (xs ++ (nodes ls ++ ys))
  pub texts : AllTexts c' ls
  pub others : (q : Ptr) → has q (nodes ls) ≡ false → InFile c q → SameText c c' q
  pub store : IsStore c'
  pub dot : c'.buffer.state.dot ≡ length xs + length ls

module _ (old : Buffer) (calls : Calls) (after : ℕ) (eof : Bool) where
  Stepped-before :
      (c c' : Core) (xs : List Ptr) (p : Ptr) (ys : List Ptr) (t : List ℕ) (nul : Bool)
      → Stepped old (before_line after nul c) c' xs p ys t
      → Stepped old c c' xs p ys t
  Stepped-before c c' xs p ys t nul v = record {
    recording = v.recording;
    live = v.live;
    file = v.file;
    store = v.store;
    dot = v.dot;
    text = v.text;
    in_file = v.in_file;
    others = λ q n i. let k = v.others q n i in record { text = k.text; in_file = k.in_file };
  }

  -- A round of the loop.
  pub append_text-Stepped :
      (c : Core) (up : Bool) (xs : List Ptr) (p : Ptr) (ps ys : List Ptr) (t : List ℕ)
      (more : List (List ℕ))
      → Succeeds calls
      → IsStore c
      → Recording old c.buffer up xs ys
      → c.buffer.state.dot ≡ length xs
      → has p c.buffer.heap.live ≡ false
      → p ≢ null
      → c.buffer.state.lines < off_t_max
      → length c.fp + length t ≤ off_t_max
      → (let l = t ++ 10 ∷ [] in
          Ensures
            (append_text calls true after l
              (length l)
              (record { source = typed (l ∷ more) eof; up = up; fresh = p ∷ ps })
              c)
            (λ a c'.
              (a ≡ record { source = typed more eof; up = true; fresh = ps })
              × Stepped old c c' xs p ys t))
  unfolding append_text
  append_text-Stepped c up xs p ps ys t more s st r dot n z few fits =
      let l = t ++ 10 ∷ [] in
      let a : Appending = record { source = typed (l ∷ more) eof; up = up; fresh = p ∷ ps } in
      let cb = before_line after (reads_nul a.source) c in
      let rb = Recording-state old c.buffer (cb.buffer.state) up xs ys refl dot r in
      let node : Calls = record calls { memory = true } in
      let sn : Succeeds node = record {
        memory = refl;
        join_memory = s.join_memory;
        seek = s.seek;
        write = s.write;
      } in
      rw (s.memory, length-append t (10 ∷ []))
        (Ensures-bind (λ left c₁. (left ≡ []) × Written cb c₁ xs p ys t)
          (λ a c'.
            (a ≡ record { source = typed more eof; up = true; fresh = ps })
            × Stepped old c c' xs p ys t)
          (put_buffer_line node p l (length t + 1) cb) _
          (put-Written old cb xs p ys t node sn (IsStore-with_buffer c cb.buffer st)
            (Recording-Tracked old cb.buffer up xs ys rb) dot n z few fits)
          λ left c₁ (e, w).
            Ensures-bind (λ _ c₃. Stepped old cb (after_line c₃) xs p ys t)
              (λ a c'.
                (a ≡ record { source = typed more eof; up = true; fresh = ps })
                × Stepped old c c' xs p ys t)
              _
              (λ _ c₃.
                ok (record { source = typed more eof; up = true; fresh = ps }) (after_line c₃))
              (record_line old cb xs p ys t c₁ up rb n w)
              λ _ c₃ v. (refl, Stepped-before c (after_line c₃) xs p ys t (reads_nul a.source) v))
