-- ===== src/Text/Typed.antt =====
-- `append_lines` (src/cmds.c) of lines that are typed.
use ed.Common.{
  ℕ, zero, suc, ◌+◌, ◌≤◌, ◌<◌, ◌≡◌, refl, sym, subst, ◌∙◌, Bool, true, false, List, [], ◌∷◌, ◌++◌,
  arith, length, length-append, append_assoc, Option,
}
use ed.Line.{Ptr}
use ed.Edit.{Buffer, EdState}
use ed.Edit.Append.{off_t_max}
use ed.Edit.Tracked.{Tracked}
use ed.Edit.Recording.{Recording, Recording-Tracked, Tracked-state}
use ed.Text.{Core, ◌>>=◌, Calls, with_buffer}
use ed.Text.Store.{IsStore, Succeeds, Ensures, Ensures-bind, Ensures-mono}
use ed.Text.Kept.{SameText-trans}
use ed.Text.Replaced.{IsStore-with_buffer}
use ed.Text.Appending.{
  typed, text, Appending, append_from, append_text, append_loop, append_lines, is_dot,
  ends_in_newline, next,
}
use ed.Text.Appended.{Stepped}
use ed.Text.Round.{
  Lines, size, nodes, NoDots, append_text-Stepped, AllFresh-apart, AllAdded, ends_in_newline-append,
  typed_lines, AllFresh,
}

module _ (old : Buffer) (calls : Calls) (after : ℕ) (eof : Bool) where
  AllAdded-Stepped :
      (c c₁ c' : Core) (xs : List Ptr) (p : Ptr) (t : List ℕ) (ls : Lines) (ys : List Ptr)
      → AllFresh (p ∷ c.buffer.heap.live) ls
      → Stepped old c c₁ xs p ys t
      → AllAdded old c₁ c' (xs ++ p ∷ []) ls ys
      → AllAdded old c c' xs ((p, t) ∷ ls) ys
  AllAdded-Stepped c c₁ c' xs p t ls ys f v w =
      let apart = AllFresh-apart (p ∷ c.buffer.heap.live) ls p f (ground arith) in
      let kept = w.others p apart v.in_file in
      record {
        tracked =
            subst (Tracked old c'.buffer) (append_assoc xs (p ∷ []) (nodes ls ++ ys)) w.tracked;
        texts = (kept.text ∙ v.text, w.texts);
        others = λ q n i.
            let k = v.others q (ground (arith, n)) i in
            SameText-trans c c₁ c' q k (w.others q (ground (arith, n)) k.in_file);
        store = w.store;
        dot = omega (arith, w.dot, length-append xs (p ∷ []));
      }

  next-typed :
      (t : List ℕ) (more : List (List ℕ))
      → next (typed ((t ++ 10 ∷ []) ∷ more) eof) ≡ text (t ++ 10 ∷ []) (length (t ++ 10 ∷ []))
  unfolding next
  next-typed t more = rw (ends_in_newline-append t) refl

  append_loop-text :
      (fuel : ℕ) (a : Appending) (c : Core) (input : List ℕ) (len : ℕ)
      → next a.source ≡ text input len
      → is_dot input ≡ false
      → append_loop (suc fuel) calls true after a c
        ≡ (append_text calls true after input len a c >>= append_loop fuel calls true after)
  unfolding append_loop
  append_loop-text fuel a c input len e d = cc

  -- The loop, up to a line with a single period.
  append_loop-AllAdded :
      (fuel : ℕ) (c : Core) (up : Bool) (xs : List Ptr) (ls : Lines) (spare ys : List Ptr)
      (more : List (List ℕ))
      → length ls < fuel
      → Succeeds calls
      → IsStore c
      → Recording old c.buffer up xs ys
      → c.buffer.state.dot ≡ length xs
      → AllFresh c.buffer.heap.live ls
      → NoDots ls
      → c.buffer.state.lines + length ls ≤ off_t_max
      → length c.fp + size ls ≤ off_t_max
      → Ensures
          (append_loop fuel calls true after
            (record {
              source = typed (typed_lines ls ++ (b'.' ∷ 10 ∷ []) ∷ more) eof;
              up = up;
              fresh = nodes ls ++ spare;
            })
            c)
          (λ a c'. (a.source ≡ typed more eof) × AllAdded old c c' xs ls ys)
  unfolding append_loop next ends_in_newline
  append_loop-AllAdded zero c up xs ls spare ys more h s st r dot f nd few fits =
      absurd (omega arith)
  append_loop-AllAdded (suc fuel) c up xs [] spare ys more h s st r dot f nd few fits = (
    refl,
    record {
      tracked = Recording-Tracked old c.buffer up xs ys r;
      texts = tt;
      others = λ q n i. record { text = refl; in_file = i };
      store = st;
      dot = omega (arith, dot);
    },
  )
  append_loop-AllAdded (suc fuel) c up xs ((p, t) ∷ ls) spare ys more h s st r dot f nd few fits =
      let rest = typed_lines ls ++ (b'.' ∷ 10 ∷ []) ∷ more in
      let ps = nodes ls ++ spare in
      let l = t ++ 10 ∷ [] in
      let a : Appending = record { source = typed (l ∷ rest) eof; up = up; fresh = p ∷ ps } in
      subst
        (λ r.
          Ensures r (λ a c'. (a.source ≡ typed more eof) × AllAdded old c c' xs ((p, t) ∷ ls) ys))
        (sym (append_loop-text fuel a c l (length l) (next-typed t rest) nd.0))
        (Ensures-bind
          (λ a c'.
            (a ≡ record { source = typed rest eof; up = true; fresh = ps })
            × Stepped old c c' xs p ys t)
          (λ a c'. (a.source ≡ typed more eof) × AllAdded old c c' xs ((p, t) ∷ ls) ys) _
          (append_loop fuel calls true after)
          (append_text-Stepped old calls after eof c up xs p ps ys t rest s st r dot f.0 f.1
            (omega arith) (omega arith))
          λ a c₁ (e, v).
            let lines : c₁.buffer.state.lines ≡ suc c.buffer.state.lines = omega (
              arith,
              (Recording-Tracked old c₁.buffer true (xs ++ p ∷ []) ys v.recording).buffer.lines,
              (Recording-Tracked old c.buffer up xs ys r).buffer.lines,
              length-append (xs ++ p ∷ []) ys,
              length-append xs (p ∷ []),
              length-append xs ys,
            ) in
            subst
              (λ a.
                Ensures (append_loop fuel calls true after a c₁)
                  (λ a c'. (a.source ≡ typed more eof) × AllAdded old c c' xs ((p, t) ∷ ls) ys))
              (sym e)
              (Ensures-mono
                (λ a c'. (a.source ≡ typed more eof) × AllAdded old c₁ c' (xs ++ p ∷ []) ls ys)
                (λ a c'. (a.source ≡ typed more eof) × AllAdded old c c' xs ((p, t) ∷ ls) ys) _
                (append_loop-AllAdded fuel c₁ true (xs ++ p ∷ []) ls spare ys more (omega arith) s
                  v.store v.recording v.dot (subst (λ live. AllFresh live ls) (sym v.live) f.2) nd.1
                  (omega (arith, lines, few)) (omega (arith, v.file, fits)))
                λ a c' (e, w). (e, AllAdded-Stepped c c₁ c' xs p t ls ys f.2 v w)))

length-typed_lines :
    (ls : Lines) (l : List ℕ) (more : List (List ℕ))
    → length (typed_lines ls ++ l ∷ more) ≡ length ls + suc (length more)
length-typed_lines [] l more = omega arith
length-typed_lines ((p, t) ∷ ls) l more = omega (arith, length-typed_lines ls l more)

append_lines-typed :
    (calls : Calls) (fresh : List Ptr) (after : ℕ) (extended : Option (List ℕ)) (eof memory : Bool)
    (lines : List (List ℕ)) (c : Core)
    → c.buffer.global ≡ false
    → append_lines calls true fresh after [] extended eof memory lines c
      ≡ append_from calls true fresh after (typed lines eof) c
unfolding append_lines
append_lines-typed calls fresh after extended eof memory lines c g = simp g refl

-- Outside a global command, `append_lines` adds the lines that are typed behind the command, up to
-- a line with a single period, behind the lines `xs`, and the last of them becomes the current one.
-- The undo queue records every change since `old` before and then. Each new line has its text, and
-- every text that was in the file stays as it is. What follows the period is not read. The calls
-- of the C library succeed, with nodes at addresses that are not in use, and there is room for the
-- lines and their texts.
pub append_lines-AllAdded :
    (old : Buffer) (c : Core) (calls : Calls) (xs ys : List Ptr) (ls : Lines) (spare : List Ptr)
    (extended : Option (List ℕ)) (eof memory : Bool) (more : List (List ℕ))
    → c.buffer.global ≡ false
    → Succeeds calls
    → IsStore c
    → Tracked old c.buffer (xs ++ ys)
    → AllFresh c.buffer.heap.live ls
    → NoDots ls
    → c.buffer.state.lines + length ls ≤ off_t_max
    → length c.fp + size ls ≤ off_t_max
    → Ensures
        (append_lines calls true
          (nodes ls ++ spare)
          (length xs)
          []
          extended
          eof
          memory
          (typed_lines ls ++ (b'.' ∷ 10 ∷ []) ∷ more)
          c)
        (λ a c'. (a.source ≡ typed more eof) × AllAdded old c c' xs ls ys)
append_lines-AllAdded old c calls xs ys ls spare extended eof memory more g s st t f nd few fits =
    let state : EdState = record (c.buffer.state) { input_is_binary = false; dot = length xs } in
    let ed : Buffer = record (c.buffer) { state = state } in
    let lines = typed_lines ls ++ (b'.' ∷ 10 ∷ []) ∷ more in
    subst (λ r. Ensures r (λ a c'. (a.source ≡ typed more eof) × AllAdded old c c' xs ls ys))
      (sym (append_lines-typed calls (nodes ls ++ spare) (length xs) extended eof memory lines c g))
      (Ensures-mono
        (λ a c'. (a.source ≡ typed more eof) × AllAdded old (with_buffer c ed) c' xs ls ys)
        (λ a c'. (a.source ≡ typed more eof) × AllAdded old c c' xs ls ys) _
        (append_loop-AllAdded old calls (length xs) eof (suc (length lines)) (with_buffer c ed)
          false xs ls spare ys more (omega (arith, length-typed_lines ls (b'.' ∷ 10 ∷ []) more)) s
          (IsStore-with_buffer c ed st)
          (Tracked-state old c.buffer state (xs ++ ys) refl (omega (arith, length-append xs ys)) t)
          refl f nd few fits)
        λ a c' (e, w). (
          e,
          record {
            tracked = w.tracked;
            texts = w.texts;
            others =
                λ q n i. let k = w.others q n i in record { text = k.text; in_file = k.in_file };
            store = w.store;
            dot = w.dot;
          },
        ))
