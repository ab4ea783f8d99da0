-- ===== src/Edit/Drain.antt =====
-- The lines that the global command buffer (src/global.c) gives out.
use ed.Common.{
  ℕ, zero, suc, ◌+◌, ◌<◌, ◌≡◌, refl, true, Option, none, some, List, [], ◌∷◌, arith, length,
  length-drop, drop-drop, drop, ◌==◌, if◌then◌else◌, Bool-cases, inl, inr, ap, ◌∙◌, sym,
}
use ed.Line.{Ptr, null}
use ed.Edit.{GlobalBuffer}
use ed.Edit.Global.{next_entry, next_global_line}

-- The entries that are not NULL.
unfoldable pub entries : List Ptr → List Ptr
entries [] = []
entries (p ∷ ps) = let rest = entries ps in if p == null then rest else p ∷ rest

-- The nodes of so many calls of `next_global_line`, up to a NULL, as a global command takes them.
unfoldable pub drain : ℕ → GlobalBuffer → List Ptr
drain zero gb = []
drain (suc n) gb = elim (next_global_line gb).0 [
  | none ↦ []
  | some p ↦ p ∷ drain n (next_global_line gb).1
]

-- Of the entries `ps`, with `s` skipped before, the first that is not NULL.
Found : List Ptr → ℕ → ℕ × Option Ptr → Type 0
Found ps s (skipped, none) = entries ps ≡ []
Found ps s (skipped, some p) =
    (k : ℕ) × (skipped ≡ s + k) × (k < length ps) × (entries ps ≡ p ∷ entries (drop (suc k) ps))

Found-null :
    (p : Ptr) (ps : List Ptr) (s : ℕ) (r : ℕ × Option Ptr)
    → (p == null) ≡ true
    → Found ps (s + 1) r
    → Found (p ∷ ps) s r
unfolding entries Found
Found-null p ps s (skipped, none) e h = rw e h
Found-null p ps s (skipped, some q) e (k, i, l, f) = rw e (suc k, omega arith, omega arith, f)

next_entry-Found : (ps : List Ptr) (s : ℕ) → Found ps s (next_entry ps 0 s)
unfolding next_entry entries Found
next_entry-Found [] s = refl
next_entry-Found (p ∷ ps) s = elim (Bool-cases (p == null)) [
  | inl e ↦
      let h = Found-null p ps s (next_entry ps 0 (s + 1)) e (next_entry-Found ps (s + 1)) in
      rw (next_entry, e) h
  | inr e ↦
      let f : entries (p ∷ ps) ≡ p ∷ entries ps = rw e refl in
      rw (next_entry, e) (0, omega arith, omega arith, f)
]

next_entry-drop : (ps : List Ptr) (n s : ℕ) → next_entry ps n s ≡ next_entry (drop n ps) 0 s
unfolding next_entry
next_entry-drop [] zero s = refl
next_entry-drop [] (suc n) s = refl
next_entry-drop (p ∷ ps) zero s = refl
next_entry-drop (p ∷ ps) (suc n) s = next_entry-drop ps n s

next_global_line-some :
    (gb : GlobalBuffer) (skipped : ℕ) (p : Ptr)
    → next_entry gb.lbuf gb.ptr 0 ≡ (skipped, some p)
    → next_global_line gb ≡ (some p, record gb { ptr = gb.ptr + skipped + 1 })
unfolding next_global_line
next_global_line-some gb skipped p e =
    rw (next_global_line, e)
      (ap (λ (r : ℕ × Option Ptr). (some p, record gb { ptr = gb.ptr + r.0 + 1 })) e)

module _ (n : ℕ) (gb : GlobalBuffer)
    (again : (g : GlobalBuffer)
      → length (drop g.ptr g.lbuf) < n
      → drain n g ≡ entries (drop g.ptr g.lbuf)) where
  drain-Found :
      (r : ℕ × Option Ptr)
      → Found (drop gb.ptr gb.lbuf) 0 r
      → length (drop gb.ptr gb.lbuf) < suc n
      → next_entry gb.lbuf gb.ptr 0 ≡ r
      → drain (suc n) gb ≡ entries (drop gb.ptr gb.lbuf)
  unfolding drain next_global_line Found
  drain-Found (skipped, none) h l e = rw (drain, e) (sym h)
  drain-Found (skipped, some p) (k, i, m, f) l e =
      let d : drop (gb.ptr + skipped + 1) gb.lbuf ≡ drop (suc k) (drop gb.ptr gb.lbuf) =
        ap (λ j. drop j gb.lbuf) (omega arith) ∙ sym (drop-drop gb.ptr (suc k) gb.lbuf) in
      rw (drain, next_global_line-some gb skipped p e, f)
        (ap (λ (r : Option Ptr × GlobalBuffer). p ∷ drain n r.1)
            (next_global_line-some gb skipped p e)
          ∙ ap (p ∷◌) (
              again (record gb { ptr = gb.ptr + skipped + 1 })
                (omega (
                  arith,
                  ap (λ (ps : List Ptr). length ps) d,
                  length-drop (suc k) (drop gb.ptr gb.lbuf),
                ))
              ∙ ap entries d))

-- More calls of `next_global_line` than there are entries left, stopped at the first NULL, give
-- every entry left that was not cleared, each once and in order.
pub drain-entries :
    (n : ℕ) (gb : GlobalBuffer)
    → length (drop gb.ptr gb.lbuf) < n
    → drain n gb ≡ entries (drop gb.ptr gb.lbuf)
drain-entries zero gb l = absurd (omega arith)
drain-entries (suc n) gb l =
    drain-Found n gb (λ g m. drain-entries n g m) (next_entry (drop gb.ptr gb.lbuf) 0 0)
      (next_entry-Found (drop gb.ptr gb.lbuf) 0) l (next_entry-drop gb.lbuf gb.ptr 0)
