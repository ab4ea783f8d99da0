-- ===== src/Text/Join.antt =====
-- The texts that `join_lines` (src/cmds.c) reads.
use ed.Common.{
  ℕ, suc, ◌≡◌, refl, sym, ap, ◌∙◌, false, some, List, [], ◌∷◌, ◌++◌, length, ◌==◌, append-nil,
  append_assoc,
}
use ed.Line.{Ptr}
use ed.Line.Chain.{Chain}
use ed.Text.{Core, Calls, join_loop}
use ed.Text.Store.{
  IsStore, Succeeds, Ensures, Ensures-mono, text_of, InFile, after_read, get_buffer_line_lem,
}

-- The joined texts of nodes.
abbrev pub joined_text : Core → List Ptr → List ℕ
joined_text c [] = []
joined_text c (z ∷ zs) = text_of c z ++ joined_text c zs

-- The texts of the nodes are in the file, and no node is the head.
abbrev pub Readable : Core → List Ptr → Type 0
Readable c [] = Unit
Readable c (z ∷ zs) = (InFile c z × ((z == c.buffer.line_head) ≡ false)) × Readable c zs

-- Only the position has changed.
pub record Reads (c c' : Core) : Type 0 where
  pub buffer : c'.buffer ≡ c.buffer
  pub file : c'.fp ≡ c.fp
  pub store : IsStore c'

abbrev pub AllSucceed : (ℕ → Calls) → Type 0
AllSucceed calls = (n : ℕ) → Succeeds (calls n)

-- `join_loop` reads the texts of the nodes of a chain, one behind another.
pub join_loop-joined_text :
    (calls : ℕ → Calls) (z : Ptr) (zs : List Ptr) (lj : List ℕ) (c : Core)
    → AllSucceed calls
    → c.offset ≡ some c.position
    → Chain c.buffer.heap z zs
    → Readable c (z ∷ zs)
    → Ensures
        (join_loop calls (suc (length zs)) z lj c)
        (λ s c'. (s ≡ lj ++ joined_text c (z ∷ zs)) × Reads c c')
unfolding join_loop
join_loop-joined_text calls z [] lj c s o ch ((i, n), r) =
    rw (get_buffer_line_lem (calls 0) z c (s 0) o i n, (s 0).join_memory)
      (
        ap (lj ++◌) (sym (append-nil (text_of c z))),
        record { buffer = refl; file = refl; store = record { offset = refl; at_end = λ e. cc } },
      )
join_loop-joined_text calls z (y ∷ zs) lj c s o (fw, bk, ch) ((i, n), r) =
    let k = suc (length zs) in
    rw (get_buffer_line_lem (calls k) z c (s k) o i n, (s k).join_memory, fw)
      (Ensures-mono _ (λ t c'. (t ≡ lj ++ joined_text c (z ∷ y ∷ zs)) × Reads c c') _
        (join_loop-joined_text calls y zs (lj ++ text_of c z) (after_read z c) s refl ch r)
        λ t c' (e, v). (
          e ∙ append_assoc lj (text_of c z) (joined_text c (y ∷ zs)),
          record { buffer = v.buffer; file = v.file; store = v.store },
        ))
