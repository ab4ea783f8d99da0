-- ===== src/Edit/Copied.antt =====
-- The lines that `copy_lines` (src/cmds.c) adds.
use ed.Common.{
  ℕ, ◌+◌, ◌≤◌, ◌≡◌, ◌≢◌, Bool, true, false, List, [], ◌∷◌, ◌++◌, append_assoc, arith, sym, ap,
  subst, ◌∙◌, length,
}
use ed.Line.{Ptr, null, Heap, has, append_node}
use ed.Line.Chain.{last}
use ed.Line.Ring.{IsRing, cut_three}
use ed.Edit.{Buffer, EdState}
use ed.Edit.Lines.{append_undo_line}
use ed.Edit.Append.{Appended, with_node, Ensures-both}
use ed.Edit.Valid.{Ensures, Ensures-mono, joined, length-joined}
use ed.Edit.Recording.{Recording, append_undo_line-Recording, same-append_undo_line}

-- Lines, each with the address of its copy.
abbrev pub Copies : Type 0
Copies = List (Ptr × Ptr)

abbrev pub sources : Copies → List Ptr
sources [] = []
sources ((d, p) ∷ ls) = d ∷ sources ls

abbrev pub copies : Copies → List Ptr
copies [] = []
copies ((d, p) ∷ ls) = p ∷ copies ls

-- Each copy is memory that is not in use, the copies before it included.
abbrev pub AllFresh : List Ptr → Copies → Type 0
AllFresh live [] = Unit
AllFresh live ((d, p) ∷ ls) = (has p live ≡ false) × (p ≢ null) × AllFresh (p ∷ live) ls

-- Where the lines `ds` stand: before the place of the copies, or behind it.
pub data Within (xs ys ds : List Ptr) : Type 0 where
  before : (us mid : List Ptr) → xs ≡ us ++ (ds ++ mid) → Within xs ys ds
  behind : (mid bs : List Ptr) → ys ≡ mid ++ (ds ++ bs) → Within xs ys ds

pub Within-grow : (xs ys ds : List Ptr) (p : Ptr) → Within xs ys ds → Within (xs ++ p ∷ []) ys ds
Within-grow xs ys ds p (before us mid e) = before us (mid ++ p ∷ []) (
    ap (λ (xs : List Ptr). xs ++ p ∷ []) e
    ∙ append_assoc us (ds ++ mid) (p ∷ [])
    ∙ ap (λ (zs : List Ptr). us ++ zs) (append_assoc ds mid (p ∷ [])))
Within-grow xs ys ds p (behind mid bs e) = behind mid bs e

pub Within-tail :
    (xs ys : List Ptr) (d : Ptr) (ds : List Ptr) → Within xs ys (d ∷ ds) → Within xs ys ds
Within-tail xs ys d ds (before us mid e) =
    before (us ++ d ∷ []) mid (e ∙ sym (append_assoc us (d ∷ []) (ds ++ mid)))
Within-tail xs ys d ds (behind mid bs e) =
    behind (mid ++ d ∷ []) bs (e ∙ sym (append_assoc mid (d ∷ []) (ds ++ bs)))

-- The line behind a line of the range.
pub forw-Within :
    (h : Heap) (head : Ptr) (xs ys : List Ptr) (d e : Ptr) (ds : List Ptr)
    → IsRing h head (xs ++ ys)
    → Within xs ys (d ∷ e ∷ ds)
    → h.forw d ≡ e
forw-Within h head xs ys d e ds r (before us mid w) =
    let split : xs ++ ys ≡ joined us d (e ∷ ds) (mid ++ ys) =
      ap (λ (xs : List Ptr). xs ++ ys) w
      ∙ append_assoc us (d ∷ e ∷ ds ++ mid) ys
      ∙ ap (λ (zs : List Ptr). us ++ d ∷ e ∷ zs) (append_assoc ds mid ys) in
    (cut_three us d (e ∷ ds) (mid ++ ys) (subst (IsRing h head) split r)).middle.0
forw-Within h head xs ys d e ds r (behind mid bs w) =
    let split : xs ++ ys ≡ joined (xs ++ mid) d (e ∷ ds) bs =
      ap (λ (ys : List Ptr). xs ++ ys) w ∙ sym (append_assoc xs mid (d ∷ e ∷ ds ++ bs)) in
    (cut_three (xs ++ mid) d (e ∷ ds) bs (subst (IsRing h head) split r)).middle.0

Appended-dot :
    (ed ed' : Buffer) (xs : List Ptr) (p : Ptr) (ys : List Ptr) (size offset n : ℕ)
    → n ≤ length (joined xs p [] ys)
    → Appended ed ed' xs p ys size offset
    → Appended ed (record ed' { state = record (ed'.state) { dot = n } }) xs p ys size offset
Appended-dot ed ed' xs p ys size offset n l v = record {
  buffer = record {
    ring = v.buffer.ring;
    lines = v.buffer.lines;
    dot = l;
    cached = v.buffer.cached;
    not_null = v.buffer.not_null;
  };
  undo = v.undo;
  len = v.len;
  seek = v.seek;
  heap = v.heap;
  saved = v.saved;
  head = v.head;
}

-- The line `p` was added behind the lines `xs`.
pub record CopiedLine (old ed ed' : Buffer) (xs : List Ptr) (p : Ptr) (ys : List Ptr)
    (size offset : ℕ) : Type 0 where
  pub recording : Recording old ed' true (xs ++ p ∷ []) ys
  pub heap : ed'.heap ≡ append_node p (last ed.line_head xs) (with_node p size offset ed.heap)
  pub dot : ed'.state.dot ≡ length xs + 1

module _ (old ed : Buffer) (xs : List Ptr) (p : Ptr) (ys : List Ptr) (size offset : ℕ) where
  -- The undo node of a copy, behind the new current line.
  pub copied_line :
      (ed₁ : Buffer) (up : Bool) (lp : Ptr)
      → Recording old ed up xs ys
      → has p ed.heap.live ≡ false
      → lp ≡ p
      → Appended ed ed₁ xs p ys size offset
      → Ensures
          (append_undo_line true up lp
            (length xs + 1)
            (record ed₁ { state = record (ed₁.state) { dot = length xs + 1 } }))
          (λ _ ed₂. CopiedLine old ed ed₂ xs p ys size offset)
  copied_line ed₁ up lp r n e v =
      let l : length xs + 1 ≤ length (joined xs p [] ys) =
        omega (arith, length-joined xs p [] ys) in
      let w = Appended-dot ed ed₁ xs p ys size offset (length xs + 1) l v in
      let ed₂ : Buffer = record ed₁ { state = record (ed₁.state) { dot = length xs + 1 } } in
      let add = append_undo_line true up lp (length xs + 1) ed₂ in
      Ensures-mono _ (λ _ ed₃. CopiedLine old ed ed₃ xs p ys size offset) add
        (Ensures-both _ _ add
          (append_undo_line-Recording old ed ed₂ up xs p ys size offset lp w n e r)
          (same-append_undo_line true up lp (length xs + 1) ed₂))
        λ _ ed₃ (r', (h, s)). record {
          recording = r';
          heap = h ∙ v.heap;
          dot = ap (λ (s : EdState). s.dot) s;
        }
