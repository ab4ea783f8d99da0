-- ===== src/Edit/Recording.antt =====
-- Lines added by one command, as the undo queue has them after each (src/ed.h, APPEND_UNDO_NODE).
use ed.Common.{
  ℕ, ◌+◌, ◌≤◌, ◌≡◌, refl, Bool, true, false, List, [], ◌∷◌, ◌++◌, append_assoc, arith, sym, ap,
  subst, ◌∙◌, length, length-append,
}
use ed.Line.{Ptr, has}
use ed.Edit.{Buffer, EdState, locate}
use ed.Edit.Undo.{append_undo_node}
use ed.Edit.Lines.{append_undo_line}
use ed.Edit.Append.{Appended, OnSuccess}
use ed.Edit.Valid.{
  IsBuffer, Ensures, Ensures-mono, joined, moved_to, moved_to-IsBuffer, locate-IsBuffer,
}
use ed.Edit.Tracked.{Tracked}
use ed.Edit.Growing.{Growing, Growing-Tracked, Growing-first, Growing-more}

-- Behind the lines `xs` the next line is added. `up` says whether a line was added before: then it
-- is the last of them.
abbrev pub Recording : Buffer → Buffer → Bool → List Ptr → List Ptr → Type 0
Recording old ed false xs ys = Tracked old ed (xs ++ ys)
Recording old ed true xs ys =
    (zs : List Ptr) × (f : Ptr) × (t : Ptr) × (xs ≡ zs ++ t ∷ []) × Growing old ed zs f t ys

pub Recording-Tracked :
    (old ed : Buffer) (up : Bool) (xs ys : List Ptr)
    → Recording old ed up xs ys
    → Tracked old ed (xs ++ ys)
Recording-Tracked old ed false xs ys t = t
Recording-Tracked old ed true xs ys (zs, f, t, e, g) =
    subst (Tracked old ed)
      (sym (append_assoc zs (t ∷ []) ys) ∙ ap (λ (zs : List Ptr). zs ++ ys) (sym e))
      (Growing-Tracked old ed zs f t ys g)

IsBuffer-state :
    (ed : Buffer) (s : EdState) (xs : List Ptr)
    → s.lines ≡ ed.state.lines
    → s.dot ≤ length xs
    → IsBuffer ed xs
    → IsBuffer (record ed { state = s }) xs
IsBuffer-state ed s xs l d v = record {
  ring = v.ring;
  lines = l ∙ v.lines;
  dot = d;
  cached = v.cached;
  not_null = v.not_null;
}

pub Tracked-state :
    (old ed : Buffer) (s : EdState) (xs : List Ptr)
    → s.lines ≡ ed.state.lines
    → s.dot ≤ length xs
    → Tracked old ed xs
    → Tracked old (record ed { state = s }) xs
Tracked-state old ed s xs l d t = record {
  buffer = IsBuffer-state ed s xs l d t.buffer;
  live = t.live;
  history = t.history;
  saved = t.saved;
  head = t.head;
}

pub Tracked-moved_to :
    (old ed : Buffer) (xs : List Ptr) (t : Tracked old ed xs) (n : ℕ) (l : n ≤ length xs)
    → Tracked old (moved_to ed xs t.buffer n) xs
Tracked-moved_to old ed xs t n l = record {
  buffer = moved_to-IsBuffer ed xs t.buffer n l;
  live = t.live;
  history = t.history;
  saved = t.saved;
  head = t.head;
}

-- A look-up of a line, also of one behind the last.
Tracked-locate :
    (old ed : Buffer) (xs : List Ptr) (n : ℕ) → Tracked old ed xs → Tracked old (locate n ed) xs
unfolding locate
Tracked-locate old ed xs n t = record {
  buffer = locate-IsBuffer ed xs t.buffer n;
  live = t.live;
  history = t.history;
  saved = t.saved;
  head = t.head;
}

pub Recording-locate :
    (old ed : Buffer) (up : Bool) (xs ys : List Ptr) (n : ℕ)
    → Recording old ed up xs ys
    → Recording old (locate n ed) up xs ys
unfolding locate
Recording-locate old ed false xs ys n t = Tracked-locate old ed (xs ++ ys) n t
Recording-locate old ed true xs ys n (zs, f, t, e, g) = (
  zs,
  f,
  t,
  e,
  record {
    base = g.base;
    queue = g.queue;
    b = g.b;
    a = g.a;
    history = g.history;
    joint = g.joint;
    live_b = g.live_b;
    live_a = g.live_a;
    chunk = g.chunk;
    undo = g.undo;
    buffer = locate-IsBuffer ed (joined zs t [] ys) g.buffer n;
    live = g.live;
    saved = g.saved;
    head = g.head;
  },
)

-- The state of the editor is no part of what is recorded.
pub Recording-state :
    (old ed : Buffer) (s : EdState) (up : Bool) (xs ys : List Ptr)
    → s.lines ≡ ed.state.lines
    → s.dot ≡ length xs
    → Recording old ed up xs ys
    → Recording old (record ed { state = s }) up xs ys
Recording-state old ed s false xs ys l d t =
    Tracked-state old ed s (xs ++ ys) l (omega (arith, length-append xs ys)) t
Recording-state old ed s true xs ys l d (zs, f, t, e, g) =
    let n : s.dot ≤ length (joined zs t [] ys) = omega (
      arith,
      ap (λ (xs : List Ptr). length xs) e,
      length-append zs (t ∷ []),
      length-append zs (t ∷ ys),
    ) in
    (
      zs,
      f,
      t,
      e,
      record {
        base = g.base;
        queue = g.queue;
        b = g.b;
        a = g.a;
        history = g.history;
        joint = g.joint;
        live_b = g.live_b;
        live_a = g.live_a;
        chunk = g.chunk;
        undo = g.undo;
        buffer = IsBuffer-state ed s (joined zs t [] ys) l n g.buffer;
        live = g.live;
        saved = g.saved;
        head = g.head;
      },
    )

-- The undo node of the next line.
pub append_undo_line-Recording :
    (old ed ed₁ : Buffer) (up : Bool) (xs : List Ptr) (p : Ptr) (ys : List Ptr) (size offset : ℕ)
    (lp : Ptr)
    → Appended ed ed₁ xs p ys size offset
    → has p ed.heap.live ≡ false
    → lp ≡ p
    → Recording old ed up xs ys
    → Ensures
        (append_undo_line true up lp (length xs + 1) ed₁)
        (λ _ ed'. Recording old ed' true (xs ++ p ∷ []) ys)
append_undo_line-Recording old ed ed₁ false xs p ys size offset lp v n e t =
    Ensures-mono _ (λ _ ed'. Recording old ed' true (xs ++ p ∷ []) ys)
      (append_undo_line true false lp (length xs + 1) ed₁)
      (Growing-first old ed ed₁ xs p ys size offset v n lp t) λ _ ed' g. (xs, p, p, refl, g)
append_undo_line-Recording old ed ed₁ true xs p ys size offset lp v n e (zs, f, t, d, g) =
    Ensures-mono _ (λ _ ed'. Recording old ed' true (xs ++ p ∷ []) ys)
      (append_undo_line true true lp (length xs + 1) ed₁)
      (Growing-more old ed ed₁ zs f t p ys size offset
        (subst (λ xs. Appended ed ed₁ xs p ys size offset) d v) n lp (length xs + 1) e g)
      λ _ ed' w. (zs ++ t ∷ [], f, p, ap (λ (zs : List Ptr). zs ++ p ∷ []) d, w)

-- An undo node changes no line.
pub same-append_undo_line :
    (memory up : Bool) (lp : Ptr) (addr : ℕ) (ed : Buffer)
    → OnSuccess
        (append_undo_line memory up lp addr ed)
        (λ _ ed'. (ed'.heap ≡ ed.heap) × (ed'.state ≡ ed.state))
unfolding append_undo_line append_undo_node locate
same-append_undo_line memory true lp addr ed = (refl, refl)
same-append_undo_line true false lp addr ed = (refl, refl)
same-append_undo_line false false lp addr ed = tt
