-- ===== src/Edit/CopyLines.antt =====
-- `copy_lines` (src/cmds.c) of a range before or behind its target, or around it.
use ed.Common.{
  suc, ◌+◌, ◌≤◌, ◌≡◌, refl, Bool, true, false, List, [], ◌∷◌, ◌++◌, append_assoc, arith, ap, subst,
  ◌∙◌, length, length-append,
}
use ed.Line.{Ptr, Heap, has}
use ed.Line.Locate.Walk.{node_at-suc-length}
use ed.Edit.{Buffer, locate, located}
use ed.Edit.Lines.{copy_loop}
use ed.Edit.Append.{off_t_max}
use ed.Edit.Valid.{IsBuffer, Ensures, Ensures-mono, locate_lem}
use ed.Edit.Tracked.{Tracked, AllLive, AllLive-split}
use ed.Edit.Recording.{Recording, Recording-Tracked, Recording-locate}
use ed.Edit.Copied.{Copies, sources, copies, AllFresh, Within}
use ed.Edit.Copies.{
  AllFresh-apart, have_copied-true, Alike, AllAlike, StartsAt, have_copied, with_copies, LoopCopied,
}
use ed.Edit.CopyLoop.{Looped, copy_loop-LoopCopied}

-- The copies stand behind the lines `xs`, each with the length and the offset of its line. Nothing
-- else has changed, the last copy is the current line, and all that is recorded for undo.
pub record Copied (old ed ed' : Buffer) (xs : List Ptr) (ls ms : Copies) (ys : List Ptr)
    : Type 0 where
  pub tracked : Tracked old ed' (xs ++ (copies ls ++ (copies ms ++ ys)))
  pub alike : AllAlike ed.heap ed'.heap ls × AllAlike ed.heap ed'.heap ms
  pub kept :
      (q : Ptr) → has q (copies ls) ≡ false → has q (copies ms) ≡ false → Alike ed.heap q ed'.heap q
  pub dot : ed'.state.dot ≡ length xs + length ls + length ms

-- The line `d` stands at the address `n`.
StartsAt-locate :
    (old ed : Buffer) (up : Bool) (xs ys zs us : List Ptr) (ls : Copies)
    → Recording old ed up xs ys
    → xs ++ ys ≡ zs ++ (sources ls ++ us)
    → StartsAt (located (locate (suc (length zs)) ed)) ls
StartsAt-locate old ed up xs ys zs us [] r e = tt
StartsAt-locate old ed up xs ys zs us ((d, p) ∷ ls) r e =
    let rest = sources ls ++ us in
    let v = subst (IsBuffer ed) e (Recording-Tracked old ed up xs ys r).buffer in
    let l : suc (length zs) ≤ length (zs ++ d ∷ rest) =
      omega (arith, length-append zs (d ∷ rest)) in
    ap (λ (ed : Buffer). located ed) (locate_lem ed (zs ++ d ∷ rest) v (suc (length zs)) l)
    ∙ node_at-suc-length ed.line_head zs d rest

-- The inner loop, from a line that is looked up.
module _ (old : Buffer) (ys spare : List Ptr) where
  pub copy_loop-from :
      (zs us : List Ptr) (ls : Copies) (ed : Buffer) (up : Bool) (xs : List Ptr)
      → Recording old ed up xs ys
      → (up ≡ true → ed.state.dot ≡ length xs)
      → Within xs ys (sources ls)
      → xs ++ ys ≡ zs ++ (sources ls ++ us)
      → AllFresh ed.heap.live ls
      → ed.state.lines + length ls ≤ off_t_max
      → (let ed₁ = locate (suc (length zs)) ed in
          Ensures
            (copy_loop true
              (length ls)
              (located ed₁)
              (record { after = length xs; up = up; fresh = copies ls ++ spare })
              ed₁)
            (Looped old ys spare ed up xs ls))
  unfolding locate
  copy_loop-from zs us ls ed up xs r dot w e f few =
      let n = suc (length zs) in
      let ed₁ = locate n ed in
      let r₁ = Recording-locate old ed up xs ys n r in
      let live = (Recording-Tracked old ed up xs ys r).live.1 in
      let (lz, lr) =
        AllLive-split ed.heap.live zs (sources ls ++ us) (subst (AllLive ed.heap.live) e live) in
      Ensures-mono (Looped old ys spare ed₁ up xs ls) (Looped old ys spare ed up xs ls) _
        (copy_loop-LoopCopied old ys spare ls (located ed₁) ed₁ up xs r₁ dot w
          (StartsAt-locate old ed up xs ys zs us ls r e)
          (AllLive-split ed.heap.live (sources ls) us lr).0 f few)
        λ c ed' (e, v). (
          e,
          record {
            recording = v.recording;
            alike = v.alike;
            kept = v.kept;
            live = v.live;
            dot = v.dot;
          },
        )

with_copies-more :
    (q : Ptr) (ls : Copies) (live : List Ptr)
    → has q live ≡ true
    → has q (with_copies ls live) ≡ true
with_copies-more q [] live h = h
with_copies-more q ((d, p) ∷ ls) live h = with_copies-more q ls (p ∷ live) (ground arith)

-- What is copied first stays as it is.
AllAlike-behind :
    (live : List Ptr) (h h₁ h' : Heap) (ls ms : Copies)
    → AllFresh (with_copies ls live) ms
    → ((q : Ptr) → has q (copies ms) ≡ false → Alike h₁ q h' q)
    → AllAlike h h₁ ls
    → AllAlike h h' ls
AllAlike-behind live h h₁ h' [] ms f k a = tt
AllAlike-behind live h h₁ h' ((d, p) ∷ ls) ms f k a =
    let used = with_copies-more p ls (p ∷ live) (ground arith) in
    let (len, seek) = k p (AllFresh-apart (with_copies ls (p ∷ live)) ms p f used) in
    ((len ∙ a.0.0, seek ∙ a.0.1), AllAlike-behind (p ∷ live) h h₁ h' ls ms f k a.1)

-- What is copied later was as it is.
AllAlike-ahead :
    (live : List Ptr) (h h₁ h' : Heap) (ls ms : Copies)
    → AllFresh live ls
    → AllLive live (sources ms)
    → ((q : Ptr) → has q (copies ls) ≡ false → Alike h q h₁ q)
    → AllAlike h₁ h' ms
    → AllAlike h h' ms
AllAlike-ahead live h h₁ h' ls [] f l k a = tt
AllAlike-ahead live h h₁ h' ls ((d, p) ∷ ms) f l k a =
    let (len, seek) = k d (AllFresh-apart live ls d f l.0) in
    ((a.0.0 ∙ len, a.0.1 ∙ seek), AllAlike-ahead live h h₁ h' ls ms f l.1 k a.1)

pub length-copies : (ls : Copies) → length (copies ls) ≡ length ls
length-copies [] = refl
length-copies ((d, p) ∷ ls) = omega (arith, length-copies ls)

module _ (old ed : Buffer) (xs bs : List Ptr) (d p : Ptr) (ls ms : Copies) where
  abbrev pub all : Copies
  all = (d, p) ∷ ls

  pub Copied-LoopCopied :
      (ed₁ ed' : Buffer)
      → AllLive ed.heap.live (sources ms)
      → AllFresh ed.heap.live all
      → AllFresh (with_copies all ed.heap.live) ms
      → LoopCopied old ed ed₁ false xs all (sources ms ++ bs)
      → LoopCopied old ed₁ ed' true (xs ++ copies all) ms (sources ms ++ bs)
      → Copied old ed ed' xs all ms (sources ms ++ bs)
  Copied-LoopCopied ed₁ ed' l f g v w =
      let ys = sources ms ++ bs in
      record {
        tracked =
            subst (Tracked old ed')
              (append_assoc (xs ++ copies all) (copies ms) ys
                ∙ append_assoc xs (copies all) (copies ms ++ ys))
              (Recording-Tracked old ed' (have_copied true ms) ((xs ++ copies all) ++ copies ms) ys
                w.recording);
        alike = (
          AllAlike-behind ed.heap.live ed.heap ed₁.heap ed'.heap all ms g w.kept v.alike,
          AllAlike-ahead ed.heap.live ed.heap ed₁.heap ed'.heap all ms f l v.kept w.alike,
        );
        kept = λ q n m.
            let (len, seek) = v.kept q n in
            let (len', seek') = w.kept q m in (len' ∙ len, seek' ∙ seek);
        dot = omega (
          arith,
          w.dot (have_copied-true ms),
          length-append (xs ++ copies all) (copies ms),
          length-append xs (copies all),
          length-copies ls,
          length-copies ms,
        );
      }
