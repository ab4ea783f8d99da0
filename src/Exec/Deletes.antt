-- ===== src/Exec/Deletes.antt =====
-- The command `d` (src/exec.c) on every branch.
use ed.Common.{
  ℕ, zero, suc, ◌+◌, ◌-◌, ◌≤◌, ◌≡◌, refl, Bool, true, false, min, List, ◌++◌, arith, length,
  length-append, take, drop, ◌==◌, subst,
}
use ed.Line.{Ptr}
use ed.Edit
use ed.Edit.{Buffer, Outcome}
use ed.Edit.Undo.{append_undo_node}
use ed.Edit.Commands.{delete_lines}
use ed.Edit.Valid.{IsBuffer, Ensures, Ensures-mono, joined}
use ed.Edit.Delete.{Deleted, delete_lines-Deleted}
use ed.Exec.{Reply, Editor, CmdStatus, ◌>>=◌, with_buffer, run}
use ed.Exec.Commands.{d_cmd, after_deletion, requested}
use ed.Exec.Kept.{Post, bind_post}
use ed.Exec.Ready.{
  Ready, Resettable, Kept, ranged, Split, split, is_valid_range-Ready, command_suffix-Ready,
  reset_unless_nested-Ready,
}

-- The lines without the range from `start` to `end`.
abbrev pub without : ℕ → ℕ → List Ptr → List Ptr
without start end xs = take (start - 1) xs ++ drop end xs

-- `e'` has the lines `ys`; the line behind those deleted is current, or the last one.
pub record Remains (ys : List Ptr) (start : ℕ) (e' : Editor) : Type 0 where
  pub buffer : IsBuffer e'.buffer ys
  pub dot : e'.buffer.state.dot ≡ min start (length ys)
  pub modified : e'.buffer.state.is_modified ≡ true
  pub empty : e'.buffer.state.is_empty ≡ (length ys == 0)

-- Where the operation succeeds, or fails, it leaves such a buffer.
abbrev pub EitherWay : {A : Type 0} → Outcome A → (Buffer → Type 0) → (Buffer → Type 0) → Type 0
EitherWay (Edit.ok a b) P Q = P b
EitherWay (Edit.err m b) P Q = Q b

Ensures-EitherWay :
    {A : Type 0} (r : Outcome A) (P Q : Buffer → Type 0) → Ensures r (λ _. P) → EitherWay r P Q
Ensures-EitherWay (Edit.ok a b) P Q h = h
Ensures-EitherWay (Edit.err m b) P Q h = absurd h

pub run_post :
    {A B : Type 0} (P Q : Buffer → Type 0) (R : B → Editor → Type 0) (e : Editor) (r : Outcome A)
    (k : A → Editor → CmdStatus B)
    → EitherWay r P Q
    → ((a : A) (b : Buffer) → P b → Post (k a (with_buffer e b)) R (λ e'. Q e'.buffer))
    → Post (run e r >>= k) R (λ e'. Q e'.buffer)
run_post P Q R e (Edit.ok a b) k h f = f a b h
run_post P Q R e (Edit.err m b) k h f = h

-- What `delete_lines` leaves of a range.
record Shorter (ys : List Ptr) (before : ℕ) (b : Buffer) : Type 0 where
  buffer : IsBuffer b ys
  dot : b.state.dot ≡ before
  modified : b.state.is_modified ≡ true

delete_joined :
    (b : Buffer) (ls : List Ptr) (d : Ptr) (ds bs : List Ptr) (before end : ℕ) (Q : Buffer → Type 0)
    → IsBuffer b (joined ls d ds bs)
    → length ls ≡ before
    → before + suc (length ds) ≡ end
    → EitherWay (delete_lines true (suc before) end b) (Shorter (ls ++ bs) before) Q
delete_joined b ls d ds bs before end Q v e f =
    rw (← f, ← e)
      (Ensures-EitherWay (delete_lines true (suc (length ls)) (length ls + suc (length ds)) b)
        (Shorter (ls ++ bs) (length ls)) Q
        (Ensures-mono (λ _ b'. Deleted b b' ls d ds bs) (λ _. Shorter (ls ++ bs) (length ls)) _
          (delete_lines-Deleted b ls d ds bs v)
          λ _ b' w. record { buffer = w.buffer; dot = w.dot; modified = w.modified }))

delete_lines-Shorter :
    (memory : Bool) (b : Buffer) (xs : List Ptr) (before end : ℕ)
    → IsBuffer b xs
    → Split xs before end
    → EitherWay
        (delete_lines memory (suc before) end b)
        (Shorter (take before xs ++ drop end xs) before)
        (λ b'. IsBuffer b' xs)
unfolding delete_lines append_undo_node
delete_lines-Shorter false b xs before end v s = v
delete_lines-Shorter true b xs before end v s =
    delete_joined b (take before xs) s.d s.ds (drop end xs) before end (λ b'. IsBuffer b' xs)
      (subst (IsBuffer b) s.whole v) s.before_is s.end_is

after_deletion-Remains :
    (e : Editor) (ys : List Ptr) (before : ℕ)
    → before ≤ length ys
    → Shorter ys before e.buffer
    → Remains ys (suc before) (with_buffer e (after_deletion e.buffer))
unfolding after_deletion
after_deletion-Remains e ys before l s = record {
  buffer = record {
    ring = s.buffer.ring;
    lines = s.buffer.lines;
    dot = ground (arith, s.dot, s.buffer.lines);
    cached = s.buffer.cached;
    not_null = s.buffer.not_null;
  };
  dot = ground (arith, s.dot, s.buffer.lines);
  modified = s.modified;
  empty = rw s.buffer.lines refl;
}

abbrev Gone : List Ptr → ℕ → ℕ → Reply → Editor → Type 0
Gone xs start end _ = Remains (without start end xs) start

-- The part of the command behind its checks.
run-Gone :
    (memory : Bool) (xs : List Ptr) (start end : ℕ) (e : Editor)
    → Ready xs start end e
    → Post
        (run e (delete_lines memory e.region.start e.region.end e.buffer) >>= λ _ e₁.
          requested tt (with_buffer e₁ (after_deletion e₁.buffer)))
        (Gone xs start end)
        (λ e'. IsBuffer e'.buffer xs)
run-Gone memory xs zero end e r = absurd (omega (arith, r.first))
run-Gone memory xs (suc before) end e r =
    let s = split xs before end r.order r.last in
    let l : before ≤ length (take before xs ++ drop end xs) =
      omega (arith, length-append (take before xs) (drop end xs), s.before_is) in
    let p : suc before - 1 ≡ before = omega arith in
    let h : EitherWay (delete_lines memory e.region.start e.region.end e.buffer)
        (Shorter (take before xs ++ drop end xs) before) (λ b. IsBuffer b xs) =
      rw (r.start_is, r.end_is) (delete_lines-Shorter memory e.buffer xs before end r.buffer s) in
    run_post (Shorter (take before xs ++ drop end xs) before) (λ b. IsBuffer b xs)
      (Gone xs (suc before) end) e (delete_lines memory e.region.start e.region.end e.buffer)
      (λ _ e₁. requested tt (with_buffer e₁ (after_deletion e₁.buffer))) h
      λ _ b k.
        rw p (after_deletion-Remains (with_buffer e b) (take before xs ++ drop end xs) before l k)

-- The command `d` on a valid buffer, with the current line ls its default range. Where it
-- succeeds, exactly the lines of the range are gone, and the line behind them is the current one,
-- or the last line where there is none behind. Where it fails, for its addresses, its suffix or for
-- want of memory, the lines are as before.
pub d_cmd-Remains :
    (memory : Bool) (e : Editor) (xs : List Ptr)
    → IsBuffer e.buffer xs
    → Resettable e
    → Post
        (d_cmd memory e)
        (λ _. Remains (without (ranged e).start (ranged e).end xs) (ranged e).start)
        (λ e'. IsBuffer e'.buffer xs)
unfolding d_cmd
d_cmd-Remains memory e xs v q =
    let start = (ranged e).start in
    let end = (ranged e).end in
    let R = Gone xs start end in
    let P = λ (_ : Unit {0}) (e : Editor). Ready xs start end e × Resettable e in
    bind_post P R (Kept xs) _ _ (is_valid_range-Ready xs e v q) λ _ e₁ r₁.
      bind_post P R (Kept xs) _ _ (command_suffix-Ready xs start end e₁ r₁.0 r₁.1) λ _ e₂ r₂.
        bind_post (λ _. Ready xs start end) R (Kept xs) _ _
          (reset_unless_nested-Ready xs start end e₂ r₂.0 r₂.1)
          λ _ e₃ r₃. run-Gone memory xs start end e₃ r₃
