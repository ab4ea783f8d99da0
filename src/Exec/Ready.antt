-- ===== src/Exec/Ready.antt =====
-- The steps by which the commands of src/exec.c come to their buffer operation: a valid range, the
-- suffix, and the undo queue.
use ed.Common.{
  ℕ, zero, suc, ◌+◌, ◌≤◌, ◌≡◌, refl, true, false, Option, none, some, List, [], ◌∷◌, arith, length,
  take, drop, ltb, ◌==◌, ◌||◌, if◌then◌else◌, Bool-cases, inl, inr, ◌⊎◌, ap, ◌∙◌, take-append-drop,
  sym, length-take,
}
use ed.Line.{Ptr}
use ed.Edit.{Buffer}
use ed.Edit.Queue.{reset_undo_queue}
use ed.Line.{Distinct}
use ed.Edit.Tracked.{AllLive}
use ed.Edit.Frees.{Holds, Results, Results-mono, reset_undo_queue-Reset}
use ed.Edit.Reset.{IfSome, SameLines, IsBuffer-SameLines, reset_undo_queue-same}
use ed.Edit.Valid.{IsBuffer, joined}
use ed.Exec.{
  Editor, Extent, ok, out_of_fuel, dot, with_buffer, command_suffix, suffix_loop, is_valid_range,
  reset_unless_nested,
}
use ed.Exec.Kept.{Post}

-- The region of a command that is given none.
abbrev pub ranged : Editor → Extent
ranged e =
    if e.region.addrs == 0 then record { start = dot e; end = dot e; addrs = 0 } else e.region

-- The lines `xs`, with the range from `start` to `end` within them.
pub record Ready (xs : List Ptr) (start end : ℕ) (e : Editor) : Type 0 where
  pub buffer : IsBuffer e.buffer xs
  pub start_is : e.region.start ≡ start
  pub end_is : e.region.end ≡ end
  pub first : 1 ≤ start
  pub order : start ≤ end
  pub last : end ≤ length xs

-- The deletions in the undo queue hold distinct nodes that are in use.
pub record Resets (b : Buffer) : Type 0 where
  pub nodes : List Ptr
  pub holds : Holds b.heap b.undo nodes
  pub distinct : Distinct nodes
  pub live : AllLive b.heap.live nodes

-- Either the command is nested in another, or the undo queue can be reset.
abbrev pub Resettable : Editor → Type 0
Resettable e = ((e.buffer.global || e.sp) ≡ true) ⊎ Resets e.buffer

-- What an error leaves.
abbrev pub Kept : List Ptr → Editor → Type 0
Kept xs e = IsBuffer e.buffer xs

module _ (xs : List Ptr) (start end : ℕ) where
  pub same_region :
      (e e' : Editor)
      → Ready xs start end e
      → e'.region.start ≡ e.region.start
      → e'.region.end ≡ e.region.end
      → IsBuffer e'.buffer xs
      → Ready xs start end e'
  same_region e e' r s t v = record {
    buffer = v;
    start_is = s ∙ r.start_is;
    end_is = t ∙ r.end_is;
    first = r.first;
    order = r.order;
    last = r.last;
  }

  pub command_suffix-Ready :
      (e : Editor)
      → Ready xs start end e
      → Resettable e
      → Post (command_suffix e) (λ _ e'. Ready xs start end e' × Resettable e') (Kept xs)
  unfolding command_suffix
  command_suffix-Ready e r q = elim (Bool-cases (suffix_loop e.input e.dio_f).0) [
    | inl c ↦ rw c (same_region e _ r refl refl r.buffer, q)
    | inr c ↦ rw c r.buffer
  ]

  pub reset_unless_nested-Ready :
      (e : Editor)
      → Ready xs start end e
      → Resettable e
      → Post (reset_unless_nested e) (λ _. Ready xs start end) (Kept xs)
  unfolding reset_unless_nested
  reset_unless_nested-Ready e r q = elim (Bool-cases (e.buffer.global || e.sp)) [
    | inl c ↦ rw c r
    | inr c ↦ rw c (finish (reset_undo_queue e.buffer) (reset_undo_queue-same e.buffer) (ends q c))
  ]
    where
      ends :
          Resettable e
          → (e.buffer.global || e.sp) ≡ false
          → Results (reset_undo_queue e.buffer) (λ _. Unit {0})
      ends (inl n) c = cc
      ends (inr s) c =
          Results-mono _ (λ _. Unit {0}) _
            (reset_undo_queue-Reset e.buffer s.nodes s.holds s.distinct s.live) λ _ _. tt

      finish :
          (o : Option Buffer)
          → IfSome o (SameLines e.buffer)
          → Results o (λ _. Unit {0})
          → Post
              (elim o [ none ↦ out_of_fuel | some b ↦ ok (tt {0}) (with_buffer e b) ])
              (λ _. Ready xs start end)
              (Kept xs)
      finish none h k = k
      finish (some b) h k =
          same_region e (with_buffer e b) r refl refl (IsBuffer-SameLines e.buffer b xs h r.buffer)

pub is_valid_range-Ready :
    (xs : List Ptr) (e : Editor)
    → IsBuffer e.buffer xs
    → Resettable e
    → Post
        (is_valid_range (dot e) (dot e) e)
        (λ _ e'. Ready xs (ranged e).start (ranged e).end e' × Resettable e')
        (Kept xs)
unfolding is_valid_range
is_valid_range-Ready xs e v q =
    let r = ranged e in
    let lines = e.buffer.state.lines in
    elim (Bool-cases (ltb r.start 1 || ltb lines r.start || ltb r.end 1 || ltb lines r.end)) [
      | inl c ↦ rw c v
      | inr c ↦ rw c (elim (Bool-cases (ltb r.end r.start)) [
        | inl c' ↦ rw c' v
        | inr c' ↦ rw c' (
          record {
            buffer = v;
            start_is = refl;
            end_is = refl;
            first = ground (arith, c);
            order = ground (arith, c');
            last = ground (arith, c, v.lines);
          },
          q,
        )
      ])
    ]

-- The range of a list, with what is before and behind it.
pub record Split (xs : List Ptr) (before end : ℕ) : Type 0 where
  pub d : Ptr
  pub ds : List Ptr
  pub whole : xs ≡ joined (take before xs) d ds (drop end xs)
  pub before_is : length (take before xs) ≡ before
  pub end_is : before + suc (length ds) ≡ end

pub split :
    (xs : List Ptr) (before end : ℕ) → suc before ≤ end → end ≤ length xs → Split xs before end
split [] before end l m = absurd (omega arith)
split (x ∷ xs) before zero l m = absurd (omega arith)
split (x ∷ xs) zero (suc end) l m = record {
  d = x;
  ds = take end xs;
  whole = ap (x ∷◌) (sym (take-append-drop end xs));
  before_is = refl;
  end_is = omega (arith, length-take end xs);
}
split (x ∷ xs) (suc before) (suc end) l m =
    let s = split xs before end (omega arith) (omega arith) in
    record {
      d = s.d;
      ds = s.ds;
      whole = ap (x ∷◌) s.whole;
      before_is = omega (arith, s.before_is);
      end_is = omega (arith, s.end_is);
    }
