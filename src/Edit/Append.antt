-- ===== src/Edit/Append.antt =====
-- `append_line_node` (src/buffer.c) puts a new node into the ring.
use ed.Common.{
  ℕ, ◌+◌, ◌-◌, ◌^◌, ◌≤◌, ◌<◌, ◌≡◌, ◌≢◌, refl, Bool, true, false, List, [], ◌∷◌, ◌++◌, arith, length,
  length-append, ==_refl, leb, if◌then◌else◌, sym,
}
use ed.Line.{Ptr, null, Heap, has, write, link_nodes, append_node, Distinct}
use ed.Line.Chain.{Chain, last, Chain-link, Joint-link_self, Joint-link}
use ed.Line.Apart.{first, rest, has-append, Off-before, Off-apart, Off-rest}
use ed.Line.Ring.{IsRing, cut, paste_three, all_distinct}
use ed.Line.Cut.{ends}
use ed.Line.Locate.Walk.{node_at-length}
use ed.Edit.{Buffer, EdError, Outcome, ok, err, locate, located}
use ed.Edit.Valid.{IsBuffer, Ensures, locate_lem, joined, length-joined}
use ed.Edit.Delete.{IsCached-last}

abbrev pub off_t_max : ℕ
off_t_max = 2 ^ 63 - 1

-- `memory` says whether malloc returned a node, `lp` is its address. The result is the node.
unfoldable pub append_line_node : Bool → Ptr → ℕ → ℕ → ℕ → Buffer → Outcome Ptr
append_line_node memory lp len offset addr ed =
    if leb off_t_max ed.state.lines
    then err EdError.buffer_full ed
    else if memory
    then (let h = record (ed.heap) {
      len = write ed.heap.len lp len;
      seek = write ed.heap.seek lp offset;
      live = lp ∷ ed.heap.live;
    } in
        let ed₁ = locate addr (record ed { heap = h }) in
        ok lp (record ed₁ {
          heap = append_node lp (located ed₁) h;
          state = record (ed₁.state) { lines = ed₁.state.lines + 1 };
        }))
    else err EdError.memory_exhausted ed

-- The new node, with its fields.
abbrev pub with_node : Ptr → ℕ → ℕ → Heap → Heap
with_node lp len offset h = record h {
  len = write h.len lp len;
  seek = write h.seek lp offset;
  live = lp ∷ h.live;
}

Chain-with_node :
    (lp len offset : ℕ) (h : Heap) (p : Ptr) (xs : List Ptr)
    → Chain h p xs
    → Chain (with_node lp len offset h) p xs
Chain-with_node lp len offset h p [] c = tt
Chain-with_node lp len offset h p (x ∷ xs) c = (c.0, c.1, Chain-with_node lp len offset h x xs c.2)

module _ {head : Ptr} (xs : List Ptr) (p : Ptr) (ys : List Ptr) {h : Heap} where
  -- APPEND_NODE behind the node at the end of the front part.
  append_node-IsRing :
      IsRing h head (xs ++ ys)
      → Distinct (head ∷ joined xs p [] ys)
      → IsRing (append_node p (last head xs) h) head (joined xs p [] ys)
  unfolding append_node
  append_node-IsRing r dis =
      let (before, j, after) = cut xs ys r in
      let a = all_distinct head xs p [] ys dis in
      let n = ends xs p [] ys a in
      let b = last head xs in
      let e = first ys head in
      let h' = link_nodes p e h in
      rw j.0 (
        paste_three xs p [] ys
          (record {
            before =
                Chain-link h' b p head xs
                  (Off-before p head xs a.before (ground (arith, n.d_before)))
                  (Chain-link h p e head xs (Off-apart p e head xs n.t_before n.first_before)
                    before);
            enter = Joint-link_self h' b p;
            middle = tt;
            leave =
                Joint-link h' b p p e (λ q. n.t_ne_last (sym q)) n.d_ne_first
                  (Joint-link_self h p e);
            after =
                Chain-link h' b p e (rest ys head) (Off-rest b p head ys n.last_after n.d_after) (
                  Chain-link h p e e (rest ys head) (Off-rest p e head ys n.t_after n.first_after)
                    after);
          })
          dis)

append_node-fields :
    (p b len offset : ℕ) (h : Heap)
    → ((append_node p b (with_node p len offset h)).len p ≡ len)
      × ((append_node p b (with_node p len offset h)).seek p ≡ offset)
unfolding append_node link_nodes
append_node-fields p b len offset h = (rw (==_refl p) refl, rw (==_refl p) refl)

-- The node `p` was added behind the lines `xs`.
pub record Appended (ed ed' : Buffer) (xs : List Ptr) (p : Ptr) (ys : List Ptr) (size offset : ℕ)
    : Type 0 where
  pub buffer : IsBuffer ed' (joined xs p [] ys)
  pub undo : ed'.undo ≡ ed.undo
  pub len : ed'.heap.len p ≡ size
  pub seek : ed'.heap.seek p ≡ offset
  pub heap : ed'.heap ≡ append_node p (last ed.line_head xs) (with_node p size offset ed.heap)
  pub saved : ed'.saved ≡ ed.saved
  pub head : ed'.line_head ≡ ed.line_head

module _ (ed : Buffer) (xs : List Ptr) (p : Ptr) (ys : List Ptr) (len offset : ℕ) where
  -- Given memory for a node that is not the head or a line, and fewer than OFF_T_MAX lines,
  -- `append_line_node` at the address of the last of the lines `xs` succeeds. The new node stands
  -- behind them, with its length and offset, and the invariant and the undo queue are kept.
  pub append_line_node-Appended :
      IsBuffer ed (xs ++ ys)
      → Distinct (ed.line_head ∷ joined xs p [] ys)
      → p ≢ null
      → ed.state.lines < off_t_max
      → Ensures
          (append_line_node true p len offset (length xs) ed)
          (λ lp ed'. (lp ≡ p) × Appended ed ed' xs p ys len offset)
  unfolding append_line_node
  append_line_node-Appended v dis z l =
      let h = with_node p len offset ed.heap in
      let fields = append_node-fields p (last ed.line_head xs) len offset ed.heap in
      let v₁ = IsBuffer-with_node v in
      let n : length xs ≤ length (xs ++ ys) = omega (arith, length-append xs ys) in
      rw
        (
          more,
          locate_lem (record ed { heap = h }) (xs ++ ys) v₁ (length xs) n,
          node_at-length ed.line_head xs ys,
        )
        (
          refl,
          record {
            buffer = record {
              ring = append_node-IsRing xs p ys v₁.ring dis;
              lines = omega (arith, v.lines, length-joined xs p [] ys, length-append xs ys);
              dot = omega (arith, v.dot, length-joined xs p [] ys, length-append xs ys);
              cached = IsCached-last xs (p ∷ ys) not_null refl;
              not_null = not_null;
            };
            undo = refl;
            len = fields.0;
            seek = fields.1;
            heap = refl;
            saved = refl;
            head = refl;
          },
        )
    where
      more : leb off_t_max ed.state.lines ≡ false
      more = ground (arith, l)

      not_null : has null (ed.line_head ∷ joined xs p [] ys) ≡ false
      not_null = ground (arith, z, v.not_null, has-append null xs ys, has-append null xs (p ∷ ys))

      IsBuffer-with_node :
          IsBuffer ed (xs ++ ys)
          → IsBuffer (record ed { heap = with_node p len offset ed.heap }) (xs ++ ys)
      IsBuffer-with_node v = record {
        ring = record {
          chain = Chain-with_node p len offset ed.heap ed.line_head _ v.ring.chain;
          distinct = v.ring.distinct;
        };
        lines = v.lines;
        dot = v.dot;
        cached = v.cached;
        not_null = v.not_null;
      }

-- Where the operation succeeds, the buffer that it leaves has the property.
abbrev pub OnSuccess : {A : Type 0} → Outcome A → (A → Buffer → Type 0) → Type 0
OnSuccess (ok a ed) P = P a ed
OnSuccess (err e ed) P = Unit

pub Ensures-both :
    {A : Type 0} (P Q : A → Buffer → Type 0) (r : Outcome A)
    → Ensures r P
    → OnSuccess r Q
    → Ensures r (λ a ed. P a ed × Q a ed)
Ensures-both P Q (ok a ed) p q = (p, q)
Ensures-both P Q (err e ed) p q = absurd p

-- The current line stays.
pub dot-append_line_node :
    (memory : Bool) (lp : Ptr) (len offset addr : ℕ) (ed : Buffer)
    → OnSuccess
        (append_line_node memory lp len offset addr ed)
        (λ _ ed'. ed'.state.dot ≡ ed.state.dot)
unfolding append_line_node locate
dot-append_line_node memory lp len offset addr ed = ground arith
