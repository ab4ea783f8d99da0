-- ===== src/Edit/Marks.antt =====
-- Line marks (src/cmds.c). `mark` holds MARK_MAX = 26 entries, NULL where no line is marked.
use ed.Common.{
  ℕ, ◌+◌, ◌-◌, Bool, Option, none, some, List, [], ◌∷◌, get_or, set, leb, ◌==◌, if◌then◌else◌, ◌&&◌,
}
use ed.Line.{Ptr, null}
use ed.Line.Locate
use ed.Edit.{Buffer, EdError, Outcome, ok, err}

abbrev pub mark_max : ℕ
mark_max = 26

-- `islower` in the C locale
abbrev pub islower : ℕ → Bool
islower n = leb b'a' n && leb n b'z'

unfoldable pub mark_line_node : Ptr → ℕ → Buffer → Outcome (Unit {0})
mark_line_node lp n ed =
    if islower n
    then (let i = n - b'a' in
        ok tt (record ed {
          marks = if get_or ed.mark i null == null then ed.marks + 1 else ed.marks;
          mark = set ed.mark i lp;
        }))
    else err EdError.invalid_mark ed

-- `none` is a run out of fuel of the search.
unfoldable pub get_marked_node_address : ℕ → Buffer → Option (Outcome ℕ)
get_marked_node_address n ed =
    if islower n
    then elim (Locate.get_line_node_address ed.heap ed.line_head ed.state.lines
        (get_or ed.mark (n - b'a') null)) [
          | none ↦ none
          | some none ↦ some (err EdError.out_of_range ed)
          | some (some addr) ↦ some (ok addr ed)
        ]
    else some (err EdError.invalid_mark ed)

-- The loop of `transfer_marks` visits every entry.
unfoldable pub transfer : Ptr → Ptr → List Ptr → List Ptr
transfer mp lp [] = []
transfer mp lp (m ∷ ms) = (if m == lp then mp else m) ∷ transfer mp lp ms

unfoldable pub transfer_marks : Ptr → Ptr → Buffer → Buffer
unfolding transfer
transfer_marks mp lp ed = record ed { mark = transfer mp lp ed.mark }

-- The loop of `unmark_line_node` over the entries left; it stops when no mark is left.
unfoldable pub unmark : Ptr → List Ptr → ℕ → List Ptr × ℕ
unmark lp [] marks = ([], marks)
unmark lp (m ∷ ms) marks =
    let left = if m == lp then marks - 1 else marks in
    let (ms', marks') = unmark lp ms left in
    if marks == 0 then (m ∷ ms, marks) else ((if m == lp then null else m) ∷ ms', marks')

unfoldable pub unmark_line_node : Ptr → Buffer → Buffer
unfolding unmark
unmark_line_node lp ed =
    let (mark', marks') = unmark lp ed.mark ed.marks in record ed { mark = mark'; marks = marks' }
