-- ===== src/Text/Tests.antt =====
-- The texts of a buffer of three lines.
use ed.Common.{ℕ, ◌≡◌, refl, true, false, none, some, List, [], ◌∷◌, arith}
use ed.Edit.Valid.{IsBuffer}
use ed.Edit.Tests.{three_nodes, three_lines, three_lines-IsBuffer, three_lines-Tracked}
use ed.Text.{Core, Calls, ◌>>=◌, run, join_lines, put_buffer_line, get_buffer_line}
use ed.Edit.Commands.{undo_last_command}
use ed.Text.Store.{IsStore, Succeeds, Ensures}
use ed.Text.Kept.{get_buffer_line-put_buffer_line}
use ed.Text.Joined.{join_lines-Replaced}
use ed.Text.Replacing.{Replaced, HasRoom}
use ed.Text.Appending.{typed, append_lines}
use ed.Text.Typed.{append_lines-AllAdded}
use ed.Text.Round.{AllAdded}
use ed.Text.Undone.{Undone, undo-join_lines}

abbrev all_right : Calls
all_right = record { memory = true; join_memory = true; seek = true; write = true }

all_right-Succeeds : Succeeds all_right
all_right-Succeeds = record { memory = refl; join_memory = refl; seek = refl; write = refl }

-- The lines "ab", "cd" and "ef", behind the last write.
abbrev three_texts : Core
three_texts = record {
  buffer = three_lines;
  fp = b'a' ∷ b'b' ∷ b'c' ∷ b'd' ∷ b'e' ∷ b'f' ∷ [];
  position = 6;
  offset = some 6;
  seek_on_write = false;
}

three_texts-IsStore : IsStore three_texts
three_texts-IsStore = record { offset = refl; at_end = λ e. refl }

room : (t : List ℕ) → t ≡ b'c' ∷ b'd' ∷ b'e' ∷ b'f' ∷ [] → HasRoom three_texts 5 t
unfolding three_nodes
room t e = record {
  fresh = refl;
  not_null = λ e. omega arith;
  lines = omega arith;
  file = rw e (omega arith);
}

get_buffer_line-put_buffer_line_example :
    Ensures
      (put_buffer_line all_right 5 (b'x' ∷ b'y' ∷ 10 ∷ []) 3 three_texts >>= λ left c₁.
        get_buffer_line all_right 5 c₁)
      (λ s c'. (s ≡ b'x' ∷ b'y' ∷ []) × IsStore c' × IsBuffer c'.buffer (2 ∷ 3 ∷ 4 ∷ 5 ∷ []))
get_buffer_line-put_buffer_line_example =
    get_buffer_line-put_buffer_line three_texts (2 ∷ 3 ∷ 4 ∷ []) 5 [] (b'x' ∷ b'y' ∷ []) []
      all_right all_right all_right-Succeeds all_right-Succeeds three_texts-IsStore
      three_lines-IsBuffer refl (refl, (refl, (refl, (refl, (refl, tt))))) (λ e. omega arith)
      (omega arith) (omega arith)

join_lines-Replaced_example :
    Ensures
      (join_lines (λ n. all_right) true all_right true 5 2 3 three_texts)
      (λ _ c'. Replaced three_lines three_texts c' (2 ∷ []) 5 [] (b'c' ∷ b'd' ∷ b'e' ∷ b'f' ∷ []))
unfolding three_nodes
join_lines-Replaced_example =
    join_lines-Replaced three_lines three_texts (2 ∷ []) 3 (4 ∷ []) [] 5 (λ n. all_right) all_right
      (λ n. all_right-Succeeds) all_right-Succeeds three_texts-IsStore three_lines-Tracked
      ((omega arith, refl), ((omega arith, refl), tt)) (room _ refl)

undo-join_lines_example :
    Ensures
      (join_lines (λ n. all_right) true all_right true 5 2 3 three_texts >>= λ _ c₁.
        run c₁ (undo_last_command c₁.buffer))
      (λ _ c'. Undone three_lines three_texts c' (2 ∷ 3 ∷ 4 ∷ []) 5)
unfolding three_nodes
undo-join_lines_example =
    undo-join_lines three_lines three_texts (2 ∷ 3 ∷ 4 ∷ []) (2 ∷ []) 3 (4 ∷ []) [] 5
      (λ n. all_right) all_right (λ n. all_right-Succeeds) all_right-Succeeds three_lines-IsBuffer
      (refl, (refl, (refl, (refl, tt)))) three_texts-IsStore three_lines-Tracked
      ((omega arith, refl), ((omega arith, refl), tt)) (room _ refl)

-- `1a`, "xy", ".".
append_lines-AllAdded_example :
    Ensures
      (append_lines all_right true
        (5 ∷ 6 ∷ [])
        1
        []
        none
        true
        true
        ((b'x' ∷ b'y' ∷ 10 ∷ []) ∷ (b'.' ∷ 10 ∷ []) ∷ (b'p' ∷ 10 ∷ []) ∷ [])
        three_texts)
      (λ a c'.
        (a.source ≡ typed ((b'p' ∷ 10 ∷ []) ∷ []) true)
        × AllAdded three_lines three_texts c' (2 ∷ []) ((5, b'x' ∷ b'y' ∷ []) ∷ []) (3 ∷ 4 ∷ []))
unfolding three_nodes
append_lines-AllAdded_example =
    append_lines-AllAdded three_lines three_texts all_right (2 ∷ []) (3 ∷ 4 ∷ [])
      ((5, b'x' ∷ b'y' ∷ []) ∷ []) (6 ∷ []) none true true ((b'p' ∷ 10 ∷ []) ∷ []) refl
      all_right-Succeeds three_texts-IsStore three_lines-Tracked (refl, λ e. omega arith, tt)
      (refl, tt) (omega arith) (omega arith)
