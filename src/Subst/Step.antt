-- ===== src/Subst/Step.antt =====
-- One round of the loop of `substitute_matching` (src/subst.c): the text left and the text written.
use ed.Common.{
  ℕ, ◌+◌, ◌-◌, ◌≤◌, ◌<◌, ◌≡◌, refl, Bool, true, false, not, ◌||◌, ◌&&◌, Option, none, some, List,
  ◌++◌, arith, length, take, drop, leb, ◌==◌, Bool-cases, inl, inr, ◌%◌, leb→le,
}
use ed.Address.{char}
use ed.Utf8.Text.{Status, fail, value, utf8_char_size}
use ed.Subst.{Groups}
use ed.Subst.Replace.{
  Plan, Progress, Step, next, stop, failed, overran, division_by_zero, skip, checked, sized,
  char_size, skip_char, replace, not_yet, selected, match_step,
}

-- Where the step goes on or stops, the text left, the flag `matched_prev` and the text written have
-- the property.
abbrev pub OnProgress :
    Step → (List ℕ → Bool → List ℕ → Type 0) → (List ℕ → Bool → List ℕ → Type 0) → Type 0
OnProgress (next y) P Q = P y.txt y.matched_prev y.rb
OnProgress (stop y) P Q = Q y.txt y.matched_prev y.rb
OnProgress failed P Q = Unit
OnProgress overran P Q = Unit
OnProgress division_by_zero P Q = Unit

sized-pos : (s : Status) (j : ℕ) → sized s ≡ some j → 0 < j
sized-pos fail j e = cc
sized-pos (value n) j e = ground (arith, e)

char_size-pos : (b : Bool) (txt : List ℕ) (j : ℕ) → char_size b txt ≡ some j → 0 < j
unfolding char_size
char_size-pos true txt j e = sized-pos (utf8_char_size txt (length txt)) j e
char_size-pos false txt j e = ground (arith, e)

-- The variables that do not matter.
abbrev pub at : List ℕ → Bool → List ℕ → Bool → Bool → ℕ → ℕ → Option Bool → ℕ → Progress
at txt matched rb bol nil k changed utf8 size = record {
  txt = txt;
  bol = bol;
  matched_prev = matched;
  nil_next = nil;
  k = k;
  changed = changed;
  rb = rb;
  is_utf8 = utf8;
  cc_size = size;
}

module _ (p : Plan) (P Q : List ℕ → Bool → List ℕ → Type 0) (txt : List ℕ) (matched : Bool)
    (rb : List ℕ)
    (on_skip : (j : ℕ) → 0 < j → j ≤ length txt → P (drop j txt) false (rb ++ take j txt))
    (on_stop : Q txt matched rb) where
  skip-On :
      (j : ℕ) (bol nil : Bool) (k changed : ℕ) (utf8 : Option Bool) (size : ℕ)
      → 0 < j
      → OnProgress (skip p j (at txt matched rb bol nil k changed utf8 size)) P Q
  skip-On j bol nil k changed utf8 size m = elim (Bool-cases (p.env.grow (length rb + j))) [
    | inl e ↦ rw e (elim (Bool-cases (leb j (length txt))) [
      | inl f ↦ rw f (on_skip j m (leb→le j (length txt) f))
      | inr f ↦ rw f tt
    ])
    | inr e ↦ rw e tt
  ]

  skip_char-On :
      (bol nil : Bool) (k changed : ℕ) (utf8 : Option Bool) (size : ℕ)
      → OnProgress (skip_char p (at txt matched rb bol nil k changed utf8 size)) P Q
  unfolding skip_char
  skip_char-On bol nil k changed utf8 size =
      by_check (checked (at txt matched rb bol nil k changed utf8 size))
    where
      by_size :
          (b : Bool) (s : Option ℕ)
          → ((j : ℕ) → s ≡ some j → 0 < j)
          → OnProgress
              (elim s [
                | none ↦ overran
                | some j ↦ skip p j (at txt matched rb bol nil k changed (some b) size)
              ])
              P
              Q
      by_size b none f = tt
      by_size b (some j) f = skip-On j bol nil k changed (some b) size (f j refl)

      by_check :
          (c : Option Bool)
          → OnProgress
              (elim c [
                | none ↦ failed
                | some b ↦ elim (char_size b txt) [
                  | none ↦ overran
                  | some j ↦ skip p j (at txt matched rb bol nil k changed (some b) size)
                ]
              ])
              P
              Q
      by_check none = tt
      by_check (some b) = by_size b (char_size b txt) (char_size-pos b txt)

  not_yet-On :
      (eo : ℕ) (bol nil : Bool) (k changed : ℕ) (utf8 : Option Bool) (size : ℕ)
      → OnProgress (not_yet p eo (at txt matched rb bol nil k changed utf8 size)) P Q
  unfolding not_yet
  not_yet-On eo bol nil k changed utf8 size = elim (Bool-cases (eo == 0)) [
    | inl e ↦ rw e (elim (Bool-cases (char txt == 0)) [
      | inl f ↦ rw f on_stop
      | inr f ↦ rw f (skip_char-On bol nil k changed utf8 size)
    ])
    | inr e ↦ rw e (
        skip-On eo bol nil k changed (checked (at txt matched rb bol nil k changed utf8 size)) size
          (ground (arith, e)))
  ]

  module _ (so eo : ℕ) (rm : Groups)
      (on_replace : (matched && (eo == 0)) ≡ false
        → (bol nil : Bool) (k changed : ℕ) (utf8 : Option Bool) (size : ℕ)
        → OnProgress (replace p so eo rm (at txt matched rb bol nil k changed utf8 size)) P Q) where
    selected-On :
        (bol nil : Bool) (k changed : ℕ) (utf8 : Option Bool) (size : ℕ)
        → (matched && (eo == 0)) ≡ false
        → OnProgress (selected p so eo rm (at txt matched rb bol nil k changed utf8 size)) P Q
    unfolding selected
    selected-On bol nil k changed utf8 size e =
        let other = not_yet-On eo bol nil k changed utf8 size in
        elim (Bool-cases (leb p.first k)) [
          | inl f ↦ rw f (elim (Bool-cases (p.every == 0)) [
            | inl g ↦ rw g tt
            | inr g ↦ rw g (elim (Bool-cases ((k - p.first) % p.every == 0)) [
              | inl h ↦ rw h (on_replace e bol nil k changed utf8 size)
              | inr h ↦ rw h other
            ])
          ])
          | inr f ↦ rw f other
        ]

    pub match_step-On :
        (bol nil : Bool) (k changed : ℕ) (utf8 : Option Bool) (size : ℕ)
        → OnProgress (match_step p so eo rm (at txt matched rb bol nil k changed utf8 size)) P Q
    unfolding match_step
    match_step-On bol nil k changed utf8 size = elim (Bool-cases (matched && (eo == 0))) [
      | inl e ↦ rw e (elim (Bool-cases (char txt == 0)) [
        | inl f ↦ rw f on_stop
        | inr f ↦ rw f (skip_char-On bol (eo == 0) k changed utf8 size)
      ])
      | inr e ↦ rw e (elim (Bool-cases (not (eo == 0) || nil)) [
        | inl f ↦ rw f (selected-On bol (eo == 0) (k + 1) changed utf8 size e)
        | inr f ↦ rw f (not_yet-On eo bol (eo == 0) k changed utf8 size)
      ])
    ]
