-- ===== src/Subst/Spelled.antt =====
-- What the loop of `resubstitute` (src/subst.c) takes from the command buffer.
use ed.Common.{
  ℕ, zero, suc, ◌≡◌, ◌≢◌, refl, ap, ◌∙◌, sym, Bool, true, false, not, ◌||◌, List, [], ◌∷◌, ◌++◌,
  append_assoc, arith,
}
use ed.Common.Int.{ℤ, pos}
use ed.Address.{Parse, ok, ◌>>=◌, char, advance}
use ed.Address.Offset.{address_offset}
use ed.Subst.Replace.{Modifiers}
use ed.Subst.Modifiers.{is_relative}
use ed.Subst.Again.{
  Short, Resubstituted, full, repeated, unknown_suffix, Suffix, suffix_of, short_round, short_loop,
}
use ed.Subst.Letters.{
  Yields, then_yields, yields_mono, yields_either, given, toggles, letters, Skips, Skips-refl,
  Skips-advance, given-append, toggles-append, given-unlettered, toggles-given,
}
use ed.Subst.Offsets.{From, further, address_offset-From}

-- From the text `s` on, characters `u` without a newline were taken. Each `g`, `p` and `r` of them
-- turned its flag over, and `g_f` is set by a `g`.
unfoldable pub Spelled : Short → List ℕ → Short → List ℕ → Type 0
Spelled t s t' s' =
    (u : List ℕ) × (s ≡ u ++ s')
    × (given 10 u ≡ false)
    × (t'.tgsg ≡ toggles b'g' t.tgsg u)
    × (t'.tgsp ≡ toggles b'p' t.tgsp u)
    × (t'.tgsr ≡ toggles b'r' t.tgsr u)
    × (t'.g_f ≡ (t.g_f || given b'g' u))

abbrev pub To : Short → List ℕ → Short → Parse → Type 0
To t s t' q = Spelled t s t' q.input

toggled :
    (c : ℕ) (b b' b'' : Bool) (u v : List ℕ)
    → b' ≡ toggles c b u
    → b'' ≡ toggles c b' v
    → b'' ≡ toggles c b (u ++ v)
toggled c b b' b'' u v e f = f ∙ ap (λ x. toggles c x v) e ∙ sym (toggles-append c b u v)

Spelled-trans :
    (t t' t'' : Short) (s s' s'' : List ℕ)
    → Spelled t s t' s'
    → Spelled t' s' t'' s''
    → Spelled t s t'' s''
unfolding Spelled
Spelled-trans t t' t'' s s' s'' (u, e, n, g, p, r, f) (v, e', n', g', p', r', f') = (
  u ++ v,
  e ∙ ap (λ x. u ++ x) e' ∙ sym (append_assoc u v s''),
  ground (arith, given-append 10 u v, n, n'),
  toggled b'g' _ _ _ u v g g',
  toggled b'p' _ _ _ u v p p',
  toggled b'r' _ _ _ u v r r',
  ground (arith, given-append b'g' u v, f, f'),
)

-- Where no letter is taken, the flags stay.
Spelled-Skips :
    (t t' : Short) (s s' : List ℕ)
    → t'.tgsg ≡ t.tgsg
    → t'.tgsp ≡ t.tgsp
    → t'.tgsr ≡ t.tgsr
    → t'.g_f ≡ t.g_f
    → Skips s s'
    → Spelled t s t' s'
unfolding Spelled Skips given
Spelled-Skips t t' s s' g p r f (u, e, l) =
    let none_of : (c : ℕ) → given c letters ≡ true → given c u ≡ false =
      λ c m. given-unlettered c u m l in
    (
      u,
      e,
      none_of 10 refl,
      g ∙ sym (toggles-given b'g' _ u (none_of b'g' refl)),
      p ∙ sym (toggles-given b'p' _ u (none_of b'p' refl)),
      r ∙ sym (toggles-given b'r' _ u (none_of b'r' refl)),
      ground (arith, f, none_of b'g' refl),
    )

-- The character at the front is taken.
Spelled-letter :
    (t t' : Short) (s : List ℕ)
    → char s ≢ 0
    → char s ≢ 10
    → t'.tgsg ≡ toggles b'g' t.tgsg (char s ∷ [])
    → t'.tgsp ≡ toggles b'p' t.tgsp (char s ∷ [])
    → t'.tgsr ≡ toggles b'r' t.tgsr (char s ∷ [])
    → t'.g_f ≡ (t.g_f || given b'g' (char s ∷ []))
    → Spelled t s t' (advance s)
unfolding Spelled given
Spelled-letter t t' [] z n g p r f = absurd (z refl)
Spelled-letter t t' (c ∷ s) z n g p r f = (c ∷ [], refl, ground (arith, n), g, p, r, f)

suffix-char : (c d : ℕ) → c ≡ d → (given d (b'g' ∷ b'p' ∷ b'r' ∷ []) ≡ true) → (c ≢ 0) × (c ≢ 10)
unfolding given
suffix-char c d e m = (ground (arith, e, m), ground (arith, e, m))

is_global : (c : ℕ) → suffix_of c ≡ Suffix.global → c ≡ b'g'
unfolding suffix_of
is_global c e = ground arith

is_print : (c : ℕ) → suffix_of c ≡ Suffix.print → c ≡ b'p'
unfolding suffix_of
is_print c e = ground arith

is_regex : (c : ℕ) → suffix_of c ≡ Suffix.regex → c ≡ b'r'
unfolding suffix_of
is_regex c e = ground arith

is_last : (c : ℕ) → suffix_of c ≡ Suffix.last → c ≡ b'$'
unfolding suffix_of
is_last c e = ground arith

-- A round that reads an offset, from `q` on, and stores it.
stored :
    (t : Short) (s : List ℕ) (a : ℤ) (q : Parse) (m : ℤ → Modifiers)
    → Skips s q.input
    → Yields (address_offset a q >>= λ n r. ok (record t { modifiers = m n }) r) (To t s)
stored t s a q m k =
    then_yields (From s) (To t s) (address_offset a q) _
      (further s q.input _ k (address_offset-From a q))
      λ n r l. Spelled-Skips t (record t { modifiers = m n }) s r.input refl refl refl refl l

-- Where the round takes the letter `d`, which turns over what it should.
letter_round :
    (t t' : Short) (s : List ℕ) (d : ℕ)
    → char s ≡ d
    → given d (b'g' ∷ b'p' ∷ b'r' ∷ []) ≡ true
    → t'.tgsg ≡ toggles b'g' t.tgsg (d ∷ [])
    → t'.tgsp ≡ toggles b'p' t.tgsp (d ∷ [])
    → t'.tgsr ≡ toggles b'r' t.tgsr (d ∷ [])
    → t'.g_f ≡ (t.g_f || given b'g' (d ∷ []))
    → Spelled t s t' (advance s)
letter_round t t' s d e m g p r f =
    let (z, n) = suffix-char (char s) d e m in
    Spelled-letter t t' s z n (g ∙ ap (λ x. toggles b'g' t.tgsg (x ∷ [])) (sym e))
      (p ∙ ap (λ x. toggles b'p' t.tgsp (x ∷ [])) (sym e))
      (r ∙ ap (λ x. toggles b'r' t.tgsr (x ∷ [])) (sym e))
      (f ∙ ap (λ x. t.g_f || given b'g' (x ∷ [])) (sym e))

short_round-Spelled :
    (k : Suffix) (t : Short) (p : Parse)
    → suffix_of (char p.input) ≡ k
    → Yields (short_round k t p) (To t p.input)
unfolding short_round given toggles
short_round-Spelled Suffix.newline t p e =
    Spelled-Skips t t p.input p.input refl refl refl refl (Skips-refl p.input)
short_round-Spelled Suffix.other t p e =
    Spelled-Skips t t p.input p.input refl refl refl refl (Skips-refl p.input)
short_round-Spelled Suffix.last t p e =
    let c = is_last (char p.input) e in
    let m = t.modifiers in
    let q : Parse = record p { input = advance p.input } in
    let k : Skips p.input q.input = Skips-advance p.input (ground (arith, c)) in
    yields_either (To t p.input) t.g_f _ _
      (stored t p.input m.s_mod q (λ n. record m { s_mod = n; smlr = true }) k)
      (stored t p.input (pos 0) q (λ n. record m { s_nth = n; snlr = true }) k)
short_round-Spelled Suffix.number t p e =
    let m = t.modifiers in
    let k = Skips-refl p.input in
    yields_either (To t p.input) t.g_f _ _
      (stored t p.input (pos 0) p (λ n. record m { s_mod = n; gsub = false; smlr = is_relative n })
        k)
      (stored t p.input (pos 0) p (λ n. record m { s_nth = n; snlr = is_relative n }) k)
short_round-Spelled Suffix.global t p e =
    letter_round t (record t { g_f = true; tgsg = not t.tgsg }) p.input b'g'
      (is_global (char p.input) e) refl refl refl refl (ground arith)
short_round-Spelled Suffix.print t p e =
    letter_round t (record t { tgsp = not t.tgsp }) p.input b'p' (is_print (char p.input) e) refl
      refl refl refl (ground arith)
short_round-Spelled Suffix.regex t p e =
    letter_round t (record t { tgsr = not t.tgsr }) p.input b'r' (is_regex (char p.input) e) refl
      refl refl refl (ground arith)

-- The results of the loop.
unfoldable pub Spells : Short → List ℕ → Resubstituted → Parse → Type 0
Spells t s (full m) q = ⊥
Spells t s (repeated t') q = Spelled t s t' q.input
Spells t s unknown_suffix q = (u : List ℕ) × (s ≡ u ++ q.input) × (given 10 u ≡ false)

Spells-trans :
    (t t' : Short) (s s' : List ℕ) (r : Resubstituted) (q : Parse)
    → Spelled t s t' s'
    → Spells t' s' r q
    → Spells t s r q
unfolding Spells Spelled
Spells-trans t t' s s' (full m) q l h = h
Spells-trans t t' s s' (repeated t'') q l h = Spelled-trans t t' t'' s s' q.input l h
Spells-trans t t' s s' unknown_suffix q (u, e, n, g, p, r, f) (v, e', n') = (
  u ++ v,
  e ∙ ap (λ x. u ++ x) e' ∙ sym (append_assoc u v q.input),
  ground (arith, given-append 10 u v, n, n'),
)

module _ (fuel : ℕ) (t : Short) (p : Parse)
    (again : (t' : Short) (q : Parse) → Yields (short_loop fuel t' q) (Spells t' q.input)) where
  next_rounds :
      (k : Suffix)
      → suffix_of (char p.input) ≡ k
      → Yields (short_round k t p >>= λ t' q. short_loop fuel t' q) (Spells t p.input)
  next_rounds k e =
      then_yields (To t p.input) (Spells t p.input) _ _ (short_round-Spelled k t p e) λ t' q l.
        yields_mono (Spells t' q.input) (Spells t p.input) _ (again t' q)
          λ r u h. Spells-trans t t' p.input q.input r u l h

  loop_step :
      (k : Suffix)
      → suffix_of (char p.input) ≡ k
      → Yields
          (elim k [
            | Suffix.newline ↦ ok (repeated t) p
            | Suffix.other ↦ ok unknown_suffix p
            | k ↦ short_round k t p >>= λ t' q. short_loop fuel t' q
          ])
          (Spells t p.input)
  unfolding Spells given
  loop_step Suffix.newline e =
      Spelled-Skips t t p.input p.input refl refl refl refl (Skips-refl p.input)
  loop_step Suffix.other e = ([], refl, refl)
  loop_step Suffix.last e = next_rounds Suffix.last e
  loop_step Suffix.number e = next_rounds Suffix.number e
  loop_step Suffix.global e = next_rounds Suffix.global e
  loop_step Suffix.print e = next_rounds Suffix.print e
  loop_step Suffix.regex e = next_rounds Suffix.regex e

pub short_loop-Spells :
    (fuel : ℕ) (t : Short) (p : Parse) → Yields (short_loop fuel t p) (Spells t p.input)
unfolding short_loop
short_loop-Spells zero t p = tt
short_loop-Spells (suc fuel) t p =
    loop_step fuel t p (λ t' q. short_loop-Spells fuel t' q) (suffix_of (char p.input)) refl
