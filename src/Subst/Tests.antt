-- ===== src/Subst/Tests.antt =====
-- The theorems on substitution at concrete templates.
use ed.Common.{
  ℕ, suc, ◌+◌, ◌-◌, ◌≤◌, ◌==◌, length, none, ◌≡◌, ◌≢◌, refl, true, false, some, List, [], ◌∷◌, ◌++◌,
  arith, leb, ◌&&◌, if◌then◌else◌, inl,
}
use ed.Subst.{Env, realloc_buffer, keep, Groups, going, overrun}
use ed.Subst.Template.{
  apply_subst_template, template_loop, template_step, escape_step, put, put_group, push, cased,
  cased_all, stack_size, closed,
}
use ed.Common.Int.{pos, negsuc, ◌+ℤ◌, ◌-ℤ◌}
use ed.Subst.Copy.{copied, substitution_template}
use ed.Subst.Verbatim.{quote, substitution_template-verbatim}
use ed.Subst.Matches.{Regexec, count_matches, count_loop, count_step}
use ed.Subst.Counts.{IsRegexec, AtMost, count_matches-AtMost}
use ed.Subst.Replace.{
  Modifiers, modified_text, by_zero, substitute_matching, match_loop, match_step, selected, replace,
  not_yet, skip_char, char_size, selection, close_text,
}
use ed.Subst.Ends.{OnText}
use ed.Subst.Same.{substitute_matching-newline, substitute_matching-same}
use ed.Subst.Modifiers.{substitution_modifiers, modifier_loop, modifier_round, modifier}
use ed.Address.{Parse, ok, strtoll, digits}
use ed.Address.Offset.{address_offset, offset_loop, offset_round, offset, branch}
use ed.Subst.Again.{repeated, resubstitute, short_loop, short_round, suffix_of}
use ed.Subst.Division.{every_from_last, substitute_matching-division}
use ed.Utf8.Text.{is_utf8_str, utf8_char_size}
use ed.Utf8.Decode.{decode_utf8_char}
use ed.Subst.Growth.{Grown, realloc_buffer-Grown}
use ed.Subst.Stack.{apply_subst_template-stack}
use ed.Subst.Literal.{
  literal, apply_subst_template-literal, upper_cases, apply_subst_template-overrun,
}

-- The letters of ASCII.
abbrev ascii : Env
ascii = record {
  toupper = λ c. if leb b'a' c && leb c b'z' then c - 32 else c;
  tolower = λ c. if leb b'A' c && leb c b'Z' then c + 32 else c;
  grow = λ n. true;
}

-- "xaby" with the match "ab" and the group "b" within it.
abbrev boln : List ℕ
boln = b'x' ∷ b'a' ∷ b'b' ∷ b'y' ∷ []

abbrev ab : Groups
ab = some (1, 3) ∷ some (2, 3) ∷ []

-- The template "\u&-\1" gives "Ab-b".
apply_runs :
    apply_subst_template ascii true 8192 0 boln ab (92 ∷ b'u' ∷ b'&' ∷ b'-' ∷ 92 ∷ b'1' ∷ []) []
    ≡ going (record {
      rb = b'A' ∷ b'b' ∷ b'-' ∷ b'b' ∷ [];
      cc = keep ∷ [];
      change_once = keep;
      escaped = false;
    })
unfolding apply_subst_template template_loop template_step escape_step put put_group push cased
    cased_all stack_size closed realloc_buffer
apply_runs = refl

realloc_buffer-Grown_example : Grown 8192 8192 10000 (realloc_buffer 8192 8192 10000)
realloc_buffer-Grown_example =
    realloc_buffer-Grown 8192 8192 10000 (omega arith) (omega arith) (omega arith) (omega arith)

apply_subst_template-stack_example :
    apply_subst_template ascii true 8192 0 boln ab (92 ∷ b'U' ∷ b'&' ∷ []) [] ≢ overrun
apply_subst_template-stack_example =
    apply_subst_template-stack ascii true 8192 0 boln ab (92 ∷ b'U' ∷ b'&' ∷ []) [] (omega arith)
      (omega arith) (inl refl)

apply_subst_template-literal_example :
    apply_subst_template ascii true 8192 0 boln ab (literal (b'R' ∷ b'&' ∷ b'D' ∷ [])) (b'x' ∷ [])
    ≡ going (record {
      rb = b'x' ∷ b'R' ∷ b'&' ∷ b'D' ∷ [];
      cc = keep ∷ [];
      change_once = keep;
      escaped = false;
    })
unfolding literal stack_size realloc_buffer
apply_subst_template-literal_example =
    apply_subst_template-literal ascii 8192 0 boln ab (b'R' ∷ b'&' ∷ b'D' ∷ []) (b'x' ∷ [])
      (λ n. refl) (omega arith)

-- 4096 characters of template, and BUFSIZ of the GNU C library.
apply_subst_template-overrun_example :
    apply_subst_template ascii true 8192 0 boln ab (upper_cases 2048) [] ≡ overrun
apply_subst_template-overrun_example =
    apply_subst_template-overrun ascii 8192 2048 boln ab [] (omega arith) (omega arith)
      (omega arith)

substitution_template-verbatim_example :
    (substitution_template ascii.grow b'/' none
        (b'/' ∷ 92 ∷ b'/' ∷ b'R' ∷ 92 ∷ b'&' ∷ b'/' ∷ b'g' ∷ 10 ∷ [])
      ≡ copied (b'/' ∷ b'R' ∷ 92 ∷ b'&' ∷ []) (b'/' ∷ b'g' ∷ 10 ∷ []))
    × (apply_subst_template ascii true 8192 0 boln ab (b'/' ∷ b'R' ∷ 92 ∷ b'&' ∷ []) []
        ≡ going (record {
          rb = b'/' ∷ b'R' ∷ b'&' ∷ [];
          cc = keep ∷ [];
          change_once = keep;
          escaped = false;
        }))
unfolding quote literal stack_size realloc_buffer
substitution_template-verbatim_example =
    substitution_template-verbatim ascii 8192 0 b'/' none (b'/' ∷ b'R' ∷ b'&' ∷ []) (b'g' ∷ 10 ∷ [])
      boln ab [] (λ n. refl) (omega arith) (omega arith) (omega arith) (omega arith) (omega arith)
      (omega arith, (omega arith, (omega arith, tt)))

-- The pattern "a*", which matches at every place.
abbrev run : List ℕ → ℕ
run [] = 0
run (c ∷ s) = let n = run s in if c == b'a' then suc n else 0

abbrev star : Regexec
star bol txt = some ((0, run txt), [])

run-length : (s : List ℕ) → run s ≤ length s
run-length [] = omega arith
run-length (c ∷ s) = ground (arith, run-length s)

star-IsRegexec : IsRegexec star
star-IsRegexec = record {
  order = λ bol txt so eo rm e. ground (arith, e);
  within = λ bol txt so eo rm e. ground (arith, e, run-length txt);
}

-- The line "baac": empty matches before "b" and behind "c", and "aa".
abbrev baac : List ℕ
baac = b'b' ∷ b'a' ∷ b'a' ∷ b'c' ∷ []

count_runs : count_matches star baac ≡ some 3
unfolding count_matches count_loop count_step
count_runs = refl

count_matches-AtMost_example : AtMost 5 (count_matches star baac)
count_matches-AtMost_example = count_matches-AtMost star baac star-IsRegexec

abbrev globally : Modifiers
globally = record { s_nth = pos 0; s_mod = pos 0; gsub = true; snlr = false; smlr = false }

substitute_matching-newline_example :
    OnText
      (substitute_matching ascii true 8192 0 star (b'-' ∷ []) globally baac)
      (λ t. (s : List ℕ) × (t ≡ s ++ 10 ∷ []))
substitute_matching-newline_example =
    substitute_matching-newline ascii true 8192 0 star (b'-' ∷ []) globally baac star-IsRegexec

substitute_matching-same_example :
    OnText
      (substitute_matching ascii true 8192 0 star (b'&' ∷ []) globally baac)
      (λ t. t ≡ baac ++ 10 ∷ [])
substitute_matching-same_example =
    substitute_matching-same ascii true 8192 0 star globally baac star-IsRegexec

substitute_matching-division_example :
    substitute_matching ascii true 8192 0 star (b'-' ∷ []) (every_from_last 2) baac ≡ some by_zero
unfolding count_matches count_loop count_step
substitute_matching-division_example =
    substitute_matching-division ascii true 8192 0 star (b'-' ∷ []) baac 2 refl

-- "s/a*/-/g" makes "-b-c-" of it.
substitute_runs :
    substitute_matching ascii true 8192 0 star (b'-' ∷ []) globally baac
    ≡ some (modified_text (b'-' ∷ b'b' ∷ b'-' ∷ b'c' ∷ b'-' ∷ 10 ∷ []))
unfolding substitute_matching count_matches count_loop count_step match_loop match_step selected
    replace not_yet skip_char char_size selection close_text apply_subst_template template_loop
    template_step put push cased cased_all stack_size closed realloc_buffer is_utf8_str
    utf8_char_size decode_utf8_char
substitute_runs = refl

abbrev unmodified : Modifiers
unmodified = record { s_nth = pos 0; s_mod = pos 0; gsub = false; snlr = false; smlr = false }

abbrev suffix : Parse
suffix = record { input = b'g' ∷ b'-' ∷ b'1' ∷ b'p' ∷ 10 ∷ []; dot = pos 1 }

-- "g-1p" is read up to the p.
modifiers_read :
    substitution_modifiers unmodified suffix
    ≡ ok
        (record unmodified { s_mod = negsuc 0; gsub = true; smlr = true })
        (record suffix { input = b'p' ∷ 10 ∷ [] })
unfolding substitution_modifiers modifier_loop modifier_round modifier address_offset offset_loop
    offset_round offset branch strtoll digits ◌+ℤ◌ ◌-ℤ◌
modifiers_read = refl

abbrev short_form : Parse
short_form = record { input = b'2' ∷ b'p' ∷ 10 ∷ []; dot = pos 1 }

abbrev one_of_two : Modifiers
one_of_two = record { s_nth = pos 1; s_mod = pos 2; gsub = true; snlr = false; smlr = false }

-- "s2p"
short_form_read :
    resubstitute false one_of_two short_form
    ≡ ok
        (repeated (record {
          modifiers = record one_of_two { s_nth = pos 2 };
          tgsg = false;
          tgsp = true;
          tgsr = false;
          g_f = false;
        }))
        (record short_form { input = 10 ∷ [] })
unfolding resubstitute short_loop short_round suffix_of address_offset offset_loop offset_round
    offset branch strtoll digits ◌+ℤ◌ ◌-ℤ◌
short_form_read = refl
