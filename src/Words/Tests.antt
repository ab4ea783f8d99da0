-- ===== src/Words/Tests.antt =====
-- The theorems on words at concrete inputs.
use ed.Common.{◌≡◌, refl, true, false, none, some, [], ◌∷◌, arith}
use ed.Words.Quote.{shell_quote, quoted, emit, quote_rest}
use ed.Words.Shell.{expand_shell_command, expanded}
use ed.Words.Unquote.{Quotes}
use ed.Words.Quoting.{shell_quote-Quotes}
use ed.Words.Tokens.{strtok_with_delimiters, token, escape}
use ed.Words.Unescape.{strtok_with_delimiters-escape}
use ed.Words.Pattern.{regular_expression, at}
use ed.Words.Delimited.{Found, regular_expression-Found}

-- "it's" is quoted as 'it'\''s'.
shell_quote_runs :
    shell_quote (λ n. true) 0 (b'i' ∷ b't' ∷ 39 ∷ b's' ∷ [])
    ≡ quoted (39 ∷ b'i' ∷ b't' ∷ 39 ∷ 92 ∷ 39 ∷ 39 ∷ b's' ∷ 39 ∷ [])
unfolding shell_quote emit quote_rest
shell_quote_runs = refl

shell_quote-Quotes_example :
    Quotes (λ n. true) false (39 ∷ b'x' ∷ []) (shell_quote (λ n. true) 0 (39 ∷ b'x' ∷ []))
shell_quote-Quotes_example = shell_quote-Quotes (λ n. true) 0 (39 ∷ b'x' ∷ [])

-- The pattern of "[[:digit:]/]+/p" ends at the second slash.
regular_expression_runs :
    regular_expression b'/'
      (b'[' ∷ b'[' ∷ b':' ∷ b'd' ∷ b':' ∷ b']' ∷ b'/' ∷ b']' ∷ b'+' ∷ b'/' ∷ b'p' ∷ 10 ∷ [])
    ≡ at (b'/' ∷ b'p' ∷ 10 ∷ [])
unfolding regular_expression
regular_expression_runs = refl

regular_expression-Found_example :
    Found b'/'
      (b'[' ∷ b'/' ∷ b']' ∷ b'/' ∷ 10 ∷ [])
      (regular_expression b'/' (b'[' ∷ b'/' ∷ b']' ∷ b'/' ∷ 10 ∷ []))
regular_expression-Found_example =
    regular_expression-Found b'/' (b'[' ∷ b'/' ∷ b']' ∷ b'/' ∷ 10 ∷ [])

-- A blank within the word "a b".
strtok_with_delimiters-escape_example :
    strtok_with_delimiters (some (b'a' ∷ 92 ∷ 32 ∷ b'b' ∷ 32 ∷ b'c' ∷ [])) none (32 ∷ [])
    ≡ token (b'a' ∷ 32 ∷ b'b' ∷ []) (some (b'c' ∷ []))
unfolding escape
strtok_with_delimiters-escape_example =
    strtok_with_delimiters-escape (32 ∷ []) refl none b'a' (32 ∷ b'b' ∷ []) 32 (b'c' ∷ [])
      (omega arith, (omega arith, (omega arith, omega arith))) refl

-- "!!x" after the command "!ls %" in the file "f".
expand_runs :
    expand_shell_command
      (record {
        restricted = false;
        script_flags = true;
        single = false;
        name = b'f' ∷ [];
        script_pathname = [];
        quote = λ fn. some fn;
      })
      (some (b'!' ∷ b'l' ∷ b's' ∷ b'%' ∷ []))
      (b'!' ∷ b'!' ∷ b'x' ∷ [])
    ≡ expanded (b'!' ∷ b'l' ∷ b's' ∷ b'f' ∷ b'x' ∷ []) 2
unfolding expand_shell_command
expand_runs = refl
