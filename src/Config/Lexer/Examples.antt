-- ===== src/Config/Lexer/Examples.antt =====
-- src/config/lexer.rs: runs of the lexer, and its theorem at a concrete input.
use oxi_serve.Base.{◌≡◌, refl, false, [], ◌∷◌, List}
use oxi_serve.Base.Bytes.{Bytes, codes}
use oxi_serve.Base.Result.{ok, err}
use oxi_serve.Config.Lexer.{
  Tok, word, open_brace, close_brace, semi, unterminated, is_delim, next_line, is_space,
  skip_trivia, contains, resolve, push, scan_quoted, delimited, scan_bare, bare_word, unescape, put,
  run, tokenize,
}
use oxi_serve.Config.Lexer.RoundTrip.{print_all, placed, tokenize-print_all, IsText}

abbrev same_text : Bytes → Bytes
same_text w = w

abbrev tokens : List Tok
tokens = word (codes "log\"in\n\\n") ∷ open_brace ∷ word (codes "a") ∷ semi ∷ close_brace ∷ []

tokenize-print_all_example : tokenize same_text (print_all tokens) ≡ ok (placed 1 tokens)
unfolding IsText
tokenize-print_all_example =
    tokenize-print_all same_text tokens (refl, (tt, (refl, (tt, (tt, tt)))))

-- A line feed behind a backslash, in a word that is not quoted, is not counted.
escaped_line :
    tokenize same_text (codes "a\\\nb\nc")
    ≡ ok (
        record { tok = word (codes "a\\\nb"); line = 1; quoted = false }
        ∷ record { tok = word (codes "c"); line = 2; quoted = false }
        ∷ [])
unfolding tokenize run is_delim next_line is_space skip_trivia contains resolve scan_bare bare_word
    unescape put
escaped_line = refl

-- A comment, quotes and an escape of a regular expression.
tokenize_run :
    tokenize same_text (codes "# c\nre \\.php$;'x")
    ≡ err (record { problem = unterminated; line = 2 })
unfolding tokenize run is_delim next_line is_space skip_trivia contains resolve scan_bare bare_word
    unescape put scan_quoted push delimited
tokenize_run = refl
