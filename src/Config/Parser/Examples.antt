-- ===== src/Config/Parser/Examples.antt =====
-- src/config/ast.rs: runs of the parser, and its theorem at a concrete input.
use oxi_serve.Base.{◌≡◌, refl, [], ◌∷◌}
use oxi_serve.Base.Bytes.{codes, same_bytes}
use oxi_serve.Base.Result.{ok, err, Result}
use oxi_serve.Config.Lexer.{word, close_brace}
use oxi_serve.Config.Parser.{
  Directive, simple, with_block, Directives, none, more, ParseError, not_terminated, append,
  line_of, fail, take_words, directive, splice, block, parse, last_line,
}
use oxi_serve.Config.Parser.Flatten.{at_line, flatten, IsWhole, parse-flatten}

abbrev no_files : Directive → Result ParseError Directives
no_files d = ok none

abbrev tree : Directives
tree = more (simple (codes "user") (codes "www" ∷ []) 1) (
    more
      (with_block (codes "http") [] 2 (
        more
          (with_block (codes "server") [] 3
            (more (simple (codes "listen") (codes "80" ∷ codes "reuseport" ∷ []) 4) none))
          none))
      none)

parse-flatten_example : parse no_files (flatten tree []) ≡ ok (tree, [])
unfolding IsWhole same_bytes
parse-flatten_example = parse-flatten no_files tree (refl, ((((refl, tt)), tt), tt))

-- A brace where a semicolon is missing.
parse_run :
    parse no_files (at_line (word (codes "a")) 1 ∷ at_line close_brace 2 ∷ [])
    ≡ err (record { problem = not_terminated; line = 2 })
unfolding parse block directive take_words splice append line_of fail last_line
parse_run = refl
