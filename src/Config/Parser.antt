-- ===== src/Config/Parser.antt =====
-- src/config/ast.rs: the tree of directives that the parser builds of the tokens of a file. The
-- tokens from `i` on stand for the position; `expand_include`, which reads files, is a parameter.
pub mod Flatten
mod Examples
use oxi_serve.Base.{ℕ, zero, suc, ◌+◌, Bool, true, false, List, [], ◌∷◌, length}
use oxi_serve.Base.{if◌then◌else◌}
use oxi_serve.Base.Bytes.{Bytes, codes, same_bytes}
use oxi_serve.Base.Result.{Result, ok, err, ◌>>=◌}
use oxi_serve.Config.Lexer.{Tok, word, open_brace, close_brace, semi, Token}

-- A directive without a block, and one with; with its name, its arguments and its line.
mutual
  pub data Directive : Type 0 where
    simple : Bytes → List Bytes → ℕ → Directive
    with_block : Bytes → List Bytes → ℕ → Directives → Directive

  pub data Directives : Type 0 where
    none : Directives
    more : Directive → Directives → Directives

-- The messages of an error; `no_fuel` is the model's own, and `include` one of `expand_include`.
pub data Problem : Type 0 where
  end_of_file unexpected_close unexpected_semi unexpected_open end_of_directive : Problem
  not_terminated include no_fuel : Problem

pub record ParseError : Type 0 where
  pub problem : Problem
  pub line : ℕ

unfoldable pub append : Directives → Directives → Directives
append none ds = ds
append (more d cs) ds = more d (append cs ds)

-- `line`: of the token at the position, or of the last one.
unfoldable pub line_of : ℕ → List Token → ℕ
line_of last [] = last
line_of last (t ∷ ts) = t.line

unfoldable pub fail : {A : Type 0} → Problem → ℕ → List Token → Result ParseError A
fail problem last ts = err (record { problem = problem; line = line_of last ts })

-- The words of a directive behind its name, and the tokens behind them.
unfoldable pub take_words : List Token → List Bytes × List Token
take_words [] = ([], [])
take_words (t ∷ ts) =
    let (args, behind) = take_words ts in
    elim t.tok [
      | word w ↦ (w ∷ args, behind)
      | open_brace ↦ ([], t ∷ ts)
      | close_brace ↦ ([], t ∷ ts)
      | semi ↦ ([], t ∷ ts)
    ]

-- What ends the arguments; `block` reads a block from the tokens behind its brace.
unfoldable pub directive :
    (List Token → Result ParseError (Directives × List Token))
    → ℕ
    → Bytes
    → ℕ
    → List Bytes
    → List Token
    → Result ParseError (Directive × List Token)
directive block last name line args [] = fail end_of_directive last []
directive block last name line args (t ∷ ts) = elim t.tok [
  | word w ↦ fail not_terminated last (t ∷ ts)
  | semi ↦ ok (simple name args line, ts)
  | open_brace ↦ (block ts >>= λ (b, rest). ok (with_block name args line b, rest))
  | close_brace ↦ fail not_terminated last (t ∷ ts)
]

-- The line of the last token, or 0.
unfoldable pub last_line : List Token → ℕ
last_line [] = 0
last_line (t ∷ []) = t.line
last_line (t ∷ u ∷ ts) = last_line (u ∷ ts)

module _ (expand_include : Directive → Result ParseError Directives) where
  -- An `include` is replaced by the directives of the files.
  unfoldable pub splice : Directive → Result ParseError Directives
  splice (simple name args line) =
      if same_bytes name (codes "include")
      then expand_include (simple name args line)
      else ok (more (simple name args line) none)
  splice (with_block name args line b) = ok (more (with_block name args line b) none)

  unfoldable pub block : ℕ → ℕ → Bool → List Token → Result ParseError (Directives × List Token)
  block zero last top ts = fail no_fuel last ts
  block (suc fuel) last top [] = if top then ok (none, []) else fail end_of_file last []
  block (suc fuel) last top (t ∷ ts) = elim t.tok [
    | close_brace ↦ if top then fail unexpected_close last (t ∷ ts) else ok (none, ts)
    | semi ↦ fail unexpected_semi last (t ∷ ts)
    | open_brace ↦ fail unexpected_open last (t ∷ ts)
    | word name ↦
        let (args, behind) = take_words ts in
        directive (block fuel last false) last name t.line args behind >>= λ (d, rest).
        splice d >>= λ ds. block fuel last top rest >>= λ (later, end). ok (append ds later, end)
  ]

  -- The tokens of a file; each turn of `block` takes a token at least.
  unfoldable pub parse : List Token → Result ParseError (Directives × List Token)
  parse ts = block (suc (length ts)) (last_line ts) true ts
