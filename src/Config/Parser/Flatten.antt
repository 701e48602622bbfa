-- ===== src/Config/Parser/Flatten.antt =====
-- src/config/ast.rs: a tree of directives as the tokens that write it, and `parse`.
use oxi_serve.Base.{
  ℕ, zero, suc, ◌+◌, ◌<◌, ◌≤◌, Bool, true, false, List, [], ◌∷◌, ◌≡◌, refl, length, arith,
}
use oxi_serve.Base.Bytes.{Bytes, codes, same_bytes}
use oxi_serve.Base.Result.{Result, ok}
use oxi_serve.Config.Lexer.{Tok, word, open_brace, close_brace, semi, Token}
use oxi_serve.Config.Parser.{
  Directive, simple, with_block, Directives, none, more, ParseError, append, take_words, directive,
  splice, block, parse, last_line,
}

abbrev pub at_line : Tok → ℕ → Token
at_line t n = record { tok = t; line = n; quoted = false }

unfoldable pub words : List Bytes → ℕ → List Token → List Token
words [] n rest = rest
words (w ∷ ws) n rest = at_line (word w) n ∷ words ws n rest

-- The tokens of a tree, each on the line of its directive.
unfoldable pub flatten : Directives → List Token → List Token
flatten none rest = rest
flatten (more (simple name args n) ds) rest =
    at_line (word name) n ∷ words args n (at_line semi n ∷ flatten ds rest)
flatten (more (with_block name args n b) ds) rest =
    at_line (word name) n
    ∷ words args n (at_line open_brace n ∷ flatten b (at_line close_brace n ∷ flatten ds rest))

-- No directive in the tree stands for files.
unfoldable pub IsWhole : Directives → Type 0
IsWhole none = Unit
IsWhole (more (simple name args n) ds) = (same_bytes name (codes "include") ≡ false) × IsWhole ds
IsWhole (more (with_block name args n b) ds) = IsWhole b × IsWhole ds

size : Directives → ℕ
size none = 0
size (more (simple name args n) ds) = suc (size ds)
size (more (with_block name args n b) ds) = suc (size b + size ds)

length-words :
    (ws : List Bytes) (n : ℕ) (rest : List Token) → length rest ≤ length (words ws n rest)
unfolding words
length-words [] n rest = omega arith
length-words (w ∷ ws) n rest = omega (arith, length-words ws n rest)

size-flatten :
    (ds : Directives) (rest : List Token) → size ds + length rest ≤ length (flatten ds rest)
unfolding size flatten
size-flatten none rest = omega arith
size-flatten (more (simple name args n) ds) rest =
    omega (arith, size-flatten ds rest, length-words args n (at_line semi n ∷ flatten ds rest))
size-flatten (more (with_block name args n b) ds) rest = omega (
  arith,
  size-flatten ds rest,
  size-flatten b (at_line close_brace n ∷ flatten ds rest),
  length-words args n (at_line open_brace n ∷ flatten b (at_line close_brace n ∷ flatten ds rest)),
)

take_words-semi :
    (ws : List Bytes) (n : ℕ) (ts : List Token)
    → take_words (words ws n (at_line semi n ∷ ts)) ≡ (ws, at_line semi n ∷ ts)
unfolding take_words words
take_words-semi [] n ts = refl
take_words-semi (w ∷ ws) n ts = rw (take_words-semi ws n ts) refl

take_words-open :
    (ws : List Bytes) (n : ℕ) (ts : List Token)
    → take_words (words ws n (at_line open_brace n ∷ ts)) ≡ (ws, at_line open_brace n ∷ ts)
unfolding take_words words
take_words-open [] n ts = refl
take_words-open (w ∷ ws) n ts = rw (take_words-open ws n ts) refl

module _ (expand_include : Directive → Result ParseError Directives) where
  block-flatten :
      (fuel last : ℕ) (top : Bool) (ds : Directives) (rest end : List Token)
      → IsWhole ds
      → size ds < fuel
      → ((f : ℕ) → block expand_include (suc f) last top rest ≡ ok (none, end))
      → block expand_include fuel last top (flatten ds rest) ≡ ok (ds, end)
  unfolding size flatten IsWhole block directive splice append
  block-flatten zero last top ds rest end h lt e = absurd (omega arith)
  block-flatten (suc fuel) last top none rest end h lt e = e fuel
  block-flatten (suc fuel) last top (more (simple name args n) ds) rest end (p, h) lt e =
      let ih = block-flatten fuel last top ds rest end h (omega arith) e in
      rw (take_words-semi args n (flatten ds rest)) (rw p (rw ih refl))
  block-flatten (suc fuel) last top (more (with_block name args n b) ds) rest end (hb, h) lt e =
      let inside =
        block-flatten fuel last false b (at_line close_brace n ∷ flatten ds rest) (flatten ds rest)
          hb (omega arith) (λ f. refl) in
      let ih = block-flatten fuel last top ds rest end h (omega arith) e in
      rw (take_words-open args n (flatten b (at_line close_brace n ∷ flatten ds rest)))
        (rw inside (rw ih refl))

  -- For a tree without an `include`, whatever the files hold: the tokens of its directives, their
  -- names, arguments, blocks and lines, are parsed to the tree, with no token left.
  pub parse-flatten :
      (ds : Directives) → IsWhole ds → parse expand_include (flatten ds []) ≡ ok (ds, [])
  unfolding parse block
  parse-flatten ds h =
      block-flatten (suc (length (flatten ds []))) (last_line (flatten ds [])) true ds [] [] h
        (omega (arith, size-flatten ds [])) (λ f. refl)
