-- ===== src/Config/Lexer.antt =====
-- src/config/lexer.rs: the words of a configuration file. The state holds the bytes from `i` on, and
-- the line; `from_utf8_lossy`, of the standard library, is a parameter.
pub mod RoundTrip
mod Examples
use oxi_serve.Base.{ℕ, zero, suc, ◌+◌, Bool, true, false, ◌||◌, List, [], ◌∷◌, ◌++◌}
use oxi_serve.Base.{◌==◌, if◌then◌else◌, length}
use oxi_serve.Base.Bytes.{Bytes}
use oxi_serve.Base.Result.{Result, ok, err, ◌>>=◌}

pub data Tok : Type 0 where
  word : Bytes → Tok
  open_brace close_brace semi : Tok

pub record Token : Type 0 where
  pub tok : Tok
  pub line : ℕ
  pub quoted : Bool

-- The messages of an error; `no_fuel` is the model's own.
pub data Problem : Type 0 where
  unterminated after_quoted unexpected no_fuel : Problem

pub record LexError : Type 0 where
  pub problem : Problem
  pub line : ℕ

unfoldable pub is_delim : ℕ → Bool
is_delim c = c == 32 || c == 9 || c == 13 || c == 10 || c == 59 || c == 123 || c == 125

-- One more line at a line feed.
unfoldable pub next_line : ℕ → ℕ → ℕ
next_line c line = if c == 10 then line + 1 else line

unfoldable pub is_space : ℕ → Bool
is_space c = c == 32 || c == 9 || c == 13

-- `skip_trivia`, whose inner loop runs in a comment; 35 is `#`.
unfoldable pub skip_trivia : Bool → ℕ → Bytes → ℕ × Bytes
skip_trivia comment line [] = (line, [])
skip_trivia true line (c ∷ rest) =
    let on = skip_trivia true line rest in
    let behind = skip_trivia false (line + 1) rest in if c == 10 then behind else on
skip_trivia false line (c ∷ rest) =
    let behind = skip_trivia false (line + 1) rest in
    let on = skip_trivia false line rest in
    let inside = skip_trivia true line rest in
    if c == 10
    then behind
    else if is_space c
    then on
    else if c == 35
    then inside
    else (line, c ∷ rest)

unfoldable pub contains : ℕ → Bytes → Bool
contains b [] = false
contains b (c ∷ rest) = let later = contains b rest in if c == b then true else later

-- The loop of `unescape`; 92 is the backslash, 34 and 39 the quotes.
unfoldable pub resolve : Bytes → Bytes
resolve [] = []
resolve (c ∷ []) = c ∷ []
resolve (c ∷ d ∷ rest) =
    let behind = resolve rest in
    let on = resolve (d ∷ rest) in
    if c == 92
    then if d == 34 || d == 39 || d == 92
      then d ∷ behind
      else if d == 116
      then 9 ∷ behind
      else if d == 114
      then 13 ∷ behind
      else if d == 110
      then 10 ∷ behind
      else c ∷ on
    else c ∷ on

-- What the scan of a word gives: the bytes of the word, the line, and the bytes behind it.
pub record Scanned : Type 0 where
  pub raw : Bytes
  pub line : ℕ
  pub rest : Bytes

unfoldable pub push : ℕ → Result LexError Scanned → Result LexError Scanned
push c r = r >>= λ s. ok (record s { raw = c ∷ s.raw })

-- The loop of `quoted_word`, behind the opening quote.
unfoldable pub scan_quoted : ℕ → ℕ → Bytes → Result LexError Scanned
scan_quoted quote line [] = err (record { problem = unterminated; line = line })
scan_quoted quote line (c ∷ []) =
    if c == quote
    then ok (record { raw = []; line = line; rest = [] })
    else err (record { problem = unterminated; line = next_line c line })
scan_quoted quote line (c ∷ d ∷ rest) =
    let escaped = scan_quoted quote (next_line d line) rest in
    let on = scan_quoted quote (next_line c line) (d ∷ rest) in
    if c == 92
    then push c (push d escaped)
    else if c == quote
    then ok (record { raw = []; line = line; rest = d ∷ rest })
    else push c on

-- A delimiter, or the end, must follow the closing quote.
unfoldable pub delimited : Scanned → Result LexError Scanned
delimited s = elim s.rest [
  | [] ↦ ok s
  | ◌∷◌ c rest ↦ if is_delim c then ok s else err (record { problem = after_quoted; line = s.line })
]

unfoldable pub scan_bare : Bytes → Bytes × Bytes
scan_bare [] = ([], [])
scan_bare (c ∷ []) = if is_delim c then ([], c ∷ []) else (c ∷ [], [])
scan_bare (c ∷ d ∷ rest) =
    let (raw, behind) = scan_bare rest in
    let (raw1, behind1) = scan_bare (d ∷ rest) in
    if c == 92
    then (c ∷ d ∷ raw, behind)
    else if is_delim c
    then ([], c ∷ d ∷ rest)
    else (c ∷ raw1, behind1)

unfoldable pub bare_word : ℕ → Bytes → Result LexError Scanned
bare_word line b =
    let (raw, rest) = scan_bare b in
    elim raw [
      | [] ↦ err (record { problem = unexpected; line = line })
      | ◌∷◌ c cs ↦ ok (record { raw = c ∷ cs; line = line; rest = rest })
    ]

module _ (lossy : Bytes → Bytes) where
  unfoldable pub unescape : Bytes → Bytes
  unescape raw = if contains 92 raw then lossy (resolve raw) else lossy raw

  unfoldable pub put : Token → Result LexError (List Token) → Result LexError (List Token)
  put t r = r >>= λ ts. ok (t ∷ ts)

  unfoldable pub run : ℕ → ℕ → Bytes → Result LexError (List Token)
  run zero line b = err (record { problem = no_fuel; line = line })
  run (suc fuel) line b =
      let (line, b) = skip_trivia false line b in
      elim b [
        | [] ↦ ok []
        | ◌∷◌ c rest ↦
            let behind = run fuel line rest in
            if c == 123
            then put (record { tok = open_brace; line = line; quoted = false }) behind
            else if c == 125
            then put (record { tok = close_brace; line = line; quoted = false }) behind
            else if c == 59
            then put (record { tok = semi; line = line; quoted = false }) behind
            else if c == 34 || c == 39
            then (scan_quoted c line rest >>= λ s0. delimited s0 >>= λ s.
                put (record { tok = word (unescape s.raw); line = line; quoted = true })
                  (run fuel s.line s.rest))
            else (bare_word line (c ∷ rest) >>= λ s.
                put (record { tok = word (unescape s.raw); line = line; quoted = false })
                  (run fuel s.line s.rest))
      ]

  -- Each turn of `run` takes a byte at least.
  unfoldable pub tokenize : Bytes → Result LexError (List Token)
  tokenize src = run (suc (length src)) 1 src
