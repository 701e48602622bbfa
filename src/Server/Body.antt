-- ===== src/Server/Body.antt =====
-- src/server/conn.rs: the request body that follows a head, of a length or chunked, read from a socket
-- that gives its bytes in pieces. The state holds `st.read` from `pos` on, and `pos`; `memchr`, of a
-- library, is a parameter, and so is each result of the socket's `read` and of the timeout around it.
pub mod Crlf
pub mod Hex
pub mod Stream
pub mod Steps
pub mod RoundTrip
pub mod Exact
mod Examples
use oxi_serve.Base.{
  ℕ, zero, suc, ◌+◌, ◌-◌, ◌*◌, ◌%◌, ◌^◌, min, Bool, true, false, ◌&&◌, List, [], ◌∷◌, ◌++◌, Option,
  none, some,
}
use oxi_serve.Base.{leb, ltb, ◌==◌, if◌then◌else◌, get_elem?, length, take, drop}
use oxi_serve.Base.Bytes.{Bytes, same_bytes}
use oxi_serve.Base.Result.{Result, ok, err, ◌>>=◌}

-- A read that fails, one that the timeout ends, and one that gives bytes: none at the end.
pub data Read : Type 0 where
  failed timed_out : Read
  got : Bytes → Read

-- A status to answer with, or a slice out of range; `no_fuel` is the model's own.
pub data Stop : Type 0 where
  status : ℕ → Stop
  panic no_fuel : Stop

pub record Conn : Type 0 where
  pub unread : Bytes
  pub pos : ℕ
  pub body : Bytes
  pub input : List Read

-- `fill`, of the bytes that one read gives
unfoldable pub fill : Read → Bytes → Result Stop Bytes
fill failed unread = err (status 400)
fill timed_out unread = err (status 408)
fill (got []) unread = err (status 400)
fill (got (b ∷ bs)) unread = ok (unread ++ (b ∷ bs))

-- Of the digits of a size: a digit, a space to pass over, or another byte.
unfoldable pub hex_digit : ℕ → Option (Option ℕ)
hex_digit c =
    if leb 48 c && leb c 57
    then some (some (c - 48))
    else if leb 97 c && leb c 102
    then some (some (c - 97 + 10))
    else if leb 65 c && leb c 70
    then some (some (c - 65 + 10))
    else if c == 32
    then some none
    else if c == 9
    then some none
    else none

-- `checked_mul(16)` and `checked_add`
unfoldable pub push_digit : ℕ → Option (Option ℕ) → Option ℕ
push_digit n none = none
push_digit n (some none) = some n
push_digit n (some (some d)) =
    if ltb (n * 16) (2 ^ 64)
    then if ltb (n * 16 + d) (2 ^ 64) then some (n * 16 + d) else none
    else none

unfoldable pub hex_from : Option ℕ → Bytes → Option ℕ
hex_from n [] = n
hex_from none (c ∷ rest) = none
hex_from (some n) (c ∷ rest) = hex_from (push_digit n (hex_digit c)) rest

unfoldable pub parse_hex : Bytes → Option ℕ
parse_hex [] = none
parse_hex (c ∷ rest) = if ltb 16 (length (c ∷ rest)) then none else hex_from (some 0) (c ∷ rest)

-- The size without a chunk extension; 59 is the semicolon.
unfoldable pub before_extension : Bytes → Bytes
before_extension [] = []
before_extension (c ∷ rest) = let more = before_extension rest in if c == 59 then [] else c ∷ more

unfoldable pub too_long : Bool → Bytes → Bool
too_long limited unread = limited && ltb 1024 (length unread)

unfoldable pub await_bytes : ℕ → Bytes → List Read → Result Stop (Bytes × List Read)
await_bytes need unread [] = if leb need (length unread) then ok (unread, []) else err (status 400)
await_bytes need unread (r ∷ rs) =
    if leb need (length unread)
    then ok (unread, r ∷ rs)
    else (fill r unread >>= λ more. await_bytes need more rs)

-- The state behind a line that ends at `i`.
unfoldable pub after_line : Conn → ℕ → Bytes → List Read → Conn
after_line st i unread input = record st {
  unread = drop (i + 2) unread;
  pos = st.pos + (i + 2);
  input = input;
}

-- The data of a chunk, and the line break behind it.
unfoldable pub take_data : Conn → ℕ → Bytes → List Read → Result Stop Conn
take_data st size unread input =
    if ltb (length unread) size
    then err panic
    else if same_bytes (take 2 (drop size unread)) (13 ∷ 10 ∷ [])
    then ok (record {
      unread = drop (size + 2) unread;
      pos = st.pos + (size + 2);
      body = st.body ++ take size unread;
      input = input;
    })
    else err (status 400)

unfoldable pub read_data : Conn → ℕ → ℕ → Result Stop Conn
read_data st size limit =
    if ltb limit ((length st.body + size) % 2 ^ 64)
    then err (status 413)
    else await_bytes ((size + 2) % 2 ^ 64) st.unread st.input >>= λ (unread, input).
        take_data st size unread input

module _ (memchr : ℕ → Bytes → Option ℕ) where
  -- The loop of `find_crlf` from `i` on, on the bytes from there.
  unfoldable pub find_from : ℕ → ℕ → Bytes → Option ℕ
  find_from zero i b = none
  find_from (suc fuel) i b =
      if ltb 1 (length b)
      then elim (memchr 13 b) [
        | none ↦ none
        | some off ↦
            let later = find_from fuel (i + suc off) (drop (suc off) b) in
            elim (get_elem? b (suc off)) [
              | none ↦ none
              | some c ↦ if c == 10 then some (i + off) else later
            ]
      ]
      else none

  unfoldable pub find_crlf : Bytes → Option ℕ
  find_crlf b = find_from (length b) 0 b

  -- The loop that fills until a line is there: where the line ends, and what is unread.
  unfoldable pub await_line : Bool → Bytes → List Read → Result Stop (ℕ × (Bytes × List Read))
  await_line limited unread [] = elim (find_crlf unread) [
    | some i ↦ ok (i, (unread, []))
    | none ↦ err (status 400)
  ]
  await_line limited unread (r ∷ rs) = elim (find_crlf unread) [
    | some i ↦ ok (i, (unread, r ∷ rs))
    | none ↦
        if too_long limited unread
        then err (status 400)
        else (fill r unread >>= λ more. await_line limited more rs)
  ]

  unfoldable pub skip_trailers : ℕ → Conn → Result Stop Conn
  skip_trailers zero st = err no_fuel
  skip_trailers (suc fuel) st = await_line false st.unread st.input >>= λ (i, (unread, input)).
      let next = skip_trailers fuel (after_line st i unread input) in
      if i == 0 then ok (after_line st i unread input) else next

  unfoldable pub read_chunked_body : ℕ → Conn → ℕ → Result Stop Conn
  read_chunked_body zero st limit = err no_fuel
  read_chunked_body (suc fuel) st limit =
      await_line true st.unread st.input >>= λ (i, (unread, input)).
      elim (parse_hex (before_extension (take i unread))) [
        | none ↦ err (status 400)
        | some size ↦
            let next = after_line st i unread input in
            if size == 0
            then skip_trailers fuel next
            else (read_data next size limit >>= λ later. read_chunked_body fuel later limit)
      ]
