-- ===== src/Server/Body/Steps.antt =====
-- src/server/conn.rs: one line, and the data of one chunk, taken off the bytes that come.
use oxi_serve.Base.{
  ℕ, ◌+◌, ◌%◌, ◌^◌, ◌<◌, ◌≤◌, Bool, true, List, [], ◌∷◌, ◌++◌, append_assoc, ◌≡◌, ◌≢◌, Option, refl,
  sym, ap, ◌∙◌, All,
}
use oxi_serve.Base.{
  le→ltb, length, length-drop, length-append, take, drop, take-prefix, drop-prefix, arith,
}
use oxi_serve.Base.Bytes.{Bytes, same_bytes}
use oxi_serve.Base.Result.{ok}
use oxi_serve.Server.Body.{Conn, Read, await_line, after_line, take_data, read_data}
use oxi_serve.Server.Body.Crlf.{first_index}
use oxi_serve.Server.Body.Stream.{gots, joined, IsPiece, await_line-Filled, await_bytes-Filled}

-- The bytes that the connection has and will read.
pub record At (st : Conn) (stream : Bytes) : Type 0 where
  pub pieces : List Bytes
  pub all : All IsPiece pieces
  pub input : st.input ≡ gots pieces
  pub same : st.unread ++ joined pieces ≡ stream

same_line : same_bytes (13 ∷ 10 ∷ []) (13 ∷ 10 ∷ []) ≡ true
unfolding same_bytes
same_line = refl

append_two : (xs : Bytes) (a b : ℕ) (ys : Bytes) → xs ++ (a ∷ b ∷ ys) ≡ (xs ++ (a ∷ b ∷ [])) ++ ys
append_two xs a b ys = sym (append_assoc xs (a ∷ b ∷ []) ys)

length-line : (xs : Bytes) (a b : ℕ) → length (xs ++ (a ∷ b ∷ [])) ≡ length xs + 2
length-line xs a b = length-append xs (a ∷ b ∷ [])

-- What is behind a line and its line break.
drop-line :
    (u v xs ys : Bytes)
    → u ++ v ≡ xs ++ (13 ∷ 10 ∷ ys)
    → length xs + 2 ≤ length u
    → drop (length xs + 2) u ++ v ≡ ys
drop-line u v xs ys q h = rw (← length-line xs 13 10) (
    drop-prefix u v (xs ++ (13 ∷ 10 ∷ [])) ys (q ∙ append_two xs 13 10 ys)
      (omega (arith, length-line xs 13 10)))

module _ (memchr : ℕ → Bytes → Option ℕ)
    (first : (c : ℕ) (b : Bytes) → memchr c b ≡ first_index c b) where
  pub record LineRead (limited : Bool) (st : Conn) (line more : Bytes) : Type 0 where
    pub unread : Bytes
    pub input : List Read
    pub returns : await_line memchr limited st.unread st.input ≡ ok (length line, (unread, input))
    pub taken : take (length line) unread ≡ line
    pub behind : At (after_line st (length line) unread input) more

  pub await_line-LineRead :
      (limited : Bool) (st : Conn) (line more : Bytes)
      → All (λ c. c ≢ 13) line
      → length line < 1000
      → At st (line ++ (13 ∷ 10 ∷ more))
      → LineRead limited st line more
  unfolding after_line
  await_line-LineRead limited st line more hl lt at =
      let (f, r) =
        await_line-Filled memchr first limited line more hl lt st.unread at.pieces at.all at.same in
      record {
        unread = f.unread;
        input = gots f.pieces;
        returns = rw at.input r;
        taken =
            take-prefix f.unread (joined f.pieces) line (13 ∷ 10 ∷ more) f.same
              (omega (arith, f.enough));
        behind = record {
          pieces = f.pieces;
          all = f.all;
          input = refl;
          same = drop-line f.unread (joined f.pieces) line more f.same f.enough;
        };
      }

mod_small : (a : ℕ) → a < 2 ^ 64 → a % 2 ^ 64 ≡ a
mod_small a h = omega arith

abbrev taken : Conn → Bytes → Bytes → List Read → Conn
taken st bytes unread input = record {
  unread = drop (length bytes + 2) unread;
  pos = st.pos + (length bytes + 2);
  body = st.body ++ take (length bytes) unread;
  input = input;
}

line_break :
    (bytes more u v : Bytes)
    → u ++ v ≡ bytes ++ (13 ∷ 10 ∷ more)
    → length bytes + 2 ≤ length u
    → take 2 (drop (length bytes) u) ≡ 13 ∷ 10 ∷ []
line_break bytes more u v q h =
    take-prefix (drop (length bytes) u) v (13 ∷ 10 ∷ []) more
      (drop-prefix u v bytes (13 ∷ 10 ∷ more) q (omega arith))
      (omega (arith, length-drop (length bytes) u))

take_data-taken :
    (st : Conn) (bytes more u : Bytes) (pieces : List Bytes) (input : List Read)
    → u ++ joined pieces ≡ bytes ++ (13 ∷ 10 ∷ more)
    → length bytes + 2 ≤ length u
    → take_data st (length bytes) u input ≡ ok (taken st bytes u input)
unfolding take_data
take_data-taken st bytes more u pieces input q h =
    rw
      (
        le→ltb (length u) (length bytes) (omega arith),
        line_break bytes more u (joined pieces) q h,
        same_line,
      )
      refl

pub record DataRead (st : Conn) (bytes more : Bytes) (limit : ℕ) : Type 0 where
  pub next : Conn
  pub returns : read_data st (length bytes) limit ≡ ok next
  pub body : next.body ≡ st.body ++ bytes
  pub pos : next.pos ≡ st.pos + (length bytes + 2)
  pub behind : At next more

pub read_data-DataRead :
    (st : Conn) (bytes more : Bytes) (limit : ℕ)
    → length st.body + length bytes ≤ limit
    → limit + 2 < 2 ^ 64
    → At st (bytes ++ (13 ∷ 10 ∷ more))
    → DataRead st bytes more limit
unfolding read_data take_data
read_data-DataRead st bytes more limit le bound at =
    let stream = bytes ++ (13 ∷ 10 ∷ more) in
    let size = length-append bytes (13 ∷ 10 ∷ more) in
    let (f, r) =
      await_bytes-Filled (length bytes + 2) stream st.unread at.pieces at.all at.same
        (omega arith) in
    record {
      next = taken st bytes f.unread (gots f.pieces);
      returns =
          rw
            (
              mod_small (length st.body + length bytes) (omega arith),
              le→ltb limit (length st.body + length bytes) le,
              mod_small (length bytes + 2) (omega arith),
              at.input,
              r,
            )
            (take_data-taken st bytes more f.unread f.pieces (gots f.pieces) f.same f.enough);
      body =
          ap (λ t. st.body ++ t)
            (take-prefix f.unread (joined f.pieces) bytes (13 ∷ 10 ∷ more) f.same
              (omega (arith, f.enough)));
      pos = refl;
      behind = record {
        pieces = f.pieces;
        all = f.all;
        input = refl;
        same = drop-line f.unread (joined f.pieces) bytes more f.same f.enough;
      };
    }
