-- ===== src/Server/Body/Exact.antt =====
-- src/server/conn.rs: a body of a given length, and the body of any request.
use oxi_serve.Base.{
  ℕ, ◌+◌, ◌-◌, ◌<◌, ◌≤◌, min, Bool, true, false, Option, List, [], ◌∷◌, ◌++◌, append-nil,
  append_assoc, ◌≡◌, ◌≢◌, refl, sym, ap, ◌∙◌, inl, inr, Bool-cases, All,
}
use oxi_serve.Base.{
  ltb, le→ltb, lt→ltb, ltb→lt, ltb→le, if◌then◌else◌, length, length-append, length-drop, take,
  drop, take-append-drop, take-prefix, drop-prefix, arith,
}
use oxi_serve.Base.Bytes.{Bytes}
use oxi_serve.Base.Result.{Result, ok, err, ◌>>=◌}
use oxi_serve.Server.Body.{Conn, Read, failed, timed_out, got, Stop, status, read_chunked_body}
use oxi_serve.Server.Body.Stream.{gots, joined, IsPiece}
use oxi_serve.Server.Body.Steps.{At}

-- The loop of `read_exact_body`, behind what was buffered.
unfoldable pub read_rest : ℕ → Bytes → List Read → Result Stop (Bytes × List Read)
read_rest n body [] = if ltb (length body) n then err (status 400) else ok (body, [])
read_rest n body (failed ∷ rs) =
    if ltb (length body) n then err (status 400) else ok (body, failed ∷ rs)
read_rest n body (timed_out ∷ rs) =
    if ltb (length body) n then err (status 408) else ok (body, timed_out ∷ rs)
read_rest n body (got [] ∷ rs) =
    if ltb (length body) n then err (status 400) else ok (body, got [] ∷ rs)
read_rest n body (got (b ∷ bs) ∷ rs) =
    let room = n - length body in
    let all = read_rest n (body ++ (b ∷ bs)) rs in
    if ltb (length body) n
    then if ltb room (length (b ∷ bs))
      then ok (body ++ take room (b ∷ bs), got (drop room (b ∷ bs)) ∷ rs)
      else all
    else ok (body, got (b ∷ bs) ∷ rs)

unfoldable pub read_exact_body : Conn → ℕ → Result Stop Conn
read_exact_body st n =
    let have = min (length st.unread) n in
    read_rest n (st.body ++ take have st.unread) st.input >>= λ (body, input).
    ok (record { unread = drop have st.unread; pos = st.pos + have; body = body; input = input })

pub data ReqBody : Type 0 where
  no_body chunked : ReqBody
  sized : ℕ → ReqBody

-- The result, and whether `100 Continue` was written first.
unfoldable pub read_body :
    (ℕ → Bytes → Option ℕ) → ℕ → Bool → ReqBody → Conn → ℕ → Result Stop Conn × Bool
read_body memchr fuel expects no_body st limit = (ok st, false)
read_body memchr fuel expects (sized n) st limit =
    if ltb limit n then (err (status 413), false) else (read_exact_body st n, expects)
read_body memchr fuel expects chunked st limit = (read_chunked_body memchr fuel st limit, expects)

-- A piece that is taken whole.
read_rest-whole :
    (n : ℕ) (body : Bytes) (b : ℕ) (bs : Bytes) (rs : List Read)
    → ltb (length body) n ≡ true
    → length (b ∷ bs) ≤ n - length body
    → read_rest n body (got (b ∷ bs) ∷ rs) ≡ read_rest n (body ++ (b ∷ bs)) rs
unfolding read_rest
read_rest-whole n body b bs rs h le = rw (h, le→ltb (n - length body) (length (b ∷ bs)) le) refl

read_exact_body-have :
    (st : Conn) (n have : ℕ) (body : Bytes) (input : List Read)
    → min (length st.unread) n ≡ have
    → read_rest n (st.body ++ take have st.unread) st.input ≡ ok (body, input)
    → read_exact_body st n
      ≡ ok
          (record { unread = drop have st.unread; pos = st.pos + have; body = body; input = input })
unfolding read_exact_body
read_exact_body-have st n have body input m r = rw m (rw r refl)

-- How much the loop adds: up to the length, wherever the pieces end.
nil≢cons : {x : ℕ} {xs : Bytes} → [] ≢ x ∷ xs
nil≢cons q = ground arith

record Continued (body bytes rest : Bytes) (n : ℕ) (pieces : List Bytes) : Type 0 where
  left : List Bytes
  all : All IsPiece left
  returns : read_rest n body (gots pieces) ≡ ok (body ++ bytes, gots left)
  same : joined left ≡ rest

read_rest-Continued :
    (n : ℕ) (body bytes rest : Bytes) (pieces : List Bytes)
    → All IsPiece pieces
    → length body + length bytes ≡ n
    → joined pieces ≡ bytes ++ rest
    → Continued body bytes rest n pieces
unfolding read_rest gots joined IsPiece
read_rest-Continued n body [] rest [] h q e = record {
  left = [];
  all = tt;
  returns = rw (le→ltb (length body) n (omega arith), append-nil body) refl;
  same = e;
}
read_rest-Continued n body (x ∷ xs) rest [] h q e = absurd (nil≢cons e)
read_rest-Continued n body bytes rest ([] ∷ ps) (p, h) q e = absurd (omega arith)
read_rest-Continued n body [] rest ((b ∷ bs) ∷ ps) (p, h) q e = record {
  left = (b ∷ bs) ∷ ps;
  all = (p, h);
  returns = rw (le→ltb (length body) n (omega arith), append-nil body) refl;
  same = e;
}
read_rest-Continued n body (x ∷ xs) rest ((b ∷ bs) ∷ ps) (p, h) q e =
    let piece = b ∷ bs in
    let bytes = x ∷ xs in
    let room : n - length body ≡ length bytes = omega arith in
    let below = lt→ltb (length body) n (omega arith) in
    let later = drop (length piece) bytes in
    let ih = read_rest-Continued n (body ++ piece) later rest ps h in
    elim (Bool-cases (ltb (length bytes) (length piece))) [
      | inl t ↦
          let lt = ltb→lt (length bytes) (length piece) t in
          record {
            left = drop (length bytes) piece ∷ ps;
            all = (omega (arith, length-drop (length bytes) piece), h);
            returns =
                rw (below, room, t)
                  (ap (λ w. ok (body ++ w, got (drop (length bytes) piece) ∷ gots ps))
                    (take-prefix piece (joined ps) bytes rest e (omega arith)));
            same = drop-prefix piece (joined ps) bytes rest e (omega arith);
          }
      | inr t ↦
          let le = ltb→le (length bytes) (length piece) t in
          let front = take-prefix bytes rest piece (joined ps) (sym e) le in
          let whole : piece ++ later ≡ bytes =
            ap (λ t. t ++ later) (sym front) ∙ take-append-drop (length piece) bytes in
          let r =
            ih (omega (arith, length-append body piece, length-append piece later, ap length whole))
              (sym (drop-prefix bytes rest piece (joined ps) (sym e) le)) in
          record {
            left = r.left;
            all = r.all;
            returns =
                read_rest-whole n body b bs (gots ps) below (omega arith)
                ∙ (r.returns
                    ∙ ap (λ w. ok (w, gots r.left))
                        (append_assoc body piece later ∙ ap (λ w. body ++ w) whole));
            same = r.same;
          }
    ]

-- The body is the bytes, and what stood behind them is still to be read; what is unread in the
-- buffer is still what stands from `pos` on.
pub record Received (st : Conn) (bytes rest : Bytes) (r : Result Stop Conn) : Type 0 where
  pub out : Conn
  pub returns : r ≡ ok out
  pub body : out.body ≡ bytes
  pub buffer : out.pos + length out.unread ≡ st.pos + length st.unread
  pub behind : At out rest

-- All of the body is buffered already.
buffered :
    (st : Conn) (bytes rest : Bytes)
    → st.body ≡ []
    → At st (bytes ++ rest)
    → length bytes ≤ length st.unread
    → Received st bytes rest (read_exact_body st (length bytes))
unfolding read_exact_body
buffered st bytes rest empty at le =
    let have : min (length st.unread) (length bytes) ≡ length bytes = omega arith in
    let front = take-prefix st.unread (joined at.pieces) bytes rest at.same le in
    let r =
      read_rest-Continued (length bytes) bytes [] (joined at.pieces) at.pieces at.all (omega arith)
        refl in
    record {
      out = record {
        unread = drop (length bytes) st.unread;
        pos = st.pos + length bytes;
        body = bytes ++ [];
        input = gots r.left;
      };
      returns =
          read_exact_body-have st (length bytes) (length bytes) (bytes ++ []) (gots r.left) have
            (rw (front, empty, at.input) r.returns);
      body = append-nil bytes;
      buffer = omega (arith, length-drop (length bytes) st.unread);
      behind = record {
        pieces = r.left;
        all = r.all;
        input = refl;
        same =
            ap (λ t. drop (length bytes) st.unread ++ t) r.same
            ∙ drop-prefix st.unread (joined at.pieces) bytes rest at.same le;
      };
    }

take-all : (xs : Bytes) → take (length xs) xs ≡ xs
take-all [] = refl
take-all (x ∷ xs) = ap (λ t. x ∷ t) (take-all xs)

drop-all : (xs : Bytes) → drop (length xs) xs ≡ []
drop-all [] = refl
drop-all (x ∷ xs) = drop-all xs

-- Some of it is still to come.
unbuffered :
    (st : Conn) (bytes rest : Bytes)
    → st.body ≡ []
    → At st (bytes ++ rest)
    → length st.unread < length bytes
    → Received st bytes rest (read_exact_body st (length bytes))
unfolding read_exact_body
unbuffered st bytes rest empty at lt =
    let n = length st.unread in
    let have : min n (length bytes) ≡ n = omega arith in
    let later = drop n bytes in
    let front = take-prefix bytes rest st.unread (joined at.pieces) (sym at.same) (omega arith) in
    let whole : st.unread ++ later ≡ bytes =
      ap (λ t. t ++ later) (sym front) ∙ take-append-drop n bytes in
    let r =
      read_rest-Continued (length bytes) st.unread later rest at.pieces at.all
        (omega (arith, length-drop n bytes))
        (sym (drop-prefix bytes rest st.unread (joined at.pieces) (sym at.same) (omega arith))) in
    record {
      out = record {
        unread = drop n st.unread;
        pos = st.pos + n;
        body = st.unread ++ later;
        input = gots r.left;
      };
      returns =
          read_exact_body-have st (length bytes) n (st.unread ++ later) (gots r.left) have
            (rw (take-all st.unread, empty, at.input) r.returns);
      body = whole;
      buffer = omega (arith, length-drop n st.unread);
      behind = record {
        pieces = r.left;
        all = r.all;
        input = refl;
        same = ap (λ t. t ++ joined r.left) (drop-all st.unread) ∙ r.same;
      };
    }

read_exact_body-Received :
    (st : Conn) (bytes rest : Bytes)
    → st.body ≡ []
    → At st (bytes ++ rest)
    → Received st bytes rest (read_exact_body st (length bytes))
read_exact_body-Received st bytes rest empty at =
    elim (Bool-cases (ltb (length st.unread) (length bytes))) [
      | inl t ↦ unbuffered st bytes rest empty at (ltb→lt (length st.unread) (length bytes) t)
      | inr t ↦ buffered st bytes rest empty at (ltb→le (length st.unread) (length bytes) t)
    ]

-- For a request whose body is of a given length within the limit, on a connection whose body is
-- empty, however many of the bytes are buffered with the head and however the socket cuts the
-- others into pieces: `read_body` returns with exactly these bytes as the body, and what stands
-- behind them, of the next request, is still to be read.
pub read_body-Received :
    (memchr : ℕ → Bytes → Option ℕ) (fuel : ℕ) (expects : Bool) (st : Conn) (limit : ℕ)
    (bytes rest : Bytes)
    → st.body ≡ []
    → length bytes ≤ limit
    → At st (bytes ++ rest)
    → Received st bytes rest ((read_body memchr fuel expects (sized (length bytes)) st limit).0)
unfolding read_body
read_body-Received memchr fuel expects st limit bytes rest empty le at =
    rw (le→ltb limit (length bytes) le) (read_exact_body-Received st bytes rest empty at)
