-- ===== src/Http2/Hpack/Decoder.antt =====
-- src/http2/hpack.rs: decoding a header block. Strings are byte lists.
pub mod Safety
pub mod Shorter
pub mod Late
mod Examples
pub mod Strings
use Prim.Native.Nat.{bit_and}
use oxi_serve.Base.{ℕ, zero, suc, ◌*◌, Bool, true, false, List, [], ◌∷◌, ◌++◌, Option, none, some}
use oxi_serve.Base.{ltb, ◌==◌, if◌then◌else◌, length, take, drop}
use oxi_serve.Base.Bytes.{Bytes}
use oxi_serve.Base.Result.{Result, ok, err, ◌>>=◌}
use oxi_serve.Http2.Hpack.Static.{Header}
use oxi_serve.Http2.Hpack.Int.{HpackError, compression, int}
use oxi_serve.Http2.Huffman
use oxi_serve.Http2.Hpack.Table.{Decoder, evict, insert, lookup, charge}

abbrev pub max_string : ℕ
max_string = 64 * 1024

-- What strings need: the test of `String::from_utf8`.
pub record Text : Type 0 where
  pub is_utf8 : Bytes → Bool

-- The state of the loop: the decoder, the fields pushed, what they cost, whether one was seen, and
-- the bytes left.
pub record Progress : Type 0 where
  pub decoder : Decoder
  pub out : List Header
  pub listed : ℕ
  pub seen_field : Bool
  pub buf : Bytes

-- How a block ends. `stuck` is no outcome of the source: the fuel ran out.
pub data End : Type 0 where
  complete : End
  failed : HpackError → End
  stuck : End

module _ (text : Text) where
  -- The bytes of a string, decoded if they are Huffman coded.
  literal_bytes : Bool → Bytes → Result HpackError Bytes
  literal_bytes false raw = ok raw
  literal_bytes true raw = elim (Huffman.decode raw max_string []) [
    | none ↦ err compression
    | some bytes ↦ ok bytes
  ]

  string_body : Bool → ℕ × Bytes → Result HpackError (Bytes × Bytes)
  string_body raw (len, rest) = if ltb (length rest) len then err compression else do
    bytes ← literal_bytes raw (take len rest)
    if text.is_utf8 bytes then ok (bytes, drop len rest) else err compression

  pub string : Bytes → Result HpackError (Bytes × Bytes)
  string [] = err compression
  string (b ∷ more) = do
    p ← int (b ∷ more) 7
    string_body (if bit_and b 0x80 == 0 then false else true) p

  -- The name of a literal field: inline at index 0, else from the tables.
  name_of : Decoder → ℕ → Bytes → Result HpackError (Bytes × Bytes)
  name_of d idx buf = if idx == 0 then string buf else (lookup d idx >>= λ h. ok (h.name, buf))

  pub literal : Decoder → ℕ → Bytes → Result HpackError (Header × Bytes)
  literal d idx buf = do
    p ← name_of d idx buf
    q ← string p.1
    ok (record { name = p.0; value = q.0 }, q.1)

  -- 1xxxxxxx
  indexed : ℕ → Progress → Result HpackError Progress
  indexed max_list s = do
    p ← int s.buf 7
    h ← lookup s.decoder p.0
    listed ← charge s.listed h max_list
    ok (record s { buf = p.1; listed = listed; out = s.out ++ (h ∷ []); seen_field = true })

  -- 01xxxxxx
  indexing : ℕ → Progress → Result HpackError Progress
  indexing max_list s = do
    p ← int s.buf 6
    q ← literal s.decoder p.0 p.1
    listed ← charge s.listed q.0 max_list
    ok (record {
      decoder = insert s.decoder q.0;
      buf = q.1;
      listed = listed;
      out = s.out ++ (q.0 ∷ []);
      seen_field = true;
    })

  -- 001xxxxx
  resize : Progress → ℕ × Bytes → Result HpackError Progress
  resize s (n, rest) =
      if ltb s.decoder.settings_max n
      then err compression
      else ok (record s { buf = rest; decoder = evict (record (s.decoder) { max_size = n }) })

  size_update : Progress → Result HpackError Progress
  size_update s = if s.seen_field then err compression else (int s.buf 5 >>= resize s)

  -- 000xxxxx
  plain : ℕ → Progress → Result HpackError Progress
  plain max_list s = do
    p ← int s.buf 4
    q ← literal s.decoder p.0 p.1
    listed ← charge s.listed q.0 max_list
    ok (record s { buf = q.1; listed = listed; out = s.out ++ (q.0 ∷ []); seen_field = true })

  pub field : ℕ → ℕ → Progress → Result HpackError Progress
  field max_list first s =
      if bit_and first 0x80 == 0
      then if bit_and first 0x40 == 0
        then if bit_and first 0x20 == 0 then plain max_list s else size_update s
        else indexing max_list s
      else indexed max_list s

  -- A failed field leaves decoder and list as they stood before it.
  after : Progress → (Progress → Progress × End) → Result HpackError Progress → Progress × End
  after s next (ok t) = next t
  after s next (err e) = (s, failed e)

  -- The bytes left stand twice, in the state and as the list that the loop goes by.
  pub decode_loop : ℕ → ℕ → Bytes → Progress → Progress × End
  decode_loop fuel max_list [] s = (s, complete)
  decode_loop zero max_list (b ∷ bs) s = (s, stuck)
  decode_loop (suc fuel) max_list (b ∷ bs) s =
      after s (λ t. decode_loop fuel max_list t.buf t) (field max_list b s)

  -- Each field takes a byte at least, so the length of the block is fuel enough.
  pub decode : Decoder → Bytes → ℕ → List Header → Progress × End
  decode d buf max_list out =
      decode_loop (length buf) max_list buf
        (record { decoder = d; out = out; listed = 0; seen_field = false; buf = buf })
