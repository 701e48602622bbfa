-- ===== src/Server/Body/RoundTrip.antt =====
-- src/server/conn.rs: a chunked body as a client writes it, and `read_chunked_body`.
use oxi_serve.Base.{ℕ, ◌+◌, ◌^◌, ◌<◌, ◌≤◌, List, [], ◌∷◌, ◌++◌, ◌≡◌, ◌≢◌, All, Option}
use oxi_serve.Base.{length}
use oxi_serve.Base.Bytes.{Bytes}
use oxi_serve.Base.Result.{Result, ok}
use oxi_serve.Server.Body.{Conn, Stop}
use oxi_serve.Server.Body.Hex.{hex, extension, IsExtension}
use oxi_serve.Server.Body.Steps.{At}

-- A chunk, whose size is written in `width` hexadecimal digits, with an extension or none.
pub record Chunk : Type 0 where
  pub bytes : Bytes
  pub width : ℕ
  pub ext : Option Bytes

unfoldable pub size_line : ℕ → ℕ → Option Bytes → Bytes
size_line width n ext = hex width n ++ extension ext

unfoldable pub line : Bytes → Bytes → Bytes
line text more = text ++ (13 ∷ 10 ∷ more)

unfoldable pub encode_trailers : List Bytes → Bytes → Bytes
encode_trailers [] rest = line [] rest
encode_trailers (t ∷ ts) rest = line t (encode_trailers ts rest)

unfoldable pub encode_chunks : List Chunk → Bytes → Bytes
encode_chunks [] rest = rest
encode_chunks (c ∷ cs) rest =
    line (size_line c.width (length c.bytes) c.ext) (line c.bytes (encode_chunks cs rest))

-- The chunks, the last chunk of size 0, the trailers and what is behind the body.
unfoldable pub encode : List Chunk → ℕ → Option Bytes → List Bytes → Bytes → Bytes
encode cs width ext trailers rest =
    encode_chunks cs (line (size_line width 0 ext) (encode_trailers trailers rest))

unfoldable pub content : List Chunk → Bytes
content [] = []
content (c ∷ cs) = c.bytes ++ content cs

unfoldable pub IsSize : ℕ → ℕ → Option Bytes → Type 0
IsSize width n ext = (0 < width) × ((width ≤ 16) × ((n < 16 ^ width) × IsExtension ext))

unfoldable pub IsChunk : Chunk → Type 0
IsChunk c = (0 < length c.bytes) × IsSize c.width (length c.bytes) c.ext

unfoldable pub IsTrailer : Bytes → Type 0
IsTrailer t = (0 < length t) × ((length t < 1000) × All (λ c. c ≢ 13) t)

-- The result of reading `stream` to the end of the body, before `rest`.
pub record Decoded (st : Conn) (stream added rest : Bytes) (r : Result Stop Conn) : Type 0 where
  pub out : Conn
  pub returns : r ≡ ok out
  pub body : out.body ≡ st.body ++ added
  pub pos : out.pos + length rest ≡ st.pos + length stream
  pub behind : At out rest
