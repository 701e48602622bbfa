-- ===== src/Lib.antt =====
-- Verification of OxiServe, an nginx-compatible web server in Rust: HTTP/1, HTTP/2 and HTTP/3 in
-- front of files, proxies and FastCGI, with an nginx-like configuration.
--
-- What is modelled, and where:
--
-- * src/http3/frame.rs (Http3): QUIC varints (Http3/Varint), frame headers (Http3/Frame) and the
--   SETTINGS frame (Http3/Settings). Functions keep their names; `put_*` take the bytes written so
--   far and return them with more at the end.
-- * src/http2/frame.rs (Http2/Frame): the nine-byte header, padding, and the frames of fixed shape.
--   Frame kinds and flags are Http2/Frame/Kind and Http2/Frame/Flag.
-- * src/http2/hpack.rs (Http2/Hpack): the static table (Static), prefixed integers (Int), the dynamic
--   table (Table), the block decoder (Decoder) and the encoder (Encoder). `Decoder::decode` is
--   `decode`, with one function for each kind of field. Decoder/Shorter counts
--   the bytes of a field; Late has the size updates behind one; Strings brings `string` and
--   `write_string` together.
-- * src/http2/conn.rs (Http2/Conn): the state of `read_loop` and the helpers (Streams), the frames of
--   a request (Handlers), the other frames (Control), one whole round of the loop with the dispatch
--   step (Receive), one step of `pump` and the end of a stream task (Pump), `parse_headers` (Fields).
--   `Receive.receive` takes a connection and one frame. A handler returns `again` for `continue`,
--   `dispatch` for falling through, `finish` for a clean return, `fail` for a connection error and
--   `crash` for an `expect` that fails. Invariant defines a valid connection and how a change of one
--   stream acts on it, the modules named Keeps hold the lemmas of the handlers, and Reach the
--   sequences of rounds, writes and ends of tasks, in any order.
-- * src/http2/huffman.rs (Http2/Huffman): the code table (Table), `encode`, `decode` and the decoding
--   tree, which is a tree here and a vector of nodes with indices there. Bits is about numbers as
--   bits, Encoding and Canonical about the tree and the table, Emission about what `encode` writes,
--   Unique about what `decode` accepts.
-- * src/http/uri.rs (Http/Uri): `normalize` with its fast path, and the query and escaping functions
--   (Text). Segments is an independent specification of `normalize`: split at `/`, decode each
--   segment, resolve the segments on a stack, and join them.
-- * src/config/lexer.rs (Config/Lexer): `tokenize`, on the bytes from the position on. RoundTrip has a
--   printer of tokens.
-- * src/config/ast.rs (Config/Parser): `block` and `directive`, on the tokens from the position on.
--   Flatten has a tree as tokens.
-- * src/config/model.rs and src/config/build.rs (Config/Locations): `find`, and the sets of `loc_set`.
--   Order is about paths, Sort and Groups about the sets, Search and Longest about the searches, and
--   Route has the order of precedence on the list as the configuration writes it.
-- * src/config/model.rs (Config/Hosts): `match_host`; Wildcards says
--   what a wildcard name means; Longest has the first and the longest of a list; Precedence has the
--   order on all names.
-- * src/http/date.rs (Http/Date): `civil_from_days` and `append_http_date_of`. Calendar has the rules
--   of the Gregorian calendar and compares them on a table of four hundred years, Days carries that
--   over to any day.
-- * src/server/conn.rs (Server/Body): `read_body`, `read_exact_body` (Exact) and `read_chunked_body`,
--   on what is unread of the buffer and the results of the socket's reads to come. Crlf is about
--   `find_crlf`, Hex about sizes, Stream and Steps about the loops that fill the buffer, and RoundTrip
--   has a body as a client writes it.
-- * src/server/files.rs (Server/Range): `parse_range`. Meaning is about any header, Exchange about one
--   as a client writes it.
-- * src/server/files.rs (Server/Etag): `make_etag` and `push_hex`; Distinct reads a tag back.
-- * src/server/fcgi_proto.rs (Server/FcgiProto): the records of FastCGI, written and parsed. Stream
--   has a reader of a whole stream, made of `parse_record`.
-- * src/server/limit_conn.rs (Server/LimitConn): the packed word, and `acquire`, `increment` and
--   `release` as a task that makes one atomic load or exchange a step (`act`); `Reach` is any
--   interleaving of any number of tasks. Steps has the effect of each access.
-- * src/server/upstream.rs, and the upstream types of src/config/model.rs (Server/Upstream): the
--   health of a peer, the choice of a peer (Select, Robin), and the idle connections (Pool).
-- * src/server/limit_req.rs (Server/LimitReq): the leaky bucket, its packed state word, and the table
--   of a zone.
--
-- Conventions. Base holds the shared names, tests, lists, bytes, results, integers and the laws of
-- bit operations. A byte is a natural number, a byte slice a list of them; where a law needs bytes
-- below 256 it says so. Unsigned words keep their wrap-around written out; the signed windows are
-- integers. A `HashMap` is an association list, and in the idle pool a function of the key; a
-- channel or output buffer is the list of bytes put into it, a shared `Cell` a field of the state.
-- The readiness list is in the order of the association list, since the order of a hash map is not
-- specified.
--
-- Loops. Most recurse on the bytes or the list they read. The loop of `write_int` recurses on
-- accessibility of the number. The SETTINGS decoder of HTTP/3 and the block decoder of HPACK run
-- on fuel, the length of the input, of which each turn takes at least one byte. So does the loop
-- of `normalize` over segments (`walk`), of which each but the first begins behind a `/`; its
-- result is `none` if the fuel runs out. The loop of the Huffman encoder that pushes whole bytes
-- has the number of bits as fuel, of which each turn takes eight, and the splitting of a FastCGI
-- stream its length. The probe of a limit_req zone counts its sixteen slots down; that of
-- limit_conn, and its retries after a lost race, are steps of a task and take no fuel. The
-- configuration lexer and parser have one more than the bytes or the tokens as fuel, of which each
-- turn takes one at least; the binary search one more than the locations, of which it halves the
-- rest; `read_chunked_body` and the trailers more than the chunks and the trailers together. The
-- loops that fill a buffer recurse on the reads to come.
--
-- Parameters. The test of UTF-8, `str::parse::<u64>` and `client_max_body_size` are parameters of
-- the HTTP/2 connection, the test of UTF-8 one of `normalize`, and whether a stream can be used
-- again one of the idle pool. Regular expressions, and what they match and capture, are parameters
-- of locations and server names, as are the settings of both; `from_utf8_lossy` one of the lexer,
-- `expand_include` one of the parser; `memchr`, with the first index as its documented result, and
-- the results of the reads of the socket, its timeout among them, of request bodies. `str::trim`
-- and `str::parse::<u64>` are parameters of `parse_range`.
--
-- Not modelled: QPACK and the HTTP/3 connection, HTTP/1 messages, the builder of the
-- configuration, the caches, the FastCGI client, and everything that is sockets, files, processes
-- or logging. Of src/http2/conn.rs the preface, the writer task, `send_response` and the sources
-- of a body stand out, as do wake-ups and the flag `closed`, by which tasks stop when the
-- connection ends. Of limit_req races between workers, and of both limits the creation of a zone.
-- Of upstream.rs the sending of probes; the atomics of a peer are fields that one worker at a time
-- uses. Of the configuration the reading of included files and the dump, and of locations their
-- nesting. Of dates the cache of formatted times and the local time, which libc gives. Of a
-- request body that fails the state of the connection, which is closed.
pub mod Base
pub mod Config
pub mod Http3
pub mod Http
pub mod Http2
pub mod Server
