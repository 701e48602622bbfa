-- ===== src/Http2/Conn/Fields.antt =====
-- src/http2/conn.rs: `parse_headers`, which turns a decoded header list into a request. HTTP/3
-- calls it as well.
pub mod Laws
use oxi_serve.Base.{ℕ, Bool, true, false, not, ◌&&◌, ◌||◌, List, [], ◌∷◌, ◌++◌, Option, none, some}
use oxi_serve.Base.{leb, ◌==◌, if◌then◌else◌}
use oxi_serve.Base.Bytes.{Bytes, codes, same_bytes}
use oxi_serve.Base.Result.{Result, ok, err, ◌>>=◌, ◌>>◌}
use oxi_serve.Http2.Frame.{Code, protocol}
use oxi_serve.Http2.Hpack.Static.{Header}

pub record Parsed : Type 0 where
  pub method : Bytes
  pub path : Bytes
  pub authority : Bytes
  pub ordinary : List Header

-- The variables of the loop.
pub record Slots : Type 0 where
  pub method : Option Bytes
  pub path : Option Bytes
  pub authority : Option Bytes
  pub scheme : Option Bytes
  pub ordinary : List Header
  pub seen_ordinary : Bool

abbrev pub no_slots : Slots
no_slots = record {
  method = none;
  path = none;
  authority = none;
  scheme = none;
  ordinary = [];
  seen_ordinary = false;
}

pub data Pseudo : Type 0 where
  method_slot path_slot authority_slot scheme_slot unknown : Pseudo

unfoldable pub pseudo_of : Bytes → Pseudo
pseudo_of name =
    if same_bytes name (codes "method")
    then method_slot
    else if same_bytes name (codes "path")
    then path_slot
    else if same_bytes name (codes "authority")
    then authority_slot
    else if same_bytes name (codes "scheme")
    then scheme_slot
    else unknown

-- A slot that is taken is a duplicate.
fill : Option Bytes → Bytes → Result Code (Option Bytes)
fill (some old) value = err protocol
fill none value = ok (some value)

fill_slot : Slots → Pseudo → Bytes → Result Code Slots
fill_slot s method_slot value = do v ← fill s.method value; ok (record s { method = v })
fill_slot s path_slot value = do v ← fill s.path value; ok (record s { path = v })
fill_slot s authority_slot value = do v ← fill s.authority value; ok (record s { authority = v })
fill_slot s scheme_slot value = do v ← fill s.scheme value; ok (record s { scheme = v })
fill_slot s unknown value = err protocol

any_uppercase : Bytes → Bool
any_uppercase [] = false
any_uppercase (b ∷ bs) = (leb b'A' b && leb b b'Z') || any_uppercase bs

is_connection_specific : Bytes → Bool
is_connection_specific name =
    same_bytes name (codes "connection")
    || (same_bytes name (codes "keep-alive")
        || (same_bytes name (codes "proxy-connection")
            || (same_bytes name (codes "transfer-encoding") || same_bytes name (codes "upgrade"))))

-- `!= "trailers"`, for the field `te` only
is_bad_te : Header → Bool
is_bad_te h = same_bytes h.name (codes "te") && not (same_bytes h.value (codes "trailers"))

unfoldable pub is_empty : Bytes → Bool
is_empty [] = true
is_empty (b ∷ bs) = false

unfoldable pub is_refused : Header → Bool
unfolding any_uppercase is_connection_specific is_bad_te is_empty
is_refused h =
    any_uppercase h.name || (is_empty h.name || (is_connection_specific h.name || is_bad_te h))

take_ordinary : Slots → Header → Result Code Slots
take_ordinary s h =
    if is_refused h
    then err protocol
    else ok (record s { seen_ordinary = true; ordinary = s.ordinary ++ (h ∷ []) })

-- `strip_prefix(':')`
unfoldable pub strip_colon : Bytes → Option Bytes
strip_colon [] = none
strip_colon (b ∷ bs) = if b == b':' then some bs else none

take_stripped : Slots → Header → Option Bytes → Result Code Slots
take_stripped s h (some name) =
    if s.seen_ordinary then err protocol else fill_slot s (pseudo_of name) h.value
take_stripped s h none = take_ordinary s h

take_field : Slots → Header → Result Code Slots
take_field s h = take_stripped s h (strip_colon h.name)

take_fields : List Header → Slots → Result Code Slots
take_fields [] s = ok s
take_fields (h ∷ hs) s = take_field s h >>= take_fields hs

required : Option Bytes → Result Code Bytes
required none = err protocol
required (some v) = ok v

or_default : Option Bytes → Bytes
or_default none = []
or_default (some v) = v

refuse_if : Bool → Result Code (Unit {0})
refuse_if true = err protocol
refuse_if false = ok tt

finish : Slots → Result Code Parsed
finish s = do
  method ← required s.method
  path ← required s.path
  refuse_if (same_bytes method (codes "CONNECT"))
  scheme ← required s.scheme
  refuse_if (is_empty path)
  ok (record {
    method = method;
    path = path;
    authority = or_default s.authority;
    ordinary = s.ordinary;
  })

unfoldable pub parse_headers : List Header → Result Code Parsed
unfolding take_fields take_field take_stripped take_ordinary strip_colon fill_slot fill finish
    required or_default is_empty refuse_if
parse_headers headers = take_fields headers no_slots >>= finish
