-- ===== src/Server/FcgiProto.antt =====
-- src/server/fcgi_proto.rs: the record protocol of FastCGI.
pub mod Stream
mod Examples
use Prim.Native.Nat.{bit_or}
use oxi_serve.Base.{
  ℕ, zero, suc, ◌+◌, ◌-◌, ◌*◌, ◌/◌, ◌%◌, ◌^◌, Bool, true, false, not, ◌&&◌, List, [], ◌∷◌, ◌++◌,
  Option, none, some,
}
use oxi_serve.Base.{leb, ltb, ◌==◌, if◌then◌else◌, get_elem?, length, take, drop, replicate}
use oxi_serve.Base.Bytes.{Bytes, codes, u16_be, u32_be, from_be16, from_be32}
use oxi_serve.Base.Result.{Result, ok, err}

abbrev pub header_len : ℕ
header_len = 8

abbrev pub version : ℕ
version = 1

abbrev pub max_content : ℕ
max_content = 0xffff

abbrev pub request_id : ℕ
request_id = 1

pub data RecordType : Type 0 where
  begin_request abort_request end_request params stdin stdout : RecordType
  stderr data_record get_values get_values_result unknown_type : RecordType

unfoldable pub from_u8 : ℕ → Option RecordType
from_u8 v =
    if v == 1
    then some begin_request
    else if v == 2
    then some abort_request
    else if v == 3
    then some end_request
    else if v == 4
    then some params
    else if v == 5
    then some stdin
    else if v == 6
    then some stdout
    else if v == 7
    then some stderr
    else if v == 8
    then some data_record
    else if v == 9
    then some get_values
    else if v == 10
    then some get_values_result
    else if v == 11
    then some unknown_type
    else none

-- `ty as u8`
unfoldable pub as_u8 : RecordType → ℕ
as_u8 ty = elim ty [
  | begin_request ↦ 1
  | abort_request ↦ 2
  | end_request ↦ 3
  | params ↦ 4
  | stdin ↦ 5
  | stdout ↦ 6
  | stderr ↦ 7
  | data_record ↦ 8
  | get_values ↦ 9
  | get_values_result ↦ 10
  | unknown_type ↦ 11
]

abbrev pub role_responder : ℕ
role_responder = 1

abbrev pub flag_keep_conn : ℕ
flag_keep_conn = 1

unfoldable pub push_header : Bytes → RecordType → ℕ → ℕ → Bytes
unfolding as_u8
push_header out ty content_len padding =
    out
    ++ (version
        ∷ as_u8 ty
        ∷ (u16_be request_id ++ (u16_be (content_len % 2 ^ 16) ++ (padding ∷ 0 ∷ []))))

unfoldable pub push_record : Bytes → RecordType → Bytes → Bytes
unfolding push_header
push_record out ty body =
    let padding = (8 - length body % 8) % 8 in
    push_header out ty (length body) padding ++ (body ++ replicate padding 0)

unfoldable pub push_begin_request : Bytes → Bool → Bytes
unfolding push_record
push_begin_request out keep_conn =
    push_record out begin_request (
      u16_be role_responder ++ ((if keep_conn then flag_keep_conn else 0) ∷ 0 ∷ 0 ∷ 0 ∷ 0 ∷ 0 ∷ []))

unfoldable pub push_len : Bytes → ℕ → Bytes
push_len out n =
    if ltb n 128 then out ++ (n ∷ []) else out ++ u32_be (bit_or (n % 2 ^ 32) 0x80000000)

unfoldable pub push_nv_pair : Bytes → Bytes → Bytes → Bytes
unfolding push_len
push_nv_pair out name value =
    push_len (push_len out (length name)) (length value) ++ (name ++ value)

-- `chunks(MAX_CONTENT)`, on fuel.
unfoldable pub chunks : ℕ → Bytes → List Bytes
chunks zero xs = []
chunks (suc fuel) [] = []
chunks (suc fuel) (x ∷ xs) = take max_content (x ∷ xs) ∷ chunks fuel (drop max_content (x ∷ xs))

unfoldable pub push_chunks : Bytes → RecordType → List Bytes → Bytes
unfolding push_record
push_chunks out ty [] = out
push_chunks out ty (chunk ∷ more) = push_chunks (push_record out ty chunk) ty more

unfoldable pub push_params : Bytes → Bytes → Bytes
push_params out blob = push_record (push_chunks out params (chunks (length blob) blob)) params []

unfoldable pub push_stdin : Bytes → Bytes → Bytes
push_stdin out body = push_record (push_chunks out stdin (chunks (length body) body)) stdin []

pub record Record : Type 0 where
  pub ty : RecordType
  pub request_id : ℕ
  pub body : Bytes
  pub total : ℕ

pub data ParseError : Type 0 where
  incomplete malformed : ParseError

-- `buf[i]`, at an index that the length was checked for.
unfoldable pub byte_of : Option ℕ → ℕ
byte_of none = 0
byte_of (some b) = b

unfoldable pub byte : Bytes → ℕ → ℕ
unfolding byte_of
byte buf i = byte_of (get_elem? buf i)

unfoldable pub parse_typed : Bytes → Option RecordType → Result ParseError Record
unfolding byte
parse_typed buf none = err malformed
parse_typed buf (some ty) =
    let content_len = from_be16 (byte buf 4) (byte buf 5) in
    let total = header_len + content_len + byte buf 6 in
    if ltb (length buf) total
    then err incomplete
    else ok (record {
      ty = ty;
      request_id = from_be16 (byte buf 2) (byte buf 3);
      body = take content_len (drop header_len buf);
      total = total;
    })

unfoldable pub parse_record : Bytes → Result ParseError Record
unfolding parse_typed
parse_record buf =
    if ltb (length buf) header_len
    then err incomplete
    else if not (byte buf 0 == version)
    then err malformed
    else parse_typed buf (from_u8 (byte buf 1))

unfoldable pub end_request_status : Bytes → Option (ℕ × ℕ)
end_request_status body =
    if ltb (length body) 8
    then none
    else some (from_be32 (byte body 0) (byte body 1) (byte body 2) (byte body 3), byte body 4)

-- `to_ascii_uppercase`
upper : ℕ → ℕ
upper b = if leb b'a' b && leb b b'z' then b - 32 else b

env_bytes : Bytes → Bytes
unfolding upper
env_bytes [] = []
env_bytes (b ∷ name) = (if b == b'-' then b'_' else upper b) ∷ env_bytes name

unfoldable pub http_param_name : Bytes → Bytes → Bytes
unfolding env_bytes
http_param_name name out = out ++ (codes "HTTP_" ++ env_bytes name)
