-- ===== src/Server/FcgiProto/Stream.antt =====
-- src/server/fcgi_proto.rs: records as the other side reads them.
use oxi_serve.Base.{
  ℕ, zero, suc, ◌+◌, ◌-◌, ◌*◌, ◌/◌, ◌%◌, ◌≤◌, ◌<◌, ◌≡◌, refl, sym, ap, ◌∙◌, arith, true, false,
  List, [], ◌∷◌, ◌++◌, append-nil, append_assoc, Option, none, some, All,
}
use oxi_serve.Base.{
  ltb, ◌==◌, ==_iff, if◌then◌else◌, length, take, drop, replicate, length-append, length-replicate,
  take-length-append, drop-length-append, take-append-drop, length-take, length-drop,
}
use oxi_serve.Base.Bytes.{Bytes}
use oxi_serve.Base.Result.{ok, err}
use oxi_serve.Server.FcgiProto.{
  RecordType, begin_request, abort_request, end_request, stdin, stdout, stderr, data_record,
  get_values, get_values_result, unknown_type, push_stdin, from_u8, as_u8, push_header, push_record,
  chunks, push_chunks, push_params, params, max_content, byte, byte_of, parse_typed, parse_record,
}

-- The padding of a body.
abbrev pub padding : Bytes → ℕ
padding body = (8 - length body % 8) % 8

from_u8-as_u8 : (ty : RecordType) → from_u8 (as_u8 ty) ≡ some ty
unfolding from_u8 as_u8
from_u8-as_u8 begin_request = refl
from_u8-as_u8 abort_request = refl
from_u8-as_u8 end_request = refl
from_u8-as_u8 params = refl
from_u8-as_u8 stdin = refl
from_u8-as_u8 stdout = refl
from_u8-as_u8 stderr = refl
from_u8-as_u8 data_record = refl
from_u8-as_u8 get_values = refl
from_u8-as_u8 get_values_result = refl
from_u8-as_u8 unknown_type = refl

-- A header and what is behind it, if all of the record is there.
parse-header :
    (ty : RecordType) (h l p : ℕ) (tail : Bytes)
    → h * 256 + l + p ≤ length tail
    → parse_record (1 ∷ as_u8 ty ∷ 0 ∷ 1 ∷ h ∷ l ∷ p ∷ 0 ∷ tail)
      ≡ ok (record {
        ty = ty;
        request_id = 1;
        body = take (h * 256 + l) tail;
        total = 8 + (h * 256 + l) + p;
      })
unfolding parse_record parse_typed byte byte_of
parse-header ty h l p tail fits =
    let buf = 1 ∷ as_u8 ty ∷ 0 ∷ 1 ∷ h ∷ l ∷ p ∷ 0 ∷ tail in
    let long : ltb (length buf) 8 ≡ false = ground arith in
    let enough : ltb (length buf) (8 + (h * 256 + l) + p) ≡ false = ground (arith, fits) in
    rw (long, from_u8-as_u8 ty, enough) refl

length_bytes : (n : ℕ) → n < 65536 → n % 65536 / 256 % 256 * 256 + n % 65536 % 256 ≡ n
length_bytes n small = omega arith

parse-push_record :
    (ty : RecordType) (body rest : Bytes)
    → length body ≤ max_content
    → parse_record (push_record [] ty body ++ rest)
      ≡ ok (record { ty = ty; request_id = 1; body = body; total = 8 + length body + padding body })
unfolding push_record push_header
parse-push_record ty body rest fits =
    let n = length body in
    let h = n % 65536 / 256 % 256 in
    let l = n % 65536 % 256 in
    let tail = (body ++ replicate (padding body) 0) ++ rest in
    let e : h * 256 + l ≡ n = length_bytes n (omega (arith, fits)) in
    let all_there : h * 256 + l + padding body ≤ length tail = omega (
      arith,
      e,
      length-append (body ++ replicate (padding body) 0) rest,
      length-append body (replicate (padding body) 0),
      length-replicate {A = ℕ} (padding body) 0,
    ) in
    let whole : take n tail ≡ body =
      ap (take n) (append_assoc body (replicate (padding body) 0) rest)
      ∙ take-length-append body (replicate (padding body) 0 ++ rest) in
    parse-header ty h l (padding body) tail all_there ∙ (rw (e, whole) refl)

-- A record goes behind what is there, and ends where its padding ends.
push_record-append :
    (out : Bytes) (ty : RecordType) (body : Bytes)
    → push_record out ty body ≡ out ++ push_record [] ty body
unfolding push_record push_header
push_record-append out ty body =
    append_assoc out (push_header [] ty (length body) (padding body))
      (body ++ replicate (padding body) 0)

length-push_record :
    (ty : RecordType) (body : Bytes)
    → length (push_record [] ty body) ≡ 8 + length body + padding body
unfolding push_record push_header
length-push_record ty body = omega (
  arith,
  length-append body (replicate (padding body) 0),
  length-replicate {A = ℕ} (padding body) 0,
)

push_chunks-append :
    (out : Bytes) (ty : RecordType) (cs : List Bytes)
    → push_chunks out ty cs ≡ out ++ push_chunks [] ty cs
unfolding push_chunks
push_chunks-append out ty [] = sym (append-nil out)
push_chunks-append out ty (c ∷ cs) =
    push_chunks-append (push_record out ty c) ty cs
    ∙ ap (λ t. t ++ push_chunks [] ty cs) (push_record-append out ty c)
    ∙ append_assoc out (push_record [] ty c) (push_chunks [] ty cs)
    ∙ ap (λ t. out ++ t) (sym (push_chunks-append (push_record [] ty c) ty cs))

-- A stream, as the other side reads it: the bodies of records of its type, up to an empty one, on
-- fuel for the number of records.
prepend : Bytes → Option (Bytes × Bytes) → Option (Bytes × Bytes)
prepend body none = none
prepend body (some (got, left)) = some (body ++ got, left)

joined : Bytes → Bytes → Option (Bytes × Bytes) → Option (Bytes × Bytes)
unfolding prepend
joined [] left more = some ([], left)
joined (b ∷ body) left more = prepend (b ∷ body) more

unfoldable pub read_stream : RecordType → ℕ → Bytes → Option (Bytes × Bytes)
unfolding joined
read_stream ty zero buf = none
read_stream ty (suc fuel) buf = elim (parse_record buf) [
  | err e ↦ none
  | ok r ↦
      let more = read_stream ty fuel (drop r.total buf) in
      if as_u8 r.ty == as_u8 ty then joined r.body (drop r.total buf) more else none
]

read-push_record :
    (fuel : ℕ) (ty : RecordType) (body rest : Bytes)
    → length body ≤ max_content
    → read_stream ty (suc fuel) (push_record [] ty body ++ rest)
      ≡ joined body rest (read_stream ty fuel rest)
unfolding read_stream
read-push_record fuel ty body rest fits =
    let past : drop (8 + length body + padding body) (push_record [] ty body ++ rest) ≡ rest =
      ap (λ n. drop n (push_record [] ty body ++ rest)) (sym (length-push_record ty body))
      ∙ drop-length-append (push_record [] ty body) rest in
    let own : (as_u8 ty == as_u8 ty) ≡ true = (==_iff (as_u8 ty) (as_u8 ty)).1 refl in
    rw (read_stream, parse-push_record ty body rest fits, own, past) refl

concat : List Bytes → Bytes
concat [] = []
concat (c ∷ cs) = c ++ concat cs

abbrev IsChunk : Bytes → Type 0
IsChunk c = (0 < length c) × (length c ≤ max_content)

read-chunks :
    (fuel : ℕ) (ty : RecordType) (cs : List Bytes) (rest : Bytes)
    → length cs < fuel
    → All IsChunk cs
    → read_stream ty fuel (push_chunks [] ty cs ++ (push_record [] ty [] ++ rest))
      ≡ some (concat cs, rest)
unfolding push_chunks concat joined
read-chunks zero ty cs rest enough fits = absurd (omega (arith, enough))
read-chunks (suc fuel) ty [] rest enough fits = read-push_record fuel ty [] rest (omega arith)
read-chunks (suc fuel) ty (c ∷ cs) rest enough (fit, fits) =
    let e : push_chunks (push_record [] ty c) ty cs ++ (push_record [] ty [] ++ rest)
        ≡ push_record [] ty c ++ (push_chunks [] ty cs ++ (push_record [] ty [] ++ rest)) =
      ap (λ t. t ++ (push_record [] ty [] ++ rest)) (push_chunks-append (push_record [] ty c) ty cs)
      ∙ append_assoc (push_record [] ty c) (push_chunks [] ty cs) (push_record [] ty [] ++ rest) in
    rw
      (
        e,
        read-push_record fuel ty c (push_chunks [] ty cs ++ (push_record [] ty [] ++ rest)) fit.1,
        read-chunks fuel ty cs rest (omega (arith, enough)) fits,
      )
      (split c fit.0)
  where
    split :
        (c : Bytes)
        → 0 < length c
        → joined c (push_chunks [] ty cs ++ (push_record [] ty [] ++ rest)) (some (concat cs, rest))
          ≡ some (c ++ concat cs, rest)
    split [] empty = absurd (omega (arith, empty))
    split (b ∷ c) some_bytes = unfold prepend in refl

chunks-IsChunk : (fuel : ℕ) (xs : Bytes) → All IsChunk (chunks fuel xs)
unfolding chunks
chunks-IsChunk zero xs = tt
chunks-IsChunk (suc fuel) [] = tt
chunks-IsChunk (suc fuel) (x ∷ xs) = (
  (
    omega (arith, length-take max_content (x ∷ xs)),
    omega (arith, length-take max_content (x ∷ xs)),
  ),
  chunks-IsChunk fuel (drop max_content (x ∷ xs)),
)

chunks_lem :
    (fuel : ℕ) (xs : Bytes)
    → length xs ≤ fuel
    → (concat (chunks fuel xs) ≡ xs) × (length (chunks fuel xs) ≤ fuel)
unfolding chunks concat
chunks_lem zero [] le = (refl, omega arith)
chunks_lem zero (x ∷ xs) le = absurd (omega (arith, le))
chunks_lem (suc fuel) [] le = (refl, omega arith)
chunks_lem (suc fuel) (x ∷ xs) le =
    let (same, few) =
      chunks_lem fuel (drop max_content (x ∷ xs))
        (omega (arith, le, length-drop max_content (x ∷ xs))) in
    (
      ap (λ t. take max_content (x ∷ xs) ++ t) same ∙ take-append-drop max_content (x ∷ xs),
      omega (arith, few),
    )

read-blob :
    (ty : RecordType) (blob rest : Bytes)
    → read_stream ty
        (suc (length blob))
        (push_record (push_chunks [] ty (chunks (length blob) blob)) ty [] ++ rest)
      ≡ some (blob, rest)
read-blob ty blob rest =
    let cs = chunks (length blob) blob in
    let (same, few) = chunks_lem (length blob) blob (omega arith) in
    let e : push_record (push_chunks [] ty cs) ty [] ++ rest
        ≡ push_chunks [] ty cs ++ (push_record [] ty [] ++ rest) =
      ap (λ t. t ++ rest) (push_record-append (push_chunks [] ty cs) ty [])
      ∙ append_assoc (push_chunks [] ty cs) (push_record [] ty []) rest in
    ap (read_stream ty (suc (length blob))) e
    ∙ read-chunks (suc (length blob)) ty cs rest (omega (arith, few))
        (chunks-IsChunk (length blob) blob)
    ∙ ap (λ t. some (t, rest)) same

-- Parameters that `push_params` wrote, or a body that `push_stdin` wrote, of any length, are read
-- back whole from the records of their type, with what follows them.
pub read-push :
    (blob rest : Bytes)
    → (read_stream params (suc (length blob)) (push_params [] blob ++ rest) ≡ some (blob, rest))
      × (read_stream stdin (suc (length blob)) (push_stdin [] blob ++ rest) ≡ some (blob, rest))
unfolding push_params push_stdin
read-push blob rest = (read-blob params blob rest, read-blob stdin blob rest)
