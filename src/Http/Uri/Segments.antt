-- ===== src/Http/Uri/Segments.antt =====
-- What `normalize` is to do, segment by segment: split at the slashes, decode each segment, and
-- resolve the dots on a stack of segments.
use oxi_serve.Base.{◌*◌, Bool, true, false, not, ◌||◌, List, [], ◌∷◌, ◌++◌, none, some}
use oxi_serve.Base.{◌==◌, if◌then◌else◌, drop}
use Prim.Native.Nat.{bit_or}
use oxi_serve.Base.Bytes.{Bytes, codes, same_bytes}
use oxi_serve.Base.Result.{Result, ok, err, ◌>>=◌}
use oxi_serve.Http.Uri.{
  UriError, invalid, not_absolute, hex, Mode, between, after_percent, after_digit, accept, trim,
  trailing_slash, starts_with_slash, from_utf8,
}

-- The parts between the slashes; `cur` is what the part at hand has so far.
unfoldable pub split : Bytes → Bytes → List Bytes
split cur [] = cur ∷ []
split cur (c ∷ rest) =
    let same = split (cur ++ (c ∷ [])) rest in
    let other = split [] rest in if c == b'/' then cur ∷ other else same

-- Percent-decoding of one part.
unfoldable pub decode : Mode → Bytes → Bytes → Result UriError Bytes
decode between [] seg = ok seg
decode after_percent [] seg = err invalid
decode (after_digit h) [] seg = err invalid
decode between (c ∷ rest) seg = elim (c == b'%') [
  | true ↦ decode after_percent rest seg
  | false ↦ accept c seg (decode between rest)
]
decode after_percent (c ∷ rest) seg = elim (hex c) [
  | none ↦ err invalid
  | some h ↦ decode (after_digit h) rest seg
]
decode (after_digit h) (c ∷ rest) seg = elim (hex c) [
  | none ↦ err invalid
  | some l ↦ accept (bit_or (h * 16) l) seg (decode between rest)
]

-- The stack of segments, the newest first.
unfoldable pub climb_stack : List Bytes → Result UriError (List Bytes)
climb_stack [] = err invalid
climb_stack (s ∷ stack) = ok stack

unfoldable pub resolve : List Bytes → Bytes → Result UriError (List Bytes)
unfolding climb_stack
resolve stack seg =
    if same_bytes seg [] || same_bytes seg (codes ".")
    then ok stack
    else if same_bytes seg (codes "..")
    then climb_stack stack
    else ok (seg ∷ stack)

unfoldable pub resolve_all : List Bytes → List Bytes → Result UriError (List Bytes)
resolve_all stack [] = ok stack
resolve_all stack (part ∷ parts) = do
  seg ← decode between part []
  stack' ← resolve stack seg
  resolve_all stack' parts

-- A path of the segments, each with a slash behind it.
unfoldable pub unsplit : List Bytes → Bytes
unsplit [] = b'/' ∷ []
unsplit (s ∷ stack) = unsplit stack ++ (s ++ (b'/' ∷ []))

-- The whole of `normalize`: every path is read by segments, also one that needs no work.
unfoldable pub normalize_spec : (Bytes → Bool) → Bytes → Result UriError Bytes
normalize_spec is_utf8 path = if not (starts_with_slash path) then err not_absolute else do
  stack ← resolve_all [] (split [] (drop 1 path))
  from_utf8 is_utf8 (trim (trailing_slash path) (unsplit stack))
