-- ===== src/Http/Uri/Text.antt =====
-- src/http/uri.rs: the query, and the escaping of paths and of HTML. HTML's special characters are
-- ASCII, so that `chars` and bytes agree on them.
pub mod Laws
use Prim.Native.Nat.{bit_and}
use oxi_serve.Base.{
  ℕ, zero, suc, ◌+◌, ◌/◌, Bool, true, false, ◌&&◌, ◌||◌, List, [], ◌∷◌, ◌++◌, Option, none, some,
}
use oxi_serve.Base.{leb, ◌==◌, if◌then◌else◌, get_elem?}
use oxi_serve.Base.Bytes.{Bytes, codes, same_bytes}

-- `position`, with what stands before and behind
unfoldable pub split_at_byte : ℕ → Bytes → Option (Bytes × Bytes)
split_at_byte b [] = none
split_at_byte b (c ∷ rest) =
    let found = split_at_byte b rest in
    if c == b
    then some ([], rest)
    else elim found [ none ↦ none | some (before, behind) ↦ some (c ∷ before, behind) ]

or_whole : Bytes → Option (Bytes × Bytes) → Bytes × Bytes
or_whole s none = (s, [])
or_whole s (some p) = p

unfoldable pub split_query : Bytes → Bytes × Bytes
unfolding or_whole
split_query target = or_whole target (split_at_byte b'?' target)

abbrev pub hex_table : Bytes
hex_table = codes "0123456789ABCDEF"

-- An index into the table of sixteen; a byte has no other.
hex_char : Option ℕ → ℕ
hex_char none = 0
hex_char (some c) = c

one_of : Bytes → ℕ → Bool
one_of [] c = false
one_of (b ∷ bs) c = c == b || one_of bs c

unfoldable pub is_safe : ℕ → Bool
unfolding one_of
is_safe c =
    (leb b'0' c && leb c b'9')
    || ((leb b'A' c && leb c b'Z')
        || ((leb b'a' c && leb c b'z') || one_of (codes "-_.~/@:+$,;=") c))

unfoldable pub encode_byte : ℕ → Bytes
unfolding hex_char
encode_byte c =
    if is_safe c
    then c ∷ []
    else b'%'
      ∷ hex_char (get_elem? hex_table (c / 16))
      ∷ hex_char (get_elem? hex_table (bit_and c 15))
      ∷ []

unfoldable pub encode_path : Bytes → Bytes → Bytes
encode_path [] out = out
encode_path (c ∷ s) out = encode_path s (out ++ encode_byte c)

unfoldable pub escape_char : ℕ → Bytes
escape_char c =
    if c == b'&'
    then codes "&amp;"
    else if c == b'<'
    then codes "&lt;"
    else if c == b'>'
    then codes "&gt;"
    else if c == b'"'
    then codes "&quot;"
    else if c == 39
    then codes "&#39;"
    else c ∷ []

unfoldable pub escape_html : Bytes → Bytes → Bytes
escape_html [] out = out
escape_html (c ∷ s) out = escape_html s (out ++ escape_char c)

unfoldable pub split_on : ℕ → Bytes → Bytes → List Bytes
split_on b cur [] = cur ∷ []
split_on b cur (c ∷ rest) =
    let same = split_on b (cur ++ (c ∷ [])) rest in
    let other = split_on b [] rest in if c == b then cur ∷ other else same

find_param : Bytes → List Bytes → Option Bytes
find_param name [] = none
find_param name (pair ∷ pairs) =
    let kv = or_whole pair (split_at_byte b'=' pair) in
    if same_bytes kv.0 name then some kv.1 else find_param name pairs

unfoldable pub query_param : Bytes → Bytes → Option Bytes
unfolding find_param or_whole
query_param query name = find_param name (split_on b'&' [] query)
