-- ===== src/Http2/Huffman.antt =====
-- src/http2/huffman.rs: the Huffman coding of header strings.
pub mod Table
pub mod Bits
pub mod Encoding
pub mod Emission
pub mod Append
pub mod RoundTrip
pub mod Canonical
pub mod Unique
mod Examples
use Prim.Native.Nat.{bit_and, bit_or}
use oxi_serve.Base.{
  ℕ, zero, suc, ◌+◌, ◌-◌, ◌*◌, ◌/◌, ◌%◌, ◌^◌, Bool, true, false, not, ◌&&◌, ◌||◌, List, [], ◌∷◌,
  ◌++◌, Option, none, some,
}
use oxi_serve.Base.{leb, ltb, ◌==◌, if◌then◌else◌, get_elem?, length}
use oxi_serve.Base.Bytes.{Bytes}
use oxi_serve.Base.Opt.{◌>>=◌}
use oxi_serve.Http2.Huffman.Table.{table}

abbrev pub eos : ℕ
eos = 256

-- `TABLE[b]`; a byte is never out of range.
entry_of : Option (ℕ × ℕ) → ℕ × ℕ
entry_of none = (0, 0)
entry_of (some e) = e

unfoldable pub entry : ℕ → ℕ × ℕ
unfolding entry_of
entry b = entry_of (get_elem? table b)

-- Encoding ----------------------------------------------------------------------------------------
unfoldable pub bit_count : Bytes → ℕ
bit_count [] = 0
bit_count (b ∷ input) = (entry b).1 + bit_count input

unfoldable pub encoded_len : Bytes → ℕ
unfolding bit_count
encoded_len input = (bit_count input + 7) / 8

-- The inner loop: the bytes it pushes, on fuel.
unfoldable pub drain : ℕ → ℕ → ℕ → Bytes → ℕ × Bytes
drain zero acc n out = (n, out)
drain (suc fuel) acc n out =
    let rest = drain fuel acc (n - 8) (out ++ ((acc / 2 ^ (n - 8) % 256) ∷ [])) in
    if leb 8 n then rest else (n, out)

-- `(acc << len) | code`, on 64 bits
unfoldable pub shift_in : ℕ → ℕ × ℕ → ℕ
shift_in acc (code, len) = bit_or (acc * 2 ^ len % 2 ^ 64) code

unfoldable pub flush : ℕ → ℕ → Bytes → Bytes
unfolding shift_in
flush acc n out =
    let pad = 8 - n in
    if ltb 0 n then out ++ (bit_and (shift_in acc (2 ^ pad - 1, pad)) 0xff ∷ []) else out

unfoldable pub encode_from : ℕ → ℕ → Bytes → Bytes → Bytes
unfolding drain flush
encode_from acc n [] out = flush acc n out
encode_from acc n (b ∷ input) out =
    let next = shift_in acc (entry b) in
    let bits = n + (entry b).1 in
    let drained = drain bits next bits out in encode_from next drained.0 input drained.1

unfoldable pub encode : Bytes → Bytes → Bytes
encode input out = encode_from 0 0 input out

-- Decoding ----------------------------------------------------------------------------------------
-- The nodes, by structure and not by index: `NONE` is `absent`.
pub data Tree : Type 0 where
  absent : Tree
  node : (symbol : Option ℕ) (zero_child one_child : Tree) → Tree

abbrev pub bare : Tree
bare = node none absent absent

unfoldable pub bit : ℕ → ℕ → Bool
bit v i = v / 2 ^ i % 2 == 1

child_or_new : Tree → Tree
child_or_new absent = bare
child_or_new (node s l r) = node s l r

-- The loop of `tree` over the `i` low bits of a code.
unfoldable pub plant : ℕ → ℕ → ℕ → Tree → Tree
unfolding child_or_new
plant code i sym absent = absent
plant code zero sym (node s l r) = node (some sym) l r
plant code (suc i) sym (node s l r) =
    let one = bit code i in
    let grown = plant code i sym (child_or_new (if one then r else l)) in
    if one then node s l grown else node s grown r

unfoldable pub plant_all : ℕ → List (ℕ × ℕ) → Tree → Tree
plant_all sym [] t = t
plant_all sym ((code, len) ∷ rest) t = plant_all (suc sym) rest (plant code len sym t)

unfoldable pub tree : Tree
tree = plant_all 0 table bare

-- Where the walk of `decode` stands: the node, the bits from the root to it, the newest first,
-- which stand for its index, the bits consumed since the root, and the output.
pub record Walk : Type 0 where
  pub at : Tree
  pub trail : List Bool
  pub consumed_bits : ℕ
  pub out : Bytes

abbrev pub from_root : Bytes → Walk
from_root out = record { at = tree; trail = []; consumed_bits = 0; out = out }

unfoldable pub child : Tree → Bool → Tree
child absent b = absent
child (node s l r) true = r
child (node s l r) false = l

-- What the loop does with the next node.
unfoldable pub arrive : ℕ → Walk → Bool → Tree → Option Walk
arrive limit w b absent = none
arrive limit w b (node (some sym) l r) =
    if sym == eos
    then none
    else if leb limit (length w.out)
    then none
    else some (from_root (w.out ++ ((sym % 256) ∷ [])))
arrive limit w b (node none l r) =
    some (record w { at = node none l r; trail = b ∷ w.trail; consumed_bits = w.consumed_bits + 1 })

unfoldable pub advance : ℕ → Walk → Bool → Option Walk
unfolding child
advance limit w b = arrive limit w b (child w.at b)

-- `for shift in (0..8).rev()`, with `shift` bits still to come
unfoldable pub feed_byte : ℕ → ℕ → ℕ → Walk → Option Walk
feed_byte limit byte zero w = some w
feed_byte limit byte (suc shift) w = advance limit w (bit byte shift) >>= feed_byte limit byte shift

unfoldable pub feed : ℕ → Bytes → Walk → Option Walk
feed limit [] w = some w
feed limit (byte ∷ input) w = feed_byte limit byte 8 w >>= feed limit input

unfoldable pub same_bit : Bool → Bool → Bool
same_bit true b = b
same_bit false b = not b

unfoldable pub same_trail : List Bool → List Bool → Bool
unfolding same_bit
same_trail [] [] = true
same_trail [] (b ∷ bs) = false
same_trail (a ∷ t) [] = false
same_trail (a ∷ t) (b ∷ bs) = same_bit a b && same_trail t bs

-- The loop of `is_all_ones_prefix`, from the node `cur` and its trail on.
unfoldable pub ones_from : Tree → List Bool → List Bool → Bool
unfolding same_trail
ones_from absent cur target = false
ones_from (node s l r) cur target = same_trail cur target || ones_from r (true ∷ cur) target

unfoldable pub is_all_ones_prefix : List Bool → Bool
is_all_ones_prefix target = ones_from tree [] target

unfoldable pub finish : Walk → Option Bytes
finish w =
    if ltb 7 w.consumed_bits
    then none
    else if ltb 0 w.consumed_bits && not (is_all_ones_prefix w.trail)
    then none
    else some w.out

-- `none` is `HuffmanError`.
unfoldable pub decode : Bytes → ℕ → Bytes → Option Bytes
decode input limit out = feed limit input (from_root out) >>= finish
