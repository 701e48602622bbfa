-- ===== src/Http2/Huffman/Encoding.antt =====
-- src/http2/huffman.rs: the code of each symbol in the decoding tree.
use oxi_serve.Base.{
  ℕ, zero, suc, ◌≤◌, ◌<◌, ◌≡◌, refl, arith, Bool, true, false, ◌&&◌, List, [], ◌∷◌, Option, none,
  some, ◌^◌, ap, inl, inr,
}
use oxi_serve.Base.{leb, ltb, ◌==◌, ==_iff, ltb→lt, leb→le, Bool-cases}
use oxi_serve.Http2.Huffman.{Tree, node, absent, entry, tree, child, plant_all, plant, bit}
use oxi_serve.Http2.Huffman.Bits.{bits}

-- What the bits behind a node lead to, if the others lead to `on` from there.
unfoldable pub ended : Tree → List Bool → Option ℕ → Option ℕ
ended absent bs on = none
ended (node (some sym) l r) [] on = some sym
ended (node (some sym) l r) (b ∷ bs) on = none
ended (node none l r) bs on = on

-- The symbol that the bits lead to, with no other symbol on the way.
unfoldable pub leads : Tree → List Bool → Option ℕ
unfolding child ended
leads t [] = none
leads t (b ∷ bs) = ended (child t b) bs (leads (child t b) bs)

is_some_of : Option ℕ → ℕ → Bool
is_some_of none i = false
is_some_of (some j) i = j == i

code_ok : Tree → ℕ → Bool
unfolding entry leads bits is_some_of
code_ok t b =
    is_some_of (leads t (bits (entry b).1 (entry b).0)) b
    && (ltb (entry b).0 (2 ^ (entry b).1) && leb (entry b).1 30)

codes_ok : Tree → ℕ → Bool
unfolding code_ok
codes_ok t zero = true
codes_ok t (suc n) = code_ok t n && codes_ok t n

codes_of_tree : codes_ok tree 256 ≡ true
unfolding codes_ok tree plant_all plant bit
codes_of_tree = refl

pub record IsCode (b code len : ℕ) : Type 0 where
  pub leads_to : leads tree (bits len code) ≡ some b
  pub small : code < 2 ^ len
  pub short : len ≤ 30

is_some_of→eq : (o : Option ℕ) (i : ℕ) → is_some_of o i ≡ true → o ≡ some i
unfolding is_some_of
is_some_of→eq none i q = cc
is_some_of→eq (some j) i q = ap some ((==_iff j i).0 q)

and-both : (a b : Bool) → (a && b) ≡ true → (a ≡ true) × (b ≡ true)
and-both true b q = (refl, q)
and-both false b q = cc

code_ok-IsCode : (b : ℕ) → code_ok tree b ≡ true → IsCode b (entry b).0 (entry b).1
unfolding code_ok
code_ok-IsCode b q =
    let p =
      and-both (is_some_of (leads tree (bits (entry b).1 (entry b).0)) b)
        (ltb (entry b).0 (2 ^ (entry b).1) && leb (entry b).1 30) q in
    let r = and-both (ltb (entry b).0 (2 ^ (entry b).1)) (leb (entry b).1 30) p.1 in
    record {
      leads_to = is_some_of→eq (leads tree (bits (entry b).1 (entry b).0)) b p.0;
      small = ltb→lt (entry b).0 (2 ^ (entry b).1) r.0;
      short = leb→le (entry b).1 30 r.1;
    }

below : (n b : ℕ) → b < suc n → (b == n) ≡ false → b < n
below n b lt ne = ground arith

codes_ok-IsCode : (n b : ℕ) → codes_ok tree n ≡ true → b < n → IsCode b (entry b).0 (entry b).1
unfolding codes_ok
codes_ok-IsCode zero b q lt = absurd (omega arith)
codes_ok-IsCode (suc n) b q lt =
    let p = and-both (code_ok tree n) (codes_ok tree n) q in
    elim (Bool-cases (b == n)) [
      | inl e ↦ let s : b ≡ n = (==_iff b n).0 e in rw s (code_ok-IsCode n p.0)
      | inr ne ↦ codes_ok-IsCode n b p.1 (below n b lt ne)
    ]

-- The code of each byte leads to it in the tree that is built from the table.
pub entry-IsCode : (b : ℕ) → b < 256 → IsCode b (entry b).0 (entry b).1
entry-IsCode b byte = codes_ok-IsCode 256 b codes_of_tree byte
