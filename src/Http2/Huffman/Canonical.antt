-- ===== src/Http2/Huffman/Canonical.antt =====
-- src/http2/huffman.rs: what an input that `decode` accepts consists of.
use oxi_serve.Base.{
  ℕ, ◌<◌, ◌≡◌, refl, sym, ap, ◌∙◌, Bool, true, false, ◌&&◌, ◌||◌, List, [], ◌∷◌, ◌++◌, append-nil,
  append_assoc, none, some,
}
use oxi_serve.Base.{ltb, ltb→lt, ◌==◌}
use oxi_serve.Http2.Huffman.{
  Tree, node, absent, eos, entry, bit, child, tree, plant_all, plant, same_bit, same_trail,
}
use oxi_serve.Http2.Huffman.Bits.{bits}

unfoldable pub follow : Tree → List Bool → Tree
unfolding child
follow t [] = t
follow t (b ∷ bs) = follow (child t b) bs

pub follow-append :
    (t : Tree) (p : List Bool) (b : Bool) → follow t (p ++ (b ∷ [])) ≡ child (follow t p) b
unfolding follow
follow-append t [] b = refl
follow-append t (c ∷ p) b = follow-append (child t c) p b

pub same_trail→eq : (xs bs : List Bool) → same_trail xs bs ≡ true → xs ≡ bs
unfolding same_trail same_bit
same_trail→eq [] [] q = refl
same_trail→eq [] (b ∷ bs) q = cc
same_trail→eq (a ∷ xs) [] q = cc
same_trail→eq (true ∷ xs) (true ∷ bs) q = ap (λ t. true ∷ t) (same_trail→eq xs bs q)
same_trail→eq (true ∷ xs) (false ∷ bs) q = cc
same_trail→eq (false ∷ xs) (true ∷ bs) q = cc
same_trail→eq (false ∷ xs) (false ∷ bs) q = ap (λ t. false ∷ t) (same_trail→eq xs bs q)

-- Every symbol but EOS stands where its code leads.
unfoldable leaf_ok : ℕ → List Bool → Bool
unfolding same_trail bits entry
leaf_ok symbol path =
    symbol == eos || (ltb symbol 256 && same_trail path (bits (entry symbol).1 (entry symbol).0))

unfoldable leaves_ok : Tree → List Bool → Bool
unfolding leaf_ok
leaves_ok absent path = true
leaves_ok (node (some symbol) l r) path =
    leaf_ok symbol path && (leaves_ok l (path ++ (false ∷ [])) && leaves_ok r (path ++ (true ∷ [])))
leaves_ok (node none l r) path =
    leaves_ok l (path ++ (false ∷ [])) && leaves_ok r (path ++ (true ∷ []))

leaves_of_tree : leaves_ok tree [] ≡ true
unfolding leaves_ok tree plant_all plant bit
leaves_of_tree = refl

and-both : (a b : Bool) → (a && b) ≡ true → (a ≡ true) × (b ≡ true)
and-both true b q = (refl, q)
and-both false b q = cc

child-leaves_ok :
    (t : Tree) (path : List Bool) (b : Bool)
    → leaves_ok t path ≡ true
    → leaves_ok (child t b) (path ++ (b ∷ [])) ≡ true
unfolding leaves_ok child
child-leaves_ok absent path b q = refl
child-leaves_ok (node none l r) path b q =
    pick b (and-both (leaves_ok l (path ++ (false ∷ []))) (leaves_ok r (path ++ (true ∷ []))) q)
  where
    pick :
        (c : Bool)
        → (leaves_ok l (path ++ (false ∷ [])) ≡ true) × (leaves_ok r (path ++ (true ∷ [])) ≡ true)
        → leaves_ok (child (node none l r) c) (path ++ (c ∷ [])) ≡ true
    pick true p = p.1
    pick false p = p.0
child-leaves_ok (node (some symbol) l r) path b q = pick b (
    and-both (leaves_ok l (path ++ (false ∷ []))) (leaves_ok r (path ++ (true ∷ [])))
      (and-both (leaf_ok symbol path)
        (leaves_ok l (path ++ (false ∷ [])) && leaves_ok r (path ++ (true ∷ []))) q).1)
  where
    pick :
        (c : Bool)
        → (leaves_ok l (path ++ (false ∷ [])) ≡ true) × (leaves_ok r (path ++ (true ∷ [])) ≡ true)
        → leaves_ok (child (node (some symbol) l r) c) (path ++ (c ∷ [])) ≡ true
    pick true p = p.1
    pick false p = p.0

root_leaf :
    (symbol : ℕ) (l r : Tree) (path : List Bool)
    → leaves_ok (node (some symbol) l r) path ≡ true
    → leaf_ok symbol path ≡ true
unfolding leaves_ok
root_leaf symbol l r path ok =
    (and-both (leaf_ok symbol path)
      (leaves_ok l (path ++ (false ∷ [])) && leaves_ok r (path ++ (true ∷ []))) ok).0

follow-leaf_ok :
    (q : List Bool) (t l r : Tree) (path : List Bool) (symbol : ℕ)
    → leaves_ok t path ≡ true
    → follow t q ≡ node (some symbol) l r
    → leaf_ok symbol (path ++ q) ≡ true
unfolding follow
follow-leaf_ok [] t l r path symbol ok e =
    let here : leaves_ok (node (some symbol) l r) path ≡ true = rw (sym e) ok in
    rw (append-nil path) (root_leaf symbol l r path here)
follow-leaf_ok (b ∷ q) t l r path symbol ok e =
    ap (leaf_ok symbol) (sym (append_assoc path (b ∷ []) q))
    ∙ follow-leaf_ok q (child t b) l r (path ++ (b ∷ [])) symbol (child-leaves_ok t path b ok) e

-- A path of the tree to a symbol other than EOS is the symbol's code, and the symbol is a byte.
pub path_code :
    (q : List Bool) (l r : Tree) (symbol : ℕ)
    → follow tree q ≡ node (some symbol) l r
    → (symbol == eos) ≡ false
    → (symbol < 256) × (q ≡ bits (entry symbol).1 (entry symbol).0)
unfolding leaf_ok
path_code q l r symbol e not_eos =
    let ok : leaf_ok symbol q ≡ true = follow-leaf_ok q tree l r [] symbol leaves_of_tree e in
    let both : (ltb symbol 256 && same_trail q (bits (entry symbol).1 (entry symbol).0)) ≡ true =
      rw
        (sym (
          past_false (symbol == eos)
            (ltb symbol 256 && same_trail q (bits (entry symbol).1 (entry symbol).0)) not_eos))
        ok in
    let (byte, same) =
      and-both (ltb symbol 256) (same_trail q (bits (entry symbol).1 (entry symbol).0)) both in
    (ltb→lt symbol 256 byte, same_trail→eq q (bits (entry symbol).1 (entry symbol).0) same)
  where
    past_false : (a b : Bool) → a ≡ false → (a || b) ≡ b
    past_false a b e = rw e refl
