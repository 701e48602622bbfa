-- ===== src/Http2/Hpack/Table/Recency.antt =====
-- src/http2/hpack.rs: which entries eviction keeps.
use mathlib.Core.List.{reverse, reverse-append, reverse-reverse}
use oxi_serve.Base.{ℕ, ◌-◌, ◌≤◌, ◌≡◌, refl, sym, ap, ◌∙◌, arith, List, [], ◌∷◌, ◌++◌}
use oxi_serve.Base.{ltb, length, length-append, Bool-cases, inl, inr}
use oxi_serve.Http2.Hpack.Static.{Header}
use oxi_serve.Http2.Hpack.Table.{entry_size, Decoder, evict_loop, evict}
use oxi_serve.Http2.Hpack.Table.Bounds.{total, total-reverse, evict_loop_exact}

-- The loop drops from the front.
evict_loop-suffix :
    (older : List Header) (size max_size : ℕ)
    → (gone : List Header) × (older ≡ gone ++ (evict_loop older size max_size).0)
unfolding evict_loop
evict_loop-suffix [] size max_size = ([], refl)
evict_loop-suffix (h ∷ older) size max_size = elim (Bool-cases (ltb max_size size)) [
  | inl over ↦
      let (gone, p) = evict_loop-suffix older (size - entry_size h) max_size in
      (h ∷ gone, rw over (ap (λ t. h ∷ t) p))
  | inr fits ↦ ([], rw fits refl)
]

-- And no longer suffix than what it keeps would fit.
evict_loop-longest :
    (older : List Header) (size max_size : ℕ) (a b : List Header)
    → size ≡ total older
    → older ≡ a ++ b
    → total b ≤ max_size
    → length b ≤ length (evict_loop older size max_size).0
unfolding evict_loop
evict_loop-longest [] size max_size a b e q h = ground (arith, ap length q, length-append a b)
evict_loop-longest (x ∷ older) size max_size [] b e q h = ground (arith, ap total q, ap length q)
evict_loop-longest (x ∷ older) size max_size (y ∷ a) b e q h = ground (
  arith,
  ap length q,
  length-append a b,
  evict_loop-longest older (size - entry_size x) max_size a b,
)

length-reverse : (xs : List Header) → length (reverse xs) ≡ length xs
length-reverse [] = refl
length-reverse (x ∷ xs) = omega (
  arith,
  ap length (reverse-append (x ∷ []) xs),
  length-append (reverse xs) (x ∷ []),
  length-reverse xs,
)

-- With an exact account, eviction keeps a run of the most recent entries, which fits the limit and
-- whose size is the new account, and every run of the most recent entries that fits the limit is no
-- longer than the one kept.
pub evict_longest :
    (d : Decoder)
    → d.size ≡ total d.dynamic
    → ((gone : List Header) × (d.dynamic ≡ (evict d).dynamic ++ gone))
      × (total (evict d).dynamic ≤ d.max_size)
      × ((evict d).size ≡ total (evict d).dynamic)
      × ((recent old : List Header)
          → d.dynamic ≡ recent ++ old
          → total recent ≤ d.max_size
          → length recent ≤ length (evict d).dynamic)
unfolding evict
evict_longest d e =
    let older = reverse d.dynamic in
    let kept = (evict_loop older d.size d.max_size).0 in
    let (gone, p) = evict_loop-suffix older d.size d.max_size in
    let counted : d.size ≡ total older = e ∙ sym (total-reverse d.dynamic) in
    let (exact, within) = evict_loop_exact older d.size d.max_size counted in
    (
      (reverse gone, sym (reverse-reverse d.dynamic) ∙ ap reverse p ∙ reverse-append gone kept),
      omega (arith, total-reverse kept, exact, within),
      exact ∙ sym (total-reverse kept),
      λ recent old q h.
          let split : older ≡ reverse old ++ reverse recent =
            ap reverse q ∙ reverse-append recent old in
          let fits : total (reverse recent) ≤ d.max_size = omega (arith, total-reverse recent) in
          omega (
            arith,
            length-reverse recent,
            length-reverse kept,
            evict_loop-longest older d.size d.max_size (reverse old) (reverse recent) counted split
                fits,
          ),
    )
