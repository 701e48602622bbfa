-- ===== src/Http2/Hpack/Table/Bounds.antt =====
-- src/http2/hpack.rs: the table's account of its size, under each operation.
use mathlib.Core.List.{reverse, reverse-append}
use oxi_serve.Base.{ℕ, ◌+◌, ◌-◌, ◌≤◌, ◌≡◌, refl, sym, ap, ◌∙◌, arith, List, [], ◌∷◌, ◌++◌}
use oxi_serve.Base.{ltb, Bool-cases, ltb→le, inl, inr}
use oxi_serve.Http2.Hpack.Static.{Header}
use oxi_serve.Http2.Hpack.Table.{entry_size, Decoder, evict_loop, evict, set_max_size, insert}

-- The size of a list of entries.
abbrev pub total : List Header → ℕ
total [] = 0
total (h ∷ hs) = entry_size h + total hs

pub total-append : (xs ys : List Header) → total (xs ++ ys) ≡ total xs + total ys
total-append [] ys = omega arith
total-append (x ∷ xs) ys = omega (arith, total-append xs ys)

pub total-reverse : (xs : List Header) → total (reverse xs) ≡ total xs
total-reverse [] = refl
total-reverse (x ∷ xs) = omega (
  arith,
  ap total (reverse-append (x ∷ []) xs),
  total-append (reverse xs) (x ∷ []),
  total-reverse xs,
)

-- The account is exact, and the table is within its limit, which is within the advertised one.
pub record IsValid (d : Decoder) : Type 0 where
  pub exact : d.size ≡ total d.dynamic
  pub within : d.size ≤ d.max_size
  pub agreed : d.max_size ≤ d.settings_max

-- Evicting with an exact account leaves an exact account within the limit: the subtraction never
-- goes below zero, and the empty table is reached with the account at zero.
pub evict_loop_exact :
    (older : List Header) (size max_size : ℕ)
    → size ≡ total older
    → ((evict_loop older size max_size).1 ≡ total (evict_loop older size max_size).0)
      × ((evict_loop older size max_size).1 ≤ max_size)
unfolding evict_loop
evict_loop_exact [] size max_size e = ground arith
evict_loop_exact (h ∷ older) size max_size e =
    ground (arith, evict_loop_exact older (size - entry_size h) max_size)

evict-IsValid :
    (d : Decoder) → d.size ≡ total d.dynamic → d.max_size ≤ d.settings_max → IsValid (evict d)
unfolding evict
evict-IsValid d e a =
    let h =
      evict_loop_exact (reverse d.dynamic) d.size d.max_size (e ∙ sym (total-reverse d.dynamic)) in
    record {
      exact = h.0 ∙ sym (total-reverse (evict_loop (reverse d.dynamic) d.size d.max_size).0);
      within = h.1;
      agreed = a;
    }

-- Inserting keeps the account exact and the table within its limit, for an entry of any size.
pub insert-IsValid : (d : Decoder) (h : Header) → IsValid d → IsValid (insert d h)
unfolding insert
insert-IsValid d h v = elim (Bool-cases (ltb d.max_size (entry_size h))) [
  | inl large ↦ rw large (omega arith)
  | inr fits ↦ rw fits (
      evict-IsValid (record d { size = d.size + entry_size h; dynamic = h ∷ d.dynamic })
        (omega arith) v.agreed)
]

-- A new advertised size keeps the account exact, and the table within the old and the new limit.
pub set_max_size-IsValid : (d : Decoder) (n : ℕ) → IsValid d → IsValid (set_max_size d n)
unfolding set_max_size
set_max_size-IsValid d n v = elim (Bool-cases (ltb n d.max_size)) [
  | inl lower ↦
      rw lower (evict-IsValid (record d { settings_max = n; max_size = n }) v.exact (omega arith))
  | inr higher ↦
      rw higher (record { exact = v.exact; within = v.within; agreed = ltb→le n d.max_size higher })
]

-- A size update of the peer, which the decoder accepts up to the advertised size.
pub resize-IsValid :
    (d : Decoder) (n : ℕ)
    → IsValid d
    → n ≤ d.settings_max
    → IsValid (evict (record d { max_size = n }))
resize-IsValid d n v h = evict-IsValid (record d { max_size = n }) v.exact h
