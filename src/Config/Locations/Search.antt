-- ===== src/Config/Locations/Search.antt =====
-- src/config/model.rs: the binary search for an exact location, and the scans for a prefix and a
-- regular expression, on the sets of `loc_set`.
use Prim.Native.Nat.{Ordering}
use mathlib.Core.Option.{some-injective}
use oxi_serve.Base.{
  ℕ, zero, suc, ◌+◌, ◌-◌, ◌/◌, ◌<◌, ◌≤◌, true, false, List, [], ◌∷◌, ◌≡◌, ◌≢◌, refl, sym, ◌∙◌, inl,
  inr, ◌⊎◌, Bool-cases, Option-cases, All, Option, some, none, get_elem?, length, ltb, ltb→lt,
  ltb→le, arith,
}
use oxi_serve.Base.Bytes.{Bytes}
use oxi_serve.Config.Locations.{Location, cmp, not_gt, search, probe, prefix_of, path_order}
use oxi_serve.Config.Locations.Sort.{IsSorted, All-get_elem?, get_elem?-IsSorted}
use oxi_serve.Config.Locations.Order.{not_gt_trans, not_gt_total, le_lt_trans, gt_le_trans}

eq_or_lt : (i j : ℕ) → i < j + 1 → (i ≡ j) ⊎ (i < j)
eq_or_lt i j h = grind arith

lt_or_le : (i j : ℕ) → (i < j) ⊎ (j ≤ i)
lt_or_le i j = grind arith

Ordering-cases : (o : Ordering) → (o ≡ Ordering.lt) ⊎ ((o ≡ Ordering.eq) ⊎ (o ≡ Ordering.gt))
Ordering-cases Ordering.lt = inl refl
Ordering-cases Ordering.eq = inr (inl refl)
Ordering-cases Ordering.gt = inr (inr refl)

module _ {Regex S : Type 0} where
  pub path_order_trans :
      (a b c : Location Regex S)
      → path_order a b ≡ true
      → path_order b c ≡ true
      → path_order a c ≡ true
  unfolding path_order
  path_order_trans a b c = not_gt_trans (prefix_of a) (prefix_of b) (prefix_of c)

  pub path_order_total : (a b : Location Regex S) → path_order a b ≡ false → path_order b a ≡ true
  unfolding path_order
  path_order_total a b = not_gt_total (prefix_of a) (prefix_of b)

  get_elem?-length :
      (ls : List (Location Regex S)) (i : ℕ)
      → i < length ls
      → (l : Location Regex S) × (get_elem? ls i ≡ some l)
  get_elem?-length [] i h = absurd (omega arith)
  get_elem?-length (x ∷ xs) zero h = (x, refl)
  get_elem?-length (x ∷ xs) (suc i) h = get_elem?-length xs i (omega arith)

  get_elem?-past :
      (ls : List (Location Regex S)) (i : ℕ) (a : Location Regex S)
      → length ls ≤ i
      → get_elem? ls i ≢ some a
  get_elem?-past [] i a h e = ground arith
  get_elem?-past (x ∷ xs) zero a h e = omega arith
  get_elem?-past (x ∷ xs) (suc i) a h e = get_elem?-past xs i a (omega arith) e

  none-some : (a : Location Regex S) → none ≢ some a
  none-some a e = ground arith

  -- The elements before `n` are below the path.
  IsBelow : Bytes → ℕ → List (Location Regex S) → Type 0
  IsBelow uri n ls =
      (i : ℕ) (a : Location Regex S)
      → i < n
      → get_elem? ls i ≡ some a
      → cmp (prefix_of a) uri ≡ Ordering.lt

  IsAbove : Bytes → ℕ → List (Location Regex S) → Type 0
  IsAbove uri n ls =
      (i : ℕ) (a : Location Regex S)
      → n ≤ i
      → get_elem? ls i ≡ some a
      → cmp (prefix_of a) uri ≡ Ordering.gt

  unfoldable pub IsMissed : Bytes → List (Location Regex S) → Type 0
  IsMissed uri ls =
      (i : ℕ) (a : Location Regex S) → get_elem? ls i ≡ some a → cmp (prefix_of a) uri ≢ Ordering.eq

  module _ (uri : Bytes) (ls : List (Location Regex S)) (sorted : IsSorted path_order ls) where
    earlier :
        (i j : ℕ) (a b : Location Regex S)
        → get_elem? ls i ≡ some a
        → get_elem? ls j ≡ some b
        → i < j
        → not_gt (cmp (prefix_of a) (prefix_of b)) ≡ true
    unfolding path_order
    earlier i j a b ha hb =
        get_elem?-IsSorted path_order path_order_trans path_order_total ls i j a b sorted ha hb

    IsBelow-probe :
        (i : ℕ) (m : Location Regex S)
        → get_elem? ls i ≡ some m
        → cmp (prefix_of m) uri ≡ Ordering.lt
        → IsBelow uri (i + 1) ls
    unfolding IsBelow
    IsBelow-probe i m hm lt j a h ha = elim (eq_or_lt j i h) [
      | inl e ↦ rw (some-injective m a (sym hm ∙ (rw e at ha))) at lt
      | inr p ↦ le_lt_trans (prefix_of a) (prefix_of m) uri (earlier j i a m ha hm p) lt
    ]

    IsAbove-probe :
        (i : ℕ) (m : Location Regex S)
        → get_elem? ls i ≡ some m
        → cmp (prefix_of m) uri ≡ Ordering.gt
        → IsAbove uri i ls
    unfolding IsAbove
    IsAbove-probe i m hm gt j a h ha = elim (eq_or_lt i j (omega arith)) [
      | inl e ↦ rw (some-injective m a (sym hm ∙ (rw (← e) at ha))) at gt
      | inr p ↦ gt_le_trans (prefix_of a) (prefix_of m) uri gt (earlier i j m a hm ha p)
    ]

    probe-IsMissed :
        (i : ℕ) (m : Location Regex S) (below above : Option (Location Regex S))
        → get_elem? ls i ≡ some m
        → (cmp (prefix_of m) uri ≡ Ordering.lt → above ≡ none → IsMissed uri ls)
        → (cmp (prefix_of m) uri ≡ Ordering.gt → below ≡ none → IsMissed uri ls)
        → probe uri (get_elem? ls i) below above ≡ none
        → IsMissed uri ls
    unfolding probe
    probe-IsMissed i m below above hm upper lower e =
        let q = rw hm at e in
        elim (Ordering-cases (cmp (prefix_of m) uri)) [
          | inl lt ↦ upper lt (rw (probe, lt) at q)
          | inr (inl eq) ↦ absurd (none-some m (sym (rw (probe, eq) at q)))
          | inr (inr gt) ↦ lower gt (rw (probe, gt) at q)
        ]

    IsMissed-closed :
        (lo hi : ℕ) → hi ≤ lo → IsBelow uri lo ls → IsAbove uri hi ls → IsMissed uri ls
    unfolding IsBelow IsAbove IsMissed
    IsMissed-closed lo hi h below above i a ha = elim (lt_or_le i lo) [
      | inl p ↦ let q = below i a p ha in ground arith
      | inr p ↦ let q = above i a (omega arith) ha in ground arith
    ]

    -- With fuel for each element between the ends, a search that finds nothing missed nothing.
    search-IsMissed :
        (fuel lo hi : ℕ)
        → hi ≤ length ls
        → hi - lo < fuel
        → IsBelow uri lo ls
        → IsAbove uri hi ls
        → search uri fuel lo hi ls ≡ none
        → IsMissed uri ls
    unfolding search
    search-IsMissed zero lo hi hl hf below above e = absurd (omega arith)
    search-IsMissed (suc fuel) lo hi hl hf below above e =
        let mid = lo + (hi - lo) / 2 in
        let lower = search-IsMissed fuel lo mid in
        let upper = search-IsMissed fuel (mid + 1) hi in
        elim (Bool-cases (ltb lo hi)) [
          | inl t ↦
              let lt = ltb→lt lo hi t in
              let (m, hm) = get_elem?-length ls mid (omega arith) in
              probe-IsMissed mid m (search uri fuel lo mid ls) (search uri fuel (mid + 1) hi ls) hm
                (λ c n. upper hl (omega arith) (IsBelow-probe mid m hm c) above n)
                (λ c n. lower (omega arith) (omega arith) below (IsAbove-probe mid m hm c) n)
                (rw t at e)
          | inr t ↦ IsMissed-closed lo hi (ltb→le lo hi t) below above
        ]

    pub search_complete : search uri (length ls + 1) 0 (length ls) ls ≡ none → IsMissed uri ls
    unfolding IsBelow IsAbove
    search_complete e =
        search-IsMissed (length ls + 1) 0 (length ls) (omega arith) (omega arith)
          (λ i a h. absurd (omega arith)) (λ i a h ha. absurd (get_elem?-past ls i a h ha)) e

  probe-found :
      (uri : Bytes) (P : Location Regex S → Type 0) (m : Location Regex S)
      (below above : Option (Location Regex S)) (l : Location Regex S)
      → P m
      → (below ≡ some l → P l × (cmp (prefix_of l) uri ≡ Ordering.eq))
      → (above ≡ some l → P l × (cmp (prefix_of l) uri ≡ Ordering.eq))
      → probe uri (some m) below above ≡ some l
      → P l × (cmp (prefix_of l) uri ≡ Ordering.eq)
  unfolding probe
  probe-found uri P m below above l pm lower upper e =
      elim (Ordering-cases (cmp (prefix_of m) uri)) [
        | inl lt ↦ upper (rw (probe, lt) at e)
        | inr (inl eq) ↦
            let same = some-injective m l (rw (probe, eq) at e) in (rw (← same) pm, rw (← same) eq)
        | inr (inr gt) ↦ lower (rw (probe, gt) at e)
      ]

  -- What the search returns is an element, and is the path.
  pub search-found :
      (uri : Bytes) (P : Location Regex S → Type 0) (fuel lo hi : ℕ) (ls : List (Location Regex S))
      (l : Location Regex S)
      → All P ls
      → search uri fuel lo hi ls ≡ some l
      → P l × (cmp (prefix_of l) uri ≡ Ordering.eq)
  unfolding search
  search-found uri P zero lo hi ls l h e = absurd (none-some l e)
  search-found uri P (suc fuel) lo hi ls l h e =
      let mid = lo + (hi - lo) / 2 in
      let lower = search-found uri P fuel lo mid ls l h in
      let upper = search-found uri P fuel (mid + 1) hi ls l h in
      elim (Bool-cases (ltb lo hi)) [
        | inl t ↦ elim (Option-cases (get_elem? ls mid)) [
          | inl n ↦ absurd (none-some l (rw (t, n) at e))
          | inr (m, hm) ↦
              probe-found uri P m (search uri fuel lo mid ls) (search uri fuel (mid + 1) hi ls) l
                (All-get_elem? P ls mid m h hm) lower upper (rw (t, hm) at e)
        ]
        | inr t ↦ absurd (none-some l (rw t at e))
      ]
