-- ===== src/Config/Hosts/Longest.antt =====
-- src/config/model.rs: the first of the names of a listener, and the longest, with their servers.
use oxi_serve.Base.{
  ℕ, Bool, List, [], ◌∷◌, ◌++◌, ◌≡◌, refl, sym, ap, ◌∙◌, inl, inr, Bool-cases, Option, none, some,
}
use oxi_serve.Base.{ltb, if◌then◌else◌, arith}

module _ {C : Type 0} where
  -- The later one only where it is longer.
  unfoldable pub combine : Option (ℕ × C) → Option (ℕ × C) → Option (ℕ × C)
  combine none r = r
  combine (some a) none = some a
  combine (some (n, a)) (some (m, b)) = if ltb n m then some (m, b) else some (n, a)

  unfoldable pub candidate : Option ℕ → C → Option (ℕ × C)
  candidate none c = none
  candidate (some n) c = some (n, c)

  pub combine_assoc : (a b c : Option (ℕ × C)) → combine (combine a b) c ≡ combine a (combine b c)
  unfolding combine
  combine_assoc none b c = refl
  combine_assoc (some a) none c = refl
  combine_assoc (some (n, a)) (some (m, b)) none = ground arith
  combine_assoc (some (n, a)) (some (m, b)) (some (k, c)) = ground arith

module _ {C : Type 0} where
  unfoldable pub of_best : Option (ℕ × C) → Option C
  of_best none = none
  of_best (some (n, c)) = some c

  unfoldable pub or_else : Option C → Option C → Option C
  or_else none b = b
  or_else (some a) b = some a

module _ {A C : Type 0} where
  unfoldable pub first : (A → Bool) → List (A × C) → Option C
  first test [] = none
  first test ((a, c) ∷ rest) = let later = first test rest in if test a then some c else later

  unfoldable pub longest : (A → Option ℕ) → List (A × C) → Option (ℕ × C)
  longest measure [] = none
  longest measure ((a, c) ∷ rest) = combine (candidate (measure a) c) (longest measure rest)

  pub first-append :
      (test : A → Bool) (xs ys : List (A × C))
      → first test (xs ++ ys) ≡ or_else (first test xs) (first test ys)
  unfolding first or_else
  first-append test [] ys = refl
  first-append test ((a, c) ∷ xs) ys =
      let ih = first-append test xs ys in
      elim (Bool-cases (test a)) [ inl e ↦ rw e refl | inr e ↦ rw e ih ]

  pub longest-append :
      (measure : A → Option ℕ) (xs ys : List (A × C))
      → longest measure (xs ++ ys) ≡ combine (longest measure xs) (longest measure ys)
  unfolding longest combine
  longest-append measure [] ys = refl
  longest-append measure ((a, c) ∷ xs) ys =
      ap (combine (candidate (measure a) c)) (longest-append measure xs ys)
      ∙ sym (combine_assoc (candidate (measure a) c) (longest measure xs) (longest measure ys))
