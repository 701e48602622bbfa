-- ===== src/Config/Locations/Sort.antt =====
-- src/config/build.rs: the sort of the locations, by a total and transitive order.
use oxi_serve.Base.{
  ℕ, Bool, true, false, List, [], ◌∷◌, ◌≡◌, inl, inr, Bool-cases, All, some, zero, suc, ◌<◌,
  get_elem?, arith,
}
use mathlib.Core.Option.{some-injective}
use oxi_serve.Config.Locations.{Location, insert_by, sort_by}

module _ {Regex S : Type 0} where
  -- What holds of the elements of a list holds of the sorted list's, and back.
  module _ {ℓ} (P : Location Regex S → Type ℓ)
      (le : Location Regex S → Location Regex S → Bool) where
    insert_by-All :
        (x : Location Regex S) (ys : List (Location Regex S))
        → P x
        → All P ys
        → All P (insert_by le x ys)
    unfolding insert_by
    insert_by-All x [] px _ = (px, tt)
    insert_by-All x (y ∷ ys) px (py, h) =
        let ih = insert_by-All x ys px h in
        elim (Bool-cases (le x y)) [ inl e ↦ rw e (px, (py, h)) | inr e ↦ rw e (py, ih) ]

    pub sort_by-All : (xs : List (Location Regex S)) → All P xs → All P (sort_by le xs)
    unfolding sort_by
    sort_by-All [] _ = tt
    sort_by-All (x ∷ xs) (px, h) = insert_by-All x (sort_by le xs) px (sort_by-All xs h)

    insert_by-back :
        (x : Location Regex S) (ys : List (Location Regex S))
        → All P (insert_by le x ys)
        → P x × All P ys
    unfolding insert_by
    insert_by-back x [] (px, _) = (px, tt)
    insert_by-back x (y ∷ ys) h = elim (Bool-cases (le x y)) [
      | inl e ↦ rw e at h
      | inr e ↦
          let (py, later) = rw e at h in let (px, hy) = insert_by-back x ys later in (px, (py, hy))
    ]

    pub sort_by-back : (xs : List (Location Regex S)) → All P (sort_by le xs) → All P xs
    unfolding sort_by
    sort_by-back [] _ = tt
    sort_by-back (x ∷ xs) h =
        let (px, later) = insert_by-back x (sort_by le xs) h in (px, sort_by-back xs later)

  -- Sorted: each element may stand before those behind it.
  unfoldable pub IsSorted :
      (Location Regex S → Location Regex S → Bool) → List (Location Regex S) → Type 0
  IsSorted le [] = Unit
  IsSorted le (x ∷ xs) = All (λ y. le x y ≡ true) xs × IsSorted le xs

  pub All-map :
      {P Q : Location Regex S → Type 0}
      → ((y : Location Regex S) → P y → Q y)
      → (xs : List (Location Regex S)) → All P xs
      → All Q xs
  All-map f [] _ = tt
  All-map f (x ∷ xs) (px, h) = (f x px, All-map f xs h)

  pub All-get_elem? :
      (P : Location Regex S → Type 0) (xs : List (Location Regex S)) (i : ℕ) (b : Location Regex S)
      → All P xs
      → get_elem? xs i ≡ some b
      → P b
  All-get_elem? P [] i b h e = absurd (ground arith)
  All-get_elem? P (x ∷ xs) zero b (px, h) e = rw (← some-injective x b e) px
  All-get_elem? P (x ∷ xs) (suc i) b (px, h) e = All-get_elem? P xs i b h e

  module _ (le : Location Regex S → Location Regex S → Bool)
      (trans : (a b c : Location Regex S) → le a b ≡ true → le b c ≡ true → le a c ≡ true)
      (total : (a b : Location Regex S) → le a b ≡ false → le b a ≡ true) where
    insert_by-IsSorted :
        (x : Location Regex S) (ys : List (Location Regex S))
        → IsSorted le ys
        → IsSorted le (insert_by le x ys)
    unfolding insert_by IsSorted
    insert_by-IsSorted x [] _ = (tt, tt)
    insert_by-IsSorted x (y ∷ ys) (hy, h) =
        let ih = insert_by-IsSorted x ys h in
        elim (Bool-cases (le x y)) [
          | inl e ↦ rw e ((e, All-map (λ z. trans x y z e) ys hy), (hy, h))
          | inr e ↦ rw e (insert_by-All (λ z. le y z ≡ true) le x ys (total x y e) hy, ih)
        ]

    pub sort_by-IsSorted : (xs : List (Location Regex S)) → IsSorted le (sort_by le xs)
    unfolding sort_by IsSorted
    sort_by-IsSorted [] = tt
    sort_by-IsSorted (x ∷ xs) = insert_by-IsSorted x (sort_by le xs) (sort_by-IsSorted xs)

    -- Of two elements of a sorted list, the earlier may stand before the later.
    pub get_elem?-IsSorted :
        (xs : List (Location Regex S)) (i j : ℕ) (a b : Location Regex S)
        → IsSorted le xs
        → get_elem? xs i ≡ some a
        → get_elem? xs j ≡ some b
        → i < j
        → le a b ≡ true
    unfolding IsSorted
    get_elem?-IsSorted [] i j a b h hi hj lt = absurd (ground arith)
    get_elem?-IsSorted (x ∷ xs) i zero a b h hi hj lt = absurd (omega arith)
    get_elem?-IsSorted (x ∷ xs) zero (suc j) a b (hx, h) hi hj lt =
        rw (← some-injective x a hi) (All-get_elem? (λ y. le x y ≡ true) xs j b hx hj)
    get_elem?-IsSorted (x ∷ xs) (suc i) (suc j) a b (hx, h) hi hj lt =
        get_elem?-IsSorted xs i j a b h hi hj (omega arith)
