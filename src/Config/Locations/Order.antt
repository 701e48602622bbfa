-- ===== src/Config/Locations/Order.antt =====
-- src/config/model.rs: paths in the order of `cmp`, which is total and transitive.
use Prim.Native.Nat.{Ordering}
use oxi_serve.Base.{true, false, [], ◌∷◌, ◌≡◌, refl, arith}
use oxi_serve.Base.Bytes.{Bytes}
use oxi_serve.Config.Locations.{cmp, not_gt}

pub cmp_refl : (a : Bytes) → cmp a a ≡ Ordering.eq
unfolding cmp
cmp_refl [] = refl
cmp_refl (x ∷ xs) = let ih = cmp_refl xs in ground arith

pub cmp-eq : (a b : Bytes) → cmp a b ≡ Ordering.eq → a ≡ b
unfolding cmp
cmp-eq [] [] h = refl
cmp-eq [] (y ∷ ys) h = ground arith
cmp-eq (x ∷ xs) [] h = ground arith
cmp-eq (x ∷ xs) (y ∷ ys) h = let ih = cmp-eq xs ys in grind arith

-- At most the one, which is below the other.
pub le_lt_trans :
    (a b c : Bytes) → not_gt (cmp a b) ≡ true → cmp b c ≡ Ordering.lt → cmp a c ≡ Ordering.lt
unfolding cmp not_gt
le_lt_trans [] [] [] h k = k
le_lt_trans [] (y ∷ ys) [] h k = ground arith
le_lt_trans [] b (z ∷ zs) h k = refl
le_lt_trans (x ∷ xs) [] c h k = ground arith
le_lt_trans (x ∷ xs) (y ∷ ys) [] h k = ground arith
le_lt_trans (x ∷ xs) (y ∷ ys) (z ∷ zs) h k = let ih = le_lt_trans xs ys zs in ground arith

pub gt_le_trans :
    (a b c : Bytes) → cmp b c ≡ Ordering.gt → not_gt (cmp b a) ≡ true → cmp a c ≡ Ordering.gt
unfolding cmp not_gt
gt_le_trans a [] [] h k = ground arith
gt_le_trans a [] (z ∷ zs) h k = ground arith
gt_le_trans [] (y ∷ ys) c h k = ground arith
gt_le_trans (x ∷ xs) (y ∷ ys) [] h k = refl
gt_le_trans (x ∷ xs) (y ∷ ys) (z ∷ zs) h k = let ih = gt_le_trans xs ys zs in ground arith

pub not_gt_trans :
    (a b c : Bytes) → not_gt (cmp a b) ≡ true → not_gt (cmp b c) ≡ true → not_gt (cmp a c) ≡ true
unfolding cmp not_gt
not_gt_trans [] b [] h k = refl
not_gt_trans [] b (z ∷ zs) h k = refl
not_gt_trans (x ∷ xs) [] c h k = ground arith
not_gt_trans (x ∷ xs) (y ∷ ys) [] h k = ground arith
not_gt_trans (x ∷ xs) (y ∷ ys) (z ∷ zs) h k = let ih = not_gt_trans xs ys zs in ground arith

pub not_gt_total : (a b : Bytes) → not_gt (cmp a b) ≡ false → not_gt (cmp b a) ≡ true
unfolding cmp not_gt
not_gt_total [] [] h = refl
not_gt_total [] (y ∷ ys) h = ground arith
not_gt_total (x ∷ xs) [] h = refl
not_gt_total (x ∷ xs) (y ∷ ys) h = let ih = not_gt_total xs ys in ground arith
