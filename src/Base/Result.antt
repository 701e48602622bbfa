-- ===== src/Base/Result.antt =====
-- Rust's `Result<A, E>` and its `?`.
use mathlib.Core.Path.{◌≡◌, refl}
use mathlib.Core.Logic.{◌⊎◌, inl, inr}

pub data Result {ℓ κ} (E : Type ℓ) (A : Type κ) : Type (ℓ ⊔ κ) where
  err : E → Result E A
  ok : A → Result E A

infixl 5 ◌>>=◌ ◌>>◌
abbrev pub ◌>>=◌ {ℓ κ ι} :
    {A : Type κ} {B : Type ι} {E : Type ℓ} → Result E A → (A → Result E B) → Result E B
err code >>= next = err code
ok value >>= next = next value

abbrev pub ◌>>◌ {ℓ κ ι} :
    {A : Type κ} {B : Type ι} {E : Type ℓ} → Result E A → Result E B → Result E B
err code >> next = err code
ok value >> next = next

-- What a chain of two fallible steps succeeded by.
pub >>=-eq-ok {ℓ κ ι} :
    {E : Type ℓ} {A : Type κ} {B : Type ι} (first : Result E A) (next : A → Result E B) {out : B}
    → (first >>= next) ≡ ok out
    → (a : A) × (first ≡ ok a) × (next a ≡ ok out)
>>=-eq-ok (err code) next q = cc
>>=-eq-ok (ok value) next q = (value, refl, q)

pub Result-cases {ℓ κ} :
    {E : Type ℓ} {A : Type κ} (r : Result E A) → ((a : A) × (r ≡ ok a)) ⊎ ((e : E) × (r ≡ err e))
Result-cases (ok a) = inl (a, refl)
Result-cases (err e) = inr (e, refl)

pub ok_inj {ℓ ℓ'} : {E : Type ℓ} {A : Type ℓ'} {a b : A} → Path (Result E A) (ok a) (ok b) → a ≡ b
ok_inj e = cc
