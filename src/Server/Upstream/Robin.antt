-- ===== src/Server/Upstream/Robin.antt =====
-- src/server/upstream.rs: how often weighted round robin picks each candidate.
use oxi_serve.Base.{
  ℕ, zero, suc, ◌+◌, ◌-◌, ◌%◌, ◌^◌, ◌<◌, ◌≡◌, refl, ap, ◌∙◌, max, arith, Bool, true, false, List,
  [], ◌∷◌, Option, none, some,
}
use oxi_serve.Base.{ltb, ◌==◌, if◌then◌else◌}
use native.Mathlib.Nat.{mod-eq_of_lt}
use oxi_serve.Server.Upstream.{
  Upstream, round_robin, weight, total_weight, robin_slot, robin, pick_from,
}

-- How many numbers below `n` pass the test.
unfoldable pub tally : (ℕ → Bool) → ℕ → ℕ
tally f zero = 0
tally f (suc n) = (if f n then 1 else 0) + tally f n

-- What the entries equal to `i` weigh together: the weight of `i`, if it stands in the list once.
unfoldable pub share : (ℕ → ℕ) → ℕ → List ℕ → ℕ
share w i [] = 0
share w i (x ∷ xs) = (if x == i then w x else 0) + share w i xs

tally-add : (f : ℕ → Bool) (a b : ℕ) → tally f (a + b) ≡ tally f a + tally (λ s. f (a + s)) b
unfolding tally
tally-add f a zero = let e : a + 0 ≡ a = omega arith in rw e (omega arith)
tally-add f a (suc b) =
    let e : a + suc b ≡ suc (a + b) = omega arith in rw e (omega (arith, tally-add f a b))

tally-eq : (f g : ℕ → Bool) (n : ℕ) → ((s : ℕ) → s < n → f s ≡ g s) → tally f n ≡ tally g n
unfolding tally
tally-eq f g zero h = refl
tally-eq f g (suc n) h =
    let e : f n ≡ g n = h n (omega arith) in
    rw e (ap (λ t. (if g n then 1 else 0) + t) (tally-eq f g n (λ s lt. h s (omega arith))))

tally_all : (b : Bool) (n : ℕ) → tally (λ s. b) n ≡ (if b then n else 0)
unfolding tally
tally_all true zero = refl
tally_all true (suc n) = omega (arith, tally_all true n)
tally_all false zero = refl
tally_all false (suc n) = omega (arith, tally_all false n)

slots_shared :
    (w : ℕ → ℕ) (first i : ℕ) (xs : List ℕ)
    → tally (λ s. robin_slot w s first xs == i) (total_weight w xs) ≡ share w i xs
unfolding total_weight share
slots_shared w first i [] = unfold tally in refl
slots_shared w first i (x ∷ xs) =
    tally-add (λ s. robin_slot w s first (x ∷ xs) == i) (w x) (total_weight w xs)
    ∙ both
        (tally-eq (λ s. robin_slot w s first (x ∷ xs) == i) (λ s. x == i) (w x) here
          ∙ tally_all (x == i) (w x))
        (tally-eq (λ s. robin_slot w (w x + s) first (x ∷ xs) == i)
            (λ s. robin_slot w s first xs == i) (total_weight w xs) (λ s lt. past s)
          ∙ slots_shared w first i xs)
  where
    both : {a b c d : ℕ} → a ≡ c → b ≡ d → a + b ≡ c + d
    both p q = omega (arith, p, q)

    here : (s : ℕ) → s < w x → (robin_slot w s first (x ∷ xs) == i) ≡ (x == i)
    here s lt = unfold robin_slot in (let t : ltb s (w x) ≡ true = ground arith in rw t refl)

    past : (s : ℕ) → (robin_slot w (w x + s) first (x ∷ xs) == i) ≡ (robin_slot w s first xs == i)
    past s =
        unfold robin_slot in
        (let t : ltb (w x + s) (w x) ≡ false = ground arith in
          let d : w x + s - w x ≡ s = omega arith in rw (t, d) refl)

-- Below the total weight the cursor is the slot itself.
turn_of : (s n : ℕ) → s < n → n < 2 ^ 32 → (s % 2 ^ 32) % max (n % 2 ^ 32) 1 ≡ s
turn_of s n lt small =
    let narrow : s % 2 ^ 32 ≡ s = omega arith in
    let wide : n % 2 ^ 32 ≡ n = omega arith in
    let top : max n 1 ≡ n = omega arith in rw (narrow, wide, top) (mod-eq_of_lt lt)

-- Is this the candidate picked?
abbrev pub is_pick : Option ℕ → ℕ → Bool
is_pick none i = false
is_pick (some j) i = j == i

-- While the cursor runs through as many values as the candidates weigh together, from zero on,
-- round robin picks each candidate as many times as it weighs; the weights are within 32 bits.
pub pick_from_shared :
    (up : Upstream) (i c : ℕ) (cs : List ℕ) (hash : Option ℕ)
    → up.method ≡ round_robin
    → total_weight (weight up.peers) (c ∷ cs) < 2 ^ 32
    → tally
        (λ cursor. is_pick (pick_from up (c ∷ cs) hash cursor) i)
        (total_weight (weight up.peers) (c ∷ cs))
      ≡ share (weight up.peers) i (c ∷ cs)
unfolding pick_from
pick_from_shared up i c cs hash method small =
    let w = weight up.peers in
    let n = total_weight w (c ∷ cs) in
    tally-eq (λ cursor. is_pick (pick_from up (c ∷ cs) hash cursor) i)
      (λ s. robin_slot w s c (c ∷ cs) == i) n (λ s lt. slot s lt)
    ∙ slots_shared w c i (c ∷ cs)
  where
    slot :
        (s : ℕ)
        → s < total_weight (weight up.peers) (c ∷ cs)
        → is_pick (pick_from up (c ∷ cs) hash s) i
          ≡ (robin_slot (weight up.peers) s c (c ∷ cs) == i)
    slot s lt =
        let t : (s % 2 ^ 32) % max (total_weight (weight up.peers) (c ∷ cs) % 2 ^ 32) 1 ≡ s =
          turn_of s (total_weight (weight up.peers) (c ∷ cs)) lt small in
        rw (pick_from, method) (unfold robin in rw t refl)
