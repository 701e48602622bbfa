-- ===== src/Server/LimitReq/Rate.antt =====
-- src/server/limit_req.rs: what a bucket admits in a stretch of time.
use oxi_serve.Base.{ℕ, ◌+◌, ◌-◌, ◌*◌, ◌≤◌, ◌≡◌, ◌≢◌, ◌⊎◌, List, [], ◌∷◌}
use oxi_serve.Server.LimitReq.{Limits, Decision, pass, reject, delay, unpack, bump_word}

abbrev pub admitted : Decision → ℕ
admitted pass = 1
admitted reject = 0
admitted (delay ms) = 1

-- Requests at the times of the list: how many are admitted, and the word left.
unfoldable pub serve : Limits → ℕ → List ℕ → ℕ × ℕ
serve l w [] = (0, w)
serve l w (t ∷ ts) =
    let rest = serve l (bump_word l t w).0 ts in (admitted (bump_word l t w).1 + rest.0, rest.1)

-- Times in order, from `from` to `to`.
abbrev pub InOrder : ℕ → ℕ → List ℕ → Type 0
InOrder from to [] = from ≤ to
InOrder from to (t ∷ ts) = (from ≤ t) × InOrder t to ts

-- A word that was stored at `last` with the excess `e`.
abbrev pub Holds : ℕ → ℕ → ℕ → Type 0
Holds w last e = (w ≢ 0) × (unpack w ≡ (last, e))

-- One request is refused and leaves the word, or it is admitted and charged a whole request less
-- what has drained.
abbrev Charged : Limits → ℕ → ℕ → ℕ → ℕ → ℕ × Decision → Type 0
Charged l w last e t r =
    ((r.0 ≡ w) × (admitted r.1 ≡ 0))
    ⊎ ((e' : ℕ) × Holds r.0 t e'
        × (e' ≤ l.burst)
        × (1000 * e + 1000000 ≤ 1000 * e' + l.rate * (t - last))
        × (admitted r.1 ≡ 1))
