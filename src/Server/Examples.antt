-- ===== src/Server/Examples.antt =====
-- Runs of the rate limit, and its theorems at concrete inputs.
use Prim.Native.Nat.{min}
use oxi_serve.Base.{ℕ, ◌-◌, ◌%◌, ◌^◌, ◌≡◌, ◌≢◌, refl, false, [], ◌∷◌}
use oxi_serve.Server.LimitReq.{Limits, pack, unpack, bump_word, step}
use oxi_serve.Server.LimitReq.{Zone, hash_key, check}
use oxi_serve.Server.LimitReq.Table.{Touches, check-Touches}
use oxi_serve.Server.LimitReq.Word.{unpack-pack}
use oxi_serve.Server.LimitReq.Rate.{serve}

-- Ten requests in a second, with a burst of two.
abbrev limits : Limits
limits = record { rate = 10000; burst = 2000; nodelay = false; delay_after = 0 }

serve_run : (serve limits (pack 0 0) (0 ∷ 1 ∷ 2 ∷ 3 ∷ 200 ∷ [])).0 ≡ 3
unfolding serve bump_word pack unpack step
serve_run = refl

unpack-pack_example : (unpack (pack 5 7) ≡ (5 % 2 ^ 39, min 7 (2 ^ 24 - 1))) × (pack 5 7 ≢ 0)
unpack-pack_example = unpack-pack 5 7

abbrev empty_zone : Zone
empty_zone = record { slots = 64; seed = 1; mem = λ i. record { hash = 0; word = 0 } }

check-Touches_example :
    (slot : ℕ) × Touches empty_zone
      (hash_key empty_zone (7 ∷ []))
      slot
      (check limits empty_zone (7 ∷ []) 5)
check-Touches_example = check-Touches limits empty_zone (7 ∷ []) 5
