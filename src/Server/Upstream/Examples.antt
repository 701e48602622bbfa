-- ===== src/Server/Upstream/Examples.antt =====
-- Runs of the choice of a peer and of the pool, and their theorems at concrete inputs.
use oxi_serve.Base.{ℕ, ◌≡◌, ◌⊎◌, ◌<◌, refl, arith, Bool, true, false, [], ◌∷◌, none, some}
use oxi_serve.Base.{leb}
use oxi_serve.Server.Upstream.{
  healthy, is_down, Peer, round_robin, Upstream, weight, total_weight, pick_from, robin, robin_slot,
  indices, is_candidate, contains, or_else, select_excluding,
}
use oxi_serve.Server.Upstream.Health.{
  fail_at, fail_at_lem, probe_all, probe_all-verdict, streak, verdict,
}
use oxi_serve.Server.Upstream.Select.{Choice, select_excluding-Choice}
use oxi_serve.Server.Upstream.Robin.{tally, share, is_pick, pick_from_shared}
use oxi_serve.Server.Upstream.Pool.{
  Pool, Reach, here, next, puts, waits, put, take, IsSound, newest_good, or_default, Reach-IsSound,
  take_lem,
}

abbrev peer : ℕ → Bool → Peer
peer w backup = record {
  server = record { sticky_id = w ∷ []; weight = w; backup = backup; down = false };
  health = healthy;
}

abbrev two_and_spare : Upstream
two_and_spare = record {
  peers = peer 5 false ∷ peer 1 false ∷ peer 1 true ∷ [];
  method = round_robin;
  sticky = false;
}

-- Once the two primary peers were tried, the spare one is next.
spare_run : select_excluding two_and_spare 0 none 7 (0 ∷ 1 ∷ []) ≡ some 2
unfolding select_excluding pick_from robin robin_slot indices is_candidate is_down contains weight
    total_weight or_else
spare_run = refl

select_excluding-Choice_example :
    Choice two_and_spare 0 (0 ∷ 1 ∷ []) (select_excluding two_and_spare 0 none 7 (0 ∷ 1 ∷ []))
select_excluding-Choice_example = select_excluding-Choice two_and_spare 0 (0 ∷ 1 ∷ []) none 7

pick_from_shared_example :
    tally
      (λ cursor. is_pick (pick_from two_and_spare (0 ∷ 1 ∷ []) none cursor) 0)
      (total_weight (weight two_and_spare.peers) (0 ∷ 1 ∷ []))
    ≡ share (weight two_and_spare.peers) 0 (0 ∷ 1 ∷ [])
unfolding total_weight weight
pick_from_shared_example = pick_from_shared two_and_spare 0 0 (1 ∷ []) none refl (omega arith)

abbrev max_three : ℕ
max_three = 3

fail_at_lem_example :
    ((max_three ≡ 0) × (fail_at healthy max_three 10000 (100 ∷ 200 ∷ 300 ∷ []) ≡ healthy))
    ⊎ ((0 < max_three)
        × ((fail_at healthy max_three 10000 (100 ∷ 200 ∷ 300 ∷ [])).fails ≡ 3)
        × ((fail_at healthy max_three 10000 (100 ∷ 200 ∷ 300 ∷ [])).down_until_ms ≡ 10300))
fail_at_lem_example =
    fail_at_lem healthy max_three 10000 100 (200 ∷ 300 ∷ []) refl (omega arith) (omega arith)
      ((omega arith, omega arith, omega arith), ((omega arith, omega arith, omega arith), tt))

probe_all-verdict_example :
    ((probe_all healthy 2 2 (false ∷ false ∷ true ∷ [])).probe_fails
      ≡ streak false (false ∷ false ∷ true ∷ []))
    × ((probe_all healthy 2 2 (false ∷ false ∷ true ∷ [])).probe_passes
        ≡ streak true (false ∷ false ∷ true ∷ []))
    × ((probe_all healthy 2 2 (false ∷ false ∷ true ∷ [])).probe_down
        ≡ verdict 2 2 (false ∷ false ∷ true ∷ []))
probe_all-verdict_example = probe_all-verdict 2 2 (false ∷ false ∷ true ∷ []) (omega arith)

-- Streams are numbers, and those above nine are dead.
abbrev alive : ℕ → Bool
alive s = leb s 9

abbrev empty_pool : Pool ℕ
empty_pool addr = none

empty_pool-IsSound : (k : ℕ) → IsSound alive k (0, empty_pool)
unfolding or_default
empty_pool-IsSound k addr = (tt, omega arith)

abbrev full_pool : Pool ℕ
full_pool = put alive (put alive empty_pool (1 ∷ []) 3 2 0) (1 ∷ []) 4 2 20000

filled : Reach alive 2 (0, empty_pool) (35000, full_pool)
filled =
    next
      (next
        (next (next here (puts 0 empty_pool (1 ∷ []) 3))
          (waits 0 20000 (put alive empty_pool (1 ∷ []) 3 2 0)))
        (puts 20000 (put alive empty_pool (1 ∷ []) 3 2 0) (1 ∷ []) 4))
      (waits 20000 15000 full_pool)

Reach-IsSound_example : IsSound alive 2 (35000, full_pool)
Reach-IsSound_example = Reach-IsSound alive 2 (omega arith) (empty_pool-IsSound 2) filled

take_lem_example :
    (take alive full_pool (1 ∷ []) 35000).0
    ≡ newest_good alive 35000 (or_default (full_pool (1 ∷ [])))
take_lem_example =
    take_lem alive 2 (0, empty_pool) 35000 full_pool (1 ∷ []) (omega arith) (empty_pool-IsSound 2)
      filled
