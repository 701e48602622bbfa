-- ===== src/Server/LimitConn/Examples.antt =====
-- Runs of the count of requests in flight, and its theorem at a concrete state.
use oxi_serve.Base.{ℕ, zero, suc, ◌+◌, ◌≡◌, refl, arith, List, [], ◌∷◌, none}
use oxi_serve.Base.{◌==◌, if◌then◌else◌}
use oxi_serve.Server.LimitConn.{
  Zone, Mem, Task, Phase, arrives, acts, here, next, empty, acquire, act, pack, tag_of, count_of,
  slot, write, go_on, after_probe, note_reusable, probing, holding,
}
use oxi_serve.Server.LimitConn.Exact.{IsExact, Reach-IsExact}

abbrev zone : Zone
zone = record { slots = 64; seed = 1 }

-- The client 1.2.
abbrev key : List ℕ
key = 49 ∷ 46 ∷ 50 ∷ []

abbrev entered : Task
entered = acquire zone key 1

Reach-IsExact_example :
    IsExact 1
      (record { mem = (act zone (λ i. 0) entered).0; tasks = (act zone (λ i. 0) entered).1 ∷ [] })
Reach-IsExact_example =
    Reach-IsExact 1 zone (omega arith) (omega arith)
      (next (next here (arrives empty key)) (acts (λ i. 0) [] entered []))

-- A task on its own for a number of accesses.
unfoldable run_alone : ℕ → Mem × Task → Mem × Task
run_alone zero s = s
run_alone (suc n) s = run_alone n (act zone s.0 s.1)

-- A request of tag 5 with a limit of one.
abbrev newcomer : Task
newcomer = record { tag = 5; limit = 1; at = probing 0 none }

-- The window of tag 5 is full of other tags; slot 6 is finished, and the slot 5 is as said.
abbrev window : ℕ → Mem
window first i = if i == 5 then pack 69 first else if i == 6 then pack 70 0 else pack (i + 640) 1

-- One request has probed while slot 5 was busy; a second one comes when it is finished, and takes it;
-- then the first takes slot 6. Both are admitted, although they have one tag and a limit of one.
abbrev second_then_first : Mem × Task → Mem × Task → Phase × Phase
second_then_first first second = (second.1.at, (run_alone 2 (second.0, first.1)).1.at)

two_slots :
    second_then_first (run_alone 16 (window 1, newcomer)) (run_alone 18 (window 0, newcomer))
    ≡ (holding 5, holding 6)
unfolding run_alone act slot write go_on after_probe note_reusable pack tag_of count_of
two_slots = refl
