-- ===== src/Server/LimitReq/Table.antt =====
-- src/server/limit_req.rs: the probed table of a zone.
use Prim.Native.Nat.{bit_and}
use oxi_serve.Base.{
  ℕ, zero, suc, ◌+◌, ◌-◌, ◌%◌, ◌^◌, ◌<◌, ◌≡◌, ◌≢◌, ◌⊎◌, inl, inr, refl, ◌∙◌, arith, true, Option,
  none, some,
}
use oxi_serve.Base.{◌==◌, Bool-cases}
use oxi_serve.Base.Bytes.{Bytes}
use oxi_serve.Server.LimitReq.{
  Limits, Decision, Zone, Slot, unpack, probe_len, write_slot, hash_key, bump_word, bump, staler,
  claim, evict, probe, check,
}

-- What one request may do to a zone's table: it answers, and it changes at most one slot, which
-- then holds the request's hash. Rate, size and seed stay.
pub record Touches (z : Zone) (h slot : ℕ) (r : Option (Zone × Decision)) : Type 0 where
  pub zone : Zone
  pub decision : Decision
  pub answer : r ≡ some (zone, decision)
  pub others : (j : ℕ) → j ≢ slot → zone.mem j ≡ z.mem j
  pub held : (zone.mem slot).hash ≡ h
  pub slots : zone.slots ≡ z.slots
  pub seed : zone.seed ≡ z.seed

write_slot-other : (z : Zone) (i j : ℕ) (s : Slot) → j ≢ i → (write_slot z i s).mem j ≡ z.mem j
unfolding write_slot
write_slot-other z i j s apart = ground arith

write_slot-here : (z : Zone) (i : ℕ) (s : Slot) → (write_slot z i s).mem i ≡ s
unfolding write_slot
write_slot-here z i s = ground arith

bump-Touches :
    (l : Limits) (z : Zone) (i h now : ℕ)
    → (z.mem i).hash ≡ h
    → Touches z h i (some (bump l z i h now))
unfolding bump
bump-Touches l z i h now hit =
    let here : ((z.mem i).hash == h) ≡ true = ground arith in
    let w = bump_word l now (z.mem i).word in
    let s : Slot = record { hash = h; word = w.0 } in
    record {
      zone = write_slot z i s;
      decision = w.1;
      answer = rw here refl;
      others = λ j apart. write_slot-other z i j s apart;
      held = rw (write_slot-here z i s) refl;
      slots = refl;
      seed = refl;
    }

staler-some : (o : Option (ℕ × ℕ)) (i last : ℕ) → staler o i last ≢ none
unfolding staler
staler-some none i last q = cc
staler-some (some (j, l)) i last q = ground arith

claim-Touches : (l : Limits) (z : Zone) (i h now : ℕ) → Touches z h i (some (claim l z i h now))
unfolding claim write_slot
claim-Touches l z i h now =
    let s : Slot = record { hash = h; word = 0 } in
    let t = bump-Touches l (write_slot z i s) i h now (rw (write_slot-here z i s) refl) in
    record {
      zone = t.zone;
      decision = t.decision;
      answer = t.answer;
      others = λ j apart. t.others j apart ∙ write_slot-other z i j s apart;
      held = t.held;
      slots = t.slots;
      seed = t.seed;
    }

-- The probe ends in a slot: at the latest in the stalest one, of which there is one as soon as
-- the walk has made a step.
probe-Touches :
    (l : Limits) (z : Zone) (h now left p : ℕ) (stalest : Option (ℕ × ℕ))
    → (stalest ≢ none) ⊎ (0 < left)
    → (slot : ℕ) × Touches z h slot (probe l z h now left p stalest)
unfolding probe evict
probe-Touches l z h now zero p none (inl some_stale) = absurd (some_stale refl)
probe-Touches l z h now zero p none (inr more) = absurd (omega arith)
probe-Touches l z h now zero p (some (i, last)) c = (i, claim-Touches l z i h now)
probe-Touches l z h now (suc left) p stalest c =
    let i = bit_and ((h + p) % 2 ^ 64) (z.slots - 1) in
    elim (Bool-cases ((z.mem i).hash == h)) [
      | inl hit ↦ rw hit ((i, bump-Touches l z i h now (ground arith)))
      | inr miss ↦ elim (Bool-cases ((z.mem i).hash == 0)) [
        | inl empty ↦ rw (miss, empty) ((i, claim-Touches l z i h now))
        | inr taken ↦
            rw (miss, taken)
              (probe-Touches l z h now left (suc p) (staler stalest i (unpack (z.mem i).word).0)
                (inl (staler-some stalest i (unpack (z.mem i).word).0)))
      ]
    ]

-- A request is always answered, so the `expect` on the stalest slot holds. It changes at most one
-- slot of the zone, which then holds the hash of its key, and neither size nor seed.
pub check-Touches :
    (l : Limits) (z : Zone) (key : Bytes) (now : ℕ)
    → (slot : ℕ) × Touches z (hash_key z key) slot (check l z key now)
unfolding check
check-Touches l z key now =
    probe-Touches l z (hash_key z key) now probe_len 0 none (inr (omega arith))
