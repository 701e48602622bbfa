-- ===== src/Server/LimitConn/Effects.antt =====
-- src/server/limit_conn.rs: what one access of a task does to the words and to its guard.
use oxi_serve.Base.{
  ℕ, ◌+◌, ◌^◌, ◌≤◌, ◌<◌, ◌≡◌, ◌≢◌, ◌⊎◌, refl, sym, ◌∙◌, arith, true, inl, inr, Option, none, some,
}
use oxi_serve.Base.{leb, ◌==◌, if◌then◌else◌, Bool-cases}
use oxi_serve.Server.LimitConn.{
  Mem, Phase, Task, pack, tag_of, count_of, max_conns, write, go_on, after_probe, bumping, taking,
  holding, releasing, lowering,
}
use oxi_serve.Server.LimitConn.Word.{tag_of-pack, count_of-pack}

-- One if the phase holds a guard on the slot `j`, until its release has taken effect.
unfoldable pub holds_at : ℕ → Phase → ℕ
holds_at j phase = elim phase [
  | holding i ↦ if i == j then 1 else 0
  | releasing i ↦ if i == j then 1 else 0
  | lowering i w ↦ if i == j then 1 else 0
  | _ ↦ 0
]

unfoldable pub holds : ℕ → Task → ℕ
holds j t = holds_at j t.at

-- What a task knows of the word that it read.
abbrev pub Knows : ℕ → ℕ → Phase → Type 0
Knows tag limit phase = elim phase [
  | bumping i w ↦ ((tag_of w ≡ tag) ⊎ (count_of w ≡ 0)) × (count_of w < limit)
  | taking i w ↦ count_of w ≡ 0
  | _ ↦ Unit
]

pub record Sane (ceiling : ℕ) (t : Task) : Type 0 where
  pub tag : t.tag < 2 ^ 48
  pub limit : t.limit ≤ ceiling
  pub knows : Knows t.tag t.limit t.at

-- The guard's slot has the guard's tag.
abbrev pub Fits : Mem → Task → Type 0
Fits mem t = (i : ℕ) → 0 < holds i t → tag_of (mem i) ≡ t.tag

-- What an access does: nothing to the words and to the guard; or it writes one slot, whose count
-- moves as the guards on it do, and whose tag changes only from a count of zero.
pub data Effect (ceiling : ℕ) (mem : Mem) (t : Task) (mem' : Mem) (t' : Task) : Type 0 where
  quiet :
      mem' ≡ mem
      → Sane ceiling t'
      → Fits mem t'
      → ((j : ℕ) → holds j t' ≡ holds j t)
      → Effect ceiling mem t mem' t'
  wrote :
      (i w : ℕ)
      → mem' ≡ write mem i w
      → Sane ceiling t'
      → t'.tag ≡ t.tag
      → tag_of w ≡ t.tag
      → ((tag_of w ≡ tag_of (mem i)) ⊎ (count_of (mem i) ≡ 0))
      → count_of w ≤ ceiling
      → holds i t' + count_of (mem i) ≡ holds i t + count_of w
      → ((j : ℕ) → j ≢ i → (holds j t ≡ 0) × (holds j t' ≡ 0))
      → Effect ceiling mem t mem' t'

-- A phase without a guard, in which nothing that was read is relied upon.
pub record IsFree (tag limit : ℕ) (at : Phase) : Type 0 where
  pub none_held : (j : ℕ) → holds_at j at ≡ 0
  pub knows : Knows tag limit at

pub go_on-IsFree : (tag limit p : ℕ) (r : Option ℕ) → IsFree tag limit (go_on p r)
unfolding go_on after_probe holds_at
go_on-IsFree tag limit p none = elim (Bool-cases (leb 16 p)) [
  | inl done ↦ rw done (record { none_held = λ j. refl; knows = tt })
  | inr more ↦ rw more (record { none_held = λ j. refl; knows = tt })
]
go_on-IsFree tag limit p (some i) = elim (Bool-cases (leb 16 p)) [
  | inl done ↦ rw done (record { none_held = λ j. refl; knows = tt })
  | inr more ↦ rw more (record { none_held = λ j. refl; knows = tt })
]

abbrev pub task : ℕ → ℕ → Phase → Task
task tag limit at = record { tag = tag; limit = limit; at = at }

module _ (ceiling : ℕ) (mem : Mem) (tag limit : ℕ) (pos : 0 < ceiling) (small : ceiling ≤ max_conns)
    (tag_small : tag < 2 ^ 48) (limit_small : limit ≤ ceiling) where
  -- From a phase without a guard to another.
  pub wander :
      (at at' : Phase)
      → IsFree tag limit at
      → IsFree tag limit at'
      → Effect ceiling mem (task tag limit at) mem (task tag limit at')
  unfolding holds
  wander at at' free free' =
      quiet refl (record { tag = tag_small; limit = limit_small; knows = free'.knows })
        (λ i held. absurd (omega (arith, held, free'.none_held i)))
        (λ j. free'.none_held j ∙ sym (free.none_held j))

  -- A guard is had by an exchange that writes the task's tag and one more request.
  pub grab :
      (at : Phase) (i c : ℕ)
      → ((j : ℕ) → holds_at j at ≡ 0)
      → c ≡ count_of (mem i) + 1
      → c ≤ ceiling
      → ((tag ≡ tag_of (mem i)) ⊎ (count_of (mem i) ≡ 0))
      → Effect ceiling mem
          (task tag limit at)
          (write mem i (pack tag c))
          (task tag limit (holding i))
  unfolding holds holds_at
  grab at i c free one_more fits_cap same =
      let t = tag_of-pack tag c tag_small (omega (arith, fits_cap, small)) in
      let n = count_of-pack tag c tag_small (omega (arith, fits_cap, small)) in
      let own : (i == i) ≡ true = ground arith in
      wrote i (pack tag c) refl (record { tag = tag_small; limit = limit_small; knows = tt }) refl t
        (rw t same) (rw n fits_cap) (rw (own, n, free i) (omega (arith, one_more)))
        (λ j apart. (free j, ground (arith, apart)))

  -- A guard stays on its slot.
  pub keep :
      (at at' : Phase)
      → Knows tag limit at'
      → Fits mem (task tag limit at)
      → ((j : ℕ) → holds_at j at' ≡ holds_at j at)
      → Effect ceiling mem (task tag limit at) mem (task tag limit at')
  unfolding holds
  keep at at' knows fits same =
      quiet refl (record { tag = tag_small; limit = limit_small; knows = knows })
        (λ i held. fits i (omega (arith, held, same i))) same
