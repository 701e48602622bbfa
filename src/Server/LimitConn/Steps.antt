-- ===== src/Server/LimitConn/Steps.antt =====
-- src/server/limit_conn.rs: the accesses of a task, phase by phase.
use oxi_serve.Base.{
  ℕ, ◌+◌, ◌-◌, ◌^◌, ◌≤◌, ◌<◌, ◌≡◌, ◌⊎◌, refl, sym, arith, true, false, not, ◌&&◌, ◌||◌, inl, inr,
  Option,
}
use oxi_serve.Base.{leb, ◌==◌, ==_iff, Bool-cases}
use oxi_serve.Server.LimitConn.{
  Zone, Mem, Phase, Task, pack, tag_of, count_of, count_mask, max_conns, slot, go_on, note_reusable,
  act, probing, claiming, incrementing, bumping, retaking, taking, holding, releasing, lowering,
  refused, over,
}
use oxi_serve.Server.LimitConn.Word.{tag_of-pack, count_of-pack, count_of_zero}
use oxi_serve.Server.LimitConn.Effects.{
  holds_at, holds, Knows, Sane, Fits, Effect, wrote, IsFree, go_on-IsFree, task, wander, grab, keep,
}

-- The word that `increment` goes on with has the task's tag, or is empty.
ours_or_zero :
    (w tag : ℕ)
    → (not (w == 0) && not (tag_of w == tag)) ≡ false
    → (tag_of w ≡ tag) ⊎ (count_of w ≡ 0)
ours_or_zero w tag ours = elim (Bool-cases (tag_of w == tag)) [
  | inl e ↦ inl ((==_iff (tag_of w) tag).0 e)
  | inr ne ↦ let z : w ≡ 0 = ground (arith, ours, ne) in inr (rw z count_of_zero)
]

room_left : (limit c m : ℕ) → (leb limit c || leb m c) ≡ false → c < limit
room_left limit c m room = ground arith

not_zero : (n : ℕ) → 0 < n → (n == 0) ≡ false
not_zero n live = ground arith

turned : (a b c : ℕ) → (a ≡ b) ⊎ (c ≡ 0) → (b ≡ a) ⊎ (c ≡ 0)
turned a b c (inl e) = inl (sym e)
turned a b c (inr z) = inr z

module _ (z : Zone) (ceiling : ℕ) (mem : Mem) (tag limit : ℕ) (pos : 0 < ceiling)
    (small : ceiling ≤ max_conns) (tag_small : tag < 2 ^ 48) (limit_small : limit ≤ ceiling) where
  step_probing :
      (p : ℕ) (r : Option ℕ)
      → Effect ceiling mem
          (task tag limit (probing p r))
          (act z mem (task tag limit (probing p r))).0
          (act z mem (task tag limit (probing p r))).1
  unfolding act holds_at
  step_probing p r =
      let i = slot z tag p in
      let free : IsFree tag limit (probing p r) = record { none_held = λ j. refl; knows = tt } in
      elim (Bool-cases (mem i == 0)) [
        | inl empty ↦ rw empty (
            wander ceiling mem tag limit pos small tag_small limit_small (probing p r)
              (claiming p r) free (record { none_held = λ j. refl; knows = tt }))
        | inr taken ↦ elim (Bool-cases (tag_of (mem i) == tag)) [
          | inl ours ↦
              rw (taken, ours)
                (wander ceiling mem tag limit pos small tag_small limit_small (probing p r)
                  (incrementing i) free (record { none_held = λ j. refl; knows = tt }))
          | inr other ↦
              rw (taken, other)
                (wander ceiling mem tag limit pos small tag_small limit_small (probing p r)
                  (go_on (p + 1) (note_reusable r i (mem i))) free
                  (go_on-IsFree tag limit (p + 1) (note_reusable r i (mem i))))
        ]
      ]

  step_claiming :
      (p : ℕ) (r : Option ℕ)
      → Effect ceiling mem
          (task tag limit (claiming p r))
          (act z mem (task tag limit (claiming p r))).0
          (act z mem (task tag limit (claiming p r))).1
  unfolding act holds_at
  step_claiming p r =
      let i = slot z tag p in
      let free : IsFree tag limit (claiming p r) = record { none_held = λ j. refl; knows = tt } in
      elim (Bool-cases (mem i == 0)) [
        | inl empty ↦
            let z0 : mem i ≡ 0 = (==_iff (mem i) 0).0 empty in
            let c0 : count_of (mem i) ≡ 0 = rw z0 count_of_zero in
            rw empty (
              grab ceiling mem tag limit pos small tag_small limit_small (claiming p r) i 1
                (λ j. refl) (omega (arith, c0)) pos (inr c0))
        | inr taken ↦ elim (Bool-cases (tag_of (mem i) == tag)) [
          | inl ours ↦
              rw (taken, ours)
                (wander ceiling mem tag limit pos small tag_small limit_small (claiming p r)
                  (incrementing i) free (record { none_held = λ j. refl; knows = tt }))
          | inr other ↦
              rw (taken, other)
                (wander ceiling mem tag limit pos small tag_small limit_small (claiming p r)
                  (go_on (p + 1) r) free (go_on-IsFree tag limit (p + 1) r))
        ]
      ]

  step_incrementing :
      (i : ℕ)
      → Effect ceiling mem
          (task tag limit (incrementing i))
          (act z mem (task tag limit (incrementing i))).0
          (act z mem (task tag limit (incrementing i))).1
  unfolding act holds_at
  step_incrementing i =
      let free : IsFree tag limit (incrementing i) = record { none_held = λ j. refl; knows = tt } in
      let refuse =
        wander ceiling mem tag limit pos small tag_small limit_small (incrementing i) refused free
          (record { none_held = λ j. refl; knows = tt }) in
      elim (Bool-cases (not (mem i == 0) && not (tag_of (mem i) == tag))) [
        | inl other ↦ rw other refuse
        | inr ours ↦
            elim (Bool-cases (leb limit (count_of (mem i)) || leb count_mask (count_of (mem i)))) [
              | inl full ↦ rw (ours, full) refuse
              | inr room ↦
                  rw (ours, room)
                    (wander ceiling mem tag limit pos small tag_small limit_small (incrementing i)
                      (bumping i (mem i)) free
                      (record {
                        none_held = λ j. refl;
                        knows = (
                          ours_or_zero (mem i) tag ours,
                          room_left limit (count_of (mem i)) count_mask room,
                        );
                      }))
            ]
      ]

  step_bumping :
      (i w : ℕ)
      → Knows tag limit (bumping i w)
      → Effect ceiling mem
          (task tag limit (bumping i w))
          (act z mem (task tag limit (bumping i w))).0
          (act z mem (task tag limit (bumping i w))).1
  unfolding act holds_at
  step_bumping i w knows = elim (Bool-cases (mem i == w)) [
    | inl same ↦
        let e : mem i ≡ w = (==_iff (mem i) w).0 same in
        rw same (
          grab ceiling mem tag limit pos small tag_small limit_small (bumping i w) i
            (count_of w + 1) (λ j. refl) (rw e refl) (omega (arith, knows.1, limit_small))
            (rw e (turned (tag_of w) tag (count_of w) knows.0)))
    | inr raced ↦ rw raced (
        wander ceiling mem tag limit pos small tag_small limit_small (bumping i w) (incrementing i)
          (record { none_held = λ j. refl; knows = knows })
          (record { none_held = λ j. refl; knows = tt }))
  ]

  step_retaking :
      (i : ℕ)
      → Effect ceiling mem
          (task tag limit (retaking i))
          (act z mem (task tag limit (retaking i))).0
          (act z mem (task tag limit (retaking i))).1
  unfolding act holds_at
  step_retaking i =
      let free : IsFree tag limit (retaking i) = record { none_held = λ j. refl; knows = tt } in
      elim (Bool-cases (count_of (mem i) == 0)) [
        | inl idle ↦ rw idle (
            wander ceiling mem tag limit pos small tag_small limit_small (retaking i)
              (taking i (mem i)) free
              (record { none_held = λ j. refl; knows = (==_iff (count_of (mem i)) 0).0 idle }))
        | inr busy ↦ rw busy (
            wander ceiling mem tag limit pos small tag_small limit_small (retaking i) refused free
              (record { none_held = λ j. refl; knows = tt }))
      ]

  step_taking :
      (i w : ℕ)
      → count_of w ≡ 0
      → Effect ceiling mem
          (task tag limit (taking i w))
          (act z mem (task tag limit (taking i w))).0
          (act z mem (task tag limit (taking i w))).1
  unfolding act holds_at
  step_taking i w idle = elim (Bool-cases (mem i == w)) [
    | inl same ↦
        let e : mem i ≡ w = (==_iff (mem i) w).0 same in
        let c0 : count_of (mem i) ≡ 0 = rw e idle in
        rw same (
          grab ceiling mem tag limit pos small tag_small limit_small (taking i w) i 1 (λ j. refl)
            (omega (arith, c0)) pos (inr c0))
    | inr raced ↦ rw raced (
        wander ceiling mem tag limit pos small tag_small limit_small (taking i w) refused
          (record { none_held = λ j. refl; knows = idle })
          (record { none_held = λ j. refl; knows = tt }))
  ]

  module _ (i : ℕ) (ours : tag_of (mem i) ≡ tag) (live : 0 < count_of (mem i))
      (bounded : count_of (mem i) ≤ ceiling) where
    step_releasing :
        Fits mem (task tag limit (releasing i))
        → Effect ceiling mem
            (task tag limit (releasing i))
            (act z mem (task tag limit (releasing i))).0
            (act z mem (task tag limit (releasing i))).1
    unfolding act holds_at
    step_releasing fits =
        let found : (not (tag_of (mem i) == tag) || count_of (mem i) == 0) ≡ false =
          let a : (tag_of (mem i) == tag) ≡ true = (==_iff (tag_of (mem i)) tag).1 ours in
          let b : (count_of (mem i) == 0) ≡ false = not_zero (count_of (mem i)) live in
          rw (a, b) refl in
        rw found (
          keep ceiling mem tag limit pos small tag_small limit_small (releasing i)
            (lowering i (mem i)) tt fits (λ j. refl))

    step_lowering :
        (w : ℕ)
        → Fits mem (task tag limit (lowering i w))
        → Effect ceiling mem
            (task tag limit (lowering i w))
            (act z mem (task tag limit (lowering i w))).0
            (act z mem (task tag limit (lowering i w))).1
    unfolding act holds_at holds
    step_lowering w fits = elim (Bool-cases (mem i == w)) [
      | inl same ↦
          let e : mem i ≡ w = (==_iff (mem i) w).0 same in
          let t =
            tag_of-pack tag (count_of w - 1) tag_small
              (rw (sym e) (omega (arith, bounded, small))) in
          let n =
            count_of-pack tag (count_of w - 1) tag_small
              (rw (sym e) (omega (arith, bounded, small))) in
          let own : (i == i) ≡ true = (==_iff i i).1 refl in
          let some_left : 0 < count_of w = rw (sym e) live in
          let within : count_of w ≤ ceiling = rw (sym e) bounded in
          rw same (
            wrote i (pack tag (count_of w - 1)) refl
              (record { tag = tag_small; limit = limit_small; knows = tt }) refl t
              (inl (rw t (sym ours))) (rw n (omega (arith, within)))
              (rw (own, n, e) (omega (arith, some_left)))
              (λ j apart. (ground (arith, apart), refl)))
      | inr raced ↦ rw raced (
          keep ceiling mem tag limit pos small tag_small limit_small (lowering i w) (releasing i) tt
            fits (λ j. refl))
    ]

-- Every access of a task has such an effect, if no slot counts less than its guards.
pub act-Effect :
    (z : Zone) (ceiling : ℕ) (mem : Mem) (t : Task)
    → 0 < ceiling
    → ceiling ≤ max_conns
    → Sane ceiling t
    → Fits mem t
    → ((i : ℕ) → (holds i t ≤ count_of (mem i)) × (count_of (mem i) ≤ ceiling))
    → Effect ceiling mem t (act z mem t).0 (act z mem t).1
unfolding holds
act-Effect z ceiling mem t pos small sane fits counts = by_phase t.tag t.limit t.at sane fits counts
  where
    own_releasing : (i : ℕ) → holds_at i (releasing i) ≡ 1
    own_releasing i = unfold holds_at in ground arith

    own_lowering : (i w : ℕ) → holds_at i (lowering i w) ≡ 1
    own_lowering i w = unfold holds_at in ground arith

    by_phase :
        (tag limit : ℕ) (at : Phase)
        → Sane ceiling (task tag limit at)
        → Fits mem (task tag limit at)
        → ((i : ℕ)
            → (holds i (task tag limit at) ≤ count_of (mem i)) × (count_of (mem i) ≤ ceiling))
        → Effect ceiling mem
            (task tag limit at)
            (act z mem (task tag limit at)).0
            (act z mem (task tag limit at)).1
    by_phase tag limit (probing p r) s f c =
        step_probing z ceiling mem tag limit pos small s.tag s.limit p r
    by_phase tag limit (claiming p r) s f c =
        step_claiming z ceiling mem tag limit pos small s.tag s.limit p r
    by_phase tag limit (incrementing i) s f c =
        step_incrementing z ceiling mem tag limit pos small s.tag s.limit i
    by_phase tag limit (bumping i w) s f c =
        step_bumping z ceiling mem tag limit pos small s.tag s.limit i w s.knows
    by_phase tag limit (retaking i) s f c =
        step_retaking z ceiling mem tag limit pos small s.tag s.limit i
    by_phase tag limit (taking i w) s f c =
        step_taking z ceiling mem tag limit pos small s.tag s.limit i w s.knows
    by_phase tag limit (holding i) s f c =
        unfold act in
        keep ceiling mem tag limit pos small s.tag s.limit (holding i) (releasing i) tt f
          (λ j. unfold holds_at in refl)
    by_phase tag limit (releasing i) s f c =
        step_releasing z ceiling mem tag limit pos small s.tag s.limit i
          (f i (rw (own_releasing i) (omega arith))) (omega (arith, (c i).0, own_releasing i))
          (c i).1 f
    by_phase tag limit (lowering i w) s f c =
        step_lowering z ceiling mem tag limit pos small s.tag s.limit i
          (f i (rw (own_lowering i w) (omega arith))) (omega (arith, (c i).0, own_lowering i w))
          (c i).1 w f
    by_phase tag limit refused s f c =
        unfold act in
        wander ceiling mem tag limit pos small s.tag s.limit refused refused
          (record { none_held = λ j. unfold holds_at in refl; knows = tt })
          (record { none_held = λ j. unfold holds_at in refl; knows = tt })
    by_phase tag limit over s f c =
        unfold act in
        wander ceiling mem tag limit pos small s.tag s.limit over over
          (record { none_held = λ j. unfold holds_at in refl; knows = tt })
          (record { none_held = λ j. unfold holds_at in refl; knows = tt })
