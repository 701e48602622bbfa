-- ===== src/Server/LimitConn/Exact.antt =====
-- src/server/limit_conn.rs: the counts of a zone, whatever the order in which workers race.
use oxi_serve.Base.{
  ℕ, ◌+◌, ◌≤◌, ◌<◌, ◌≡◌, ◌≢◌, ◌⊎◌, refl, sym, ap, ◌∙◌, arith, false, inl, inr, List, [], ◌∷◌, ◌++◌,
  All, All-append,
}
use oxi_serve.Base.{◌==◌, ==_iff, Bool-cases}
use oxi_serve.Base.Bytes.{Bytes}
use oxi_serve.Server.LimitConn.{
  Zone, Mem, Task, State, arrives, acts, Reach, here, next, max_conns, tag_of, count_of, acquire,
  act, write,
}
use oxi_serve.Server.LimitConn.Word.{count_of_zero, tag_bounds}
use oxi_serve.Server.LimitConn.Effects.{Sane, Fits, Effect, quiet, wrote, holds, holds_at}
use oxi_serve.Server.LimitConn.Steps.{act-Effect}

-- The guards on the slot `i`.
unfoldable pub held : ℕ → List Task → ℕ
held i [] = 0
held i (t ∷ ts) = holds i t + held i ts

held-append : (i : ℕ) (xs ys : List Task) → held i (xs ++ ys) ≡ held i xs + held i ys
unfolding held
held-append i [] ys = omega arith
held-append i (x ∷ xs) ys = omega (arith, held-append i xs ys)

-- Every slot counts its guards, no more than the limit of them, and has their tag.
pub record IsExact (ceiling : ℕ) (s : State) : Type 0 where
  pub counted : (i : ℕ) → count_of (s.mem i) ≡ held i s.tasks
  pub bounded : (i : ℕ) → count_of (s.mem i) ≤ ceiling
  pub fits : All (Fits s.mem) s.tasks
  pub sane : All (Sane ceiling) s.tasks

All-parts : (P : Task → Type 0) (xs ys : List Task) → All P (xs ++ ys) → All P xs × All P ys
All-parts P [] ys a = (tt, a)
All-parts P (x ∷ xs) ys (p, a) = ((p, (All-parts P xs ys a).0), (All-parts P xs ys a).1)

-- A write that changes a tag only where no guard is leaves the others' guards in place.
write-Fits :
    (mem : Mem) (i w : ℕ) (ts : List Task)
    → (tag_of w ≡ tag_of (mem i)) ⊎ (held i ts ≡ 0)
    → All (Fits mem) ts
    → All (Fits (write mem i w)) ts
unfolding held
write-Fits mem i w [] c fits = tt
write-Fits mem i w (t ∷ ts) c (fit, fits) = (one, write-Fits mem i w ts (later c) fits)
  where
    later :
        (tag_of w ≡ tag_of (mem i)) ⊎ (holds i t + held i ts ≡ 0)
        → (tag_of w ≡ tag_of (mem i)) ⊎ (held i ts ≡ 0)
    later (inl e) = inl e
    later (inr z) = inr (omega (arith, z))

    same_slot :
        (j : ℕ)
        → (tag_of w ≡ tag_of (mem i)) ⊎ (holds i t + held i ts ≡ 0)
        → i ≡ j
        → 0 < holds j t
        → tag_of w ≡ t.tag
    same_slot j (inl e) ij h = e ∙ ap (λ k. tag_of (mem k)) ij ∙ fit j h
    same_slot j (inr z) ij h = let h' : 0 < holds i t = rw ij h in absurd (omega (arith, h', z))

    one : Fits (write mem i w) t
    one j h =
        unfold write in
        (elim (Bool-cases (i == j)) [
          | inl e ↦ rw e (same_slot j c ((==_iff i j).0 e) h)
          | inr ne ↦ rw ne (fit j h)
        ])

module _ (ceiling : ℕ) (z : Zone) (pos : 0 < ceiling) (small : ceiling ≤ max_conns) where
  acts-IsExact :
      (mem : Mem) (before : List Task) (t : Task) (after : List Task)
      → IsExact ceiling (record { mem = mem; tasks = before ++ (t ∷ after) })
      → IsExact ceiling
          (record { mem = (act z mem t).0; tasks = before ++ ((act z mem t).1 ∷ after) })
  acts-IsExact mem before t after x = settle (act z mem t).0 (act z mem t).1 (
      act-Effect z ceiling mem t pos small sane.1.0 fits.1.0
        (λ i. (omega (arith, x.counted i, parts i t), x.bounded i)))
    where
      fits : All (Fits mem) before × All (Fits mem) (t ∷ after)
      fits = All-parts (Fits mem) before (t ∷ after) x.fits

      sane : All (Sane ceiling) before × All (Sane ceiling) (t ∷ after)
      sane = All-parts (Sane ceiling) before (t ∷ after) x.sane

      parts :
          (i : ℕ) (u : Task)
          → held i (before ++ (u ∷ after)) ≡ held i before + (holds i u + held i after)
      parts i u = unfold held in held-append i before (u ∷ after)

      settle :
          (mem' : Mem) (t' : Task)
          → Effect ceiling mem t mem' t'
          → IsExact ceiling (record { mem = mem'; tasks = before ++ (t' ∷ after) })
      settle mem' t' (quiet same s f keeps) = rw same (record {
        counted = λ i. omega (arith, x.counted i, parts i t, parts i t', keeps i);
        bounded = x.bounded;
        fits = All-append (Fits mem) before (t' ∷ after) fits.0 (f, fits.1.1);
        sane = All-append (Sane ceiling) before (t' ∷ after) sane.0 (s, sane.1.1);
      })
      settle mem' t' (wrote i w same s own has tags within balance apart) = rw same (record {
        counted = λ j.
            unfold write in
            (elim (Bool-cases (i == j)) [
              | inl e ↦
                  let ij : j ≡ i = sym ((==_iff i j).0 e) in
                  rw (e, ij) (omega (arith, x.counted i, parts i t, parts i t', balance))
              | inr ne ↦
                  let q = apart j (not_same i j ne) in
                  rw ne (omega (arith, x.counted j, parts j t, parts j t', q.0, q.1))
            ]);
        bounded = λ j.
            unfold write in
            (elim (Bool-cases (i == j)) [ inl e ↦ rw e within | inr ne ↦ rw ne (x.bounded j) ]);
        fits =
            All-append (Fits (write mem i w)) before (t' ∷ after)
              (write-Fits mem i w before (alone tags (held i before) (omega (arith, parts i t)))
                fits.0)
              (
                λ j h.
                    unfold write in
                    (elim (Bool-cases (i == j)) [
                      | inl e ↦ rw e (has ∙ sym own)
                      | inr ne ↦ absurd (omega (arith, h, (apart j (not_same i j ne)).1))
                    ]),
                write-Fits mem i w after (alone tags (held i after) (omega (arith, parts i t)))
                    fits.1.1,
              );
        sane = All-append (Sane ceiling) before (t' ∷ after) sane.0 (s, sane.1.1);
      })
        where
          not_same : (i j : ℕ) → (i == j) ≡ false → j ≢ i
          not_same i j ne = ground arith

          alone :
              (tag_of w ≡ tag_of (mem i)) ⊎ (count_of (mem i) ≡ 0)
              → (n : ℕ) → n ≤ held i (before ++ (t ∷ after))
              → (tag_of w ≡ tag_of (mem i)) ⊎ (n ≡ 0)
          alone (inl e) n le = inl e
          alone (inr free) n le = inr (omega (arith, free, x.counted i, le))

  arrives-IsExact :
      (s : State) (key : Bytes)
      → IsExact ceiling s
      → IsExact ceiling (record s { tasks = acquire z key ceiling ∷ s.tasks })
  unfolding acquire
  arrives-IsExact s key x = record {
    counted = λ i. omega (arith, x.counted i, none i);
    bounded = x.bounded;
    fits = (λ i h. absurd (omega (arith, h, idle i)), x.fits);
    sane = (record { tag = (tag_bounds z key).1; limit = omega arith; knows = tt }, x.sane);
  }
    where
      idle : (i : ℕ) → holds i (acquire z key ceiling) ≡ 0
      idle i = unfold holds in (unfold holds_at in refl)

      none : (i : ℕ) → held i (acquire z key ceiling ∷ s.tasks) ≡ held i s.tasks
      none i = unfold held in omega (arith, idle i)

  -- However the accesses of the workers interleave, with one limit for all requests that is from 1 to
  -- 65535: each slot counts exactly the guards that are held on it, they all have the tag of the slot,
  -- and there are never more of them than the limit.
  pub Reach-IsExact : {s : State} → Reach z ceiling s → IsExact ceiling s
  Reach-IsExact here = record {
    counted = λ i. unfold held in count_of_zero;
    bounded = λ i. rw count_of_zero (omega arith);
    fits = tt;
    sane = tt;
  }
  Reach-IsExact (next r (arrives s key)) = arrives-IsExact s key (Reach-IsExact r)
  Reach-IsExact (next r (acts mem before t after)) =
      acts-IsExact mem before t after (Reach-IsExact r)
