-- ===== src/Server/Upstream/Health.antt =====
-- src/server/upstream.rs: a peer's health over a series of failures and of probes.
use oxi_serve.Base.{
  ℕ, zero, suc, ◌⊎◌, ◌+◌, ◌-◌, ◌%◌, ◌^◌, ◌≤◌, ◌<◌, ◌≡◌, refl, ap, ◌∙◌, max, inl, inr, arith, Bool,
  true, false, not, ◌||◌, List, [], ◌∷◌, All,
}
use oxi_serve.Base.{leb, ltb, ◌==◌, if◌then◌else◌, Bool-cases, length}
use oxi_serve.Server.Upstream.{PeerHealth, healthy, is_down, record_failure, record_probe}

-- Failures at the times of the list, in that order.
unfoldable pub fail_at : PeerHealth → ℕ → ℕ → List ℕ → PeerHealth
fail_at h max_fails timeout [] = h
fail_at h max_fails timeout (t ∷ ts) =
    fail_at (record_failure h t max_fails timeout) max_fails timeout ts

-- Times no earlier than `start`, no later than `timeout` after it, and within the clock.
abbrev pub InWindow : ℕ → ℕ → ℕ → Type 0
InWindow start timeout t = (start ≤ t) × (t ≤ start + timeout) × (t + timeout < 2 ^ 64)

abbrev pub last : ℕ → List ℕ → ℕ
last t [] = t
last t (u ∷ ts) = last u ts

-- `n` failures counted in a window from `start`, the last of them at `t`.
record Counted (h h0 : PeerHealth) (max_fails timeout start n t : ℕ) : Type 0 where
  pub fails : h.fails ≡ n
  pub window : h.window_start_ms ≡ start
  pub ejected : max_fails ≤ n → h.down_until_ms ≡ t + timeout
  pub spared : n < max_fails → h.down_until_ms ≡ h0.down_until_ms

again :
    (h h0 : PeerHealth) (max_fails timeout start n t u : ℕ)
    → Counted h h0 max_fails timeout start n t
    → 0 < n
    → n + 1 < 2 ^ 32
    → 0 < max_fails
    → InWindow start timeout u
    → Counted (record_failure h u max_fails timeout) h0 max_fails timeout start (n + 1) u
unfolding record_failure
again h h0 max_fails timeout start n t u c pos small some_max w =
    let open_ : (not (ltb 0 h.fails) || ltb timeout (u - h.window_start_ms)) ≡ false =
      ground arith in
    let off : (max_fails == 0) ≡ false = ground arith in
    let size : (h.fails + 1) % 2 ^ 32 ≡ n + 1 = omega (arith, c.fails) in
    let clock : (u + timeout) % 2 ^ 64 ≡ u + timeout = omega arith in
    elim (Bool-cases (leb max_fails (n + 1))) [
      | inl out ↦
          let done : record_failure h u max_fails timeout
              ≡ record h { fails = n + 1; down_until_ms = u + timeout } =
            rw (open_, off, size, out, clock) refl in
          rw done (record {
            fails = refl;
            window = c.window;
            ejected = λ le. refl;
            spared = λ lt. absurd (ground arith);
          })
      | inr within ↦
          let done : record_failure h u max_fails timeout ≡ record h { fails = n + 1 } =
            rw (open_, off, size, within) refl in
          rw done (record {
            fails = refl;
            window = c.window;
            ejected = λ le. absurd (ground arith);
            spared = λ lt. c.spared (omega arith);
          })
    ]

-- The first failure, when none is counted.
first_failure :
    (h : PeerHealth) (max_fails timeout t : ℕ)
    → h.fails ≡ 0
    → 0 < max_fails
    → t + timeout < 2 ^ 64
    → Counted (record_failure h t max_fails timeout) h max_fails timeout t 1 t
unfolding record_failure
first_failure h max_fails timeout t none_yet some_max time =
    let fresh : (not (ltb 0 h.fails) || ltb timeout (t - h.window_start_ms)) ≡ true =
      ground arith in
    let off : (max_fails == 0) ≡ false = ground arith in
    let clock : (t + timeout) % 2 ^ 64 ≡ t + timeout = omega arith in
    elim (Bool-cases (leb max_fails 1)) [
      | inl out ↦
          let done : record_failure h t max_fails timeout
              ≡ record h { window_start_ms = t; fails = 1; down_until_ms = t + timeout } =
            rw (fresh, off, out, clock) refl in
          rw done (record {
            fails = refl;
            window = refl;
            ejected = λ le. refl;
            spared = λ lt. absurd (ground arith);
          })
      | inr within ↦
          let done : record_failure h t max_fails timeout
              ≡ record h { window_start_ms = t; fails = 1 } =
            rw (fresh, off, within) refl in
          rw done (record {
            fails = refl;
            window = refl;
            ejected = λ le. absurd (ground arith);
            spared = λ lt. refl;
          })
    ]

fail_at-Counted :
    (h h0 : PeerHealth) (max_fails timeout start n t : ℕ) (ts : List ℕ)
    → Counted h h0 max_fails timeout start n t
    → 0 < n
    → n + length ts < 2 ^ 32
    → 0 < max_fails
    → All (InWindow start timeout) ts
    → Counted
        (fail_at h max_fails timeout ts)
        h0
        max_fails
        timeout
        start
        (n + length ts)
        (last t ts)
unfolding fail_at
fail_at-Counted h h0 max_fails timeout start n t [] c pos small some_max w =
    let z : n + 0 ≡ n = omega arith in rw z c
fail_at-Counted h h0 max_fails timeout start n t (u ∷ ts) c pos small some_max (w, ws) =
    let e : n + suc (length ts) ≡ n + 1 + length ts = omega arith in
    rw e (
      fail_at-Counted (record_failure h u max_fails timeout) h0 max_fails timeout start (n + 1) u ts
        (again h h0 max_fails timeout start n t u c pos (omega arith) some_max w) (omega arith)
        (omega arith) some_max ws)

is_down_until :
    (h : PeerHealth) (now until : ℕ) → h.down_until_ms ≡ until → now < until → is_down h now ≡ true
unfolding is_down
is_down_until h now until e early = ground arith

-- With `max_fails` at zero the check is off.
fail_at-off : (h : PeerHealth) (timeout : ℕ) (ts : List ℕ) → fail_at h 0 timeout ts ≡ h
unfolding fail_at record_failure
fail_at-off h timeout [] = refl
fail_at-off h timeout (t ∷ ts) = fail_at-off h timeout ts

fail_at-on :
    (h : PeerHealth) (max_fails timeout t : ℕ) (ts : List ℕ)
    → h.fails ≡ 0
    → 0 < max_fails
    → suc (length ts) < 2 ^ 32
    → t + timeout < 2 ^ 64
    → All (InWindow t timeout) ts
    → ((fail_at h max_fails timeout (t ∷ ts)).fails ≡ suc (length ts))
      × ((fail_at h max_fails timeout (t ∷ ts)).down_until_ms
          ≡ (if leb max_fails (suc (length ts)) then last t ts + timeout else h.down_until_ms))
unfolding fail_at
fail_at-on h max_fails timeout t ts none_yet some_max small time ws =
    let c =
      fail_at-Counted (record_failure h t max_fails timeout) h max_fails timeout t 1 t ts
        (first_failure h max_fails timeout t none_yet some_max time) (omega arith) (omega arith)
        some_max ws in
    (
      omega (arith, c.fails),
      elim (Bool-cases (leb max_fails (suc (length ts)))) [
        | inl enough ↦ rw enough (c.ejected (ground (arith, enough)))
        | inr few ↦ rw few (c.spared (ground (arith, few)))
      ],
    )

-- A peer with no failure counted that fails at `t` and then at the times `ts`, fewer than 2^32 times
-- in all, where the times `ts` are not before `t` and within `fail_timeout` of it, and every time with
-- `fail_timeout` added is below 2^64: with `max_fails` at zero nothing changes; with a positive one all
-- failures are counted, and if there were at least `max_fails` of them the peer's `down_until_ms` is
-- `fail_timeout` after the last of the list, else it is as before.
pub fail_at_lem :
    (h : PeerHealth) (max_fails timeout t : ℕ) (ts : List ℕ)
    → h.fails ≡ 0
    → suc (length ts) < 2 ^ 32
    → t + timeout < 2 ^ 64
    → All (InWindow t timeout) ts
    → ((max_fails ≡ 0) × (fail_at h max_fails timeout (t ∷ ts) ≡ h))
      ⊎ ((0 < max_fails)
          × ((fail_at h max_fails timeout (t ∷ ts)).fails ≡ suc (length ts))
          × ((fail_at h max_fails timeout (t ∷ ts)).down_until_ms
              ≡ (if leb max_fails (suc (length ts)) then last t ts + timeout else h.down_until_ms)))
fail_at_lem h zero timeout t ts none_yet small time ws = inl (refl, fail_at-off h timeout (t ∷ ts))
fail_at_lem h (suc m) timeout t ts none_yet small time ws =
    let (counted, until) = fail_at-on h (suc m) timeout t ts none_yet (omega arith) small time ws in
    inr (omega arith, counted, until)

-- Probes, the newest first.
unfoldable pub probe_all : PeerHealth → ℕ → ℕ → List Bool → PeerHealth
probe_all h fails passes [] = h
probe_all h fails passes (ok ∷ older) =
    record_probe (probe_all h fails passes older) ok fails passes

-- How many of the newest probes had this result.
abbrev pub streak : Bool → List Bool → ℕ
streak ok [] = 0
streak true (true ∷ older) = suc (streak true older)
streak true (false ∷ older) = 0
streak false (true ∷ older) = 0
streak false (false ∷ older) = suc (streak false older)

-- What the probes say: a streak of the length asked for turns the verdict, anything less leaves it.
unfoldable pub verdict : ℕ → ℕ → List Bool → Bool
verdict fails passes [] = false
verdict fails passes (true ∷ older) =
    let before = verdict fails passes older in
    if leb (max passes 1) (suc (streak true older)) then false else before
verdict fails passes (false ∷ older) =
    let before = verdict fails passes older in
    if leb (max fails 1) (suc (streak false older)) then true else before

passed :
    (h : PeerHealth) (fails passes p : ℕ)
    → h.probe_passes ≡ p
    → suc p < 2 ^ 32
    → ((record_probe h true fails passes).probe_fails ≡ 0)
      × ((record_probe h true fails passes).probe_passes ≡ suc p)
      × ((record_probe h true fails passes).probe_down
          ≡ (if leb (max passes 1) (suc p) then false else h.probe_down))
unfolding record_probe
passed h fails passes p e small =
    let size : (h.probe_passes + 1) % 2 ^ 32 ≡ suc p = omega (arith, e) in
    rw size (elim (Bool-cases (leb (max passes 1) (suc p))) [
      | inl up ↦ rw up (refl, refl, refl)
      | inr same ↦ rw same (refl, refl, refl)
    ])

failed :
    (h : PeerHealth) (fails passes f : ℕ)
    → h.probe_fails ≡ f
    → suc f < 2 ^ 32
    → ((record_probe h false fails passes).probe_fails ≡ suc f)
      × ((record_probe h false fails passes).probe_passes ≡ 0)
      × ((record_probe h false fails passes).probe_down
          ≡ (if leb (max fails 1) (suc f) then true else h.probe_down))
unfolding record_probe
failed h fails passes f e small =
    let size : (h.probe_fails + 1) % 2 ^ 32 ≡ suc f = omega (arith, e) in
    rw size (elim (Bool-cases (leb (max fails 1) (suc f))) [
      | inl down ↦ rw down (refl, refl, refl)
      | inr same ↦ rw same (refl, refl, refl)
    ])

streak-le : (ok : Bool) (probes : List Bool) → streak ok probes ≤ length probes
streak-le ok [] = omega arith
streak-le true (true ∷ older) = omega (arith, streak-le true older)
streak-le true (false ∷ older) = omega arith
streak-le false (true ∷ older) = omega arith
streak-le false (false ∷ older) = omega (arith, streak-le false older)

-- For a peer that starts healthy, the two counters are the streaks of the newest probes, and the peer
-- is taken down and brought back exactly as the verdict on the whole series says, for fewer than
-- 2^32 probes.
pub probe_all-verdict :
    (fails passes : ℕ) (probes : List Bool)
    → length probes < 2 ^ 32
    → ((probe_all healthy fails passes probes).probe_fails ≡ streak false probes)
      × ((probe_all healthy fails passes probes).probe_passes ≡ streak true probes)
      × ((probe_all healthy fails passes probes).probe_down ≡ verdict fails passes probes)
unfolding probe_all verdict
probe_all-verdict fails passes [] small = (refl, refl, refl)
probe_all-verdict fails passes (true ∷ older) small =
    let (f, p, d) = probe_all-verdict fails passes older (omega arith) in
    let (f', p', d') =
      passed (probe_all healthy fails passes older) fails passes (streak true older) p
        (omega (arith, streak-le true older)) in
    (f', p', d' ∙ ap (λ b. if leb (max passes 1) (suc (streak true older)) then false else b) d)
probe_all-verdict fails passes (false ∷ older) small =
    let (f, p, d) = probe_all-verdict fails passes older (omega arith) in
    let (f', p', d') =
      failed (probe_all healthy fails passes older) fails passes (streak false older) f
        (omega (arith, streak-le false older)) in
    (f', p', d' ∙ ap (λ b. if leb (max fails 1) (suc (streak false older)) then true else b) d)
