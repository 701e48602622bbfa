-- ===== src/Server/Upstream/Pool.antt =====
-- src/server/upstream.rs: the idle connections of a worker. A vector is a list from the newest
-- entry to the oldest, so that a push is a cons and `remove(0)` drops the last element. Instants
-- are milliseconds; whether a stream can be used again, which the socket says, is a parameter.
use oxi_serve.Base.{
  ℕ, ◌+◌, ◌-◌, ◌*◌, ◌≤◌, ◌<◌, ◌≡◌, inl, inr, refl, sym, arith, Bool, true, false, not, ◌&&◌, List,
  [], ◌∷◌, Option, none, some,
}
use oxi_serve.Base.{leb, ◌==◌, if◌then◌else◌, length, Bool-cases, Option-cases}
use oxi_serve.Base.Bytes.{Bytes, same_bytes}

abbrev pub max_idle : ℕ
max_idle = 30 * 1000

pub record Idle (Stream : Type 0) : Type 0 where
  pub stream : Stream
  pub since : ℕ

abbrev pub Pool : Type 0 → Type 0
Pool Stream = Bytes → Option (List (Idle Stream))

-- `remove(0)`
remove_oldest : {A : Type 0} → List A → List A
remove_oldest [] = []
remove_oldest (x ∷ []) = []
remove_oldest (x ∷ y ∷ ys) = x ∷ remove_oldest (y ∷ ys)

-- `unwrap_or_default`
unfoldable pub or_default : {A : Type 0} → Option (List A) → List A
or_default none = []
or_default (some xs) = xs

module _ {Stream : Type 0} (is_reusable : Stream → Bool) where
  -- `insert`
  unfoldable pub store : Pool Stream → Bytes → List (Idle Stream) → Pool Stream
  store pool addr entries = λ a. if same_bytes addr a then some entries else pool a

  -- The loop of `take`: what it hands out, and what it leaves.
  unfoldable pub pop_fresh : ℕ → List (Idle Stream) → Option Stream × List (Idle Stream)
  pop_fresh now [] = (none, [])
  pop_fresh now (idle ∷ entries) =
      let rest = pop_fresh now entries in
      if leb max_idle (now - idle.since)
      then (none, [])
      else if is_reusable idle.stream
      then (some idle.stream, entries)
      else rest

  take_from : Pool Stream → Bytes → ℕ → Option (List (Idle Stream)) → Option Stream × Pool Stream
  unfolding pop_fresh store
  take_from pool addr now none = (none, pool)
  take_from pool addr now (some entries) =
      ((pop_fresh now entries).0, store pool addr (pop_fresh now entries).1)

  unfoldable pub take : Pool Stream → Bytes → ℕ → Option Stream × Pool Stream
  unfolding take_from
  take pool addr now = take_from pool addr now (pool addr)

  unfoldable pub put : Pool Stream → Bytes → Stream → ℕ → ℕ → Pool Stream
  unfolding remove_oldest or_default store
  put pool addr stream keepalive now =
      let entries = or_default (pool addr) in
      let room = if leb keepalive (length entries) then remove_oldest entries else entries in
      if keepalive == 0
      then pool
      else store pool addr (record { stream = stream; since = now } ∷ room)

  -- The entries stand from the newest to the oldest, none is from the future.
  abbrev pub IsAged : ℕ → List (Idle Stream) → Type 0
  IsAged now [] = Unit
  IsAged now (idle ∷ entries) = (idle.since ≤ now) × IsAged idle.since entries

  IsAged-later : (t now : ℕ) (es : List (Idle Stream)) → t ≤ now → IsAged t es → IsAged now es
  IsAged-later t now [] le aged = aged
  IsAged-later t now (e ∷ es) le aged = (omega (arith, aged.0), aged.1)

  remove_oldest-IsAged :
      (now : ℕ) (es : List (Idle Stream)) → IsAged now es → IsAged now (remove_oldest es)
  unfolding remove_oldest
  remove_oldest-IsAged now [] aged = aged
  remove_oldest-IsAged now (x ∷ []) aged = tt
  remove_oldest-IsAged now (x ∷ y ∷ ys) aged =
      (aged.0, remove_oldest-IsAged x.since (y ∷ ys) aged.1)

  length-remove_oldest : (es : List (Idle Stream)) → length (remove_oldest es) ≡ length es - 1
  unfolding remove_oldest
  length-remove_oldest [] = refl
  length-remove_oldest (x ∷ []) = refl
  length-remove_oldest (x ∷ y ∷ ys) = omega (arith, length-remove_oldest (y ∷ ys))

  -- What the loop leaves is aged and no longer than before.
  abbrev pub IsKept : ℕ → ℕ → List (Idle Stream) → Type 0
  IsKept keepalive now es = IsAged now es × (length es ≤ keepalive)

  pop_fresh-IsKept :
      (k now : ℕ) (es : List (Idle Stream)) → IsKept k now es → IsKept k now (pop_fresh now es).1
  unfolding pop_fresh
  pop_fresh-IsKept k now [] kept = kept
  pop_fresh-IsKept k now (e ∷ es) kept =
      let below : IsKept k now es =
        (IsAged-later e.since now es kept.0.0 kept.0.1, omega (arith, kept.1)) in
      elim (Bool-cases (leb max_idle (now - e.since))) [
        | inl old ↦ rw old (tt, omega arith)
        | inr fresh ↦ elim (Bool-cases (is_reusable e.stream)) [
          | inl good ↦ rw (fresh, good) below
          | inr bad ↦ rw (fresh, bad) (pop_fresh-IsKept k now es below)
        ]
      ]

  -- What one worker does to its pool, and how long it lets pass.
  pub data Move (k : ℕ) : ℕ × Pool Stream → ℕ × Pool Stream → Type 0 where
    takes :
        (now : ℕ) (pool : Pool Stream) (addr : Bytes)
        → Move k (now, pool) (now, (take pool addr now).1)
    puts :
        (now : ℕ) (pool : Pool Stream) (addr : Bytes) (s : Stream)
        → Move k (now, pool) (now, put pool addr s k now)
    waits : (now ms : ℕ) (pool : Pool Stream) → Move k (now, pool) (now + ms, pool)

  pub data Reach (k : ℕ) (start : ℕ × Pool Stream) : ℕ × Pool Stream → Type 0 where
    here : Reach k start start
    next : {s t : ℕ × Pool Stream} → Reach k start s → Move k s t → Reach k start t

  abbrev pub IsSound : ℕ → ℕ × Pool Stream → Type 0
  IsSound k s = (addr : Bytes) → IsKept k s.0 (or_default (s.1 addr))

  store-IsSound :
      (k now : ℕ) (pool : Pool Stream) (addr : Bytes) (es : List (Idle Stream))
      → IsSound k (now, pool)
      → IsKept k now es
      → IsSound k (now, store pool addr es)
  unfolding store or_default
  store-IsSound k now pool addr es sound kept a = elim (Bool-cases (same_bytes addr a)) [
    | inl e ↦ rw e kept
    | inr n ↦ rw n (sound a)
  ]

  or_default-some :
      (k now : ℕ) (o : Option (List (Idle Stream))) (es : List (Idle Stream))
      → o ≡ some es
      → IsKept k now (or_default o)
      → IsKept k now es
  unfolding or_default
  or_default-some k now o es q kept = let d : or_default o ≡ es = rw q refl in rw (sym d) kept

  Move-IsSound : (k : ℕ) {s t : ℕ × Pool Stream} → 0 < k → Move k s t → IsSound k s → IsSound k t
  unfolding take put
  Move-IsSound k pos (takes now pool addr) sound = elim (Option-cases (pool addr)) [
    | inl q ↦ unfold take_from in rw q sound
    | inr (es, q) ↦
        let kept = or_default-some k now (pool addr) es q (sound addr) in
        unfold take_from in
        rw q (
          store-IsSound k now pool addr (pop_fresh now es).1 sound (pop_fresh-IsKept k now es kept))
  ]
  Move-IsSound k pos (puts now pool addr s) sound =
      let off : (k == 0) ≡ false = ground arith in
      let es = or_default (pool addr) in
      rw off (elim (Bool-cases (leb k (length es))) [
        | inl full ↦ rw full (
            store-IsSound k now pool addr (record { stream = s; since = now } ∷ remove_oldest es)
              sound
              (
                (omega arith, remove_oldest-IsAged now es (sound addr).0),
                omega (arith, length-remove_oldest es, (sound addr).1),
              ))
        | inr room ↦ rw room (
            store-IsSound k now pool addr (record { stream = s; since = now } ∷ es) sound
              ((omega arith, (sound addr).0), ground (arith, (sound addr).1)))
      ])
  Move-IsSound k pos (waits now ms pool) sound = λ a.
      (IsAged-later now (now + ms) (or_default (pool a)) (omega arith) (sound a).0, (sound a).1)

  -- Whatever a worker takes and puts, with a bound above zero, the idle connections of an address
  -- stay within the bound and stand from the newest to the oldest.
  pub Reach-IsSound :
      (k : ℕ) {s t : ℕ × Pool Stream} → 0 < k → IsSound k s → Reach k s t → IsSound k t
  Reach-IsSound k pos sound here = sound
  Reach-IsSound k pos sound (next r m) = Move-IsSound k pos m (Reach-IsSound k pos sound r)

  -- The newest of the connections that are neither old nor dead.
  unfoldable pub newest_good : ℕ → List (Idle Stream) → Option Stream
  newest_good now [] = none
  newest_good now (e ∷ es) =
      let rest = newest_good now es in
      if not (leb max_idle (now - e.since)) && is_reusable e.stream then some e.stream else rest

  newest_good-old :
      (t now : ℕ) (es : List (Idle Stream))
      → max_idle ≤ now - t
      → IsAged t es
      → newest_good now es ≡ none
  unfolding newest_good
  newest_good-old t now [] old aged = refl
  newest_good-old t now (e ∷ es) old aged =
      let still : leb max_idle (now - e.since) ≡ true = ground (arith, aged.0) in
      rw still (newest_good-old e.since now es (omega (arith, aged.0)) aged.1)

  pop_fresh_lem :
      (now : ℕ) (es : List (Idle Stream))
      → IsAged now es
      → (pop_fresh now es).0 ≡ newest_good now es
  unfolding pop_fresh newest_good
  pop_fresh_lem now [] aged = refl
  pop_fresh_lem now (e ∷ es) aged = elim (Bool-cases (leb max_idle (now - e.since))) [
    | inl old ↦
        let none_left = newest_good-old e.since now es (ground (arith, old)) aged.1 in
        rw (old, none_left) refl
    | inr fresh ↦ elim (Bool-cases (is_reusable e.stream)) [
      | inl good ↦ rw (fresh, good) refl
      | inr bad ↦ rw (fresh, bad) (pop_fresh_lem now es (IsAged-later e.since now es aged.0 aged.1))
    ]
  ]

  -- In a pool that a worker has come to from a sound one, `take` hands out the newest connection of
  -- the address that is younger than thirty seconds and can be used again, and nothing only if
  -- there is none.
  pub take_lem :
      (k : ℕ) (s : ℕ × Pool Stream) (now : ℕ) (pool : Pool Stream) (addr : Bytes)
      → 0 < k
      → IsSound k s
      → Reach k s (now, pool)
      → (take pool addr now).0 ≡ newest_good now (or_default (pool addr))
  unfolding take take_from or_default
  take_lem k s now pool addr pos sound r = elim (Option-cases (pool addr)) [
    | inl q ↦ rw q (unfold newest_good in refl)
    | inr (es, q) ↦
        let kept = or_default-some k now (pool addr) es q (Reach-IsSound k pos sound r addr) in
        rw q (pop_fresh_lem now es kept.0)
  ]
