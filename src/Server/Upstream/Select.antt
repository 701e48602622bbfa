-- ===== src/Server/Upstream/Select.antt =====
-- src/server/upstream.rs: which peer `select_excluding` chooses.
use oxi_serve.Base.{
  ℕ, zero, suc, ◌+◌, ◌-◌, ◌%◌, ◌^◌, ◌<◌, ◌≡◌, ◌≢◌, inl, inr, refl, max, arith, Bool, true, false,
  List, [], ◌∷◌, Option, none, some, All,
}
use oxi_serve.Base.{ltb, Bool-cases, get_elem?, length}
use oxi_serve.Server.Upstream.{
  Peer, Upstream, LbMethod, round_robin, least_conn, ip_hash, random, contains, is_down,
  is_candidate, may_try, indices, least_from, min_by_key, weight, load, down_until, total_weight,
  robin_slot, robin, or_zero, pick_from, or_else, select_excluding,
}

-- The numbers that pass a test are numbers of peers that pass it.
indices-All :
    (test : ℕ → Peer → Bool) (k : ℕ) (ps : List Peer)
    → All
        (λ i. (j : ℕ) × (p : Peer) × (i ≡ k + j) × (get_elem? ps j ≡ some p) × (test i p ≡ true))
        (indices test k ps)
unfolding indices
indices-All test k [] = tt
indices-All test k (p ∷ ps) =
    let rest = later (indices test (suc k) ps) (indices-All test (suc k) ps) in
    elim (Bool-cases (test k p)) [
      | inl here ↦ rw here ((0, p, omega arith, refl, here), rest)
      | inr skip ↦ rw skip rest
    ]
  where
    later :
        (is : List ℕ)
        → All
            (λ i.
              (j : ℕ) × (q : Peer) × (i ≡ suc k + j)
              × (get_elem? ps j ≡ some q)
              × (test i q ≡ true))
            is
        → All
            (λ i.
              (j : ℕ) × (q : Peer) × (i ≡ k + j)
              × (get_elem? (p ∷ ps) j ≡ some q)
              × (test i q ≡ true))
            is
    later [] a = tt
    later (i ∷ is) ((j, q, e, at, t), a) = ((suc j, q, omega (arith, e), at, t), later is a)

indices-nil :
    (test : ℕ → Peer → Bool) (k : ℕ) (ps : List Peer)
    → indices test k ps ≡ []
    → (j : ℕ) (p : Peer) → get_elem? ps j ≡ some p
    → test (k + j) p ≡ false
unfolding indices
indices-nil test k [] e j p at = cc
indices-nil test k (q ∷ ps) e j p at = elim (Bool-cases (test k q)) [
  | inl here ↦ (let w : k ∷ indices test (suc k) ps ≡ [] = rw here at e in cc)
  | inr skip ↦ there j (indices-nil test (suc k) ps (rw skip at e)) p at skip
]
  where
    there :
        (j : ℕ)
        → ((i : ℕ) (p : Peer) → get_elem? ps i ≡ some p → test (suc k + i) p ≡ false)
        → (p : Peer) → get_elem? (q ∷ ps) j ≡ some p
        → test k q ≡ false
        → test (k + j) p ≡ false
    there zero ih p at skip =
        let e : q ≡ p = cc in let z : k + 0 ≡ k = omega arith in rw (z, ← e) skip
    there (suc j) ih p at skip = let s : k + suc j ≡ suc k + j = omega arith in rw s (ih j p at)

module _ (P : ℕ → Type 0) where
  get_elem?-All :
      (xs : List ℕ) (j : ℕ) → j < length xs → All P xs → (x : ℕ) × (get_elem? xs j ≡ some x) × P x
  get_elem?-All [] j h a = absurd (omega arith)
  get_elem?-All (x ∷ xs) zero h (p, a) = (x, refl, p)
  get_elem?-All (x ∷ xs) (suc j) h (p, a) = get_elem?-All xs j (omega arith) a

  least_from-All :
      (key : ℕ → ℕ) (best : ℕ) (xs : List ℕ) → P best → All P xs → P (least_from key best xs)
  unfolding least_from
  least_from-All key best [] b a = b
  least_from-All key best (x ∷ xs) b (p, a) = elim (Bool-cases (ltb (key x) (key best))) [
    | inl less ↦ rw less (least_from-All key x xs p a)
    | inr more ↦ rw more (least_from-All key best xs b a)
  ]

  robin_slot-All :
      (w : ℕ → ℕ) (slot first : ℕ) (xs : List ℕ)
      → P first
      → All P xs
      → P (robin_slot w slot first xs)
  unfolding robin_slot
  robin_slot-All w slot first [] f a = f
  robin_slot-All w slot first (x ∷ xs) f (p, a) = elim (Bool-cases (ltb slot (w x))) [
    | inl here ↦ rw here p
    | inr past ↦ rw past (robin_slot-All w (slot - w x) first xs f a)
  ]

  -- Some candidate is picked, by every method.
  pick_from-All :
      (up : Upstream) (i : ℕ) (is : List ℕ) (hash : Option ℕ) (cursor : ℕ)
      → All P (i ∷ is)
      → (x : ℕ) × (pick_from up (i ∷ is) hash cursor ≡ some x) × P x
  unfolding pick_from min_by_key robin
  pick_from-All up i is hash cursor (p, a) = by_method up.method
    where
      by_method :
          (m : LbMethod)
          → (x : ℕ) × ((elim m [
            | ip_hash ↦ get_elem? (i ∷ is) (or_zero hash % length (i ∷ is))
            | least_conn ↦ min_by_key (load up.peers) (i ∷ is)
            | random ↦ get_elem? (i ∷ is) (cursor % length (i ∷ is))
            | round_robin ↦ robin (weight up.peers) cursor (i ∷ is)
          ])
              ≡ some x)
            × P x
      by_method ip_hash =
          get_elem?-All (i ∷ is) (or_zero hash % length (i ∷ is)) (grind arith) (p, a)
      by_method random = get_elem?-All (i ∷ is) (cursor % length (i ∷ is)) (grind arith) (p, a)
      by_method least_conn =
          (least_from (load up.peers) i is, refl, least_from-All (load up.peers) i is p a)
      by_method round_robin =
          let slot = cursor % 2 ^ 32 % max (total_weight (weight up.peers) (i ∷ is) % 2 ^ 32) 1 in
          (
            robin_slot (weight up.peers) slot i (i ∷ is),
            refl,
            robin_slot-All (weight up.peers) slot i (i ∷ is) p (p, a),
          )

module _ (up : Upstream) (now_ms : ℕ) (exclude : List ℕ) where
  abbrev pub Allowed : ℕ → Peer → Type 0
  Allowed i p = (p.server.down ≡ false) × All (λ j. j ≢ i) exclude

  abbrev pub Primary : ℕ → Peer → Type 0
  Primary i p = Allowed i p × (is_down p.health now_ms ≡ false) × (p.server.backup ≡ false)

  abbrev pub Backup : ℕ → Peer → Type 0
  Backup i p = Allowed i p × (is_down p.health now_ms ≡ false) × (p.server.backup ≡ true)

  -- The number `i` is that of a peer of the kind.
  abbrev pub Names : (ℕ → Peer → Type 0) → ℕ → Type 0
  Names P i = (p : Peer) × (get_elem? up.peers i ≡ some p) × P i p

  abbrev pub NoneOf : (ℕ → Peer → Type 0) → Type 0
  NoneOf P = (i : ℕ) (p : Peer) → get_elem? up.peers i ≡ some p → ¬ P i p

  -- A primary peer in service; or a backup in service, when no such primary is left; or any peer
  -- that is not marked down and not excluded, when no peer in service is left.
  pub data Choice : Option ℕ → Type 0 where
    to_primary : (i : ℕ) → Names Primary i → Choice (some i)
    to_backup : (i : ℕ) → NoneOf Primary → Names Backup i → Choice (some i)
    to_any : (i : ℕ) → NoneOf Primary → NoneOf Backup → Names Allowed i → Choice (some i)
    to_none : NoneOf Allowed → Choice none

  -- A test that decides a kind of peer.
  Decides : (ℕ → Peer → Bool) → (ℕ → Peer → Type 0) → Type 0
  Decides test P = (i : ℕ) (p : Peer) → ((test i p ≡ true) → P i p) × (P i p → test i p ≡ true)

  contains-false : (js : List ℕ) (i : ℕ) → contains js i ≡ false → All (λ j. j ≢ i) js
  unfolding contains
  contains-false [] i q = tt
  contains-false (j ∷ js) i q = (ground arith, contains-false js i (ground arith))

  contains_of_All : (js : List ℕ) (i : ℕ) → All (λ j. j ≢ i) js → contains js i ≡ false
  unfolding contains
  contains_of_All [] i a = refl
  contains_of_All (j ∷ js) i (n, a) = ground (arith, contains_of_All js i a)

  may_try-Decides : Decides (may_try exclude) Allowed
  unfolding Decides may_try
  may_try-Decides i p = (
    λ t. (ground arith, contains-false exclude i (ground arith)),
    λ a. ground (arith, contains_of_All exclude i a.1),
  )

  candidate-Decides : Decides (is_candidate now_ms exclude false) Primary
  unfolding Decides is_candidate
  candidate-Decides i p = (
    λ t. ((ground arith, contains-false exclude i (ground arith)), ground arith, ground arith),
    λ a. ground (arith, contains_of_All exclude i a.0.1),
  )

  spare-Decides : Decides (is_candidate now_ms exclude true) Backup
  unfolding Decides is_candidate
  spare-Decides i p = (
    λ t. ((ground arith, contains-false exclude i (ground arith)), ground arith, ground arith),
    λ a. ground (arith, contains_of_All exclude i a.0.1),
  )

  module _ (test : ℕ → Peer → Bool) (P : ℕ → Peer → Type 0) (decides : Decides test P) where
    indices-Names : All (Names P) (indices test 0 up.peers)
    unfolding Decides
    indices-Names = from (indices test 0 up.peers) (indices-All test 0 up.peers)
      where
        from :
            (is : List ℕ)
            → All
                (λ i.
                  (j : ℕ) × (p : Peer) × (i ≡ 0 + j)
                  × (get_elem? up.peers j ≡ some p)
                  × (test i p ≡ true))
                is
            → All (Names P) is
        from [] a = tt
        from (i ∷ is) ((j, p, e, at, t), a) =
            let q : i ≡ j = omega (arith, e) in ((p, rw q at, (decides i p).0 t), from is a)

    indices-NoneOf : indices test 0 up.peers ≡ [] → NoneOf P
    unfolding Decides
    indices-NoneOf e i p at holds =
        let z : 0 + i ≡ i = omega arith in
        let no : test i p ≡ false = rw z at (indices-nil test 0 up.peers e i p at) in
        cc ((decides i p).1 holds)

  fall_back :
      (any : List ℕ)
      → indices (may_try exclude) 0 up.peers ≡ any
      → All (Names Allowed) any
      → NoneOf Primary
      → NoneOf Backup
      → Choice (min_by_key (down_until up.peers) any)
  unfolding min_by_key
  fall_back [] e a no_primary no_backup =
      to_none (indices-NoneOf (may_try exclude) Allowed may_try-Decides e)
  fall_back (i ∷ is) e (p, a) no_primary no_backup =
      to_any (least_from (down_until up.peers) i is) no_primary no_backup
        (least_from-All (Names Allowed) (down_until up.peers) i is p a)

  -- The choice is a primary peer in service; or, if none is left, a backup in service; or, if none is
  -- left either, any peer that is not marked down; never one that was excluded, and always some peer
  -- unless all are marked down or excluded.
  pub select_excluding-Choice :
      (hash : Option ℕ) (cursor : ℕ) → Choice (select_excluding up now_ms hash cursor exclude)
  unfolding select_excluding or_else
  select_excluding-Choice hash cursor =
      first (indices (is_candidate now_ms exclude false) 0 up.peers) refl
        (indices-Names (is_candidate now_ms exclude false) Primary candidate-Decides)
    where
      second :
          (bs : List ℕ)
          → indices (is_candidate now_ms exclude true) 0 up.peers ≡ bs
          → All (Names Backup) bs
          → NoneOf Primary
          → Choice (
              or_else bs
                (pick_from up bs hash cursor)
                (min_by_key (down_until up.peers) (indices (may_try exclude) 0 up.peers)))
      second [] e a no_primary =
          fall_back (indices (may_try exclude) 0 up.peers) refl
            (indices-Names (may_try exclude) Allowed may_try-Decides) no_primary
            (indices-NoneOf (is_candidate now_ms exclude true) Backup spare-Decides e)
      second (b ∷ bs) e a no_primary =
          let (x, picked, named) = pick_from-All (Names Backup) up b bs hash cursor a in
          rw picked (to_backup x no_primary named)

      first :
          (ps : List ℕ)
          → indices (is_candidate now_ms exclude false) 0 up.peers ≡ ps
          → All (Names Primary) ps
          → Choice (
              or_else ps (pick_from up ps hash cursor) (
                or_else
                  (indices (is_candidate now_ms exclude true) 0 up.peers)
                  (pick_from up (indices (is_candidate now_ms exclude true) 0 up.peers) hash cursor)
                  (min_by_key (down_until up.peers) (indices (may_try exclude) 0 up.peers))))
      first [] e a =
          second (indices (is_candidate now_ms exclude true) 0 up.peers) refl
            (indices-Names (is_candidate now_ms exclude true) Backup spare-Decides)
            (indices-NoneOf (is_candidate now_ms exclude false) Primary candidate-Decides e)
      first (p ∷ ps) e a =
          let (x, picked, named) = pick_from-All (Names Primary) up p ps hash cursor a in
          rw picked (to_primary x named)
