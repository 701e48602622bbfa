-- ===== src/Http/Uri/Refinement.antt =====
-- src/http/uri.rs: the byte loop against the reading by segments.
use Prim.Native.Nat.{bit_or}
use oxi_serve.Base.{
  ℕ, zero, suc, ◌*◌, ◌<◌, ◌≡◌, inl, inr, refl, sym, ap, ◌∙◌, arith, Bool, true, false, ◌||◌, List,
  [], ◌∷◌, ◌++◌, none, some, append-nil, append_assoc,
}
use oxi_serve.Base.{◌==◌, if◌then◌else◌, Bool-cases, Option-cases, length, take, take-length-append}
use oxi_serve.Base.Bytes.{Bytes, codes, same_bytes}
use oxi_serve.Base.Result.{Result, ok, ◌>>=◌, Result-cases}
use oxi_serve.Http.Uri.{
  UriError, hex, lead, Lead, Mode, between, after_percent, after_digit, accept, collect, Out, climb,
  place, turn, go_on, walk, slow, starts_with_slash,
}
use oxi_serve.Http.Uri.Segments.{
  split, decode, climb_stack, resolve, resolve_all, unsplit, normalize_spec,
}

-- The part up to the next slash, and the rest from that slash on.
pub raw_of : Bytes → Bytes
raw_of [] = []
raw_of (c ∷ rest) = if c == b'/' then [] else c ∷ raw_of rest

pub tail_of : Bytes → Bytes
tail_of [] = []
tail_of (c ∷ rest) = if c == b'/' then c ∷ rest else tail_of rest

parts_of : Bytes → List Bytes
parts_of [] = []
parts_of (c ∷ rest) = split [] rest

accept-bind {ℓ κ} :
    {A : Type ℓ} {B : Type κ} (c : ℕ) (seg : Bytes) (k : Bytes → Result UriError B)
    (j : Bytes → Result UriError A) (f : A → Result UriError B)
    → ((s : Bytes) → k s ≡ (j s >>= f))
    → accept c seg k ≡ (accept c seg j >>= f)
unfolding accept
accept-bind c seg k j f h = elim (Bool-cases (c == 0 || c == b'/')) [
  | inl refused ↦ rw refused refl
  | inr fine ↦ rw fine (h (seg ++ (c ∷ [])))
]

hex-slash : (c : ℕ) → (c == b'/') ≡ true → hex c ≡ none
unfolding hex
hex-slash c e = let q : c ≡ b'/' = ground arith in rw q refl

lead-slash : (c : ℕ) → (c == b'/') ≡ true → lead c ≡ Lead.slash
unfolding lead
lead-slash c e = rw e refl

lead-escape : (c : ℕ) → (c == b'%') ≡ true → lead c ≡ Lead.escape
unfolding lead
lead-escape c e = let q : c ≡ b'%' = ground arith in rw q refl

lead-plain : (c : ℕ) → (c == b'/') ≡ false → (c == b'%') ≡ false → lead c ≡ Lead.plain
unfolding lead
lead-plain c e p = rw (e, p) refl

collect_lem :
    (m : Mode) (b seg : Bytes)
    → collect m b seg ≡ (decode m (raw_of b) seg >>= λ s. ok (s, tail_of b))
unfolding collect decode raw_of tail_of
collect_lem between [] seg = refl
collect_lem after_percent [] seg = refl
collect_lem (after_digit h) [] seg = refl
collect_lem between (c ∷ rest) seg = elim (Bool-cases (c == b'/')) [
  | inl slash ↦ rw (collect, decode, lead-slash c slash, slash) refl
  | inr other ↦ elim (Bool-cases (c == b'%')) [
    | inl percent ↦
        rw (collect, decode, lead-escape c percent, other, percent)
          (collect_lem after_percent rest seg)
    | inr plain ↦
        rw (collect, decode, lead-plain c other plain, other, plain)
          (accept-bind c seg (collect between rest) (decode between (raw_of rest))
            (λ s. ok (s, tail_of rest)) (λ s. collect_lem between rest s))
  ]
]
collect_lem after_percent (c ∷ rest) seg = elim (Bool-cases (c == b'/')) [
  | inl slash ↦ rw (collect, decode, slash, hex-slash c slash) refl
  | inr other ↦ elim (Option-cases (hex c)) [
    | inl bad ↦ rw (collect, decode, other, bad) refl
    | inr (h, digit) ↦ rw (collect, decode, other, digit) (collect_lem (after_digit h) rest seg)
  ]
]
collect_lem (after_digit h) (c ∷ rest) seg = elim (Bool-cases (c == b'/')) [
  | inl slash ↦ rw (collect, decode, slash, hex-slash c slash) refl
  | inr other ↦ elim (Option-cases (hex c)) [
    | inl bad ↦ rw (collect, decode, other, bad) refl
    | inr (l, digit) ↦
        rw (collect, decode, other, digit)
          (accept-bind (bit_or (h * 16) l) seg (collect between rest) (decode between (raw_of rest))
            (λ s. ok (s, tail_of rest)) (λ s. collect_lem between rest s))
  ]
]

split_lem : (cur b : Bytes) → split cur b ≡ (cur ++ raw_of b) ∷ parts_of (tail_of b)
unfolding split raw_of tail_of parts_of
split_lem cur [] = ap (λ t. t ∷ []) (sym (append-nil cur))
split_lem cur (c ∷ rest) = elim (Bool-cases (c == b'/')) [
  | inl slash ↦ rw slash (ap (λ t. t ∷ split [] rest) (sym (append-nil cur)))
  | inr other ↦ rw other (
      split_lem (cur ++ (c ∷ [])) rest
      ∙ ap (λ t. t ∷ parts_of (tail_of rest)) (append_assoc cur (c ∷ []) (raw_of rest)))
]

-- The output for a stack of segments.
pub out_of : List Bytes → Out
out_of [] = record { out = b'/' ∷ []; starts = [] }
out_of (s ∷ stack) = record {
  out = unsplit (s ∷ stack);
  starts = length (unsplit stack) ∷ (out_of stack).starts;
}

out-out_of : (stack : List Bytes) → (out_of stack).out ≡ unsplit stack
unfolding out_of unsplit
out-out_of [] = refl
out-out_of (s ∷ stack) = refl

climb-out_of :
    (stack : List Bytes)
    → climb (out_of stack).out (out_of stack).starts ≡ (climb_stack stack >>= λ s. ok (out_of s))
unfolding climb climb_stack out_of unsplit
climb-out_of [] = refl
climb-out_of (s ∷ stack) =
    let cut : take (length (unsplit stack)) (unsplit stack ++ (s ++ (b'/' ∷ [])))
        ≡ (out_of stack).out =
      take-length-append (unsplit stack) (s ++ (b'/' ∷ [])) ∙ sym (out-out_of stack) in
    ap (λ o. ok (record { out = o; starts = (out_of stack).starts })) cut

place_lem :
    (seg : Bytes) (stack : List Bytes)
    → place seg (out_of stack) ≡ (resolve stack seg >>= λ s. ok (out_of s))
unfolding place resolve out_of unsplit
place_lem seg stack = elim (Bool-cases (same_bytes seg [] || same_bytes seg (codes "."))) [
  | inl skip ↦ rw skip refl
  | inr named ↦ elim (Bool-cases (same_bytes seg (codes ".."))) [
    | inl up ↦ rw (named, up) (climb-out_of stack)
    | inr down ↦ rw (named, down) (rw (out-out_of stack) refl)
  ]
]

-- What is left of the path, turn by turn.
tail-lt : (b : Bytes) (c : ℕ) (rest : Bytes) → tail_of b ≡ c ∷ rest → length rest < length b
unfolding tail_of
tail-lt [] c rest e = cc
tail-lt (d ∷ b) c rest e = elim (Bool-cases (d == b'/')) [
  | inl slash ↦
      (let p : d ∷ b ≡ c ∷ rest = rw slash at e in let q : b ≡ rest = cc in rw (← q) (omega arith))
  | inr other ↦ let p : tail_of b ≡ c ∷ rest = rw other at e in omega (arith, tail-lt b c rest p)
]

-- One part decoded and resolved.
step : List Bytes → Bytes → Result UriError (List Bytes)
step stack rest = decode between (raw_of rest) [] >>= resolve stack

left_at : Bytes → List Bytes → Result UriError (Out × Bytes)
left_at tail s = ok (out_of s, tail)

turn_lem :
    (rest : Bytes) (stack : List Bytes)
    → turn rest (out_of stack) ≡ (step stack rest >>= left_at (tail_of rest))
unfolding turn step left_at
turn_lem rest stack = elim (Result-cases (decode between (raw_of rest) [])) [
  | inr (e, bad) ↦ rw (collect_lem between rest [], bad) refl
  | inl (seg, good) ↦ elim (Result-cases (resolve stack seg)) [
    | inl (s, up) ↦ rw (collect_lem between rest [], good, place_lem seg stack, up) refl
    | inr (e, top) ↦ rw (collect_lem between rest [], good, place_lem seg stack, top) refl
  ]
]

resolve_all-split :
    (stack : List Bytes) (rest : Bytes)
    → resolve_all stack (split [] rest)
      ≡ (step stack rest >>= λ s. resolve_all s (parts_of (tail_of rest)))
unfolding resolve_all step
resolve_all-split stack rest = elim (Result-cases (decode between (raw_of rest) [])) [
  | inr (e, bad) ↦ rw (split_lem [] rest) (rw bad refl)
  | inl (seg, good) ↦ rw (split_lem [] rest) (rw good refl)
]

resolve_all_nil : (s : List Bytes) → resolve_all s [] ≡ ok s
unfolding resolve_all
resolve_all_nil s = refl

-- With as much fuel as the path has bytes, the loop ends as the reading by segments does.
walk_lem :
    (fuel : ℕ) (rest : Bytes) (stack : List Bytes)
    → length rest < fuel
    → walk fuel rest (out_of stack)
      ≡ some (resolve_all stack (split [] rest) >>= λ s. ok (out_of s))
unfolding walk left_at parts_of
walk_lem zero rest stack h = elim h [ ]
walk_lem (suc fuel) rest stack h = elim (Result-cases (step stack rest)) [
  | inr (e, bad) ↦ rw (walk, turn_lem rest stack, resolve_all-split stack rest, bad) refl
  | inl (s, good) ↦
      rw (walk, turn_lem rest stack, resolve_all-split stack rest, good)
        (ended s (tail_of rest) refl (λ r lt. walk_lem fuel r s lt))
]
  where
    ended :
        (s : List Bytes) (tail : Bytes)
        → tail_of rest ≡ tail
        → ((r : Bytes)
            → length r < fuel
            → walk fuel r (out_of s) ≡ some (resolve_all s (split [] r) >>= λ t. ok (out_of t)))
        → go_on tail (some (ok (out_of s))) (λ rest'. walk fuel rest' (out_of s))
          ≡ some (resolve_all s (parts_of tail) >>= λ s. ok (out_of s))
    ended s [] e ih = rw (resolve_all_nil s) refl
    ended s (c ∷ rest') e ih = ih rest' (omega (arith, tail-lt rest c rest' e))

-- The byte loop, for a path that begins with a slash.
pub slow_lem :
    (is_utf8 : Bytes → Bool) (b : Bytes)
    → slow is_utf8 (b'/' ∷ b) ≡ some (normalize_spec is_utf8 (b'/' ∷ b))
unfolding slow normalize_spec out_of unsplit starts_with_slash
slow_lem is_utf8 b =
    let start : Out = record { out = b'/' ∷ []; starts = [] } in
    let walked : walk (suc (length b)) b start
        ≡ some (resolve_all [] (split [] b) >>= λ s. ok (out_of s)) =
      walk_lem (suc (length b)) b [] (omega arith) in
    elim (Result-cases (resolve_all [] (split [] b))) [
      | inr (e, bad) ↦ rw (slow, walked, bad) refl
      | inl (s, good) ↦ rw (slow, walked, good) (rw (out-out_of s) refl)
    ]
