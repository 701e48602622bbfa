-- ===== src/Server/LimitConn.antt =====
-- src/server/limit_conn.rs: the count of requests in flight. Workers race on the words of a zone, so
-- an acquisition and its release are a task that makes one atomic load or compare-and-exchange a
-- step, and the tasks' steps come in any order.
pub mod Word
pub mod Effects
pub mod Steps
pub mod Exact
mod Examples
use Prim.Native.Nat.{min, bit_and, bit_or, bit_xor}
use oxi_serve.Base.{
  ℕ, zero, suc, ◌+◌, ◌-◌, ◌*◌, ◌/◌, ◌%◌, ◌^◌, Bool, true, false, not, ◌&&◌, ◌||◌, List, [], ◌∷◌,
  ◌++◌, Option, none, some,
}
use oxi_serve.Base.{leb, ltb, ◌==◌, if◌then◌else◌}
use oxi_serve.Base.Bytes.{Bytes}

abbrev pub probe_len : ℕ
probe_len = 16

abbrev pub max_conns : ℕ
max_conns = 65535

abbrev pub count_mask : ℕ
count_mask = 2 ^ 16 - 1

unfoldable pub pack : ℕ → ℕ → ℕ
pack tag count = bit_or (tag * 2 ^ 16 % 2 ^ 64) (bit_and count count_mask)

unfoldable pub tag_of : ℕ → ℕ
tag_of w = w / 2 ^ 16

unfoldable pub count_of : ℕ → ℕ
count_of w = bit_and w count_mask

-- The fields that never change; the words are the `Mem`.
pub record Zone : Type 0 where
  pub slots : ℕ
  pub seed : ℕ

abbrev pub Mem : Type 0
Mem = ℕ → ℕ

pub hash_bytes : ℕ → Bytes → ℕ
hash_bytes h [] = h
hash_bytes h (b ∷ key) = hash_bytes (bit_xor h b * 0x100000001b3 % 2 ^ 64) key

unfoldable pub fold_tag : ℕ → ℕ
fold_tag h = let t = bit_and (bit_xor h (h / 2 ^ 48)) (2 ^ 48 - 1) in if t == 0 then 1 else t

unfoldable pub tag : Zone → Bytes → ℕ
unfolding hash_bytes
tag z key = fold_tag (hash_bytes (bit_xor 0xcbf29ce484222325 z.seed) key)

-- Where a task stands, before which atomic access: in the probe, at the claim of an empty slot, in
-- `increment` at its load and its exchange, at the takeover of a finished slot; it holds a guard; in
-- `release` at its load and its exchange; or it is over.
pub data Phase : Type 0 where
  probing claiming : (p : ℕ) (reusable : Option ℕ) → Phase
  incrementing retaking holding releasing : (i : ℕ) → Phase
  bumping taking lowering : (i w : ℕ) → Phase
  refused over : Phase

pub record Task : Type 0 where
  pub tag : ℕ
  pub limit : ℕ
  pub at : Phase

-- `acquire`, up to its first load.
unfoldable pub acquire : Zone → Bytes → ℕ → Task
acquire z key limit = record { tag = tag z key; limit = min limit max_conns; at = probing 0 none }

unfoldable pub slot : Zone → ℕ → ℕ → ℕ
slot z tag p = bit_and (bit_and tag (z.slots - 1) + p) (z.slots - 1)

unfoldable pub write : Mem → ℕ → ℕ → Mem
write mem i w = λ j. if i == j then w else mem j

unfoldable pub after_probe : Option ℕ → Phase
after_probe none = refused
after_probe (some i) = retaking i

-- The next turn of the probe, or what comes behind it.
unfoldable pub go_on : ℕ → Option ℕ → Phase
unfolding after_probe
go_on p reusable = if leb probe_len p then after_probe reusable else probing p reusable

unfoldable pub note_reusable : Option ℕ → ℕ → ℕ → Option ℕ
note_reusable (some j) i w = some j
note_reusable none i w = if count_of w == 0 then some i else none

-- A task's next access: what the words and the task are then.
unfoldable pub act : Zone → Mem → Task → Mem × Task
act z mem t = elim t.at [
  | probing p reusable ↦
      let i = slot z t.tag p in
      let w = mem i in
      (
        mem,
        record t {
          at =
              if w == 0
              then claiming p reusable
              else if tag_of w == t.tag
              then incrementing i
              else go_on (p + 1) (note_reusable reusable i w);
        },
      )
  | claiming p reusable ↦
      let i = slot z t.tag p in
      if mem i == 0
      then (write mem i (pack t.tag 1), record t { at = holding i })
      else if tag_of (mem i) == t.tag
      then (mem, record t { at = incrementing i })
      else (mem, record t { at = go_on (p + 1) reusable })
  | incrementing i ↦
      let w = mem i in
      let count = count_of w in
      if not (w == 0) && not (tag_of w == t.tag)
      then (mem, record t { at = refused })
      else if leb t.limit count || leb count_mask count
      then (mem, record t { at = refused })
      else (mem, record t { at = bumping i w })
  | bumping i w ↦
      if mem i == w
      then (write mem i (pack t.tag (count_of w + 1)), record t { at = holding i })
      else (mem, record t { at = incrementing i })
  | retaking i ↦
      let w = mem i in
      if count_of w == 0
      then (mem, record t { at = taking i w })
      else (mem, record t { at = refused })
  | taking i w ↦
      if mem i == w
      then (write mem i (pack t.tag 1), record t { at = holding i })
      else (mem, record t { at = refused })
  | holding i ↦ (mem, record t { at = releasing i })
  | releasing i ↦
      let w = mem i in
      if not (tag_of w == t.tag) || count_of w == 0
      then (mem, record t { at = over })
      else (mem, record t { at = lowering i w })
  | lowering i w ↦
      if mem i == w
      then (write mem i (pack t.tag (count_of w - 1)), record t { at = over })
      else (mem, record t { at = releasing i })
  | refused ↦ (mem, t)
  | over ↦ (mem, t)
]

-- The loop of `count`, with `left` slots still to see.
count_from : Zone → Mem → ℕ → ℕ → ℕ → ℕ
count_from z mem tag zero p = 0
count_from z mem tag (suc left) p =
    let w = mem (slot z tag p) in
    let rest = count_from z mem tag left (p + 1) in
    if w == 0 then 0 else if tag_of w == tag then count_of w else rest

unfoldable pub count : Zone → Mem → Bytes → ℕ
unfolding count_from
count z mem key = count_from z mem (tag z key) probe_len 0

-- Workers -------------------------------------------------------------------------------------------
pub record State : Type 0 where
  pub mem : Mem
  pub tasks : List Task

abbrev pub empty : State
empty = record { mem = λ i. 0; tasks = [] }

-- A request arrives, or one of the tasks makes its next access; a request that holds a guard may end
-- at any time.
pub data Move (z : Zone) (limit : ℕ) : State → State → Type 0 where
  arrives :
      (s : State) (key : Bytes)
      → Move z limit s (record s { tasks = acquire z key limit ∷ s.tasks })
  acts :
      (mem : Mem) (before : List Task) (t : Task) (after : List Task)
      → Move z limit
          (record { mem = mem; tasks = before ++ (t ∷ after) })
          (record { mem = (act z mem t).0; tasks = before ++ ((act z mem t).1 ∷ after) })

pub data Reach (z : Zone) (limit : ℕ) : State → Type 0 where
  here : Reach z limit empty
  next : {s t : State} → Reach z limit s → Move z limit s t → Reach z limit t
