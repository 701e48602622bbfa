-- ===== src/Server/Upstream.antt =====
-- src/server/upstream.rs: the peers of an `upstream` block. Atomics are plain fields, read and
-- written by one worker at a time; counters wrap at 32 bits. The vectors `servers` and `health`,
-- which have one length, are one list of pairs, and a peer's place in it is its number.
pub mod Health
pub mod Select
pub mod Robin
pub mod Pool
mod Examples
use oxi_serve.Base.{
  ℕ, zero, suc, ◌+◌, ◌-◌, ◌*◌, ◌/◌, ◌%◌, ◌^◌, max, Bool, true, false, not, ◌&&◌, ◌||◌, List, [],
  ◌∷◌, Option, none, some,
}
use oxi_serve.Base.{leb, ltb, ◌==◌, if◌then◌else◌, get_elem?, length}
use oxi_serve.Base.Bytes.{Bytes, same_bytes}
use oxi_serve.Base.Opt.{◌>>=◌}

pub record PeerHealth : Type 0 where
  pub fails : ℕ
  pub down_until_ms : ℕ
  pub window_start_ms : ℕ
  pub in_flight : ℕ
  pub probe_fails : ℕ
  pub probe_passes : ℕ
  pub probe_down : Bool

abbrev pub healthy : PeerHealth
healthy = record {
  fails = 0;
  down_until_ms = 0;
  window_start_ms = 0;
  in_flight = 0;
  probe_fails = 0;
  probe_passes = 0;
  probe_down = false;
}

unfoldable pub is_down : PeerHealth → ℕ → Bool
is_down h now_ms = h.probe_down || (not (h.down_until_ms == 0) && ltb now_ms h.down_until_ms)

unfoldable pub record_probe : PeerHealth → Bool → ℕ → ℕ → PeerHealth
record_probe h true fails passes =
    let p = (h.probe_passes + 1) % 2 ^ 32 in
    let seen = record h { probe_fails = 0; probe_passes = p } in
    if leb (max passes 1) p
    then record seen { probe_down = false; fails = 0; down_until_ms = 0 }
    else seen
record_probe h false fails passes =
    let f = (h.probe_fails + 1) % 2 ^ 32 in
    let seen = record h { probe_passes = 0; probe_fails = f } in
    if leb (max fails 1) f then record seen { probe_down = true } else seen

-- The count of failures in the window, which starts anew if none is open or it is over.
unfoldable pub count_failure : PeerHealth → ℕ → ℕ → PeerHealth
count_failure h now_ms fail_timeout_ms =
    if not (ltb 0 h.fails) || ltb fail_timeout_ms (now_ms - h.window_start_ms)
    then record h { window_start_ms = now_ms; fails = 1 }
    else record h { fails = (h.fails + 1) % 2 ^ 32 }

unfoldable pub record_failure : PeerHealth → ℕ → ℕ → ℕ → PeerHealth
unfolding count_failure
record_failure h now_ms max_fails fail_timeout_ms =
    let counted = count_failure h now_ms fail_timeout_ms in
    if max_fails == 0
    then h
    else if leb max_fails counted.fails
    then record counted { down_until_ms = (now_ms + fail_timeout_ms) % 2 ^ 64 }
    else counted

unfoldable pub record_success : PeerHealth → PeerHealth
record_success h = record h { fails = 0; window_start_ms = 0; down_until_ms = 0 }

-- `InFlightGuard`
unfoldable pub enter : PeerHealth → PeerHealth
enter h = record h { in_flight = (h.in_flight + 1) % 2 ^ 32 }

unfoldable pub leave : PeerHealth → PeerHealth
leave h = record h { in_flight = (h.in_flight + (2 ^ 32 - 1)) % 2 ^ 32 }

-- Choosing a peer ---------------------------------------------------------------------------------
pub record Server : Type 0 where
  pub sticky_id : Bytes
  pub weight : ℕ
  pub backup : Bool
  pub down : Bool

pub record Peer : Type 0 where
  pub server : Server
  pub health : PeerHealth

pub data LbMethod : Type 0 where
  round_robin least_conn ip_hash random : LbMethod

pub record Upstream : Type 0 where
  pub peers : List Peer
  pub method : LbMethod
  pub sticky : Bool

unfoldable pub contains : List ℕ → ℕ → Bool
contains [] i = false
contains (j ∷ js) i = j == i || contains js i

abbrev pub same_flag : Bool → Bool → Bool
same_flag true b = b
same_flag false b = not b

unfoldable pub is_candidate : ℕ → List ℕ → Bool → ℕ → Peer → Bool
is_candidate now_ms exclude want_backup i p =
    not p.server.down
    && (same_flag p.server.backup want_backup
        && (not (is_down p.health now_ms) && not (contains exclude i)))

unfoldable pub may_try : List ℕ → ℕ → Peer → Bool
may_try exclude i p = not p.server.down && not (contains exclude i)

-- `enumerate().filter(test).map(index)`, from the number `i` on
unfoldable pub indices : (ℕ → Peer → Bool) → ℕ → List Peer → List ℕ
indices test i [] = []
indices test i (p ∷ ps) = let rest = indices test (suc i) ps in if test i p then i ∷ rest else rest

-- `min_by_key`, which keeps the first of those that are least.
unfoldable pub least_from : (ℕ → ℕ) → ℕ → List ℕ → ℕ
least_from key best [] = best
least_from key best (i ∷ is) = least_from key (if ltb (key i) (key best) then i else best) is

unfoldable pub min_by_key : (ℕ → ℕ) → List ℕ → Option ℕ
unfolding least_from
min_by_key key [] = none
min_by_key key (i ∷ is) = some (least_from key i is)

-- The peer of a number that `indices` gave; there is no other.
weight_of : Option Peer → ℕ
weight_of none = 1
weight_of (some p) = max p.server.weight 1

in_flight_of : Option Peer → ℕ
in_flight_of none = 0
in_flight_of (some p) = p.health.in_flight

down_until_of : Option Peer → ℕ
down_until_of none = 0
down_until_of (some p) = p.health.down_until_ms

unfoldable pub weight : List Peer → ℕ → ℕ
unfolding weight_of
weight peers i = weight_of (get_elem? peers i)

unfoldable pub load : List Peer → ℕ → ℕ
unfolding in_flight_of
load peers i = in_flight_of (get_elem? peers i) * 1000 / weight peers i

unfoldable pub down_until : List Peer → ℕ → ℕ
unfolding down_until_of
down_until peers i = down_until_of (get_elem? peers i)

unfoldable pub total_weight : (ℕ → ℕ) → List ℕ → ℕ
total_weight w [] = 0
total_weight w (i ∷ is) = w i + total_weight w is

-- `for &i in candidates { … slot -= w; }`, and `candidates[0]` behind it
unfoldable pub robin_slot : (ℕ → ℕ) → ℕ → ℕ → List ℕ → ℕ
robin_slot w slot first [] = first
robin_slot w slot first (i ∷ is) =
    let rest = robin_slot w (slot - w i) first is in if ltb slot (w i) then i else rest

unfoldable pub robin : (ℕ → ℕ) → ℕ → List ℕ → Option ℕ
robin w cursor [] = none
robin w cursor (i ∷ is) =
    some (robin_slot w (cursor % 2 ^ 32 % max (total_weight w (i ∷ is) % 2 ^ 32) 1) i (i ∷ is))

unfoldable pub or_zero : Option ℕ → ℕ
or_zero none = 0
or_zero (some h) = h

-- `none` stands for an index out of range.
unfoldable pub pick_from : Upstream → List ℕ → Option ℕ → ℕ → Option ℕ
unfolding robin or_zero
pick_from up candidates hash rr_cursor = elim up.method [
  | ip_hash ↦ get_elem? candidates (or_zero hash % length candidates)
  | least_conn ↦ min_by_key (load up.peers) candidates
  | random ↦ get_elem? candidates (rr_cursor % length candidates)
  | round_robin ↦ robin (weight up.peers) rr_cursor candidates
]

-- One turn of `for want_backup in [false, true]`, and what comes behind it.
unfoldable pub or_else : List ℕ → Option ℕ → Option ℕ → Option ℕ
or_else [] picked next = next
or_else (i ∷ is) picked next = picked

unfoldable pub select_excluding : Upstream → ℕ → Option ℕ → ℕ → List ℕ → Option ℕ
select_excluding up now_ms hash rr_cursor exclude =
    let primary = indices (is_candidate now_ms exclude false) 0 up.peers in
    let backup = indices (is_candidate now_ms exclude true) 0 up.peers in
    or_else primary (pick_from up primary hash rr_cursor) (
      or_else backup (pick_from up backup hash rr_cursor)
        (min_by_key (down_until up.peers) (indices (may_try exclude) 0 up.peers)))

unfoldable pub select : Upstream → ℕ → Option ℕ → ℕ → Option ℕ
select up now_ms hash rr_cursor = select_excluding up now_ms hash rr_cursor []

-- `position(|s| *s.sticky_id == id)`, with the peer
find_sticky : Bytes → ℕ → List Peer → Option (ℕ × Peer)
find_sticky id i [] = none
find_sticky id i (p ∷ ps) =
    let rest = find_sticky id (suc i) ps in
    if same_bytes p.server.sticky_id id then some (i, p) else rest

usable : ℕ → List ℕ → ℕ × Peer → Option ℕ
usable now_ms exclude (i, p) =
    if not p.server.down && (not (is_down p.health now_ms) && not (contains exclude i))
    then some i
    else none

unfoldable pub sticky_peer : Upstream → ℕ → Option Bytes → List ℕ → Option ℕ
unfolding find_sticky usable
sticky_peer up now_ms none exclude = none
sticky_peer up now_ms (some id) exclude =
    if up.sticky then find_sticky id 0 up.peers >>= usable now_ms exclude else none
