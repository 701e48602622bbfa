-- ===== src/Http2/Conn/Invariant.antt =====
-- src/http2/conn.rs: a valid connection between frames, and changes of a stream.
use oxi_serve.Base.{
  ℕ, ◌%◌, ◌≤◌, ◌<◌, ◌≡◌, inl, inr, refl, ap, arith, Bool, true, false, not, List, [], ◌∷◌, Option,
  none, some, All,
}
use mathlib.Core.Path.{subst}
use oxi_serve.Base.{◌==◌, if◌then◌else◌, Bool-cases}
use oxi_serve.Http2.Frame.{Code, max_window, default_max_frame, max_frame_limit}
use oxi_serve.Http2.Hpack.Table.{Decoder}
use oxi_serve.Http2.Hpack.Table.Bounds
use oxi_serve.Http2.Conn.Streams.{
  Stream, Conn, get, update, map_values, retain, count, max_concurrent, Next, again, dispatch,
  finish, fail,
}

abbrev pub keys {ℓ} : {A : Type ℓ} → List (ℕ × A) → List ℕ
keys [] = []
keys ((k, a) ∷ m) = k ∷ keys m

-- A stream whose response is still to be written.
abbrev pub live : Stream → Bool
live s = not s.done

abbrev pub Has : ℕ → List (ℕ × Stream) → Type 0
Has id m = (s : Stream) × (get id m ≡ some s)

-- A client's stream id: odd, and not above the highest one opened.
abbrev pub IsOpened : ℕ → ℕ → Type 0
IsOpened highest id = (id ≤ highest) × (id % 2 ≡ 1)

pub record Facts (dec : Decoder) (streams : List (ℕ × Stream))
    (initial max_frame conn_window highest : ℕ) (expect : Option ℕ) : Type 0 where
  pub table : Bounds.IsValid dec
  pub window : initial ≤ max_window
  pub frame_lo : default_max_frame ≤ max_frame
  pub frame_hi : max_frame ≤ max_frame_limit
  pub conn : conn_window ≤ max_window
  pub ids : All (IsOpened highest) (keys streams)
  pub waiting : (id : ℕ) → expect ≡ some id → Has id streams
  pub crowd : count live streams ≤ max_concurrent

-- The header table is within its limits; the connection's send window, the initial window of streams
-- and the frame size are within the protocol's (nothing is said of the window of an open stream);
-- every entry is an odd id not above the highest one seen, an open header block has its entry, and
-- no more than `max_concurrent` entries are still at work.
abbrev pub IsValid : Conn → Type 0
IsValid c =
    Facts c.dec c.streams c.peer_initial_window c.max_frame c.conn_window c.highest
      c.expect_continuation

pub keys-update :
    (id : ℕ) (f : Stream → Stream) (m : List (ℕ × Stream)) → keys (update id f m) ≡ keys m
unfolding update
keys-update id f [] = refl
keys-update id f ((k, s) ∷ m) = ground (arith, keys-update id f m)

keys-map_values : (f : Stream → Stream) (m : List (ℕ × Stream)) → keys (map_values f m) ≡ keys m
unfolding map_values
keys-map_values f [] = refl
keys-map_values f ((k, s) ∷ m) = ap (λ t. k ∷ t) (keys-map_values f m)

-- Where the entry is after a change of one stream.
pub get-update :
    (id j : ℕ) (f : Stream → Stream) (m : List (ℕ × Stream)) (s : Stream)
    → get j m ≡ some s
    → get j (update id f m) ≡ some (if id == j then f s else s)
unfolding update get
get-update id j f [] s e = cc
get-update id j f ((k, t) ∷ m) s e = ground (arith, get-update id j f m s)

pub Has-update :
    (id j : ℕ) (f : Stream → Stream) (m : List (ℕ × Stream)) → Has j m → Has j (update id f m)
Has-update id j f m (s, e) = (if id == j then f s else s, get-update id j f m s e)

Has-map_values :
    (f : Stream → Stream) (j : ℕ) (m : List (ℕ × Stream)) → Has j m → Has j (map_values f m)
unfolding map_values get
Has-map_values f j [] (s, e) = cc
Has-map_values f j ((k, t) ∷ m) (s, e) = elim (Bool-cases (k == j)) [
  | inl hit ↦ (f t, rw hit refl)
  | inr miss ↦ let (u, q) = Has-map_values f j m (s, rw miss at e) in (u, rw miss q)
]

pub new_Has : (id : ℕ) (s : Stream) (m : List (ℕ × Stream)) → Has id ((id, s) ∷ m)
unfolding get
new_Has id s m = (s, ground arith)

pub Has-cons : (id : ℕ) (s : Stream) (j : ℕ) (m : List (ℕ × Stream)) → Has j m → Has j ((id, s) ∷ m)
unfolding get
Has-cons id s j m (t, e) = elim (Bool-cases (id == j)) [
  | inl hit ↦ (s, rw hit refl)
  | inr miss ↦ (t, rw miss e)
]

-- A change that wakes no finished stream.
abbrev pub Wakes : (Stream → Stream) → Type 0
Wakes f = (s : Stream) → live (f s) ≡ true → live s ≡ true

count-update :
    (id : ℕ) (f : Stream → Stream) (m : List (ℕ × Stream))
    → Wakes f
    → count live (update id f m) ≤ count live m
unfolding update count
count-update id f [] w = omega arith
count-update id f ((k, s) ∷ m) w = ground (arith, w s, count-update id f m w)

count-map_values :
    (f : Stream → Stream) (m : List (ℕ × Stream))
    → Wakes f
    → count live (map_values f m) ≤ count live m
unfolding map_values count
count-map_values f [] w = omega arith
count-map_values f ((k, s) ∷ m) w = ground (arith, w s, count-map_values f m w)

count-retain :
    (keep : Stream → Bool) (m : List (ℕ × Stream)) → count live (retain keep m) ≤ count live m
unfolding retain count
count-retain keep [] = omega arith
count-retain keep ((k, s) ∷ m) = ground (arith, count-retain keep m)

All-retain :
    (h : ℕ) (keep : Stream → Bool) (m : List (ℕ × Stream))
    → All (IsOpened h) (keys m)
    → All (IsOpened h) (keys (retain keep m))
unfolding retain
All-retain h keep [] a = tt
All-retain h keep ((k, s) ∷ m) a = ground (arith, All-retain h keep m a.1)

All-higher : (h h' : ℕ) (ids : List ℕ) → h ≤ h' → All (IsOpened h) ids → All (IsOpened h') ids
All-higher h h' [] le a = tt
All-higher h h' (id ∷ ids) le a = ((omega arith, a.0.1), All-higher h h' ids le a.1)

module _ {dec : Decoder} {m : List (ℕ × Stream)} {initial frame conn h : ℕ}
    {expect : Option ℕ} where
  pub Facts-update :
      (id : ℕ) (f : Stream → Stream)
      → Wakes f
      → Facts dec m initial frame conn h expect
      → Facts dec (update id f m) initial frame conn h expect
  Facts-update id f w v = record {
    table = v.table;
    window = v.window;
    frame_lo = v.frame_lo;
    frame_hi = v.frame_hi;
    conn = v.conn;
    ids = rw (keys-update id f m) v.ids;
    waiting = λ j e. Has-update id j f m (v.waiting j e);
    crowd = omega (arith, count-update id f m w, v.crowd);
  }

  pub Facts-map_values :
      (f : Stream → Stream)
      → Wakes f
      → Facts dec m initial frame conn h expect
      → Facts dec (map_values f m) initial frame conn h expect
  Facts-map_values f w v = record {
    table = v.table;
    window = v.window;
    frame_lo = v.frame_lo;
    frame_hi = v.frame_hi;
    conn = v.conn;
    ids = rw (keys-map_values f m) v.ids;
    waiting = λ j e. Has-map_values f j m (v.waiting j e);
    crowd = omega (arith, count-map_values f m w, v.crowd);
  }

  -- Pruning under a higher id, with no header block open.
  pub Facts-retain :
      (keep : Stream → Bool) (higher : ℕ)
      → h ≤ higher
      → expect ≡ none
      → Facts dec m initial frame conn h expect
      → Facts dec (retain keep m) initial frame conn higher expect
  Facts-retain keep higher le shut v = record {
    table = v.table;
    window = v.window;
    frame_lo = v.frame_lo;
    frame_hi = v.frame_hi;
    conn = v.conn;
    ids = All-retain higher keep m (All-higher h higher (keys m) le v.ids);
    waiting = λ j e. cc;
    crowd = omega (arith, count-retain keep m, v.crowd);
  }

  pub Facts-dec :
      {dec' : Decoder}
      → Bounds.IsValid dec'
      → Facts dec m initial frame conn h expect
      → Facts dec' m initial frame conn h expect
  Facts-dec t v = record {
    table = t;
    window = v.window;
    frame_lo = v.frame_lo;
    frame_hi = v.frame_hi;
    conn = v.conn;
    ids = v.ids;
    waiting = v.waiting;
    crowd = v.crowd;
  }

  pub Facts-window :
      {v' : ℕ}
      → v' ≤ max_window
      → Facts dec m initial frame conn h expect
      → Facts dec m v' frame conn h expect
  Facts-window le v = record {
    table = v.table;
    window = le;
    frame_lo = v.frame_lo;
    frame_hi = v.frame_hi;
    conn = v.conn;
    ids = v.ids;
    waiting = v.waiting;
    crowd = v.crowd;
  }

  pub Facts-frame :
      {v' : ℕ}
      → default_max_frame ≤ v'
      → v' ≤ max_frame_limit
      → Facts dec m initial frame conn h expect
      → Facts dec m initial v' conn h expect
  Facts-frame lo hi v = record {
    table = v.table;
    window = v.window;
    frame_lo = lo;
    frame_hi = hi;
    conn = v.conn;
    ids = v.ids;
    waiting = v.waiting;
    crowd = v.crowd;
  }

  pub Facts-conn :
      {v' : ℕ}
      → v' ≤ max_window
      → Facts dec m initial frame conn h expect
      → Facts dec m initial frame v' h expect
  Facts-conn le v = record {
    table = v.table;
    window = v.window;
    frame_lo = v.frame_lo;
    frame_hi = v.frame_hi;
    conn = le;
    ids = v.ids;
    waiting = v.waiting;
    crowd = v.crowd;
  }

  -- A header block that ends.
  pub Facts-shut : Facts dec m initial frame conn h expect → Facts dec m initial frame conn h none
  Facts-shut v = record {
    table = v.table;
    window = v.window;
    frame_lo = v.frame_lo;
    frame_hi = v.frame_hi;
    conn = v.conn;
    ids = v.ids;
    waiting = λ j e. cc;
    crowd = v.crowd;
  }

  pub Facts-cons :
      (id : ℕ) (s : Stream)
      → IsOpened h id
      → count live m < max_concurrent
      → Facts dec m initial frame conn h expect
      → Facts dec ((id, s) ∷ m) initial frame conn h expect
  unfolding count
  Facts-cons id s opened room v = record {
    table = v.table;
    window = v.window;
    frame_lo = v.frame_lo;
    frame_hi = v.frame_hi;
    conn = v.conn;
    ids = (opened, v.ids);
    waiting = λ j e. Has-cons id s j m (v.waiting j e);
    crowd = ground arith;
  }

  pub Facts-expect :
      (id : ℕ)
      → Has id m
      → Facts dec m initial frame conn h expect
      → Facts dec m initial frame conn h (some id)
  Facts-expect id has v = record {
    table = v.table;
    window = v.window;
    frame_lo = v.frame_lo;
    frame_hi = v.frame_hi;
    conn = v.conn;
    ids = v.ids;
    waiting = λ j e. let q : id ≡ j = cc in subst (λ k. Has k m) q has;
    crowd = v.crowd;
  }

-- A round that goes on leaves a valid connection, and no `expect` fails: there is no `Keeps crash`.
pub data Keeps : Next → Type 0 where
  on_again : {c : Conn} → IsValid c → Keeps (again c)
  on_dispatch : {c : Conn} → IsValid c → Keeps (dispatch c)
  on_finish : {c : Conn} → IsValid c → Keeps (finish c)
  on_fail : {c : Conn} {e : Code} → Keeps (fail c e)

pub Keeps-if :
    (b : Bool) (x y : Next)
    → (b ≡ true → Keeps x)
    → (b ≡ false → Keeps y)
    → Keeps (if b then x else y)
Keeps-if true x y hx hy = hx refl
Keeps-if false x y hx hy = hy refl
