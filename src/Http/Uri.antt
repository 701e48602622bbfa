-- ===== src/Http/Uri.antt =====
-- src/http/uri.rs: `normalize`, by which every request path goes to the file system. A `str` is the
-- list of its bytes.
pub mod Segments
pub mod Refinement
pub mod Fast
pub mod Safety
pub mod Text
use Prim.Native.Nat.{bit_or}
use oxi_serve.Base.{
  ℕ, zero, suc, ◌+◌, ◌-◌, ◌*◌, Bool, true, false, not, ◌&&◌, ◌||◌, List, [], ◌∷◌, ◌++◌, Option,
  none, some,
}
use oxi_serve.Base.{leb, ltb, ◌==◌, if◌then◌else◌, length, take, drop}
use oxi_serve.Base.Bytes.{Bytes, codes, same_bytes}
use oxi_serve.Base.Result.{Result, ok, err, ◌>>=◌}

pub data UriError : Type 0 where
  invalid not_absolute : UriError

unfoldable pub hex : ℕ → Option ℕ
hex c =
    if leb b'0' c && leb c b'9'
    then some (c - b'0')
    else if leb b'a' c && leb c b'f'
    then some (c - b'a' + 10)
    else if leb b'A' c && leb c b'F'
    then some (c - b'A' + 10)
    else none

-- Reading the bytes of a segment --------------------------------------------------------------------
pub data Lead : Type 0 where
  slash escape plain : Lead

unfoldable pub lead : ℕ → Lead
lead c = if c == b'/' then slash else if c == b'%' then escape else plain

-- Between bytes, or after `%`, or after `%` and a digit. The digits are read one at a time: one
-- that is missing and one that is bad give the same error.
pub data Mode : Type 0 where
  between after_percent : Mode
  after_digit : ℕ → Mode

-- A decoded NUL or `/` is refused.
unfoldable pub accept {ℓ} :
    {A : Type ℓ} → ℕ → Bytes → (Bytes → Result UriError A) → Result UriError A
accept c seg k = if c == 0 || c == b'/' then err invalid else k (seg ++ (c ∷ []))

-- The inner `while`: the segment, and what is left from its `/` on.
unfoldable pub collect : Mode → Bytes → Bytes → Result UriError (Bytes × Bytes)
collect between [] seg = ok (seg, [])
collect after_percent [] seg = err invalid
collect (after_digit h) [] seg = err invalid
collect between (c ∷ rest) seg = elim (lead c) [
  | slash ↦ ok (seg, c ∷ rest)
  | escape ↦ collect after_percent rest seg
  | plain ↦ accept c seg (collect between rest)
]
collect after_percent (c ∷ rest) seg = elim (hex c) [
  | none ↦ err invalid
  | some h ↦ collect (after_digit h) rest seg
]
collect (after_digit h) (c ∷ rest) seg = elim (hex c) [
  | none ↦ err invalid
  | some l ↦ accept (bit_or (h * 16) l) seg (collect between rest)
]

-- Placing a segment ---------------------------------------------------------------------------------
-- `out` and `starts`, whose last element stands first here.
pub record Out : Type 0 where
  pub out : Bytes
  pub starts : List ℕ

climb : Bytes → List ℕ → Result UriError Out
climb out [] = err invalid
climb out (last ∷ starts) = ok (record { out = take last out; starts = starts })

unfoldable pub place : Bytes → Out → Result UriError Out
unfolding climb
place seg o =
    if same_bytes seg [] || same_bytes seg (codes ".")
    then ok o
    else if same_bytes seg (codes "..")
    then climb o.out o.starts
    else ok (record { out = o.out ++ (seg ++ (b'/' ∷ [])); starts = length o.out ∷ o.starts })

-- One turn of the loop: the output, and what is left of the path.
unfoldable pub turn : Bytes → Out → Result UriError (Out × Bytes)
turn rest o = do (seg, tail) ← collect between rest []; o' ← place seg o; ok (o', tail)

-- `if i >= b.len() { break; } i += 1`
go_on {ℓ} : {A : Type ℓ} → Bytes → A → (Bytes → A) → A
go_on [] done more = done
go_on (c ∷ rest) done more = more rest

-- The loop, on fuel; `none` means that it ran out.
unfoldable pub walk : ℕ → Bytes → Out → Option (Result UriError Out)
unfolding go_on
walk zero rest o = none
walk (suc fuel) rest o = elim (turn rest o) [
  | err e ↦ some (err e)
  | ok (o', tail) ↦ go_on tail (some (ok o')) (λ rest'. walk fuel rest' o')
]

-- `normalize` ---------------------------------------------------------------------------------------
unfoldable pub ends_with_slash : Bytes → Bool
ends_with_slash [] = false
ends_with_slash (c ∷ []) = c == b'/'
ends_with_slash (c ∷ d ∷ rest) = ends_with_slash (d ∷ rest)

unfoldable pub trailing_slash : Bytes → Bool
trailing_slash b = ltb 1 (length b) && ends_with_slash b

-- `out.pop()` unless the path ended in a slash
unfoldable pub trim : Bool → Bytes → Bytes
trim trailing out = if not trailing && ltb 1 (length out) then take (length out - 1) out else out

unfoldable pub normal_from : ℕ → Bytes → Bool
normal_from prev [] = true
normal_from prev (c ∷ rest) =
    not (c == b'%')
    && (not (c == b'/' && prev == b'/')
        && (not (c == b'.' && prev == b'/') && (not (c == 0) && normal_from c rest)))

unfoldable pub is_already_normal : Bytes → Bool
is_already_normal [] = true
is_already_normal (c ∷ rest) = normal_from c rest

unfoldable pub starts_with_slash : Bytes → Bool
starts_with_slash [] = false
starts_with_slash (c ∷ rest) = c == b'/'

-- `String::from_utf8`, whose test is a parameter
unfoldable pub from_utf8 : (Bytes → Bool) → Bytes → Result UriError Bytes
from_utf8 is_utf8 out = if is_utf8 out then ok out else err invalid

unfoldable pub slow : (Bytes → Bool) → Bytes → Option (Result UriError Bytes)
unfolding from_utf8
slow is_utf8 b = elim (walk (length b) (drop 1 b) (record { out = b'/' ∷ []; starts = [] })) [
  | none ↦ none
  | some r ↦ some (r >>= λ o. from_utf8 is_utf8 (trim (trailing_slash b) o.out))
]

unfoldable pub normalize : (Bytes → Bool) → Bytes → Option (Result UriError Bytes)
unfolding starts_with_slash
normalize is_utf8 path =
    if not (starts_with_slash path)
    then some (err not_absolute)
    else if is_already_normal path
    then some (ok path)
    else slow is_utf8 path
