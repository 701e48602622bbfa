-- ===== src/Http2/Conn/Fields/Laws.antt =====
-- src/http2/conn.rs: what `parse_headers` accepts.
use mathlib.Core.Path.{subst}
use mathlib.Core.List.{append_assoc, append-nil}
use oxi_serve.Base.{
  ◌≡◌, ◌≢◌, refl, ℕ, ◌<◌, arith, ◌||◌, sym, ap, ◌∙◌, ◌⊎◌, inl, inr, Bool, true, false, List, [],
  ◌∷◌, ◌++◌, Option, none, some, All,
}
use oxi_serve.Base.{if◌then◌else◌, Bool-cases, ◌==◌}
use oxi_serve.Base.Same.{same_bytes-false, same_bytes-true}
use oxi_serve.Base.Bytes.{Bytes, codes, same_bytes}
use oxi_serve.Base.Result.{Result, ok, err, ◌>>◌, >>=-eq-ok}
use oxi_serve.Http2.Frame.{Code, protocol}
use oxi_serve.Http2.Hpack.Static.{Header}
use oxi_serve.Http2.Conn.Fields.{
  Parsed, Slots, any_uppercase, is_connection_specific, is_bad_te, no_slots, Pseudo, method_slot,
  path_slot, authority_slot, scheme_slot, unknown, pseudo_of, fill, fill_slot, is_refused, is_empty,
  strip_colon, take_ordinary, take_stripped, take_field, take_fields, required, or_default,
  refuse_if, finish, parse_headers,
}

abbrev pub IsPseudo : Header → Type 0
IsPseudo h = (name : Bytes) × (h.name ≡ b':' ∷ name)

-- A byte that is not one of `A` to `Z`.
abbrev pub IsLower : ℕ → Type 0
IsLower b = (b < b'A') ⊎ (b'Z' < b)

-- An ordinary field that HTTP/2 lets through.
pub record IsAllowed (h : Header) : Type 0 where
  pub ordinary : ¬ IsPseudo h
  pub non_empty : h.name ≢ []
  pub lowercase : All IsLower h.name
  pub not_connection : h.name ≢ codes "connection"
  pub not_keep_alive : h.name ≢ codes "keep-alive"
  pub not_proxy_connection : h.name ≢ codes "proxy-connection"
  pub not_transfer_encoding : h.name ≢ codes "transfer-encoding"
  pub not_upgrade : h.name ≢ codes "upgrade"
  pub te : (h.name ≢ codes "te") ⊎ (h.value ≡ codes "trailers")

any_uppercase-IsLower : (name : Bytes) → any_uppercase name ≡ false → All IsLower name
unfolding any_uppercase
any_uppercase-IsLower [] q = tt
any_uppercase-IsLower (b ∷ bs) q = ground (arith, any_uppercase-IsLower bs)

is_empty-false : (b : Bytes) → is_empty b ≡ false → b ≢ []
unfolding is_empty
is_empty-false [] q = cc
is_empty-false (x ∷ b) q = λ e. cc

-- What is neither of two is not the first, and not the second.
neither : (a b : Bool) → (a || b) ≡ false → (a ≡ false) × (b ≡ false)
neither true b q = cc
neither false b q = (refl, q)

is_bad_te-false :
    (h : Header) → is_bad_te h ≡ false → (h.name ≢ codes "te") ⊎ (h.value ≡ codes "trailers")
unfolding is_bad_te
is_bad_te-false h q = elim (Bool-cases (same_bytes h.name (codes "te"))) [
  | inr other ↦ inl (same_bytes-false h.name (codes "te") other)
  | inl te ↦ elim (Bool-cases (same_bytes h.value (codes "trailers"))) [
    | inl trailers ↦ inr (same_bytes-true h.value (codes "trailers") trailers)
    | inr bad ↦ (let p : true ≡ false = rw (te, bad) at q in cc)
  ]
]

strip_colon-none : (h : Header) → strip_colon h.name ≡ none → ¬ IsPseudo h
unfolding strip_colon
strip_colon-none h e (name, q) = let p : some name ≡ none = rw q at e in cc

strip_colon-some : (b name : Bytes) → strip_colon b ≡ some name → (n : Bytes) × (b ≡ b':' ∷ n)
unfolding strip_colon
strip_colon-some [] name e = cc
strip_colon-some (x ∷ b) name e = elim (Bool-cases (x == b':')) [
  | inl colon ↦ (b, ap (λ c. c ∷ b) ((let p : x ≡ b':' = ground (arith, colon) in p)))
  | inr other ↦ (let p : none ≡ some name = rw other at e in cc)
]

-- What the checks of an ordinary field leave.
is_refused-IsAllowed : (h : Header) → strip_colon h.name ≡ none → is_refused h ≡ false → IsAllowed h
unfolding is_refused is_connection_specific
is_refused-IsAllowed h colon q =
    let (lower, q1) = neither (any_uppercase h.name) _ q in
    let (some_byte, q2) = neither (is_empty h.name) _ q1 in
    let (specific, te) = neither (is_connection_specific h.name) _ q2 in
    let (connection, q3) = neither (same_bytes h.name (codes "connection")) _ specific in
    let (alive, q4) = neither (same_bytes h.name (codes "keep-alive")) _ q3 in
    let (proxy, q5) = neither (same_bytes h.name (codes "proxy-connection")) _ q4 in
    let (transfer, upgrade) = neither (same_bytes h.name (codes "transfer-encoding")) _ q5 in
    record {
      ordinary = strip_colon-none h colon;
      non_empty = is_empty-false h.name some_byte;
      lowercase = any_uppercase-IsLower h.name lower;
      not_connection = same_bytes-false h.name (codes "connection") connection;
      not_keep_alive = same_bytes-false h.name (codes "keep-alive") alive;
      not_proxy_connection = same_bytes-false h.name (codes "proxy-connection") proxy;
      not_transfer_encoding = same_bytes-false h.name (codes "transfer-encoding") transfer;
      not_upgrade = same_bytes-false h.name (codes "upgrade") upgrade;
      te = is_bad_te-false h te;
    }

-- The fields of a slot record from which the loop went on with `hs` and ended in `s'`: some
-- pseudo-headers, then ordinary ones, all of them allowed, which `s'` has behind those of `s`.
record Split (s : Slots) (hs : List Header) (s' : Slots) : Type 0 where
  pub pseudos : List Header
  pub rest : List Header
  pub whole : hs ≡ pseudos ++ rest
  pub heads : All IsPseudo pseudos
  pub allowed : All IsAllowed rest
  pub kept : s'.ordinary ≡ s.ordinary ++ rest
  pub early : s.seen_ordinary ≡ true → pseudos ≡ []

fill_slot-same :
    (s t : Slots) (p : Pseudo) (v : Bytes)
    → fill_slot s p v ≡ ok t
    → (t.ordinary ≡ s.ordinary) × (t.seen_ordinary ≡ s.seen_ordinary)
unfolding fill_slot
fill_slot-same s t method_slot v q = let (x, e, d) = >>=-eq-ok (fill s.method v) _ q in (cc, cc)
fill_slot-same s t path_slot v q = let (x, e, d) = >>=-eq-ok (fill s.path v) _ q in (cc, cc)
fill_slot-same s t authority_slot v q =
    let (x, e, d) = >>=-eq-ok (fill s.authority v) _ q in (cc, cc)
fill_slot-same s t scheme_slot v q = let (x, e, d) = >>=-eq-ok (fill s.scheme v) _ q in (cc, cc)
fill_slot-same s t unknown v q = (cc, cc)

-- One field accepted: an ordinary one that is not refused, or a pseudo-header before any of them.
Taken : Slots → Header → Slots → Type 0
Taken s h t =
    (IsAllowed h × (t.ordinary ≡ s.ordinary ++ (h ∷ [])) × (t.seen_ordinary ≡ true))
    ⊎ (IsPseudo h
        × (s.seen_ordinary ≡ false)
        × (t.ordinary ≡ s.ordinary)
        × (t.seen_ordinary ≡ s.seen_ordinary))

-- A guard that was passed.
unless {ℓ} :
    {A : Type ℓ} (b : Bool) {r : Result Code A} {a : A}
    → (if b then err protocol else r) ≡ ok a
    → (b ≡ false) × (r ≡ ok a)
unless true q = (cc, cc)
unless false q = (refl, q)

take_stripped-Taken :
    (s t : Slots) (h : Header) (o : Option Bytes)
    → strip_colon h.name ≡ o
    → take_stripped s h o ≡ ok t
    → Taken s h t
unfolding take_stripped take_ordinary Taken
take_stripped-Taken s t h none e q = elim (Bool-cases (is_refused h)) [
  | inl refused ↦ (let p : err protocol ≡ ok t = rw refused at q in cc)
  | inr allowed ↦
      let p : ok (record s { seen_ordinary = true; ordinary = s.ordinary ++ (h ∷ []) }) ≡ ok t =
        rw allowed at q in
      inl (is_refused-IsAllowed h e allowed, cc, cc)
]
take_stripped-Taken s t h (some name) e q =
    let (fresh, p) = unless s.seen_ordinary q in
    let (same, seen) = fill_slot-same s t (pseudo_of name) h.value p in
    inr (strip_colon-some h.name name e, fresh, same, seen)

take_fields-Split : (hs : List Header) (s s' : Slots) → take_fields hs s ≡ ok s' → Split s hs s'
unfolding take_fields take_field Taken
take_fields-Split [] s s' q = record {
  pseudos = [];
  rest = [];
  whole = refl;
  heads = tt;
  allowed = tt;
  kept = (let e : s ≡ s' = cc in sym (ap (λ u. u.ordinary) e) ∙ sym (append-nil s.ordinary));
  early = λ seen. refl;
}
take_fields-Split (h ∷ hs) s s' q =
    let (t, first, later) = >>=-eq-ok (take_field s h) (take_fields hs) q in
    let rest = take_fields-Split hs t s' later in
    elim (take_stripped-Taken s t h (strip_colon h.name) refl first) [
      | inl (fine, more, seen) ↦
          let tail : hs ≡ rest.rest = rest.whole ∙ ap (λ p. p ++ rest.rest) (rest.early seen) in
          record {
            pseudos = [];
            rest = h ∷ hs;
            whole = refl;
            heads = tt;
            allowed = (fine, subst (All IsAllowed) (sym tail) rest.allowed);
            kept =
                rest.kept
                ∙ ap (λ r. r ++ rest.rest) more
                ∙ append_assoc s.ordinary (h ∷ []) rest.rest
                ∙ ap (λ r. s.ordinary ++ (h ∷ r)) (sym tail);
            early = λ seen. refl;
          }
      | inr (head, fresh, same, seen) ↦ record {
        pseudos = h ∷ rest.pseudos;
        rest = rest.rest;
        whole = ap (λ r. h ∷ r) rest.whole;
        heads = (head, rest.heads);
        allowed = rest.allowed;
        kept = rest.kept ∙ ap (λ r. r ++ rest.rest) same;
        early = λ was. absurd (cc);
      }
    ]

refuse_if-passed {ℓ} :
    {A : Type ℓ} (b : Bool) {r : Result Code A} {a : A}
    → (refuse_if b >> r) ≡ ok a
    → (b ≡ false) × (r ≡ ok a)
unfolding refuse_if
refuse_if-passed true q = (cc, cc)
refuse_if-passed false q = (refl, q)

required-ok : (o : Option Bytes) {v : Bytes} → required o ≡ ok v → o ≡ some v
unfolding required
required-ok none q = cc
required-ok (some w) q = cc

-- A request that was accepted: its header list is pseudo-headers followed by the ordinary fields
-- of the request, all of them allowed; and neither is the path empty nor the method CONNECT.
pub record IsRequest (hs : List Header) (p : Parsed) : Type 0 where
  pub pseudos : List Header
  pub whole : hs ≡ pseudos ++ p.ordinary
  pub heads : All IsPseudo pseudos
  pub allowed : All IsAllowed p.ordinary
  pub path : p.path ≢ []
  pub method : p.method ≢ codes "CONNECT"

finish-ok :
    (s : Slots) (p : Parsed)
    → finish s ≡ ok p
    → (p.ordinary ≡ s.ordinary) × (p.path ≢ []) × (p.method ≢ codes "CONNECT")
unfolding finish
finish-ok s p q =
    let (m, has_method, q1) = >>=-eq-ok (required s.method) _ q in
    let (a, has_path, q2) = >>=-eq-ok (required s.path) _ q1 in
    let (no_connect, q3) = refuse_if-passed (same_bytes m (codes "CONNECT")) q2 in
    let (c, has_scheme, q4) = >>=-eq-ok (required s.scheme) _ q3 in
    let (non_empty, q5) = refuse_if-passed (is_empty a) q4 in
    let made : record {
      method = m;
      path = a;
      authority = or_default s.authority;
      ordinary = s.ordinary;
    }
        ≡ p =
      cc in
    (
      sym (ap (λ r. r.ordinary) made),
      subst (λ r. r.path ≢ []) made (is_empty-false a non_empty),
      subst (λ r. r.method ≢ codes "CONNECT") made
          (same_bytes-false m (codes "CONNECT") no_connect),
    )

-- Every header list that `parse_headers` accepts is fields whose names begin with a colon, followed
-- by the ordinary fields of the request, whose names do not; none of these has an empty name, an
-- uppercase ASCII letter in its name, the name connection, keep-alive, proxy-connection,
-- transfer-encoding or upgrade, or the name te with a value other than trailers; the path is not
-- empty and the method is not CONNECT.
pub parse_headers-IsRequest :
    (hs : List Header) (p : Parsed) → parse_headers hs ≡ ok p → IsRequest hs p
unfolding parse_headers
parse_headers-IsRequest hs p q =
    let (s, taken, finished) = >>=-eq-ok (take_fields hs no_slots) finish q in
    let split = take_fields-Split hs no_slots s taken in
    let (ordinary, path, method) = finish-ok s p finished in
    let same : split.rest ≡ p.ordinary = sym (ordinary ∙ split.kept) in
    record {
      pseudos = split.pseudos;
      whole = split.whole ∙ ap (λ r. split.pseudos ++ r) same;
      heads = split.heads;
      allowed = subst (All IsAllowed) same split.allowed;
      path = path;
      method = method;
    }
