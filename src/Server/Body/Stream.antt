-- ===== src/Server/Body/Stream.antt =====
-- src/server/conn.rs: what the loops that fill the buffer leave, however the socket cuts the bytes.
use oxi_serve.Base.{
  ℕ, ◌+◌, ◌<◌, ◌≤◌, Bool, true, false, List, [], ◌∷◌, ◌++◌, append-nil, append_assoc, ◌≡◌, ◌≢◌,
  refl, sym, ap, ◌∙◌, inl, inr, Bool-cases, Option, All,
}
use oxi_serve.Base.{leb, le→ltb, leb→le, length, length-append, arith}
use oxi_serve.Base.Bytes.{Bytes}
use oxi_serve.Base.Result.{ok}
use oxi_serve.Server.Body.{Read, got, fill, too_long, await_line, await_bytes}
use oxi_serve.Server.Body.Crlf.{first_index, find_crlf-crlf_index, crlf_index-prefix}

le→leb : (a b : ℕ) → a ≤ b → leb a b ≡ true
le→leb a b h = ground arith

-- Reads that give bytes, and all of them.
unfoldable pub gots : List Bytes → List Read
gots [] = []
gots (p ∷ ps) = got p ∷ gots ps

unfoldable pub joined : List Bytes → Bytes
joined [] = []
joined (p ∷ ps) = p ++ joined ps

unfoldable pub IsPiece : Bytes → Type 0
IsPiece p = 0 < length p

-- The bytes that are unread or still come, unread of them at least `n`, after some reads.
pub record Filled (n : ℕ) (stream : Bytes) : Type 0 where
  pub unread : Bytes
  pub pieces : List Bytes
  pub all : All IsPiece pieces
  pub same : unread ++ joined pieces ≡ stream
  pub enough : n ≤ length unread

fill-got : (p : Bytes) (unread : Bytes) → IsPiece p → fill (got p) unread ≡ ok (unread ++ p)
unfolding fill IsPiece
fill-got [] unread h = absurd (omega arith)
fill-got (b ∷ bs) unread h = refl

pub await_bytes-Filled :
    (n : ℕ) (stream : Bytes) (unread : Bytes) (pieces : List Bytes)
    → All IsPiece pieces
    → unread ++ joined pieces ≡ stream
    → n ≤ length stream
    → (f : Filled n stream) × (await_bytes n unread (gots pieces) ≡ ok (f.unread, gots f.pieces))
unfolding await_bytes gots joined
await_bytes-Filled n stream unread [] h q e =
    let here : unread ≡ stream = sym (append-nil unread) ∙ q in
    let le : n ≤ length unread = rw here e in
    (
      record { unread = unread; pieces = []; all = tt; same = q; enough = le },
      rw (le→leb n (length unread) le) refl,
    )
await_bytes-Filled n stream unread (p ∷ ps) (hp, h) q e =
    let ih =
      await_bytes-Filled n stream (unread ++ p) ps h (append_assoc unread p (joined ps) ∙ q) e in
    elim (Bool-cases (leb n (length unread))) [
      | inl t ↦ (
        record {
          unread = unread;
          pieces = p ∷ ps;
          all = (hp, h);
          same = q;
          enough = leb→le n (length unread) t;
        },
        rw t refl,
      )
      | inr t ↦ let (f, r) = ih in (f, rw (t, fill-got p unread hp) r)
    ]

fits : (limited : Bool) (unread : Bytes) → length unread ≤ 1024 → too_long limited unread ≡ false
unfolding too_long
fits false unread h = refl
fits true unread h = le→ltb 1024 (length unread) h

-- Where the line ends, and no more of the bytes read than there are.
module _ (memchr : ℕ → Bytes → Option ℕ)
    (first : (c : ℕ) (b : Bytes) → memchr c b ≡ first_index c b) where
  pub await_line-Filled :
      (limited : Bool) (line more : Bytes)
      → All (λ c. c ≢ 13) line
      → length line < 1000
      → (unread : Bytes) (pieces : List Bytes) → All IsPiece pieces
      → unread ++ joined pieces ≡ line ++ (13 ∷ 10 ∷ more)
      → (f : Filled (length line + 2) (line ++ (13 ∷ 10 ∷ more))) × (await_line memchr limited
            unread
            (gots pieces)
          ≡ ok (length line, (f.unread, gots f.pieces)))
  unfolding await_line gots joined
  await_line-Filled limited line more hl lt unread [] h q =
      elim (crlf_index-prefix line more unread [] hl q) [
        | inl (e, le) ↦ (
          record { unread = unread; pieces = []; all = tt; same = q; enough = le },
          rw (await_line, find_crlf-crlf_index memchr first unread, e) refl,
        )
        | inr (e, short) ↦
            let same = ap length (sym (append-nil unread) ∙ q) in
            absurd (omega (arith, length-append line (13 ∷ 10 ∷ more)))
      ]
  await_line-Filled limited line more hl lt unread (p ∷ ps) (hp, h) q =
      let next = unread ++ p in
      let ih =
        await_line-Filled limited line more hl lt next ps h
          (append_assoc unread p (joined ps) ∙ q) in
      elim (crlf_index-prefix line more unread (p ++ joined ps) hl q) [
        | inl (e, le) ↦ (
          record { unread = unread; pieces = p ∷ ps; all = (hp, h); same = q; enough = le },
          rw (await_line, find_crlf-crlf_index memchr first unread, e) refl,
        )
        | inr (e, short) ↦
            let (f, r) = ih in
            (
              f,
              rw
                  (
                    await_line,
                    find_crlf-crlf_index memchr first unread,
                    e,
                    fits limited unread (omega arith),
                    fill-got p unread hp,
                  )
                  r,
            )
      ]
