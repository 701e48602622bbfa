-- ===== src/Config/Hosts/Wildcards.antt =====
-- src/config/model.rs: the wildcards of a server name, compared with what they mean on the labels of
-- a host.
use oxi_serve.Base.{
  ℕ, suc, ◌-◌, ◌<◌, ◌≤◌, Bool, true, false, ◌&&◌, ◌||◌, [], ◌∷◌, ◌≡◌, refl, sym, ap, ◌∙◌, ◌⊎◌, inl,
  inr, Bool-cases, some,
}
use oxi_serve.Base.{
  ltb, ltb→lt, ltb→le, lt→ltb, le→ltb, ◌==◌, if◌then◌else◌, get_elem?, length, take, drop, arith,
}
use oxi_serve.Base.Bytes.{Bytes}
use oxi_serve.Config.Hosts.{lower, eq_ignore_ascii_case, is_dot, leads, trails}

-- Behind some dot of the host stands the domain, in whatever case.
unfoldable pub is_subdomain : Bytes → Bytes → Bool
is_subdomain [] domain = false
is_subdomain (c ∷ rest) domain =
    let later = is_subdomain rest domain in
    if c == 46 then eq_ignore_ascii_case rest domain || later else later

-- The host begins with the name, in whatever case, and a dot.
unfoldable pub begins : Bytes → Bytes → Bool
begins [] name = false
begins (c ∷ rest) [] = c == 46
begins (c ∷ rest) (d ∷ name) =
    let later = begins rest name in if lower c == lower d then later else false

eq-length : (xs ys : Bytes) → eq_ignore_ascii_case xs ys ≡ true → length xs ≡ length ys
unfolding eq_ignore_ascii_case
eq-length [] [] h = refl
eq-length [] (y ∷ ys) h = ground arith
eq-length (x ∷ xs) [] h = ground arith
eq-length (x ∷ xs) (y ∷ ys) h = ground (arith, eq-length xs ys)

is_subdomain-longer :
    (host domain : Bytes) → is_subdomain host domain ≡ true → length domain < length host
unfolding is_subdomain
is_subdomain-longer [] domain h = ground arith
is_subdomain-longer (c ∷ rest) domain h =
    ground (arith, eq-length rest domain, is_subdomain-longer rest domain)

short_is_not :
    (host domain : Bytes) → length host ≤ length domain → is_subdomain host domain ≡ false
short_is_not host domain h = elim (Bool-cases (is_subdomain host domain)) [
  | inl e ↦ absurd (omega (arith, is_subdomain-longer host domain e))
  | inr e ↦ e
]

unlike : (xs ys : Bytes) → length ys < length xs → eq_ignore_ascii_case xs ys ≡ false
unlike xs ys h = elim (Bool-cases (eq_ignore_ascii_case xs ys)) [
  | inl e ↦ absurd (omega (arith, eq-length xs ys e))
  | inr e ↦ e
]

-- The byte before the end of the host, and the end, once the host is longer.
leads-longer :
    (host suffix : Bytes)
    → length suffix < length host
    → leads host suffix ≡ (
        is_dot (get_elem? host (length host - length suffix - 1))
        && eq_ignore_ascii_case (drop (length host - length suffix) host) suffix)
unfolding leads
leads-longer host suffix h = rw (lt→ltb (length suffix) (length host) h) refl

leads-further :
    (c : ℕ) (rest suffix : Bytes)
    → length suffix < length rest
    → leads (c ∷ rest) suffix ≡ leads rest suffix
leads-further c rest suffix h =
    let at : suc (length rest) - length suffix - 1 ≡ suc (length rest - length suffix - 1) =
      omega arith in
    let end : suc (length rest) - length suffix ≡ suc (length rest - length suffix) = omega arith in
    leads-longer (c ∷ rest) suffix (omega arith) ∙ rw (at, end) (sym (leads-longer rest suffix h))

leads-here :
    (c : ℕ) (rest suffix : Bytes)
    → length rest ≡ length suffix
    → leads (c ∷ rest) suffix ≡ ((c == 46) && eq_ignore_ascii_case rest suffix)
unfolding is_dot
leads-here c rest suffix h =
    let at : suc (length rest) - length suffix - 1 ≡ 0 = omega arith in
    let end : suc (length rest) - length suffix ≡ suc 0 = omega arith in
    leads-longer (c ∷ rest) suffix (omega arith) ∙ rw (at, end) refl

leads-short : (host suffix : Bytes) → length host ≤ length suffix → leads host suffix ≡ false
unfolding leads
leads-short host suffix h = rw (le→ltb (length suffix) (length host) h) refl

order : (a b : ℕ) → (a < b) ⊎ ((b ≡ a) ⊎ (b < a))
order a b = grind arith

-- A leading wildcard matches the hosts below its domain, and not the domain.
pub leads_lem : (host suffix : Bytes) → leads host suffix ≡ is_subdomain host suffix
unfolding is_subdomain
leads_lem [] suffix = leads-short [] suffix (omega arith)
leads_lem (c ∷ rest) suffix =
    let ih = leads_lem rest suffix in
    elim (order (length suffix) (length rest)) [
      | inl lt ↦
          let off = unlike rest suffix lt in
          leads-further c rest suffix lt
          ∙ ih
          ∙ elim (Bool-cases (c == 46)) [ inl e ↦ rw (e, off) refl | inr e ↦ rw e refl ]
      | inr (inl same) ↦
          let none = short_is_not rest suffix (omega arith) in
          leads-here c rest suffix same ∙ elim (Bool-cases (c == 46)) [
            | inl e ↦ rw (e, none) (or_false (eq_ignore_ascii_case rest suffix))
            | inr e ↦ rw (e, none) refl
          ]
      | inr (inr gt) ↦
          leads-short (c ∷ rest) suffix (omega arith)
          ∙ sym (short_is_not (c ∷ rest) suffix (omega arith))
    ]
  where
    or_false : (b : Bool) → b ≡ (b || false)
    or_false true = refl
    or_false false = refl

trails-longer :
    (host pre : Bytes)
    → length pre < length host
    → trails host pre
      ≡ (is_dot (get_elem? host (length pre)) && eq_ignore_ascii_case (take (length pre) host) pre)
unfolding trails
trails-longer host pre h = rw (lt→ltb (length pre) (length host) h) refl

trails-short : (host pre : Bytes) → length host ≤ length pre → trails host pre ≡ false
unfolding trails
trails-short host pre h = rw (le→ltb (length pre) (length host) h) refl

and_false : (b : Bool) → (b && false) ≡ false
and_false true = refl
and_false false = refl

trails-cons :
    (c d : ℕ) (rest pre : Bytes)
    → trails (c ∷ rest) (d ∷ pre) ≡ (if lower c == lower d then trails rest pre else false)
unfolding eq_ignore_ascii_case
trails-cons c d rest pre = elim (Bool-cases (ltb (length pre) (length rest))) [
  | inl t ↦
      let lt = ltb→lt (length pre) (length rest) t in
      rw (trails-longer (c ∷ rest) (d ∷ pre) (omega arith), trails-longer rest pre lt)
        (elim (Bool-cases (lower c == lower d)) [
          | inl e ↦ rw e refl
          | inr e ↦ rw e (and_false (is_dot (get_elem? rest (length pre))))
        ])
  | inr t ↦
      let le = ltb→le (length pre) (length rest) t in
      rw (trails-short (c ∷ rest) (d ∷ pre) (omega arith), trails-short rest pre le)
        (elim (Bool-cases (lower c == lower d)) [ inl e ↦ rw e refl | inr e ↦ rw e refl ])
]

and_true : (c : ℕ) → (is_dot (some c) && eq_ignore_ascii_case [] []) ≡ (c == 46)
unfolding is_dot eq_ignore_ascii_case
and_true c = elim (Bool-cases (c == 46)) [ inl e ↦ rw e refl | inr e ↦ rw e refl ]

-- A trailing wildcard matches the hosts that begin with its name and a dot.
pub trails_lem : (host pre : Bytes) → trails host pre ≡ begins host pre
unfolding begins
trails_lem [] pre = trails-short [] pre (omega arith)
trails_lem (c ∷ rest) [] = trails-longer (c ∷ rest) [] (omega arith) ∙ and_true c
trails_lem (c ∷ rest) (d ∷ pre) =
    trails-cons c d rest pre
    ∙ ap (λ t. if lower c == lower d then t else false) (trails_lem rest pre)
