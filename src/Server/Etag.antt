-- ===== src/Server/Etag.antt =====
-- src/server/files.rs: the entity tag of a file, of its time in seconds and its size.
pub mod Distinct
mod Examples
use oxi_serve.Base.{ℕ, zero, suc, ◌+◌, ◌/◌, ◌%◌, List, [], ◌∷◌, ◌++◌, ltb, ◌==◌, if◌then◌else◌}
use oxi_serve.Base.Bytes.{Bytes}

-- A byte of "0123456789abcdef"
unfoldable pub digit : ℕ → ℕ
digit d = if ltb d 10 then 48 + d else 87 + d

-- The loop of `push_hex`, which fills a buffer of sixteen bytes from its end.
unfoldable pub fill_digits : ℕ → ℕ → Bytes → Bytes
fill_digits zero n buf = buf
fill_digits (suc room) n buf =
    let later = fill_digits room (n / 16) (digit (n % 16) ∷ buf) in if n == 0 then buf else later

unfoldable pub push_hex : Bytes → ℕ → Bytes
push_hex out n = if n == 0 then out ++ (48 ∷ []) else out ++ fill_digits 16 n []

-- The quotes are 34, the dash 45.
unfoldable pub make_etag : ℕ → ℕ → Bytes
make_etag secs size = push_hex (push_hex (34 ∷ []) secs ++ (45 ∷ [])) size ++ (34 ∷ [])
