-- ===== src/Http/Examples.antt =====
-- Runs of the request path's normalisation, and its theorems at concrete inputs.
use oxi_serve.Base.{◌≡◌, refl, arith, Bool, true, List, [], some, All}
use oxi_serve.Base.Bytes.{Bytes, codes, same_bytes}
use oxi_serve.Base.Result.{ok, err}
use oxi_serve.Http.Uri.{
  invalid, normalize, trim, trailing_slash, is_already_normal, slow, walk, turn, collect, lead, hex,
  accept, place, between, ends_with_slash, normal_from,
}
use oxi_serve.Http.Uri.Segments.{normalize_spec, unsplit, decode}
use oxi_serve.Http.Uri.Fast.{normalize_lem}
use oxi_serve.Http.Uri.Safety.{IsSafe, normalize-IsSafe}
use oxi_serve.Http.Uri.Text.{encode_path, escape_html, query_param, split_on, split_at_byte}
use oxi_serve.Http.Uri.Text.Laws.{decode-encode_path, IsInert, escape_html-IsInert}

abbrev any_text : Bytes → Bool
any_text b = true

-- The source's own cases.
resolved : normalize any_text (codes "/a//b/../%63/.") ≡ some (ok (codes "/a/c"))
unfolding normalize is_already_normal normal_from slow walk turn collect lead hex accept place
    same_bytes trailing_slash ends_with_slash trim
resolved = refl

climbing : normalize any_text (codes "/a/../..") ≡ some (err invalid)
unfolding normalize is_already_normal normal_from slow walk turn collect lead hex accept place
    same_bytes trailing_slash ends_with_slash trim
climbing = refl

second_param : query_param (codes "a=1&b=2") (codes "b") ≡ some (codes "2")
unfolding query_param split_on split_at_byte same_bytes
second_param = refl

normalize_lem_example :
    normalize any_text (codes "/a/%2e%2E/b") ≡ some (normalize_spec any_text (codes "/a/%2e%2E/b"))
normalize_lem_example = normalize_lem any_text (codes "/a/%2e%2E/b") refl

normalize-IsSafe_example :
    (stack : List Bytes) × All IsSafe stack
    × (codes "/a/c" ≡ trim (trailing_slash (codes "/a//b/../%63/.")) (unsplit stack))
normalize-IsSafe_example =
    normalize-IsSafe any_text (codes "/a//b/../%63/.") (codes "/a/c") refl resolved

decode-encode_path_example : decode between (encode_path (codes "a b") []) [] ≡ ok (codes "a b")
decode-encode_path_example = decode-encode_path (codes "a b") (omega arith) (omega arith)

escape_html-IsInert_example : All IsInert (escape_html (codes "<a>") (codes "x"))
escape_html-IsInert_example = escape_html-IsInert (codes "<a>") (codes "x") (omega arith)
