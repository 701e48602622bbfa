-- ===== src/Server/FcgiProto/Examples.antt =====
-- Runs of the FastCGI records, and the theorem at a concrete request.
use oxi_serve.Base.{◌≡◌, refl, [], ◌∷◌, ◌++◌, some, suc, true}
use oxi_serve.Base.{length}
use oxi_serve.Base.Bytes.{codes}
use oxi_serve.Server.FcgiProto.{
  push_begin_request, push_record, push_header, push_nv_pair, push_len, push_params, push_stdin,
  params, stdin, http_param_name,
}
use oxi_serve.Server.FcgiProto.Stream.{read_stream, read-push}

begin_bytes :
    push_begin_request [] true ≡ 1 ∷ 1 ∷ 0 ∷ 1 ∷ 0 ∷ 8 ∷ 0 ∷ 0 ∷ 0 ∷ 1 ∷ 1 ∷ 0 ∷ 0 ∷ 0 ∷ 0 ∷ 0 ∷ []
unfolding push_begin_request push_record push_header
begin_bytes = refl

pair_bytes : push_nv_pair [] (codes "A") (codes "bc") ≡ 1 ∷ 2 ∷ codes "Abc"
unfolding push_nv_pair push_len
pair_bytes = refl

env_name : http_param_name (codes "X-Id") [] ≡ codes "HTTP_X_ID"
unfolding http_param_name
env_name = refl

read-push_example :
    (read_stream params (suc (length (codes "Abc"))) (push_params [] (codes "Abc") ++ (1 ∷ []))
      ≡ some (codes "Abc", 1 ∷ []))
    × (read_stream stdin (suc (length (codes "Abc"))) (push_stdin [] (codes "Abc") ++ (1 ∷ []))
        ≡ some (codes "Abc", 1 ∷ []))
read-push_example = read-push (codes "Abc") (1 ∷ [])
