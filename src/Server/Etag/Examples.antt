-- ===== src/Server/Etag/Examples.antt =====
-- src/server/files.rs: a run of the entity tag, and its theorem at a concrete input.
use oxi_serve.Base.{ℕ, ◌≡◌, refl, arith}
use oxi_serve.Base.Bytes.{codes}
use oxi_serve.Server.Etag.{digit, fill_digits, push_hex, make_etag}
use oxi_serve.Server.Etag.Distinct.{make_etag_injective}

etag_run : make_etag 784111777 4096 ≡ codes "\"2ebc98a1-1000\""
unfolding make_etag push_hex fill_digits digit
etag_run = refl

make_etag_injective_example : ◌≡◌ {A = ℕ} 784111777 784111777 × ◌≡◌ {A = ℕ} 4096 4096
make_etag_injective_example =
    make_etag_injective 784111777 4096 784111777 4096 (omega arith) (omega arith) (omega arith)
      (omega arith) refl
