-- ===== src/Http2/Hpack/Decoder/Examples.antt =====
-- src/http2/hpack.rs: a block whose size update comes too late.
use oxi_serve.Base.{◌≡◌, refl, arith, inr, true, [], ◌∷◌}
use oxi_serve.Base.Bytes.{codes}
use oxi_serve.Http2.Hpack.Static.{Header}
use oxi_serve.Http2.Hpack.Int.{compression, int}
use oxi_serve.Http2.Hpack.Table.{Decoder, lookup, charge}
use oxi_serve.Http2.Hpack.Decoder.{Text, Progress, failed, field, indexed, decode}
use oxi_serve.Http2.Hpack.Decoder.Late.{Turn, none_left, turn, at_start, late_size_update}

abbrev any_text : Text
any_text = record { is_utf8 = λ b. true }

abbrev empty_table : Decoder
empty_table = record { dynamic = []; size = 0; max_size = 4096; settings_max = 4096 }

abbrev get : Header
get = record { name = codes ":method"; value = codes "GET" }

abbrev root : Header
root = record { name = codes ":path"; value = codes "/" }

-- Behind the field `:method: GET`, and behind `:path: /` as well.
abbrev one_field : Progress
one_field = record {
  decoder = empty_table;
  out = get ∷ [];
  listed = 42;
  seen_field = true;
  buf = 0x84 ∷ 0x20 ∷ [];
}

abbrev two_fields : Progress
two_fields = record {
  decoder = empty_table;
  out = get ∷ root ∷ [];
  listed = 80;
  seen_field = true;
  buf = 0x20 ∷ [];
}

first_Turn : Turn any_text 1000 0x82 (at_start empty_table [] (0x82 ∷ 0x84 ∷ 0x20 ∷ [])) one_field
unfolding field indexed int lookup charge
first_Turn = record { more = 0x84 ∷ 0x20 ∷ []; begins = refl; taken = refl }

second_Turn : Turn any_text 1000 0x84 one_field two_fields
unfolding field indexed int lookup charge
second_Turn = record { more = 0x20 ∷ []; begins = refl; taken = refl }

late_size_update_example :
    decode any_text empty_table (0x82 ∷ 0x84 ∷ 0x20 ∷ []) 1000 [] ≡ (two_fields, failed compression)
late_size_update_example =
    late_size_update any_text 1000 empty_table [] (0x82 ∷ 0x84 ∷ 0x20 ∷ []) [] 0x82 0x20 none_left
      (omega arith, inr (omega arith)) first_Turn (turn 0x84 second_Turn none_left) refl
      (omega arith, omega arith)
