-- ===== src/Tests/Codec.antt =====
-- shared/codec.ts and the text codec at concrete inputs.
use diplomatic.Wire.Bag.{IsWellFormed as IsBag}
use diplomatic.Wire.Bag.{wire as bag_wire}
use diplomatic.Base.{
  [], arith, concat, if◌then◌else◌, length, length-append, ltb, ◌++◌, ◌+◌, ◌<◌, ◌^◌, ◌∷◌, ◌≡◌, ◌≢◌,
  ◌≤◌,
}
use diplomatic.Base.Int.{ltb_ℤ, pos, pos_part}
use diplomatic.Codec.{
  decode_var_int, decoder, encode_var_int, new_encoder, numeric, read_structs, result,
  write_structs,
}
use diplomatic.Codec.Bounds.{read_structs-ne-diverged}
use diplomatic.Codec.Septets.{base128, encode_var_int_total, var_int_wire}
use diplomatic.Codec.Strings.{IsShort, var_strings-RoundTrip, var_strings_codec}
use diplomatic.Codec.Structs.{RoundTrip, read_structs-write_structs}
use diplomatic.Codec.VarInt.{decode_var_int-wire, decode_var_int_bounds}
use diplomatic.Consts.{invalid_param, var_limit_exceeded}
use diplomatic.Exec.{diverged, err, ok}
use diplomatic.Tests.Wire.{small_bag, small_bag-IsWellFormed}
use diplomatic.Text.{utf8_encode}
use diplomatic.Wire.Bag.{Advances-bag, Bag, bag_codec, bag_laws}

encode_var_int_total_example : encode_var_int (pos 300) ≡ (
    if ltb_ℤ (pos 300) (pos 0)
    then err invalid_param
    else if ltb (pos_part (pos 300)) (2 ^ 56)
    then ok (var_int_wire (pos_part (pos 300)))
    else err var_limit_exceeded)
encode_var_int_total_example = encode_var_int_total (pos 300)

decode_var_int-wire_example :
    decode_var_int ((9 ∷ []) ++ (var_int_wire 300 ++ (1 ∷ []))) 1
    ≡ ok (record { value = numeric 300; bytes_read = length (var_int_wire 300) })
decode_var_int-wire_example = decode_var_int-wire 300 (9 ∷ []) (1 ∷ []) (omega arith)

decode_300 :
    decode_var_int (172 ∷ 2 ∷ 5 ∷ []) 0 ≡ ok (record { value = numeric 300; bytes_read = 2 })
unfolding base128
decode_300 = decode_var_int-wire 300 [] (5 ∷ []) (omega arith)

decode_var_int_bounds_example : (0 < 2) × (2 ≤ 8) × (0 + 2 ≤ 3)
decode_var_int_bounds_example =
    decode_var_int_bounds (172 ∷ 2 ∷ 5 ∷ []) 0 (record { value = numeric 300; bytes_read = 2 })
      (omega arith) decode_300

read_structs-ne-diverged_example : (read_structs bag_codec (decoder (1 ∷ 2 ∷ []))).0 ≢ diverged
read_structs-ne-diverged_example =
    read_structs-ne-diverged bag_codec (decoder (1 ∷ 2 ∷ [])) Advances-bag (omega arith)

bag_wire_pos : (bag : Bag) → IsBag bag → 0 < length (concat (bag_wire bag))
bag_wire_pos bag h = omega (arith, h.sig, length-append bag.sig _)

read_structs-write_structs_example :
    ((write_structs bag_codec (small_bag ∷ small_bag ∷ []) new_encoder).0 ≡ ok tt)
    × ((read_structs bag_codec
          (decoder (result (write_structs bag_codec (small_bag ∷ small_bag ∷ []) new_encoder).1))).0
        ≡ ok (small_bag ∷ small_bag ∷ []))
read_structs-write_structs_example =
    read_structs-write_structs bag_laws (small_bag ∷ small_bag ∷ [])
      (small_bag-IsWellFormed, (small_bag-IsWellFormed, tt)) bag_wire_pos

small_text-IsShort : IsShort (0x41 ∷ 0x20ac ∷ 0x1f600 ∷ [])
unfolding utf8_encode
small_text-IsShort = record {
  text = ((λ e. omega arith), (omega arith, (omega arith, (omega arith, tt))));
  size = omega arith;
}

var_strings-RoundTrip_example : RoundTrip var_strings_codec ((0x41 ∷ 0x20ac ∷ 0x1f600 ∷ []) ∷ [])
var_strings-RoundTrip_example =
    var_strings-RoundTrip ((0x41 ∷ 0x20ac ∷ 0x1f600 ∷ []) ∷ []) (omega arith)
      (small_text-IsShort, tt)
