-- ===== src/Index/VByte/Runs.antt =====
-- The codec at concrete inputs.
use search_engines.Base.{◌≡◌, refl, [], ◌∷◌, some, none, ◌++◌, arith}
use search_engines.Index.VByte.{encode, decode, decode_delta_list, encode_delta_list, add32, sub32}
use search_engines.Index.VByte.Decode.{decode-encode}
use search_engines.Index.VByte.Delta.{decode_delta_list-encode_delta_list}

encode_300 : encode 300 ≡ 0xac ∷ 0x02 ∷ []
unfolding encode
encode_300 = refl

decode_cut : decode (0xac ∷ []) ≡ none
unfolding decode
decode_cut = refl

unsorted : decode_delta_list (encode_delta_list (7 ∷ 3 ∷ 1000 ∷ [])) 3 ≡ some (7 ∷ 3 ∷ 1000 ∷ [])
unfolding encode_delta_list decode_delta_list encode decode add32 sub32
unsorted = refl

decode-encode_example : decode (encode 70000 ++ 1 ∷ 2 ∷ []) ≡ some (70000, 1 ∷ 2 ∷ [])
decode-encode_example = decode-encode 70000 (1 ∷ 2 ∷ []) (omega arith)

decode_delta_list-encode_delta_list_example :
    decode_delta_list (encode_delta_list (7 ∷ 3 ∷ 1000 ∷ []) ++ 9 ∷ []) 3 ≡ some (7 ∷ 3 ∷ 1000 ∷ [])
decode_delta_list-encode_delta_list_example =
    decode_delta_list-encode_delta_list (7 ∷ 3 ∷ 1000 ∷ []) (9 ∷ [])
      (omega arith, (omega arith, (omega arith, tt)))
