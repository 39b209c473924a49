-- ===== src/Oppv/Examples.antt =====
-- Concrete numbers in the forms of different lengths.
use wedb_embed.Base.{◌≡◌, refl, [], ◌∷◌, ◌++◌, arith, true, some}
use wedb_embed.Bytes.{bytes_lt}
use wedb_embed.Oppv.{oppv_len_u64, encode_oppv_u64_slice, decode_oppv_u64}
use wedb_embed.Oppv.RoundTrip.{decode-encode}
use wedb_embed.Oppv.Order.{encode-order}

two_bytes : encode_oppv_u64_slice 300 ≡ 129 ∷ 44 ∷ []
unfolding encode_oppv_u64_slice
two_bytes = refl

decode-encode_example :
    decode_oppv_u64 (encode_oppv_u64_slice 70000 ++ (1 ∷ [])) ≡ some (70000, oppv_len_u64 70000)
decode-encode_example = decode-encode 70000 (1 ∷ []) (omega arith)

encode-order_example :
    bytes_lt (encode_oppv_u64_slice 127 ++ (9 ∷ [])) (encode_oppv_u64_slice 16384 ++ (1 ∷ []))
    ≡ true
encode-order_example = encode-order 127 16384 (9 ∷ []) (1 ∷ []) (omega arith) (omega arith)
