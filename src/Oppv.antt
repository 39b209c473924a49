-- ===== src/Oppv.antt =====
-- embed/src/key_composer/oppv.rs: the order-preserving prefix varint. A `u64` takes 1, 2, 3, 4 or 9
-- bytes; `>> k` is `/ 2 ^ k`, `<< k` is `* 2 ^ k`, `as u8` is `% 256`, `&` and `|` are the native ones.
-- The functions that fill a buffer return the bytes that they write; the number of bytes that they
-- return is the length of those. (`encode_oppv_u64_fixed` is the same call on a 9-byte buffer.)
pub mod RoundTrip
pub mod Order
mod Examples
use wedb_embed.Base.{
  ℕ, ◌+◌, ◌*◌, ◌/◌, ◌%◌, ◌^◌, bit_and, bit_or, List, [], ◌∷◌, ◌++◌, Option, none, some, ltb, ◌==◌,
  if◌then◌else◌, length, take, drop, get_or,
}
use wedb_embed.Bytes.{to_be_bytes, from_be_bytes}

unfoldable pub oppv_len_u64 : ℕ → ℕ
oppv_len_u64 val =
    if ltb val 0x80
    then 1
    else if ltb val 0x4000
    then 2
    else if ltb val 0x20_0000
    then 3
    else if ltb val 0x1000_0000
    then 4
    else 9

unfoldable pub encode_oppv_u64_slice : ℕ → List ℕ
encode_oppv_u64_slice val =
    if ltb val 0x80
    then (val % 256) ∷ []
    else if ltb val 0x4000
    then bit_or 0x80 (val / 2 ^ 8 % 256) ∷ (val % 256) ∷ []
    else if ltb val 0x20_0000
    then bit_or 0xc0 (val / 2 ^ 16 % 256) ∷ (val / 2 ^ 8 % 256) ∷ (val % 256) ∷ []
    else if ltb val 0x1000_0000
    then bit_or 0xe0 (val / 2 ^ 24 % 256)
      ∷ (val / 2 ^ 16 % 256)
      ∷ (val / 2 ^ 8 % 256)
      ∷ (val % 256)
      ∷ []
    else 0xf8 ∷ to_be_bytes 8 val

-- Appends to a `Vec`.
unfoldable pub encode_oppv_u64 : ℕ → List ℕ → List ℕ
encode_oppv_u64 val buf = buf ++ encode_oppv_u64_slice val

-- The value of the first byte's low bits and the bytes after it, `n` in all.
unfoldable pub decode_oppv_u64 : List ℕ → Option (ℕ × ℕ)
decode_oppv_u64 [] = none
decode_oppv_u64 (first ∷ rest) =
    if ltb first 0x80
    then some (first, 1)
    else if ltb first 0xc0
    then if ltb (length rest) 1
      then none
      else some (bit_or (bit_and first 0x3f * 2 ^ 8) (get_or rest 0 0), 2)
    else if ltb first 0xe0
    then if ltb (length rest) 2
      then none
      else some (
        bit_or (bit_or (bit_and first 0x1f * 2 ^ 16) (get_or rest 0 0 * 2 ^ 8)) (get_or rest 1 0),
        3,
      )
    else if ltb first 0xf0
    then if ltb (length rest) 3
      then none
      else some (
        bit_or
            (bit_or (bit_or (bit_and first 0x0f * 2 ^ 24) (get_or rest 0 0 * 2 ^ 16))
              (get_or rest 1 0 * 2 ^ 8))
            (get_or rest 2 0),
        4,
      )
    else if first == 0xf8
    then if ltb (length rest) 8 then none else some (from_be_bytes (take 8 rest), 9)
    else none
