-- ===== src/Oppv/RoundTrip.antt =====
-- embed/src/key_composer/oppv.rs: the forms of an encoding, and encoder against decoder.
use wedb_embed.Base.{
  ℕ, ◌+◌, ◌*◌, ◌/◌, ◌%◌, ◌≤◌, ◌<◌, bit_and, bit_or, ◌≡◌, refl, List, [], ◌∷◌, ◌++◌, some, arith,
  length, length-append, take, take-length_append,
}
use wedb_embed.Base.Bits.{or_field, table_sound, all_below}
use wedb_embed.Bytes.{IsU64, to_be_bytes}
use wedb_embed.Bytes.Words.{length-to_be_bytes, from_be_bytes-to_be_bytes}
use wedb_embed.Oppv.{oppv_len_u64, encode_oppv_u64_slice, decode_oppv_u64}
use native.Mathlib.Decide.{dec_lt}

-- The tag bits of a first byte over the bits of the value, and those bits back.
two_byte_tag : (x : ℕ) → x < 64 → bit_or 0x80 x ≡ 128 + x
unfolding all_below
two_byte_tag = table_sound 64 (λ x. bit_or 0x80 x) (λ x. 128 + x) refl

three_byte_tag : (x : ℕ) → x < 32 → bit_or 0xc0 x ≡ 192 + x
unfolding all_below
three_byte_tag = table_sound 32 (λ x. bit_or 0xc0 x) (λ x. 192 + x) refl

four_byte_tag : (x : ℕ) → x < 16 → bit_or 0xe0 x ≡ 224 + x
unfolding all_below
four_byte_tag = table_sound 16 (λ x. bit_or 0xe0 x) (λ x. 224 + x) refl

low_six : (b : ℕ) → b < 256 → bit_and b 0x3f ≡ b % 64
unfolding all_below
low_six = table_sound 256 (λ b. bit_and b 0x3f) (λ b. b % 64) refl

low_five : (b : ℕ) → b < 256 → bit_and b 0x1f ≡ b % 32
unfolding all_below
low_five = table_sound 256 (λ b. bit_and b 0x1f) (λ b. b % 32) refl

low_four : (b : ℕ) → b < 256 → bit_and b 0x0f ≡ b % 16
unfolding all_below
low_four = table_sound 256 (λ b. bit_and b 0x0f) (λ b. b % 16) refl

-- The form in which each range of values is written, in plain arithmetic.
pub one_form : (v : ℕ) → v < 0x80 → encode_oppv_u64_slice v ≡ v ∷ []
unfolding encode_oppv_u64_slice
one_form v h = ground arith

pub two_form :
    (v : ℕ) → 0x80 ≤ v → v < 0x4000 → encode_oppv_u64_slice v ≡ (128 + v / 256) ∷ (v % 256) ∷ []
unfolding encode_oppv_u64_slice
two_form v h k = ground (arith, two_byte_tag (v / 256 % 256))

pub three_form :
    (v : ℕ)
    → 0x4000 ≤ v
    → v < 0x20_0000
    → encode_oppv_u64_slice v ≡ (192 + v / 65536) ∷ (v / 256 % 256) ∷ (v % 256) ∷ []
unfolding encode_oppv_u64_slice
three_form v h k = ground (arith, three_byte_tag (v / 65536 % 256))

pub four_form :
    (v : ℕ)
    → 0x20_0000 ≤ v
    → v < 0x1000_0000
    → encode_oppv_u64_slice v
      ≡ (224 + v / 16777216) ∷ (v / 65536 % 256) ∷ (v / 256 % 256) ∷ (v % 256) ∷ []
unfolding encode_oppv_u64_slice
four_form v h k = ground (arith, four_byte_tag (v / 16777216 % 256))

pub nine_form : (v : ℕ) → 0x1000_0000 ≤ v → encode_oppv_u64_slice v ≡ 248 ∷ to_be_bytes 8 v
unfolding encode_oppv_u64_slice
nine_form v h = ground arith

-- What the decoder makes of each form.
read_one : (v : ℕ) (r : List ℕ) → v < 128 → decode_oppv_u64 (v ∷ r) ≡ some (v, 1)
unfolding decode_oppv_u64
read_one v r h = ground arith

read_two :
    (x b : ℕ) (r : List ℕ)
    → x < 64
    → b < 256
    → decode_oppv_u64 ((128 + x) ∷ b ∷ r) ≡ some (x * 256 + b, 2)
unfolding decode_oppv_u64
read_two x b r h k = ground (arith, low_six (128 + x), or_field 8 x b)

read_three :
    (x b c : ℕ) (r : List ℕ)
    → x < 32
    → b < 256
    → c < 256
    → decode_oppv_u64 ((192 + x) ∷ b ∷ c ∷ r) ≡ some ((x * 256 + b) * 256 + c, 3)
unfolding decode_oppv_u64
read_three x b c r h k l =
    ground (arith, low_five (192 + x), or_field 16 x (b * 256), or_field 8 (x * 256 + b) c)

read_four :
    (x b c d : ℕ) (r : List ℕ)
    → x < 16
    → b < 256
    → c < 256
    → d < 256
    → decode_oppv_u64 ((224 + x) ∷ b ∷ c ∷ d ∷ r) ≡ some (((x * 256 + b) * 256 + c) * 256 + d, 4)
unfolding decode_oppv_u64
read_four x b c d r h k l m = ground (
  arith,
  low_four (224 + x),
  or_field 24 x (b * 65536),
  or_field 16 (x * 256 + b) (c * 256),
  or_field 8 ((x * 256 + b) * 256 + c) d,
)

read_nine :
    (v : ℕ) (r : List ℕ) → IsU64 v → decode_oppv_u64 (248 ∷ to_be_bytes 8 v ++ r) ≡ some (v, 9)
unfolding decode_oppv_u64
read_nine v r h = ground (
  arith,
  length-append (to_be_bytes 8 v) r,
  length-to_be_bytes 8 v,
  prefix,
  from_be_bytes-to_be_bytes v h,
)
  where
    prefix : take 8 (to_be_bytes 8 v ++ r) ≡ to_be_bytes 8 v
    prefix = rw (length-to_be_bytes 8 v) at (take-length_append (to_be_bytes 8 v) r)

-- The range of a value: the test that the code takes.
pub data Range (v : ℕ) : Type 0 where
  one : v < 0x80 → Range v
  two : 0x80 ≤ v → v < 0x4000 → Range v
  three : 0x4000 ≤ v → v < 0x20_0000 → Range v
  four : 0x20_0000 ≤ v → v < 0x1000_0000 → Range v
  nine : 0x1000_0000 ≤ v → Range v

pub Range-of : (v : ℕ) → Range v
Range-of v = elim (dec_lt v 0x80) [
  | yes p ↦ one p
  | no p ↦ elim (dec_lt v 0x4000) [
    | yes q ↦ two (omega arith) q
    | no q ↦ elim (dec_lt v 0x20_0000) [
      | yes r ↦ three (omega arith) r
      | no r ↦ elim (dec_lt v 0x1000_0000) [
        | yes s ↦ four (omega arith) s
        | no s ↦ nine (omega arith)
      ]
    ]
  ]
]

-- Decoding what was encoded of a 64-bit number gives back the number and the length that
-- `oppv_len_u64` announces, whatever bytes follow.
pub decode-encode :
    (v : ℕ) (rest : List ℕ)
    → IsU64 v
    → decode_oppv_u64 (encode_oppv_u64_slice v ++ rest) ≡ some (v, oppv_len_u64 v)
decode-encode v rest h = by_range (Range-of v)
  where
    by_range :
        Range v → decode_oppv_u64 (encode_oppv_u64_slice v ++ rest) ≡ some (v, oppv_len_u64 v)
    by_range (one p) = rw (one_form v p, read_one v rest p) (unfold oppv_len_u64 in ground arith)
    by_range (two p q) =
        rw (two_form v p q, read_two (v / 256) (v % 256) rest (omega arith) (omega arith))
          (unfold oppv_len_u64 in ground arith)
    by_range (three p q) =
        rw
          (
            three_form v p q,
            read_three (v / 65536) (v / 256 % 256) (v % 256) rest (omega arith) (omega arith)
                (omega arith),
          )
          (unfold oppv_len_u64 in ground arith)
    by_range (four p q) =
        rw
          (
            four_form v p q,
            read_four (v / 16777216) (v / 65536 % 256) (v / 256 % 256) (v % 256) rest (omega arith)
                (omega arith) (omega arith) (omega arith),
          )
          (unfold oppv_len_u64 in ground arith)
    by_range (nine p) = rw (nine_form v p, read_nine v rest h) (unfold oppv_len_u64 in ground arith)

-- `oppv_len_u64` is the number of bytes that the encoder writes.
pub length-encode : (v : ℕ) → length (encode_oppv_u64_slice v) ≡ oppv_len_u64 v
unfolding encode_oppv_u64_slice oppv_len_u64
length-encode v = ground (arith, length-to_be_bytes 8 v)
