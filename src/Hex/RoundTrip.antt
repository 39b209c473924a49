-- ===== src/Hex/RoundTrip.antt =====
-- embed/src/meta.rs, words in hexadecimal characters: writing against reading.
use wedb_embed.Base.{
  ℕ, suc, ◌+◌, ◌*◌, ◌/◌, ◌%◌, ◌^◌, ◌≤◌, ◌<◌, ◌≡◌, refl, ap, ◌∙◌, bit_and, bit_or, List, [], ◌∷◌,
  some, true, false, arith, leb, leb→le, ◌==◌, length, get_or,
}
use native.Mathlib.Nat.{pow-suc}
use wedb_embed.Base.Bits.{all_below, all_below_sound, table_sound, or_field}
use wedb_embed.Bytes.{IsU64, IsBytes, to_be_bytes, from_be, from_be_bytes}
use wedb_embed.Bytes.Words.{length-to_be_bytes, to_be_bytes-IsBytes, from_be_bytes-to_be_bytes}
use wedb_embed.Hex.{
  hex_chars, hex_decode_lut, set_run, bytes_to_hex_16, u64_to_hex_16, decode_digits, decode_hex_u64,
}

abbrev digit_of : ℕ → ℕ
digit_of char = get_or hex_decode_lut char 0xff

upper_digit : (b : ℕ) → b < 256 → digit_of (get_or hex_chars (b / 2 ^ 4) 0) ≡ b / 16
unfolding all_below hex_decode_lut set_run
upper_digit = table_sound 256 (λ b. digit_of (get_or hex_chars (b / 2 ^ 4) 0)) (λ b. b / 16) refl

lower_digit : (b : ℕ) → b < 256 → digit_of (get_or hex_chars (bit_and b 0x0f) 0) ≡ b % 16
unfolding all_below hex_decode_lut set_run
lower_digit =
    table_sound 256 (λ b. digit_of (get_or hex_chars (bit_and b 0x0f) 0)) (λ b. b % 16) refl

decode_digit :
    (val char d : ℕ) (hex : List ℕ)
    → digit_of char ≡ d
    → d < 16
    → val < 2 ^ 60
    → decode_digits val (char ∷ hex) ≡ decode_digits (val * 16 + d) hex
unfolding decode_digits
decode_digit val char d hex e h small = rw (e, differs) (ap (λ v. decode_digits v hex) joined)
  where
    differs : (d == 0xff) ≡ false
    differs = ground arith

    joined : bit_or (val * 2 ^ 4 % 2 ^ 64) d ≡ val * 16 + d
    joined = ap (λ v. bit_or v d) (omega arith) ∙ or_field 4 val d (omega arith) ∙ omega arith

power_fits : (k : ℕ) → k < 8 → 256 ^ k ≤ 2 ^ 56
power_fits k h =
    leb→le (256 ^ k) (2 ^ 56)
      (all_below_sound 8 (λ k. leb (256 ^ k) (2 ^ 56)) k (unfold all_below in refl) h)

decode_digits-bytes :
    (bytes : List ℕ) (k val : ℕ)
    → IsBytes bytes
    → val < 256 ^ k
    → k + length bytes ≤ 8
    → decode_digits val (bytes_to_hex_16 bytes) ≡ some (from_be val bytes)
unfolding bytes_to_hex_16 from_be
decode_digits-bytes [] k val hb hv hk = unfold decode_digits in refl
decode_digits-bytes (b ∷ bytes) k val (b_lt, hb) hv hk =
    decode_digit val (get_or hex_chars (b / 2 ^ 4) 0) (b / 16)
      (get_or hex_chars (bit_and b 0x0f) 0 ∷ bytes_to_hex_16 bytes) (upper_digit b b_lt)
      (omega arith) (omega (arith, power_fits k))
    ∙ decode_digit (val * 16 + b / 16) (get_or hex_chars (bit_and b 0x0f) 0) (b % 16)
        (bytes_to_hex_16 bytes) (lower_digit b b_lt) (omega arith) (omega (arith, power_fits k))
    ∙ ap (λ v. decode_digits v (bytes_to_hex_16 bytes)) (omega arith)
    ∙ decode_digits-bytes bytes (suc k) (val * 256 + b) hb (omega (arith, pow-suc 256 k))
        (omega arith)

length-bytes_to_hex_16 : (bytes : List ℕ) → length (bytes_to_hex_16 bytes) ≡ 2 * length bytes
unfolding bytes_to_hex_16
length-bytes_to_hex_16 [] = refl
length-bytes_to_hex_16 (b ∷ bytes) = omega (arith, length-bytes_to_hex_16 bytes)

-- A 64-bit word written in hexadecimal characters is read back.
pub decode_hex_u64-u64_to_hex_16 : (v : ℕ) → IsU64 v → decode_hex_u64 (u64_to_hex_16 v) ≡ some v
unfolding decode_hex_u64 u64_to_hex_16 from_be_bytes
decode_hex_u64-u64_to_hex_16 v h = rw (sixteen) (
    decode_digits-bytes (to_be_bytes 8 v) 0 0 (to_be_bytes-IsBytes 8 v) (omega arith)
      (omega (arith, length-to_be_bytes 8 v))
    ∙ ap some (from_be_bytes-to_be_bytes v h))
  where
    sixteen : (length (bytes_to_hex_16 (to_be_bytes 8 v)) == 16) ≡ true
    sixteen = ground (arith, length-bytes_to_hex_16 (to_be_bytes 8 v), length-to_be_bytes 8 v)
