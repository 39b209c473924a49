-- ===== src/Hex.antt =====
-- embed/src/meta.rs: 64-bit words as sixteen hexadecimal characters, with a table for each direction.
pub mod RoundTrip
use wedb_embed.Base.{
  ℕ, zero, suc, ◌+◌, ◌*◌, ◌/◌, ◌%◌, ◌^◌, bit_and, bit_or, List, [], ◌∷◌, Option, none, some, not,
  ◌==◌, if◌then◌else◌, length, get_or, set, replicate,
}
use wedb_embed.Bytes.{to_be_bytes}

-- `b"0123456789abcdef"`
abbrev pub hex_chars : List ℕ
hex_chars = 48 ∷ 49 ∷ 50 ∷ 51 ∷ 52 ∷ 53 ∷ 54 ∷ 55 ∷ 56 ∷ 57 ∷ 97 ∷ 98 ∷ 99 ∷ 100 ∷ 101 ∷ 102 ∷ []

-- A run of entries of the table, `count` characters from one on, with the values from one on.
unfoldable pub set_run : ℕ → ℕ → ℕ → List ℕ → List ℕ
set_run char value zero table = table
set_run char value (suc count) table = set_run (char + 1) (value + 1) count (set table char value)

unfoldable pub hex_decode_lut : List ℕ
unfolding set_run
hex_decode_lut = set_run 65 10 6 (set_run 97 10 6 (set_run 48 0 10 (replicate 256 0xff)))

unfoldable pub bytes_to_hex_16 : List ℕ → List ℕ
bytes_to_hex_16 [] = []
bytes_to_hex_16 (b ∷ bytes) =
    get_or hex_chars (b / 2 ^ 4) 0 ∷ get_or hex_chars (bit_and b 0x0f) 0 ∷ bytes_to_hex_16 bytes

unfoldable pub u64_to_hex_16 : ℕ → List ℕ
unfolding bytes_to_hex_16
u64_to_hex_16 val = bytes_to_hex_16 (to_be_bytes 8 val)

-- The loop over the characters.
unfoldable pub decode_digits : ℕ → List ℕ → Option ℕ
decode_digits val [] = some val
decode_digits val (char ∷ hex) =
    let digit = get_or hex_decode_lut char 0xff in
    let rest = decode_digits (bit_or (val * 2 ^ 4 % 2 ^ 64) digit) hex in
    if digit == 0xff then none else rest

unfoldable pub decode_hex_u64 : List ℕ → Option ℕ
unfolding decode_digits
decode_hex_u64 hex = if not (length hex == 16) then none else decode_digits 0 hex
