-- ===== src/StringValue/Laws.antt =====
-- embed/src/api/string/meta.rs: stored strings, written and read.

use wedb_embed.Base.{
  ℕ, ◌≡◌, refl, sym, ap, ◌∙◌, List, [], ◌∷◌, ◌++◌, true, ◌&&◌, none, some, arith, ltb, leb, ◌==◌,
  if◌then◌else◌, length, length-append, drop, drop_prefix,
}
use wedb_embed.Bytes.{IsU64, to_be_bytes}
use wedb_embed.Bytes.Words.{length-to_be_bytes}
use wedb_embed.KeyMeta.{u64_at}
use wedb_embed.KeyMeta.RoundTrip.{u64_at-word}
use wedb_embed.StringValue.{
  string_header_flag, encode_string_value, decode_string_value, is_string_expired,
  decode_live_string_value,
}

with_header :
    (v : List ℕ) (e : ℕ) → encode_string_value v e ≡ string_header_flag ∷ (to_be_bytes 8 e ++ v)
unfolding encode_string_value
with_header v e = ground arith

header_read :
    (v : List ℕ) (e : ℕ)
    → IsU64 e
    → decode_string_value (string_header_flag ∷ (to_be_bytes 8 e ++ v)) ≡ (e, v)
unfolding decode_string_value
header_read v e h = rw has_header (λ i. (word i, body i))
  where
    body : drop 8 (to_be_bytes 8 e ++ v) ≡ v
    body = drop_prefix 8 (to_be_bytes 8 e) v (sym (length-to_be_bytes 8 e))

    word : u64_at (string_header_flag ∷ (to_be_bytes 8 e ++ v)) 1 ≡ e
    word = u64_at-word 1 (string_header_flag ∷ []) e v refl h

    has_header :
        leb 9 (length (string_header_flag ∷ (to_be_bytes 8 e ++ v)))
          && string_header_flag == string_header_flag
        ≡ true
    has_header = ground (arith, length-append (to_be_bytes 8 e) v, length-to_be_bytes 8 e)

-- A string is read back with its expiry time, also one that looks like a header.
pub decode-encode_string_value :
    (v : List ℕ) (e : ℕ) → IsU64 e → decode_string_value (encode_string_value v e) ≡ (e, v)
decode-encode_string_value v e h = ap decode_string_value (with_header v e) ∙ header_read v e h

-- A string that is read is the one written, unless it has an expiry time, a 64-bit number, that is
-- reached.
pub decode_live-encode :
    (v : List ℕ) (e now : ℕ)
    → IsU64 e
    → decode_live_string_value (encode_string_value v e) now
      ≡ (if ltb 0 e && leb e now then none else some v)
unfolding decode_live_string_value is_string_expired
decode_live-encode v e now h = rw (decode-encode_string_value v e h)
