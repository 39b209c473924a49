-- ===== src/StringValue.antt =====
-- embed/src/api/string/meta.rs and key.rs: how a plain string is stored, as a header of nine bytes (a
-- flag and the expiry time) and the text. Strings share the key space with composite values, so the
-- other types look here first.
pub mod Laws
use wedb_embed.Base.{
  ℕ, ◌+◌, ◌%◌, bit_or, List, [], ◌∷◌, ◌++◌, Bool, ◌&&◌, Option, none, some, ltb, leb, ◌==◌,
  if◌then◌else◌, length, take, drop, get_or,
}
use wedb_embed.Bytes.{to_be_bytes}
use wedb_embed.KeyMeta.{RedisType, type_as_u8, u64_at, kvrocks_single_kv_encoded_size}
use wedb_embed.KeyTag
use wedb_embed.KeyTag.{KeyTag}
use wedb_embed.SmallKey
use wedb_embed.SmallKey.{SmallKey, inline_cap}
use wedb_embed.KeyComposer.{
  KeyComposer, is_default, inline_of, compose_meta_key_stack, compose_meta_key_into,
}

abbrev pub string_hdr_size : ℕ
string_hdr_size = kvrocks_single_kv_encoded_size

unfoldable pub string_header_flag : ℕ
unfolding type_as_u8
string_header_flag = bit_or 0x80 (type_as_u8 RedisType.string)

unfoldable pub encode_string_header : ℕ → List ℕ
unfolding string_header_flag
encode_string_header expire_at_ms = string_header_flag ∷ to_be_bytes 8 expire_at_ms

unfoldable pub string_no_expiry_header : List ℕ
unfolding encode_string_header
string_no_expiry_header = encode_string_header 0

unfoldable pub encode_string_value : List ℕ → ℕ → List ℕ
unfolding string_no_expiry_header encode_string_header
encode_string_value value expire_at_ms =
    (if expire_at_ms == 0 then string_no_expiry_header else encode_string_header expire_at_ms)
    ++ value

-- Expiry time and text; what has no header is all text.
unfoldable pub decode_string_value : List ℕ → ℕ × List ℕ
unfolding string_header_flag u64_at
decode_string_value raw =
    if leb string_hdr_size (length raw) && get_or raw 0 0 == string_header_flag
    then (u64_at raw 1, drop string_hdr_size raw)
    else (0, raw)

unfoldable pub is_string_expired : ℕ → ℕ → Bool
is_string_expired expire_at_ms now_ms = ltb 0 expire_at_ms && leb expire_at_ms now_ms

unfoldable pub decode_live_string_value : List ℕ → ℕ → Option (List ℕ)
unfolding decode_string_value is_string_expired
decode_live_string_value raw now_ms =
    let (expire_at, payload) = decode_string_value raw in
    if is_string_expired expire_at now_ms then none else some payload

-- The physical key of a string: `raw`, with its path for the default scope, and `raw_bytes`.
unfoldable pub raw : KeyComposer → List ℕ → SmallKey
unfolding inline_of
raw kc key =
    if is_default kc && leb (4 + length key) inline_cap
    then inline_of ((0 ∷ 0 ∷ 0 ∷ 0 ∷ []) ∷ key ∷ []) (4 + length key)
    else compose_meta_key_stack kc (KeyTag.as_slice KeyTag.raw_string) key

unfoldable pub raw_bytes : KeyComposer → List ℕ → List ℕ
raw_bytes kc key = compose_meta_key_into kc (KeyTag.as_slice KeyTag.raw_string) key
