-- ===== src/KeyMeta/Examples.antt =====
-- A concrete header and its expiry.
use wedb_embed.Base.{◌≡◌, [], ◌∷◌, ◌++◌, arith, some, if◌then◌else◌}
use wedb_embed.KeyMeta.{
  KeyMeta, RedisType, encode, decode, encode_kvrocks, kvrocks_flags, is_single_kv_type,
}
use wedb_embed.KeyMeta.RoundTrip.{IsValid, decode-encode_key_meta, decode-encode_kvrocks}

abbrev hash : KeyMeta
hash = record { rtype = RedisType.hash; flags = 0; expire_at = 5000; version = 12; size = 3 }

hash-IsValid : IsValid hash
hash-IsValid = record { expire = omega arith; version = omega arith; size = omega arith }

decode-encode_key_meta_example : decode (encode hash ++ (1 ∷ [])) ≡ some hash
decode-encode_key_meta_example = decode-encode_key_meta hash (1 ∷ []) hash-IsValid

decode-encode_kvrocks_example :
    decode (encode_kvrocks hash ++ (1 ∷ []))
    ≡ some (
        if is_single_kv_type hash.rtype
        then record hash { flags = kvrocks_flags hash.rtype; version = 0; size = 0 }
        else record hash { flags = kvrocks_flags hash.rtype })
decode-encode_kvrocks_example = decode-encode_kvrocks hash (1 ∷ []) hash-IsValid
