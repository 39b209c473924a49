-- ===== src/KeyMeta.antt =====
-- embed/src/meta.rs: the metadata that heads every composite value, `KeyMeta`, with its standard form of
-- 26 bytes and the compact forms of 25 and 9 bytes; expiry and remaining time. The version
-- that a new value gets is an argument here.
pub mod RoundTrip
pub mod Expiry
mod Examples
use Prim.Native.String.{String}
use wedb_embed.Base.{
  ℕ, zero, suc, ◌+◌, ◌-◌, ◌*◌, ◌/◌, ◌%◌, ◌^◌, bit_and, bit_or, Bool, true, false, ◌&&◌, not, List,
  [], ◌∷◌, ◌++◌, Option, none, some, ltb, leb, ◌==◌, if◌then◌else◌, length, take, drop, get_or,
}
use wedb_embed.Base.Int.{ℤ, pos, negsuc}
use wedb_embed.Bytes.{to_be_bytes, from_be_bytes}

pub data RedisType : Type 0 where
  none_type string hash list set zset bitmap sorted_int stream bloom json hyper_log_log tdigest
        time_series cuckoo_filter :
      RedisType

-- `as u8`
unfoldable pub type_as_u8 : RedisType → ℕ
type_as_u8 none_type = 0
type_as_u8 string = 1
type_as_u8 hash = 2
type_as_u8 list = 3
type_as_u8 set = 4
type_as_u8 zset = 5
type_as_u8 bitmap = 6
type_as_u8 sorted_int = 7
type_as_u8 stream = 8
type_as_u8 bloom = 9
type_as_u8 json = 10
type_as_u8 hyper_log_log = 11
type_as_u8 tdigest = 12
type_as_u8 time_series = 13
type_as_u8 cuckoo_filter = 14

unfoldable pub name : RedisType → String
name none_type = "none"
name string = "string"
name hash = "hash"
name list = "list"
name set = "set"
name zset = "zset"
name bitmap = "bitmap"
name sorted_int = "sortedint"
name stream = "stream"
name bloom = "MBbloom--"
name json = "ReJSON-RL"
name hyper_log_log = "hyperloglog"
name tdigest = "TDIS-TYPE"
name time_series = "timeseries"
name cuckoo_filter = "MBbloomCF"

abbrev pub all_types : List RedisType
all_types =
    none_type ∷ string ∷ hash ∷ list ∷ set ∷ zset ∷ bitmap ∷ sorted_int ∷ stream ∷ bloom ∷ json
    ∷ hyper_log_log ∷ tdigest ∷ time_series ∷ cuckoo_filter ∷ []

unfoldable pub nth_type : List RedisType → ℕ → RedisType
nth_type [] b = none_type
nth_type (t ∷ ts) zero = t
nth_type (t ∷ ts) (suc b) = nth_type ts b

-- The variant with this discriminant, and `None` for a byte that is none.
unfoldable pub type_from_u8 : ℕ → RedisType
unfolding nth_type
type_from_u8 b = nth_type all_types b

unfoldable pub is_single_kv_type : RedisType → Bool
is_single_kv_type string = true
is_single_kv_type json = true
is_single_kv_type _ = false

unfoldable pub is_emptyable_type : RedisType → Bool
is_emptyable_type string = true
is_emptyable_type json = true
is_emptyable_type stream = true
is_emptyable_type bloom = true
is_emptyable_type hyper_log_log = true
is_emptyable_type tdigest = true
is_emptyable_type time_series = true
is_emptyable_type cuckoo_filter = true
is_emptyable_type _ = false

pub record KeyMeta : Type 0 where
  pub rtype : RedisType
  pub flags : ℕ
  pub expire_at : ℕ
  pub version : ℕ
  pub size : ℕ

abbrev pub encoded_size : ℕ
encoded_size = 26

abbrev pub kvrocks_complex_encoded_size : ℕ
kvrocks_complex_encoded_size = 25

abbrev pub kvrocks_single_kv_encoded_size : ℕ
kvrocks_single_kv_encoded_size = 9

-- `new`; `new_with_version` is this with a fresh version.
unfoldable pub new : RedisType → ℕ → ℕ → ℕ → KeyMeta
new rtype expire_at version size = record {
  rtype = rtype;
  flags = 0;
  expire_at = expire_at;
  version = version;
  size = size;
}

unfoldable pub is_expired : KeyMeta → ℕ → Bool
is_expired m now_ms =
    if not (is_emptyable_type m.rtype) && m.size == 0
    then true
    else ltb 0 m.expire_at && leb m.expire_at now_ms

-- A 64-bit word read as a signed one.
unfoldable pub as_i64 : ℕ → ℤ
as_i64 w = if ltb w (2 ^ 63) then pos w else negsuc (2 ^ 64 - w - 1)

-- Signed division, towards zero.
unfoldable pub div_i64 : ℤ → ℕ → ℤ
div_i64 (pos n) k = pos (n / k)
div_i64 (negsuc n) k = let q = (n + 1) / k in if q == 0 then pos 0 else negsuc (q - 1)

unfoldable pub ttl_ms : KeyMeta → ℕ → ℤ
unfolding as_i64
ttl_ms m now_ms =
    if m.expire_at == 0
    then negsuc 0
    else if leb m.expire_at now_ms
    then negsuc 1
    else as_i64 (m.expire_at - now_ms)

unfoldable pub ttl_sec_of : ℤ → ℤ
unfolding as_i64 div_i64
ttl_sec_of (negsuc n) = negsuc n
ttl_sec_of (pos ms) = div_i64 (as_i64 (ms + 999)) 1000

unfoldable pub ttl_sec : KeyMeta → ℕ → ℤ
unfolding ttl_ms ttl_sec_of
ttl_sec m now_ms = ttl_sec_of (ttl_ms m now_ms)

unfoldable pub expire_at_ms_to_sec : ℕ → ℕ
expire_at_ms_to_sec ms =
    if ms == 0 then 0 else if ltb ms 1000 then 1 else (ms + 499) % 2 ^ 64 / 1000

unfoldable pub is_64bit_encoded_flags : ℕ → Bool
is_64bit_encoded_flags flags = not (bit_and flags 0x80 == 0)

unfoldable pub common_encoded_size : KeyMeta → ℕ
unfolding is_64bit_encoded_flags
common_encoded_size m = if is_64bit_encoded_flags m.flags then 8 else 4

unfoldable pub get_offset_after_expire : ℕ → ℕ
unfolding is_64bit_encoded_flags
get_offset_after_expire flags = if is_64bit_encoded_flags flags then 1 + 8 else 1 + 4

unfoldable pub get_offset_after_size : ℕ → ℕ
unfolding is_64bit_encoded_flags
get_offset_after_size flags = if is_64bit_encoded_flags flags then 1 + 8 + 8 + 8 else 1 + 4 + 8 + 4

unfoldable pub encode : KeyMeta → List ℕ
unfolding type_as_u8
encode m =
    type_as_u8 m.rtype
    ∷ m.flags
    ∷ (to_be_bytes 8 m.expire_at ++ (to_be_bytes 8 m.version ++ to_be_bytes 8 m.size))

unfoldable pub kvrocks_flags : RedisType → ℕ
unfolding type_as_u8
kvrocks_flags t = bit_or 0x80 (bit_and (type_as_u8 t) 0x0f)

unfoldable pub encode_kvrocks : KeyMeta → List ℕ
unfolding kvrocks_flags is_single_kv_type
encode_kvrocks m =
    if is_single_kv_type m.rtype
    then kvrocks_flags m.rtype ∷ to_be_bytes 8 m.expire_at
    else kvrocks_flags m.rtype
      ∷ (to_be_bytes 8 m.expire_at ++ (to_be_bytes 8 m.version ++ to_be_bytes 8 m.size))

-- `u64::from_be_bytes([bytes[i], …, bytes[i + 7]])`, where those are in range.
unfoldable pub u64_at : List ℕ → ℕ → ℕ
u64_at bytes i = from_be_bytes (take 8 (drop i bytes))

-- The compact forms, of which the first byte has the top bit.
unfoldable pub decode_kvrocks : List ℕ → Option KeyMeta
unfolding u64_at is_single_kv_type type_from_u8
decode_kvrocks bytes =
    let len = length bytes in
    let flags = get_or bytes 0 0 in
    let rtype = type_from_u8 (bit_and flags 0x0f) in
    if is_single_kv_type rtype
    then if ltb len kvrocks_single_kv_encoded_size
      then none
      else some (record {
        rtype = rtype;
        flags = flags;
        expire_at = u64_at bytes 1;
        version = 0;
        size = 0;
      })
    else if leb kvrocks_complex_encoded_size len
    then some (record {
      rtype = rtype;
      flags = flags;
      expire_at = u64_at bytes 1;
      version = u64_at bytes 9;
      size = u64_at bytes 17;
    })
    else none

unfoldable pub decode : List ℕ → Option KeyMeta
unfolding u64_at type_from_u8 is_64bit_encoded_flags decode_kvrocks
decode bytes =
    let len = length bytes in
    let first = get_or bytes 0 0 in
    if len == 0
    then none
    else if leb encoded_size len && leb first 14
    then some (record {
      rtype = type_from_u8 first;
      flags = get_or bytes 1 0;
      expire_at = u64_at bytes 2;
      version = u64_at bytes 10;
      size = u64_at bytes 18;
    })
    else if is_64bit_encoded_flags first
    then decode_kvrocks bytes
    else none
