-- ===== src/KeyTag.antt =====
-- embed/src/key_composer/tag.rs: the one-byte tags that separate the kinds of keys in the store, and
-- the tags of the system's own keys. A tag's number is its discriminant.
pub mod Laws
use Prim.Native.String.{String}
use wedb_embed.Base.{ℕ, zero, suc, List, [], ◌∷◌, Bool, true, false, Option, none, some, map}

pub data KeyTag : Type 0 where
  raw_string hash_meta hash_data list_meta list_data set_meta set_data zset_meta zset_score
        zset_data bloom_meta bloom_data cuckoo_meta cuckoo_data bitmap_meta bitmap_data hll_meta
        hll_raw json_meta json_data sorted_int_meta sorted_int_data stream_meta stream_data
        stream_group stream_consumer stream_pel tdigest_meta tdigest_data time_series_meta
        time_series_data ft_schema ft_alias ft_index ft_data :
      KeyTag

-- `as_u8`: the discriminant.
unfoldable pub as_u8 : KeyTag → ℕ
as_u8 raw_string = 0x00
as_u8 hash_meta = 0x01
as_u8 hash_data = 0x02
as_u8 list_meta = 0x03
as_u8 list_data = 0x04
as_u8 set_meta = 0x05
as_u8 set_data = 0x06
as_u8 zset_meta = 0x07
as_u8 zset_score = 0x08
as_u8 zset_data = 0x09
as_u8 bloom_meta = 0x0a
as_u8 bloom_data = 0x0b
as_u8 cuckoo_meta = 0x0c
as_u8 cuckoo_data = 0x0d
as_u8 bitmap_meta = 0x0e
as_u8 bitmap_data = 0x0f
as_u8 hll_meta = 0x10
as_u8 hll_raw = 0x11
as_u8 json_meta = 0x12
as_u8 json_data = 0x13
as_u8 sorted_int_meta = 0x14
as_u8 sorted_int_data = 0x15
as_u8 stream_meta = 0x16
as_u8 stream_data = 0x17
as_u8 stream_group = 0x18
as_u8 stream_consumer = 0x19
as_u8 stream_pel = 0x1a
as_u8 tdigest_meta = 0x1b
as_u8 tdigest_data = 0x1c
as_u8 time_series_meta = 0x1d
as_u8 time_series_data = 0x1e
as_u8 ft_schema = 0x1f
as_u8 ft_alias = 0x20
as_u8 ft_index = 0x21
as_u8 ft_data = 0x22

-- The list of all tags in the order of their numbers.
abbrev pub all_tags : List KeyTag
all_tags =
    raw_string ∷ hash_meta ∷ hash_data ∷ list_meta ∷ list_data ∷ set_meta ∷ set_data ∷ zset_meta
    ∷ zset_score ∷ zset_data ∷ bloom_meta ∷ bloom_data ∷ cuckoo_meta ∷ cuckoo_data ∷ bitmap_meta
    ∷ bitmap_data ∷ hll_meta ∷ hll_raw ∷ json_meta ∷ json_data ∷ sorted_int_meta ∷ sorted_int_data
    ∷ stream_meta ∷ stream_data ∷ stream_group ∷ stream_consumer ∷ stream_pel ∷ tdigest_meta
    ∷ tdigest_data ∷ time_series_meta ∷ time_series_data ∷ ft_schema ∷ ft_alias ∷ ft_index ∷ ft_data
    ∷ []

-- The derived `from_repr`: the variant with this discriminant.
unfoldable pub nth_tag : List KeyTag → ℕ → Option KeyTag
nth_tag [] b = none
nth_tag (t ∷ ts) zero = some t
nth_tag (t ∷ ts) (suc b) = nth_tag ts b

unfoldable pub from_u8 : ℕ → Option KeyTag
unfolding nth_tag
from_u8 b = nth_tag all_tags b

-- `as_slice`: the entry of the table of one-byte slices.
unfoldable pub as_slice : KeyTag → List ℕ
unfolding as_u8
as_slice t = as_u8 t ∷ []

unfoldable pub from_slice : List ℕ → Option KeyTag
unfolding from_u8
from_slice [] = none
from_slice (b ∷ []) = from_u8 b
from_slice (b ∷ c ∷ bs) = none

unfoldable pub type_name : KeyTag → String
type_name raw_string = "string"
type_name hash_meta = "hash"
type_name hash_data = "hash"
type_name list_meta = "list"
type_name list_data = "list"
type_name set_meta = "set"
type_name set_data = "set"
type_name zset_meta = "zset"
type_name zset_score = "zset"
type_name zset_data = "zset"
type_name bloom_meta = "MBbloom--"
type_name bloom_data = "MBbloom--"
type_name cuckoo_meta = "MBbloomCF"
type_name cuckoo_data = "MBbloomCF"
type_name bitmap_meta = "bitmap"
type_name bitmap_data = "bitmap"
type_name hll_meta = "hyperloglog"
type_name hll_raw = "hyperloglog"
type_name json_meta = "ReJSON-RL"
type_name json_data = "ReJSON-RL"
type_name sorted_int_meta = "sortedint"
type_name sorted_int_data = "sortedint"
type_name stream_meta = "stream"
type_name stream_data = "stream"
type_name stream_group = "stream"
type_name stream_consumer = "stream"
type_name stream_pel = "stream"
type_name tdigest_meta = "TDIS-TYPE"
type_name tdigest_data = "TDIS-TYPE"
type_name time_series_meta = "timeseries"
type_name time_series_data = "timeseries"
type_name ft_schema = "ft"
type_name ft_alias = "ft"
type_name ft_index = "ft"
type_name ft_data = "ft"

unfoldable pub is_meta : KeyTag → Bool
is_meta raw_string = false
is_meta hash_meta = true
is_meta hash_data = false
is_meta list_meta = true
is_meta list_data = false
is_meta set_meta = true
is_meta set_data = false
is_meta zset_meta = true
is_meta zset_score = false
is_meta zset_data = false
is_meta bloom_meta = true
is_meta bloom_data = false
is_meta cuckoo_meta = true
is_meta cuckoo_data = false
is_meta bitmap_meta = true
is_meta bitmap_data = false
is_meta hll_meta = true
is_meta hll_raw = false
is_meta json_meta = true
is_meta json_data = false
is_meta sorted_int_meta = true
is_meta sorted_int_data = false
is_meta stream_meta = true
is_meta stream_data = false
is_meta stream_group = false
is_meta stream_consumer = false
is_meta stream_pel = false
is_meta tdigest_meta = true
is_meta tdigest_data = false
is_meta time_series_meta = true
is_meta time_series_data = false
is_meta ft_schema = true
is_meta ft_alias = true
is_meta ft_index = false
is_meta ft_data = false

unfoldable pub is_data : KeyTag → Bool
is_data raw_string = false
is_data hash_meta = false
is_data hash_data = true
is_data list_meta = false
is_data list_data = true
is_data set_meta = false
is_data set_data = true
is_data zset_meta = false
is_data zset_score = true
is_data zset_data = true
is_data bloom_meta = false
is_data bloom_data = true
is_data cuckoo_meta = false
is_data cuckoo_data = true
is_data bitmap_meta = false
is_data bitmap_data = true
is_data hll_meta = false
is_data hll_raw = true
is_data json_meta = false
is_data json_data = true
is_data sorted_int_meta = false
is_data sorted_int_data = true
is_data stream_meta = false
is_data stream_data = true
is_data stream_group = true
is_data stream_consumer = true
is_data stream_pel = true
is_data tdigest_meta = false
is_data tdigest_data = true
is_data time_series_meta = false
is_data time_series_data = true
is_data ft_schema = false
is_data ft_alias = false
is_data ft_index = true
is_data ft_data = true

-- The metadata tags of the composite types, in the order in which they are searched.
abbrev pub all_composite_meta_tags : List KeyTag
all_composite_meta_tags =
    hash_meta ∷ list_meta ∷ set_meta ∷ zset_meta ∷ bloom_meta ∷ cuckoo_meta ∷ bitmap_meta ∷ hll_meta
    ∷ json_meta ∷ sorted_int_meta ∷ stream_meta ∷ tdigest_meta ∷ time_series_meta ∷ []

-- `SystemDomainTag`: the second byte of a system key, after 0xff.
pub data SystemDomainTag : Type 0 where
  sys_meta catalog ttl_index raft_state cluster : SystemDomainTag

-- `SysMetaTag`: the third byte of a key under `sys_meta`.
pub data SysMetaTag : Type 0 where
  ns_name ns_id ns_next_id ns_token db_next_id : SysMetaTag

unfoldable pub domain_as_u8 : SystemDomainTag → ℕ
domain_as_u8 sys_meta = 0x01
domain_as_u8 catalog = 0x02
domain_as_u8 ttl_index = 0x03
domain_as_u8 raft_state = 0x04
domain_as_u8 cluster = 0x05

unfoldable pub sys_meta_as_u8 : SysMetaTag → ℕ
sys_meta_as_u8 ns_name = 0x01
sys_meta_as_u8 ns_id = 0x02
sys_meta_as_u8 ns_next_id = 0x03
sys_meta_as_u8 ns_token = 0x04
sys_meta_as_u8 db_next_id = 0x05
