-- ===== src/ListMeta.antt =====
-- embed/src/api/list/meta.rs: the metadata of a list, a header and the two ends of the window of
-- element numbers. The ends are 64-bit words that go round.
pub mod RoundTrip
pub mod Window
use wedb_embed.Base.{
  ℕ, ◌+◌, ◌-◌, ◌/◌, ◌%◌, ◌^◌, List, [], ◌∷◌, ◌++◌, Bool, ◌&&◌, ◌||◌, not, Option, none, some, ltb,
  leb, ◌==◌, if◌then◌else◌, length, take, drop, get_or, ◌>>=◌,
}
use wedb_embed.Bytes.{to_be_bytes, from_be_bytes}
use wedb_embed.KeyMeta
use wedb_embed.KeyMeta.{
  KeyMeta, RedisType, kvrocks_flags, is_64bit_encoded_flags, kvrocks_complex_encoded_size,
}

pub record ListMeta : Type 0 where
  pub base : KeyMeta
  pub head : ℕ
  pub tail : ℕ

abbrev pub initial_index : ℕ
initial_index = (2 ^ 64 - 1) / 2

abbrev pub encoded_size : ℕ
encoded_size = KeyMeta.encoded_size + 16

abbrev pub kvrocks_encoded_size : ℕ
kvrocks_encoded_size = kvrocks_complex_encoded_size + 16

-- `wrapping_add` and `wrapping_sub` on 64 bits.
abbrev pub wrapping_add : ℕ → ℕ → ℕ
wrapping_add a b = (a + b) % 2 ^ 64

abbrev pub wrapping_sub : ℕ → ℕ → ℕ
wrapping_sub a b = (a + 2 ^ 64 - b) % 2 ^ 64

-- `new`; `new_with_version` is this with a fresh version.
unfoldable pub new : ℕ → ℕ → ListMeta
new expire_at version = record {
  base = KeyMeta.new RedisType.list expire_at version 0;
  head = initial_index;
  tail = initial_index;
}

unfoldable pub is_expired : ListMeta → ℕ → Bool
is_expired m now_ms = KeyMeta.is_expired m.base now_ms

-- The methods that move an end return the element number that is written or read.
unfoldable pub push_head : ListMeta → ℕ × ListMeta
push_head m = let h = wrapping_sub m.head 1 in (h, record m { head = h })

unfoldable pub push_tail : ListMeta → ℕ × ListMeta
push_tail m = (m.tail, record m { tail = wrapping_add m.tail 1 })

unfoldable pub pop_head : ListMeta → ℕ × ListMeta
pop_head m = (m.head, record m { head = wrapping_add m.head 1 })

unfoldable pub pop_tail : ListMeta → ℕ × ListMeta
pop_tail m = let t = wrapping_sub m.tail 1 in (t, record m { tail = t })

unfoldable pub push_index : ListMeta → Bool → ℕ × ListMeta
unfolding push_head push_tail
push_index m left = if left then push_head m else push_tail m

unfoldable pub pop_index : ListMeta → Bool → ℕ × ListMeta
unfolding pop_head pop_tail
pop_index m left = if left then pop_head m else pop_tail m

unfoldable pub encode : ListMeta → List ℕ
encode m = KeyMeta.encode m.base ++ (to_be_bytes 8 m.head ++ to_be_bytes 8 m.tail)

unfoldable pub encode_kvrocks : ListMeta → List ℕ
encode_kvrocks m =
    kvrocks_flags RedisType.list
    ∷ (to_be_bytes 8 m.base.expire_at
        ++ (to_be_bytes 8 m.base.version
            ++ (to_be_bytes 8 m.base.size ++ (to_be_bytes 8 m.head ++ to_be_bytes 8 m.tail))))

-- A word, if there are eight bytes from the offset on.
unfoldable pub read_u64_be : List ℕ → ℕ → Option ℕ
read_u64_be bytes offset =
    if leb (offset + 8) (length bytes)
    then some (from_be_bytes (take 8 (drop offset bytes)))
    else none

-- The header in the first `n` bytes, and the two ends behind it.
unfoldable pub decode_at : List ℕ → ℕ → Option ListMeta
unfolding read_u64_be
decode_at bytes n = do
  base ← KeyMeta.decode (take n bytes)
  head ← read_u64_be bytes n
  tail ← read_u64_be bytes (n + 8)
  some (record { base = base; head = head; tail = tail })

-- The two ends alone.
unfoldable pub decode_ends : List ℕ → Option ListMeta
unfolding read_u64_be
decode_ends bytes = do
  head ← read_u64_be bytes 0
  tail ← read_u64_be bytes 8
  let size = if leb head tail then wrapping_sub tail head else 0
  some (record { base = KeyMeta.new RedisType.list 0 0 size; head = head; tail = tail })

unfoldable pub decode : List ℕ → Option ListMeta
unfolding decode_at decode_ends
decode bytes =
    let first = get_or bytes 0 0 in
    let second = get_or bytes 1 0 in
    if leb encoded_size (length bytes) && leb first 14 && (second == 0 || second == 0x80)
    then decode_at bytes KeyMeta.encoded_size
    else if leb kvrocks_encoded_size (length bytes) && is_64bit_encoded_flags first
    then decode_at bytes kvrocks_complex_encoded_size
    else if leb 33 (length bytes) && not (is_64bit_encoded_flags first)
    then decode_at bytes 17
    else if length bytes == 16
    then decode_ends bytes
    else none
