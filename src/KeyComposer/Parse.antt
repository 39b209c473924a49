-- ===== src/KeyComposer/Parse.antt =====
-- embed/src/key_composer/composer.rs: the functions that take a physical key apart.
use wedb_embed.Base.{
  ℕ, ◌+◌, ◌^◌, List, [], ◌++◌, Bool, true, false, ◌&&◌, ◌||◌, not, Option, none, some, ltb, leb,
  ◌==◌, if◌then◌else◌, length, take, drop, get_or, ◌>>=◌,
}
use wedb_embed.Bytes.{starts_with}
use wedb_embed.Oppv.{decode_oppv_u64}
use wedb_embed.KeyTag
use wedb_embed.KeyTag.{KeyTag}
use wedb_embed.KeyComposer.{KeyComposer, encode_scope_prefix_fixed, encode_scope_prefix}

-- `full_key.get(from..)`
unfoldable pub slice_from : List ℕ → ℕ → Option (List ℕ)
slice_from xs from = if leb from (length xs) then some (drop from xs) else none

-- Taking a key apart: the scope, its length, and what follows it.
unfoldable pub parse_scoped_prefix : List ℕ → Option (KeyComposer × ℕ × List ℕ)
parse_scoped_prefix full_key =
    if ltb (length full_key) 3 || not (get_or full_key 0 0 == 0) then none else do
      (ns_id, c1) ← decode_oppv_u64 (drop 1 full_key)
      (db, c2) ← slice_from full_key (1 + c1) >>= decode_oppv_u64
      let prefix_len = 1 + c1 + c2
      if ltb prefix_len (length full_key)
          then some (record { ns_id = ns_id; db = db }, prefix_len, drop prefix_len full_key)
          else none

-- `full_key.starts_with(prefix) && full_key.len() > prefix.len() && from_u8(full_key[prefix.len()])`
unfoldable pub is_some {ℓ} : {A : Type ℓ} → Option A → Bool
is_some none = false
is_some (some a) = true

unfoldable pub is_key_in_ns : KeyComposer → List ℕ → Bool
is_key_in_ns kc full_key =
    let prefix = encode_scope_prefix_fixed kc in
    starts_with prefix full_key
    && ltb (length prefix) (length full_key)
    && is_some (KeyTag.from_u8 (get_or full_key (length prefix) 0))

-- The tags under which the user's key is the rest of the physical key. Under every other tag the
-- user's key stands behind its length.
unfoldable pub holds_bare_key : KeyTag → Bool
holds_bare_key KeyTag.raw_string = true
holds_bare_key KeyTag.hash_meta = true
holds_bare_key KeyTag.list_meta = true
holds_bare_key KeyTag.set_meta = true
holds_bare_key KeyTag.zset_meta = true
holds_bare_key KeyTag.bloom_meta = true
holds_bare_key KeyTag.cuckoo_meta = true
holds_bare_key KeyTag.bitmap_meta = true
holds_bare_key KeyTag.hll_meta = true
holds_bare_key KeyTag.hll_raw = true
holds_bare_key KeyTag.json_meta = true
holds_bare_key KeyTag.sorted_int_meta = true
holds_bare_key KeyTag.stream_meta = true
holds_bare_key KeyTag.tdigest_meta = true
holds_bare_key KeyTag.time_series_meta = true
holds_bare_key KeyTag.ft_schema = true
holds_bare_key KeyTag.ft_alias = true
holds_bare_key _ = false

-- `remain.get(start..end)` behind a `checked_add` on `usize`.
unfoldable pub counted_key : List ℕ → Option (List ℕ)
counted_key remain = do
  (key_len, consumed) ← decode_oppv_u64 (drop 1 remain)
  let start = 1 + consumed
  let stop = start + key_len
  if ltb stop (2 ^ 64) && leb stop (length remain)
      then some (take key_len (drop start remain))
      else none

unfoldable pub extract_user_key : KeyComposer → List ℕ → Option (List ℕ)
unfolding counted_key
extract_user_key kc full_key =
    let prefix = encode_scope_prefix_fixed kc in
    let remain = drop (length prefix) full_key in
    if starts_with prefix full_key
    then if length remain == 0
      then none
      else (KeyTag.from_u8 (get_or remain 0 0) >>= λ tag.
          if holds_bare_key tag then some (drop 1 remain) else counted_key remain)
    else none

unfoldable pub transform_key_to_target_bytes : KeyComposer → List ℕ → KeyComposer → Option (List ℕ)
unfolding is_some
transform_key_to_target_bytes kc full_key target_kc =
    let prefix = encode_scope_prefix_fixed kc in
    let rem = drop (length prefix) full_key in
    if starts_with prefix full_key
    then if length rem == 0 || not (is_some (KeyTag.from_u8 (get_or rem 0 0)))
      then none
      else some (encode_scope_prefix target_kc [] ++ rem)
    else none
