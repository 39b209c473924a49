-- ===== src/KeyComposer.antt =====
-- embed/src/key_composer/composer.rs: the layout of physical keys. A key begins with the scope,
-- `\x00[oppv(ns_id)][oppv(db)]`, then a tag; a data key goes on with the length of the user's key as a
-- varint, the key, and the subkey. The source composes each key twice, on the heap and in a small
-- key, with a shorter path for the default scope; both are here. The functions that take a key apart
-- are in `Parse`, the reusable buffer for subkeys is in `Subkey`. Reservations of capacity have no
-- counterpart.
pub mod Layout
pub mod Subkey
pub mod Parse
pub mod RoundTrip
pub mod Isolation
pub mod Keys
mod Examples
use mathlib.Core.List.{flatten}
use wedb_embed.Base.{
  ℕ, ◌+◌, ◌%◌, List, [], ◌∷◌, ◌++◌, Bool, ◌&&◌, ltb, leb, ◌==◌, if◌then◌else◌, length, get_or,
}
use wedb_embed.Oppv.{oppv_len_u64, encode_oppv_u64_slice, encode_oppv_u64}
use wedb_embed.SmallKey
use wedb_embed.SmallKey.{SmallKey, inline_cap, zeroed, write_all}

pub record KeyComposer : Type 0 where
  pub ns_id : ℕ
  pub db : ℕ

unfoldable pub is_default : KeyComposer → Bool
is_default kc = kc.ns_id == 0 && kc.db == 0

unfoldable pub scope_prefix_len : KeyComposer → ℕ
scope_prefix_len kc = 1 + oppv_len_u64 kc.ns_id + oppv_len_u64 kc.db

unfoldable pub encode_scope_prefix_fixed : KeyComposer → List ℕ
encode_scope_prefix_fixed kc = 0 ∷ encode_oppv_u64_slice kc.ns_id ++ encode_oppv_u64_slice kc.db

unfoldable pub encode_scope_prefix : KeyComposer → List ℕ → List ℕ
encode_scope_prefix kc buf = buf ++ encode_scope_prefix_fixed kc

unfoldable pub encode_scope_prefix_small : KeyComposer → SmallKey → SmallKey
encode_scope_prefix_small kc sk = SmallKey.extend_from_slice sk (encode_scope_prefix_fixed kc)

-- The buffer is cleared first, so only the result matters.
unfoldable pub compose_meta_key_into : KeyComposer → List ℕ → List ℕ → List ℕ
compose_meta_key_into kc tag key =
    if is_default kc && length tag == 1
    then (0 ∷ 0 ∷ 0 ∷ get_or tag 0 0 ∷ []) ++ key
    else (encode_scope_prefix kc [] ++ tag) ++ key

-- The slices of a key written into the array of a small key.
unfoldable pub inline_of : List (List ℕ) → ℕ → SmallKey
inline_of pieces total_len = SmallKey.inline (write_all 0 pieces zeroed) (total_len % 256)

unfoldable pub compose_meta_key_stack : KeyComposer → List ℕ → List ℕ → SmallKey
unfolding inline_of
compose_meta_key_stack kc tag key =
    let total_len = scope_prefix_len kc + length tag + length key in
    let general =
      if leb total_len inline_cap
      then inline_of
          ((0 ∷ []) ∷ encode_oppv_u64_slice kc.ns_id ∷ encode_oppv_u64_slice kc.db ∷ tag ∷ key ∷ [])
          total_len
      else SmallKey.heap ((encode_scope_prefix kc [] ++ tag) ++ key) in
    if is_default kc && length tag == 1 && leb (4 + length key) inline_cap
    then inline_of ((0 ∷ 0 ∷ 0 ∷ get_or tag 0 0 ∷ []) ∷ key ∷ []) (4 + length key)
    else general

-- With any extra capacity: `compose_prefix_into`, `compose_prefix`.
unfoldable pub compose_prefix : KeyComposer → List ℕ → List ℕ → List ℕ
compose_prefix kc tag key =
    if is_default kc && length tag == 1 && ltb (length key) 128
    then (0 ∷ 0 ∷ 0 ∷ get_or tag 0 0 ∷ (length key % 256) ∷ []) ++ key
    else encode_oppv_u64 (length key) (encode_scope_prefix kc [] ++ tag) ++ key

-- `for s in extra_slices { total_len += s.len() }`
unfoldable pub add_lengths : ℕ → List (List ℕ) → ℕ
add_lengths n [] = n
add_lengths n (s ∷ ss) = add_lengths (n + length s) ss

-- The key on the heap, when it is too long for the array.
unfoldable pub heap_key : KeyComposer → List ℕ → List ℕ → List (List ℕ) → SmallKey
heap_key kc tag key extra =
    SmallKey.heap
      ((encode_oppv_u64 (length key) (encode_scope_prefix kc [] ++ tag) ++ key) ++ flatten extra)

unfoldable pub try_compose_stack_key : KeyComposer → List ℕ → List ℕ → List (List ℕ) → SmallKey
unfolding inline_of heap_key
try_compose_stack_key kc tag key extra =
    let short_len = add_lengths (5 + length key) extra in
    let total_len =
      add_lengths (scope_prefix_len kc + length tag + oppv_len_u64 (length key) + length key)
        extra in
    if is_default kc && length tag == 1 && ltb (length key) 128
    then if leb short_len inline_cap
      then inline_of ((0 ∷ 0 ∷ 0 ∷ get_or tag 0 0 ∷ (length key % 256) ∷ []) ∷ key ∷ extra)
          short_len
      else heap_key kc tag key extra
    else if leb total_len inline_cap
    then inline_of
        (encode_scope_prefix_fixed kc ∷ tag ∷ encode_oppv_u64_slice (length key) ∷ key ∷ extra)
        total_len
    else heap_key kc tag key extra

unfoldable pub compose_prefix_stack : KeyComposer → List ℕ → List ℕ → SmallKey
compose_prefix_stack kc tag key = try_compose_stack_key kc tag key []

unfoldable pub compose_subkey_stack : KeyComposer → List ℕ → List ℕ → List ℕ → SmallKey
compose_subkey_stack kc tag key subkey = try_compose_stack_key kc tag key (subkey ∷ [])

unfoldable pub compose_subkey2_stack : KeyComposer → List ℕ → List ℕ → List ℕ → List ℕ → SmallKey
compose_subkey2_stack kc tag key sub1 sub2 = try_compose_stack_key kc tag key (sub1 ∷ sub2 ∷ [])

unfoldable pub compose_oppv_subkey_stack :
    KeyComposer → List ℕ → List ℕ → List ℕ → List ℕ → SmallKey
unfolding inline_of
compose_oppv_subkey_stack kc tag key mid sub =
    let total_len =
      scope_prefix_len kc
      + length tag
      + oppv_len_u64 (length key)
      + length key
      + oppv_len_u64 (length mid)
      + length mid
      + length sub in
    if leb total_len inline_cap
    then inline_of
        (encode_scope_prefix_fixed kc
          ∷ tag
          ∷ encode_oppv_u64_slice (length key)
          ∷ key
          ∷ encode_oppv_u64_slice (length mid)
          ∷ mid
          ∷ sub
          ∷ [])
        total_len
    else SmallKey.heap (
        (encode_oppv_u64 (length mid)
            (encode_oppv_u64 (length key) (encode_scope_prefix kc [] ++ tag) ++ key)
          ++ mid)
        ++ sub)

unfoldable pub compose_meta_prefix_stack : KeyComposer → List ℕ → SmallKey
unfolding inline_of
compose_meta_prefix_stack kc tag =
    if is_default kc && length tag == 1
    then inline_of ((0 ∷ 0 ∷ 0 ∷ get_or tag 0 0 ∷ []) ∷ []) 4
    else SmallKey.extend_from_slice
        (SmallKey.extend_from_slice SmallKey.new (encode_scope_prefix_fixed kc)) tag

unfoldable pub compose_meta_prefix : KeyComposer → List ℕ → List ℕ
compose_meta_prefix kc tag =
    if is_default kc && length tag == 1
    then 0 ∷ 0 ∷ 0 ∷ get_or tag 0 0 ∷ []
    else encode_scope_prefix kc [] ++ tag

unfoldable pub namespace_prefix : KeyComposer → List ℕ
namespace_prefix kc = encode_scope_prefix kc []

unfoldable pub namespace_prefix_stack : KeyComposer → SmallKey
unfolding inline_of
namespace_prefix_stack kc =
    let tmp = encode_scope_prefix_fixed kc in inline_of (tmp ∷ []) (length tmp)

-- `\x00[oppv(ns_id)]`: of all databases of a namespace.
unfoldable pub ns_prefix : ℕ → List ℕ
ns_prefix ns_id = encode_oppv_u64 ns_id (0 ∷ [])
