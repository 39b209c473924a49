-- ===== src/SetApi.antt =====
-- embed/src/api/set: the commands on sets, and key.rs and meta.rs, the keys and the metadata of a set.
-- Each member is a field with an empty value. The composer of member keys keeps one buffer, of which
-- each call truncates what the call before has left; here each call has a fresh one. A `HashSet` is
-- the list of its members.
pub mod State
pub mod Members
pub mod Write
pub mod Read
pub mod Move
pub mod HashSet
pub mod Algebra
pub mod UnionCard
pub mod Pop
pub mod Scan
pub mod Refused
mod Examples
use wedb_embed.Base.{
  ℕ, List, [], ◌∷◌, Bool, true, false, ◌||◌, Option, none, some, if◌then◌else◌, ltb,
}
use wedb_embed.Bytes.{bytes_eq}
use wedb_embed.KeyTag.{KeyTag, as_slice}
use wedb_embed.SmallKey.{as_bytes}
use wedb_embed.KeyComposer.{
  KeyComposer, compose_meta_key_stack, compose_prefix_stack, compose_subkey_stack,
}
use wedb_embed.KeyComposer.Subkey.{SubkeyComposer, subkey_composer, compose_sub}
use wedb_embed.KeyMeta.{RedisType}
use wedb_embed.Store.{Engine}
use wedb_embed.Store.Finite.{is_some}
use wedb_embed.Db.{Db}
use wedb_embed.Outcome.{Result, ok, ◌>>=◌}
use wedb_embed.KeyApi.{get_meta_checked}
use wedb_embed.Composite.{Kind, SimpleMeta, simple_ops}

-- `impl_simple_meta!(SetMeta, RedisType::Set, KeyTag::SetMeta)`, with the tag of the members.
abbrev pub sets : Kind
sets = record { rtype = RedisType.set; meta_tag = KeyTag.set_meta; data_tag = KeyTag.set_data }

abbrev pub SetMeta : Type 0
SetMeta = SimpleMeta

abbrev pub meta : KeyComposer → List ℕ → List ℕ
meta kc key = as_bytes (compose_meta_key_stack kc (as_slice KeyTag.set_meta) key)

abbrev pub prefix_stack : KeyComposer → List ℕ → List ℕ
prefix_stack kc key = as_bytes (compose_prefix_stack kc (as_slice KeyTag.set_data) key)

abbrev pub member : KeyComposer → List ℕ → List ℕ → List ℕ
member kc key item = as_bytes (compose_subkey_stack kc (as_slice KeyTag.set_data) key item)

abbrev pub item_key_composer : KeyComposer → List ℕ → SubkeyComposer
item_key_composer kc key = subkey_composer (prefix_stack kc key)

abbrev pub key_for_member : KeyComposer → List ℕ → List ℕ → List ℕ
key_for_member kc key m = (compose_sub (item_key_composer kc key) m).buf

-- `seen.contains`
unfoldable pub has : List ℕ → List (List ℕ) → Bool
has m [] = false
has m (x ∷ seen) = bytes_eq x m || has m seen

abbrev pub not_empty : Option SetMeta → Option SetMeta
not_empty none = none
not_empty (some m) = if ltb 0 m.base.size then some m else none

module _ (E : Engine) where
  abbrev pub contains_key : E.Partition → List ℕ → Bool
  contains_key partition key = is_some (E.get partition key)

  -- `match get_meta_checked::<SetMeta, _>(…)? { Some(m) if m.base.size > 0 => …, _ => … }`
  unfoldable pub live_set : Db E → List ℕ → ℕ → Result (Option SetMeta)
  live_set db k_bytes now_ms = do
    found ← get_meta_checked E (simple_ops sets) db k_bytes (meta db.kc k_bytes) now_ms
    ok (not_empty found)
