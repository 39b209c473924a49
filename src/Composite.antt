-- ===== src/Composite.antt =====
-- embed/src/meta.rs, `impl_simple_meta!`, and what the composite types have in common of which the
-- metadata is a bare header: a value is a number of fields, each under the value's prefix in the data
-- partition. The kind of the type is its number and its two tags.
pub mod State
pub mod Queue
pub mod Commit
pub mod Others
pub mod Pair
use wedb_embed.Base.{ℕ, List, Bool, Option, none, some, if◌then◌else◌, ◌==◌, ◌>>=◌, ◌≡◌, ◌≢◌, false}
use wedb_embed.KeyTag.{KeyTag, as_slice}
use wedb_embed.SmallKey.{as_bytes}
use wedb_embed.KeyComposer.{KeyComposer, compose_meta_key_stack, compose_prefix}
use wedb_embed.KeyMeta
use wedb_embed.KeyMeta.{KeyMeta, RedisType, type_as_u8, is_emptyable_type}
use wedb_embed.KeyApi.{MetaOps}

pub record Kind : Type 0 where
  pub rtype : RedisType
  pub meta_tag : KeyTag
  pub data_tag : KeyTag

pub record SimpleMeta : Type 0 where
  pub base : KeyMeta

-- `new`; `new_with_version` is this with a fresh version.
unfoldable pub new : Kind → ℕ → ℕ → ℕ → SimpleMeta
new kind expire_at version size = record { base = KeyMeta.new kind.rtype expire_at version size }

unfoldable pub is_expired : SimpleMeta → ℕ → Bool
is_expired m now_ms = KeyMeta.is_expired m.base now_ms

unfoldable pub encode : SimpleMeta → List ℕ
encode m = KeyMeta.encode m.base

unfoldable pub decode : Kind → List ℕ → Option SimpleMeta
decode kind bytes = do
  base ← KeyMeta.decode bytes
  if type_as_u8 base.rtype == type_as_u8 kind.rtype then some (record { base = base }) else none

-- `impl MetaOps`
abbrev pub simple_ops : Kind → MetaOps SimpleMeta
simple_ops kind = record {
  tag = kind.meta_tag;
  decode = decode kind;
  is_expired = is_expired;
  encode_bytes = encode;
  base = λ m. m.base;
}

abbrev pub with_size : ℕ → SimpleMeta → SimpleMeta
with_size n m = record m { base = record m.base { size = n } }

-- A value without fields counts as expired, and its fields are no strings.
pub record IsKind (kind : Kind) : Type 0 where
  pub composite : is_emptyable_type kind.rtype ≡ false
  pub not_string : KeyTag.raw_string ≢ kind.data_tag

abbrev pub meta_key : Kind → KeyComposer → List ℕ → List ℕ
meta_key kind kc key = as_bytes (compose_meta_key_stack kc (as_slice kind.meta_tag) key)

-- What all the keys of a value's fields begin with.
abbrev pub prefix : Kind → KeyComposer → List ℕ → List ℕ
prefix kind kc key = compose_prefix kc (as_slice kind.data_tag) key
