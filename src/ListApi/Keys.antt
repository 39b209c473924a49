-- ===== src/ListApi/Keys.antt =====
-- embed/src/api/list/key.rs: the keys of a list. The composer of element keys keeps one buffer, of which
-- each call truncates what the call before has left; here each call has a fresh one.
use wedb_embed.Base.{ℕ, List}
use wedb_embed.Base.Int.{ℤ, pos, negsuc}
use wedb_embed.Base.{◌+◌, ◌-◌, ◌^◌}
use wedb_embed.Bytes.{to_be_bytes}
use wedb_embed.KeyTag.{KeyTag, as_slice}
use wedb_embed.SmallKey.{as_bytes}
use wedb_embed.KeyComposer.{
  KeyComposer, compose_meta_key_stack, compose_prefix_stack, compose_subkey_stack,
}
use wedb_embed.KeyComposer.Subkey.{SubkeyComposer, subkey_composer, compose_sub_u64_be}
use wedb_embed.ListMeta
use wedb_embed.ListMeta.{ListMeta}
use wedb_embed.KeyApi.{MetaOps}

unfoldable pub meta_key : KeyComposer → List ℕ → List ℕ
meta_key kc key = as_bytes (compose_meta_key_stack kc (as_slice KeyTag.list_meta) key)

unfoldable pub prefix_stack : KeyComposer → List ℕ → List ℕ
prefix_stack kc key = as_bytes (compose_prefix_stack kc (as_slice KeyTag.list_data) key)

unfoldable pub item : KeyComposer → List ℕ → ℕ → List ℕ
item kc key idx =
    as_bytes (compose_subkey_stack kc (as_slice KeyTag.list_data) key (to_be_bytes 8 idx))

unfoldable pub item_key_composer : KeyComposer → List ℕ → SubkeyComposer
unfolding prefix_stack
item_key_composer kc key = subkey_composer (prefix_stack kc key)

unfoldable pub key_for_idx : KeyComposer → List ℕ → ℕ → List ℕ
unfolding item_key_composer
key_for_idx kc key idx = (compose_sub_u64_be (item_key_composer kc key) idx).buf

-- `impl MetaOps for ListMeta`
abbrev pub list_ops : MetaOps ListMeta
list_ops = record {
  tag = KeyTag.list_meta;
  decode = ListMeta.decode;
  is_expired = ListMeta.is_expired;
  encode_bytes = ListMeta.encode;
  base = λ m. m.base;
}

-- `as u64` of a signed word.
unfoldable pub as_u64 : ℤ → ℕ
as_u64 (pos n) = n
as_u64 (negsuc n) = 2 ^ 64 - (n + 1)

abbrev pub with_size : ℕ → ListMeta → ListMeta
with_size n m = record m { base = record m.base { size = n } }
