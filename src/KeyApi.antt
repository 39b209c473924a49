-- ===== src/KeyApi.antt =====
-- embed/src/api/key/mod.rs: what the commands of all composite types share. A key holds a value of one
-- type at a time: a live string hides everything else, and live metadata of another type is refused.
-- The buffer that the source passes around is cleared before each use. `MetaOps` of embed/src/meta.rs
-- is the interface of a type's metadata.
pub mod Laws
pub mod Refused
use wedb_embed.Base.{
  ℕ, ◌≡◌, List, [], ◌∷◌, ◌++◌, Bool, true, false, not, Option, none, some, if◌then◌else◌,
}
use wedb_embed.Bytes.{bytes_eq}
use wedb_embed.KeyTag
use wedb_embed.KeyTag.{KeyTag, as_slice, all_composite_meta_tags}
use wedb_embed.SmallKey.{as_bytes}
use wedb_embed.KeyComposer.{KeyComposer, compose_meta_key_into, compose_prefix}
use wedb_embed.KeyMeta
use wedb_embed.KeyMeta.{KeyMeta}
use wedb_embed.StringValue.{raw, decode_string_value, is_string_expired}
use wedb_embed.Store.{Op, Engine, clear_prefix_in_batch}
use wedb_embed.Db.{Db, DbBatch, rm_data, rm_meta}
use wedb_embed.Outcome.{Result, ok, err, Error, ◌>>=◌, err_wrong_type}

pub record MetaOps (M : Type 0) : Type 0 where
  pub tag : KeyTag
  pub decode : List ℕ → Option M
  pub is_expired : M → ℕ → Bool
  pub encode_bytes : M → List ℕ
  pub base : M → KeyMeta

-- `guard.is_some_and(|m| decode(m).is_some_and(|b| !b.is_expired(now_ms)))`, with the value decoded.
abbrev pub live :
    {M : Type 0} → (List ℕ → Option M) → (M → ℕ → Bool) → ℕ → Option (List ℕ) → Option M
live decode is_expired now_ms none = none
live decode is_expired now_ms (some bytes) = elim (decode bytes) [
  | none ↦ none
  | some m ↦ if is_expired m now_ms then none else some m
]

abbrev pub live_base : ℕ → Option (List ℕ) → Option KeyMeta
live_base = live KeyMeta.decode KeyMeta.is_expired

abbrev string_live : ℕ → Option (List ℕ) → Bool
string_live now_ms none = false
string_live now_ms (some stored) =
    let (expire_at, payload) = decode_string_value stored in
    not (is_string_expired expire_at now_ms)

module _ (E : Engine) where
  -- The loop over the tags.
  unfoldable pub check_tags :
      E.Partition → KeyComposer → List ℕ → List ℕ → ℕ → List KeyTag → Result Unit
  check_tags meta_ks kc k_bytes current_meta_tag now_ms [] = ok tt
  check_tags meta_ks kc k_bytes current_meta_tag now_ms (tag ∷ tags) =
      let rest = check_tags meta_ks kc k_bytes current_meta_tag now_ms tags in
      if bytes_eq (as_slice tag) current_meta_tag
      then rest
      else elim (live_base now_ms
          (E.get meta_ks (compose_meta_key_into kc (as_slice tag) k_bytes))) [
            | none ↦ rest
            | some base_meta ↦ err (Error.wrong_type err_wrong_type)
          ]

  unfoldable pub check_composite_meta_not_other_type_with_buf :
      E.Partition → KeyComposer → List ℕ → List ℕ → ℕ → Result Unit
  unfolding check_tags
  check_composite_meta_not_other_type_with_buf meta_ks kc k_bytes current_meta_tag now_ms =
      check_tags meta_ks kc k_bytes current_meta_tag now_ms all_composite_meta_tags

  unfoldable pub check_composite_meta_not_other_type : Db E → List ℕ → List ℕ → ℕ → Result Unit
  unfolding check_composite_meta_not_other_type_with_buf
  check_composite_meta_not_other_type db k_bytes current_meta_tag now_ms =
      if E.is_empty db.meta_ks
      then ok tt
      else check_composite_meta_not_other_type_with_buf db.meta_ks db.kc k_bytes current_meta_tag
          now_ms

  -- A string that is not expired.
  unfoldable pub holds_string : Db E → List ℕ → ℕ → Bool
  holds_string db k_bytes now_ms =
      string_live now_ms (E.get db.data_ks (as_bytes (raw db.kc k_bytes)))

  unfoldable pub check_key_not_other_type : Db E → List ℕ → List ℕ → ℕ → Result Unit
  unfolding holds_string check_composite_meta_not_other_type
  check_key_not_other_type db k_bytes current_meta_tag now_ms =
      if holds_string db k_bytes now_ms
      then err (Error.wrong_type err_wrong_type)
      else check_composite_meta_not_other_type db k_bytes current_meta_tag now_ms

  unfoldable pub get_meta_checked :
      {M : Type 0} → MetaOps M → Db E → List ℕ → List ℕ → ℕ → Result (Option M)
  unfolding holds_string check_composite_meta_not_other_type
  get_meta_checked ops db k_bytes meta_k now_ms =
      if holds_string db k_bytes now_ms
      then err (Error.wrong_type err_wrong_type)
      else elim (live ops.decode ops.is_expired now_ms (E.get db.meta_ks meta_k)) [
        | some meta ↦ ok (some meta)
        | none ↦ do
          _ ← check_composite_meta_not_other_type db k_bytes (as_slice ops.tag) now_ms
          ok none
      ]

  -- The loop over the tags.
  unfoldable pub find_tags :
      E.Partition → KeyComposer → List ℕ → ℕ → List KeyTag → Option (ℕ × KeyMeta × List ℕ)
  find_tags meta_ks kc key now_ms [] = none
  find_tags meta_ks kc key now_ms (tag ∷ tags) =
      let rest = find_tags meta_ks kc key now_ms tags in
      let guard = E.get meta_ks (compose_meta_key_into kc (as_slice tag) key) in
      elim (live_base now_ms guard) [
        | none ↦ rest
        | some base_meta ↦ elim guard [
          | none ↦ rest
          | some value ↦ some (KeyTag.as_u8 tag, base_meta, value)
        ]
      ]

  unfoldable pub find_active_composite_meta : Db E → List ℕ → ℕ → Option (ℕ × KeyMeta × List ℕ)
  unfolding find_tags
  find_active_composite_meta db key now_ms =
      if E.is_empty db.meta_ks
      then none
      else find_tags db.meta_ks db.kc key now_ms all_composite_meta_tags
