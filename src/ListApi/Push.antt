-- ===== src/ListApi/Push.antt =====
-- embed/src/api/list/impl.rs: pushing on either end.
pub mod Steps
pub mod Results
use wedb_embed.Base.{
  ℕ, ◌+◌, ◌%◌, ◌^◌, List, [], ◌∷◌, Bool, true, false, not, ◌&&◌, ◌||◌, Option, none, some, ◌==◌,
  if◌then◌else◌,
}
use wedb_embed.KeyTag
use wedb_embed.Store.{Engine, clear_prefix_in_batch}
use wedb_embed.Db.{Db, DbBatch, batch, insert_data, insert_meta, commit}
use wedb_embed.Outcome.{Result, ok, ◌>>=◌}
use wedb_embed.KeyApi.{get_meta_checked}
use wedb_embed.ListMeta
use wedb_embed.ListMeta.{ListMeta, push_index}
use wedb_embed.ListApi.Keys.{meta_key, prefix_stack, key_for_idx, list_ops, with_size}

module _ (E : Engine) where
  -- `ListMeta::new_with_version(0)` draws a version, which is an argument here.
  unfoldable pub prepare_list_meta_for_write :
      Db E → List ℕ → List ℕ → ℕ → ℕ → DbBatch → Result ((ListMeta × Bool) × DbBatch)
  prepare_list_meta_for_write db k_bytes meta_k now_ms version b = do
    found ← get_meta_checked E list_ops db k_bytes meta_k now_ms
    elim found [
      | some meta ↦ ok ((meta, true), b)
      | none ↦ ok (
        (ListMeta.new 0 version, false),
        record b {
          data_ks = clear_prefix_in_batch E db.data_ks (prefix_stack db.kc k_bytes) b.data_ks;
        },
      )
    ]

  -- One value: its number, the queued element, and the size.
  unfoldable pub push_value :
      Db E → List ℕ → Bool → List ℕ → ListMeta × DbBatch → ListMeta × DbBatch
  push_value db key_bytes push_left v_bytes (meta, b) =
      let (target_idx, moved) = push_index meta push_left in
      (
        with_size ((moved.base.size + 1) % 2 ^ 64) moved,
        insert_data (key_for_idx db.kc key_bytes target_idx) v_bytes b,
      )

  -- The loop over the values.
  unfoldable pub push_values :
      Db E → List ℕ → Bool → List (List ℕ) → ListMeta × DbBatch → ListMeta × DbBatch
  unfolding push_value
  push_values db key_bytes push_left [] state = state
  push_values db key_bytes push_left (v ∷ values) state =
      push_values db key_bytes push_left values (push_value db key_bytes push_left v state)

  -- The end of both functions.
  unfoldable pub finish_push : Db E → List ℕ → ListMeta × DbBatch → Result (ℕ × Db E)
  finish_push db meta_k (meta, b) =
      ok (meta.base.size, commit E db (insert_meta meta_k (ListMeta.encode meta) b))

  unfoldable pub list_push_one_internal :
      Db E → List ℕ → List ℕ → Bool → Bool → ℕ → ℕ → Result (ℕ × Db E)
  unfolding prepare_list_meta_for_write push_value finish_push
  list_push_one_internal db key_bytes v_bytes create_if_missing push_left now_ms version = do
    let meta_k = meta_key db.kc key_bytes
    ((meta, metadata_existed), b) ←
        prepare_list_meta_for_write db key_bytes meta_k now_ms version batch
    if not create_if_missing && (not metadata_existed || meta.base.size == 0)
        then ok (0, db)
        else finish_push db meta_k (push_value db key_bytes push_left v_bytes (meta, b))

  unfoldable pub list_push_many :
      Db E → List ℕ → List (List ℕ) → Bool → Bool → ℕ → ℕ → Result (ℕ × Db E)
  unfolding prepare_list_meta_for_write push_values finish_push
  list_push_many db key_bytes values create_if_missing push_left now_ms version = do
    let meta_k = meta_key db.kc key_bytes
    ((meta, metadata_existed), b) ←
        prepare_list_meta_for_write db key_bytes meta_k now_ms version batch
    if not create_if_missing && (not metadata_existed || meta.base.size == 0)
        then ok (0, db)
        else finish_push db meta_k (push_values db key_bytes push_left values (meta, b))

  -- No value, one value, or more.
  unfoldable pub list_push_internal :
      Db E → List ℕ → List (List ℕ) → Bool → Bool → ℕ → ℕ → Result (ℕ × Db E)
  unfolding list_push_one_internal list_push_many
  list_push_internal db key_bytes [] create_if_missing push_left now_ms version = ok (0, db)
  list_push_internal db key_bytes (v ∷ []) create_if_missing push_left now_ms version =
      list_push_one_internal db key_bytes v create_if_missing push_left now_ms version
  list_push_internal db key_bytes (v ∷ w ∷ values) create_if_missing push_left now_ms version =
      list_push_many db key_bytes (v ∷ w ∷ values) create_if_missing push_left now_ms version

  unfoldable pub lpush : Db E → List ℕ → List (List ℕ) → ℕ → ℕ → Result (ℕ × Db E)
  unfolding list_push_internal
  lpush db key values = list_push_internal db key values true true

  unfoldable pub rpush : Db E → List ℕ → List (List ℕ) → ℕ → ℕ → Result (ℕ × Db E)
  unfolding list_push_internal
  rpush db key values = list_push_internal db key values true false

  unfoldable pub lpushx : Db E → List ℕ → List (List ℕ) → ℕ → ℕ → Result (ℕ × Db E)
  unfolding list_push_internal
  lpushx db key values = list_push_internal db key values false true

  unfoldable pub rpushx : Db E → List ℕ → List (List ℕ) → ℕ → ℕ → Result (ℕ × Db E)
  unfolding list_push_internal
  rpushx db key values = list_push_internal db key values false false

  unfoldable pub lpush_one : Db E → List ℕ → List ℕ → ℕ → ℕ → Result (ℕ × Db E)
  unfolding list_push_one_internal
  lpush_one db key value = list_push_one_internal db key value true true

  unfoldable pub rpush_one : Db E → List ℕ → List ℕ → ℕ → ℕ → Result (ℕ × Db E)
  unfolding list_push_one_internal
  rpush_one db key value = list_push_one_internal db key value true false

  unfoldable pub lpushx_one : Db E → List ℕ → List ℕ → ℕ → ℕ → Result (ℕ × Db E)
  unfolding list_push_one_internal
  lpushx_one db key value = list_push_one_internal db key value false true

  unfoldable pub rpushx_one : Db E → List ℕ → List ℕ → ℕ → ℕ → Result (ℕ × Db E)
  unfolding list_push_one_internal
  rpushx_one db key value = list_push_one_internal db key value false false
