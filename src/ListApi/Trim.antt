-- ===== src/ListApi/Trim.antt =====
-- embed/src/api/list/impl.rs: trimming a list to a range.
pub mod Steps
pub mod Results
use wedb_embed.Base.{
  ℕ, zero, suc, ◌+◌, ◌-◌, List, ◌==◌, Bool, true, false, Option, none, some, if◌then◌else◌,
}
use wedb_embed.Base.Int.{ℤ, pos, ◌+ℤ◌, ◌-ℤ◌, ltb_ℤ}
use wedb_embed.Range.{normalize_range}
use wedb_embed.KeyMeta.{as_i64}
use wedb_embed.Store.{Engine, clear_prefix_in_batch}
use wedb_embed.Db.{Db, DbBatch, batch, rm_weak_data, rm_meta, commit}
use wedb_embed.Outcome.{Result, ok, ◌>>=◌}
use wedb_embed.KeyApi.{get_meta_checked}
use wedb_embed.ListMeta
use wedb_embed.ListMeta.{ListMeta, wrapping_add}
use wedb_embed.ListApi.Keys.{meta_key, prefix_stack, key_for_idx, list_ops, as_u64}
use wedb_embed.ListApi.Pop.{commit_list_batch}

-- The metadata of the elements `s` to `e`.
unfoldable pub trimmed : ListMeta → ℤ → ℤ → ListMeta
trimmed meta s e =
    let new_size = as_u64 (e -ℤ s +ℤ pos 1) in
    let new_head = wrapping_add meta.head (as_u64 s) in
    record {
      base = record meta.base { size = new_size };
      head = new_head;
      tail = wrapping_add new_head new_size;
    }

module _ (E : Engine) where
  -- The loops over the elements to remove: `count` offsets from `offset` on.
  unfoldable pub rm_items : Db E → List ℕ → ℕ → ℕ → ℕ → DbBatch → DbBatch
  rm_items db key head zero offset b = b
  rm_items db key head (suc count) offset b =
      rm_items db key head count (offset + 1)
        (rm_weak_data (key_for_idx db.kc key (wrapping_add head offset)) b)

  unfoldable pub ltrim : Db E → List ℕ → ℤ → ℤ → ℕ → Result (Unit × Db E)
  unfolding rm_items trimmed
  ltrim db key start stop now_ms = do
    let meta_k = meta_key db.kc key
    found ← get_meta_checked E list_ops db key meta_k now_ms
    elim found [
      | none ↦ ok (tt, db)
      | some meta ↦
          let (s, e) = normalize_range start stop (as_i64 meta.base.size) in
          if meta.base.size == 0
          then ok (tt, db)
          else if ltb_ℤ e s
          then ok (
            tt,
            commit E db (
                rm_meta meta_k (record batch {
                  data_ks =
                      clear_prefix_in_batch E db.data_ks (prefix_stack db.kc key) batch.data_ks;
                })),
          )
          else let first = rm_items db key meta.head (as_u64 s) 0 batch in
            let both =
              rm_items db key meta.head (meta.base.size - as_u64 (e +ℤ pos 1)) (as_u64 (e +ℤ pos 1))
                first in
            ok (tt, commit_list_batch E db meta_k (trimmed meta s e) both)
    ]
