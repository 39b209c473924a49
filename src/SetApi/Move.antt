-- ===== src/SetApi/Move.antt =====
-- embed/src/api/set/pop.rs: moving a member to another set, and writing a set anew.
pub mod Overwrite
pub mod Leaving
pub mod Between
use wedb_embed.Base.{
  ℕ, ◌+◌, ◌-◌, ◌%◌, ◌^◌, List, [], ◌∷◌, Bool, true, false, not, ◌||◌, Option, none, some, ◌==◌, ltb,
  if◌then◌else◌,
}
use wedb_embed.Bytes.{bytes_eq}
use wedb_embed.KeyTag.{KeyTag, as_slice}
use wedb_embed.Store.{Engine, clear_prefix_in_batch}
use wedb_embed.Db.{Db, DbBatch, batch, insert_data, insert_meta, rm_weak_data, rm_meta, commit}
use wedb_embed.Outcome.{Result, ok, ◌>>=◌}
use wedb_embed.KeyApi.{check_key_not_other_type}
use wedb_embed.Composite
use wedb_embed.Composite.{encode, with_size}
use wedb_embed.SetApi.{
  SetMeta, sets, meta, prefix_stack, member, key_for_member, has, contains_key, live_set,
}
use wedb_embed.SetApi.Write.{prepare_set_meta_for_write}
use wedb_embed.SetApi.Read.{sismember}

module _ (E : Engine) where
  -- The source's metadata, with the smaller size.
  unfoldable pub leave : Db E → List ℕ → SetMeta → DbBatch → DbBatch
  leave db src_bytes src_meta b =
      let shrunk = with_size (src_meta.base.size - 1) src_meta in
      if shrunk.base.size == 0
      then rm_meta (meta db.kc src_bytes) b
      else insert_meta (meta db.kc src_bytes) (encode shrunk) b

  -- The end of the function, where the member is in the source.
  unfoldable pub move_member :
      Db E → List ℕ → List ℕ → List ℕ → SetMeta → ℕ → ℕ → Result (Bool × Db E)
  unfolding prepare_set_meta_for_write leave
  move_member db src_bytes dst_bytes m_bytes src_meta now_ms version = do
    let dst_meta_k = meta db.kc dst_bytes
    ((dst_meta, dst_is_new), b) ←
        prepare_set_meta_for_write E db dst_bytes (prefix_stack db.kc dst_bytes) dst_meta_k now_ms
          version batch
    let left = leave db src_bytes src_meta (rm_weak_data (member db.kc src_bytes m_bytes) b)
    let dst_item_k = member db.kc dst_bytes m_bytes
    let grown = with_size ((dst_meta.base.size + 1) % 2 ^ 64) dst_meta
    if dst_is_new || not (contains_key E db.data_ks dst_item_k)
        then ok (
          true,
          commit E db (insert_meta dst_meta_k (encode grown) (insert_data dst_item_k [] left)),
        )
        else ok (true, commit E db left)

  -- The two sets are different.
  unfoldable pub smove_between : Db E → List ℕ → List ℕ → List ℕ → ℕ → ℕ → Result (Bool × Db E)
  unfolding live_set move_member
  smove_between db src_bytes dst_bytes m_bytes now_ms version = do
    found ← live_set E db src_bytes now_ms
    elim found [
      | none ↦ ok (false, db)
      | some src_meta ↦
          if not (contains_key E db.data_ks (member db.kc src_bytes m_bytes))
          then ok (false, db)
          else move_member db src_bytes dst_bytes m_bytes src_meta now_ms version
    ]

  unfoldable pub smove : Db E → List ℕ → List ℕ → List ℕ → ℕ → ℕ → Result (Bool × Db E)
  unfolding sismember smove_between
  smove db src_bytes dst_bytes m_bytes now_ms version =
      if bytes_eq src_bytes dst_bytes
      then sismember E db src_bytes m_bytes now_ms >>= (λ found. ok (found, db))
      else smove_between db src_bytes dst_bytes m_bytes now_ms version

  -- One member: the members seen, how many there are, and the batch.
  unfoldable pub write_member :
      Db E → List ℕ → List ℕ → List (List ℕ) × ℕ × DbBatch → List (List ℕ) × ℕ × DbBatch
  unfolding has
  write_member db key_bytes m_bytes (seen, count, b) =
      if has m_bytes seen
      then (seen, count, b)
      else (m_bytes ∷ seen, count + 1, insert_data (key_for_member db.kc key_bytes m_bytes) [] b)

  -- The loop over the members.
  unfoldable pub write_members :
      Db E → List ℕ → List (List ℕ) → List (List ℕ) × ℕ × DbBatch → List (List ℕ) × ℕ × DbBatch
  unfolding write_member
  write_members db key_bytes [] state = state
  write_members db key_bytes (m ∷ members) state =
      write_members db key_bytes members (write_member db key_bytes m state)

  -- The iterator is the list of what it yields. The count is of 64 bits.
  unfoldable pub overwrite_set_iter : Db E → List ℕ → List (List ℕ) → ℕ → ℕ → Result (ℕ × Db E)
  unfolding check_key_not_other_type write_members
  overwrite_set_iter db key_bytes members now_ms version = do
    let meta_k = meta db.kc key_bytes
    _ ← check_key_not_other_type E db key_bytes (as_slice KeyTag.set_meta) now_ms
    let b = rm_meta meta_k (record batch {
      data_ks = clear_prefix_in_batch E db.data_ks (prefix_stack db.kc key_bytes) [];
    })
    let (seen, count, queued) = write_members db key_bytes members ([], 0, b)
    let written = with_size count (Composite.new sets 0 version 0)
    if ltb 0 count
        then ok (count, commit E db (insert_meta meta_k (encode written) queued))
        else ok (count, commit E db queued)

  -- The same body for a slice.
  unfoldable pub overwrite_set : Db E → List ℕ → List (List ℕ) → ℕ → ℕ → Result (ℕ × Db E)
  unfolding overwrite_set_iter
  overwrite_set db key members now_ms version = overwrite_set_iter db key members now_ms version
