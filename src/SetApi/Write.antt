-- ===== src/SetApi/Write.antt =====
-- embed/src/api/set/impl.rs: adding and removing members.
pub mod Adding
pub mod Removing
pub mod Results
pub mod Removed
use wedb_embed.Base.{
  ℕ, ◌+◌, ◌-◌, ◌%◌, ◌^◌, List, [], ◌∷◌, Bool, true, false, not, ◌||◌, Option, none, some, ◌==◌, ltb,
  if◌then◌else◌,
}
use wedb_embed.Store.{Engine, clear_prefix_in_batch}
use wedb_embed.Db.{Db, DbBatch, batch, insert_data, insert_meta, rm_weak_data, rm_meta, commit}
use wedb_embed.Outcome.{Result, ok, ◌>>=◌}
use wedb_embed.KeyApi.{get_meta_checked}
use wedb_embed.Composite
use wedb_embed.Composite.{simple_ops, encode, with_size}
use wedb_embed.SetApi.{
  SetMeta, sets, meta, prefix_stack, key_for_member, has, contains_key, live_set,
}

module _ (E : Engine) where
  -- `SetMeta::new_with_version(0, 0)` draws a version, which is an argument here.
  unfoldable pub prepare_set_meta_for_write :
      Db E → List ℕ → List ℕ → List ℕ → ℕ → ℕ → DbBatch → Result ((SetMeta × Bool) × DbBatch)
  prepare_set_meta_for_write db k_bytes prefix meta_k now_ms version b = do
    found ← get_meta_checked E (simple_ops sets) db k_bytes meta_k now_ms
    elim found [
      | some m ↦ ok ((m, false), b)
      | none ↦ ok (
        (Composite.new sets 0 version 0, true),
        record b { data_ks = clear_prefix_in_batch E db.data_ks prefix b.data_ks },
      )
    ]

  unfoldable pub commit_set_batch : Db E → List ℕ → SetMeta → DbBatch → Db E
  commit_set_batch db meta_k m b =
      if m.base.size == 0
      then commit E db (rm_meta meta_k b)
      else commit E db (insert_meta meta_k (encode m) b)

  unfoldable pub sadd_one_internal : Db E → List ℕ → List ℕ → ℕ → ℕ → Result (ℕ × Db E)
  unfolding prepare_set_meta_for_write
  sadd_one_internal db k_bytes m_bytes now_ms version = do
    let meta_k = meta db.kc k_bytes
    ((m, is_new), b) ←
        prepare_set_meta_for_write db k_bytes (prefix_stack db.kc k_bytes) meta_k now_ms version
          batch
    let item_k = key_for_member db.kc k_bytes m_bytes
    let grown = with_size ((m.base.size + 1) % 2 ^ 64) m
    if is_new || not (contains_key E db.data_ks item_k)
        then ok (1, commit E db (insert_meta meta_k (encode grown) (insert_data item_k [] b)))
        else ok (0, db)

  -- One member: the members seen, how many are added, and the batch.
  unfoldable pub add_member :
      Db E → List ℕ → Bool → List ℕ → List (List ℕ) × ℕ × DbBatch → List (List ℕ) × ℕ × DbBatch
  unfolding has
  add_member db k_bytes is_new m_bytes (seen, added, b) =
      let item_k = key_for_member db.kc k_bytes m_bytes in
      if has m_bytes seen
      then (seen, added, b)
      else if is_new || not (contains_key E db.data_ks item_k)
      then (m_bytes ∷ seen, added + 1, insert_data item_k [] b)
      else (m_bytes ∷ seen, added, b)

  -- The loop over the members.
  unfoldable pub add_members :
      Db E
      → List ℕ
      → Bool
      → List (List ℕ)
      → List (List ℕ) × ℕ × DbBatch
      → List (List ℕ) × ℕ × DbBatch
  unfolding add_member
  add_members db k_bytes is_new [] state = state
  add_members db k_bytes is_new (m ∷ members) state =
      add_members db k_bytes is_new members (add_member db k_bytes is_new m state)

  unfoldable pub sadd_many : Db E → List ℕ → List (List ℕ) → ℕ → ℕ → Result (ℕ × Db E)
  unfolding prepare_set_meta_for_write add_members
  sadd_many db k_bytes members now_ms version = do
    let meta_k = meta db.kc k_bytes
    ((m, is_new), b) ←
        prepare_set_meta_for_write db k_bytes (prefix_stack db.kc k_bytes) meta_k now_ms version
          batch
    let (seen, added, queued) = add_members db k_bytes is_new members ([], 0, b)
    let grown = with_size ((m.base.size + added) % 2 ^ 64) m
    if ltb 0 added
        then ok (added, commit E db (insert_meta meta_k (encode grown) queued))
        else ok (added, db)

  -- No member, one member, or more.
  unfoldable pub sadd : Db E → List ℕ → List (List ℕ) → ℕ → ℕ → Result (ℕ × Db E)
  unfolding sadd_one_internal sadd_many
  sadd db key [] now_ms version = ok (0, db)
  sadd db key (m ∷ []) now_ms version = sadd_one_internal db key m now_ms version
  sadd db key (m ∷ n ∷ members) now_ms version = sadd_many db key (m ∷ n ∷ members) now_ms version

  unfoldable pub sadd_one : Db E → List ℕ → List ℕ → ℕ → ℕ → Result (ℕ × Db E)
  unfolding sadd_one_internal
  sadd_one db key m now_ms version = sadd_one_internal db key m now_ms version

  -- `saturating_sub` is subtraction on ℕ.
  unfoldable pub srem_one_internal : Db E → List ℕ → List ℕ → ℕ → Result (ℕ × Db E)
  unfolding live_set commit_set_batch
  srem_one_internal db k_bytes m_bytes now_ms = do
    found ← live_set E db k_bytes now_ms
    elim found [
      | none ↦ ok (0, db)
      | some m ↦
          let item_k = key_for_member db.kc k_bytes m_bytes in
          if contains_key E db.data_ks item_k
          then ok (
            1,
            commit_set_batch db (meta db.kc k_bytes) (with_size (m.base.size - 1) m)
                (rm_weak_data item_k batch),
          )
          else ok (0, db)
    ]

  -- One member: the members seen, how many are removed, and the batch.
  unfoldable pub rm_member :
      Db E → List ℕ → List ℕ → List (List ℕ) × ℕ × DbBatch → List (List ℕ) × ℕ × DbBatch
  unfolding has
  rm_member db k_bytes m_bytes (seen, removed, b) =
      let item_k = key_for_member db.kc k_bytes m_bytes in
      if has m_bytes seen
      then (seen, removed, b)
      else if contains_key E db.data_ks item_k
      then (m_bytes ∷ seen, removed + 1, rm_weak_data item_k b)
      else (m_bytes ∷ seen, removed, b)

  -- The loop over the members.
  unfoldable pub rm_members :
      Db E → List ℕ → List (List ℕ) → List (List ℕ) × ℕ × DbBatch → List (List ℕ) × ℕ × DbBatch
  unfolding rm_member
  rm_members db k_bytes [] state = state
  rm_members db k_bytes (m ∷ members) state =
      rm_members db k_bytes members (rm_member db k_bytes m state)

  unfoldable pub srem_many : Db E → List ℕ → List (List ℕ) → ℕ → Result (ℕ × Db E)
  unfolding live_set rm_members commit_set_batch
  srem_many db k_bytes members now_ms = do
    found ← live_set E db k_bytes now_ms
    elim found [
      | none ↦ ok (0, db)
      | some m ↦
          let (seen, removed, queued) = rm_members db k_bytes members ([], 0, batch) in
          if ltb 0 removed
          then ok (
            removed,
            commit_set_batch db (meta db.kc k_bytes) (with_size (m.base.size - removed) m) queued,
          )
          else ok (removed, db)
    ]

  -- No member, one member, or more.
  unfoldable pub srem : Db E → List ℕ → List (List ℕ) → ℕ → Result (ℕ × Db E)
  unfolding srem_one_internal srem_many
  srem db key [] now_ms = ok (0, db)
  srem db key (m ∷ []) now_ms = srem_one_internal db key m now_ms
  srem db key (m ∷ n ∷ members) now_ms = srem_many db key (m ∷ n ∷ members) now_ms

  unfoldable pub srem_one : Db E → List ℕ → List ℕ → ℕ → Result (ℕ × Db E)
  unfolding srem_one_internal
  srem_one db key m now_ms = srem_one_internal db key m now_ms
