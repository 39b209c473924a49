-- ===== src/ListApi/Pop.antt =====
-- embed/src/api/list/impl.rs: popping at either end.
pub mod Steps
pub mod Results
use wedb_embed.Base.{
  ℕ, zero, suc, ◌+◌, ◌-◌, min, List, [], ◌∷◌, ◌++◌, Bool, true, false, Option, none, some, ltb,
  ◌==◌, if◌then◌else◌,
}
use wedb_embed.Store.{Engine}
use wedb_embed.Db.{Db, DbBatch, batch, rm_weak_data, insert_meta, rm_meta, commit}
use wedb_embed.Outcome.{Result, ok, ◌>>=◌}
use wedb_embed.KeyApi.{get_meta_checked}
use wedb_embed.ListMeta
use wedb_embed.ListMeta.{ListMeta, pop_index}
use wedb_embed.ListApi.Keys.{meta_key, key_for_idx, list_ops, with_size}

module _ (E : Engine) where
  unfoldable pub commit_list_batch : Db E → List ℕ → ListMeta → DbBatch → Db E
  commit_list_batch db meta_k meta b = commit E db (
      if meta.base.size == 0 then rm_meta meta_k b else insert_meta meta_k (ListMeta.encode meta) b)

  -- `Some(m) if m.base.size > 0`
  unfoldable pub not_empty : Option ListMeta → Option ListMeta
  not_empty none = none
  not_empty (some m) = if ltb 0 m.base.size then some m else none

  unfoldable pub list_pop_one_internal : Db E → List ℕ → Bool → ℕ → Result (Option (List ℕ) × Db E)
  unfolding commit_list_batch
  list_pop_one_internal db key_bytes pop_left now_ms = do
    let meta_k = meta_key db.kc key_bytes
    found ← get_meta_checked E list_ops db key_bytes meta_k now_ms
    elim (not_empty found) [
      | none ↦ ok (none, db)
      | some meta ↦
          let (target_idx, moved) = pop_index meta pop_left in
          let item_k = key_for_idx db.kc key_bytes target_idx in
          elim (E.get db.data_ks item_k) [
            | none ↦ ok (none, db)
            | some val ↦ ok (
              some val,
              commit_list_batch db meta_k (with_size (moved.base.size - 1) moved)
                  (rm_weak_data item_k batch),
            )
          ]
    ]

  -- The loop: an element that is missing is passed over.
  unfoldable pub pop_loop :
      Db E
      → List ℕ
      → Bool
      → ℕ
      → ListMeta × List (List ℕ) × DbBatch
      → ListMeta × List (List ℕ) × DbBatch
  pop_loop db key_bytes pop_left zero state = state
  pop_loop db key_bytes pop_left (suc n) (meta, results, b) =
      let (target_idx, moved) = pop_index meta pop_left in
      let item_k = key_for_idx db.kc key_bytes target_idx in
      pop_loop db key_bytes pop_left n (elim (E.get db.data_ks item_k) [
        | none ↦ (moved, results, b)
        | some val ↦ (moved, results ++ (val ∷ []), rm_weak_data item_k b)
      ])

  unfoldable pub list_pop_many : Db E → List ℕ → ℕ → Bool → ℕ → Result (List (List ℕ) × Db E)
  unfolding pop_loop commit_list_batch
  list_pop_many db key_bytes count pop_left now_ms = do
    let meta_k = meta_key db.kc key_bytes
    found ← get_meta_checked E list_ops db key_bytes meta_k now_ms
    elim (not_empty found) [
      | none ↦ ok ([], db)
      | some meta ↦
          let actual_count = min count meta.base.size in
          let (moved, results, b) = pop_loop db key_bytes pop_left actual_count (meta, [], batch) in
          ok (
            results,
            commit_list_batch db meta_k (with_size (moved.base.size - actual_count) moved) b,
          )
    ]

  abbrev pub one_result : Option (List ℕ) × Db E → Result (List (List ℕ) × Db E)
  one_result (none, db) = ok ([], db)
  one_result (some v, db) = ok (v ∷ [], db)

  -- No element, one, or more.
  unfoldable pub list_pop_internal : Db E → List ℕ → ℕ → Bool → ℕ → Result (List (List ℕ) × Db E)
  unfolding list_pop_one_internal list_pop_many
  list_pop_internal db key_bytes zero pop_left now_ms = ok ([], db)
  list_pop_internal db key_bytes (suc zero) pop_left now_ms =
      list_pop_one_internal db key_bytes pop_left now_ms >>= one_result
  list_pop_internal db key_bytes (suc (suc n)) pop_left now_ms =
      list_pop_many db key_bytes (suc (suc n)) pop_left now_ms

  unfoldable pub lpop : Db E → List ℕ → ℕ → ℕ → Result (List (List ℕ) × Db E)
  unfolding list_pop_internal
  lpop db key count now_ms = list_pop_internal db key count true now_ms

  unfoldable pub rpop : Db E → List ℕ → ℕ → ℕ → Result (List (List ℕ) × Db E)
  unfolding list_pop_internal
  rpop db key count now_ms = list_pop_internal db key count false now_ms

  unfoldable pub lpop_one : Db E → List ℕ → ℕ → Result (Option (List ℕ) × Db E)
  unfolding list_pop_one_internal
  lpop_one db key now_ms = list_pop_one_internal db key true now_ms

  unfoldable pub rpop_one : Db E → List ℕ → ℕ → Result (Option (List ℕ) × Db E)
  unfolding list_pop_one_internal
  rpop_one db key now_ms = list_pop_one_internal db key false now_ms
