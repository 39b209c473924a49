-- ===== src/ListApi/Move.antt =====
-- embed/src/api/list/move.rs: moving an element from one end of a list to
-- another, and popping from the first of several lists that has an element.
pub mod Results
pub mod Within
pub mod Across
pub mod Between
use wedb_embed.Base.{
  ℕ, ◌+◌, List, [], ◌∷◌, Bool, true, false, ◌||◌, Option, none, some, ◌==◌, if◌then◌else◌,
}
use wedb_embed.Base.{not, ◌+◌, ◌-◌, ◌%◌, ◌^◌}
use wedb_embed.Bytes.{bytes_eq}
use wedb_embed.Store.{Engine}
use wedb_embed.Db.{Db, batch, rm_data, insert_data, insert_meta, rm_meta, commit}
use wedb_embed.Outcome.{Result, ok, ◌>>=◌}
use wedb_embed.KeyApi.{get_meta_checked}
use wedb_embed.ListMeta
use wedb_embed.ListMeta.{ListMeta, wrapping_sub, pop_index, push_index}
use wedb_embed.ListApi.Keys.{meta_key, key_for_idx, list_ops, with_size}
use wedb_embed.ListApi.Push.{prepare_list_meta_for_write}
use wedb_embed.ListApi.Pop.{lpop, rpop}

abbrev pub is_empty : {A : Type 0} → List A → Bool
is_empty [] = true
is_empty (x ∷ xs) = false

-- The key and its elements.
abbrev pub ListPopResult : Type 0
ListPopResult = List ℕ × List (List ℕ)

-- `src_left == dst_left`
abbrev pub same : Bool → Bool → Bool
same a b = if a then b else not b

module _ (E : Engine) where
  -- The loop over the keys.
  unfoldable pub lmpop_keys :
      Db E → List (List ℕ) → Bool → ℕ → ℕ → Result (Option ListPopResult × Db E)
  unfolding lpop rpop
  lmpop_keys db [] left count now_ms = ok (none, db)
  lmpop_keys db (k ∷ keys) left count now_ms = do
    (popped, after) ← if left then lpop E db k count now_ms else rpop E db k count now_ms
    let rest = lmpop_keys after keys left count now_ms
    if is_empty popped then rest else ok (some (k, popped), after)

  unfoldable pub lmpop : Db E → List (List ℕ) → Bool → ℕ → ℕ → Result (Option ListPopResult × Db E)
  unfolding lmpop_keys
  lmpop db keys left count now_ms =
      if count == 0 || is_empty keys then ok (none, db) else lmpop_keys db keys left count now_ms

  -- Source and destination are one list: the element moves to the other end.
  unfoldable pub lmove_within :
      Db E → List ℕ → ListMeta → Bool → Bool → Result (Option (List ℕ) × Db E)
  lmove_within db src src_meta src_left dst_left =
      let curr_idx = if src_left then src_meta.head else wrapping_sub src_meta.tail 1 in
      elim (E.get db.data_ks (key_for_idx db.kc src curr_idx)) [
        | none ↦ ok (none, db)
        | some elem ↦
            if same src_left dst_left || src_meta.base.size == 1
            then ok (some elem, db)
            else let b = rm_data (key_for_idx db.kc src curr_idx) batch in
              let (popped_idx, popped) = pop_index src_meta src_left in
              let (target_idx, moved) = push_index popped dst_left in
              let b = insert_data (key_for_idx db.kc src target_idx) elem b in
              ok (
                some elem,
                commit E db (insert_meta (meta_key db.kc src) (ListMeta.encode moved) b),
              )
      ]

  -- Source and destination are different lists.
  unfoldable pub lmove_across :
      Db E → List ℕ → List ℕ → ListMeta → Bool → Bool → ℕ → ℕ → Result (Option (List ℕ) × Db E)
  unfolding prepare_list_meta_for_write
  lmove_across db src dst src_meta src_left dst_left now_ms version =
      let curr_idx = if src_left then src_meta.head else wrapping_sub src_meta.tail 1 in
      elim (E.get db.data_ks (key_for_idx db.kc src curr_idx)) [
        | none ↦ ok (none, db)
        | some elem ↦ do
          let src_meta_k = meta_key db.kc src
          let dst_meta_k = meta_key db.kc dst
          ((dst_meta, existed), prepared) ←
              prepare_list_meta_for_write E db dst dst_meta_k now_ms version batch
          let b = rm_data (key_for_idx db.kc src curr_idx) prepared
          let (popped_idx, popped) =
              pop_index (with_size (src_meta.base.size - 1) src_meta) src_left
          let b =
              if popped.base.size == 0
              then rm_meta src_meta_k b
              else insert_meta src_meta_k (ListMeta.encode popped) b
          let (target_idx, moved) = push_index dst_meta dst_left
          let grown = with_size ((moved.base.size + 1) % 2 ^ 64) moved
          let b = insert_data (key_for_idx db.kc dst target_idx) elem b
          ok (some elem, commit E db (insert_meta dst_meta_k (ListMeta.encode grown) b))
      ]

  unfoldable pub lmove :
      Db E → List ℕ → List ℕ → Bool → Bool → ℕ → ℕ → Result (Option (List ℕ) × Db E)
  unfolding lmove_within lmove_across
  lmove db src dst src_left dst_left now_ms version = do
    found ← get_meta_checked E list_ops db src (meta_key db.kc src) now_ms
    elim found [
      | none ↦ ok (none, db)
      | some src_meta ↦
          if src_meta.base.size == 0
          then ok (none, db)
          else if bytes_eq src dst
          then lmove_within db src src_meta src_left dst_left
          else lmove_across db src dst src_meta src_left dst_left now_ms version
    ]

  unfoldable pub rpoplpush : Db E → List ℕ → List ℕ → ℕ → ℕ → Result (Option (List ℕ) × Db E)
  unfolding lmove
  rpoplpush db src dst now_ms version = lmove db src dst false true now_ms version
