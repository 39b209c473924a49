-- ===== src/ListApi/Read.antt =====
-- embed/src/api/list/impl.rs: reading the size, an element, or a range, and setting an element.
pub mod Scan
pub mod Slice
pub mod Results
use Prim.Native.String.{String}
use wedb_embed.Base.{
  ℕ, zero, suc, ◌+◌, ◌-◌, ◌^◌, map, List, [], ◌∷◌, Bool, true, false, not, ◌&&◌, Option, none, some,
  ltb, leb, ◌==◌, if◌then◌else◌, ◌>>=◌ as bind_option,
}
use wedb_embed.Base.Int.{ℤ, pos, negsuc, pos_part, neg_part, ◌+ℤ◌, ◌-ℤ◌, ltb_ℤ}
use wedb_embed.Range.{normalize_range}
use wedb_embed.KeyMeta.{as_i64}
use wedb_embed.Store.{Engine}
use wedb_embed.Db.{Db, batch, insert_data, commit}
use wedb_embed.Outcome.{Result, ok, err, Error, ◌>>=◌}
use wedb_embed.KeyApi.{get_meta_checked}
use wedb_embed.ListMeta
use wedb_embed.ListMeta.{ListMeta, wrapping_add}
use wedb_embed.ListApi.Keys.{meta_key, item, key_for_idx, list_ops, as_u64}
use wedb_embed.ListApi.Pop.{not_empty}

abbrev pub err_index_out_of_range : String
err_index_out_of_range = "ERR index out of range"

-- `checked_add` of two signed words.
unfoldable pub checked_add : ℤ → ℤ → Option ℤ
checked_add a b =
    let sum = a +ℤ b in
    if ltb (pos_part sum) (2 ^ 63) && leb (neg_part sum) (2 ^ 63) then some sum else none

-- The index of an element, if there is one.
unfoldable pub resolve_list_offset : ℕ → ℤ → Option ℕ
unfolding checked_add
resolve_list_offset size index =
    if size == 0
    then none
    else let len = as_i64 size in
      elim (if ltb_ℤ index (pos 0) then checked_add len index else some index) [
        | none ↦ none
        | some actual_offset ↦
            if not (ltb_ℤ actual_offset (pos 0)) && ltb_ℤ actual_offset len
            then some (as_u64 actual_offset)
            else none
      ]

module _ (E : Engine) where
  unfoldable pub llen : Db E → List ℕ → ℕ → Result ℕ
  llen db key now_ms = do
    found ← get_meta_checked E list_ops db key (meta_key db.kc key) now_ms
    elim found [ none ↦ ok 0 | some m ↦ ok m.base.size ]

  -- The loop over single elements: `count` indices from `idx` on.
  unfoldable pub gather : Db E → List ℕ → ListMeta → ℕ → ℕ → List (List ℕ)
  gather db key meta zero idx = []
  gather db key meta (suc count) idx =
      let rest = gather db key meta count (idx + 1) in
      elim (E.get db.data_ks (key_for_idx db.kc key (wrapping_add meta.head idx))) [
        | none ↦ rest
        | some val ↦ val ∷ rest
      ]

  -- The elements `s` to `e` of the list: one scan, or element by element when the numbers go round.
  unfoldable pub read_range : Db E → List ℕ → ListMeta → ℤ → ℤ → List (List ℕ)
  unfolding gather
  read_range db key meta s e =
      let actual_start = wrapping_add meta.head (as_u64 s) in
      let actual_end = wrapping_add meta.head (as_u64 e) in
      if leb actual_start actual_end
      then map (λ entry. entry.1)
          (E.range db.data_ks (item db.kc key actual_start) (item db.kc key actual_end))
      else gather db key meta (as_u64 (e -ℤ s +ℤ pos 1)) (as_u64 s)

  unfoldable pub lrange : Db E → List ℕ → ℤ → ℤ → ℕ → Result (List (List ℕ))
  unfolding read_range
  lrange db key start stop now_ms = do
    found ← get_meta_checked E list_ops db key (meta_key db.kc key) now_ms
    elim found [
      | none ↦ ok []
      | some meta ↦
          let (s, e) = normalize_range start stop (as_i64 meta.base.size) in
          if meta.base.size == 0
          then ok []
          else if ltb_ℤ e s
          then ok []
          else ok (read_range db key meta s e)
    ]

  -- `with_lindex`, of which the callback is applied to the result, and `lindex`.
  unfoldable pub lindex : Db E → List ℕ → ℤ → ℕ → Result (Option (List ℕ))
  unfolding resolve_list_offset
  lindex db key index now_ms = do
    found ← get_meta_checked E list_ops db key (meta_key db.kc key) now_ms
    elim (not_empty E found) [
      | none ↦ ok none
      | some meta ↦ elim (resolve_list_offset meta.base.size index) [
        | none ↦ ok none
        | some offset ↦
            ok (E.get db.data_ks (key_for_idx db.kc key (wrapping_add meta.head offset)))
      ]
    ]

  unfoldable pub lset : Db E → List ℕ → ℤ → List ℕ → ℕ → Result (Unit × Db E)
  unfolding resolve_list_offset
  lset db key index value now_ms = do
    found ← get_meta_checked E list_ops db key (meta_key db.kc key) now_ms
    elim (not_empty E found) [
      | none ↦ err (Error.invalid_data err_index_out_of_range)
      | some meta ↦ elim (resolve_list_offset meta.base.size index) [
        | none ↦ err (Error.invalid_data err_index_out_of_range)
        | some offset ↦ ok (
          tt,
          commit E db
              (insert_data (key_for_idx db.kc key (wrapping_add meta.head offset)) value batch),
        )
      ]
    ]
