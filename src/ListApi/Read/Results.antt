-- ===== src/ListApi/Read/Results.antt =====
-- embed/src/api/list/impl.rs, `llen`, `lindex` and `lset`, on the list that a key holds.

use wedb_embed.Base.{
  ℕ, ◌+◌, ◌-◌, ◌^◌, ◌<◌, ◌≡◌, refl, sym, ap, ◌∙◌, List, [], arith, ltb, length, set, get_elem?,
  Option, none, some, Option-cases, inl, inr, if◌then◌else◌,
}
use wedb_embed.Base.Int.{ℤ, pos, negsuc, ◌+ℤ◌}
use wedb_embed.KeyMeta.{as_i64}
use wedb_embed.Store.{Engine, IsStore}
use wedb_embed.Db.{Db, batch, insert_data, commit}
use wedb_embed.Outcome.{Result, ok, err, Error, ◌>>=◌}
use wedb_embed.ListMeta.{ListMeta, wrapping_add}
use wedb_embed.ListApi.Keys.{key_for_idx, as_u64}
use wedb_embed.ListApi.Numbers.{key_for_idx-item, wrapping_add-IsU64}
use wedb_embed.ListApi.Items.{Items-set, length-set}
use wedb_embed.ListApi.Queue.{Pending-batch, Pending-insert}
use wedb_embed.ListApi.Commit.{commit_data}
use wedb_embed.ListApi.State.{
  Stored, HoldsList, Gives, get_meta_checked-Stored, get_meta_checked-Missing,
}
use wedb_embed.ListApi.Pop.Results.{not_empty-none, not_empty-some}
use wedb_embed.ListApi.Read.{
  resolve_list_offset, checked_add, llen, lindex, lset, err_index_out_of_range,
}

-- The place of an index in a sequence of `n`, where negative indices count from the end.
unfoldable pub place : ℕ → ℤ → Option ℕ
place n (pos k) = if ltb k n then some k else none
place n (negsuc k) = if ltb k n then some (n - (k + 1)) else none

pub resolve_list_offset_lem :
    (n : ℕ) (index : ℤ) → n < 2 ^ 63 → resolve_list_offset n index ≡ place n index
unfolding resolve_list_offset place as_i64 as_u64 checked_add ◌+ℤ◌
resolve_list_offset_lem n (pos k) h = ground arith
resolve_list_offset_lem n (negsuc k) h = ground arith

place-bound : (n : ℕ) (index : ℤ) (i : ℕ) → place n index ≡ some i → i < n
unfolding place
place-bound n (pos k) i e = ground arith
place-bound n (negsuc k) i e = ground arith

-- The element at an index.
abbrev pub element : List (List ℕ) → ℤ → Option (List ℕ)
element xs index = elim (place (length xs) index) [ none ↦ none | some i ↦ get_elem? xs i ]

place-nil : (index : ℤ) → place 0 index ≡ none
unfolding place
place-nil (pos k) = ground arith
place-nil (negsuc k) = ground arith

element-nil : (index : ℤ) → element [] index ≡ none
element-nil index = rw (element, place-nil index) refl

module _ (E : Engine) where
  -- The element at a place is the value of its key.
  pub Stored-value :
      (db : Db E) (key : List ℕ) (now : ℕ) (m : ListMeta) (xs : List (List ℕ)) (i : ℕ)
      → Stored E db key now m xs
      → i < length xs
      → E.get db.data_ks (key_for_idx db.kc key (wrapping_add m.head i)) ≡ get_elem? xs i
  Stored-value db key now m xs i s h = rw (key_for_idx-item db.kc key (wrapping_add m.head i)) (
      s.items.at (wrapping_add m.head i) (wrapping_add-IsU64 m.head i)
      ∙ ap (get_elem? xs) (let hh = s.window.valid.head in let f = s.window.fits in ground arith))

  module _ (db : Db E) (key : List ℕ) (now : ℕ) (xs : List (List ℕ)) where
    resolved :
        (m : ListMeta)
        → Stored E db key now m xs
        → (index : ℤ) → resolve_list_offset m.base.size index ≡ place (length xs) index
    resolved m s index =
        ap (λ n. resolve_list_offset n index) s.window.size
        ∙ resolve_list_offset_lem (length xs) index s.window.fits

    -- If the key holds the list `xs`, `llen` answers its length; so 0 for a key without a list.
    pub llen-length : HoldsList E db key now xs → llen E db key now ≡ ok (length xs)
    unfolding llen
    llen-length holds = elim holds.value [
      | inl (e, missing) ↦ rw (get_meta_checked-Missing E db key now holds.free missing, e) refl
      | inr (m, s) ↦
          rw (get_meta_checked-Stored E db key now m xs holds.free s, ◌>>=◌, s.window.size) refl
    ]

    -- If the key holds the list `xs`, `lindex` answers the element at the index, where negative indices
    -- count from the end, and nothing for an index outside of the list or a key without one.
    pub lindex-element :
        (index : ℤ) → HoldsList E db key now xs → lindex E db key index now ≡ ok (element xs index)
    unfolding lindex
    lindex-element index holds = elim holds.value [
      | inl (e, missing) ↦
          rw (get_meta_checked-Missing E db key now holds.free missing, ◌>>=◌, not_empty-none E)
            (sym (
              ap (λ l. let r : Result (Option (List ℕ)) = ok (element l index) in r) e
              ∙ ap ok (element-nil index)))
      | inr (m, s) ↦
          rw
            (
              get_meta_checked-Stored E db key now m xs holds.free s,
              ◌>>=◌,
              not_empty-some E m (length xs) s.window.size s.nonempty,
              resolved m s index,
            )
            (by_place m s)
    ]
      where
        by_place :
            (m : ListMeta)
            → Stored E db key now m xs
            → (elim (place (length xs) index) [
              | none ↦ ok none
              | some i ↦ ok (E.get db.data_ks (key_for_idx db.kc key (wrapping_add m.head i)))
            ])
              ≡ ok (element xs index)
        by_place m s = elim (Option-cases (place (length xs) index)) [
          | inl e ↦ rw (element, e) refl
          | inr (i, e) ↦
              rw (element, e, Stored-value db key now m xs i s (place-bound (length xs) index i e))
                refl
        ]

    -- If the key holds the list `xs` and there is no element at the index, `lset` fails and says so; so it
    -- does on a key without a list.
    pub lset-out_of_range :
        (index : ℤ) (v : List ℕ)
        → place (length xs) index ≡ none
        → HoldsList E db key now xs
        → lset E db key index v now ≡ err (Error.invalid_data err_index_out_of_range)
    unfolding lset
    lset-out_of_range index v out holds = elim holds.value [
      | inl (e, missing) ↦
          rw (get_meta_checked-Missing E db key now holds.free missing, ◌>>=◌, not_empty-none E)
            refl
      | inr (m, s) ↦
          rw
            (
              get_meta_checked-Stored E db key now m xs holds.free s,
              ◌>>=◌,
              not_empty-some E m (length xs) s.window.size s.nonempty,
              resolved m s index,
              out,
            )
            refl
    ]

    -- If the engine is a store, the key holds the list `xs`, and the index has the place `i` in it: `lset`
    -- succeeds, after it the key holds `xs` with the value at `i`, and all that does not belong to the
    -- list is as before.
    pub lset-Gives :
        (store : IsStore E) (index : ℤ) (i : ℕ) (v : List ℕ)
        → place (length xs) index ≡ some i
        → HoldsList E db key now xs
        → Gives E db key now (lset E db key index v now) tt (set xs i v)
    unfolding lset
    lset-Gives store index i v here holds = elim holds.value [
      | inl (e, missing) ↦
          absurd (cc (sym (place-nil index) ∙ ap (λ l. place (length l) index) (sym e) ∙ here))
      | inr (m, s) ↦
          let b = insert_data (key_for_idx db.kc key (wrapping_add m.head i)) v batch in
          let (held, frame) =
            commit_data E store db b key now m (set xs i v) holds.free
              (omega (arith, length-set xs i v, s.nonempty)) (rw (length-set xs i v) s.window)
              s.meta
              (Pending-insert E db batch key m.head m.head (wrapping_add m.head i) v xs (set xs i v)
                (Pending-batch E db key m.head xs s.items)
                (Items-set db.kc key _ _ m.head i xs v s.window.valid.head
                  (omega (arith, s.window.fits)) (place-bound (length xs) index i here))) in
          (
            commit E db b,
            rw
                (
                  get_meta_checked-Stored E db key now m xs holds.free s,
                  ◌>>=◌,
                  not_empty-some E m (length xs) s.window.size s.nonempty,
                  resolved m s index,
                  here,
                )
                refl,
            held,
            frame,
          )
    ]
