-- ===== src/ListApi/Push/Results.antt =====
-- embed/src/api/list/impl.rs, `list_push_internal` and its callers, on the list that a key holds.
use wedb_embed.Base.{
  ℕ, ◌+◌, ◌-◌, ◌^◌, ◌<◌, ◌≡◌, refl, sym, ap, ◌∙◌, List, [], ◌∷◌, ◌++◌, append_assoc, append-nil,
  Bool, true, false, not, ◌&&◌, ◌||◌, arith, ◌==◌, length, ◌⊎◌, inl, inr,
}
use mathlib.Core.List.{reverse, reverse-cons}
use wedb_embed.Bytes.{IsU64}
use wedb_embed.Store.{Engine, IsStore, clear_prefix_in_batch}
use wedb_embed.Db.{Db, DbBatch, batch, commit, insert_meta}
use wedb_embed.Outcome.{ok}
use wedb_embed.ListMeta
use wedb_embed.ListMeta.{ListMeta, wrapping_add, wrapping_sub, push_index}
use wedb_embed.ListApi.Keys.{meta_key, prefix_stack}
use wedb_embed.ListApi.State.{
  Window, Free, HoldsList, Gives, get_meta_checked-Stored, get_meta_checked-Missing,
}
use wedb_embed.ListApi.Queue.{Pending, Pending-batch, Pending-clear}
use wedb_embed.ListApi.Commit.{commit-insert_meta}
use wedb_embed.ListApi.Push.Steps.{
  Window-new, push_one, pushed, length-push_one, Pending-push_values,
}
use wedb_embed.ListApi.Push.{
  prepare_list_meta_for_write, push_values, finish_push, list_push_one_internal, list_push_many,
  list_push_internal, lpush, rpush, lpushx, rpushx,
}

List-cases : (xs : List (List ℕ)) → (xs ≡ []) ⊎ (0 < length xs)
List-cases [] = inl refl
List-cases (x ∷ xs) = inr (omega arith)

abbrev pub is_nil : List (List ℕ) → Bool
is_nil [] = true
is_nil (x ∷ xs) = false

module _ (E : Engine) where
  -- The start of a push: for a key without a list, what is left of an old one is removed.
  pub prepare-HoldsList :
      (store : IsStore E) (db : Db E) (key : List ℕ) (now version : ℕ) (xs : List (List ℕ))
      → IsU64 version
      → HoldsList E db key now xs
      → (m : ListMeta) × (b : DbBatch) × (prepare_list_meta_for_write E db key
            (meta_key db.kc key)
            now
            version
            batch
          ≡ ok ((m, not (is_nil xs)), b))
        × Window now m (length xs)
        × Pending E db b key m.head xs
  unfolding prepare_list_meta_for_write
  prepare-HoldsList store db key now version xs hv holds = elim holds.value [
    | inl (e, missing) ↦ (
      ListMeta.new 0 version,
      record batch { data_ks = clear_prefix_in_batch E db.data_ks (prefix_stack db.kc key) [] },
      rw (get_meta_checked-Missing E db key now holds.free missing, e) refl,
      rw e (Window-new now version hv),
      rw e (Pending-clear E store db key (ListMeta.new 0 version).head),
    )
    | inr (m, stored) ↦ (
      m,
      batch,
      rw (get_meta_checked-Stored E db key now m xs holds.free stored, not_nil xs stored.nonempty)
          refl,
      stored.window,
      Pending-batch E db key m.head xs stored.items,
    )
  ]
    where
      not_nil : (ys : List (List ℕ)) → 0 < length ys → is_nil ys ≡ false
      not_nil [] h = absurd (omega arith)
      not_nil (y ∷ ys) h = refl

  finish_push-Gives :
      (store : IsStore E) (db : Db E) (key : List ℕ) (now : ℕ) (m : ListMeta) (b : DbBatch)
      (xs : List (List ℕ))
      → Free E db key now
      → 0 < length xs
      → Window now m (length xs)
      → Pending E db b key m.head xs
      → Gives E db key now (finish_push E db (meta_key db.kc key) (m, b)) (length xs) xs
  unfolding finish_push
  finish_push-Gives store db key now m b xs free nonempty w p =
      let (holds, frame) = commit-insert_meta E store db b key now m xs free nonempty w p in
      (
        commit E db (insert_meta (meta_key db.kc key) (ListMeta.encode m) b),
        rw w.size refl,
        holds,
        frame,
      )

  length-pushed :
      (left : Bool) (values xs : List (List ℕ))
      → length (pushed left values xs) ≡ length xs + length values
  unfolding pushed
  length-pushed left [] xs = ground arith
  length-pushed left (v ∷ values) xs =
      omega (arith, length-pushed left values (push_one left v xs), length-push_one left v xs)

  -- The guard of the variants that do not create.
  push_guard :
      (create : Bool) (now : ℕ) (m : ListMeta) (xs : List (List ℕ))
      → create || not (is_nil xs) ≡ true
      → Window now m (length xs)
      → not create && (not (not (is_nil xs)) || m.base.size == 0) ≡ false
  push_guard true now m xs h w = refl
  push_guard false now m [] h w = cc h
  push_guard false now m (x ∷ xs) h w = rw w.size (ground arith)

  -- Pushing many values on a key that may be written.
  list_push_many-Gives :
      (store : IsStore E) (db : Db E) (key : List ℕ) (values : List (List ℕ)) (create left : Bool)
      (now version : ℕ) (xs : List (List ℕ))
      → IsU64 version
      → 0 < length values
      → length xs + length values < 2 ^ 63
      → create || not (is_nil xs) ≡ true
      → HoldsList E db key now xs
      → Gives E db key now
          (list_push_many E db key values create left now version)
          (length xs + length values)
          (pushed left values xs)
  unfolding list_push_many
  list_push_many-Gives store db key values create left now version xs hv some_values fits writable
        holds =
      let (m, b, prepared, w, p) = prepare-HoldsList store db key now version xs hv holds in
      let (w', p') = Pending-push_values E db key values left now m b xs w fits p in
      let (m', b') = push_values E db key left values (m, b) in
      rw (prepared, push_guard create now m xs writable w, ← length-pushed left values xs)
        (finish_push-Gives store db key now m' b' (pushed left values xs) holds.free
          (omega (arith, some_values, length-pushed left values xs)) w' p')

  -- One value is a case of many.
  list_push_one-many :
      (db : Db E) (key v : List ℕ) (create left : Bool) (now version : ℕ)
      → list_push_one_internal E db key v create left now version
        ≡ list_push_many E db key (v ∷ []) create left now version
  unfolding list_push_one_internal list_push_many push_values
  list_push_one-many db key v create left now version = refl

  list_push_internal-many :
      (db : Db E) (key : List ℕ) (values : List (List ℕ)) (create left : Bool) (now version : ℕ)
      → 0 < length values
      → list_push_internal E db key values create left now version
        ≡ list_push_many E db key values create left now version
  unfolding list_push_internal
  list_push_internal-many db key [] create left now version h = absurd (omega arith)
  list_push_internal-many db key (v ∷ []) create left now version h =
      list_push_one-many db key v create left now version
  list_push_internal-many db key (v ∷ w ∷ values) create left now version h = refl

  pushed_right : (values xs : List (List ℕ)) → pushed false values xs ≡ xs ++ values
  unfolding pushed
  pushed_right [] xs = sym (append-nil xs)
  pushed_right (v ∷ values) xs =
      pushed_right values (xs ++ (v ∷ [])) ∙ append_assoc xs (v ∷ []) values

  pushed_left : (values xs : List (List ℕ)) → pushed true values xs ≡ reverse values ++ xs
  unfolding pushed
  pushed_left [] xs = refl
  pushed_left (v ∷ values) xs =
      pushed_left values (v ∷ xs)
      ∙ sym (append_assoc (reverse values) (v ∷ []) xs)
      ∙ ap (λ l. l ++ xs) (sym (reverse-cons v values))

  module _ (store : IsStore E) (db : Db E) (key : List ℕ) (values : List (List ℕ))
      (now version : ℕ) where
    pushed-Gives :
        (create left : Bool) (xs : List (List ℕ))
        → IsU64 version
        → 0 < length values
        → length xs + length values < 2 ^ 63
        → create || not (is_nil xs) ≡ true
        → HoldsList E db key now xs
        → Gives E db key now
            (list_push_internal E db key values create left now version)
            (length xs + length values)
            (pushed left values xs)
    pushed-Gives create left xs hv some_values fits writable holds =
        rw (list_push_internal-many db key values create left now version some_values) (
          list_push_many-Gives store db key values create left now version xs hv some_values fits
            writable holds)

    -- If the engine is a store, the key holds the list `xs` and stays below 2 ^ 63 elements, and the version is of
    -- 64 bits: `rpush` of one
    -- or more values answers the new length, after it the key holds `xs` followed by the values, and all
    -- that does not belong to the list is as before.
    pub rpush-Gives :
        (xs : List (List ℕ))
        → IsU64 version
        → 0 < length values
        → length xs + length values < 2 ^ 63
        → HoldsList E db key now xs
        → Gives E db key now
            (rpush E db key values now version)
            (length xs + length values)
            (xs ++ values)
    unfolding rpush
    rpush-Gives xs hv some_values fits holds =
        rw (← pushed_right values xs) (pushed-Gives true false xs hv some_values fits refl holds)

    -- If the engine is a store, the key holds the list `xs` and stays below 2 ^ 63 elements, and the version is of
    -- 64 bits: `lpush` of one
    -- or more values answers the new length, after it the key holds the values in reverse followed by
    -- `xs`, and all that does not belong to the list is as before.
    pub lpush-Gives :
        (xs : List (List ℕ))
        → IsU64 version
        → 0 < length values
        → length xs + length values < 2 ^ 63
        → HoldsList E db key now xs
        → Gives E db key now
            (lpush E db key values now version)
            (length xs + length values)
            (reverse values ++ xs)
    unfolding lpush
    lpush-Gives xs hv some_values fits holds =
        rw (← pushed_left values xs) (pushed-Gives true true xs hv some_values fits refl holds)

    -- A push that does not create.
    pushx-Gives :
        (left : Bool) (x : List ℕ) (xs : List (List ℕ))
        → IsU64 version
        → 0 < length values
        → length xs + length values < 2 ^ 63 - 1
        → HoldsList E db key now (x ∷ xs)
        → Gives E db key now
            (list_push_internal E db key values false left now version)
            (length (x ∷ xs) + length values)
            (pushed left values (x ∷ xs))
    pushx-Gives left x xs hv some_values fits holds =
        pushed-Gives false left (x ∷ xs) hv some_values (omega (arith, fits)) refl holds

    missing_ignored :
        (left : Bool)
        → IsU64 version
        → HoldsList E db key now []
        → list_push_many E db key values false left now version ≡ ok (0, db)
    unfolding list_push_many
    missing_ignored left hv holds =
        let (m, b, prepared, w, p) = prepare-HoldsList store db key now version [] hv holds in
        rw prepared refl

    -- If the engine is a store, the key holds no list, whether or not elements of an expired one are left, and the
    -- version is of 64 bits: `lpushx` and `rpushx` answer 0 and change nothing.
    pub pushx-missing :
        IsU64 version
        → HoldsList E db key now []
        → (lpushx E db key values now version ≡ ok (0, db))
          × (rpushx E db key values now version ≡ ok (0, db))
    unfolding lpushx rpushx
    pushx-missing hv holds = (both true, both false)
      where
        many_ignored :
            (left : Bool)
            → 0 < length values
            → list_push_internal E db key values false left now version ≡ ok (0, db)
        many_ignored left h =
            list_push_internal-many db key values false left now version h
            ∙ missing_ignored left hv holds

        both :
            (left : Bool) → list_push_internal E db key values false left now version ≡ ok (0, db)
        both left = elim (List-cases values) [
          | inl e ↦ rw (e, list_push_internal) refl
          | inr e ↦ many_ignored left e
        ]
