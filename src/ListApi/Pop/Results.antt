-- ===== src/ListApi/Pop/Results.antt =====
-- embed/src/api/list/impl.rs, `list_pop_internal` and its callers, on the list that a key holds.
use mathlib.Core.List.{reverse}
use wedb_embed.Base.{
  if◌then◌else◌, ℕ, zero, suc, ◌-◌, ◌<◌, ◌≡◌, refl, ap, ◌∙◌, min, List, [], ◌∷◌, Bool, true, false,
  arith, ltb, ◌==◌, length, take, drop, take-nil, drop-nil, take-min, drop-min, length-drop, none,
  some, inl, inr,
}
use wedb_embed.Store.{Engine, IsStore, effect}
use wedb_embed.Db.{Db, DbBatch, batch, rm_weak_data}
use wedb_embed.Outcome.{Result, ok, ◌>>=◌}
use wedb_embed.ListMeta.{ListMeta, pop_index}
use wedb_embed.ListApi.Keys.{meta_key, with_size, key_for_idx}
use wedb_embed.ListApi.State.{
  Window, Free, Stored, Missing, HoldsList, Frame, Frame-refl, Gives, get_meta_checked-Stored,
  get_meta_checked-Missing,
}
use wedb_embed.ListApi.Queue.{Pending, Pending-batch}
use wedb_embed.ListApi.Commit.{commit-insert_meta, commit-rm_meta}
use wedb_embed.ListApi.Pop.{
  commit_list_batch, not_empty, list_pop_one_internal, list_pop_many, list_pop_internal, pop_loop,
  lpop, rpop, one_result,
}
use wedb_embed.ListApi.Pop.Steps.{
  view, view-view, length-view, Ends, Ends-pop, base-pop, pop_value, pop_loop-take,
}

-- The metadata at the end of a pop.
pub Window-popped :
    (now : ℕ) (m m' : ListMeta) (n k : ℕ)
    → Window now m n
    → m'.base ≡ m.base
    → Ends m' (n - k)
    → Window now (with_size (m'.base.size - k) m') (n - k)
Window-popped now m m' n k w base ends = record {
  valid = record {
    base = record {
      expire = rw base w.valid.base.expire;
      version = rw base w.valid.base.version;
      size = rw (base, w.size) (omega (arith, w.fits));
    };
    flags = rw base w.valid.flags;
    head = ends.head;
    tail = rw ends.tail (omega arith);
  };
  unexpired = rw base w.unexpired;
  size = rw (base, w.size) refl;
  tail = ends.tail;
  fits = omega (arith, w.fits);
}

module _ (E : Engine) where
  pub not_empty-none : not_empty E none ≡ none
  unfolding not_empty
  not_empty-none = refl

  pub not_empty-some :
      (m : ListMeta) (n : ℕ) → m.base.size ≡ n → 0 < n → not_empty E (some m) ≡ some m
  unfolding not_empty
  not_empty-some m n e h = rw ((let z : ltb 0 m.base.size ≡ true = ground arith in z)) refl

  -- What a shrunk list is committed as: an empty one is no more.
  pub commit_list_batch-HoldsList :
      (store : IsStore E) (db : Db E) (key : List ℕ) (now : ℕ) (m : ListMeta) (b : DbBatch)
      (ys : List (List ℕ))
      → Free E db key now
      → Window now m (length ys)
      → Pending E db b key m.head ys
      → let db' = commit_list_batch E db (meta_key db.kc key) m b in
        HoldsList E db' key now ys × Frame E key db db'
  unfolding commit_list_batch
  commit_list_batch-HoldsList store db key now m b [] free w p =
      rw w.size (commit-rm_meta E store db b key now m.head free p)
  commit_list_batch-HoldsList store db key now m b (y ∷ ys) free w p =
      rw (let z : (m.base.size == 0) ≡ false = (let e = w.size in ground arith) in z)
        (commit-insert_meta E store db b key now m (y ∷ ys) free (omega arith) w p)

  module _ (store : IsStore E) (db : Db E) (key : List ℕ) (left : Bool) (now : ℕ) where
    -- After `k` elements the rest is committed.
    committed :
        (m m' : ListMeta) (k : ℕ) (b : DbBatch) (zs : List (List ℕ))
        → Free E db key now
        → Window now m (length zs)
        → m'.base ≡ m.base
        → Ends m' (length (drop k zs))
        → Pending E db b key m'.head (view left (drop k zs))
        → let db' =
            commit_list_batch E db (meta_key db.kc key) (with_size (m'.base.size - k) m') b in
          HoldsList E db' key now (view left (drop k zs)) × Frame E key db db'
    committed m m' k b zs free w base ends p =
        commit_list_batch-HoldsList store db key now (with_size (m'.base.size - k) m') b
          (view left (drop k zs)) free
          (rw (length-view left (drop k zs), length-drop k zs)
            (Window-popped now m m' (length zs) k w base (rw (← length-drop k zs) ends)))
          p

    list_pop_many-Stored :
        (count : ℕ) (m : ListMeta) (zs : List (List ℕ))
        → Free E db key now
        → Stored E db key now m (view left zs)
        → Gives E db key now
            (list_pop_many E db key count left now)
            (take count zs)
            (view left (drop count zs))
    unfolding list_pop_many
    list_pop_many-Stored count m zs free s =
        let (r, base, ends, p) =
          pop_loop-take E db key left k m [] batch zs (omega arith) (omega (arith, w.fits))
            ends_of_m (unfold effect in (λ j v e. e))
            (Pending-batch E db key m.head (view left zs) s.items) in
        let (m', results, b) = pop_loop E db key left k (m, [], batch) in
        let (holds, frame) = committed m m' k b zs free w base ends p in
        (
          commit_list_batch E db (meta_key db.kc key) (with_size (m'.base.size - k) m') b,
          rw
              (
                get_meta_checked-Stored E db key now m (view left zs) free s,
                ◌>>=◌,
                not_empty-some m (length (view left zs)) s.window.size s.nonempty,
                counted,
              )
              (ap
                (λ l.
                  let z : Result (List (List ℕ) × Db E) = ok (
                    l,
                    commit_list_batch E db (meta_key db.kc key) (with_size (m'.base.size - k) m') b,
                  ) in
                  z)
                (r ∙ take-min count zs)),
          rw (← drop-min count zs) holds,
          frame,
        )
      where
        k : ℕ
        k = min count (length zs)

        w : Window now m (length zs)
        w = rw (← length-view left zs) s.window

        ends_of_m : Ends m (length zs)
        ends_of_m = record { head = w.valid.head; tail = w.tail }

        counted : min count m.base.size ≡ k
        counted = rw w.size refl

    -- One element, by the function for one.
    list_pop_one-Stored :
        (m : ListMeta) (z : List ℕ) (zs : List (List ℕ))
        → Free E db key now
        → Stored E db key now m (view left (z ∷ zs))
        → Gives E db key now
            (list_pop_one_internal E db key left now >>= one_result E)
            (z ∷ [])
            (view left zs)
    unfolding list_pop_one_internal
    list_pop_one-Stored m z zs free s =
        let (read, p) =
          pop_value E db key batch m left z zs (omega (arith, w.fits)) ends_of_m
            (unfold effect in (λ j v e. e))
            (Pending-batch E db key m.head (view left (z ∷ zs)) s.items) in
        let (n, moved) = pop_index m left in
        let b = rm_weak_data (key_for_idx db.kc key n) batch in
        let (holds, frame) =
          committed m moved 1 b (z ∷ zs) free w (base-pop m left)
            (Ends-pop m left (length zs) ends_of_m) p in
        (
          commit_list_batch E db (meta_key db.kc key) (with_size (moved.base.size - 1) moved) b,
          rw
              (
                get_meta_checked-Stored E db key now m (view left (z ∷ zs)) free s,
                ◌>>=◌,
                not_empty-some m (length (view left (z ∷ zs))) s.window.size s.nonempty,
                read,
              )
              refl,
          holds,
          frame,
        )
      where
        w : Window now m (length (z ∷ zs))
        w = rw (← length-view left (z ∷ zs)) s.window

        ends_of_m : Ends m (suc (length zs))
        ends_of_m = record { head = w.valid.head; tail = w.tail }

    -- On a key without a list.
    list_pop_internal-Missing :
        (count : ℕ)
        → Free E db key now
        → Missing E db key now
        → list_pop_internal E db key count left now ≡ ok ([], db)
    unfolding list_pop_internal list_pop_one_internal list_pop_many not_empty
    list_pop_internal-Missing zero free missing = refl
    list_pop_internal-Missing (suc zero) free missing =
        rw (get_meta_checked-Missing E db key now free missing) refl
    list_pop_internal-Missing (suc (suc n)) free missing =
        rw (get_meta_checked-Missing E db key now free missing) refl

    popped-Stored :
        (count : ℕ) (m : ListMeta) (zs : List (List ℕ))
        → HoldsList E db key now (view left zs)
        → Stored E db key now m (view left zs)
        → Gives E db key now
            (list_pop_internal E db key count left now)
            (take count zs)
            (view left (drop count zs))
    unfolding list_pop_internal
    popped-Stored zero m zs holds s = (db, refl, holds, Frame-refl E key db)
    popped-Stored (suc zero) m [] holds s = absurd (omega (arith, s.nonempty, length-view left []))
    popped-Stored (suc zero) m (z ∷ zs) holds s = list_pop_one-Stored m z zs holds.free s
    popped-Stored (suc (suc n)) m zs holds s = list_pop_many-Stored (suc (suc n)) m zs holds.free s

    list_pop_internal-Gives :
        (count : ℕ) (zs : List (List ℕ))
        → HoldsList E db key now (view left zs)
        → Gives E db key now
            (list_pop_internal E db key count left now)
            (take count zs)
            (view left (drop count zs))
    list_pop_internal-Gives count zs holds = elim holds.value [
      | inl (e, missing) ↦
          rw
            (
              list_pop_internal-Missing count holds.free missing,
              nothing zs e,
              take-nil count,
              drop-nil count,
            )
            (db, refl, rw (nothing zs e) at holds, Frame-refl E key db)
      | inr (m, s) ↦ popped-Stored count m zs holds s
    ]
      where
        nothing : (zs : List (List ℕ)) → view left zs ≡ [] → zs ≡ []
        nothing [] e = refl
        nothing (z ∷ zs) e = absurd (
            omega (
              arith,
              length-view left (z ∷ zs),
              (let l : length (view left (z ∷ zs)) ≡ 0 = ap length e in l),
            ))

  module _ (store : IsStore E) (db : Db E) (key : List ℕ) (count now : ℕ) (xs : List (List ℕ)) where
    -- If the engine is a store and the key holds the list `xs`: `lpop` answers the first `count` elements, or
    -- all if there are fewer; after it the key holds the others, and all that does not belong to the list
    -- is as before. So a key without a list answers no element.
    pub lpop-Gives :
        HoldsList E db key now xs
        → Gives E db key now (lpop E db key count now) (take count xs) (drop count xs)
    unfolding lpop
    lpop-Gives holds = list_pop_internal-Gives store db key true now count xs holds

    -- If the engine is a store and the key holds the list `xs`: `rpop` answers the last `count` elements, the
    -- last one first, or all if there are fewer; after it the key holds the others, in their order, and all
    -- that does not belong to the list is as before.
    pub rpop-Gives :
        HoldsList E db key now xs
        → Gives E db key now
            (rpop E db key count now)
            (take count (reverse xs))
            (reverse (drop count (reverse xs)))
    unfolding rpop
    rpop-Gives holds =
        list_pop_internal-Gives store db key false now count (reverse xs)
          (rw (view-view false xs) holds)

-- Either end, by a flag.
module _ (E : Engine) where
  pub popped-Gives :
      (store : IsStore E) (db : Db E) (key : List ℕ) (left : Bool) (count now : ℕ)
      (zs : List (List ℕ))
      → HoldsList E db key now (view left zs)
      → Gives E db key now
          (if left then lpop E db key count now else rpop E db key count now)
          (take count zs)
          (view left (drop count zs))
  unfolding lpop rpop
  popped-Gives store db key true count now zs holds =
      list_pop_internal-Gives E store db key true now count zs holds
  popped-Gives store db key false count now zs holds =
      list_pop_internal-Gives E store db key false now count zs holds

  pub popped-missing :
      (store : IsStore E) (db : Db E) (key : List ℕ) (left : Bool) (count now : ℕ)
      → HoldsList E db key now []
      → (if left then lpop E db key count now else rpop E db key count now) ≡ ok ([], db)
  unfolding lpop rpop
  popped-missing store db key true count now holds = elim holds.value [
    | inl (e, missing) ↦ list_pop_internal-Missing E store db key true now count holds.free missing
    | inr (m, s) ↦ absurd (let h = s.nonempty in omega arith)
  ]
  popped-missing store db key false count now holds = elim holds.value [
    | inl (e, missing) ↦ list_pop_internal-Missing E store db key false now count holds.free missing
    | inr (m, s) ↦ absurd (let h = s.nonempty in omega arith)
  ]
