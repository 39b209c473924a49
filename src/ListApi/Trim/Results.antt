-- ===== src/ListApi/Trim/Results.antt =====
-- embed/src/api/list/impl.rs, `ltrim`, on the list that a key holds.
use wedb_embed.Base.{
  ℕ, ◌-◌, ◌≤◌, ◌<◌, ◌≡◌, refl, sym, ap, ◌∙◌, min, List, [], false, arith, ◌==◌, length, take, drop,
  length-take, length-drop, take-min, drop_all, drop-take, some, inl, inr,
}
use wedb_embed.Base.Int.{ℤ, pos, ◌+ℤ◌, ◌-ℤ◌}
use wedb_embed.Store.{Engine, IsStore, clear_prefix_in_batch}
use wedb_embed.Db.{Db, DbBatch, batch, rm_meta, commit}
use wedb_embed.Outcome.{ok, ◌>>=◌}
use wedb_embed.ListMeta.{ListMeta}
use wedb_embed.KeyApi.{get_meta_checked}
use wedb_embed.ListApi.Keys.{meta_key, prefix_stack, list_ops, as_u64}
use wedb_embed.ListApi.State.{
  Window, Free, Stored, HoldsList, Frame, Frame-refl, Gives, get_meta_checked-Stored,
  get_meta_checked-Missing,
}
use wedb_embed.ListApi.Queue.{Pending-clear}
use wedb_embed.ListApi.Commit.{commit-rm_meta}
use wedb_embed.ListApi.Pop.{commit_list_batch}
use wedb_embed.ListApi.Pop.Results.{commit_list_batch-HoldsList}
use wedb_embed.ListApi.Read.Slice.{before, until, slice, normalize_range-Normal, as_i64_small}
use wedb_embed.ListApi.Trim.{rm_items, trimmed, ltrim}
use wedb_embed.ListApi.Trim.Steps.{Pending-rm_items}

Window-trimmed :
    (now : ℕ) (m : ListMeta) (n a b : ℕ)
    → Window now m n
    → a < b
    → b ≤ n
    → Window now (trimmed m (pos a) (pos (b - 1))) (b - a)
unfolding trimmed as_u64 ◌+ℤ◌ ◌-ℤ◌
Window-trimmed now m n a b w lt le = record {
  valid = record {
    base = record {
      expire = w.valid.base.expire;
      version = w.valid.base.version;
      size = (let f = w.fits in ground arith);
    };
    flags = w.valid.flags;
    head = omega arith;
    tail = ground arith;
  };
  unexpired = w.unexpired;
  size = ground arith;
  tail = ground arith;
  fits = omega (arith, w.fits);
}

next_offset : (b : ℕ) → 0 < b → as_u64 (pos (b - 1) +ℤ pos 1) ≡ b
unfolding as_u64 ◌+ℤ◌
next_offset b h = ground arith

module _ (E : Engine) (db : Db E) (key : List ℕ) (now : ℕ) (xs : List (List ℕ)) where
  slice-parts :
      (start stop : ℤ)
      → let a = before (length xs) start in
        let b = min (until (length xs) stop) (length xs) in
        slice start stop xs ≡ take (b - a) (drop a xs)
  slice-parts start stop =
      ap (drop (before (length xs) start)) (sym (take-min (until (length xs) stop) xs))
      ∙ drop-take (before (length xs) start) (min (until (length xs) stop) (length xs)) xs

  abbrev removed : ListMeta → ℕ → ℕ → DbBatch
  removed m a b = rm_items E db key m.head (length xs - b) b (rm_items E db key m.head a 0 batch)

  -- The commit of a part that is not empty.
  kept :
      (store : IsStore E)
      → Free E db key now
      → (m : ListMeta) → Stored E db key now m xs
      → (a b : ℕ) → a < b
      → b ≤ length xs
      → let db' =
          commit_list_batch E db
            (meta_key db.kc key)
            (trimmed m (pos a) (pos (b - 1)))
            (removed m a b) in
        HoldsList E db' key now (take (b - a) (drop a xs)) × Frame E key db db'
  unfolding trimmed as_u64
  kept store free m s a b lt le =
      commit_list_batch-HoldsList E store db key now (trimmed m (pos a) (pos (b - 1)))
        (removed m a b) (take (b - a) (drop a xs)) free
        (rw
          (let z : length (take (b - a) (drop a xs)) ≡ b - a =
              omega (arith, length-take (b - a) (drop a xs), length-drop a xs, le) in
            z)
          (Window-trimmed now m (length xs) a b s.window lt le))
        (Pending-rm_items E db key m.head a b xs s.window.valid.head s.window.fits lt le s.items)

  -- If the engine is a store and the key holds the list `xs`: after `ltrim` the key holds the part of `xs` between
  -- the two indices, both included, where negative ones count from the end, and all that does not belong
  -- to the list is as before; if that part is empty, the key holds no list.
  pub ltrim-Gives :
      (store : IsStore E) (start stop : ℤ)
      → HoldsList E db key now xs
      → Gives E db key now (ltrim E db key start stop now) tt (slice start stop xs)
  unfolding ltrim as_u64
  ltrim-Gives store start stop holds = elim holds.value [
    | inl (e, missing) ↦ (
      db,
      rw (get_meta_checked-Missing E db key now holds.free missing) refl,
      rw
          (
            drop_all (before (length xs) start) (take (until (length xs) stop) xs)
                (omega (arith, length-take (until (length xs) stop) xs, ap length e)),
            ← e,
          )
          holds,
      Frame-refl E key db,
    )
    | inr (m, s) ↦ elim (normalize_range-Normal (length xs) start stop s.nonempty) [
      | inl (empty, over) ↦
          let cleared = record batch {
            data_ks = clear_prefix_in_batch E db.data_ks (prefix_stack db.kc key) [];
          } in
          let (held, frame) =
            commit-rm_meta E store db cleared key now 0 holds.free
              (Pending-clear E store db key 0) in
          (
            commit E db (rm_meta (meta_key db.kc key) cleared),
            rw
                (
                  found m s,
                  ◌>>=◌,
                  s.window.size,
                  as_i64_small (length xs) s.window.fits,
                  not_zero s.nonempty,
                  empty,
                )
                refl,
            rw
                (drop_all (before (length xs) start) (take (until (length xs) stop) xs)
                  (omega (arith, over, length-take (until (length xs) stop) xs)))
                held,
            frame,
          )
      | inr (full, from, to, bound) ↦
          let a = before (length xs) start in
          let b = min (until (length xs) stop) (length xs) in
          let (held, frame) = kept store holds.free m s a b bound (omega arith) in
          (
            commit_list_batch E db (meta_key db.kc key) (trimmed m (pos a) (pos (b - 1)))
                (removed m a b),
            rw
                (
                  found m s,
                  ◌>>=◌,
                  s.window.size,
                  as_i64_small (length xs) s.window.fits,
                  not_zero s.nonempty,
                  full,
                  from,
                  to,
                  next_offset b (omega (arith, bound)),
                )
                refl,
            rw (slice-parts start stop) held,
            frame,
          )
    ]
  ]
    where
      found :
          (m : ListMeta) (s : Stored E db key now m xs)
          → get_meta_checked E list_ops db key (meta_key db.kc key) now ≡ ok (some m)
      found m s = get_meta_checked-Stored E db key now m xs holds.free s

      not_zero : 0 < length xs → (length xs == 0) ≡ false
      not_zero h = ground arith
