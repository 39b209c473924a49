-- ===== src/SetApi/Write/Results.antt =====
-- embed/src/api/set/impl.rs, `sadd`, on the set that a key holds.
use wedb_embed.Base.{
  ℕ, ◌+◌, ◌-◌, ◌%◌, ◌^◌, ◌<◌, ◌≡◌, refl, sym, List, [], ◌∷◌, Bool, true, false, not, ◌||◌, arith,
  ltb, length, inl, inr, Bool-cases,
}
use wedb_embed.Bytes.{IsU64}
use wedb_embed.KeyMeta
use wedb_embed.Store.{Engine, IsStore, Entry, Ascending}
use wedb_embed.Store.Ordered.{look_up}
use wedb_embed.Db.{Db, DbBatch, batch, commit, insert_meta}
use wedb_embed.Outcome.{ok}
use wedb_embed.Composite
use wedb_embed.Composite.{SimpleMeta, encode, with_size}
use wedb_embed.Composite.State.{Counts, Free, Holds, Frame, Frame-refl}
use wedb_embed.Composite.Queue.{Pending, Pending-batch, Pending-cleared, cleared}
use wedb_embed.Composite.Commit.{commit-insert_meta}
use wedb_embed.SetApi.{sets, meta, prefix_stack, key_for_member, contains_key, has}
use wedb_embed.SetApi.State.{
  sets-IsKind, HoldsSet, SetGives, key_for_member-prefix, get_meta_checked-HoldsSet,
}
use wedb_embed.SetApi.Members.{add_all}
use wedb_embed.SetApi.Write.{
  prepare_set_meta_for_write, sadd_one_internal, add_member, add_members, sadd_many, sadd,
}
use wedb_embed.SetApi.Write.Adding.{Adding, Fresh, Adding-add_members}

pub Counts-new :
    (now version : ℕ) → IsU64 version → Counts sets now (Composite.new sets 0 version 0) 0
unfolding Composite.new KeyMeta.new
Counts-new now version h = record {
  valid = record { expire = omega arith; version = h; size = omega arith };
  rtype = refl;
  unexpired = ground arith;
  size = refl;
}

pub Counts-with_size :
    (now : ℕ) (m : SimpleMeta) (n k : ℕ)
    → IsU64 k
    → Counts sets now m n
    → Counts sets now (with_size k m) k
Counts-with_size now m n k h c = record {
  valid = record { expire = c.valid.expire; version = c.valid.version; size = h };
  rtype = c.rtype;
  unexpired = c.unexpired;
  size = refl;
}

module _ (E : Engine) where
  -- The start of a write: for a key without a set, what is left of an old one is removed.
  pub prepare-HoldsSet :
      (store : IsStore E) (db : Db E) (key : List ℕ) (now version : ℕ) (es : List Entry)
      → IsU64 version
      → HoldsSet E db key now es
      → (m : SimpleMeta) × (is_new : Bool) × (b : DbBatch) × (prepare_set_meta_for_write E db key
            (prefix_stack db.kc key)
            (meta db.kc key)
            now
            version
            batch
          ≡ ok ((m, is_new), b))
        × Counts sets now m (length es)
        × Pending E sets db b key es
        × Fresh E db key es is_new
        × (b.meta_ks ≡ [])
  unfolding prepare_set_meta_for_write look_up
  prepare-HoldsSet store db key now version es hv holds =
      elim (get_meta_checked-HoldsSet E db key now es holds) [
        | inl (e, g) ↦ (
          Composite.new sets 0 version 0,
          true,
          cleared E sets db key,
          rw g refl,
          rw e (Counts-new now version hv),
          rw e (Pending-cleared E sets store db key),
          rw e (λ m. refl),
          refl,
        )
        | inr (m, s, g) ↦ (
          m,
          false,
          batch,
          rw g refl,
          s.counts,
          Pending-batch E sets db key es s.fields,
          λ f. rw (key_for_member-prefix db.kc key f, s.fields f) refl,
          refl,
        )
      ]

  pub start_Adding :
      (db : Db E) (key : List ℕ) (b : DbBatch) (es : List Entry)
      → Ascending es
      → Pending E sets db b key es
      → Adding E db key es [] 0 b es
  unfolding has
  start_Adding db key b es h p = record {
    pending = p;
    ascending = h;
    count = omega arith;
    unchanged = λ z. refl;
    old = λ m z. refl;
    there = λ m z. cc z;
  }

  -- The commit with the size of a set that has members.
  pub commit-Holds :
      (store : IsStore E) (db : Db E) (b : DbBatch) (key : List ℕ) (now size : ℕ) (m : SimpleMeta)
      (n : ℕ) (es : List Entry)
      → Free E sets db key now
      → Ascending es
      → 0 < length es
      → IsU64 (length es)
      → size ≡ length es
      → Counts sets now m n
      → Pending E sets db b key es
      → let db' = commit E db (insert_meta (meta db.kc key) (encode (with_size size m)) b) in
        Holds E sets db' key now es × Frame E sets key db db'
  commit-Holds store db b key now size m n es free ascending nonempty small e counts p =
      commit-insert_meta E sets store sets-IsKind db b key now (with_size size m) es free ascending
        nonempty (rw (sym e) (Counts-with_size now m n size (rw e small) counts)) p

  sadd_many-Gives :
      (store : IsStore E) (db : Db E) (key : List ℕ) (ms : List (List ℕ)) (now version : ℕ)
      (es : List Entry)
      → IsU64 version
      → IsU64 (length (add_all ms es))
      → HoldsSet E db key now es
      → SetGives E db key now
          (sadd_many E db key ms now version)
          (length (add_all ms es) - length es)
          (add_all ms es)
  unfolding sadd_many
  sadd_many-Gives store db key ms now version es hv small holds =
      let (m, is_new, b, prepared, counts, p, fresh, no_meta) =
        prepare-HoldsSet store db key now version es hv holds in
      let (seen, added, queued) = add_members E db key is_new ms ([], 0, b) in
      let a =
        Adding-add_members E db key es is_new ms [] 0 b es fresh
          (start_Adding db key b es holds.ascending p) in
      elim (Bool-cases (ltb 0 added)) [
        | inl some_added ↦
            let (holds', frame) =
              commit-Holds store db queued key now ((m.base.size + added) % 2 ^ 64) m (length es)
                (add_all ms es) holds.free a.ascending (ground (arith, a.count, some_added)) small
                (rw counts.size (ground (arith, a.count, small))) counts a.pending in
            (
              commit E db (
                  insert_meta (meta db.kc key)
                    (encode (with_size ((m.base.size + added) % 2 ^ 64) m)) queued),
              rw (prepared, some_added, a.count) (ground arith),
              holds',
              frame,
            )
        | inr no_added ↦ (
          db,
          rw (prepared, no_added, a.count) (ground arith),
          rw (a.unchanged (ground (arith, no_added))) holds,
          Frame-refl E sets key db,
        )
      ]

  -- One member is a case of many.
  sadd_one-many :
      (store : IsStore E) (db : Db E) (key m : List ℕ) (now version : ℕ) (es : List Entry)
      → IsU64 version
      → HoldsSet E db key now es
      → sadd_one_internal E db key m now version ≡ sadd_many E db key (m ∷ []) now version
  unfolding sadd_one_internal sadd_many add_members add_member has
  sadd_one-many store db key m now version es hv holds =
      let (meta, is_new, b, prepared, counts, p, fresh, no_meta) =
        prepare-HoldsSet store db key now version es hv holds in
      elim (Bool-cases (is_new || not (contains_key E db.data_ks (key_for_member db.kc key m)))) [
        | inl t ↦ rw (prepared, t) refl
        | inr f ↦ rw (prepared, f) refl
      ]

  -- If the engine is a store, the key holds the set `es`, and the version and the size after the call are of 64
  -- bits: `sadd` answers how many members are new, after it the key holds the set with all of the members,
  -- in the order of their bytes and each once, and all that does not belong to the set is as before.
  pub sadd-Gives :
      (store : IsStore E) (db : Db E) (key : List ℕ) (ms : List (List ℕ)) (now version : ℕ)
      (es : List Entry)
      → IsU64 version
      → IsU64 (length (add_all ms es))
      → HoldsSet E db key now es
      → SetGives E db key now
          (sadd E db key ms now version)
          (length (add_all ms es) - length es)
          (add_all ms es)
  unfolding sadd add_all
  sadd-Gives store db key [] now version es hv small holds = (
    db,
    rw (let z : length es - length es ≡ 0 = omega arith in z) refl,
    holds,
    Frame-refl E sets key db,
  )
  sadd-Gives store db key (m ∷ []) now version es hv small holds =
      rw (sadd_one-many store db key m now version es hv holds)
        (sadd_many-Gives store db key (m ∷ []) now version es hv small holds)
  sadd-Gives store db key (m ∷ n ∷ ms) now version es hv small holds =
      sadd_many-Gives store db key (m ∷ n ∷ ms) now version es hv small holds
