-- ===== src/SetApi/Write/Removed.antt =====
-- embed/src/api/set/impl.rs, `srem`, on the set that a key holds.
use wedb_embed.Base.{
  ℕ, ◌-◌, ◌≡◌, refl, List, [], ◌∷◌, false, arith, ◌==◌, ltb, length, inl, inr, Bool-cases,
}
use wedb_embed.Bytes.{IsU64}
use wedb_embed.Store.{Engine, IsStore, Entry, Ascending}
use wedb_embed.Store.Finite.{without}
use wedb_embed.Db.{Db, DbBatch, batch}
use wedb_embed.Composite.{SimpleMeta, with_size}
use wedb_embed.Composite.State.{Counts, Free, Holds, Frame, Frame-refl}
use wedb_embed.Composite.Queue.{Pending, Pending-batch}
use wedb_embed.Composite.Commit.{commit-rm_meta}
use wedb_embed.SetApi.{sets, meta, key_for_member, contains_key, has}
use wedb_embed.SetApi.State.{
  sets-IsKind, HoldsSet, SetGives, key_for_member-prefix, live_set-HoldsSet,
}
use wedb_embed.SetApi.Members.{without_all}
use wedb_embed.SetApi.Write.{
  commit_set_batch, srem_one_internal, rm_member, rm_members, srem_many, srem,
}
use wedb_embed.SetApi.Write.Results.{commit-Holds}
use wedb_embed.SetApi.Write.Removing.{Removing, Removing-rm_members}

without_all_nil : (ms : List (List ℕ)) → without_all ms [] ≡ []
unfolding without_all without
without_all_nil [] = refl
without_all_nil (m ∷ ms) = without_all_nil ms

module _ (E : Engine) where
  start_Removing :
      (db : Db E) (key : List ℕ) (b : DbBatch) (es : List Entry)
      → Ascending es
      → Pending E sets db b key es
      → Removing E db key es [] 0 b es
  unfolding has
  start_Removing db key b es h p = record {
    pending = p;
    ascending = h;
    count = omega arith;
    unchanged = λ z. refl;
    old = λ m z. refl;
    gone = λ m z. cc z;
  }

  -- The commit with the size of a set that may be empty now.
  pub commit_set_batch-Holds :
      (store : IsStore E) (db : Db E) (b : DbBatch) (key : List ℕ) (now size : ℕ) (m : SimpleMeta)
      (n : ℕ) (es : List Entry)
      → Free E sets db key now
      → Ascending es
      → IsU64 (length es)
      → size ≡ length es
      → Counts sets now m n
      → Pending E sets db b key es
      → let db' = commit_set_batch E db (meta db.kc key) (with_size size m) b in
        Holds E sets db' key now es × Frame E sets key db db'
  unfolding commit_set_batch
  commit_set_batch-Holds store db b key now size m n [] free ascending small e counts p =
      rw e (commit-rm_meta E sets store sets-IsKind db b key now [] free p)
  commit_set_batch-Holds store db b key now size m n (x ∷ es) free ascending small e counts p =
      rw (let z : (size == 0) ≡ false = ground (arith, e) in z) (
        commit-Holds E store db b key now size m n (x ∷ es) free ascending (omega arith) small e
          counts p)

  srem_many-Gives :
      (store : IsStore E) (db : Db E) (key : List ℕ) (ms : List (List ℕ)) (now : ℕ)
      (es : List Entry)
      → HoldsSet E db key now es
      → SetGives E db key now
          (srem_many E db key ms now)
          (length es - length (without_all ms es))
          (without_all ms es)
  unfolding srem_many
  srem_many-Gives store db key ms now es holds = elim (live_set-HoldsSet E db key now es holds) [
    | inl (e, g) ↦
        rw (e, without_all_nil ms) (db, rw g refl, rw e at holds, Frame-refl E sets key db)
    | inr (m, s, g) ↦
        let (seen, removed, queued) = rm_members E db key ms ([], 0, batch) in
        let a =
          Removing-rm_members E db key es ms [] 0 batch es
            (λ f. rw (key_for_member-prefix db.kc key f, s.fields f) refl)
            (start_Removing db key batch es holds.ascending
              (Pending-batch E sets db key es s.fields)) in
        elim (Bool-cases (ltb 0 removed)) [
          | inl some_removed ↦
              let (holds', frame) =
                commit_set_batch-Holds store db queued key now (m.base.size - removed) m (length es)
                  (without_all ms es) holds.free a.ascending
                  (omega (arith, a.count, s.counts.valid.size, s.counts.size))
                  (omega (arith, a.count, s.counts.size)) s.counts a.pending in
              (
                commit_set_batch E db (meta db.kc key) (with_size (m.base.size - removed) m) queued,
                rw (g, some_removed, ← a.count) (ground arith),
                holds',
                frame,
              )
          | inr no_removed ↦ (
            db,
            rw (g, no_removed, ← a.count) (ground arith),
            rw (a.unchanged (ground (arith, no_removed))) holds,
            Frame-refl E sets key db,
          )
        ]
  ]

  -- One member is a case of many.
  srem_one-many :
      (db : Db E) (key m : List ℕ) (now : ℕ) (es : List Entry)
      → HoldsSet E db key now es
      → srem_one_internal E db key m now ≡ srem_many E db key (m ∷ []) now
  unfolding srem_one_internal srem_many rm_members rm_member has
  srem_one-many db key m now es holds = elim (live_set-HoldsSet E db key now es holds) [
    | inl (e, g) ↦ rw g refl
    | inr (meta, s, g) ↦
        elim (Bool-cases (contains_key E db.data_ks (key_for_member db.kc key m))) [
          | inl t ↦ rw (g, t) refl
          | inr f ↦ rw (g, f) refl
        ]
  ]

  -- If the engine is a store and the key holds the set `es`: `srem` answers how many of its members it removes,
  -- after it the key holds the set without any of the members given, which is no set at all when none is
  -- left, and all that does not belong to the set is as before.
  pub srem-Gives :
      (store : IsStore E) (db : Db E) (key : List ℕ) (ms : List (List ℕ)) (now : ℕ)
      (es : List Entry)
      → HoldsSet E db key now es
      → SetGives E db key now
          (srem E db key ms now)
          (length es - length (without_all ms es))
          (without_all ms es)
  unfolding srem without_all
  srem-Gives store db key [] now es holds = (
    db,
    rw (let z : length es - length es ≡ 0 = omega arith in z) refl,
    holds,
    Frame-refl E sets key db,
  )
  srem-Gives store db key (m ∷ []) now es holds =
      rw (srem_one-many db key m now es holds) (srem_many-Gives store db key (m ∷ []) now es holds)
  srem-Gives store db key (m ∷ n ∷ ms) now es holds =
      srem_many-Gives store db key (m ∷ n ∷ ms) now es holds
