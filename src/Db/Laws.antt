-- ===== src/Db/Laws.antt =====
-- embed/src/wedb/batch.rs: what is in the two partitions once a batch is committed, call by call.
use wedb_embed.Base.{ℕ, ◌≡◌, refl, List, [], ◌∷◌, ◌++◌, Option, none, some, if◌then◌else◌}
use wedb_embed.Bytes.{bytes_eq}
use wedb_embed.Store.{Op, Engine, effect, IsStore}
use wedb_embed.Db.{Db, DbBatch, insert_data, insert_meta, rm_data, rm_weak_data, rm_meta, commit}

effect-append :
    (ops more : List Op) (k : List ℕ) (v : Option (List ℕ))
    → effect (ops ++ more) k v ≡ effect more k (effect ops k v)
unfolding effect
effect-append [] more k v = refl
effect-append (Op.insert j w ∷ ops) more k v =
    effect-append ops more k (if bytes_eq j k then some w else v)
effect-append (Op.rm j ∷ ops) more k v = effect-append ops more k (if bytes_eq j k then none else v)
effect-append (Op.rm_weak j ∷ ops) more k v =
    effect-append ops more k (if bytes_eq j k then none else v)

module _ (E : Engine) where
  -- The value of a key as it will be once the batch is committed.
  abbrev pub after_data : Db E → DbBatch → List ℕ → Option (List ℕ)
  after_data db b k = effect b.data_ks k (E.get db.data_ks k)

  abbrev pub after_meta : Db E → DbBatch → List ℕ → Option (List ℕ)
  after_meta db b k = effect b.meta_ks k (E.get db.meta_ks k)

  pub after-insert_data :
      (db : Db E) (b : DbBatch) (j w k : List ℕ)
      → after_data db (insert_data j w b) k ≡ (if bytes_eq j k then some w else after_data db b k)
  unfolding insert_data effect
  after-insert_data db b j w k = effect-append b.data_ks (Op.insert j w ∷ []) k (E.get db.data_ks k)

  pub after-rm_data :
      (db : Db E) (b : DbBatch) (j k : List ℕ)
      → after_data db (rm_data j b) k ≡ (if bytes_eq j k then none else after_data db b k)
  unfolding rm_data effect
  after-rm_data db b j k = effect-append b.data_ks (Op.rm j ∷ []) k (E.get db.data_ks k)

  pub after-rm_weak_data :
      (db : Db E) (b : DbBatch) (j k : List ℕ)
      → after_data db (rm_weak_data j b) k ≡ (if bytes_eq j k then none else after_data db b k)
  unfolding rm_weak_data effect
  after-rm_weak_data db b j k = effect-append b.data_ks (Op.rm_weak j ∷ []) k (E.get db.data_ks k)

  pub after-insert_meta :
      (db : Db E) (b : DbBatch) (j w k : List ℕ)
      → after_meta db (insert_meta j w b) k ≡ (if bytes_eq j k then some w else after_meta db b k)
  unfolding insert_meta effect
  after-insert_meta db b j w k = effect-append b.meta_ks (Op.insert j w ∷ []) k (E.get db.meta_ks k)

  pub after-rm_meta :
      (db : Db E) (b : DbBatch) (j k : List ℕ)
      → after_meta db (rm_meta j b) k ≡ (if bytes_eq j k then none else after_meta db b k)
  unfolding rm_meta effect
  after-rm_meta db b j k = effect-append b.meta_ks (Op.rm j ∷ []) k (E.get db.meta_ks k)

  module _ (store : IsStore E) where
    pub commit-data :
        (db : Db E) (b : DbBatch) (k : List ℕ) → E.get (commit E db b).data_ks k ≡ after_data db b k
    unfolding commit
    commit-data db b k = store.get-commit b.data_ks db.data_ks k

    pub commit-meta :
        (db : Db E) (b : DbBatch) (k : List ℕ) → E.get (commit E db b).meta_ks k ≡ after_meta db b k
    unfolding commit
    commit-meta db b k = store.get-commit b.meta_ks db.meta_ks k
