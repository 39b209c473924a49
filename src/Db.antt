-- ===== src/Db.antt =====
-- embed/src/wedb/batch.rs and core.rs: a database on an engine, with its scope and its two partitions,
-- and the batch that writes to both at once. A call is queued for its partition: calls on different
-- partitions do not meet, so each partition has a queue of its own. The clock and the versions are
-- arguments of the operations.
pub mod Laws
use wedb_embed.Base.{ℕ, List, [], ◌∷◌, ◌++◌, Option}
use wedb_embed.KeyComposer.{KeyComposer}
use wedb_embed.Store.{Op, Engine, effect}

pub record Db (E : Engine) : Type 0 where
  pub kc : KeyComposer
  pub data_ks : E.Partition
  pub meta_ks : E.Partition

pub record DbBatch : Type 0 where
  pub data_ks : List Op
  pub meta_ks : List Op

abbrev pub batch : DbBatch
batch = record { data_ks = []; meta_ks = [] }

unfoldable pub insert_data : List ℕ → List ℕ → DbBatch → DbBatch
insert_data key value b = record b { data_ks = b.data_ks ++ (Op.insert key value ∷ []) }

unfoldable pub insert_meta : List ℕ → List ℕ → DbBatch → DbBatch
insert_meta key value b = record b { meta_ks = b.meta_ks ++ (Op.insert key value ∷ []) }

unfoldable pub rm_data : List ℕ → DbBatch → DbBatch
rm_data key b = record b { data_ks = b.data_ks ++ (Op.rm key ∷ []) }

unfoldable pub rm_weak_data : List ℕ → DbBatch → DbBatch
rm_weak_data key b = record b { data_ks = b.data_ks ++ (Op.rm_weak key ∷ []) }

unfoldable pub rm_meta : List ℕ → DbBatch → DbBatch
rm_meta key b = record b { meta_ks = b.meta_ks ++ (Op.rm key ∷ []) }

module _ (E : Engine) where
  unfoldable pub commit : Db E → DbBatch → Db E
  commit db b = record db {
    data_ks = E.commit b.data_ks db.data_ks;
    meta_ks = E.commit b.meta_ks db.meta_ks;
  }
