-- ===== src/Composite/Commit.antt =====
-- embed/src/api: the commits at the end of the commands on a value's fields.
use wedb_embed.Base.{ℕ, ◌<◌, ◌≡◌, refl, ◌∙◌, List, [], length, none, some, inl, inr}
use wedb_embed.Bytes.Order.{bytes_eq_refl}
use wedb_embed.Store.{Engine, IsStore, Entry, Ascending}
use wedb_embed.Db.{Db, DbBatch, commit, insert_meta, rm_meta}
use wedb_embed.Db.Laws.{after_meta, after-insert_meta, after-rm_meta}
use wedb_embed.Composite.{Kind, IsKind, SimpleMeta, encode, meta_key}
use wedb_embed.Composite.State.{Counts, Free, Holds, Frame, Free-Frame}
use wedb_embed.Composite.Queue.{Pending, Pending-rm_meta, Pending-insert_meta}

module _ (E : Engine) (kind : Kind) (store : IsStore E) (is_kind : IsKind kind) (db : Db E)
    (b : DbBatch) (key : List ℕ) (now : ℕ) where
  commit-Frame :
      (es : List Entry) → Pending E kind db b key es → Frame E kind key db (commit E db b)
  unfolding commit
  commit-Frame es p = record {
    scope = refl;
    others = λ k h. store.get-commit b.data_ks db.data_ks k ∙ p.others k h;
    other_meta = λ k ne. store.get-commit b.meta_ks db.meta_ks k ∙ p.other_meta k ne;
  }

  -- The commit of a batch with the new metadata in it.
  pub commit-some :
      (m : SimpleMeta) (es : List Entry)
      → Free E kind db key now
      → Ascending es
      → 0 < length es
      → Counts kind now m (length es)
      → after_meta E db b (meta_key kind db.kc key) ≡ some (encode m)
      → Pending E kind db b key es
      → Holds E kind (commit E db b) key now es × Frame E kind key db (commit E db b)
  unfolding commit
  commit-some m es free ascending nonempty counts own p = (
    record {
      free =
          Free-Frame E kind store is_kind key key db (commit E db b) now (commit-Frame es p) free;
      ascending = ascending;
      value = inr (
        m,
        record {
          nonempty = nonempty;
          counts = counts;
          meta = store.get-commit b.meta_ks db.meta_ks (meta_key kind db.kc key) ∙ own;
          fields = λ s. store.get-commit b.data_ks db.data_ks _ ∙ p.fields s;
        },
      );
    },
    commit-Frame es p,
  )

  -- The commit of a batch after which there is no metadata.
  pub commit-none :
      (es : List Entry)
      → Free E kind db key now
      → after_meta E db b (meta_key kind db.kc key) ≡ none
      → Pending E kind db b key es
      → Holds E kind (commit E db b) key now [] × Frame E kind key db (commit E db b)
  unfolding commit
  commit-none es free own p = (
    record {
      free =
          Free-Frame E kind store is_kind key key db (commit E db b) now (commit-Frame es p) free;
      ascending = tt;
      value =
          inl
            (refl, rw (store.get-commit b.meta_ks db.meta_ks (meta_key kind db.kc key), own) refl);
    },
    commit-Frame es p,
  )

module _ (E : Engine) (kind : Kind) (store : IsStore E) (is_kind : IsKind kind) (db : Db E)
    (b : DbBatch) (key : List ℕ) (now : ℕ) where
  -- The new metadata comes last.
  pub commit-insert_meta :
      (m : SimpleMeta) (es : List Entry)
      → Free E kind db key now
      → Ascending es
      → 0 < length es
      → Counts kind now m (length es)
      → Pending E kind db b key es
      → let db' = commit E db (insert_meta (meta_key kind db.kc key) (encode m) b) in
        Holds E kind db' key now es × Frame E kind key db db'
  commit-insert_meta m es free ascending nonempty counts p =
      commit-some E kind store is_kind db (insert_meta (meta_key kind db.kc key) (encode m) b) key
        now m es free ascending nonempty counts
        (after-insert_meta E db b (meta_key kind db.kc key) (encode m) (meta_key kind db.kc key)
          ∙ rw (bytes_eq_refl (meta_key kind db.kc key)) refl)
        (Pending-insert_meta E kind db b key (encode m) es p)

  -- The metadata of a value that has no fields now is removed last.
  pub commit-rm_meta :
      (es : List Entry)
      → Free E kind db key now
      → Pending E kind db b key es
      → let db' = commit E db (rm_meta (meta_key kind db.kc key) b) in
        Holds E kind db' key now [] × Frame E kind key db db'
  commit-rm_meta es free p =
      commit-none E kind store is_kind db (rm_meta (meta_key kind db.kc key) b) key now es free
        (after-rm_meta E db b (meta_key kind db.kc key) (meta_key kind db.kc key)
          ∙ rw (bytes_eq_refl (meta_key kind db.kc key)) refl)
        (Pending-rm_meta E kind db b key es p)
