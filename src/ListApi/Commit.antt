-- ===== src/ListApi/Commit.antt =====
-- embed/src/api/list/impl.rs: the commits at the end of the commands.
use wedb_embed.Base.{
  ℕ, ◌<◌, ◌≡◌, refl, ap, ◌∙◌, List, [], length, none, some, inl, inr, if◌then◌else◌,
}
use wedb_embed.Bytes.{bytes_eq}
use wedb_embed.Bytes.Order.{differ, bytes_eq_refl}
use wedb_embed.Store.{Engine, IsStore, effect}
use wedb_embed.Db.{Db, DbBatch, commit, insert_meta, rm_meta}
use wedb_embed.Db.Laws.{after_data, after-insert_meta, after-rm_meta, commit-meta}
use wedb_embed.ListMeta
use wedb_embed.ListMeta.{ListMeta, wrapping_add, wrapping_sub, push_index, pop_index, initial_index}
use wedb_embed.ListApi.Keys.{meta_key}
use wedb_embed.ListApi.Items.{Items-cong}
use wedb_embed.ListApi.State.{Window, Free, HoldsList, Frame, Free-Frame}
use wedb_embed.ListApi.Queue.{Pending}

module _ (E : Engine) where
  module _ (store : IsStore E) (db : Db E) (b : DbBatch) (key : List ℕ) (now : ℕ) where
    -- The commit with the new metadata.
    pub commit-insert_meta :
        (m : ListMeta) (xs : List (List ℕ))
        → Free E db key now
        → 0 < length xs
        → Window now m (length xs)
        → Pending E db b key m.head xs
        → let db' = commit E db (insert_meta (meta_key db.kc key) (ListMeta.encode m) b) in
          HoldsList E db' key now xs × Frame E key db db'
    unfolding commit insert_meta
    commit-insert_meta m xs free nonempty window p = (
      record {
        free = Free-Frame E store key key db db' now frame free;
        value = inr (
          m,
          record {
            nonempty = nonempty;
            window = window;
            meta = meta_at (meta_key db.kc key) ∙ rw (bytes_eq_refl (meta_key db.kc key)) refl;
            items =
                Items-cong db.kc key (after_data E db b) (E.get db'.data_ks) m.head xs
                  (store.get-commit b.data_ks db.data_ks) p.items;
          },
        );
      },
      frame,
    )
      where
        db' : Db E
        db' = commit E db (insert_meta (meta_key db.kc key) (ListMeta.encode m) b)

        meta_at :
            (k : List ℕ)
            → E.get db'.meta_ks k ≡ (
                if bytes_eq (meta_key db.kc key) k
                then some (ListMeta.encode m)
                else E.get db.meta_ks k)
        meta_at k =
            commit-meta E store db (insert_meta (meta_key db.kc key) (ListMeta.encode m) b) k
            ∙ after-insert_meta E db b (meta_key db.kc key) (ListMeta.encode m) k
            ∙ ap
                (λ ops.
                  if bytes_eq (meta_key db.kc key) k
                  then some (ListMeta.encode m)
                  else effect ops k (E.get db.meta_ks k))
                p.no_meta
            ∙ (unfold effect in refl)

        frame : Frame E key db db'
        frame = record {
          scope = refl;
          others = λ k h. store.get-commit b.data_ks db.data_ks k ∙ p.others k h;
          other_meta = λ k ne. meta_at k ∙ rw (differ (meta_key db.kc key) k ne) refl;
        }

    -- The commit that removes the metadata of a list that is empty now.
    pub commit-rm_meta :
        (head : ℕ)
        → Free E db key now
        → Pending E db b key head []
        → let db' = commit E db (rm_meta (meta_key db.kc key) b) in
          HoldsList E db' key now [] × Frame E key db db'
    unfolding commit rm_meta
    commit-rm_meta head free p = (
      record {
        free = Free-Frame E store key key db db' now frame free;
        value =
            inl (refl, rw (meta_at (meta_key db.kc key), bytes_eq_refl (meta_key db.kc key)) refl);
      },
      frame,
    )
      where
        db' : Db E
        db' = commit E db (rm_meta (meta_key db.kc key) b)

        meta_at :
            (k : List ℕ)
            → E.get db'.meta_ks k
              ≡ (if bytes_eq (meta_key db.kc key) k then none else E.get db.meta_ks k)
        meta_at k =
            commit-meta E store db (rm_meta (meta_key db.kc key) b) k
            ∙ after-rm_meta E db b (meta_key db.kc key) k
            ∙ ap
                (λ ops.
                  if bytes_eq (meta_key db.kc key) k
                  then none
                  else effect ops k (E.get db.meta_ks k))
                p.no_meta
            ∙ (unfold effect in refl)

        frame : Frame E key db db'
        frame = record {
          scope = refl;
          others = λ k h. store.get-commit b.data_ks db.data_ks k ∙ p.others k h;
          other_meta = λ k ne. meta_at k ∙ rw (differ (meta_key db.kc key) k ne) refl;
        }

    -- The commit that leaves the metadata as it is.
    pub commit_data :
        (m : ListMeta) (xs : List (List ℕ))
        → Free E db key now
        → 0 < length xs
        → Window now m (length xs)
        → E.get db.meta_ks (meta_key db.kc key) ≡ some (ListMeta.encode m)
        → Pending E db b key m.head xs
        → HoldsList E (commit E db b) key now xs × Frame E key db (commit E db b)
    unfolding commit
    commit_data m xs free nonempty window stored p = (
      record {
        free = Free-Frame E store key key db (commit E db b) now frame free;
        value = inr (
          m,
          record {
            nonempty = nonempty;
            window = window;
            meta = same_meta (meta_key db.kc key) ∙ stored;
            items =
                Items-cong db.kc key (after_data E db b) (E.get (commit E db b).data_ks) m.head xs
                  (store.get-commit b.data_ks db.data_ks) p.items;
          },
        );
      },
      frame,
    )
      where
        same_meta : (k : List ℕ) → E.get (commit E db b).meta_ks k ≡ E.get db.meta_ks k
        same_meta k =
            store.get-commit b.meta_ks db.meta_ks k
            ∙ ap (λ ops. effect ops k (E.get db.meta_ks k)) p.no_meta
            ∙ (unfold effect in refl)

        frame : Frame E key db (commit E db b)
        frame = record {
          scope = refl;
          others = λ k h. store.get-commit b.data_ks db.data_ks k ∙ p.others k h;
          other_meta = λ k ne. same_meta k;
        }
