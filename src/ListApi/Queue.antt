-- ===== src/ListApi/Queue.antt =====
-- embed/src/api/list/impl.rs: the state in the middle of a command, a batch with the metadata to come.
use wedb_embed.Base.{ℕ, ◌≡◌, refl, sym, ◌∙◌, List, [], false, Option, none, some, if◌then◌else◌}
use wedb_embed.Bytes.{bytes_eq, starts_with}
use wedb_embed.Store.{Engine, IsStore, effect, clear_prefix_in_batch}
use wedb_embed.Store.Clear.{clear_prefix_in_batch-get}
use wedb_embed.Db.{rm_data, Db, DbBatch, batch, insert_data, rm_weak_data}
use wedb_embed.Db.Laws.{after-rm_data, after_data, after-insert_data, after-rm_weak_data}
use wedb_embed.ListApi.Keys.{prefix_stack, item, key_for_idx}
use wedb_embed.ListApi.Numbers.{prefix, prefix_stack_lem, key_for_idx-item, bytes_eq-outside}
use wedb_embed.ListApi.Items.{Items, Items-cong, Items-clear}

module _ (E : Engine) where
  -- The batch makes the list at the key `xs`, numbered as `m` says, changes no other data, and leaves the
  -- metadata to the end of the command.
  pub record Pending (db : Db E) (b : DbBatch) (key : List ℕ) (head : ℕ) (xs : List (List ℕ))
      : Type 0 where
    pub items : Items db.kc key (after_data E db b) head xs
    pub others :
        (k : List ℕ)
        → starts_with (prefix db.kc key) k ≡ false
        → after_data E db b k ≡ E.get db.data_ks k
    pub no_meta : b.meta_ks ≡ []

  -- The empty batch.
  pub Pending-batch :
      (db : Db E) (key : List ℕ) (head : ℕ) (xs : List (List ℕ))
      → Items db.kc key (E.get db.data_ks) head xs
      → Pending db batch key head xs
  unfolding effect
  Pending-batch db key head xs it = record { items = it; others = λ k h. refl; no_meta = refl }

  pub Pending-clear :
      (store : IsStore E) (db : Db E) (key : List ℕ) (head : ℕ)
      → Pending db
          (record batch {
            data_ks = clear_prefix_in_batch E db.data_ks (prefix_stack db.kc key) [];
          })
          key
          head
          []
  Pending-clear store db key head = record {
    items = Items-clear db.kc key (E.get db.data_ks) (after_data E db cleared) head gone;
    others = λ k h. gone k ∙ rw h refl;
    no_meta = refl;
  }
    where
      cleared : DbBatch
      cleared = record batch {
        data_ks = clear_prefix_in_batch E db.data_ks (prefix_stack db.kc key) [];
      }

      gone :
          (k : List ℕ)
          → after_data E db cleared k
            ≡ (if starts_with (prefix db.kc key) k then none else E.get db.data_ks k)
      gone k =
          sym (store.get-commit cleared.data_ks db.data_ks k)
          ∙ clear_prefix_in_batch-get E store db.data_ks (prefix_stack db.kc key) k
          ∙ rw (prefix_stack_lem db.kc key) refl

  module _ (db : Db E) (b b' : DbBatch) (key : List ℕ) (n : ℕ) (w : Option (List ℕ)) where
    -- A write to one element key.
    write_others :
        ((k : List ℕ)
          → after_data E db b' k
            ≡ (if bytes_eq (item db.kc key n) k then w else after_data E db b k))
        → ((k : List ℕ)
            → starts_with (prefix db.kc key) k ≡ false
            → after_data E db b k ≡ E.get db.data_ks k)
        → (k : List ℕ) → starts_with (prefix db.kc key) k ≡ false
        → after_data E db b' k ≡ E.get db.data_ks k
    write_others written others k h = written k ∙ rw (bytes_eq-outside db.kc key k n h) (others k h)

  -- A queued element is written at its key.
  pub written-insert_data :
      (db : Db E) (b : DbBatch) (key v : List ℕ) (n : ℕ) (k : List ℕ)
      → after_data E db (insert_data (key_for_idx db.kc key n) v b) k
        ≡ (if bytes_eq (item db.kc key n) k then some v else after_data E db b k)
  written-insert_data db b key v n k =
      rw (key_for_idx-item db.kc key n) (after-insert_data E db b (item db.kc key n) v k)

  pub written-rm_weak_data :
      (db : Db E) (b : DbBatch) (key : List ℕ) (n : ℕ) (k : List ℕ)
      → after_data E db (rm_weak_data (key_for_idx db.kc key n) b) k
        ≡ (if bytes_eq (item db.kc key n) k then none else after_data E db b k)
  written-rm_weak_data db b key n k =
      rw (key_for_idx-item db.kc key n) (after-rm_weak_data E db b (item db.kc key n) k)

  -- A step of the queue: one element is written or removed.
  pub Pending-insert :
      (db : Db E) (b : DbBatch) (key : List ℕ) (head head' n : ℕ) (v : List ℕ)
      (xs ys : List (List ℕ))
      → Pending db b key head xs
      → (((k : List ℕ)
            → after_data E db (insert_data (key_for_idx db.kc key n) v b) k
              ≡ (if bytes_eq (item db.kc key n) k then some v else after_data E db b k))
          → Items db.kc key (after_data E db b) head xs
          → Items db.kc key (after_data E db (insert_data (key_for_idx db.kc key n) v b)) head' ys)
      → Pending db (insert_data (key_for_idx db.kc key n) v b) key head' ys
  unfolding insert_data
  Pending-insert db b key head head' n v xs ys p step = record {
    items = step (written-insert_data db b key v n) p.items;
    others =
        write_others db b (insert_data (key_for_idx db.kc key n) v b) key n (some v)
          (written-insert_data db b key v n) p.others;
    no_meta = p.no_meta;
  }

  pub Pending-rm :
      (db : Db E) (b : DbBatch) (key : List ℕ) (head head' n : ℕ) (xs ys : List (List ℕ))
      → Pending db b key head xs
      → (((k : List ℕ)
            → after_data E db (rm_weak_data (key_for_idx db.kc key n) b) k
              ≡ (if bytes_eq (item db.kc key n) k then none else after_data E db b k))
          → Items db.kc key (after_data E db b) head xs
          → Items db.kc key (after_data E db (rm_weak_data (key_for_idx db.kc key n) b)) head' ys)
      → Pending db (rm_weak_data (key_for_idx db.kc key n) b) key head' ys
  unfolding rm_weak_data
  Pending-rm db b key head head' n xs ys p step = record {
    items = step (written-rm_weak_data db b key n) p.items;
    others =
        write_others db b (rm_weak_data (key_for_idx db.kc key n) b) key n none
          (written-rm_weak_data db b key n) p.others;
    no_meta = p.no_meta;
  }

  -- A removal is queued as a weak one is.
  pub Pending-rm_data :
      (db : Db E) (b : DbBatch) (key : List ℕ) (head : ℕ) (j : List ℕ) (xs : List (List ℕ))
      → Pending db (rm_weak_data j b) key head xs
      → Pending db (rm_data j b) key head xs
  unfolding rm_data rm_weak_data
  Pending-rm_data db b key head j xs p = record {
    items =
        Items-cong db.kc key (after_data E db (rm_weak_data j b)) (after_data E db (rm_data j b))
          head xs same p.items;
    others = λ k h. same k ∙ p.others k h;
    no_meta = p.no_meta;
  }
    where
      same : (k : List ℕ) → after_data E db (rm_data j b) k ≡ after_data E db (rm_weak_data j b) k
      same k = after-rm_data E db b j k ∙ sym (after-rm_weak_data E db b j k)
