-- ===== src/ListApi/Move/Across.antt =====
-- embed/src/api/list/move.rs, `lmove` from one list to another.
use wedb_embed.Base.{
  ℕ, ◌≡◌, ◌≢◌, refl, sym, ap, ◌∙◌, List, [], Bool, length, some, none, Option, if◌then◌else◌, inl,
  inr, Bool-cases,
}
use wedb_embed.Bytes.{IsU64, bytes_eq}
use wedb_embed.Bytes.Order.{differ, bytes_eq_refl}
use wedb_embed.KeyTag.{as_slice}
use wedb_embed.KeyComposer.{compose_meta_key_into}
use wedb_embed.SmallKey.{as_bytes}
use wedb_embed.StringValue.{raw}
use wedb_embed.Store.{Engine, IsStore, effect}
use wedb_embed.Db.{
  Db, DbBatch, batch, rm_data, rm_weak_data, insert_data, insert_meta, rm_meta, commit,
}
use wedb_embed.Db.Laws.{after_data, after_meta, after-rm_data, commit-data, commit-meta}
use wedb_embed.ListApi.Keys.{meta_key, key_for_idx, item}
use wedb_embed.ListApi.Numbers.{key_for_idx-item, bytes_eq-outside}
use wedb_embed.ListApi.Items.{Items, Items-within}
use wedb_embed.ListApi.State.{Free, Free-same, raw-outside, meta_key-apart}
use wedb_embed.ListApi.Queue.{Pending, written-insert_data, written-rm_weak_data}
use wedb_embed.ListApi.Others.{prefix-apart, other_meta_key}

batch_data : (E : Engine) (db : Db E) (k : List ℕ) → after_data E db batch k ≡ E.get db.data_ks k
unfolding effect
batch_data E db k = refl

module _ (E : Engine) (db : Db E) (src dst v w we : List ℕ) (i j : ℕ) (empties : Bool)
    (b : DbBatch) where
  -- The calls that `lmove` adds to the batch `b` of the destination.
  abbrev pub moving : DbBatch
  moving = insert_meta (meta_key db.kc dst) we (
      insert_data (key_for_idx db.kc dst j) v (
        if empties
        then rm_meta (meta_key db.kc src) (rm_data (key_for_idx db.kc src i) b)
        else insert_meta (meta_key db.kc src) w (rm_data (key_for_idx db.kc src i) b)))

  moving-data :
      (k : List ℕ)
      → after_data E db moving k ≡ (
          if bytes_eq (item db.kc dst j) k
          then some v
          else if bytes_eq (item db.kc src i) k
          then none
          else after_data E db b k)
  unfolding insert_meta rm_meta insert_data rm_data
  moving-data k = elim (Bool-cases empties) [ inl e ↦ rw e (written k) | inr e ↦ rw e (written k) ]
    where
      written :
          (k : List ℕ)
          → after_data E db
              (insert_data (key_for_idx db.kc dst j) v (rm_data (key_for_idx db.kc src i) b))
              k
            ≡ (if bytes_eq (item db.kc dst j) k
                then some v
                else if bytes_eq (item db.kc src i) k
                then none
                else after_data E db b k)
      written k =
          written-insert_data E db (rm_data (key_for_idx db.kc src i) b) dst v j k
          ∙ ap (λ r. if bytes_eq (item db.kc dst j) k then some v else r)
              (rw (key_for_idx-item db.kc src i) (after-rm_data E db b (item db.kc src i) k))

  moving-meta :
      b.meta_ks ≡ []
      → (k : List ℕ)
      → after_meta E db moving k ≡ (
          if bytes_eq (meta_key db.kc dst) k
          then some we
          else if bytes_eq (meta_key db.kc src) k
          then (if empties then none else some w)
          else E.get db.meta_ks k)
  unfolding insert_meta rm_meta insert_data rm_data effect
  moving-meta none_there k = elim (Bool-cases empties) [
    | inl e ↦ rw (e, none_there) refl
    | inr e ↦ rw (e, none_there) refl
  ]

  module _ (store : IsStore E) (ne : src ≢ dst) (hs : IsU64 (length src)) (hd : IsU64 (length dst))
      (head : ℕ) (ys : List (List ℕ)) (now : ℕ) (free : Free E db src now)
      (prepared : Pending E db b dst head ys) where
    -- Seen from the source, its element is removed.
    pub moving-src :
        (h : ℕ) (xs : List (List ℕ))
        → Pending E db (rm_weak_data (key_for_idx db.kc src i) batch) src h xs
        → Items db.kc src (E.get (commit E db moving).data_ks) h xs
    moving-src h xs p =
        Items-within db.kc src (after_data E db (rm_weak_data (key_for_idx db.kc src i) batch))
          (E.get (commit E db moving).data_ks) h xs
          (λ k q.
            let out = prefix-apart db.kc dst src k free.scope hd hs (λ e. ne (sym e)) q in
            commit-data E store db moving k
            ∙ moving-data k
            ∙ rw (bytes_eq-outside db.kc dst k j out, prepared.others k out) refl
            ∙ sym (
                written-rm_weak_data E db batch src i k
                ∙ ap (λ (r : Option (List ℕ)). if bytes_eq (item db.kc src i) k then none else r)
                    (batch_data E db k)))
          p.items

    -- Seen from the destination, the element is inserted.
    pub moving-dst :
        (h : ℕ) (xs : List (List ℕ))
        → Pending E db (insert_data (key_for_idx db.kc dst j) v b) dst h xs
        → Items db.kc dst (E.get (commit E db moving).data_ks) h xs
    moving-dst h xs p =
        Items-within db.kc dst (after_data E db (insert_data (key_for_idx db.kc dst j) v b))
          (E.get (commit E db moving).data_ks) h xs
          (λ k q.
            let out = prefix-apart db.kc src dst k free.scope hs hd ne q in
            commit-data E store db moving k
            ∙ moving-data k
            ∙ rw (bytes_eq-outside db.kc src k i out) refl
            ∙ sym (written-insert_data E db b dst v j k))
          p.items

    pub moving-Free : (other : List ℕ) → Free E db other now → Free E (commit E db moving) other now
    moving-Free other f =
        Free-same E store other db (commit E db moving) now (unfold commit in refl)
          (commit-data E store db moving (as_bytes (raw db.kc other))
            ∙ moving-data (as_bytes (raw db.kc other))
            ∙ rw
                (
                  bytes_eq-outside db.kc dst (as_bytes (raw db.kc other)) j
                      (raw-outside E db.kc dst other f.scope),
                  bytes_eq-outside db.kc src (as_bytes (raw db.kc other)) i
                      (raw-outside E db.kc src other f.scope),
                  prepared.others (as_bytes (raw db.kc other))
                      (raw-outside E db.kc dst other f.scope),
                )
                refl)
          (λ t d.
            commit-meta E store db moving (compose_meta_key_into db.kc (as_slice t) other)
            ∙ moving-meta prepared.no_meta (compose_meta_key_into db.kc (as_slice t) other)
            ∙ rw
                (
                  differ (meta_key db.kc dst) (compose_meta_key_into db.kc (as_slice t) other)
                      (meta_key-apart E db.kc dst other t d),
                  differ (meta_key db.kc src) (compose_meta_key_into db.kc (as_slice t) other)
                      (meta_key-apart E db.kc src other t d),
                )
                refl)
          f

    pub moving-src_meta :
        E.get (commit E db moving).meta_ks (meta_key db.kc src) ≡ (if empties then none else some w)
    moving-src_meta =
        commit-meta E store db moving (meta_key db.kc src)
        ∙ moving-meta prepared.no_meta (meta_key db.kc src)
        ∙ rw
            (
              differ (meta_key db.kc dst) (meta_key db.kc src)
                  (other_meta_key E dst src db db (λ e. ne (sym e))),
              bytes_eq_refl (meta_key db.kc src),
            )
            refl

    pub moving-dst_meta : E.get (commit E db moving).meta_ks (meta_key db.kc dst) ≡ some we
    moving-dst_meta =
        commit-meta E store db moving (meta_key db.kc dst)
        ∙ moving-meta prepared.no_meta (meta_key db.kc dst)
        ∙ rw (bytes_eq_refl (meta_key db.kc dst)) refl
