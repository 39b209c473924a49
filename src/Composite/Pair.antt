-- ===== src/Composite/Pair.antt =====
-- embed/src/api: a command on two values of a kind, whose batch is for both of them.
use wedb_embed.Base.{ℕ, ◌≡◌, ◌≢◌, refl, sym, ◌∙◌, List, ◌++◌, false, length}
use wedb_embed.Bytes.{IsU64, bytes_eq, starts_with}
use wedb_embed.Bytes.Order.{bytes_eq-append_left, starts_with-append}
use wedb_embed.KeyTag.{as_slice}
use wedb_embed.SmallKey.{as_bytes}
use wedb_embed.KeyComposer.{compose_meta_key_into}
use wedb_embed.KeyComposer.RoundTrip.{IsScope}
use wedb_embed.StringValue.{raw}
use wedb_embed.Store.{Engine, IsStore, Entry}
use wedb_embed.Store.Ordered.{look_up, insert_sorted, look_up-insert_sorted}
use wedb_embed.Store.Finite.{without, look_up-without}
use wedb_embed.Db.{Db, DbBatch, insert_data, insert_meta, rm_weak_data, rm_meta, commit}
use wedb_embed.Db.Laws.{
  after_data, after_meta, after-insert_data, after-insert_meta, after-rm_weak_data, after-rm_meta,
}
use wedb_embed.Composite.{Kind, IsKind, meta_key, prefix}
use wedb_embed.Composite.State.{Free, Free-same, raw-outside, meta_key-apart}
use wedb_embed.Composite.Queue.{Pending, outside_differs}
use wedb_embed.Composite.Others.{prefix-apart}

module _ (E : Engine) (kind : Kind) where
  -- What a command on the values at two keys leaves as it was.
  pub record PairFrame (a c : List ℕ) (db db' : Db E) : Type 0 where
    pub scope : db'.kc ≡ db.kc
    pub others :
        (k : List ℕ)
        → starts_with (prefix kind db.kc a) k ≡ false
        → starts_with (prefix kind db.kc c) k ≡ false
        → E.get db'.data_ks k ≡ E.get db.data_ks k
    pub other_meta :
        (k : List ℕ)
        → meta_key kind db.kc a ≢ k
        → meta_key kind db.kc c ≢ k
        → E.get db'.meta_ks k ≡ E.get db.meta_ks k

  pub PairFrame-refl : (a c : List ℕ) (db : Db E) → PairFrame a c db db
  PairFrame-refl a c db = record {
    scope = refl;
    others = λ k h g. refl;
    other_meta = λ k h g. refl;
  }

  pub Free-PairFrame :
      (store : IsStore E) (is_kind : IsKind kind) (a c other : List ℕ) (db db' : Db E) (now : ℕ)
      → PairFrame a c db db'
      → Free E kind db other now
      → Free E kind db' other now
  Free-PairFrame store is_kind a c other db db' now fr f =
      Free-same E kind store other db db' now fr.scope
        (fr.others (as_bytes (raw db.kc other)) (raw-outside E kind db.kc a other is_kind f.scope)
          (raw-outside E kind db.kc c other is_kind f.scope))
        (λ t differ.
          fr.other_meta (compose_meta_key_into db.kc (as_slice t) other)
            (meta_key-apart E kind db.kc a other t differ)
            (meta_key-apart E kind db.kc c other t differ))
        f

  -- The batch makes the fields at the two keys `es` and `fs`, and changes no other data and no other metadata.
  pub record PairPending (db : Db E) (b : DbBatch) (a c : List ℕ) (es fs : List Entry)
      : Type 0 where
    pub first : (s : List ℕ) → after_data E db b (prefix kind db.kc a ++ s) ≡ look_up es s
    pub second : (s : List ℕ) → after_data E db b (prefix kind db.kc c ++ s) ≡ look_up fs s
    pub others :
        (k : List ℕ)
        → starts_with (prefix kind db.kc a) k ≡ false
        → starts_with (prefix kind db.kc c) k ≡ false
        → after_data E db b k ≡ E.get db.data_ks k
    pub other_meta :
        (k : List ℕ)
        → meta_key kind db.kc a ≢ k
        → meta_key kind db.kc c ≢ k
        → after_meta E db b k ≡ E.get db.meta_ks k

  module _ (db : Db E) (b : DbBatch) (a c : List ℕ) (es fs : List Entry) where
    apart :
        IsScope db.kc
        → IsU64 (length a)
        → IsU64 (length c)
        → a ≢ c
        → (s : List ℕ) → starts_with (prefix kind db.kc a) (prefix kind db.kc c ++ s) ≡ false
    apart scope ha hc ne s =
        prefix-apart kind db.kc a c (prefix kind db.kc c ++ s) scope ha hc ne
          (starts_with-append (prefix kind db.kc c) s)

    -- A batch for the second value leaves the first as it is in the store.
    pub PairPending-second :
        IsScope db.kc
        → IsU64 (length a)
        → IsU64 (length c)
        → c ≢ a
        → ((s : List ℕ) → E.get db.data_ks (prefix kind db.kc a ++ s) ≡ look_up es s)
        → Pending E kind db b c fs
        → PairPending db b a c es fs
    PairPending-second scope ha hc ne fields p = record {
      first = λ s.
          p.others (prefix kind db.kc a ++ s) (
            prefix-apart kind db.kc c a (prefix kind db.kc a ++ s) scope hc ha ne
              (starts_with-append (prefix kind db.kc a) s))
          ∙ fields s;
      second = p.fields;
      others = λ k h g. p.others k g;
      other_meta = λ k h g. p.other_meta k g;
    }

    module _ (scope : IsScope db.kc) (ha : IsU64 (length a)) (hc : IsU64 (length c)) (ne : a ≢ c)
        (ne' : c ≢ a) (m j : List ℕ) (p : PairPending db b a c es fs) where
      -- A field of the first value is removed.
      pub PairPending-rm_weak :
          j ≡ prefix kind db.kc a ++ m → PairPending db (rm_weak_data j b) a c (without m es) fs
      unfolding rm_weak_data
      PairPending-rm_weak at = record {
        first = λ s.
            after-rm_weak_data E db b j (prefix kind db.kc a ++ s)
            ∙ rw (at, bytes_eq-append_left (prefix kind db.kc a) m s, p.first s)
                (sym (look_up-without m s es));
        second = λ s.
            after-rm_weak_data E db b j (prefix kind db.kc c ++ s)
            ∙ rw
                (
                  at,
                  outside_differs (prefix kind db.kc a) m (prefix kind db.kc c ++ s)
                      (apart scope ha hc ne s),
                )
                (p.second s);
        others = λ k h g.
            after-rm_weak_data E db b j k
            ∙ rw (at, outside_differs (prefix kind db.kc a) m k h) (p.others k h g);
        other_meta = p.other_meta;
      }

      -- A field of the second value is written.
      pub PairPending-insert :
          (v : List ℕ)
          → j ≡ prefix kind db.kc c ++ m
          → PairPending db (insert_data j v b) a c es (insert_sorted (m, v) fs)
      unfolding insert_data
      PairPending-insert v at = record {
        first = λ s.
            after-insert_data E db b j v (prefix kind db.kc a ++ s)
            ∙ rw
                (
                  at,
                  outside_differs (prefix kind db.kc c) m (prefix kind db.kc a ++ s) (
                      prefix-apart kind db.kc c a (prefix kind db.kc a ++ s) scope hc ha ne'
                        (starts_with-append (prefix kind db.kc a) s)),
                )
                (p.first s);
        second = λ s.
            after-insert_data E db b j v (prefix kind db.kc c ++ s)
            ∙ rw (at, bytes_eq-append_left (prefix kind db.kc c) m s, p.second s)
                (sym (look_up-insert_sorted (m, v) fs s));
        others = λ k h g.
            after-insert_data E db b j v k
            ∙ rw (at, outside_differs (prefix kind db.kc c) m k g) (p.others k h g);
        other_meta = p.other_meta;
      }

    -- The metadata of one of the two is written or removed.
    module _ (j : List ℕ) (p : PairPending db b a c es fs)
        (own : (k : List ℕ)
          → meta_key kind db.kc a ≢ k
          → meta_key kind db.kc c ≢ k
          → bytes_eq j k ≡ false) where
      pub PairPending-insert_meta :
          (bytes : List ℕ) → PairPending db (insert_meta j bytes b) a c es fs
      unfolding insert_meta
      PairPending-insert_meta bytes = record {
        first = p.first;
        second = p.second;
        others = p.others;
        other_meta =
            λ k h g. after-insert_meta E db b j bytes k ∙ rw (own k h g) (p.other_meta k h g);
      }

      pub PairPending-rm_meta : PairPending db (rm_meta j b) a c es fs
      unfolding rm_meta
      PairPending-rm_meta = record {
        first = p.first;
        second = p.second;
        others = p.others;
        other_meta = λ k h g. after-rm_meta E db b j k ∙ rw (own k h g) (p.other_meta k h g);
      }

    pub commit-PairFrame :
        (store : IsStore E) → PairPending db b a c es fs → PairFrame a c db (commit E db b)
    unfolding commit
    commit-PairFrame store p = record {
      scope = refl;
      others = λ k h g. store.get-commit b.data_ks db.data_ks k ∙ p.others k h g;
      other_meta = λ k h g. store.get-commit b.meta_ks db.meta_ks k ∙ p.other_meta k h g;
    }
