-- ===== src/SetApi/Move/Leaving.antt =====
-- embed/src/api/set/pop.rs, `smove`: the sets before and after the parts of its batch.
use wedb_embed.Base.{
  ℕ, ◌-◌, ◌≡◌, refl, ◌∙◌, List, [], ◌∷◌, ◌++◌, false, arith, ◌==◌, length, inl, inr, Bool-cases,
  none, some, if◌then◌else◌,
}
use wedb_embed.Bytes.{IsU64, bytes_eq}
use wedb_embed.Store.{Engine, IsStore, Entry, effect}
use wedb_embed.Store.Ordered.{look_up}
use wedb_embed.Db.{Db, DbBatch}
use wedb_embed.Db.Laws.{after_meta, after-insert_meta, after-rm_meta}
use wedb_embed.Composite.{SimpleMeta, encode, with_size, prefix}
use wedb_embed.Composite.State.{Counts, Free}
use wedb_embed.Bytes.Order.{differ}
use wedb_embed.Composite.Pair.{PairPending, PairPending-insert_meta, PairPending-rm_meta}
use wedb_embed.SetApi.{sets, meta}
use wedb_embed.SetApi.State.{HoldsSet}
use wedb_embed.SetApi.Write.Results.{Counts-with_size}
use wedb_embed.SetApi.Move.{leave}

module _ (E : Engine) where
  -- What a batch with the smaller size makes of the source's metadata.
  pub after-leave :
      (db : Db E) (src : List ℕ) (m : SimpleMeta) (b : DbBatch) (k : List ℕ)
      → after_meta E db (leave E db src m b) k ≡ (
          if bytes_eq (meta db.kc src) k
          then (if m.base.size - 1 == 0
              then none
              else some (encode (with_size (m.base.size - 1) m)))
          else after_meta E db b k)
  unfolding leave
  after-leave db src m b k = elim (Bool-cases (m.base.size - 1 == 0)) [
    | inl z ↦ rw z (after-rm_meta E db b (meta db.kc src) k)
    | inr z ↦
        rw z (after-insert_meta E db b (meta db.kc src) (encode (with_size (m.base.size - 1) m)) k)
  ]

  pub PairPending-leave :
      (db : Db E) (src dst : List ℕ) (m : SimpleMeta) (b : DbBatch) (es fs : List Entry)
      → PairPending E sets db b src dst es fs
      → PairPending E sets db (leave E db src m b) src dst es fs
  unfolding leave
  PairPending-leave db src dst m b es fs p = elim (Bool-cases (m.base.size - 1 == 0)) [
    | inl z ↦ rw z (
        PairPending-rm_meta E sets db b src dst es fs (meta db.kc src) p
          (λ k h g. differ (meta db.kc src) k h))
    | inr z ↦ rw z (
        PairPending-insert_meta E sets db b src dst es fs (meta db.kc src) p
          (λ k h g. differ (meta db.kc src) k h) _)
  ]

  -- A value with `k` fields, from what the store has.
  pub Holds-read :
      (db : Db E) (key : List ℕ) (now k n : ℕ) (m : SimpleMeta) (es : List Entry)
      → Free E sets db key now
      → wedb_embed.Store.Ascending es
      → IsU64 k
      → Counts sets now m n
      → length es ≡ k
      → E.get db.meta_ks (meta db.kc key) ≡ (if k == 0 then none else some (encode (with_size k m)))
      → ((s : List ℕ) → E.get db.data_ks (prefix sets db.kc key ++ s) ≡ look_up es s)
      → HoldsSet E db key now es
  Holds-read db key now k n m [] free ascending small counts e own fields = record {
    free = free;
    ascending = ascending;
    value = inl (refl, rw (own, ← e) refl);
  }
  Holds-read db key now k n m (x ∷ es) free ascending small counts e own fields = record {
    free = free;
    ascending = ascending;
    value = inr (
      with_size k m,
      record {
        nonempty = omega arith;
        counts = rw e (Counts-with_size now m n k small counts);
        meta = own ∙ rw (let z : (k == 0) ≡ false = ground (arith, e) in z) refl;
        fields = fields;
      },
    );
  }

  -- A value of which neither the fields nor the metadata have changed.
  pub Holds-kept :
      (db db' : Db E) (key : List ℕ) (now : ℕ) (es : List Entry)
      → db'.kc ≡ db.kc
      → Free E sets db' key now
      → E.get db'.meta_ks (meta db.kc key) ≡ E.get db.meta_ks (meta db.kc key)
      → ((s : List ℕ) → E.get db'.data_ks (prefix sets db.kc key ++ s) ≡ look_up es s)
      → HoldsSet E db key now es
      → HoldsSet E db' key now es
  Holds-kept db db' key now es scope free own fields holds = record {
    free = free;
    ascending = holds.ascending;
    value = elim holds.value [
      | inl (e, missing) ↦ inl (e, rw (scope, own) missing)
      | inr (m, s) ↦ inr (
        m,
        record {
          nonempty = s.nonempty;
          counts = s.counts;
          meta = rw (scope, own) s.meta;
          fields = rw scope fields;
        },
      )
    ];
  }
