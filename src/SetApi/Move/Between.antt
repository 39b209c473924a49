-- ===== src/SetApi/Move/Between.antt =====
-- embed/src/api/set/pop.rs, `smove`, on the sets that two keys hold.
use wedb_embed.Base.{
  ℕ, suc, ◌+◌, ◌-◌, ◌%◌, ◌^◌, ◌≡◌, ◌≢◌, refl, sym, ◌∙◌, List, [], Bool, true, false, not, ◌||◌,
  arith, ◌==◌, length, inl, inr, Bool-cases, if◌then◌else◌,
}
use wedb_embed.Bytes.{IsU64}
use wedb_embed.Bytes.Order.{differ, bytes_eq_refl}
use wedb_embed.Store.{Engine, IsStore, Entry, effect}
use wedb_embed.Store.Ordered.{look_up}
use wedb_embed.Store.Finite.{
  contains, without, without-Ascending, without_absent, length-without, length-insert_sorted,
}
use wedb_embed.Db.{Db, DbBatch, commit, rm_weak_data, insert_data, insert_meta}
use wedb_embed.Db.Laws.{after_meta, after-insert_meta}
use wedb_embed.Outcome.{ok}
use wedb_embed.Composite.{SimpleMeta, encode, with_size}
use wedb_embed.Composite.State.{Counts, Stored}
use wedb_embed.Composite.Queue.{Pending}
use wedb_embed.Composite.Others.{other_meta_key}
use wedb_embed.Composite.Pair.{
  PairFrame, PairFrame-refl, Free-PairFrame, PairPending, PairPending-second, PairPending-rm_weak,
  PairPending-insert, PairPending-insert_meta, commit-PairFrame,
}
use wedb_embed.SetApi.{sets, meta, member, contains_key}
use wedb_embed.SetApi.State.{
  sets-IsKind, HoldsSet, live_set-HoldsSet, member-prefix, key_for_member-prefix,
}
use wedb_embed.SetApi.Members.{add, add-Ascending, absent}
use wedb_embed.SetApi.Write.Adding.{Fresh}
use wedb_embed.SetApi.Write.Results.{prepare-HoldsSet}
use wedb_embed.SetApi.Move.Leaving.{after-leave, PairPending-leave, Holds-read, Holds-kept}
use wedb_embed.SetApi.Move.{leave, move_member, smove_between, smove}

module _ (E : Engine) where
  module _ (store : IsStore E) (db : Db E) (src dst m : List ℕ) (now version : ℕ)
      (es fs : List Entry) (hs : IsU64 (length src)) (hd : IsU64 (length dst)) (ne : src ≢ dst)
      (hv : IsU64 version) (small : IsU64 (length (add m fs))) (from : HoldsSet E db src now es)
      (to : HoldsSet E db dst now fs) where
    -- The member is in the source's set after `db'`, or not.
    abbrev Moved : Bool → Db E → Type 0
    Moved there db' =
        HoldsSet E db' src now (without m es)
        × HoldsSet E db' dst now (if there then add m fs else fs)
        × PairFrame E sets src dst db db'

    ne' : dst ≢ src
    ne' e = ne (sym e)

    module _ (sm : SimpleMeta) (s : Stored E sets db src now sm es) (there : contains es m ≡ true)
        (dm : SimpleMeta) (b : DbBatch) (counts : Counts sets now dm (length fs))
        (pending : Pending E sets db b dst fs) (no_meta : b.meta_ks ≡ []) where
      abbrev taken : DbBatch
      taken = rm_weak_data (member db.kc src m) b

      abbrev left : DbBatch
      left = leave E db src sm taken

      left_pending : PairPending E sets db left src dst (without m es) fs
      left_pending = PairPending-leave E db src dst sm taken (without m es) fs (
          PairPending-rm_weak E sets db b src dst es fs from.free.scope hs hd ne ne' m
            (member db.kc src m)
            (PairPending-second E sets db b src dst es fs from.free.scope hs hd ne' s.fields
              pending)
            (member-prefix db.kc src m))

      -- The source's set after the commit of a batch that ends with what `leave` queues for it.
      source_after :
          (last : DbBatch) (gs : List Entry)
          → PairPending E sets db last src dst (without m es) gs
          → after_meta E db last (meta db.kc src) ≡ after_meta E db left (meta db.kc src)
          → HoldsSet E (commit E db last) src now (without m es)
      unfolding commit
      source_after last gs p own =
          let size : length (without m es) ≡ sm.base.size - 1 =
            omega (arith, length-without m es from.ascending there, s.counts.size) in
          Holds-read E (commit E db last) src now (sm.base.size - 1) (length es) sm (without m es)
            (Free-PairFrame E sets store sets-IsKind src dst src db (commit E db last) now
              (commit-PairFrame E sets db last src dst (without m es) gs store p) from.free)
            (without-Ascending m es from.ascending) (let h = s.counts.valid.size in omega arith)
            s.counts size
            (store.get-commit last.meta_ks db.meta_ks (meta db.kc src)
              ∙ own
              ∙ after-leave E db src sm taken (meta db.kc src)
              ∙ rw (bytes_eq_refl (meta db.kc src)) refl)
            (λ f. store.get-commit last.data_ks db.data_ks _ ∙ p.first f)

      -- The member is in the other set too.
      Moved-known : contains fs m ≡ true → Moved true (commit E db left)
      unfolding commit add rm_weak_data effect
      Moved-known known = (
        source_after left fs left_pending refl,
        rw known (
            Holds-kept E db (commit E db left) dst now fs refl
              (Free-PairFrame E sets store sets-IsKind src dst dst db (commit E db left) now frame
                to.free)
              (store.get-commit left.meta_ks db.meta_ks (meta db.kc dst)
                ∙ after-leave E db src sm taken (meta db.kc dst)
                ∙ rw
                    (
                      differ (meta db.kc src) (meta db.kc dst)
                          (other_meta_key sets db.kc src dst ne),
                      no_meta,
                    )
                    refl)
              (λ f. store.get-commit left.data_ks db.data_ks _ ∙ left_pending.second f) to),
        frame,
      )
        where
          frame : PairFrame E sets src dst db (commit E db left)
          frame = commit-PairFrame E sets db left src dst (without m es) fs store left_pending

      abbrev grown : SimpleMeta
      grown = with_size ((dm.base.size + 1) % 2 ^ 64) dm

      abbrev last : DbBatch
      last = insert_meta (meta db.kc dst) (encode grown) (insert_data (member db.kc dst m) [] left)

      -- The member is new in the other set.
      Moved-new : contains fs m ≡ false → Moved true (commit E db last)
      unfolding commit add insert_data
      Moved-new new = (
        source_after last (add m fs) p (
            after-insert_meta E db (insert_data (member db.kc dst m) [] left) (meta db.kc dst)
              (encode grown) (meta db.kc src)
            ∙ rw (differ (meta db.kc dst) (meta db.kc src) (other_meta_key sets db.kc dst src ne'))
                refl),
        Holds-read E (commit E db last) dst now ((dm.base.size + 1) % 2 ^ 64) (length fs) dm
            (add m fs)
            (Free-PairFrame E sets store sets-IsKind src dst dst db (commit E db last) now frame
              to.free)
            (add-Ascending m fs to.ascending) (omega arith) counts size
            (store.get-commit last.meta_ks db.meta_ks (meta db.kc dst)
              ∙ after-insert_meta E db (insert_data (member db.kc dst m) [] left) (meta db.kc dst)
                  (encode grown) (meta db.kc dst)
              ∙ rw
                  (
                    bytes_eq_refl (meta db.kc dst),
                    let z : ((dm.base.size + 1) % 2 ^ 64 == 0) ≡ false =
                          ground (arith, size, longer) in
                        z,
                  )
                  refl)
            (λ f. store.get-commit last.data_ks db.data_ks _ ∙ p.second f),
        frame,
      )
        where
          longer : length (add m fs) ≡ suc (length fs)
          longer = rw new (length-insert_sorted (m, []) fs (absent fs m new))

          size : length (add m fs) ≡ (dm.base.size + 1) % 2 ^ 64
          size = let h = small in rw counts.size (omega (arith, longer))

          p : PairPending E sets db last src dst (without m es) (add m fs)
          p = rw new (
              PairPending-insert_meta E sets db (insert_data (member db.kc dst m) [] left) src dst
                (without m es) _ (meta db.kc dst)
                (PairPending-insert E sets db left src dst (without m es) fs from.free.scope hs hd
                  ne ne' m (member db.kc dst m) left_pending [] (member-prefix db.kc dst m))
                (λ k h g. differ (meta db.kc dst) k g) (encode grown))

          frame : PairFrame E sets src dst db (commit E db last)
          frame = commit-PairFrame E sets db last src dst (without m es) (add m fs) store p

    -- If the engine is a store, two different keys with 64-bit lengths hold the sets `es` and `fs`, and the version
    -- and the second set's size after the call are of 64 bits: `smove` of a string answers whether it is a
    -- member of the first; after it the first set is without it, the second has it too if it was a member
    -- of the first and is the same otherwise, and all that belongs to neither is as before.
    pub smove-moves :
        (db' : Db E) × (smove E db src dst m now version ≡ ok (contains es m, db'))
        × HoldsSet E db' src now (without m es)
        × HoldsSet E db' dst now (if contains es m then add m fs else fs)
        × PairFrame E sets src dst db db'
    unfolding smove smove_between move_member look_up
    smove-moves = elim (live_set-HoldsSet E db src now es from) [
      | inl (e, g) ↦
          rw (differ src dst ne, g, e) (db, refl, unchanged e, to, PairFrame-refl E sets src dst db)
      | inr (sm, s, g) ↦ elim (Bool-cases (contains es m)) [
        | inr outside ↦
            rw (differ src dst ne, g, here sm s, outside, without_absent m es (absent es m outside))
              (db, refl, from, to, PairFrame-refl E sets src dst db)
        | inl inside ↦
            let (dm, is_new, b, prepared, counts, pending, fresh, no_meta) =
              prepare-HoldsSet E store db dst now version fs hv to in
            elim (Bool-cases (contains fs m)) [
              | inl known ↦
                  rw (differ src dst ne, g, here sm s, inside, prepared, test is_new fresh, known)
                    (let (h1, h2, fr) = Moved-known sm s inside dm b counts pending no_meta known in
                      (_, refl, h1, h2, fr))
              | inr new ↦
                  rw (differ src dst ne, g, here sm s, inside, prepared, test is_new fresh, new)
                    (let (h1, h2, fr) = Moved-new sm s inside dm b counts pending no_meta new in
                      (_, refl, h1, h2, fr))
            ]
      ]
    ]
      where
        unchanged : es ≡ [] → HoldsSet E db src now (without m [])
        unchanged e = rw (without_absent m [] refl, ← e) from

        here :
            (sm : SimpleMeta)
            → Stored E sets db src now sm es
            → contains_key E db.data_ks (member db.kc src m) ≡ contains es m
        here sm s = rw (member-prefix db.kc src m, s.fields m) refl

        test :
            (is_new : Bool)
            → Fresh E db dst fs is_new
            → is_new || not (contains_key E db.data_ks (member db.kc dst m)) ≡ not (contains fs m)
        test is_new fresh =
            rw (member-prefix db.kc dst m) (rw (key_for_member-prefix db.kc dst m) at (fresh m))
