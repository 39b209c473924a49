-- ===== src/ListApi/Trim/Steps.antt =====
-- embed/src/api/list/impl.rs: the two loops of `ltrim`, which remove the elements before and behind a range.
use wedb_embed.Base.{
  ℕ, zero, suc, ◌+◌, ◌-◌, ◌^◌, ◌≤◌, ◌<◌, ◌≡◌, refl, sym, ap, ◌∙◌, List, false, ◌&&◌, arith, ltb,
  leb, length, take, drop, length-take, length-drop, get_elem?, none, some, Bool-cases, inl, inr,
  if◌then◌else◌,
}
use wedb_embed.Bytes.{IsU64, bytes_eq, starts_with}
use wedb_embed.Store.{Engine, effect}
use wedb_embed.Db.{Db, DbBatch, batch, rm_weak_data}
use wedb_embed.Db.Laws.{after_data}
use wedb_embed.ListMeta.{wrapping_add, wrapping_sub}
use wedb_embed.ListApi.Keys.{item, key_for_idx}
use wedb_embed.ListApi.Numbers.{prefix, bytes_eq-item, bytes_eq-outside, wrapping_add-IsU64}
use wedb_embed.ListApi.Items.{Items, get_elem?-none}
use wedb_embed.ListApi.Queue.{Pending, written-rm_weak_data}
use wedb_embed.ListApi.Read.Scan.{get_elem?-drop, get_elem?-take}
use wedb_embed.ListApi.Trim.{rm_items}

module _ (E : Engine) (db : Db E) (key : List ℕ) (head : ℕ) where
  -- From the one batch to the other, the elements at the offsets from `lo` to below `hi` are removed.
  record Thinned (b b' : DbBatch) (lo hi : ℕ) : Type 0 where
    at :
        (n : ℕ)
        → IsU64 n
        → after_data E db b' (item db.kc key n) ≡ (
            if leb lo (wrapping_sub n head) && ltb (wrapping_sub n head) hi
            then none
            else after_data E db b (item db.kc key n))
    others :
        (k : List ℕ)
        → starts_with (prefix db.kc key) k ≡ false
        → after_data E db b' k ≡ after_data E db b k
    removes : (k v : List ℕ) → after_data E db b' k ≡ some v → after_data E db b k ≡ some v
    no_meta : b'.meta_ks ≡ b.meta_ks

  rm_items-Thinned :
      (count offset : ℕ) (b : DbBatch)
      → IsU64 head
      → offset + count ≤ 2 ^ 63
      → Thinned b (rm_items E db key head count offset b) offset (offset + count)
  unfolding rm_items rm_weak_data
  rm_items-Thinned zero offset b hh fits = record {
    at = λ n h. ground arith;
    others = λ k h. refl;
    removes = λ k v e. e;
    no_meta = refl;
  }
  rm_items-Thinned (suc count) offset b hh fits =
      let t = wrapping_add head offset in
      let b' = rm_weak_data (key_for_idx db.kc key t) b in
      let later = rm_items-Thinned count (offset + 1) b' hh (omega arith) in
      record {
        at = λ n h.
            later.at n h
            ∙ rw
                (
                  written-rm_weak_data E db b key t (item db.kc key n),
                  bytes_eq-item db.kc key t n (wrapping_add-IsU64 head offset) h,
                )
                (ground arith);
        others = λ k h.
            later.others k h
            ∙ written-rm_weak_data E db b key t k
            ∙ rw (bytes_eq-outside db.kc key k t h) refl;
        removes = λ k v e. elim (Bool-cases (bytes_eq (item db.kc key t) k)) [
          | inl same ↦ cc (
              sym (later.removes k v e)
              ∙ written-rm_weak_data E db b key t k
              ∙ ap (λ u. if u then none else after_data E db b k) same)
          | inr other ↦
              sym (written-rm_weak_data E db b key t k ∙ rw other refl) ∙ later.removes k v e
        ];
        no_meta = later.no_meta;
      }

  -- Both loops leave the elements of the range.
  pub Pending-rm_items :
      (a b : ℕ) (xs : List (List ℕ))
      → IsU64 head
      → length xs < 2 ^ 63
      → a < b
      → b ≤ length xs
      → Items db.kc key (E.get db.data_ks) head xs
      → Pending E db
          (rm_items E db key head (length xs - b) b (rm_items E db key head a 0 batch))
          key
          (wrapping_add head a)
          (take (b - a) (drop a xs))
  Pending-rm_items a b xs hh fits lt le it = record {
    items = record {
      at = λ n h.
          second.at n h
          ∙ rw
              (
                first.at n h,
                (let z : after_data E db batch (item db.kc key n)
                        ≡ get_elem? xs (wrapping_sub n head) =
                      (unfold effect in it.at n h) in
                    z),
              )
              (kept n h);
      only = λ k v p e. it.only k v p (unfold effect in first.removes k v (second.removes k v e));
    };
    others = λ k h. second.others k h ∙ first.others k h ∙ (unfold effect in refl);
    no_meta = second.no_meta ∙ first.no_meta;
  }
    where
      first : Thinned batch (rm_items E db key head a 0 batch) 0 (0 + a)
      first = rm_items-Thinned a 0 batch hh (omega arith)

      second :
          Thinned
            (rm_items E db key head a 0 batch)
            (rm_items E db key head (length xs - b) b (rm_items E db key head a 0 batch))
            b
            (b + (length xs - b))
      second =
          rm_items-Thinned (length xs - b) b (rm_items E db key head a 0 batch) hh (omega arith)

      length-kept : length (take (b - a) (drop a xs)) ≡ b - a
      length-kept = omega (arith, length-take (b - a) (drop a xs), length-drop a xs)

      inside :
          (d : ℕ) → a ≤ d → d < b → get_elem? (take (b - a) (drop a xs)) (d - a) ≡ get_elem? xs d
      inside d ge lt_b =
          get_elem?-take (drop a xs) (b - a) (d - a) (omega arith)
          ∙ get_elem?-drop xs a (d - a)
          ∙ ap (get_elem? xs) (let e : a + (d - a) ≡ d = omega arith in e)

      kept :
          (n : ℕ)
          → IsU64 n
          → (if leb b (wrapping_sub n head) && ltb (wrapping_sub n head) (b + (length xs - b))
              then none
              else if leb 0 (wrapping_sub n head) && ltb (wrapping_sub n head) (0 + a)
              then none
              else get_elem? xs (wrapping_sub n head))
            ≡ get_elem? (take (b - a) (drop a xs)) (wrapping_sub n (wrapping_add head a))
      kept n h = elim (Bool-cases (leb a (wrapping_sub n head) && ltb (wrapping_sub n head) b)) [
        | inl i ↦
            let e : wrapping_sub n (wrapping_add head a) ≡ wrapping_sub n head - a = ground arith in
            rw e (
              (let z = inside (wrapping_sub n head) (ground arith) (ground arith) in ground arith)
              ∙ sym (inside (wrapping_sub n head) (ground arith) (ground arith)))
        | inr o ↦
            rw
              (get_elem?-none (take (b - a) (drop a xs)) (wrapping_sub n (wrapping_add head a))
                (rw length-kept (ground arith)))
              (let z = get_elem?-none xs (wrapping_sub n head) in ground (arith, z))
      ]
