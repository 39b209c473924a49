-- ===== src/ListApi/Move/Within.antt =====
-- embed/src/api/list/move.rs, `lmove` within one list.
use mathlib.Core.Path.{subst}
use mathlib.Core.List.{reverse, reverse-append}
use wedb_embed.Base.{
  ℕ, suc, ◌^◌, ◌<◌, ◌≡◌, refl, sym, ap, ◌∙◌, List, [], ◌∷◌, ◌++◌, Bool, true, false, not, ◌||◌,
  arith, ◌==◌, length, length-append, some, if◌then◌else◌, inl, inr,
}
use wedb_embed.Bytes.Order.{bytes_eq_refl}
use wedb_embed.Store.{Engine, IsStore, effect}
use wedb_embed.Db.{Db, DbBatch, batch, rm_data, rm_weak_data, insert_data, insert_meta, commit}
use wedb_embed.Outcome.{ok, ◌>>=◌}
use wedb_embed.ListMeta
use wedb_embed.ListMeta.{ListMeta, wrapping_add, wrapping_sub, pop_index, push_index}
use wedb_embed.ListApi.Keys.{meta_key, key_for_idx}
use wedb_embed.ListApi.Items.{Items-push_left, Items-push_right}
use wedb_embed.ListApi.State.{Window, Stored, HoldsList, Gives, Frame-refl, get_meta_checked-Stored}
use wedb_embed.ListApi.Queue.{Pending, Pending-batch, Pending-insert, Pending-rm_data}
use wedb_embed.ListApi.Commit.{commit-insert_meta}
use wedb_embed.ListApi.Pop.Steps.{view, length-view, Ends, Ends-pop, pop_value}
use wedb_embed.ListApi.Move.{same, lmove_within, lmove}

-- The number that is read is the one that is popped.
pub popped_index :
    (m : ListMeta) (left : Bool)
    → (if left then m.head else wrapping_sub m.tail 1) ≡ (pop_index m left).0
unfolding pop_index
popped_index m true = refl
popped_index m false = refl

same-not : (left : Bool) → same left (not left) ≡ false
same-not true = refl
same-not false = refl

-- The metadata after an element went from one end to the other.
abbrev rotated : ListMeta → Bool → ListMeta
rotated m left = (push_index (pop_index m left).1 (not left)).1

Window-rotated :
    (now : ℕ) (m : ListMeta) (left : Bool) (n : ℕ)
    → Window now m (suc n)
    → Window now (rotated m left) (suc n)
unfolding pop_index push_index
Window-rotated now m true n w = record {
  valid = record {
    base = w.valid.base;
    flags = w.valid.flags;
    head = omega arith;
    tail = omega arith;
  };
  unexpired = w.unexpired;
  size = w.size;
  tail = rw w.tail (let h = w.valid.head in let f = w.fits in ground arith);
  fits = w.fits;
}
Window-rotated now m false n w = record {
  valid = record {
    base = w.valid.base;
    flags = w.valid.flags;
    head = omega arith;
    tail = omega arith;
  };
  unexpired = w.unexpired;
  size = w.size;
  tail = rw w.tail (let h = w.valid.head in let f = w.fits in ground arith);
  fits = w.fits;
}

module _ (E : Engine) (db : Db E) (key z : List ℕ) (zs : List (List ℕ)) where
  -- The element comes back at the other end.
  Pending-rotated :
      (m : ListMeta) (left : Bool) (b : DbBatch)
      → length zs < 2 ^ 63
      → Ends (pop_index m left).1 (length zs)
      → Pending E db b key (pop_index m left).1.head (view left zs)
      → let (n, moved) = push_index (pop_index m left).1 (not left) in
        Pending E db
          (insert_data (key_for_idx db.kc key n) z b)
          key
          moved.head
          (view left (zs ++ (z ∷ [])))
  unfolding push_index
  Pending-rotated m true b fits ends p =
      let popped = (pop_index m true).1 in
      rw ends.tail (
        Pending-insert E db b key popped.head popped.head (wrapping_add popped.head (length zs)) z
          zs (zs ++ (z ∷ [])) p
          (Items-push_right db.kc key _ _ popped.head zs z ends.head (omega (arith, fits))))
  Pending-rotated m false b fits ends p =
      let popped = (pop_index m false).1 in
      rw (reverse-append zs (z ∷ [])) (
        Pending-insert E db b key popped.head (wrapping_sub popped.head 1)
          (wrapping_sub popped.head 1) z (reverse zs) (z ∷ reverse zs) p
          (Items-push_left db.kc key _ _ popped.head (reverse zs) z ends.head
            (omega (arith, fits, length-view false zs))))

  module _ (store : IsStore E) (m : ListMeta) (left : Bool) (now : ℕ) where
    pub Stored-Ends : Stored E db key now m (view left (z ∷ zs)) → Ends m (suc (length zs))
    Stored-Ends s = record {
      head = s.window.valid.head;
      tail = rw (← length-view left (z ∷ zs)) s.window.tail;
    }

    pub Stored-Window : Stored E db key now m (view left (z ∷ zs)) → Window now m (suc (length zs))
    Stored-Window s = rw (← length-view left (z ∷ zs)) s.window

    pub read_end :
        Stored E db key now m (view left (z ∷ zs))
        → let n = (pop_index m left).0 in
          (E.get db.data_ks (key_for_idx db.kc key n) ≡ some z)
          × Pending E db
              (rm_weak_data (key_for_idx db.kc key n) batch)
              key
              (pop_index m left).1.head
              (view left zs)
    read_end s =
        pop_value E db key batch m left z zs
          (let w = Stored-Window s in let f = w.fits in omega arith) (Stored-Ends s)
          (unfold effect in (λ j v e. e))
          (Pending-batch E db key m.head (view left (z ∷ zs)) s.items)

    -- More than one element.
    lmove_within-many :
        HoldsList E db key now (view left (z ∷ zs))
        → Stored E db key now m (view left (z ∷ zs))
        → 0 < length zs
        → Gives E db key now
            (lmove_within E db key m left (not left))
            (some z)
            (view left (zs ++ (z ∷ [])))
    unfolding lmove_within
    lmove_within-many holds s many =
        let (read, p) = read_end s in
        let n = (pop_index m left).0 in
        let b = rm_data (key_for_idx db.kc key n) batch in
        let p' =
          Pending-rotated m left b (let w = Stored-Window s in let f = w.fits in omega arith)
            (Ends-pop m left (length zs) (Stored-Ends s))
            (Pending-rm_data E db batch key (pop_index m left).1.head (key_for_idx db.kc key n)
              (view left zs) p) in
        let (t, moved) = push_index (pop_index m left).1 (not left) in
        let b' = insert_data (key_for_idx db.kc key t) z b in
        let (held, frame) =
          commit-insert_meta E store db b' key now moved (view left (zs ++ (z ∷ []))) holds.free
            (omega (arith, length-view left (zs ++ (z ∷ [])), length-append zs (z ∷ [])))
            (rw
              (
                length-view left (zs ++ (z ∷ [])),
                (let e : length (zs ++ (z ∷ [])) ≡ suc (length zs) =
                      omega (arith, length-append zs (z ∷ [])) in
                    e),
              )
              (Window-rotated now m left (length zs) (Stored-Window s)))
            p' in
        (
          commit E db (insert_meta (meta_key db.kc key) (ListMeta.encode moved) b'),
          rw (lmove_within, popped_index m left, read, guard, popped_index m left) refl,
          held,
          frame,
        )
      where
        guard : same left (not left) || m.base.size == 1 ≡ false
        guard = rw (same-not left, (Stored-Window s).size) (ground arith)

    -- One element stays where it is.
    lmove_within-one :
        zs ≡ []
        → Stored E db key now m (view left (z ∷ zs))
        → lmove_within E db key m left (not left) ≡ ok (some z, db)
    unfolding lmove_within
    lmove_within-one e s =
        let (read, p) = read_end s in rw (lmove_within, popped_index m left, read, guard) refl
      where
        guard : same left (not left) || m.base.size == 1 ≡ true
        guard = rw (same-not left, (Stored-Window s).size, e) refl

    lmove_within-Gives :
        (many : List (List ℕ))
        → zs ≡ many
        → HoldsList E db key now (view left (z ∷ zs))
        → Stored E db key now m (view left (z ∷ zs))
        → Gives E db key now
            (lmove_within E db key m left (not left))
            (some z)
            (view left (zs ++ (z ∷ [])))
    lmove_within-Gives [] e holds s = (
      db,
      lmove_within-one e s,
      subst (λ (l : List (List ℕ)). HoldsList E db key now (view left l))
          (ap (λ l. z ∷ l) e ∙ ap (λ l. l ++ (z ∷ [])) (sym e)) holds,
      Frame-refl E key db,
    )
    lmove_within-Gives (y ∷ ys) e holds s =
        lmove_within-many holds s
          (let l : length zs ≡ suc (length ys) = ap length e in omega (arith, l))

  -- If the engine is a store and the key holds a list with the element `z` at one end, which is seen from that
  -- end here: `lmove` from that end to the other end of the same list answers `z`, after it the key holds
  -- the list with `z` at the other end, and all that does not belong to the list is as before.
  pub lmove-rotates :
      (store : IsStore E) (left : Bool) (now version : ℕ)
      → HoldsList E db key now (view left (z ∷ zs))
      → Gives E db key now
          (lmove E db key key left (not left) now version)
          (some z)
          (view left (zs ++ (z ∷ [])))
  unfolding lmove
  lmove-rotates store left now version holds = elim holds.value [
    | inl (e, missing) ↦ absurd (
        let l : length (view left (z ∷ zs)) ≡ 0 = ap length e in
        omega (arith, l, length-view left (z ∷ zs)))
    | inr (m, s) ↦
        let (db', e, held, frame) = lmove_within-Gives store m left now zs refl holds s in
        (
          db',
          rw
              (
                get_meta_checked-Stored E db key now m (view left (z ∷ zs)) holds.free s,
                ◌>>=◌,
                bytes_eq_refl key,
                (let w = Stored-Window store m left now s in
                    let c : (m.base.size == 0) ≡ false = (let f = w.size in ground arith) in c),
              )
              e,
          held,
          frame,
        )
  ]
