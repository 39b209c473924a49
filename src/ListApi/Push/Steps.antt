-- ===== src/ListApi/Push/Steps.antt =====
-- embed/src/api/list/impl.rs, how each value of a push changes the metadata and the batch.
use wedb_embed.Base.{
  ℕ, suc, ◌+◌, ◌%◌, ◌^◌, ◌<◌, ◌≡◌, refl, List, [], ◌∷◌, ◌++◌, Bool, true, false, arith, length,
  if◌then◌else◌, length-append,
}
use wedb_embed.Bytes.{IsU64}
use wedb_embed.KeyMeta
use wedb_embed.Store.{Engine}
use wedb_embed.Db.{Db, DbBatch}
use wedb_embed.ListMeta
use wedb_embed.ListMeta.{ListMeta, wrapping_add, wrapping_sub, push_index}
use wedb_embed.ListApi.Keys.{with_size}
use wedb_embed.ListApi.Items.{Items-push_left, Items-push_right}
use wedb_embed.ListApi.State.{Window}
use wedb_embed.ListApi.Queue.{Pending, Pending-insert}
use wedb_embed.ListApi.Push.{push_value, push_values}

pub Window-new : (now version : ℕ) → IsU64 version → Window now (ListMeta.new 0 version) 0
unfolding ListMeta.new KeyMeta.new
Window-new now version h = record {
  valid = record {
    base = record { expire = omega arith; version = h; size = omega arith };
    flags = refl;
    head = omega arith;
    tail = omega arith;
  };
  unexpired = ground arith;
  size = refl;
  tail = ground arith;
  fits = omega arith;
}

-- What a push makes of the metadata.
abbrev pub pushed_meta : Bool → ListMeta → ListMeta
pushed_meta left m =
    let (n, moved) = push_index m left in with_size ((moved.base.size + 1) % 2 ^ 64) moved

pub Window-push :
    (now : ℕ) (m : ListMeta) (n : ℕ) (left : Bool)
    → Window now m n
    → n + 1 < 2 ^ 63
    → Window now (pushed_meta left m) (suc n)
unfolding push_index
Window-push now m n true w fits = record {
  valid = record {
    base = record {
      expire = w.valid.base.expire;
      version = w.valid.base.version;
      size = omega arith;
    };
    flags = w.valid.flags;
    head = omega arith;
    tail = w.valid.tail;
  };
  unexpired = w.unexpired;
  size = rw w.size (ground arith);
  tail = rw w.tail (let h = w.valid.head in ground arith);
  fits = omega (arith, fits);
}
Window-push now m n false w fits = record {
  valid = record {
    base = record {
      expire = w.valid.base.expire;
      version = w.valid.base.version;
      size = omega arith;
    };
    flags = w.valid.flags;
    head = w.valid.head;
    tail = omega arith;
  };
  unexpired = w.unexpired;
  size = rw w.size (ground arith);
  tail = rw w.tail (let h = w.valid.head in ground arith);
  fits = omega (arith, fits);
}

abbrev pub push_one : Bool → List ℕ → List (List ℕ) → List (List ℕ)
push_one left v xs = if left then v ∷ xs else xs ++ (v ∷ [])

-- The list after all the values are pushed, one after the other.
unfoldable pub pushed : Bool → List (List ℕ) → List (List ℕ) → List (List ℕ)
pushed left [] xs = xs
pushed left (v ∷ values) xs = pushed left values (push_one left v xs)

pub length-push_one :
    (left : Bool) (v : List ℕ) (xs : List (List ℕ)) → length (push_one left v xs) ≡ suc (length xs)
length-push_one true v xs = refl
length-push_one false v xs = ground (arith, length-append xs (v ∷ []))

module _ (E : Engine) where
  pub Pending-push_value :
      (db : Db E) (key v : List ℕ) (left : Bool) (now : ℕ) (m : ListMeta) (b : DbBatch)
      (xs : List (List ℕ))
      → Window now m (length xs)
      → length xs + 1 < 2 ^ 63
      → Pending E db b key m.head xs
      → let (m', b') = push_value E db key left v (m, b) in
        Window now m' (length (push_one left v xs))
        × Pending E db b' key m'.head (push_one left v xs)
  unfolding push_value push_index
  Pending-push_value db key v true now m b xs w fits p = (
    Window-push now m (length xs) true w fits,
    Pending-insert E db b key m.head (wrapping_sub m.head 1) (wrapping_sub m.head 1) v xs (v ∷ xs) p
        (Items-push_left db.kc key _ _ m.head xs v w.valid.head (omega arith)),
  )
  Pending-push_value db key v false now m b xs w fits p = (
    rw (length-push_one false v xs) (Window-push now m (length xs) false w fits),
    rw w.tail (
        Pending-insert E db b key m.head m.head (wrapping_add m.head (length xs)) v xs
          (xs ++ (v ∷ [])) p
          (Items-push_right db.kc key _ _ m.head xs v w.valid.head (omega arith))),
  )

  pub Pending-push_values :
      (db : Db E) (key : List ℕ) (values : List (List ℕ)) (left : Bool) (now : ℕ) (m : ListMeta)
      (b : DbBatch) (xs : List (List ℕ))
      → Window now m (length xs)
      → length xs + length values < 2 ^ 63
      → Pending E db b key m.head xs
      → let (m', b') = push_values E db key left values (m, b) in
        Window now m' (length (pushed left values xs))
        × Pending E db b' key m'.head (pushed left values xs)
  unfolding push_values pushed
  Pending-push_values db key [] left now m b xs w fits p = (w, p)
  Pending-push_values db key (v ∷ values) left now m b xs w fits p =
      let (w', p') = Pending-push_value db key v left now m b xs w (omega arith) p in
      let (m', b') = push_value E db key left v (m, b) in
      Pending-push_values db key values left now m' b' (push_one left v xs) w'
        (omega (arith, fits, length-push_one left v xs)) p'
