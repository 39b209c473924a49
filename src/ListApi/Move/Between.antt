-- ===== src/ListApi/Move/Between.antt =====
-- embed/src/api/list/move.rs, `lmove` from the list at one key to that at another.
use mathlib.Core.Path.{subst}
use wedb_embed.Base.{
  ℕ, suc, ◌+◌, ◌-◌, ◌^◌, ◌<◌, ◌≡◌, ◌≢◌, refl, ap, ◌∙◌, List, [], ◌∷◌, Bool, true, false, arith,
  ◌==◌, length, some, none, if◌then◌else◌, inl, inr,
}
use wedb_embed.Bytes.{IsU64}
use wedb_embed.Store.{Engine, IsStore}
use wedb_embed.Db.{Db, commit}
use wedb_embed.Outcome.{ok, ◌>>=◌}
use wedb_embed.ListMeta
use wedb_embed.ListMeta.{ListMeta, pop_index, push_index}
use wedb_embed.ListApi.Keys.{meta_key, with_size}
use wedb_embed.ListApi.Items.{Items}
use wedb_embed.ListApi.State.{Free, Window, Stored, HoldsList, get_meta_checked-Stored}
use wedb_embed.Bytes.Order.{differ}
use wedb_embed.ListApi.Push.{push_value}
use wedb_embed.ListApi.Push.Steps.{push_one, length-push_one, pushed_meta, Pending-push_value}
use wedb_embed.ListApi.Push.Results.{prepare-HoldsList}
use wedb_embed.ListApi.Pop.Steps.{view, length-view, Ends-pop, base-pop}
use wedb_embed.ListApi.Pop.Results.{Window-popped}
use wedb_embed.ListApi.Move.{lmove_across, lmove}
use wedb_embed.ListApi.Move.Within.{popped_index, Stored-Window, read_end}
use wedb_embed.ListApi.Move.Across.{
  moving, moving-src, moving-dst, moving-Free, moving-src_meta, moving-dst_meta,
}

abbrev shrunk : ListMeta → Bool → ListMeta
shrunk m left = with_size ((pop_index m left).1.base.size - 1) (pop_index m left).1

shrunk_lem :
    (m : ListMeta) (left : Bool)
    → (pop_index (with_size (m.base.size - 1) m) left).1 ≡ shrunk m left
unfolding pop_index
shrunk_lem m true = refl
shrunk_lem m false = refl

shrunk-Window :
    (now : ℕ) (m : ListMeta) (left : Bool) (n : ℕ)
    → Window now m (suc n)
    → Window now (shrunk m left) n
shrunk-Window now m left n w = subst (Window now (shrunk m left)) one_less (
    Window-popped now m (pop_index m left).1 (suc n) 1 w (base-pop m left)
      (rw one_less (Ends-pop m left n (record { head = w.valid.head; tail = w.tail }))))
  where
    one_less : suc n - 1 ≡ n
    one_less = omega arith

view-nil : (left : Bool) → view left [] ≡ []
view-nil true = refl
view-nil false = refl

module _ (E : Engine) (key : List ℕ) (left : Bool) (now : ℕ) where
  -- A list that an element has left, which is gone if it is empty.
  source-HoldsList :
      (zs : List (List ℕ)) (m : ListMeta) (db : Db E)
      → Free E db key now
      → Window now m (length zs)
      → E.get db.meta_ks (meta_key db.kc key)
        ≡ (if m.base.size == 0 then none else some (ListMeta.encode m))
      → Items db.kc key (E.get db.data_ks) m.head (view left zs)
      → HoldsList E db key now (view left zs)
  source-HoldsList [] m db free w meta items = record {
    free = free;
    value = inl (view-nil left, rw (meta, w.size) refl);
  }
  source-HoldsList (z ∷ zs) m db free w meta items = record {
    free = free;
    value = inr (
      m,
      record {
        nonempty = omega (arith, length-view left (z ∷ zs));
        window = rw (length-view left (z ∷ zs)) w;
        meta =
            meta
            ∙ rw (let c : (m.base.size == 0) ≡ false = (let e = w.size in ground arith) in c) refl;
        items = items;
      },
    );
  }

module _ (E : Engine) (store : IsStore E) (db : Db E) (src dst z : List ℕ) (zs ys : List (List ℕ))
    (left dst_left : Bool) (now version : ℕ) where
  lmove_across-lists :
      (m : ListMeta)
      → src ≢ dst
      → IsU64 (length src)
      → IsU64 (length dst)
      → IsU64 version
      → length ys + 1 < 2 ^ 63
      → HoldsList E db src now (view left (z ∷ zs))
      → Stored E db src now m (view left (z ∷ zs))
      → HoldsList E db dst now ys
      → (db' : Db E) × (lmove_across E db src dst m left dst_left now version ≡ ok (some z, db'))
        × HoldsList E db' src now (view left zs)
        × HoldsList E db' dst now (push_one dst_left z ys)
  unfolding lmove_across push_value commit
  lmove_across-lists m ne hs hd hv fits holds s dst_holds =
      let (dm, b, prepared, wd, p) = prepare-HoldsList E store db dst now version ys hv dst_holds in
      let i = (pop_index m left).0 in
      let (j, moved) = push_index dm dst_left in
      let grown = pushed_meta dst_left dm in
      let left_behind = shrunk m left in
      let empties = left_behind.base.size == 0 in
      let (read, ps) = read_end E db src z zs store m left now s in
      let (wd', pd) = Pending-push_value E db dst z dst_left now dm b ys wd fits p in
      let all =
        moving E db src dst z (ListMeta.encode left_behind) (ListMeta.encode grown) i j empties b in
      let db' = commit E db all in
      (
        db',
        rw
            (
              lmove_across,
              popped_index m left,
              read,
              prepared,
              ◌>>=◌,
              shrunk_lem m left,
              popped_index m left,
            )
            refl,
        source-HoldsList E src left now zs left_behind db'
            (moving-Free E db src dst z (ListMeta.encode left_behind) (ListMeta.encode grown) i j
              empties b store ne hs hd dm.head ys now holds.free p src holds.free)
            (shrunk-Window now m left (length zs) (Stored-Window E db src z zs store m left now s))
            (moving-src_meta E db src dst z (ListMeta.encode left_behind) (ListMeta.encode grown) i
              j empties b store ne hs hd dm.head ys now holds.free p)
            (moving-src E db src dst z (ListMeta.encode left_behind) (ListMeta.encode grown) i j
              empties b store ne hs hd dm.head ys now holds.free p left_behind.head (view left zs)
              ps),
        record {
          free =
              moving-Free E db src dst z (ListMeta.encode left_behind) (ListMeta.encode grown) i j
                empties b store ne hs hd dm.head ys now holds.free p dst dst_holds.free;
          value = inr (
            grown,
            record {
              nonempty = omega (arith, length-push_one dst_left z ys);
              window = wd';
              meta =
                  moving-dst_meta E db src dst z (ListMeta.encode left_behind)
                    (ListMeta.encode grown) i j empties b store ne hs hd dm.head ys now holds.free
                    p;
              items =
                  moving-dst E db src dst z (ListMeta.encode left_behind) (ListMeta.encode grown) i
                    j empties b store ne hs hd dm.head ys now holds.free p grown.head
                    (push_one dst_left z ys) pd;
            },
          );
        },
      )

  -- If the engine is a store, the source holds a list with the element `z` at one end, which is seen from that end
  -- here, and another key of the scope holds `ys`, below 2 ^ 63 - 1 elements, with 64-bit lengths of keys and
  -- versions: `lmove` answers `z`, and after it the source holds the rest and the other key holds `ys` with `z`
  -- at the end that was asked for.
  pub lmove-moves :
      src ≢ dst
      → IsU64 (length src)
      → IsU64 (length dst)
      → IsU64 version
      → length ys + 1 < 2 ^ 63
      → HoldsList E db src now (view left (z ∷ zs))
      → HoldsList E db dst now ys
      → (db' : Db E) × (lmove E db src dst left dst_left now version ≡ ok (some z, db'))
        × HoldsList E db' src now (view left zs)
        × HoldsList E db' dst now (push_one dst_left z ys)
  unfolding lmove
  lmove-moves ne hs hd hv fits holds dst_holds = elim holds.value [
    | inl (e, missing) ↦ absurd (
        let l : length (view left (z ∷ zs)) ≡ 0 = ap length e in
        omega (arith, l, length-view left (z ∷ zs)))
    | inr (m, s) ↦
        let (db', e, src_after, dst_after) =
          lmove_across-lists m ne hs hd hv fits holds s dst_holds in
        (
          db',
          rw
              (
                get_meta_checked-Stored E db src now m (view left (z ∷ zs)) holds.free s,
                ◌>>=◌,
                differ src dst ne,
                (let w = Stored-Window E db src z zs store m left now s in
                    let c : (m.base.size == 0) ≡ false = (let f = w.size in ground arith) in c),
              )
              e,
          src_after,
          dst_after,
        )
  ]
