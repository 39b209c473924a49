-- ===== src/ListApi/Pop/Steps.antt =====
-- embed/src/api/list/impl.rs: how each element that is popped changes the metadata and the batch.
use mathlib.Core.List.{reverse, reverse-cons, reverse-reverse}
use wedb_embed.Base.{
  ℕ, zero, suc, ◌^◌, ◌≤◌, ◌<◌, ◌≡◌, refl, sym, ap, ◌∙◌, List, [], ◌∷◌, ◌++◌, append_assoc,
  append-nil, Bool, true, false, arith, length, take, drop, none, some, Bool-cases, inl, inr,
  if◌then◌else◌, length-append, get_elem?,
}
use wedb_embed.Bytes.{IsU64, bytes_eq}
use wedb_embed.Store.{Engine}
use wedb_embed.Db.{Db, DbBatch, rm_weak_data}
use wedb_embed.Db.Laws.{after_data}
use wedb_embed.ListMeta.{ListMeta, wrapping_add, wrapping_sub, pop_index}
use wedb_embed.ListApi.Keys.{item, key_for_idx}
use wedb_embed.ListApi.Numbers.{key_for_idx-item}
use wedb_embed.ListApi.Items.{Items-pop_left, Items-pop_right, get_elem?-append_one}
use wedb_embed.ListApi.Queue.{Pending, Pending-rm, written-rm_weak_data}
use wedb_embed.ListApi.Pop.{pop_loop}

-- The list as it is seen from an end.
abbrev pub view : Bool → List (List ℕ) → List (List ℕ)
view left xs = if left then xs else reverse xs

pub view-view : (left : Bool) (xs : List (List ℕ)) → view left (view left xs) ≡ xs
view-view true xs = refl
view-view false xs = reverse-reverse xs

length-reverse : (xs : List (List ℕ)) → length (reverse xs) ≡ length xs
length-reverse [] = refl
length-reverse (x ∷ xs) =
    ap length (reverse-cons x xs)
    ∙ omega (arith, length-append (reverse xs) (x ∷ []), length-reverse xs)

pub length-view : (left : Bool) (xs : List (List ℕ)) → length (view left xs) ≡ length xs
length-view true xs = refl
length-view false xs = length-reverse xs

-- The two ends of the numbers of `n` elements.
pub record Ends (m : ListMeta) (n : ℕ) : Type 0 where
  pub head : IsU64 m.head
  pub tail : m.tail ≡ wrapping_add m.head n

pub Ends-pop : (m : ListMeta) (left : Bool) (n : ℕ) → Ends m (suc n) → Ends (pop_index m left).1 n
unfolding pop_index
Ends-pop m true n e = record {
  head = omega arith;
  tail = rw e.tail (let h = e.head in ground arith);
}
Ends-pop m false n e = record { head = e.head; tail = rw e.tail (let h = e.head in ground arith) }

pub base-pop : (m : ListMeta) (left : Bool) → (pop_index m left).1.base ≡ m.base
unfolding pop_index
base-pop m true = refl
base-pop m false = refl

module _ (E : Engine) (db : Db E) (key : List ℕ) where
  -- The batch removes elements only.
  abbrev pub Removes : DbBatch → Type 0
  Removes b = (k v : List ℕ) → after_data E db b k ≡ some v → E.get db.data_ks k ≡ some v

  Removes-rm :
      (b : DbBatch) (n : ℕ) → Removes b → Removes (rm_weak_data (key_for_idx db.kc key n) b)
  Removes-rm b n r k v e = elim (Bool-cases (bytes_eq (item db.kc key n) k)) [
    | inl same ↦ cc (
        sym e
        ∙ written-rm_weak_data E db b key n k
        ∙ ap (λ t. if t then none else after_data E db b k) same)
    | inr other ↦ r k v (sym (written-rm_weak_data E db b key n k ∙ rw other refl) ∙ e)
  ]

  -- The element at the end is read, and what is left is pending.
  pub pop_value :
      (b : DbBatch) (m : ListMeta) (left : Bool) (z : List ℕ) (zs : List (List ℕ))
      → length zs < 2 ^ 63
      → Ends m (suc (length zs))
      → Removes b
      → Pending E db b key m.head (view left (z ∷ zs))
      → let (n, moved) = pop_index m left in
        (E.get db.data_ks (key_for_idx db.kc key n) ≡ some z)
        × Pending E db (rm_weak_data (key_for_idx db.kc key n) b) key moved.head (view left zs)
  unfolding pop_index
  pop_value b m true z zs fits ends removes p = (
    rw (key_for_idx-item db.kc key m.head) (
        removes (item db.kc key m.head) z (
          p.items.at m.head ends.head
          ∙ ap (get_elem? (z ∷ zs))
              (let h = ends.head in let z : wrapping_sub m.head m.head ≡ 0 = ground arith in z))),
    Pending-rm E db b key m.head (wrapping_add m.head 1) m.head (z ∷ zs) zs p
        (Items-pop_left db.kc key _ _ m.head z zs ends.head (omega (arith, fits))),
  )
  pop_value b m false z zs fits ends removes p = rw last (
    rw (key_for_idx-item db.kc key (wrapping_add m.head (length (reverse zs)))) (
        removes (item db.kc key (wrapping_add m.head (length (reverse zs)))) z (
          p'.items.at (wrapping_add m.head (length (reverse zs))) (omega arith)
          ∙ ap (get_elem? (reverse zs ++ (z ∷ []))) offset
          ∙ get_elem?-append_one (reverse zs) z (length (reverse zs))
          ∙ ground arith)),
    Pending-rm E db b key m.head m.head (wrapping_add m.head (length (reverse zs)))
        (reverse zs ++ (z ∷ [])) (reverse zs) p'
        (Items-pop_right db.kc key _ _ m.head (reverse zs) z ends.head
          (omega (arith, fits, length-reverse zs))),
  )
    where
      p' : Pending E db b key m.head (reverse zs ++ (z ∷ []))
      p' = rw (← reverse-cons z zs) p

      last : wrapping_sub m.tail 1 ≡ wrapping_add m.head (length (reverse zs))
      last = rw (ends.tail, length-reverse zs) (let h = ends.head in ground arith)

      offset : wrapping_sub (wrapping_add m.head (length (reverse zs))) m.head ≡ length (reverse zs)
      offset = rw (length-reverse zs) (let h = ends.head in ground arith)

  -- The loop takes `n` elements from the end.
  pub pop_loop-take :
      (left : Bool) (n : ℕ) (m : ListMeta) (results : List (List ℕ)) (b : DbBatch)
      (zs : List (List ℕ))
      → n ≤ length zs
      → length zs < 2 ^ 63
      → Ends m (length zs)
      → Removes b
      → Pending E db b key m.head (view left zs)
      → let (m', results', b') = pop_loop E db key left n (m, results, b) in
        (results' ≡ results ++ take n zs)
        × (m'.base ≡ m.base)
        × Ends m' (length (drop n zs))
        × Pending E db b' key m'.head (view left (drop n zs))
  unfolding pop_loop
  pop_loop-take left zero m results b zs h fits ends removes p =
      (sym (append-nil results), refl, ends, p)
  pop_loop-take left (suc n) m results b [] h fits ends removes p = absurd (omega arith)
  pop_loop-take left (suc n) m results b (z ∷ zs) h fits ends removes p =
      let (n', moved) = pop_index m left in
      let b' = rm_weak_data (key_for_idx db.kc key n') b in
      let (read, p') = pop_value b m left z zs (omega arith) ends removes p in
      let (r, base, ends', p'') =
        pop_loop-take left n moved (results ++ (z ∷ [])) b' zs (omega (arith, h)) (omega arith)
          (Ends-pop m left (length zs) ends) (Removes-rm b n' removes) p' in
      rw (pop_loop, read)
        (r ∙ append_assoc results (z ∷ []) (take n zs), base ∙ base-pop m left, ends', p'')
