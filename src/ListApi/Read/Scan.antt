-- ===== src/ListApi/Read/Scan.antt =====
-- embed/src/api/list/impl.rs, the two ways in which `lrange` reads elements: a scan of the store between
-- the keys of the first and the last, and single reads.
use wedb_embed.Base.{
  ℕ, zero, suc, ◌+◌, ◌-◌, ◌^◌, ◌≤◌, ◌<◌, ◌≡◌, refl, sym, ap, ap₂, ◌∙◌, List, [], ◌∷◌, ◌++◌, true,
  false, arith, ltb, length, map, take, drop, length-take, length-drop, get_elem?, Option, some,
  Bool-cases, inl, inr,
}
use wedb_embed.Bytes.{IsU64, bytes_lt, starts_with, to_be_bytes}
use wedb_embed.Bytes.Order.{bytes_lt_irrefl, bytes_lt_trans}
use wedb_embed.KeyTag.{KeyTag, as_slice}
use wedb_embed.KeyComposer.{KeyComposer}
use wedb_embed.KeyComposer.Keys.{compose_subkey_stack-order}
use wedb_embed.Store.{Engine, IsStore, Entry, Has, Below, Ascending}
use wedb_embed.Store.Ordered.{Ascending-ext}
use wedb_embed.Db.{Db}
use wedb_embed.ListMeta.{ListMeta, wrapping_add}
use wedb_embed.ListApi.Keys.{item}
use wedb_embed.ListApi.Numbers.{prefix, item_lem, key_for_idx-item, wrapping_add-IsU64}
use wedb_embed.ListApi.Items.{Items, get_elem?-none}
use wedb_embed.ListApi.Read.{gather}

module _ {ℓ} {A : Type ℓ} where
  drop-get :
      (xs : List A) (i : ℕ)
      → i < length xs
      → (x : A) × (get_elem? xs i ≡ some x) × (drop i xs ≡ x ∷ drop (suc i) xs)
  drop-get [] i h = absurd (omega arith)
  drop-get (x ∷ xs) zero h = (x, refl, refl)
  drop-get (x ∷ xs) (suc i) h = let (y, g, d) = drop-get xs i (omega arith) in (y, g, d)

  pub get_elem?-drop : (xs : List A) (a i : ℕ) → get_elem? (drop a xs) i ≡ get_elem? xs (a + i)
  get_elem?-drop xs zero i = ap (get_elem? xs) (omega arith)
  get_elem?-drop [] (suc a) i = sym (get_elem?-none [] (suc a + i) (omega arith))
  get_elem?-drop (x ∷ xs) (suc a) i =
      get_elem?-drop xs a i
      ∙ ap (get_elem? (x ∷ xs)) (let e : suc (a + i) ≡ suc a + i = omega arith in e)

  pub get_elem?-take : (xs : List A) (c i : ℕ) → i < c → get_elem? (take c xs) i ≡ get_elem? xs i
  get_elem?-take xs zero i h = absurd (omega arith)
  get_elem?-take [] (suc c) i h = refl
  get_elem?-take (x ∷ xs) (suc c) zero h = refl
  get_elem?-take (x ∷ xs) (suc c) (suc i) h = get_elem?-take xs c i (omega arith)

-- A key between two keys with a prefix has the prefix.
between-starts_with :
    (p r s k : List ℕ)
    → bytes_lt k (p ++ r) ≡ false
    → bytes_lt (p ++ s) k ≡ false
    → starts_with p k ≡ true
unfolding bytes_lt starts_with
between-starts_with [] r s k h g = refl
between-starts_with (x ∷ p) r s [] h g = cc h
between-starts_with (x ∷ p) r s (y ∷ k) h g = ground (arith, between-starts_with p r s k)

some-injective : (x v : List ℕ) → some x ≡ some v → x ≡ v
some-injective x v e = cc e

module _ (kc : KeyComposer) (key : List ℕ) where
  -- The entries of elements with the numbers from `t` on.
  abbrev pub numbered : ℕ → List (List ℕ) → List Entry
  numbered t [] = []
  numbered t (x ∷ xs) = (item kc key t, x) ∷ numbered (t + 1) xs

  pub map-numbered : (t : ℕ) (xs : List (List ℕ)) → map (λ (e : Entry). e.1) (numbered t xs) ≡ xs
  map-numbered t [] = refl
  map-numbered t (x ∷ xs) = ap (◌∷◌ x) (map-numbered (t + 1) xs)

  bytes_lt-item : (s t : ℕ) → IsU64 t → s < t → bytes_lt (item kc key s) (item kc key t) ≡ true
  unfolding item
  bytes_lt-item s t ht h = compose_subkey_stack-order kc (as_slice KeyTag.list_data) key s t ht h

  bytes_lt-item_le : (s t : ℕ) → IsU64 s → t ≤ s → bytes_lt (item kc key s) (item kc key t) ≡ false
  bytes_lt-item_le s t hs h = elim (Bool-cases (bytes_lt (item kc key s) (item kc key t))) [
    | inl b ↦ elim (Bool-cases (ltb t s)) [
      | inl lt ↦ absurd (
          cc (
            sym (bytes_lt_irrefl (item kc key s))
            ∙ bytes_lt_trans (item kc key s) (item kc key t) (item kc key s) b
                (bytes_lt-item t s hs (ground arith))))
      | inr ge ↦ absurd (
          cc (
            sym (bytes_lt_irrefl (item kc key s))
            ∙ ap (λ n. bytes_lt (item kc key s) (item kc key n)) (let e : s ≡ t = ground arith in e)
            ∙ b))
    ]
    | inr b ↦ b
  ]

  Below-numbered :
      (s t : ℕ) (xs : List (List ℕ))
      → s < t
      → t + length xs ≤ 2 ^ 64
      → Below (item kc key s) (numbered t xs)
  Below-numbered s t [] h f = tt
  Below-numbered s t (x ∷ xs) h f = (
    bytes_lt-item s t (omega (arith, f)) h,
    Below-numbered s (t + 1) xs (omega arith) (omega (arith, f)),
  )

  numbered-Ascending :
      (t : ℕ) (xs : List (List ℕ)) → t + length xs ≤ 2 ^ 64 → Ascending (numbered t xs)
  numbered-Ascending t [] f = tt
  numbered-Ascending t (x ∷ xs) f = (
    Below-numbered t (t + 1) xs (omega arith) (omega (arith, f)),
    numbered-Ascending (t + 1) xs (omega (arith, f)),
  )

  Has-numbered :
      (t : ℕ) (xs : List (List ℕ)) (e : Entry)
      → Has e (numbered t xs)
      → (i : ℕ) × (i < length xs) × (e.0 ≡ item kc key (t + i)) × (get_elem? xs i ≡ some e.1)
  Has-numbered t [] e h = absurd h
  Has-numbered t (x ∷ xs) e (inl same) = (
    0,
    omega arith,
    ap (λ (d : Entry). d.0) (sym same) ∙ ap (item kc key) (omega arith),
    ap (λ (d : Entry). some d.1) same,
  )
  Has-numbered t (x ∷ xs) e (inr h) =
      let (i, b, k, v) = Has-numbered (t + 1) xs e h in
      (suc i, omega (arith, b), k ∙ ap (item kc key) (omega arith), v)

  numbered-Has :
      (t i n : ℕ) (xs : List (List ℕ)) (v : List ℕ)
      → n ≡ t + i
      → get_elem? xs i ≡ some v
      → Has (item kc key n, v) (numbered t xs)
  numbered-Has t i n [] v e g = cc g
  numbered-Has t zero n (x ∷ xs) v e g = inl (
      ap₂ (λ (n : ℕ) (w : List ℕ). let e : Entry = (item kc key n, w) in e) (omega (arith, e))
        (some-injective x v g))
  numbered-Has t (suc i) n (x ∷ xs) v e g = inr (numbered-Has (t + 1) i n xs v (omega (arith, e)) g)

  bytes_lt-item-false :
      (s t : ℕ) → IsU64 t → bytes_lt (item kc key s) (item kc key t) ≡ false → t ≤ s
  bytes_lt-item-false s t ht h = elim (Bool-cases (ltb s t)) [
    | inl lt ↦ absurd (cc (sym h ∙ bytes_lt-item s t ht (ground arith)))
    | inr ge ↦ ground arith
  ]

module _ (E : Engine) (db : Db E) (key : List ℕ) (xs : List (List ℕ)) where
  abbrev values_of : List ℕ → Option (List ℕ)
  values_of = E.get db.data_ks

  value_at :
      (head i : ℕ)
      → IsU64 head
      → length xs < 2 ^ 63
      → Items db.kc key values_of head xs
      → i < 2 ^ 64
      → values_of (item db.kc key (wrapping_add head i)) ≡ get_elem? xs i
  value_at head i hh fits it hi =
      it.at (wrapping_add head i) (wrapping_add-IsU64 head i) ∙ ap (get_elem? xs) (ground arith)

  -- Single reads give the elements.
  pub gather-slice :
      (m : ListMeta) (count idx : ℕ)
      → IsU64 m.head
      → length xs < 2 ^ 63
      → Items db.kc key values_of m.head xs
      → idx + count ≤ length xs
      → gather E db key m count idx ≡ take count (drop idx xs)
  unfolding gather
  gather-slice m zero idx hh fits it h = refl
  gather-slice m (suc count) idx hh fits it h =
      let (x, here, rest) = drop-get xs idx (omega (arith, h)) in
      let later = gather-slice m count (idx + 1) hh fits it (omega (arith, h)) in
      rw
        (
          gather,
          key_for_idx-item db.kc key (wrapping_add m.head idx),
          value_at m.head idx hh fits it (omega (arith, h, fits)),
          here,
          rest,
        )
        (ap (◌∷◌ x)
          (later ∙ ap (λ i. take count (drop i xs)) (let e : idx + 1 ≡ suc idx = omega arith in e)))

  -- The scan gives the elements, when the numbers do not go round between its ends.
  pub range-slice :
      (store : IsStore E) (head a count : ℕ)
      → IsU64 head
      → length xs < 2 ^ 63
      → Items db.kc key values_of head xs
      → a + suc count ≤ length xs
      → wrapping_add head a + count < 2 ^ 64
      → E.range db.data_ks
          (item db.kc key (wrapping_add head a))
          (item db.kc key (wrapping_add head a + count))
        ≡ numbered db.kc key (wrapping_add head a) (take (suc count) (drop a xs))
  range-slice store head a count hh fits it h round =
      Ascending-ext (E.range db.data_ks (item db.kc key first) (item db.kc key last))
        (numbered db.kc key first ys)
        (store.range_Ascending db.data_ks (item db.kc key first) (item db.kc key last))
        (numbered-Ascending db.kc key first ys (omega (arith, round, length-ys))) to from
    where
      first : ℕ
      first = wrapping_add head a

      last : ℕ
      last = wrapping_add head a + count

      ys : List (List ℕ)
      ys = take (suc count) (drop a xs)

      length-ys : length ys ≡ suc count
      length-ys = omega (arith, length-take (suc count) (drop a xs), length-drop a xs, h)

      values : (i : ℕ) → i ≤ count → values_of (item db.kc key (first + i)) ≡ get_elem? ys i
      values i hi =
          ap (λ n. values_of (item db.kc key n))
            (let e : first + i ≡ wrapping_add head (a + i) = ground arith in e)
          ∙ value_at head (a + i) hh fits it (omega (arith, h, fits, hi))
          ∙ sym (get_elem?-drop xs a i)
          ∙ sym (get_elem?-take (drop a xs) (suc count) i (omega (arith, hi)))

      to :
          (e : Entry)
          → Has e (E.range db.data_ks (item db.kc key first) (item db.kc key last))
          → Has e (numbered db.kc key first ys)
      to (k, v) m =
          let (g, lo, hi) =
            (store.range_iff db.data_ks (item db.kc key first) (item db.kc key last) k v).0 m in
          let (n, hn, e) =
            it.only k v
              (between-starts_with (prefix db.kc key) (to_be_bytes 8 first) (to_be_bytes 8 last) k
                (rw (← item_lem db.kc key first) lo) (rw (← item_lem db.kc key last) hi))
              g in
          let lower =
            bytes_lt-item-false db.kc key n first (omega (arith, round))
              (ap (λ j. bytes_lt j (item db.kc key first)) (sym e) ∙ lo) in
          let upper =
            bytes_lt-item-false db.kc key last n hn
              (ap (bytes_lt (item db.kc key last)) (sym e) ∙ hi) in
          rw e (
            numbered-Has db.kc key first (n - first) n ys v (omega (arith, lower)) (
              sym (values (n - first) (omega (arith, lower, upper)))
              ∙ ap (λ j. values_of (item db.kc key j))
                  (let r : first + (n - first) ≡ n = omega (arith, lower) in r)
              ∙ ap values_of (sym e)
              ∙ g))

      from :
          (e : Entry)
          → Has e (numbered db.kc key first ys)
          → Has e (E.range db.data_ks (item db.kc key first) (item db.kc key last))
      from (k, v) m =
          let (i, b, e, g) = Has-numbered db.kc key first ys (k, v) m in
          (store.range_iff db.data_ks (item db.kc key first) (item db.kc key last) k v).1 (
            ap values_of e ∙ values i (omega (arith, b, length-ys)) ∙ g,
            ap (λ j. bytes_lt j (item db.kc key first)) e
                ∙ bytes_lt-item_le db.kc key (first + i) first (omega (arith, b, length-ys, round))
                    (omega arith),
            ap (bytes_lt (item db.kc key last)) e
                ∙ bytes_lt-item_le db.kc key last (first + i) round (omega (arith, b, length-ys)),
          )
