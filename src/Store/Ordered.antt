-- ===== src/Store/Ordered.antt =====
-- Listings in ascending order: their members, and sorting into one.
use wedb_embed.Base.{
  ℕ, ◌≡◌, refl, sym, ap, ap₂, ◌∙◌, List, [], ◌∷◌, true, false, Option, none, some, inl, inr, arith,
  if◌then◌else◌, Bool-cases,
}
use wedb_embed.Bytes.{bytes_eq, bytes_lt}
use wedb_embed.Bytes.Order.{bytes_eq→eq, bytes_eq_refl, bytes_lt_irrefl, bytes_lt_trans}
use wedb_embed.Store.{Entry, Has, Below, Ascending}

pub bytes_lt_total :
    (xs ys : List ℕ) → bytes_lt xs ys ≡ false → bytes_eq xs ys ≡ false → bytes_lt ys xs ≡ true
unfolding bytes_lt bytes_eq
bytes_lt_total [] [] h e = cc
bytes_lt_total [] (y ∷ ys) h e = cc
bytes_lt_total (x ∷ xs) [] h e = refl
bytes_lt_total (x ∷ xs) (y ∷ ys) h e = ground (arith, bytes_lt_total xs ys)

pub bytes_lt→ne : (xs ys : List ℕ) → bytes_lt xs ys ≡ true → bytes_eq xs ys ≡ false
bytes_lt→ne xs ys h = elim (Bool-cases (bytes_eq xs ys)) [
  | inl e ↦ absurd (cc (sym h ∙ ap (bytes_lt xs) (sym (bytes_eq→eq xs ys e)) ∙ bytes_lt_irrefl xs))
  | inr e ↦ e
]

Below-Has :
    (k : List ℕ) (xs : List Entry) (e : Entry) → Below k xs → Has e xs → bytes_lt k e.0 ≡ true
Below-Has k [] e h m = absurd m
Below-Has k (x ∷ xs) e (h, hs) (inl same) = ap (λ y. bytes_lt k y.0) (sym same) ∙ h
Below-Has k (x ∷ xs) e (h, hs) (inr m) = Below-Has k xs e hs m

-- Of two ascending listings with the same members, the first ones are equal.
head_agrees :
    (x y : Entry) (xs ys : List Entry)
    → Ascending (x ∷ xs)
    → Ascending (y ∷ ys)
    → Has x (y ∷ ys)
    → Has y (x ∷ xs)
    → x ≡ y
head_agrees x y xs ys hx hy (inl e) my = sym e
head_agrees x y xs ys hx hy (inr m) (inl e) = e
head_agrees x y xs ys hx hy (inr m) (inr n) = absurd (
    cc (
      sym (bytes_lt_trans x.0 y.0 x.0 (Below-Has x.0 xs y hx.0 n) (Below-Has y.0 ys x hy.0 m))
      ∙ bytes_lt_irrefl x.0))

Has-tail :
    (x : Entry) (xs ys : List Entry) (e : Entry)
    → Below x.0 xs
    → Has e xs
    → Has e (x ∷ ys)
    → Has e ys
Has-tail x xs ys e below m (inl same) = absurd (
    cc (
      sym (Below-Has x.0 xs e below m)
      ∙ ap (λ y. bytes_lt x.0 y.0) (sym same)
      ∙ bytes_lt_irrefl x.0))
Has-tail x xs ys e below m (inr n) = n

-- Ascending listings with the same members are equal.
pub Ascending-ext :
    (xs ys : List Entry)
    → Ascending xs
    → Ascending ys
    → ((e : Entry) → Has e xs → Has e ys)
    → ((e : Entry) → Has e ys → Has e xs)
    → xs ≡ ys
Ascending-ext [] [] hx hy to from = refl
Ascending-ext [] (y ∷ ys) hx hy to from = absurd (from y (inl refl))
Ascending-ext (x ∷ xs) [] hx hy to from = absurd (to x (inl refl))
Ascending-ext (x ∷ xs) (y ∷ ys) hx hy to from = ap₂ ◌∷◌ same (
    Ascending-ext xs ys hx.1 hy.1 (λ e m. Has-tail x xs ys e hx.0 m (rw (← same) at (to e (inr m))))
      (λ e m. Has-tail y ys xs e hy.0 m (rw same at (from e (inr m)))))
  where
    same : x ≡ y
    same = head_agrees x y xs ys hx hy (to x (inl refl)) (from y (inl refl))

-- An entry put in its place, for the one with the same key if there is one.
unfoldable pub insert_sorted : Entry → List Entry → List Entry
insert_sorted e [] = e ∷ []
insert_sorted e (x ∷ xs) =
    let rest = insert_sorted e xs in
    if bytes_lt e.0 x.0 then e ∷ x ∷ xs else if bytes_eq e.0 x.0 then e ∷ xs else x ∷ rest

unfoldable pub look_up : List Entry → List ℕ → Option (List ℕ)
look_up [] k = none
look_up (e ∷ es) k = if bytes_eq e.0 k then some e.1 else look_up es k

pub look_up-insert_sorted :
    (e : Entry) (xs : List Entry) (k : List ℕ)
    → look_up (insert_sorted e xs) k ≡ (if bytes_eq e.0 k then some e.1 else look_up xs k)
unfolding look_up insert_sorted
look_up-insert_sorted e [] k = refl
look_up-insert_sorted e (x ∷ xs) k = elim (Bool-cases (bytes_lt e.0 x.0)) [
  | inl a ↦ rw (a, look_up) refl
  | inr a ↦ elim (Bool-cases (bytes_eq e.0 x.0)) [
    | inl b ↦
        rw (a, b, look_up, ap (λ j. bytes_eq j k) (sym (bytes_eq→eq e.0 x.0 b))) (ground arith)
    | inr b ↦
        rw (a, b, look_up)
          (elim (Bool-cases (bytes_eq x.0 k)) [
            | inl c ↦ rw (c, ap (bytes_eq e.0) (sym (bytes_eq→eq x.0 k c)) ∙ b) refl
            | inr c ↦ rw c (look_up-insert_sorted e xs k)
          ])
  ]
]

Below-insert_sorted :
    (k : List ℕ) (e : Entry) (xs : List Entry)
    → bytes_lt k e.0 ≡ true
    → Below k xs
    → Below k (insert_sorted e xs)
unfolding insert_sorted
Below-insert_sorted k e [] h hs = (h, tt)
Below-insert_sorted k e (x ∷ xs) h (hx, hs) = ground (arith, Below-insert_sorted k e xs h hs)

Below-trans : (j k : List ℕ) (xs : List Entry) → bytes_lt j k ≡ true → Below k xs → Below j xs
Below-trans j k [] h hs = tt
Below-trans j k (x ∷ xs) h (hx, hs) = (bytes_lt_trans j k x.0 h hx, Below-trans j k xs h hs)

pub insert_sorted-Ascending :
    (e : Entry) (xs : List Entry) → Ascending xs → Ascending (insert_sorted e xs)
unfolding insert_sorted
insert_sorted-Ascending e [] h = (tt, tt)
insert_sorted-Ascending e (x ∷ xs) (hx, h) = elim (Bool-cases (bytes_lt e.0 x.0)) [
  | inl a ↦ rw (a, insert_sorted) ((a, Below-trans e.0 x.0 xs a hx), (hx, h))
  | inr a ↦ elim (Bool-cases (bytes_eq e.0 x.0)) [
    | inl b ↦ rw (a, b, insert_sorted) (rw (bytes_eq→eq e.0 x.0 b) hx, h)
    | inr b ↦
        rw (a, b, insert_sorted)
          (
            Below-insert_sorted x.0 e xs (bytes_lt_total e.0 x.0 a b) hx,
            insert_sorted-Ascending e xs h,
          )
  ]
]

pub Has→look_up :
    (xs : List Entry) (k v : List ℕ) → Ascending xs → Has (k, v) xs → look_up xs k ≡ some v
unfolding look_up
Has→look_up [] k v h m = absurd m
Has→look_up (x ∷ xs) k v (hx, h) (inl same) = rw (same, bytes_eq_refl k) refl
Has→look_up (x ∷ xs) k v (hx, h) (inr m) =
    rw (bytes_lt→ne x.0 k (Below-Has x.0 xs (k, v) hx m)) (Has→look_up xs k v h m)

pub look_up→Has : (xs : List Entry) (k v : List ℕ) → look_up xs k ≡ some v → Has (k, v) xs
unfolding look_up
look_up→Has [] k v h = cc h
look_up→Has (x ∷ xs) k v h = elim (Bool-cases (bytes_eq x.0 k)) [
  | inl b ↦ inl (ground (arith, bytes_eq→eq x.0 k b))
  | inr b ↦ inr (look_up→Has xs k v (rw (b, look_up) at h))
]
