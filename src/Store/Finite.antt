-- ===== src/Store/Finite.antt =====
-- Ascending listings as finite maps: what is in them, removal, and their sizes.
use wedb_embed.Base.{
  ℕ, suc, ◌≡◌, refl, sym, ap, ◌∙◌, List, [], ◌∷◌, Bool, true, false, Option, none, some, inl, inr,
  arith, if◌then◌else◌, length, Bool-cases,
}
use wedb_embed.Bytes.{bytes_eq, bytes_lt}
use wedb_embed.Bytes.Order.{bytes_eq→eq, bytes_eq_refl, bytes_lt_irrefl, bytes_lt_trans}
use wedb_embed.Store.{Entry, Below, Ascending}
use wedb_embed.Store.Ordered.{look_up, insert_sorted, bytes_lt→ne}

abbrev pub is_some : Option (List ℕ) → Bool
is_some none = false
is_some (some v) = true

-- The key has a value in the listing.
abbrev pub contains : List Entry → List ℕ → Bool
contains es k = is_some (look_up es k)

unfoldable pub without : List ℕ → List Entry → List Entry
without k [] = []
without k (e ∷ es) = let rest = without k es in if bytes_eq k e.0 then rest else e ∷ rest

pub look_up-without :
    (k j : List ℕ) (es : List Entry)
    → look_up (without k es) j ≡ (if bytes_eq k j then none else look_up es j)
unfolding look_up without
look_up-without k j [] = ground arith
look_up-without k j (e ∷ es) = elim (Bool-cases (bytes_eq k e.0)) [
  | inl b ↦ rw (b, look_up) (look_up-without k j es ∙ (rw (bytes_eq→eq k e.0 b) (ground arith)))
  | inr b ↦
      rw (b, look_up)
        (elim (Bool-cases (bytes_eq e.0 j)) [
          | inl c ↦ rw (c, ap (bytes_eq k) (sym (bytes_eq→eq e.0 j c)) ∙ b) refl
          | inr c ↦ rw c (look_up-without k j es)
        ])
]

Below-without : (j k : List ℕ) (es : List Entry) → Below j es → Below j (without k es)
unfolding without
Below-without j k [] h = tt
Below-without j k (e ∷ es) (he, h) = elim (Bool-cases (bytes_eq k e.0)) [
  | inl b ↦ rw (b, without) (Below-without j k es h)
  | inr b ↦ rw (b, without) (he, Below-without j k es h)
]

pub without-Ascending : (k : List ℕ) (es : List Entry) → Ascending es → Ascending (without k es)
unfolding without
without-Ascending k [] h = tt
without-Ascending k (e ∷ es) (he, h) = elim (Bool-cases (bytes_eq k e.0)) [
  | inl b ↦ rw (b, without) (without-Ascending k es h)
  | inr b ↦ rw (b, without) (Below-without e.0 k es he, without-Ascending k es h)
]

-- A key below all the others has no value.
pub look_up-Below : (k : List ℕ) (es : List Entry) → Below k es → look_up es k ≡ none
unfolding look_up
look_up-Below k [] h = refl
look_up-Below k (e ∷ es) (he, h) = rw (ne, look_up) (look_up-Below k es h)
  where
    ne : bytes_eq e.0 k ≡ false
    ne = elim (Bool-cases (bytes_eq e.0 k)) [
      | inl b ↦ absurd (cc (sym he ∙ ap (bytes_lt k) (bytes_eq→eq e.0 k b) ∙ bytes_lt_irrefl k))
      | inr b ↦ b
    ]

Below-Below : (j k : List ℕ) (xs : List Entry) → bytes_lt j k ≡ true → Below k xs → Below j xs
Below-Below j k [] h hs = tt
Below-Below j k (x ∷ xs) h (hx, hs) = (bytes_lt_trans j k x.0 h hx, Below-Below j k xs h hs)

-- An entry for a key without a value makes the listing longer by one.
pub length-insert_sorted :
    (e : Entry) (es : List Entry)
    → look_up es e.0 ≡ none
    → length (insert_sorted e es) ≡ suc (length es)
unfolding insert_sorted look_up
length-insert_sorted e [] h = refl
length-insert_sorted e (x ∷ xs) h = elim (Bool-cases (bytes_lt e.0 x.0)) [
  | inl a ↦ rw (a, insert_sorted) refl
  | inr a ↦ elim (Bool-cases (bytes_eq e.0 x.0)) [
    | inl b ↦ absurd (
        cc (
          let z : some x.1 ≡ none =
            rw (ap (bytes_eq x.0) (bytes_eq→eq e.0 x.0 b) ∙ bytes_eq_refl x.0, look_up) at h in
          z))
    | inr b ↦ rw (a, b, insert_sorted) (ap suc (length-insert_sorted e xs (ground (arith, h))))
  ]
]

without-Below : (k : List ℕ) (es : List Entry) → Below k es → without k es ≡ es
unfolding without
without-Below k [] h = refl
without-Below k (e ∷ es) (he, h) =
    rw (bytes_lt→ne k e.0 he, without) (ap (λ r. e ∷ r) (without-Below k es h))

-- A removal of a key with a value makes the listing shorter by one.
pub length-without :
    (k : List ℕ) (es : List Entry)
    → Ascending es
    → contains es k ≡ true
    → suc (length (without k es)) ≡ length es
unfolding without look_up
length-without k [] h m = cc m
length-without k (e ∷ es) (he, h) m = elim (Bool-cases (bytes_eq k e.0)) [
  | inl b ↦
      rw (b, without) (ap (λ l. suc (length l)) (without-Below k es (rw (bytes_eq→eq k e.0 b) he)))
  | inr b ↦ elim (Bool-cases (bytes_eq e.0 k)) [
    | inl c ↦ absurd (cc (sym b ∙ ap (bytes_eq k) (bytes_eq→eq e.0 k c) ∙ bytes_eq_refl k))
    | inr c ↦ rw (b, without) (ap suc (length-without k es h (rw (c, look_up) at m)))
  ]
]

-- A removal of a key without a value changes nothing.
pub without_absent : (k : List ℕ) (es : List Entry) → look_up es k ≡ none → without k es ≡ es
unfolding without look_up
without_absent k [] h = refl
without_absent k (e ∷ es) h = elim (Bool-cases (bytes_eq k e.0)) [
  | inl b ↦ absurd (
      cc (
        let z : some e.1 ≡ none =
          rw (ap (bytes_eq e.0) (bytes_eq→eq k e.0 b) ∙ bytes_eq_refl e.0, look_up) at h in
        z))
  | inr b ↦ rw (b, without) (ap (λ r. e ∷ r) (without_absent k es (ground (arith, h))))
]
