-- ===== src/SetApi/Members.antt =====
-- Finite sets of byte strings, as the keys of an ascending listing: what the commands on sets are about.
use wedb_embed.Base.{
  ℕ, ◌+◌, ◌≤◌, ◌≡◌, refl, sym, ap, ◌∙◌, List, [], ◌∷◌, true, false, none, inl, inr, arith, length,
  if◌then◌else◌, Bool-cases, Option-cases, map,
}
use wedb_embed.Bytes.{bytes_eq}
use wedb_embed.Bytes.Order.{bytes_eq→eq}
use wedb_embed.Store.{Entry, Ascending}
use wedb_embed.Store.Ordered.{
  look_up, insert_sorted, look_up-insert_sorted, insert_sorted-Ascending,
}
use wedb_embed.Store.Finite.{contains, is_some, without, look_up-without, length-insert_sorted}

-- The members in the order of their bytes.
abbrev pub members : List Entry → List (List ℕ)
members es = map (λ e. e.0) es

unfoldable pub add : List ℕ → List Entry → List Entry
unfolding look_up insert_sorted
add m es = if contains es m then es else insert_sorted (m, []) es

unfoldable pub add_all : List (List ℕ) → List Entry → List Entry
unfolding add
add_all [] es = es
add_all (m ∷ ms) es = add_all ms (add m es)

unfoldable pub without_all : List (List ℕ) → List Entry → List Entry
unfolding without
without_all [] es = es
without_all (m ∷ ms) es = without_all ms (without m es)

pub absent : (es : List Entry) (m : List ℕ) → contains es m ≡ false → look_up es m ≡ none
absent es m h = elim (Option-cases (look_up es m)) [
  | inl e ↦ e
  | inr (v, e) ↦ cc (let z : true ≡ false = rw (e, is_some) at h in z)
]

-- What is in the set after one more member.
pub contains-add :
    (m s : List ℕ) (es : List Entry)
    → contains (add m es) s ≡ (if bytes_eq m s then true else contains es s)
unfolding add
contains-add m s es = elim (Bool-cases (contains es m)) [
  | inl b ↦ elim (Bool-cases (bytes_eq m s)) [
    | inl c ↦ rw (b, c) (ap (contains es) (sym (bytes_eq→eq m s c)) ∙ b)
    | inr c ↦ rw (b, c) refl
  ]
  | inr b ↦
      rw (b, look_up-insert_sorted (m, []) es s)
        (elim (Bool-cases (bytes_eq m s)) [ inl c ↦ rw c refl | inr c ↦ rw c refl ])
]

pub add-Ascending : (m : List ℕ) (es : List Entry) → Ascending es → Ascending (add m es)
unfolding add
add-Ascending m es h = elim (Bool-cases (contains es m)) [
  | inl b ↦ rw b h
  | inr b ↦ rw b (insert_sorted-Ascending (m, []) es h)
]

pub contains-without :
    (m s : List ℕ) (es : List Entry)
    → contains (without m es) s ≡ (if bytes_eq m s then false else contains es s)
contains-without m s es =
    rw (look_up-without m s es)
      (elim (Bool-cases (bytes_eq m s)) [ inl c ↦ rw c refl | inr c ↦ rw c refl ])

pub length-add : (m : List ℕ) (es : List Entry) → length (add m es) ≤ length es + 1
unfolding add
length-add m es = elim (Bool-cases (contains es m)) [
  | inl b ↦ rw b (omega arith)
  | inr b ↦ rw b (omega (arith, length-insert_sorted (m, []) es (absent es m b)))
]
