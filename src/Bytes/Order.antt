-- ===== src/Bytes/Order.antt =====
-- Laws of equality, order and prefixes of byte strings, and big-endian words in that order.
use wedb_embed.Base.{
  ℕ, ◌≡◌, ◌≢◌, Bool-cases, inl, inr, refl, true, false, List, [], ◌∷◌, ◌++◌, arith,
}
use wedb_embed.Bytes.{bytes_eq, bytes_lt, starts_with}

pub bytes_eq_refl : (xs : List ℕ) → bytes_eq xs xs ≡ true
unfolding bytes_eq
bytes_eq_refl [] = refl
bytes_eq_refl (x ∷ xs) = ground (arith, bytes_eq_refl xs)

pub bytes_eq→eq : (xs ys : List ℕ) → bytes_eq xs ys ≡ true → xs ≡ ys
unfolding bytes_eq
bytes_eq→eq [] [] h = refl
bytes_eq→eq [] (y ∷ ys) h = cc
bytes_eq→eq (x ∷ xs) [] h = cc
bytes_eq→eq (x ∷ xs) (y ∷ ys) h = ground (arith, bytes_eq→eq xs ys)

pub starts_with-append : (p r : List ℕ) → starts_with p (p ++ r) ≡ true
unfolding starts_with
starts_with-append [] r = refl
starts_with-append (x ∷ p) r = ground (arith, starts_with-append p r)

pub starts_with→append : (p s : List ℕ) → starts_with p s ≡ true → (r : List ℕ) × (s ≡ p ++ r)
unfolding starts_with
starts_with→append [] s h = (s, refl)
starts_with→append (x ∷ p) [] h = cc
starts_with→append (x ∷ p) (y ∷ s) h =
    let (r, e) = starts_with→append p s (ground arith) in (r, ground arith)

pub bytes_lt_irrefl : (xs : List ℕ) → bytes_lt xs xs ≡ false
unfolding bytes_lt
bytes_lt_irrefl [] = refl
bytes_lt_irrefl (x ∷ xs) = ground (arith, bytes_lt_irrefl xs)

pub bytes_lt_trans :
    (xs ys zs : List ℕ) → bytes_lt xs ys ≡ true → bytes_lt ys zs ≡ true → bytes_lt xs zs ≡ true
unfolding bytes_lt
bytes_lt_trans [] [] zs h k = cc
bytes_lt_trans [] (y ∷ ys) [] h k = cc
bytes_lt_trans [] (y ∷ ys) (z ∷ zs) h k = refl
bytes_lt_trans (x ∷ xs) [] zs h k = cc
bytes_lt_trans (x ∷ xs) (y ∷ ys) [] h k = cc
bytes_lt_trans (x ∷ xs) (y ∷ ys) (z ∷ zs) h k = ground (arith, bytes_lt_trans xs ys zs)

-- A common prefix does not change the order.
pub bytes_lt-append_left : (p xs ys : List ℕ) → bytes_lt (p ++ xs) (p ++ ys) ≡ bytes_lt xs ys
unfolding bytes_lt
bytes_lt-append_left [] xs ys = refl
bytes_lt-append_left (x ∷ p) xs ys = ground (arith, bytes_lt-append_left p xs ys)

pub bytes_eq-append_left : (p xs ys : List ℕ) → bytes_eq (p ++ xs) (p ++ ys) ≡ bytes_eq xs ys
unfolding bytes_eq
bytes_eq-append_left [] xs ys = refl
bytes_eq-append_left (x ∷ p) xs ys = ground (arith, bytes_eq-append_left p xs ys)

pub differ : (j k : List ℕ) → j ≢ k → bytes_eq j k ≡ false
differ j k ne = elim (Bool-cases (bytes_eq j k)) [
  | inl b ↦ absurd (ne (bytes_eq→eq j k b))
  | inr b ↦ b
]
