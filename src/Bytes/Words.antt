-- ===== src/Bytes/Words.antt =====
-- Big-endian words: length, bytes, and reading back.
use native.Mathlib.Decide.{dec_lt, ℕ_discrete}
use native.Mathlib.Nat.{pow-suc, one-le-pow, div-add-mod', div-div-eq-div-mul, mod-lt}
use wedb_embed.Base.{
  ℕ, zero, suc, ◌+◌, ◌*◌, ◌/◌, ◌%◌, ◌^◌, ◌<◌, ◌≡◌, refl, ap, List, ◌++◌, arith, length, true, ◌⊎◌,
  inl, inr,
}
use wedb_embed.Bytes.{IsBytes, IsU64, to_be_bytes, from_be, from_be_bytes, bytes_lt}

pub length-to_be_bytes : (n v : ℕ) → length (to_be_bytes n v) ≡ n
unfolding to_be_bytes
length-to_be_bytes zero v = refl
length-to_be_bytes (suc n) v = ap suc (length-to_be_bytes n v)

pub to_be_bytes-IsBytes : (n v : ℕ) → IsBytes (to_be_bytes n v)
unfolding to_be_bytes
to_be_bytes-IsBytes zero v = tt
to_be_bytes-IsBytes (suc n) v = (omega arith, to_be_bytes-IsBytes n v)

-- A word below a product of moduli, in its upper and lower part.
split_mod : (m v : ℕ) → 0 < m → v % (m * 256) ≡ v / m % 256 * m + v % m
split_mod m v h = omega (
  arith,
  div-add-mod' v (m * 256),
  ap (λ (t : ℕ). t * (m * 256)) (div-div-eq-div-mul v m 256),
  div-add-mod' v m,
  ap (λ (t : ℕ). t * m) (div-add-mod' (v / m) 256),
)

split_top : (n v : ℕ) → v % 256 ^ suc n ≡ v / 256 ^ n % 256 * 256 ^ n + v % 256 ^ n
split_top n v = rw pow-suc (split_mod (256 ^ n) v (one-le-pow n 256 (omega arith)))

pub from_be-to_be_bytes :
    (n v acc : ℕ) → from_be acc (to_be_bytes n v) ≡ acc * 256 ^ n + v % 256 ^ n
unfolding to_be_bytes from_be
from_be-to_be_bytes zero v acc = omega arith
from_be-to_be_bytes (suc n) v acc = omega (
  arith,
  from_be-to_be_bytes n v (acc * 256 + v / 256 ^ n % 256),
  split_top n v,
  ap (λ (t : ℕ). acc * t) (pow-suc 256 n),
)

-- Eight bytes hold a 64-bit word exactly.
pub from_be_bytes-to_be_bytes : (v : ℕ) → IsU64 v → from_be_bytes (to_be_bytes 8 v) ≡ v
unfolding from_be_bytes
from_be_bytes-to_be_bytes v h = omega (arith, from_be-to_be_bytes 8 v 0)

lower_part : (n v : ℕ) → v % 256 ^ n < 256 ^ n
lower_part n v = mod-lt v (one-le-pow n 256 (omega arith))

digit_order :
    (m x y r s : ℕ) → r < m → s < m → x * m + r < y * m + s → (x < y) ⊎ ((x ≡ y) × (r < s))
digit_order m x y r s hr hs h = elim (dec_lt x y) [
  | yes p ↦ inl p
  | no p ↦ elim (ℕ_discrete x y) [
    | yes e ↦ inr (e, omega (arith, ap (λ (t : ℕ). t * m) e))
    | no e ↦ absurd (grind arith)
  ]
]

-- Words of one width in the order of bytes are in the order of numbers, whatever follows them.
pub bytes_lt-to_be_bytes :
    (n a b : ℕ) (r s : List ℕ)
    → a % 256 ^ n < b % 256 ^ n
    → bytes_lt (to_be_bytes n a ++ r) (to_be_bytes n b ++ s) ≡ true
unfolding to_be_bytes bytes_lt
bytes_lt-to_be_bytes zero a b r s h = absurd (omega arith)
bytes_lt-to_be_bytes (suc n) a b r s h = elim (top (rw (← split_top n a, ← split_top n b) h)) [
  | inl lt ↦ ground arith
  | inr (e, lt) ↦ ground (arith, bytes_lt-to_be_bytes n a b r s)
]
  where
    top :
        a / 256 ^ n % 256 * 256 ^ n + a % 256 ^ n < b / 256 ^ n % 256 * 256 ^ n + b % 256 ^ n
        → (a / 256 ^ n % 256 < b / 256 ^ n % 256)
          ⊎ ((a / 256 ^ n % 256 ≡ b / 256 ^ n % 256) × (a % 256 ^ n < b % 256 ^ n))
    top = digit_order (256 ^ n) _ _ _ _ (lower_part n a) (lower_part n b)
