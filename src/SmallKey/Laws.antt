-- ===== src/SmallKey/Laws.antt =====
-- embed/src/key_composer/small_key.rs: the operations against those of a `Vec`, on either side of the
-- limit.
use wedb_embed.Base.{
  ℕ, zero, suc, ◌+◌, ◌%◌, ◌≤◌, ◌<◌, ◌≡◌, refl, ap, ◌∙◌, sym, List, [], ◌∷◌, ◌++◌, arith, length,
  take, set, append_assoc, append-nil,
}
use mathlib.Core.List.{flatten}
use native.Mathlib.Numerals.{add-one}
use wedb_embed.SmallKey.{
  SmallKey, inline_cap, zeroed, write_at, write_all, from_slice, push, extend_from_slice, as_bytes,
  from_vec,
}

-- The array has 55 bytes, of which the length counts some.
abbrev pub IsValid : SmallKey → Type 0
IsValid (SmallKey.inline buf n) = (length buf ≡ inline_cap) × (n ≤ inline_cap)
IsValid (SmallKey.heap v) = Unit

length-set : (xs : List ℕ) (i v : ℕ) → length (set xs i v) ≡ length xs
length-set [] i v = refl
length-set (x ∷ xs) zero v = refl
length-set (x ∷ xs) (suc i) v = ap suc (length-set xs i v)

take-set :
    (xs : List ℕ) (i v : ℕ) → i < length xs → take (suc i) (set xs i v) ≡ take i xs ++ (v ∷ [])
take-set [] i v h = absurd (omega arith)
take-set (x ∷ xs) zero v h = refl
take-set (x ∷ xs) (suc i) v h = ap (◌∷◌ x) (take-set xs i v (omega arith))

length-write_at : (i : ℕ) (s buf : List ℕ) → length (write_at i s buf) ≡ length buf
unfolding write_at
length-write_at i [] buf = refl
length-write_at i (b ∷ s) buf = length-write_at (i + 1) s (set buf i b) ∙ length-set buf i b

-- A write that ends inside the array leaves what stood before it, then the slice.
pub take-write_at :
    (s buf : List ℕ) (i n : ℕ)
    → n ≡ i + length s
    → n ≤ length buf
    → take n (write_at i s buf) ≡ take i buf ++ s
unfolding write_at
take-write_at [] buf i n e h =
    ap (λ k. take k buf) (let e' : n ≡ i = omega arith in e') ∙ sym (append-nil (take i buf))
take-write_at (b ∷ s) buf i n e h =
    take-write_at s (set buf i b) (i + 1) n (omega arith) (omega (arith, length-set buf i b))
    ∙ ap (λ l. l ++ s) (rw add-one (take-set buf i b (omega arith)))
    ∙ append_assoc (take i buf) (b ∷ []) s

pub extend_from_slice-IsValid :
    (k : SmallKey) (s : List ℕ) → IsValid k → IsValid (extend_from_slice k s)
unfolding extend_from_slice
extend_from_slice-IsValid (SmallKey.inline buf n) s v = ground (arith, length-write_at n s buf)
extend_from_slice-IsValid (SmallKey.heap w) s v = tt

-- Appending a slice to a valid key appends it to the bytes in use, also where the key moves to the
-- heap.
pub as_bytes-extend_from_slice :
    (k : SmallKey) (s : List ℕ) → IsValid k → as_bytes (extend_from_slice k s) ≡ as_bytes k ++ s
unfolding as_bytes extend_from_slice
as_bytes-extend_from_slice (SmallKey.inline buf n) s v =
    ground (arith, take-write_at s buf n (n + length s % 256))
as_bytes-extend_from_slice (SmallKey.heap w) s v = refl

pub push-IsValid : (k : SmallKey) (b : ℕ) → IsValid k → IsValid (push k b)
unfolding push
push-IsValid (SmallKey.inline buf n) b v = ground (arith, length-set buf n b)
push-IsValid (SmallKey.heap w) b v = tt

-- Pushing a byte to a valid key appends it to the bytes in use, also where the key moves to the
-- heap.
pub as_bytes-push :
    (k : SmallKey) (b : ℕ) → IsValid k → as_bytes (push k b) ≡ as_bytes k ++ (b ∷ [])
unfolding as_bytes push
as_bytes-push (SmallKey.inline buf n) b v = ground (arith, take-set buf n b)
as_bytes-push (SmallKey.heap w) b v = refl

pub length-zeroed : length zeroed ≡ inline_cap
unfolding zeroed
length-zeroed = refl

-- An array that a slice of at most 55 bytes was written to is a valid key with those bytes in use.
pub inline_write :
    (s : List ℕ) (n : ℕ) → n ≡ length s → n ≤ inline_cap → take n (write_at 0 s zeroed) ≡ s
inline_write s n e h = take-write_at s zeroed 0 n (omega arith) (omega (arith, length-zeroed))

write_at-append :
    (s t : List ℕ) (i : ℕ) (buf : List ℕ)
    → write_at i (s ++ t) buf ≡ write_at (i + length s) t (write_at i s buf)
unfolding write_at
write_at-append [] t i buf = ap (λ k. write_at k t buf) (let e : i ≡ i + 0 = omega arith in e)
write_at-append (b ∷ s) t i buf =
    write_at-append s t (i + 1) (set buf i b)
    ∙ ap (λ k. write_at k t (write_at (i + 1) s (set buf i b))) (omega arith)

-- Slices written one behind the other are their concatenation.
pub write_all-flatten :
    (ss : List (List ℕ)) (i : ℕ) (buf : List ℕ) → write_all i ss buf ≡ write_at i (flatten ss) buf
unfolding write_all flatten
write_all-flatten [] i buf = unfold write_at in refl
write_all-flatten (s ∷ ss) i buf =
    write_all-flatten ss (i + length s) (write_at i s buf)
    ∙ sym (write_at-append s (flatten ss) i buf)

-- A slice read into a small key is that slice.
pub from_slice-as_bytes : (s : List ℕ) → as_bytes (from_slice s) ≡ s
unfolding as_bytes from_slice
from_slice-as_bytes s = ground (arith, inline_write s (length s % 256))

pub from_slice-IsValid : (s : List ℕ) → IsValid (from_slice s)
unfolding from_slice
from_slice-IsValid s = ground (arith, length-write_at 0 s zeroed, length-zeroed)

pub from_vec-as_bytes : (s : List ℕ) → as_bytes (from_vec s) ≡ s
unfolding as_bytes from_vec
from_vec-as_bytes s = ground (arith, inline_write s (length s % 256))
