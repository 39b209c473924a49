-- ===== src/SmallKey.antt =====
-- embed/src/key_composer/small_key.rs: a key of at most 55 bytes held in a fixed array beside its
-- length, or a longer one on the heap. A write of a slice into the array is `write_at`.
pub mod Laws
use wedb_embed.Base.{
  ℕ, zero, suc, ◌+◌, ◌%◌, List, [], ◌∷◌, ◌++◌, Bool, ltb, leb, ◌==◌, if◌then◌else◌, length, take,
  set, replicate,
}
use wedb_embed.Bytes.{bytes_eq, bytes_lt}

abbrev pub inline_cap : ℕ
inline_cap = 55

pub data SmallKey : Type 0 where
  inline : List ℕ → ℕ → SmallKey
  heap : List ℕ → SmallKey

-- `buf[at..at + s.len()].copy_from_slice(s)`; bytes past the end of the array are not written (the
-- source panics there, and never writes there: `Laws`).
unfoldable pub write_at : ℕ → List ℕ → List ℕ → List ℕ
write_at i [] buf = buf
write_at i (b ∷ s) buf = write_at (i + 1) s (set buf i b)

unfoldable pub zeroed : List ℕ
zeroed = replicate inline_cap 0

unfoldable pub new : SmallKey
new = inline zeroed 0

unfoldable pub from_slice : List ℕ → SmallKey
from_slice s =
    if leb (length s) inline_cap then inline (write_at 0 s zeroed) (length s % 256) else heap s

unfoldable pub push : SmallKey → ℕ → SmallKey
push (inline buf len) b =
    if ltb len inline_cap then inline (set buf len b) (len + 1) else heap (take len buf ++ (b ∷ []))
push (heap v) b = heap (v ++ (b ∷ []))

unfoldable pub extend_from_slice : SmallKey → List ℕ → SmallKey
extend_from_slice (inline buf len) s =
    if leb (len + length s) inline_cap
    then inline (write_at len s buf) (len + length s % 256)
    else heap (take len buf ++ s)
extend_from_slice (heap v) s = heap (v ++ s)

unfoldable pub len : SmallKey → ℕ
len (inline buf n) = n
len (heap v) = length v

unfoldable pub is_empty : SmallKey → Bool
unfolding len
is_empty k = len k == 0

-- A write of slices one behind the other, from a cursor on.
unfoldable pub write_all : ℕ → List (List ℕ) → List ℕ → List ℕ
write_all i [] buf = buf
write_all i (s ∷ ss) buf = write_all (i + length s) ss (write_at i s buf)

unfoldable pub clear : SmallKey → SmallKey
clear (inline buf n) = inline buf 0
clear (heap v) = heap []

-- `as_bytes`, `as_slice`, `to_vec`, `into_vec` and the dereferences: the bytes in use.
unfoldable pub as_bytes : SmallKey → List ℕ
as_bytes (inline buf n) = take n buf
as_bytes (heap v) = v

-- `From<Vec<u8>>`
unfoldable pub from_vec : List ℕ → SmallKey
unfolding from_slice
from_vec v = if leb (length v) inline_cap then from_slice v else heap v

unfoldable pub eq : SmallKey → SmallKey → Bool
unfolding as_bytes
eq a b = bytes_eq (as_bytes a) (as_bytes b)

-- `cmp`, as the test for less.
unfoldable pub lt : SmallKey → SmallKey → Bool
unfolding as_bytes
lt a b = bytes_lt (as_bytes a) (as_bytes b)
