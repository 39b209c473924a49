-- ===== src/Range/Laws.antt =====
-- Which indices a range selects.
use wedb_embed.Base.{ℕ, suc, ◌+◌, ◌-◌, ◌≤◌, ◌<◌, ◌≡◌, ◌↔◌, min, arith}
use wedb_embed.Base.Int.{ℤ, pos, negsuc, ◌+ℤ◌, ◌-ℤ◌, ◌≤ℤ◌}
use wedb_embed.Range.{normalize_range, normalize_bitmap_range}

-- The index `i` of a sequence of `n` is not before `start`, and not after `stop`, where negative bounds
-- count from the end.
abbrev pub NotBefore : ℕ → ℤ → ℕ → Type 0
NotBefore n (pos k) i = k ≤ i
NotBefore n (negsuc k) i = n ≤ i + suc k

abbrev pub NotAfter : ℕ → ℤ → ℕ → Type 0
NotAfter n (pos k) i = i ≤ k
NotAfter n (negsuc k) i = i + suc k ≤ n

abbrev pub Selects : ℤ × ℤ → ℕ → Type 0
Selects (s, e) i = (s ≤ℤ pos i) × (pos i ≤ℤ e)

Selects-from_start :
    (n a b i : ℕ)
    → Selects (normalize_range (pos a) (pos b) (pos n)) i
      ↔ ((i < n) × NotBefore n (pos a) i × NotAfter n (pos b) i)
unfolding normalize_range ◌+ℤ◌ ◌-ℤ◌
Selects-from_start n a b i = ground arith

Selects-to_end :
    (n a b i : ℕ)
    → Selects (normalize_range (pos a) (negsuc b) (pos n)) i
      ↔ ((i < n) × NotBefore n (pos a) i × NotAfter n (negsuc b) i)
unfolding normalize_range ◌+ℤ◌ ◌-ℤ◌
Selects-to_end n a b i = ground arith

Selects-from_end :
    (n a b i : ℕ)
    → Selects (normalize_range (negsuc a) (pos b) (pos n)) i
      ↔ ((i < n) × NotBefore n (negsuc a) i × NotAfter n (pos b) i)
unfolding normalize_range ◌+ℤ◌ ◌-ℤ◌
Selects-from_end n a b i = ground arith

Selects-at_end :
    (n a b i : ℕ)
    → Selects (normalize_range (negsuc a) (negsuc b) (pos n)) i
      ↔ ((i < n) × NotBefore n (negsuc a) i × NotAfter n (negsuc b) i)
unfolding normalize_range ◌+ℤ◌ ◌-ℤ◌
Selects-at_end n a b i = ground arith

-- The normal form of a range selects the indices of the sequence between the two bounds, and no other.
pub normalize_range_iff :
    (n : ℕ) (start stop : ℤ) (i : ℕ)
    → Selects (normalize_range start stop (pos n)) i
      ↔ ((i < n) × NotBefore n start i × NotAfter n stop i)
normalize_range_iff n (pos a) (pos b) i = Selects-from_start n a b i
normalize_range_iff n (pos a) (negsuc b) i = Selects-to_end n a b i
normalize_range_iff n (negsuc a) (pos b) i = Selects-from_end n a b i
normalize_range_iff n (negsuc a) (negsuc b) i = Selects-at_end n a b i

-- The bounds that a bitmap of `n` bytes puts on a range.
abbrev pub Within : ℕ → ℤ × ℤ → Type 0
Within n (s, e) = (pos 0 ≤ℤ s) × (pos 0 ≤ℤ e) × (e ≤ℤ pos (n - 1))

-- The place that an index names among `n` bytes, from the end if it is negative, and the first one if
-- that lies before them.
abbrev pub place : ℕ → ℤ → ℕ
place n (pos a) = a
place n (negsuc b) = n - suc b

abbrev pub Places : ℕ → ℤ → ℤ → ℤ × ℤ → Type 0
Places n start stop range = range ≡ (pos (place n start), pos (min (place n stop) (n - 1)))

module _ (n a b : ℕ) (h : 0 < n) where
  Places-from_start : Places n (pos a) (pos b) (normalize_bitmap_range (pos a) (pos b) (pos n))
  unfolding normalize_bitmap_range ◌+ℤ◌ ◌-ℤ◌
  Places-from_start = ground arith

  Places-to_end : Places n (pos a) (negsuc b) (normalize_bitmap_range (pos a) (negsuc b) (pos n))
  unfolding normalize_bitmap_range ◌+ℤ◌ ◌-ℤ◌
  Places-to_end = ground arith

  Places-from_end : Places n (negsuc a) (pos b) (normalize_bitmap_range (negsuc a) (pos b) (pos n))
  unfolding normalize_bitmap_range ◌+ℤ◌ ◌-ℤ◌
  Places-from_end = ground arith

  Places-at_end :
      Places n (negsuc a) (negsuc b) (normalize_bitmap_range (negsuc a) (negsuc b) (pos n))
  unfolding normalize_bitmap_range ◌+ℤ◌ ◌-ℤ◌
  Places-at_end = ground arith

normalize_bitmap_range-Places :
    (n : ℕ) (start stop : ℤ)
    → 0 < n
    → Places n start stop (normalize_bitmap_range start stop (pos n))
normalize_bitmap_range-Places n (pos a) (pos b) h = Places-from_start n a b h
normalize_bitmap_range-Places n (pos a) (negsuc b) h = Places-to_end n a b h
normalize_bitmap_range-Places n (negsuc a) (pos b) h = Places-from_end n a b h
normalize_bitmap_range-Places n (negsuc a) (negsuc b) h = Places-at_end n a b h

-- The normal form of a bitmap's range, in a bitmap that is not empty, is the places that the two
-- indices name, the second at most the last one: the start is not negative, and the end is an index.
pub normalize_bitmap_range-Within :
    (n : ℕ) (start stop : ℤ)
    → 0 < n
    → Places n start stop (normalize_bitmap_range start stop (pos n))
      × Within n (normalize_bitmap_range start stop (pos n))
normalize_bitmap_range-Within n start stop h =
    let places = normalize_bitmap_range-Places n start stop h in (places, rw places (omega arith))
