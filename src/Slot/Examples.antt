-- ===== src/Slot/Examples.antt =====
-- Concrete keys with a hash tag, and a search as the package documents it.
use wedb_embed.Base.{
  ℕ, suc, ◌≡◌, refl, List, [], ◌∷◌, ◌++◌, arith, none, some, Option, length, ◌==◌, if◌then◌else◌,
  ◌^◌, ◌<◌,
}
use wedb_embed.Slot.{Search, crc16}
use wedb_embed.Slot.Crc.{crc16_bitwise, crc16-bitwise}
use wedb_embed.Slot.HashTag.{Lacks, IsFirst}

unfoldable later : Option ℕ → Option ℕ
later none = none
later (some i) = some (suc i)

unfoldable find : Search
unfolding later
find c [] = none
find c (x ∷ xs) = if x == c then some 0 else later (find c xs)

find-absent : (c : ℕ) (xs : List ℕ) → Lacks c xs → find c xs ≡ none
unfolding find later
find-absent c [] h = refl
find-absent c (x ∷ xs) (h, hs) = ground (arith, find-absent c xs hs)

find-found : (c : ℕ) (xs ys : List ℕ) → Lacks c xs → find c (xs ++ (c ∷ ys)) ≡ some (length xs)
unfolding find later
find-found c [] ys h = ground arith
find-found c (x ∷ xs) ys (h, hs) = ground (arith, find-found c xs ys hs)

find-IsFirst : IsFirst find
find-IsFirst = record { absent = find-absent; found = find-found }

-- `a{user}b`
abbrev tag : List ℕ
tag = 117 ∷ 115 ∷ []

crc16-bitwise_example : (crc16 tag ≡ crc16_bitwise 0 tag) × (crc16 tag < 2 ^ 16)
crc16-bitwise_example = crc16-bitwise tag (omega arith, (omega arith, tt))
