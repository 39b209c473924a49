-- ===== src/SetApi/UnionCard/Examples.antt =====
-- The size of the union of two sets in a database in memory, by a hash that does not collide there.
use wedb_embed.Base.{
  ℕ, ◌≡◌, refl, sym, ap, ◌∙◌, List, [], ◌∷◌, true, arith, length, get_or, if◌then◌else◌,
}
use wedb_embed.Bytes.{bytes_eq}
use wedb_embed.Store.{Entry}
use wedb_embed.Store.Memory.{memory, memory-IsStore}
use wedb_embed.Store.Ordered.{look_up}
use wedb_embed.Outcome.{ok}
use wedb_embed.SetApi.HashSet.{Lists}
use wedb_embed.SetApi.Algebra.{apply_card_limit}
use wedb_embed.SetApi.Algebra.Keys.{AllHold}
use wedb_embed.SetApi.Algebra.Union.{in_any}
use wedb_embed.SetApi.UnionCard.{sunioncard}
use wedb_embed.SetApi.UnionCard.Count.{NoCollision}
use wedb_embed.SetApi.UnionCard.Results.{sunioncard-counts}
use wedb_embed.SetApi.Examples.{
  fruits, greens, fruit_set, green_set, both, both-fruits, both-greens,
}

abbrev value : List ℕ → List Entry
value k = if bytes_eq k fruits then fruit_set else green_set

abbrev keys : List (List ℕ)
keys = fruits ∷ greens ∷ []

keys-AllHold : AllHold memory memory-IsStore both 10 value keys
unfolding bytes_eq
keys-AllHold = (both-fruits, (both-greens, tt))

abbrev first_byte : List ℕ → ℕ
first_byte m = get_or m 0 0

-- All members have one byte.
one_byte :
    (x : List ℕ) → in_any memory memory-IsStore both 10 value keys x ≡ true → x ≡ first_byte x ∷ []
unfolding look_up bytes_eq
one_byte [] h = cc h
one_byte (n ∷ []) h = refl
one_byte (n ∷ m ∷ x) h = absurd (ground arith)

first_byte-NoCollision : NoCollision first_byte (in_any memory memory-IsStore both 10 value keys)
first_byte-NoCollision x y hx hy e = one_byte x hx ∙ ap (λ n. n ∷ []) e ∙ sym (one_byte y hy)

sunioncard-counts_example :
    (set : List (List ℕ)) × (sunioncard memory both 10 first_byte keys 2
      ≡ ok (apply_card_limit (length set) 2))
    × Lists set (in_any memory memory-IsStore both 10 value keys)
sunioncard-counts_example =
    sunioncard-counts memory memory-IsStore both 10 value first_byte fruits (greens ∷ []) 2
      keys-AllHold first_byte-NoCollision
