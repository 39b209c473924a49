-- ===== src/SetApi/Algebra/Examples.antt =====
-- Intersection, union and difference of two sets in a database in memory.
use wedb_embed.Base.{ℕ, ◌≡◌, refl, List, [], ◌∷◌, some, arith, length, if◌then◌else◌}
use wedb_embed.Bytes.{bytes_eq}
use wedb_embed.Store.{Entry}
use wedb_embed.Store.Memory.{memory, memory-IsStore}
use wedb_embed.Outcome.{ok}
use wedb_embed.SetApi.{has}
use wedb_embed.SetApi.HashSet.{Lists, retain}
use wedb_embed.SetApi.Read.Visit.{visit, siter-visit}
use wedb_embed.SetApi.Read.Results.{scard-length}
use wedb_embed.SetApi.Algebra.{
  collect, take_over, insert_by_card, sort_by_card, key_cards, sinter_with, sinter_rest,
  sinter_sorted, compute_sinter_set, union_all, compute_sunion_set, apply_card_limit, sinter,
  sintercard, sinterstore, sunion, sunionstore, sdiff, sdiffcard,
}
use wedb_embed.SetApi.Algebra.Keys.{AllHold, in_all}
use wedb_embed.SetApi.Algebra.Union.{in_any, sunion-Lists, sunionstore-Stores}
use wedb_embed.SetApi.Algebra.Diff.{in_first}
use wedb_embed.SetApi.Algebra.Found.{IsOrder, Stores}
use wedb_embed.SetApi.Algebra.Results.{sinter-Lists, sdiff-Lists, sinterstore-Stores}
use wedb_embed.SetApi.Examples.{
  fruits, greens, fruit_set, green_set, both, both-fruits, both-greens,
}

abbrev value : List ℕ → List Entry
value k = if bytes_eq k fruits then fruit_set else green_set

abbrev keys : List (List ℕ)
keys = fruits ∷ greens ∷ []

keys-AllHold : AllHold memory memory-IsStore both 10 value keys
unfolding bytes_eq
keys-AllHold = (both-fruits, (both-greens, tt))

-- The order of insertion.
abbrev into_iter : List (List ℕ) → List (List ℕ)
into_iter set = set

into_iter-IsOrder : IsOrder into_iter
into_iter-IsOrder = record { has_same = λ s set. refl; each_once = λ set d. d }

sinter-Lists_example :
    ((set : List (List ℕ)) × (sinter memory both 10 into_iter keys ≡ ok set)
      × Lists set (in_all memory memory-IsStore both 10 value keys))
    × ((set : List (List ℕ)) × (sintercard memory both 10 keys 5
          ≡ ok (apply_card_limit (length set) 5))
        × Lists set (in_all memory memory-IsStore both 10 value keys))
sinter-Lists_example =
    sinter-Lists memory memory-IsStore both 10 value into_iter into_iter-IsOrder fruits
      (greens ∷ []) keys-AllHold 5

sdiff-Lists_example :
    ((set : List (List ℕ)) × (sdiff memory both 10 into_iter keys ≡ ok set)
      × Lists set (in_first memory memory-IsStore both 10 value keys))
    × ((set : List (List ℕ)) × (sdiffcard memory both 10 keys 0
          ≡ ok (apply_card_limit (length set) 0))
        × Lists set (in_first memory memory-IsStore both 10 value keys))
sdiff-Lists_example =
    sdiff-Lists memory memory-IsStore both 10 value into_iter into_iter-IsOrder fruits (greens ∷ [])
      keys-AllHold 0

sunion-Lists_example :
    (set : List (List ℕ)) × (sunion memory both 10 into_iter keys ≡ ok set)
    × Lists set (in_any memory memory-IsStore both 10 value keys)
sunion-Lists_example =
    sunion-Lists memory memory-IsStore both 10 value into_iter into_iter-IsOrder keys keys-AllHold

sinter_found : compute_sinter_set memory both 10 keys ≡ ok (some ((98 ∷ []) ∷ []))
unfolding compute_sinter_set key_cards sort_by_card insert_by_card sinter_sorted sinter_rest
    sinter_with visit has retain bytes_eq
sinter_found =
    rw
      (
        scard-length memory both fruits 10 fruit_set both-fruits,
        scard-length memory both greens 10 green_set both-greens,
        siter-visit memory memory-IsStore both fruits 10 fruit_set collect [] both-fruits,
        siter-visit memory memory-IsStore both greens 10 green_set take_over
            ((98 ∷ []) ∷ (97 ∷ []) ∷ [], []) both-greens,
      )
      refl

sunion_found : compute_sunion_set memory both 10 keys ≡ ok ((99 ∷ []) ∷ (98 ∷ []) ∷ (97 ∷ []) ∷ [])
unfolding compute_sunion_set union_all visit has bytes_eq
sunion_found =
    rw
      (
        scard-length memory both fruits 10 fruit_set both-fruits,
        siter-visit memory memory-IsStore both fruits 10 fruit_set collect [] both-fruits,
        siter-visit memory memory-IsStore both greens 10 green_set collect
            ((98 ∷ []) ∷ (97 ∷ []) ∷ []) both-greens,
      )
      refl

sinterstore-Stores_example :
    Stores memory both 10 greens
      (sinterstore memory both 10 into_iter greens keys 12)
      (in_all memory memory-IsStore both 10 value keys)
sinterstore-Stores_example =
    sinterstore-Stores memory memory-IsStore both 10 value into_iter into_iter-IsOrder fruits
      (greens ∷ []) keys-AllHold greens 12 green_set (some ((98 ∷ []) ∷ [])) (omega arith)
      both-greens (omega arith) sinter_found

sunionstore-Stores_example :
    Stores memory both 10 greens
      (sunionstore memory both 10 into_iter greens keys 12)
      (in_any memory memory-IsStore both 10 value keys)
sunionstore-Stores_example =
    sunionstore-Stores memory memory-IsStore both 10 value into_iter into_iter-IsOrder keys
      keys-AllHold greens 12 green_set ((99 ∷ []) ∷ (98 ∷ []) ∷ (97 ∷ []) ∷ []) (omega arith)
      both-greens sunion_found (omega arith)
