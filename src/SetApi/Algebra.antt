-- ===== src/SetApi/Algebra.antt =====
-- embed/src/api/set/algebra.rs: intersection, union and difference of sets. The order in which a
-- `HashSet` yields its members is not said: it is an argument of what answers them. Sorting by size may
-- put sets of one size in any order, here those that come first stay first.
pub mod Closures
mod Examples
pub mod Found
pub mod Keys
pub mod Inter
pub mod Union
pub mod Diff
pub mod Results
use wedb_embed.Base.{
  ℕ, ◌*◌, ◌-◌, ◌^◌, min, List, [], ◌∷◌, Bool, true, false, not, Option, none, some, ltb, leb, ◌==◌,
  if◌then◌else◌, length,
}
use wedb_embed.Store.{Engine}
use wedb_embed.Db.{Db}
use wedb_embed.Outcome.{Result, ok, err, ◌>>=◌}
use wedb_embed.SetApi.{has}
use wedb_embed.SetApi.HashSet.{set_insert, set_remove, retain, is_nil}
use wedb_embed.SetApi.Read.{siter, smembers, sismember, scard}
use wedb_embed.SetApi.Move.{overwrite_set_iter, overwrite_set}

-- `saturating_mul` on 64 bits.
abbrev pub saturating_mul : ℕ → ℕ → ℕ
saturating_mul a b = min (a * b) (2 ^ 64 - 1)

abbrev pub unwrap_or : Bool → Result Bool → Bool
unwrap_or default (ok b) = b
unwrap_or default (err e) = default

unfoldable pub apply_set_limit : Option (List (List ℕ)) → ℕ → ℕ
apply_set_limit none limit = 0
apply_set_limit (some set) limit = if limit == 0 then length set else min (length set) limit

unfoldable pub apply_card_limit : ℕ → ℕ → ℕ
apply_card_limit card limit = if limit == 0 then card else min card limit

unfoldable pub insert_by_card : List ℕ × ℕ → List (List ℕ × ℕ) → List (List ℕ × ℕ)
insert_by_card (k, card) [] = (k, card) ∷ []
insert_by_card (k, card) ((j, other) ∷ rest) =
    let later = insert_by_card (k, card) rest in
    if leb card other then (k, card) ∷ (j, other) ∷ rest else (j, other) ∷ later

-- `sort_unstable_by_key`
unfoldable pub sort_by_card : List (List ℕ × ℕ) → List (List ℕ × ℕ)
unfolding insert_by_card
sort_by_card [] = []
sort_by_card (x ∷ xs) = insert_by_card x (sort_by_card xs)

-- The closures: a member goes into a set, or moves from one to another, or is removed.
abbrev pub collect : List ℕ → List (List ℕ) → Bool × List (List ℕ)
collect m set = (true, set_insert m set)

abbrev pub take_over :
    List ℕ → List (List ℕ) × List (List ℕ) → Bool × (List (List ℕ) × List (List ℕ))
take_over m (current, next_set) =
    let left = set_remove m current in
    if has m current
    then (not (is_nil left), (left, set_insert m next_set))
    else (true, (current, next_set))

abbrev pub strike : List ℕ → List (List ℕ) → Bool × List (List ℕ)
strike m current = let left = set_remove m current in (not (is_nil left), left)

module _ (E : Engine) (db : Db E) (now_ms : ℕ) where
  -- The loop over the sizes: `None` when a set is empty.
  unfoldable pub key_cards : List (List ℕ) → Result (Option (List (List ℕ × ℕ)))
  key_cards [] = ok (some [])
  key_cards (k ∷ keys) =
      let later = key_cards keys in
      scard E db k now_ms >>= (λ card.
        if card == 0
        then ok none
        else (later >>= (λ found. elim found [
          | none ↦ ok none
          | some cards ↦ ok (some ((k, card) ∷ cards))
        ])))

  -- One more set: the few members are looked up in it, or its members in them.
  unfoldable pub sinter_with : List ℕ → ℕ → List (List ℕ) → Result (List (List ℕ))
  unfolding retain siter sismember has
  sinter_with k card current =
      if ltb (saturating_mul (length current) 4) card
      then ok (retain (λ m. unwrap_or false (sismember E db k m now_ms)) current)
      else siter E db k take_over (current, []) now_ms >>= (λ state. ok state.1)

  -- The loop over the other sets.
  unfoldable pub sinter_rest : List (List ℕ × ℕ) → List (List ℕ) → Result (Option (List (List ℕ)))
  unfolding sinter_with
  sinter_rest [] current = ok (some current)
  sinter_rest ((k, card) ∷ rest) current =
      if is_nil current
      then ok none
      else sinter_with k card current >>= (λ next_set. sinter_rest rest next_set)

  unfoldable pub sinter_sorted : List (List ℕ × ℕ) → Result (Option (List (List ℕ)))
  unfolding sinter_rest siter has
  sinter_sorted [] = ok none
  sinter_sorted ((smallest_key, card) ∷ rest) =
      siter E db smallest_key collect [] now_ms >>= (λ current. sinter_rest rest current)

  unfoldable pub compute_sinter_set : List (List ℕ) → Result (Option (List (List ℕ)))
  unfolding key_cards sort_by_card sinter_sorted siter has
  compute_sinter_set [] = ok none
  compute_sinter_set (k ∷ []) = siter E db k collect [] now_ms >>= (λ set. ok (some set))
  compute_sinter_set (k ∷ l ∷ keys) =
      key_cards (k ∷ l ∷ keys)
      >>= (λ found. elim found [ none ↦ ok none | some cards ↦ sinter_sorted (sort_by_card cards) ])

  -- The loop over the keys.
  unfoldable pub union_all : List (List ℕ) → List (List ℕ) → Result (List (List ℕ))
  unfolding siter has
  union_all [] union_set = ok union_set
  union_all (k ∷ keys) union_set =
      siter E db k collect union_set now_ms >>= (λ set. union_all keys set)

  -- The size of the first set is the capacity only.
  unfoldable pub compute_sunion_set : List (List ℕ) → Result (List (List ℕ))
  unfolding scard union_all
  compute_sunion_set [] = ok []
  compute_sunion_set (k ∷ keys) = scard E db k now_ms >>= (λ first_card. union_all (k ∷ keys) [])

  -- One more set: the few members are looked up in it, or its members are removed.
  unfoldable pub sdiff_with : List ℕ → ℕ → List (List ℕ) → Result (List (List ℕ))
  unfolding retain siter sismember has
  sdiff_with k card current =
      if ltb (saturating_mul (length current) 4) card
      then ok (retain (λ m. not (unwrap_or false (sismember E db k m now_ms))) current)
      else siter E db k strike current now_ms

  -- The loop over the other keys.
  unfoldable pub sdiff_rest : List (List ℕ) → List (List ℕ) → Result (Option (List (List ℕ)))
  unfolding sdiff_with scard
  sdiff_rest [] current = ok (some current)
  sdiff_rest (k ∷ keys) current =
      if is_nil current
      then ok none
      else scard E db k now_ms >>= (λ card.
        if card == 0
        then sdiff_rest keys current
        else sdiff_with k card current >>= (λ left. sdiff_rest keys left))

  unfoldable pub compute_sdiff_set : List (List ℕ) → Result (Option (List (List ℕ)))
  unfolding scard siter sdiff_rest has
  compute_sdiff_set [] = ok none
  compute_sdiff_set (k ∷ keys) = scard E db k now_ms >>= (λ first_card.
      if first_card == 0
      then ok none
      else siter E db k collect [] now_ms >>= (λ current. sdiff_rest keys current))

  module _ (into_iter : List (List ℕ) → List (List ℕ)) where
    abbrev pub collected : Option (List (List ℕ)) → List (List ℕ)
    collected none = []
    collected (some set) = into_iter set

    unfoldable pub store_set_opt : List ℕ → Option (List (List ℕ)) → ℕ → Result (ℕ × Db E)
    unfolding overwrite_set_iter overwrite_set
    store_set_opt dst none version = overwrite_set E db dst [] now_ms version
    store_set_opt dst (some set) version =
        overwrite_set_iter E db dst (into_iter set) now_ms version

    unfoldable pub sinter : List (List ℕ) → Result (List (List ℕ))
    unfolding compute_sinter_set
    sinter keys = compute_sinter_set keys >>= (λ set. ok (collected set))

    unfoldable pub sinterstore : List ℕ → List (List ℕ) → ℕ → Result (ℕ × Db E)
    unfolding compute_sinter_set store_set_opt
    sinterstore dst keys version =
        compute_sinter_set keys >>= (λ set. store_set_opt dst set version)

    -- No key, one key, or more.
    unfoldable pub sunion : List (List ℕ) → Result (List (List ℕ))
    unfolding compute_sunion_set smembers
    sunion [] = ok []
    sunion (k ∷ []) = smembers E db k now_ms
    sunion (k ∷ l ∷ keys) = compute_sunion_set (k ∷ l ∷ keys) >>= (λ set. ok (into_iter set))

    unfoldable pub sunionstore : List ℕ → List (List ℕ) → ℕ → Result (ℕ × Db E)
    unfolding compute_sunion_set overwrite_set_iter
    sunionstore dst keys version =
        compute_sunion_set keys
        >>= (λ set. overwrite_set_iter E db dst (into_iter set) now_ms version)

    unfoldable pub sdiff : List (List ℕ) → Result (List (List ℕ))
    unfolding compute_sdiff_set
    sdiff keys = compute_sdiff_set keys >>= (λ set. ok (collected set))

    unfoldable pub sdiffstore : List ℕ → List (List ℕ) → ℕ → Result (ℕ × Db E)
    unfolding compute_sdiff_set store_set_opt
    sdiffstore dst keys version = compute_sdiff_set keys >>= (λ set. store_set_opt dst set version)

  -- No key, one key, or more.
  unfoldable pub sintercard : List (List ℕ) → ℕ → Result ℕ
  unfolding scard compute_sinter_set apply_card_limit apply_set_limit
  sintercard [] limit = ok 0
  sintercard (k ∷ []) limit = scard E db k now_ms >>= (λ card. ok (apply_card_limit card limit))
  sintercard (k ∷ l ∷ keys) limit =
      compute_sinter_set (k ∷ l ∷ keys) >>= (λ set. ok (apply_set_limit set limit))

  -- No key, one key, or more.
  unfoldable pub sdiffcard : List (List ℕ) → ℕ → Result ℕ
  unfolding scard compute_sdiff_set apply_card_limit apply_set_limit
  sdiffcard [] limit = ok 0
  sdiffcard (k ∷ []) limit = scard E db k now_ms >>= (λ card. ok (apply_card_limit card limit))
  sdiffcard (k ∷ l ∷ keys) limit =
      compute_sdiff_set (k ∷ l ∷ keys) >>= (λ set. ok (apply_set_limit set limit))
