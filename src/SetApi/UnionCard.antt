-- ===== src/SetApi/UnionCard.antt =====
-- embed/src/api/set/algebra.rs, `sunioncard`: the size of a union, as the number of the different hashes
-- of the members. The hash function is a package's, and an argument here.
pub mod Count
pub mod Results
mod Examples
use wedb_embed.Base.{
  ℕ, List, [], ◌∷◌, Bool, true, false, ◌||◌, min, ltb, leb, ◌==◌, if◌then◌else◌, length,
}
use wedb_embed.Store.{Engine}
use wedb_embed.Db.{Db}
use wedb_embed.Outcome.{Result, ok, ◌>>=◌}
use wedb_embed.SetApi.Algebra.{apply_card_limit}
use wedb_embed.SetApi.Read.{siter, scard}

-- `HashSet<u64>`, as the list of its numbers.
unfoldable pub has_hash : ℕ → List ℕ → Bool
has_hash h [] = false
has_hash h (x ∷ set) = x == h || has_hash h set

abbrev pub insert_hash : ℕ → List ℕ → List ℕ
insert_hash h set = if has_hash h set then set else h ∷ set

module _ (E : Engine) (db : Db E) (now_ms : ℕ) (rapidhash_v3 : List ℕ → ℕ) where
  -- The closures: with the limit, and without.
  abbrev pub count_up_to : ℕ → List ℕ → List ℕ → Bool × List ℕ
  count_up_to limit m union_set =
      let grown = insert_hash (rapidhash_v3 m) union_set in (ltb (length grown) limit, grown)

  abbrev pub count_all : List ℕ → List ℕ → Bool × List ℕ
  count_all m union_set = (true, insert_hash (rapidhash_v3 m) union_set)

  -- The loops over the keys.
  unfoldable pub card_up_to : ℕ → List (List ℕ) → List ℕ → Result ℕ
  unfolding siter has_hash
  card_up_to limit [] union_set = ok (min (length union_set) limit)
  card_up_to limit (k ∷ keys) union_set =
      siter E db k (count_up_to limit) union_set now_ms
      >>= (λ grown. if leb limit (length grown) then ok limit else card_up_to limit keys grown)

  unfoldable pub card_all : List (List ℕ) → List ℕ → Result ℕ
  unfolding siter has_hash
  card_all [] union_set = ok (length union_set)
  card_all (k ∷ keys) union_set =
      siter E db k count_all union_set now_ms >>= (λ grown. card_all keys grown)

  -- No key, one key, or more.
  unfoldable pub sunioncard : List (List ℕ) → ℕ → Result ℕ
  unfolding scard apply_card_limit card_up_to card_all
  sunioncard [] limit = ok 0
  sunioncard (k ∷ []) limit = scard E db k now_ms >>= (λ card. ok (apply_card_limit card limit))
  sunioncard (k ∷ l ∷ keys) limit =
      if ltb 0 limit then card_up_to limit (k ∷ l ∷ keys) [] else card_all (k ∷ l ∷ keys) []
