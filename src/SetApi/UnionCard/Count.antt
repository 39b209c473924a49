-- ===== src/SetApi/UnionCard/Count.antt =====
-- embed/src/api/set/algebra.rs, `sunioncard`, on the sets that the keys hold.
use wedb_embed.Base.{
  ℕ, suc, ◌<◌, ◌≤◌, ◌≡◌, refl, sym, ap, ◌∙◌, List, [], ◌∷◌, Bool, true, false, arith, ltb, ◌==◌,
  ==_iff, ==_refl, length, map, inl, inr, ◌⊎◌, Bool-cases,
}
use wedb_embed.Bytes.{bytes_eq}
use wedb_embed.Bytes.Order.{bytes_eq→eq, bytes_eq_refl}
use wedb_embed.Store.{Engine}
use wedb_embed.Db.{Db}
use wedb_embed.SetApi.{has}
use wedb_embed.SetApi.HashSet.{set_insert, has-set_insert}
use wedb_embed.SetApi.Read.Visit.{visit}
use wedb_embed.SetApi.Algebra.{collect}
use wedb_embed.SetApi.Algebra.Closures.{has-visit-collect}
use wedb_embed.SetApi.UnionCard.{has_hash, insert_hash, count_up_to, count_all}

-- More members come, none goes.
pub visit-collect-length : (ms set : List (List ℕ)) → length set ≤ length (visit collect ms set)
unfolding visit
visit-collect-length [] set = omega arith
visit-collect-length (m ∷ ms) set = omega (
  arith,
  visit-collect-length ms (set_insert m set),
  let z : length set ≤ length (set_insert m set) = elim (Bool-cases (has m set)) [
    | inl b ↦ rw b (omega arith)
    | inr b ↦ rw b (omega arith)
  ] in
      z,
)

module _ (hash : List ℕ → ℕ) where
  pub length-map : (set : List (List ℕ)) → length (map hash set) ≡ length set
  length-map [] = refl
  length-map (x ∷ set) = ap suc (length-map set)

module _ (hash : List ℕ → ℕ) (test : List ℕ → Bool) where
  -- Different strings that pass the test have different hashes.
  abbrev pub NoCollision : Type 0
  NoCollision = (x y : List ℕ) → test x ≡ true → test y ≡ true → hash x ≡ hash y → x ≡ y

  abbrev pub Within : List (List ℕ) → Type 0
  Within set = (s : List ℕ) → has s set ≡ true → test s ≡ true

  module _ (distinct : NoCollision) where
    has_hash-map :
        (m : List ℕ) (set : List (List ℕ))
        → test m ≡ true
        → Within set
        → has_hash (hash m) (map hash set) ≡ has m set
    unfolding has_hash has
    has_hash-map m [] tm inside = refl
    has_hash-map m (x ∷ set) tm inside = elim (Bool-cases (bytes_eq x m)) [
      | inl b ↦ rw (b, ap (λ y. hash y == hash m) (bytes_eq→eq x m b) ∙ ==_refl (hash m)) refl
      | inr b ↦
          rw (b, map, differ b) (has_hash-map m set tm (λ s h. inside s (rw h (ground arith))))
    ]
      where
        differ : bytes_eq x m ≡ false → (hash x == hash m) ≡ false
        differ b = elim (Bool-cases (hash x == hash m)) [
          | inl e ↦
              let same =
                distinct x m (inside x (rw (bytes_eq_refl x) refl)) tm
                  ((==_iff (hash x) (hash m)).0 e) in
              absurd (cc (sym b ∙ ap (λ y. bytes_eq y m) same ∙ bytes_eq_refl m))
          | inr e ↦ e
        ]

    insert_hash-map :
        (m : List ℕ) (set : List (List ℕ))
        → test m ≡ true
        → Within set
        → insert_hash (hash m) (map hash set) ≡ map hash (set_insert m set)
    insert_hash-map m set tm inside = elim (Bool-cases (has m set)) [
      | inl b ↦ rw (has_hash-map m set tm inside, b) refl
      | inr b ↦ rw (has_hash-map m set tm inside, b) refl
    ]

    set_insert-Within :
        (m : List ℕ) (set : List (List ℕ)) → test m ≡ true → Within set → Within (set_insert m set)
    set_insert-Within m set tm inside s h = elim (Bool-cases (bytes_eq m s)) [
      | inl b ↦ ap test (sym (bytes_eq→eq m s b)) ∙ tm
      | inr b ↦ inside s (let z = has-set_insert m s set in ground arith)
    ]

    pub visit-collect-Within :
        (ms set : List (List ℕ)) → Within ms → Within set → Within (visit collect ms set)
    visit-collect-Within ms set all inside s h = elim (Bool-cases (has s set)) [
      | inl b ↦ inside s b
      | inr b ↦ all s (let z = has-visit-collect s ms set in ground arith)
    ]

    first_Within : (m : List ℕ) (ms : List (List ℕ)) → Within (m ∷ ms) → test m ≡ true
    unfolding has
    first_Within m ms all = all m (rw (bytes_eq_refl m) refl)

    rest_Within : (m : List ℕ) (ms : List (List ℕ)) → Within (m ∷ ms) → Within ms
    unfolding has
    rest_Within m ms all s h = all s (rw h (ground arith))

    module _ (E : Engine) (db : Db E) (now : ℕ) where
      pub visit-count_all :
          (ms set : List (List ℕ))
          → Within ms
          → Within set
          → visit (count_all E db now hash) ms (map hash set) ≡ map hash (visit collect ms set)
      unfolding visit
      visit-count_all [] set all inside = refl
      visit-count_all (m ∷ ms) set all inside =
          rw (insert_hash-map m set (first_Within m ms all) inside) (
            visit-count_all ms (set_insert m set) (rest_Within m ms all)
              (set_insert-Within m set (first_Within m ms all) inside))

      -- Below the limit all members are counted; else there are as many at least.
      pub visit-count_up_to :
          (limit : ℕ) (ms set : List (List ℕ))
          → length set < limit
          → Within ms
          → Within set
          → let grown = visit (count_up_to E db now hash limit) ms (map hash set) in
            ((length grown < limit) × (grown ≡ map hash (visit collect ms set)))
            ⊎ ((limit ≤ length grown) × (limit ≤ length (visit collect ms set)))
      unfolding visit
      visit-count_up_to limit [] set h all inside = inl (omega (arith, length-map hash set), refl)
      visit-count_up_to limit (m ∷ ms) set h all inside =
          let tm = first_Within m ms all in
          elim (Bool-cases (ltb (length (set_insert m set)) limit)) [
            | inl b ↦
                rw (insert_hash-map m set tm inside, length-map hash (set_insert m set), b)
                  (visit-count_up_to limit ms (set_insert m set) (ground (arith, b))
                    (rest_Within m ms all) (set_insert-Within m set tm inside))
            | inr b ↦
                rw (insert_hash-map m set tm inside, length-map hash (set_insert m set), b)
                  (inr (
                    let z = length-map hash (set_insert m set) in ground (arith, b),
                    let z = visit-collect-length ms (set_insert m set) in ground (arith, b),
                  ))
          ]
