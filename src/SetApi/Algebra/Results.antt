-- ===== src/SetApi/Algebra/Results.antt =====
-- embed/src/api/set/algebra.rs: the commands on intersections and differences.
use wedb_embed.Base.{
  ℕ, ◌≡◌, refl, sym, ap, ◌∙◌, List, [], ◌∷◌, Bool, Option, none, some, length, map, arith, ◌==◌,
  min, if◌then◌else◌,
}
use wedb_embed.Bytes.{IsU64}
use wedb_embed.Store.{Engine, IsStore, Entry}
use wedb_embed.Store.Finite.{contains}
use wedb_embed.Db.{Db}
use wedb_embed.Outcome.{ok, ◌>>=◌}
use wedb_embed.SetApi.{has}
use wedb_embed.SetApi.HashSet.{Lists, has-members, members-Distinct}
use wedb_embed.SetApi.State.{HoldsSet}
use wedb_embed.SetApi.Members.{members}
use wedb_embed.SetApi.Read.{scard}
use wedb_embed.SetApi.Read.Results.{scard-length}
use wedb_embed.SetApi.Algebra.{
  apply_set_limit, apply_card_limit, collected, compute_sinter_set, compute_sdiff_set, sinter,
  sinterstore, sintercard, sdiff, sdiffstore, sdiffcard,
}
use wedb_embed.SetApi.Algebra.Keys.{AllHold, in_all}
use wedb_embed.SetApi.Algebra.Inter.{compute_sinter-Found}
use wedb_embed.SetApi.Algebra.Diff.{in_first, compute_sdiff-Found}
use wedb_embed.SetApi.Algebra.Found.{Found, IsOrder, Lists-collected, Stores, Stores-opt}

pub length-members : (es : List Entry) → length (members es) ≡ length es
length-members [] = refl
length-members (e ∷ es) = ap wedb_embed.Base.suc (length-members es)

same_answer : {A : Type 0} {x y : A} → ok x ≡ ok y → x ≡ y
same_answer h = cc h

-- The number of the members of a set that is found, up to the limit.
counted :
    (found : Option (List (List ℕ))) (test : List ℕ → Bool) (limit : ℕ)
    → Found found test
    → (set : List (List ℕ)) × (apply_set_limit found limit ≡ apply_card_limit (length set) limit)
      × Lists set test
unfolding apply_set_limit apply_card_limit has
counted none test limit h = ([], ground arith, record { each_once = tt; just = λ s. sym (h s) })
counted (some set) test limit h = (set, refl, h)

module _ (E : Engine) (store : IsStore E) (db : Db E) (now : ℕ) (value : List ℕ → List Entry)
    (k : List ℕ) (keys : List (List ℕ)) (all : AllHold E store db now value (k ∷ keys)) where
  pub one_card :
      (test : List ℕ → Bool) (limit : ℕ)
      → ((s : List ℕ) → contains (value k) s ≡ test s)
      → (set : List (List ℕ)) × ((scard E db k now >>= λ card. ok (apply_card_limit card limit))
          ≡ ok (apply_card_limit (length set) limit))
        × Lists set test
  one_card test limit just = (
    members (value k),
    rw (scard-length E db k now (value k) all.0, length-members (value k)) refl,
    record {
      each_once = members-Distinct (value k) all.0.ascending;
      just = λ s. has-members s (value k) ∙ just s;
    },
  )

module _ (E : Engine) (store : IsStore E) (db : Db E) (now : ℕ) (value : List ℕ → List Entry) where
  sintercard-counts :
      (k : List ℕ) (keys : List (List ℕ)) (limit : ℕ)
      → AllHold E store db now value (k ∷ keys)
      → (set : List (List ℕ)) × (sintercard E db now (k ∷ keys) limit
          ≡ ok (apply_card_limit (length set) limit))
        × Lists set (in_all E store db now value (k ∷ keys))
  unfolding sintercard
  sintercard-counts k [] limit all =
      one_card E store db now value k [] all _ limit (λ s. ground arith)
  sintercard-counts k (l ∷ keys) limit all =
      let (found, e, h) = compute_sinter-Found E store db now value k (l ∷ keys) all in
      let (set, c, just) = counted found _ limit h in (set, rw e (ap ok c), just)

  sdiffcard-counts :
      (k : List ℕ) (keys : List (List ℕ)) (limit : ℕ)
      → AllHold E store db now value (k ∷ keys)
      → (set : List (List ℕ)) × (sdiffcard E db now (k ∷ keys) limit
          ≡ ok (apply_card_limit (length set) limit))
        × Lists set (in_first E store db now value (k ∷ keys))
  unfolding sdiffcard
  sdiffcard-counts k [] limit all =
      one_card E store db now value k [] all _ limit (λ s. ground arith)
  sdiffcard-counts k (l ∷ keys) limit all =
      let (found, e, h) = compute_sdiff-Found E store db now value (k ∷ l ∷ keys) all in
      let (set, c, just) = counted found _ limit h in (set, rw e (ap ok c), just)

  module _ (into_iter : List (List ℕ) → List (List ℕ)) (order : IsOrder into_iter) (k : List ℕ)
      (keys : List (List ℕ)) (all : AllHold E store db now value (k ∷ keys)) where
    -- If the engine is a store, each of the keys, one or more, holds its set, and a hash set yields each of its
    -- members once: `sinter` answers just the strings that are in all of the sets, each once, and
    -- `sintercard` how many there are, or the limit if that is less and not 0.
    pub sinter-Lists :
        (limit : ℕ)
        → ((set : List (List ℕ)) × (sinter E db now into_iter (k ∷ keys) ≡ ok set)
            × Lists set (in_all E store db now value (k ∷ keys)))
          × ((set : List (List ℕ)) × (sintercard E db now (k ∷ keys) limit
                ≡ ok (apply_card_limit (length set) limit))
              × Lists set (in_all E store db now value (k ∷ keys)))
    unfolding sinter
    sinter-Lists limit =
        let (found, e, h) = compute_sinter-Found E store db now value k keys all in
        (
          (
            collected E db now into_iter found,
            rw e refl,
            Lists-collected E db now into_iter found _ order h,
          ),
          sintercard-counts k keys limit all,
        )

    -- If the engine is a store, each of the keys, one or more, holds its set, and a hash set yields each of its
    -- members once: `sdiff` answers just the strings that are in the first of the sets and in none of the
    -- others, each once, and `sdiffcard` how many there are, or the limit if that is less and not 0.
    pub sdiff-Lists :
        (limit : ℕ)
        → ((set : List (List ℕ)) × (sdiff E db now into_iter (k ∷ keys) ≡ ok set)
            × Lists set (in_first E store db now value (k ∷ keys)))
          × ((set : List (List ℕ)) × (sdiffcard E db now (k ∷ keys) limit
                ≡ ok (apply_card_limit (length set) limit))
              × Lists set (in_first E store db now value (k ∷ keys)))
    unfolding sdiff
    sdiff-Lists limit =
        let (found, e, h) = compute_sdiff-Found E store db now value (k ∷ keys) all in
        (
          (
            collected E db now into_iter found,
            rw e refl,
            Lists-collected E db now into_iter found _ order h,
          ),
          sdiffcard-counts k keys limit all,
        )

    module _ (dst : List ℕ) (version : ℕ) (old : List Entry) (found : Option (List (List ℕ)))
        (hv : IsU64 version) (holds : HoldsSet E db dst now old)
        (small : IsU64 (length (collected E db now into_iter found))) where
      -- If moreover `dst` holds a set, and the version and the size of the intersection are of 64 bits: `sinterstore`
      -- makes the set at `dst` just the intersection, answers its size, and changes nothing else.
      pub sinterstore-Stores :
          compute_sinter_set E db now (k ∷ keys) ≡ ok found
          → Stores E db now dst
              (sinterstore E db now into_iter dst (k ∷ keys) version)
              (in_all E store db now value (k ∷ keys))
      unfolding sinterstore
      sinterstore-Stores e =
          let (other, e', h) = compute_sinter-Found E store db now value k keys all in
          rw e (
            Stores-opt E db now store into_iter order dst version _ old hv holds found small
              (rw (same_answer (sym e' ∙ e)) at h))

      -- If moreover `dst` holds a set, and the version and the size of the difference are of 64 bits: `sdiffstore`
      -- makes the set at `dst` just the difference, answers its size, and changes nothing else.
      pub sdiffstore-Stores :
          compute_sdiff_set E db now (k ∷ keys) ≡ ok found
          → Stores E db now dst
              (sdiffstore E db now into_iter dst (k ∷ keys) version)
              (in_first E store db now value (k ∷ keys))
      unfolding sdiffstore
      sdiffstore-Stores e =
          let (other, e', h) = compute_sdiff-Found E store db now value (k ∷ keys) all in
          rw e (
            Stores-opt E db now store into_iter order dst version _ old hv holds found small
              (rw (same_answer (sym e' ∙ e)) at h))
