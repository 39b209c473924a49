-- ===== src/SetApi/Algebra/Diff.antt =====
-- embed/src/api/set/algebra.rs: the difference of the sets that the keys hold.
use wedb_embed.Base.{
  ℕ, ◌≡◌, refl, sym, ◌∙◌, List, [], ◌∷◌, Bool, false, not, ◌&&◌, Option, none, some, arith, length,
  inl, inr, Bool-cases, ltb, ◌==◌, ==_iff,
}
use wedb_embed.Store.{Engine, IsStore, Entry}
use wedb_embed.Store.Finite.{contains}
use wedb_embed.Db.{Db}
use wedb_embed.Outcome.{ok, ◌>>=◌}
use wedb_embed.SetApi.HashSet.{Lists, is_nil, has-retain, retain-Distinct, has-members, has-empty}
use wedb_embed.SetApi.State.{HoldsSet}
use wedb_embed.SetApi.Members.{members}
use wedb_embed.SetApi.Read.Visit.{visit, siter-visit}
use wedb_embed.SetApi.Read.Results.{sismember-contains, scard-length}
use wedb_embed.SetApi.Algebra.{
  strike, unwrap_or, saturating_mul, sdiff_with, sdiff_rest, compute_sdiff_set,
}
use wedb_embed.SetApi.Algebra.Closures.{has-visit-strike, visit-strike-Distinct}
use wedb_embed.SetApi.Algebra.Keys.{AllHold, Lists-siter, contains_nothing}
use wedb_embed.SetApi.Algebra.Union.{in_any}
use wedb_embed.SetApi.Algebra.Found.{Found, Found-cong}

module _ (E : Engine) (store : IsStore E) (db : Db E) (now : ℕ) (value : List ℕ → List Entry) where
  sdiff_with-Lists :
      (k : List ℕ) (card : ℕ) (current : List (List ℕ)) (test : List ℕ → Bool)
      → HoldsSet E db k now (value k)
      → Lists current test
      → (set : List (List ℕ)) × (sdiff_with E db now k card current ≡ ok set)
        × Lists set (λ s. test s && not (contains (value k) s))
  unfolding sdiff_with
  sdiff_with-Lists k card current test holds c =
      elim (Bool-cases (ltb (saturating_mul (length current) 4) card)) [
        | inl few ↦ rw few (
          _,
          refl,
          record {
            each_once = retain-Distinct _ current c.each_once;
            just = λ s.
                has-retain _ s current
                ∙ rw (c.just s, sismember-contains E db k now (value k) holds s, unwrap_or) refl;
          },
        )
        | inr many ↦ (
          visit strike (members (value k)) current,
          rw (many, siter-visit E store db k now (value k) strike current holds) refl,
          record {
            each_once = visit-strike-Distinct (members (value k)) current c.each_once;
            just = λ s.
                has-visit-strike s (members (value k)) current
                ∙ rw (c.just s, has-members s (value k)) refl;
          },
        )
      ]

  sdiff_rest-Found :
      (keys : List (List ℕ)) (current : List (List ℕ)) (test : List ℕ → Bool)
      → AllHold E store db now value keys
      → Lists current test
      → (found : Option (List (List ℕ))) × (sdiff_rest E db now keys current ≡ ok found)
        × Found found (λ s. test s && not (in_any E store db now value keys s))
  unfolding sdiff_rest
  sdiff_rest-Found [] current test all c =
      (some current, refl, record { each_once = c.each_once; just = λ s. c.just s ∙ ground arith })
  sdiff_rest-Found (k ∷ keys) current test (holds, all) c =
      let card = scard-length E db k now (value k) holds in
      elim (Bool-cases (is_nil current)) [
        | inl z ↦ (none, rw z refl, λ s. rw (sym (c.just s) ∙ has-empty s current z) refl)
        | inr z ↦ elim (Bool-cases (length (value k) == 0)) [
          | inl y ↦
              let (found, f, h) = sdiff_rest-Found keys current test all c in
              (
                found,
                rw (z, card, ◌>>=◌, y) f,
                Found-cong found (λ s. test s && not (in_any E store db now value keys s))
                    (λ s. test s && not (in_any E store db now value (k ∷ keys) s))
                    (λ s. rw (contains_nothing (value k) s ((==_iff _ _).0 y)) refl) h,
              )
          | inr y ↦
              let (set, e, l) = sdiff_with-Lists k (length (value k)) current test holds c in
              let (found, f, h) = sdiff_rest-Found keys set _ all l in
              (found, rw (z, card, ◌>>=◌, y, e) f, Found-cong found _ _ (λ s. ground arith) h)
        ]
      ]

  -- In the first set and in none of the others.
  abbrev pub in_first : List (List ℕ) → List ℕ → Bool
  in_first [] s = false
  in_first (k ∷ keys) s = contains (value k) s && not (in_any E store db now value keys s)

  pub compute_sdiff-Found :
      (keys : List (List ℕ))
      → AllHold E store db now value keys
      → (found : Option (List (List ℕ))) × (compute_sdiff_set E db now keys ≡ ok found)
        × Found found (in_first keys)
  unfolding compute_sdiff_set
  compute_sdiff-Found [] all = (none, refl, λ s. refl)
  compute_sdiff-Found (k ∷ keys) (holds, all) =
      let card = scard-length E db k now (value k) holds in
      elim (Bool-cases (length (value k) == 0)) [
        | inl z ↦ (
          none,
          rw (card, ◌>>=◌, z) refl,
          λ s. rw (contains_nothing (value k) s ((==_iff _ _).0 z)) refl,
        )
        | inr z ↦
            let (set, e, l) = Lists-siter E store db now value k holds in
            let (found, f, h) = sdiff_rest-Found keys set _ all l in
            (found, rw (card, ◌>>=◌, z, e) f, h)
      ]
