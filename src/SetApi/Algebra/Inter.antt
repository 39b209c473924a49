-- ===== src/SetApi/Algebra/Inter.antt =====
-- embed/src/api/set/algebra.rs: the intersection of the sets that the keys hold.
use wedb_embed.Base.{
  ℕ, ◌<◌, ◌≡◌, refl, sym, ap, ◌∙◌, List, [], ◌∷◌, Bool, ◌&&◌, Option, none, some, arith, length,
  inl, inr, Bool-cases, ltb,
}
use wedb_embed.Store.{Engine, IsStore, Entry}
use wedb_embed.Store.Finite.{contains}
use wedb_embed.Db.{Db}
use wedb_embed.Outcome.{ok}
use wedb_embed.SetApi.{has}
use wedb_embed.SetApi.HashSet.{Lists, is_nil, has-retain, retain-Distinct, has-members, has-empty}
use wedb_embed.SetApi.State.{HoldsSet}
use wedb_embed.SetApi.Members.{members}
use wedb_embed.SetApi.Read.Visit.{visit, siter-visit}
use wedb_embed.SetApi.Read.Results.{sismember-contains}
use wedb_embed.SetApi.Algebra.{
  sort_by_card, take_over, unwrap_or, saturating_mul, sinter_with, sinter_rest, sinter_sorted,
  compute_sinter_set,
}
use wedb_embed.SetApi.Algebra.Closures.{has-visit-take_over, visit-take_over-Distinct}
use wedb_embed.SetApi.Algebra.Keys.{
  AllHold, in_all, keys_of, Lists-siter, key_cards-all, sort_by_card-AllHold, in_all-sort_by_card,
  length-insert_by_card,
}
use wedb_embed.SetApi.Algebra.Found.{Found, Found-cong}

module _ (E : Engine) (store : IsStore E) (db : Db E) (now : ℕ) (value : List ℕ → List Entry) where
  sinter_with-Lists :
      (k : List ℕ) (card : ℕ) (current : List (List ℕ)) (test : List ℕ → Bool)
      → HoldsSet E db k now (value k)
      → Lists current test
      → (set : List (List ℕ)) × (sinter_with E db now k card current ≡ ok set)
        × Lists set (λ s. test s && contains (value k) s)
  unfolding sinter_with has
  sinter_with-Lists k card current test holds c =
      elim (Bool-cases (ltb (saturating_mul (length current) 4) card)) [
        | inl few ↦ rw few (
          _,
          refl,
          record {
            each_once = retain-Distinct _ current c.each_once;
            just = λ s.
                has-retain _ s current
                ∙ rw (c.just s, sismember-contains E db k now (value k) holds s, unwrap_or) refl;
          },
        )
        | inr many ↦ (
          (visit take_over (members (value k)) (current, [])).1,
          rw (many, siter-visit E store db k now (value k) take_over (current, []) holds) refl,
          record {
            each_once = visit-take_over-Distinct (members (value k)) current [] tt;
            just = λ s.
                has-visit-take_over s (members (value k)) current []
                ∙ rw (c.just s, has-members s (value k)) (ground arith);
          },
        )
      ]

  sinter_rest-Found :
      (rest : List (List ℕ × ℕ)) (current : List (List ℕ)) (test : List ℕ → Bool)
      → AllHold E store db now value (keys_of E store db now value rest)
      → Lists current test
      → (found : Option (List (List ℕ))) × (sinter_rest E db now rest current ≡ ok found)
        × Found found
            (λ s. test s && in_all E store db now value (keys_of E store db now value rest) s)
  unfolding sinter_rest
  sinter_rest-Found [] current test all c =
      (some current, refl, record { each_once = c.each_once; just = λ s. c.just s ∙ ground arith })
  sinter_rest-Found ((k, card) ∷ rest) current test (holds, all) c =
      elim (Bool-cases (is_nil current)) [
        | inl z ↦ (none, rw z refl, λ s. rw (sym (c.just s) ∙ has-empty s current z) refl)
        | inr z ↦
            let (set, e, l) = sinter_with-Lists k card current test holds c in
            let (found, f, h) = sinter_rest-Found rest set _ all l in
            (found, rw (z, e) f, Found-cong found _ _ (λ s. ground arith) h)
      ]

  sinter_sorted-Found :
      (cards : List (List ℕ × ℕ))
      → 0 < length cards
      → AllHold E store db now value (keys_of E store db now value cards)
      → (found : Option (List (List ℕ))) × (sinter_sorted E db now cards ≡ ok found)
        × Found found (in_all E store db now value (keys_of E store db now value cards))
  unfolding sinter_sorted
  sinter_sorted-Found [] h all = absurd (omega arith)
  sinter_sorted-Found ((k, card) ∷ rest) h (holds, all) =
      let (set, e, l) = Lists-siter E store db now value k holds in
      let (found, f, fs) = sinter_rest-Found rest set _ all l in (found, rw e f, fs)

  -- Two keys or more.
  compute_sinter-many :
      (k l : List ℕ) (keys : List (List ℕ))
      → AllHold E store db now value (k ∷ l ∷ keys)
      → (found : Option (List (List ℕ))) × (compute_sinter_set E db now (k ∷ l ∷ keys) ≡ ok found)
        × Found found (in_all E store db now value (k ∷ l ∷ keys))
  unfolding compute_sinter_set
  compute_sinter-many k l keys all = elim (key_cards-all E store db now value (k ∷ l ∷ keys) all) [
    | inr (e, nothing) ↦ (none, rw e refl, nothing)
    | inl (cards, e, same) ↦
        let (found, f, h) =
          sinter_sorted-Found (sort_by_card cards) (some_cards cards same)
            (sort_by_card-AllHold E store db now value cards (rw same all)) in
        (
          found,
          rw e f,
          Found-cong found _ _
              (λ s.
                in_all-sort_by_card E store db now value cards s
                ∙ ap (λ ks. in_all E store db now value ks s) same)
              h,
        )
  ]
    where
      some_cards :
          (cards : List (List ℕ × ℕ))
          → keys_of E store db now value cards ≡ k ∷ l ∷ keys
          → 0 < length (sort_by_card cards)
      some_cards [] h = cc h
      some_cards (x ∷ cards) h =
          unfold sort_by_card in length-insert_by_card E store db now value x (sort_by_card cards)

  pub compute_sinter-Found :
      (k : List ℕ) (keys : List (List ℕ))
      → AllHold E store db now value (k ∷ keys)
      → (found : Option (List (List ℕ))) × (compute_sinter_set E db now (k ∷ keys) ≡ ok found)
        × Found found (in_all E store db now value (k ∷ keys))
  unfolding compute_sinter_set
  compute_sinter-Found k [] (holds, all) =
      let (set, e, l) = Lists-siter E store db now value k holds in
      (some set, rw e refl, record { each_once = l.each_once; just = λ s. l.just s ∙ ground arith })
  compute_sinter-Found k (l ∷ keys) all = compute_sinter-many k l keys all
