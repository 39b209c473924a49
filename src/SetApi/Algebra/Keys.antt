-- ===== src/SetApi/Algebra/Keys.antt =====
-- embed/src/api/set/algebra.rs: the keys of several sets, and their order by size.
use wedb_embed.Base.{
  ℕ, ◌<◌, ◌≡◌, refl, ap, ◌∙◌, List, [], ◌∷◌, Bool, true, false, ◌&&◌, none, some, arith, length,
  All, inl, inr, ◌⊎◌, Bool-cases, leb, ◌==◌, ==_iff,
}
use wedb_embed.Store.{Engine, IsStore, Entry}
use wedb_embed.Store.Ordered.{look_up}
use wedb_embed.Store.Finite.{contains}
use wedb_embed.Db.{Db}
use wedb_embed.Outcome.{ok, ◌>>=◌}
use wedb_embed.SetApi.{has}
use wedb_embed.SetApi.HashSet.{Lists, has-members}
use wedb_embed.SetApi.State.{HoldsSet}
use wedb_embed.SetApi.Members.{members}
use wedb_embed.SetApi.Read.{siter}
use wedb_embed.SetApi.Read.Visit.{visit, siter-visit}
use wedb_embed.SetApi.Read.Results.{scard-length}
use wedb_embed.SetApi.Algebra.{insert_by_card, sort_by_card, collect, key_cards}
use wedb_embed.SetApi.Algebra.Closures.{has-visit-collect, visit-collect-Distinct}

pub contains_nothing : (es : List Entry) (s : List ℕ) → length es ≡ 0 → contains es s ≡ false
unfolding look_up
contains_nothing [] s h = refl
contains_nothing (e ∷ es) s h = absurd (omega arith)

module _ (E : Engine) (store : IsStore E) (db : Db E) (now : ℕ) (value : List ℕ → List Entry) where
  -- Each of the keys holds its set.
  abbrev pub AllHold : List (List ℕ) → Type 0
  AllHold = All (λ k. HoldsSet E db k now (value k))

  abbrev pub in_all : List (List ℕ) → List ℕ → Bool
  in_all [] s = true
  in_all (k ∷ keys) s = contains (value k) s && in_all keys s

  abbrev pub keys_of : List (List ℕ × ℕ) → List (List ℕ)
  keys_of [] = []
  keys_of (x ∷ xs) = x.0 ∷ keys_of xs

  -- The members of the first set.
  pub Lists-siter :
      (k : List ℕ)
      → HoldsSet E db k now (value k)
      → (set : List (List ℕ)) × (siter E db k collect [] now ≡ ok set)
        × Lists set (contains (value k))
  unfolding has
  Lists-siter k holds = (
    visit collect (members (value k)) [],
    siter-visit E store db k now (value k) collect [] holds,
    record {
      each_once = visit-collect-Distinct (members (value k)) [] tt;
      just = λ s. has-visit-collect s (members (value k)) [] ∙ has-members s (value k);
    },
  )

  -- The sizes are those of the sets, unless one of them is empty.
  pub key_cards-all :
      (keys : List (List ℕ))
      → AllHold keys
      → ((cards : List (List ℕ × ℕ)) × (key_cards E db now keys ≡ ok (some cards))
          × (keys_of cards ≡ keys))
        ⊎ ((key_cards E db now keys ≡ ok none) × ((s : List ℕ) → in_all keys s ≡ false))
  unfolding key_cards
  key_cards-all [] all = inl ([], refl, refl)
  key_cards-all (k ∷ keys) (holds, all) =
      let card = scard-length E db k now (value k) holds in
      elim (Bool-cases (length (value k) == 0)) [
        | inl z ↦ inr (
          rw (card, ◌>>=◌, z) refl,
          λ s. rw (contains_nothing (value k) s ((==_iff _ _).0 z)) refl,
        )
        | inr z ↦ elim (key_cards-all keys all) [
          | inl (cards, e, same) ↦
              inl ((k, length (value k)) ∷ cards, rw (card, ◌>>=◌, z, e) refl, ap (λ l. k ∷ l) same)
          | inr (e, nothing) ↦ inr (rw (card, ◌>>=◌, z, e) refl, λ s. rw (nothing s) (ground arith))
        ]
      ]

  -- Sorting by size changes neither the keys nor what is in all the sets.
  insert_by_card-AllHold :
      (k : List ℕ) (card : ℕ) (cards : List (List ℕ × ℕ))
      → HoldsSet E db k now (value k)
      → AllHold (keys_of cards)
      → AllHold (keys_of (insert_by_card (k, card) cards))
  unfolding insert_by_card
  insert_by_card-AllHold k card [] holds all = (holds, tt)
  insert_by_card-AllHold k card ((j, other) ∷ rest) holds (head, all) =
      elim (Bool-cases (leb card other)) [
        | inl b ↦ rw (b, keys_of) (holds, (head, all))
        | inr b ↦ rw (b, keys_of) (head, insert_by_card-AllHold k card rest holds all)
      ]

  pub sort_by_card-AllHold :
      (cards : List (List ℕ × ℕ)) → AllHold (keys_of cards) → AllHold (keys_of (sort_by_card cards))
  unfolding sort_by_card
  sort_by_card-AllHold [] all = tt
  sort_by_card-AllHold ((k, card) ∷ cards) (holds, all) =
      insert_by_card-AllHold k card (sort_by_card cards) holds (sort_by_card-AllHold cards all)

  in_all-insert_by_card :
      (k : List ℕ) (card : ℕ) (cards : List (List ℕ × ℕ)) (s : List ℕ)
      → in_all (keys_of (insert_by_card (k, card) cards)) s
        ≡ contains (value k) s && in_all (keys_of cards) s
  unfolding insert_by_card
  in_all-insert_by_card k card [] s = refl
  in_all-insert_by_card k card ((j, other) ∷ rest) s = elim (Bool-cases (leb card other)) [
    | inl b ↦ rw b refl
    | inr b ↦ rw (b, keys_of, in_all, in_all-insert_by_card k card rest s) (ground arith)
  ]

  pub in_all-sort_by_card :
      (cards : List (List ℕ × ℕ)) (s : List ℕ)
      → in_all (keys_of (sort_by_card cards)) s ≡ in_all (keys_of cards) s
  unfolding sort_by_card
  in_all-sort_by_card [] s = refl
  in_all-sort_by_card ((k, card) ∷ cards) s =
      in_all-insert_by_card k card (sort_by_card cards) s
      ∙ ap (λ b. contains (value k) s && b) (in_all-sort_by_card cards s)

  pub length-insert_by_card :
      (x : List ℕ × ℕ) (cards : List (List ℕ × ℕ)) → 0 < length (insert_by_card x cards)
  unfolding insert_by_card
  length-insert_by_card (k, card) [] = omega arith
  length-insert_by_card (k, card) ((j, other) ∷ rest) = elim (Bool-cases (leb card other)) [
    | inl b ↦ rw b (omega arith)
    | inr b ↦ rw b (omega arith)
  ]
