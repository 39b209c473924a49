-- ===== src/SetApi/UnionCard/Results.antt =====
-- embed/src/api/set/algebra.rs, `sunioncard`, on the sets that the keys hold.
use wedb_embed.Base.{
  ℕ, ◌<◌, ◌≤◌, ◌≡◌, refl, sym, ap, ◌∙◌, List, [], ◌∷◌, Bool, true, false, arith, min, ltb, leb,
  length, map, inl, inr, Bool-cases, if◌then◌else◌, ◌==◌,
}
use wedb_embed.Store.{Engine, IsStore, Entry}
use wedb_embed.Db.{Db}
use wedb_embed.Outcome.{ok, ◌>>=◌}
use wedb_embed.SetApi.{has}
use wedb_embed.SetApi.HashSet.{Lists, has-members}
use wedb_embed.SetApi.Members.{members}
use wedb_embed.SetApi.Read.Visit.{visit, siter-visit}
use wedb_embed.SetApi.Algebra.{collect, union_all, apply_card_limit}
use wedb_embed.SetApi.Algebra.Keys.{AllHold}
use wedb_embed.SetApi.Algebra.Union.{in_any, union_all-Lists}
use wedb_embed.SetApi.Algebra.Results.{one_card}
use wedb_embed.SetApi.UnionCard.{count_up_to, count_all, card_up_to, card_all, sunioncard}
use wedb_embed.SetApi.UnionCard.Count.{
  visit-collect-length, length-map, NoCollision, Within, visit-collect-Within, visit-count_all,
  visit-count_up_to,
}

module _ (E : Engine) (store : IsStore E) (db : Db E) (now : ℕ) (value : List ℕ → List Entry) where
  -- The members of all the sets, added in turn.
  abbrev united : List (List ℕ) → List (List ℕ) → List (List ℕ)
  united [] set = set
  united (k ∷ keys) set = united keys (visit collect (members (value k)) set)

  union_all-united :
      (keys set : List (List ℕ))
      → AllHold E store db now value keys
      → union_all E db now keys set ≡ ok (united keys set)
  unfolding union_all
  union_all-united [] set all = refl
  union_all-united (k ∷ keys) set (holds, all) =
      rw (siter-visit E store db k now (value k) collect set holds, ◌>>=◌)
        (union_all-united keys (visit collect (members (value k)) set) all)

  united-length : (keys set : List (List ℕ)) → length set ≤ length (united keys set)
  united-length [] set = omega arith
  united-length (k ∷ keys) set = omega (
    arith,
    visit-collect-length (members (value k)) set,
    united-length keys (visit collect (members (value k)) set),
  )

  united-Lists :
      (keys : List (List ℕ))
      → AllHold E store db now value keys
      → Lists (united keys []) (in_any E store db now value keys)
  unfolding has
  united-Lists keys all =
      let (set, e, l) =
        union_all-Lists E store db now value keys [] (λ s. false) all
          (record { each_once = tt; just = λ s. refl }) in
      let z = same (sym e ∙ union_all-united keys [] all) in
      record { each_once = rw z at l.each_once; just = λ s. rw z at (l.just s) }
    where
      same : {x y : List (List ℕ)} → ok x ≡ ok y → x ≡ y
      same h = cc h

  module _ (hash : List ℕ → ℕ) (test : List ℕ → Bool) (distinct : NoCollision hash test) where
    members-Within :
        (k : List ℕ) (keys : List (List ℕ))
        → ((s : List ℕ) → in_any E store db now value (k ∷ keys) s ≡ true → test s ≡ true)
        → Within hash test (members (value k))
    members-Within k keys sub s h = sub s (rw (sym (has-members s (value k)) ∙ h) refl)

    card_all-length :
        (keys set : List (List ℕ))
        → AllHold E store db now value keys
        → ((s : List ℕ) → in_any E store db now value keys s ≡ true → test s ≡ true)
        → Within hash test set
        → card_all E db now hash keys (map hash set) ≡ ok (length (united keys set))
    unfolding card_all
    card_all-length [] set all sub inside = rw (length-map hash set) refl
    card_all-length (k ∷ keys) set (holds, all) sub inside =
        let here = members-Within k keys sub in
        rw
          (
            siter-visit E store db k now (value k) (count_all E db now hash) (map hash set) holds,
            ◌>>=◌,
            visit-count_all hash test distinct E db now (members (value k)) set here inside,
          )
          (card_all-length keys (visit collect (members (value k)) set) all
            (λ s h. sub s (rw h (ground arith)))
            (visit-collect-Within hash test distinct (members (value k)) set here inside))

    card_up_to-length :
        (limit : ℕ) (keys set : List (List ℕ))
        → length set < limit
        → AllHold E store db now value keys
        → ((s : List ℕ) → in_any E store db now value keys s ≡ true → test s ≡ true)
        → Within hash test set
        → card_up_to E db now hash limit keys (map hash set)
          ≡ ok (min (length (united keys set)) limit)
    unfolding card_up_to
    card_up_to-length limit [] set small all sub inside = rw (length-map hash set) refl
    card_up_to-length limit (k ∷ keys) set small (holds, all) sub inside =
        let here = members-Within k keys sub in
        let next_set = visit collect (members (value k)) set in
        let shown =
          siter-visit E store db k now (value k) (count_up_to E db now hash limit) (map hash set)
            holds in
        elim (visit-count_up_to hash test distinct E db now limit (members (value k)) set small here
          inside) [
            | inl (fewer, same) ↦
                rw
                  (shown, ◌>>=◌, same, fits next_set (rw (same, length-map hash next_set) at fewer))
                  (card_up_to-length limit keys next_set
                    (rw (same, length-map hash next_set) at fewer) all
                    (λ s h. sub s (rw h (ground arith)))
                    (visit-collect-Within hash test distinct (members (value k)) set here inside))
            | inr (full, enough) ↦
                rw
                  (
                    shown,
                    ◌>>=◌,
                    let z : leb limit (
                              length (
                                visit (count_up_to E db now hash limit) (members (value k))
                                  (map hash set)))
                            ≡ true =
                          ground (arith, full) in
                        z,
                  )
                  (ap ok (omega (arith, enough, united-length keys next_set)))
          ]
      where
        fits : (xs : List (List ℕ)) → length xs < limit → leb limit (length (map hash xs)) ≡ false
        fits xs h = ground (arith, length-map hash xs, h)

  -- If the engine is a store, each of the keys, one or more, holds its set, and no two different members of these
  -- sets have the same hash: `sunioncard` answers the number of the strings that are in one of the sets at
  -- least, or the limit if that is less and not 0.
  pub sunioncard-counts :
      (hash : List ℕ → ℕ) (k : List ℕ) (keys : List (List ℕ)) (limit : ℕ)
      → AllHold E store db now value (k ∷ keys)
      → NoCollision hash (in_any E store db now value (k ∷ keys))
      → (set : List (List ℕ)) × (sunioncard E db now hash (k ∷ keys) limit
          ≡ ok (apply_card_limit (length set) limit))
        × Lists set (in_any E store db now value (k ∷ keys))
  unfolding sunioncard
  sunioncard-counts hash k [] limit all distinct =
      one_card E store db now value k [] all _ limit (λ s. ground arith)
  sunioncard-counts hash k (l ∷ keys) limit all distinct =
      (united (k ∷ l ∷ keys) [], counted, united-Lists (k ∷ l ∷ keys) all)
    where
      nothing : Within hash (in_any E store db now value (k ∷ l ∷ keys)) []
      nothing s h = unfold has in cc h

      counted :
          (if ltb 0 limit
            then card_up_to E db now hash limit (k ∷ l ∷ keys) []
            else card_all E db now hash (k ∷ l ∷ keys) [])
          ≡ ok (apply_card_limit (length (united (k ∷ l ∷ keys) [])) limit)
      counted = elim (Bool-cases (ltb 0 limit)) [
        | inl b ↦ rw b (
            card_up_to-length hash _ distinct limit (k ∷ l ∷ keys) [] (ground (arith, b)) all
              (λ s h. h) nothing
            ∙ (unfold apply_card_limit in
                rw (let z : (limit == 0) ≡ false = ground (arith, b) in z) refl))
        | inr b ↦ rw b (
            card_all-length hash _ distinct (k ∷ l ∷ keys) [] all (λ s h. h) nothing
            ∙ (unfold apply_card_limit in
                rw (let z : (limit == 0) ≡ true = ground (arith, b) in z) refl))
      ]
