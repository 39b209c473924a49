-- ===== src/SetApi/Scan/Page.antt =====
-- embed/src/api/set/scan.rs, `sscan`, on the set that a key holds.
use wedb_embed.Base.{
  ℕ, suc, ◌+◌, ◌-◌, ◌%◌, ◌^◌, ◌<◌, ◌≤◌, ◌≡◌, ◌↔◌, refl, sym, ap, ap₂, ◌∙◌, List, [], ◌∷◌, ◌++◌,
  append_assoc, append-nil, Bool, true, false, Option, arith, ltb, length, length-append,
  length-take, length-drop, take, drop, inl, inr, Bool-cases, if◌then◌else◌, drop-nil, take-nil,
}
use wedb_embed.Store.{Engine, IsStore, Entry}
use wedb_embed.Db.{Db}
use wedb_embed.Outcome.{ok, ◌>>=◌}
use wedb_embed.SetApi.HashSet.{retain}
use wedb_embed.SetApi.State.{HoldsSet}
use wedb_embed.SetApi.Members.{members}
use wedb_embed.SetApi.Read.Visit.{visit, siter-visit}
use wedb_embed.SetApi.Algebra.Results.{length-members}
use wedb_embed.Glob.Meaning.{Matches}
use wedb_embed.SetApi.Scan.{Scan, is_matched, pattern_or_star, scan_member, limit_of, sscan}
use wedb_embed.SetApi.Scan.Pattern.{is_matched-Matches}

-- What the scan adds to what it has, of the members `ms` that are to come.
abbrev pub added : Option (List ℕ) → ℕ → ℕ → Scan → List (List ℕ) → List (List ℕ)
added pattern cursor limit scan ms =
    take (limit - length scan.matched)
      (drop (cursor - scan.skipped) (retain (is_matched pattern) ms))

abbrev pub more : Option (List ℕ) → ℕ → ℕ → Scan → List (List ℕ) → Bool
more pattern cursor limit scan ms =
    ltb (limit - length scan.matched)
      (length (drop (cursor - scan.skipped) (retain (is_matched pattern) ms)))

module _ (pattern : Option (List ℕ)) (cursor limit : ℕ) where
  -- A scan that has not ended yet.
  scanned :
      (ms : List (List ℕ)) (skipped : ℕ) (matched : List (List ℕ))
      → let scan : Scan = record { skipped = skipped; matched = matched; has_more = false } in
        let last = visit (scan_member pattern cursor limit) ms scan in
        (last.matched ≡ matched ++ added pattern cursor limit scan ms)
        × (last.has_more ≡ more pattern cursor limit scan ms)
  unfolding visit retain
  scanned [] skipped matched =
      rw (drop-nil {A = List ℕ} (cursor - skipped), take-nil {A = List ℕ} (limit - length matched))
        (sym (append-nil matched), ground arith)
  scanned (m ∷ ms) skipped matched = elim (Bool-cases (is_matched pattern m)) [
    | inr no_match ↦ rw (no_match, retain) (scanned ms skipped matched)
    | inl match ↦ elim (Bool-cases (ltb skipped cursor)) [
      | inl before ↦
          rw
            (
              match,
              before,
              retain,
              let z : cursor - skipped ≡ suc (cursor - (skipped + 1)) = ground arith in z,
            )
            (scanned ms (skipped + 1) matched)
      | inr at ↦ elim (Bool-cases (ltb (length matched) limit)) [
        | inl room ↦
            let (e, f) = scanned ms skipped (matched ++ (m ∷ [])) in
            rw
              (
                match,
                at,
                room,
                retain,
                let z : cursor - skipped ≡ 0 = ground arith in z,
                let z : limit - length matched ≡ suc (limit - length (matched ++ (m ∷ []))) =
                      ground (arith, length-append matched (m ∷ [])) in
                    z,
              )
              (
                (rw (let z : cursor - skipped ≡ 0 = ground arith in z) at e)
                    ∙ append_assoc matched (m ∷ []) _,
                (rw (let z : cursor - skipped ≡ 0 = ground arith in z) at f) ∙ ground arith,
              )
        | inr full ↦
            rw
              (
                match,
                at,
                full,
                retain,
                let z : cursor - skipped ≡ 0 = ground arith in z,
                let z : limit - length matched ≡ 0 = ground arith in z,
              )
              (sym (append-nil matched), ground arith)
      ]
    ]
  ]

length-retain : (test : List ℕ → Bool) (ms : List (List ℕ)) → length (retain test ms) ≤ length ms
unfolding retain
length-retain test [] = omega arith
length-retain test (m ∷ ms) = elim (Bool-cases (test m)) [
  | inl b ↦ rw (b, retain) (omega (arith, length-retain test ms))
  | inr b ↦ rw (b, retain) (omega (arith, length-retain test ms))
]

-- Sets are counted in 64 bits.
size-HoldsSet :
    (E : Engine) (db : Db E) (key : List ℕ) (now : ℕ) (es : List Entry)
    → HoldsSet E db key now es
    → length (members es) < 2 ^ 64
size-HoldsSet E db key now es holds = elim holds.value [
  | inl (e, missing) ↦ omega (arith, length-members es, ap length e)
  | inr (m, s) ↦ omega (arith, length-members es, s.counts.valid.size, s.counts.size)
]

sscan-matching :
    (E : Engine) (store : IsStore E) (db : Db E) (key : List ℕ) (cursor : ℕ)
    (pattern : Option (List ℕ)) (count : Option ℕ) (now : ℕ) (es : List Entry)
    → HoldsSet E db key now es
    → let matching = retain (is_matched pattern) (members es) in
      sscan E db key cursor pattern count now
      ≡ ok (
        if ltb (cursor + limit_of count) (length matching) then cursor + limit_of count else 0,
        take (limit_of count) (drop cursor matching),
      )
unfolding sscan
sscan-matching E store db key cursor pattern count now es holds =
    rw
      (
        siter-visit E store db key now es (scan_member pattern cursor (limit_of count)) start holds,
        ◌>>=◌,
        last.0,
        last.1,
      )
      (elim (Bool-cases (ltb (cursor + limit_of count) (length matching))) [
        | inl b ↦
            rw
              (
                b,
                let z : ltb (limit_of count) (length (drop cursor matching)) ≡ true =
                      ground (arith, length-drop cursor matching, b) in
                    z,
              )
              (ap (λ n. ok (n, take (limit_of count) (drop cursor matching))) (next_cursor b))
        | inr b ↦
            rw
              (
                b,
                let z : ltb (limit_of count) (length (drop cursor matching)) ≡ false =
                      ground (arith, length-drop cursor matching, b) in
                    z,
              )
              refl
      ])
  where
    start : Scan
    start = record { skipped = 0; matched = []; has_more = false }

    matching : List (List ℕ)
    matching = retain (is_matched pattern) (members es)

    all_of : limit_of count - 0 ≡ limit_of count
    all_of = omega arith

    from_cursor : cursor - 0 ≡ cursor
    from_cursor = omega arith

    last :
        ((visit (scan_member pattern cursor (limit_of count)) (members es) start).matched
          ≡ take (limit_of count) (drop cursor matching))
        × ((visit (scan_member pattern cursor (limit_of count)) (members es) start).has_more
            ≡ ltb (limit_of count) (length (drop cursor matching)))
    last =
        let (e, f) = scanned pattern cursor (limit_of count) (members es) 0 [] in
        (
          e ∙ ap₂ (λ n k. take n (drop k matching)) all_of from_cursor,
          f ∙ ap₂ (λ n k. ltb n (length (drop k matching))) all_of from_cursor,
        )

    next_cursor :
        ltb (cursor + limit_of count) (length matching) ≡ true
        → (cursor + length (take (limit_of count) (drop cursor matching))) % 2 ^ 64
          ≡ cursor + limit_of count
    next_cursor b =
        let n = length-take (limit_of count) (drop cursor matching) in
        let d = length-drop cursor matching in
        let small = size-HoldsSet E db key now es holds in
        let fewer = length-retain (is_matched pattern) (members es) in ground arith

-- If the engine is a store and the key holds the set `es`: `sscan` answers of the members that match
-- the pattern, in the order of their bytes, those after the first `cursor` ones, at most as many as
-- the limit says; the new cursor is the number of the matching members up to there if more of them
-- follow, and 0 if none do. Any string `m` is taken to match just if the pattern, or `*` if there is
-- none, matches it by the rules of Glob/Meaning.
pub sscan-page :
    (E : Engine) (store : IsStore E) (db : Db E) (key : List ℕ) (cursor : ℕ)
    (pattern : Option (List ℕ)) (count : Option ℕ) (now : ℕ) (es : List Entry) (m : List ℕ)
    → HoldsSet E db key now es
    → let matching = retain (is_matched pattern) (members es) in
      (sscan E db key cursor pattern count now
        ≡ ok (
          if ltb (cursor + limit_of count) (length matching) then cursor + limit_of count else 0,
          take (limit_of count) (drop cursor matching),
        ))
      × ((is_matched pattern m ≡ true) ↔ Matches (pattern_or_star pattern) m)
sscan-page E store db key cursor pattern count now es m holds =
    (sscan-matching E store db key cursor pattern count now es holds, is_matched-Matches pattern m)
