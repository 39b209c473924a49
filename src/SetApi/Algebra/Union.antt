-- ===== src/SetApi/Algebra/Union.antt =====
-- embed/src/api/set/algebra.rs: the union of the sets that the keys hold.
use wedb_embed.Base.{ℕ, ◌≡◌, refl, sym, ap, ◌∙◌, List, [], ◌∷◌, Bool, false, ◌||◌, arith, length}
use wedb_embed.Bytes.{IsU64}
use wedb_embed.Store.{Engine, IsStore, Entry}
use wedb_embed.Store.Finite.{contains}
use wedb_embed.Db.{Db}
use wedb_embed.Outcome.{ok, ◌>>=◌}
use wedb_embed.SetApi.{has}
use wedb_embed.SetApi.HashSet.{Lists, has-members, members-Distinct}
use wedb_embed.SetApi.State.{HoldsSet}
use wedb_embed.SetApi.Members.{members}
use wedb_embed.SetApi.Read.Visit.{visit, siter-visit}
use wedb_embed.SetApi.Read.Results.{scard-length, smembers-members}
use wedb_embed.SetApi.Algebra.{collect, union_all, compute_sunion_set, sunion, sunionstore}
use wedb_embed.SetApi.Algebra.Closures.{has-visit-collect, visit-collect-Distinct}
use wedb_embed.SetApi.Algebra.Keys.{AllHold}
use wedb_embed.SetApi.Algebra.Found.{IsOrder, Stores, Stores-overwrite}

module _ (E : Engine) (store : IsStore E) (db : Db E) (now : ℕ) (value : List ℕ → List Entry) where
  abbrev pub in_any : List (List ℕ) → List ℕ → Bool
  in_any [] s = false
  in_any (k ∷ keys) s = contains (value k) s || in_any keys s

  pub union_all-Lists :
      (keys set : List (List ℕ)) (test : List ℕ → Bool)
      → AllHold E store db now value keys
      → Lists set test
      → (union_set : List (List ℕ)) × (union_all E db now keys set ≡ ok union_set)
        × Lists union_set (λ s. test s || in_any keys s)
  unfolding union_all
  union_all-Lists [] set test all l =
      (set, refl, record { each_once = l.each_once; just = λ s. l.just s ∙ ground arith })
  union_all-Lists (k ∷ keys) set test (holds, all) l =
      let (union_set, e, h) =
        union_all-Lists keys (visit collect (members (value k)) set)
          (λ s. test s || contains (value k) s) all
          (record {
            each_once = visit-collect-Distinct (members (value k)) set l.each_once;
            just = λ s.
                has-visit-collect s (members (value k)) set
                ∙ rw (l.just s, has-members s (value k)) refl;
          }) in
      (
        union_set,
        rw (siter-visit E store db k now (value k) collect set holds, ◌>>=◌) e,
        record { each_once = h.each_once; just = λ s. h.just s ∙ ground arith },
      )

  compute_sunion-Lists :
      (keys : List (List ℕ))
      → AllHold E store db now value keys
      → (set : List (List ℕ)) × (compute_sunion_set E db now keys ≡ ok set)
        × Lists set (in_any keys)
  unfolding compute_sunion_set has
  compute_sunion-Lists [] all = ([], refl, record { each_once = tt; just = λ s. refl })
  compute_sunion-Lists (k ∷ keys) all =
      let (set, e, l) =
        union_all-Lists (k ∷ keys) [] (λ s. false) all
          (record { each_once = tt; just = λ s. refl }) in
      (
        set,
        rw (scard-length E db k now (value k) all.0, ◌>>=◌) e,
        record { each_once = l.each_once; just = λ s. l.just s },
      )

  module _ (into_iter : List (List ℕ) → List (List ℕ)) (order : IsOrder into_iter)
      (keys : List (List ℕ)) (all : AllHold E store db now value keys) where
    -- If the engine is a store, each of the keys holds its set, and a hash set yields each of its members once:
    -- `sunion` answers just the strings that are in one of the sets at least, each once.
    pub sunion-Lists :
        (set : List (List ℕ)) × (sunion E db now into_iter keys ≡ ok set) × Lists set (in_any keys)
    sunion-Lists = answer keys all
      where
        many :
            (ks : List (List ℕ))
            → AllHold E store db now value ks
            → (set : List (List ℕ)) × ((compute_sunion_set E db now ks >>= λ set.
                  ok (into_iter set))
                ≡ ok set)
              × Lists set (in_any ks)
        many ks h =
            let (set, e, l) = compute_sunion-Lists ks h in
            (
              into_iter set,
              rw e refl,
              record {
                each_once = order.each_once set l.each_once;
                just = λ s. order.has_same s set ∙ l.just s;
              },
            )

        answer :
            (ks : List (List ℕ))
            → AllHold E store db now value ks
            → (set : List (List ℕ)) × (sunion E db now into_iter ks ≡ ok set)
              × Lists set (in_any ks)
        answer [] h = unfold sunion has in ([], refl, record { each_once = tt; just = λ s. refl })
        answer (k ∷ []) (holds, h) =
            unfold sunion in
            (
              members (value k),
              smembers-members E db k now (value k) holds store,
              record {
                each_once = members-Distinct (value k) holds.ascending;
                just = λ s. has-members s (value k) ∙ ground arith;
              },
            )
        answer (k ∷ l ∷ ks) h = unfold sunion in many (k ∷ l ∷ ks) h

    -- If moreover `dst` holds a set, and the version and the size of the union are of 64 bits: `sunionstore` makes
    -- the set at `dst` just the union, answers its size, and changes nothing else.
    pub sunionstore-Stores :
        (dst : List ℕ) (version : ℕ) (old : List Entry) (found : List (List ℕ))
        → IsU64 version
        → HoldsSet E db dst now old
        → compute_sunion_set E db now keys ≡ ok found
        → IsU64 (length (into_iter found))
        → Stores E db now dst (sunionstore E db now into_iter dst keys version) (in_any keys)
    unfolding sunionstore
    sunionstore-Stores dst version old found hv holds e small =
        let (set, e', l) = compute_sunion-Lists keys all in
        rw e (
          Stores-overwrite E db now store into_iter order dst version (in_any keys) old hv holds
            found small (λ s. ap (λ r. has s r) (same (sym e ∙ e')) ∙ l.just s))
      where
        same : {x y : List (List ℕ)} → ok x ≡ ok y → x ≡ y
        same h = cc h
