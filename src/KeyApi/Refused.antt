-- ===== src/KeyApi/Refused.antt =====
-- embed/src/api/key/mod.rs: the check of a type at a key that holds another value.
use wedb_embed.Base.{
  ℕ, ◌≡◌, refl, List, [], ◌∷◌, true, false, some, none, Bool-cases, Option-cases, inl, inr, ◌⊎◌,
}
use wedb_embed.Bytes.{bytes_eq}
use wedb_embed.KeyTag.{KeyTag, as_slice, all_composite_meta_tags}
use wedb_embed.KeyComposer.{KeyComposer, compose_meta_key_into}
use wedb_embed.KeyMeta.{KeyMeta}
use wedb_embed.Store.{Engine, IsStore}
use wedb_embed.Db.{Db}
use wedb_embed.Outcome.{Result, err, Error, err_wrong_type}
use wedb_embed.KeyApi.{MetaOps, live, live_base, check_tags, holds_string, get_meta_checked}
use wedb_embed.KeyApi.Laws.{check_composite_meta-check_tags}

abbrev pub refused : {A : Type 0} → Result A
refused = err (Error.wrong_type err_wrong_type)

abbrev Among : KeyTag → List KeyTag → Type 0
Among t [] = ⊥
Among t (u ∷ us) = (u ≡ t) ⊎ Among t us

module _ (E : Engine) where
  -- A live string, or no live metadata of the type but of another.
  abbrev pub Busy : {M : Type 0} → MetaOps M → Db E → List ℕ → List ℕ → ℕ → Type 0
  Busy ops db key meta_k now =
      (holds_string E db key now ≡ true)
      ⊎ ((live ops.decode ops.is_expired now (E.get db.meta_ks meta_k) ≡ none)
          × (t : KeyTag) × (m : KeyMeta) × Among t all_composite_meta_tags
          × (bytes_eq (as_slice t) (as_slice ops.tag) ≡ false)
          × (live_base now (E.get db.meta_ks (compose_meta_key_into db.kc (as_slice t) key))
              ≡ some m))

  check_tags-found :
      (p : E.Partition) (kc : KeyComposer) (k current : List ℕ) (now : ℕ) (t : KeyTag) (m : KeyMeta)
      (tags : List KeyTag)
      → Among t tags
      → bytes_eq (as_slice t) current ≡ false
      → live_base now (E.get p (compose_meta_key_into kc (as_slice t) k)) ≡ some m
      → check_tags E p kc k current now tags ≡ refused
  unfolding check_tags
  check_tags-found p kc k current now t m [] among differ here = absurd among
  check_tags-found p kc k current now t m (u ∷ tags) (inl e) differ here =
      rw (e, check_tags, differ, here) refl
  check_tags-found p kc k current now t m (u ∷ tags) (inr among) differ here =
      let later = check_tags-found p kc k current now t m tags among differ here in
      elim (Bool-cases (bytes_eq (as_slice u) current)) [
        | inl b ↦ rw (check_tags, b) later
        | inr b ↦
            elim (Option-cases
              (live_base now (E.get p (compose_meta_key_into kc (as_slice u) k)))) [
                | inl l ↦ rw (check_tags, b, l) later
                | inr (n, l) ↦ rw (check_tags, b, l) refl
              ]
      ]

  pub get_meta_checked-Busy :
      {M : Type 0} (ops : MetaOps M) (store : IsStore E) (db : Db E) (key meta_k : List ℕ) (now : ℕ)
      → Busy ops db key meta_k now
      → get_meta_checked E ops db key meta_k now ≡ refused
  unfolding get_meta_checked
  get_meta_checked-Busy ops store db key meta_k now (inl s) = rw s refl
  get_meta_checked-Busy ops store db key meta_k now (inr (missing, t, m, among, differ, here)) =
      elim (Bool-cases (holds_string E db key now)) [
        | inl s ↦ rw s refl
        | inr s ↦
            rw
              (
                s,
                missing,
                check_composite_meta-check_tags E store db key (as_slice ops.tag) now,
                check_tags-found db.meta_ks db.kc key (as_slice ops.tag) now t m
                    all_composite_meta_tags among differ here,
              )
              refl
      ]
