-- ===== src/KeyApi/Laws.antt =====
-- embed/src/api/key/mod.rs: when the metadata of a type is found, and what the checks of the other types
-- depend on.
use wedb_embed.Base.{
  ℕ, ◌≡◌, refl, sym, ap, ◌∙◌, List, [], ◌∷◌, ◌++◌, false, Option, none, some, inl, inr, Bool-cases,
  Option-cases, length, get_or, drop-length_append, drop, ◌+◌, leb,
}
use wedb_embed.Bytes.{bytes_eq}
use wedb_embed.KeyTag.{KeyTag, as_slice, all_composite_meta_tags}
use wedb_embed.StringValue.{raw}
use wedb_embed.SmallKey.{as_bytes, inline_cap}
use wedb_embed.KeyComposer.Keys.{compose_meta_key_stack-heap}
use wedb_embed.KeyComposer.{
  KeyComposer, is_default, compose_meta_key_stack, compose_meta_key_into, encode_scope_prefix_fixed,
}
use wedb_embed.KeyComposer.Layout.{meta_key_layout}
use wedb_embed.KeyComposer.Isolation.{tag_injective}
use wedb_embed.Store.{Engine, IsStore}
use wedb_embed.Db.{Db}
use wedb_embed.Outcome.{Result, ok, err, Error, ◌>>=◌, err_wrong_type}
use wedb_embed.KeyApi.{
  MetaOps, live, live_base, check_tags, check_composite_meta_not_other_type_with_buf,
  check_composite_meta_not_other_type, holds_string, get_meta_checked,
}

-- Metadata keys of a scope are equal only for equal tags and keys.
rest_of_key :
    (kc : KeyComposer) (t u : KeyTag) (key other : List ℕ)
    → compose_meta_key_into kc (as_slice t) key ≡ compose_meta_key_into kc (as_slice u) other
    → as_slice t ++ key ≡ as_slice u ++ other
rest_of_key kc t u key other e =
    sym (drop-length_append (encode_scope_prefix_fixed kc) (as_slice t ++ key))
    ∙ ap (drop (length (encode_scope_prefix_fixed kc)))
        (sym (meta_key_layout kc (as_slice t) key) ∙ e ∙ meta_key_layout kc (as_slice u) other)
    ∙ drop-length_append (encode_scope_prefix_fixed kc) (as_slice u ++ other)

pub meta_key-tag :
    (kc : KeyComposer) (t u : KeyTag) (key other : List ℕ)
    → compose_meta_key_into kc (as_slice t) key ≡ compose_meta_key_into kc (as_slice u) other
    → t ≡ u
meta_key-tag kc t u key other e =
    tag_injective t u (unfold as_slice in ap (λ l. get_or l 0 0) (rest_of_key kc t u key other e))

pub meta_key-key :
    (kc : KeyComposer) (t : KeyTag) (key other : List ℕ)
    → compose_meta_key_into kc (as_slice t) key ≡ compose_meta_key_into kc (as_slice t) other
    → key ≡ other
meta_key-key kc t key other e = unfold as_slice in ap (drop 1) (rest_of_key kc t t key other e)

-- A string's key is a metadata key of its tag, by the short path or not.
pub raw_lem :
    (kc : KeyComposer) (key : List ℕ)
    → as_bytes (raw kc key) ≡ compose_meta_key_into kc (as_slice KeyTag.raw_string) key
unfolding raw as_slice compose_meta_key_stack
raw_lem kc key = same ∙ compose_meta_key_stack-heap kc (as_slice KeyTag.raw_string) key
  where
    same :
        as_bytes (raw kc key)
        ≡ as_bytes (compose_meta_key_stack kc (as_slice KeyTag.raw_string) key)
    same = elim (Bool-cases (is_default kc)) [
      | inl d ↦ elim (Bool-cases (leb (4 + length key) inline_cap)) [
        | inl b ↦ rw (raw, compose_meta_key_stack, d, b) refl
        | inr b ↦ rw (raw, d, b) refl
      ]
      | inr d ↦ rw (raw, d) refl
    ]

ok-injective : {A : Type 0} {a b : A} → ok a ≡ ok b → a ≡ b
ok-injective e = cc e

module _ (E : Engine) where
  -- The check of the other tags sees only their keys.
  pub check_tags-cong :
      (p q : E.Partition) (kc : KeyComposer) (k current : List ℕ) (now : ℕ) (tags : List KeyTag)
      → ((t : KeyTag)
          → bytes_eq (as_slice t) current ≡ false
          → E.get p (compose_meta_key_into kc (as_slice t) k)
            ≡ E.get q (compose_meta_key_into kc (as_slice t) k))
      → check_tags E p kc k current now tags ≡ check_tags E q kc k current now tags
  unfolding check_tags
  check_tags-cong p q kc k current now [] same = refl
  check_tags-cong p q kc k current now (t ∷ tags) same =
      elim (Bool-cases (bytes_eq (as_slice t) current)) [
        | inl b ↦ rw (b, check_tags) (check_tags-cong p q kc k current now tags same)
        | inr b ↦
            rw (b, same t b)
              (ap
                (λ rest. elim (live_base now (E.get q (compose_meta_key_into kc (as_slice t) k))) [
                  | none ↦ rest
                  | some base_meta ↦ err (Error.wrong_type err_wrong_type)
                ])
                (check_tags-cong p q kc k current now tags same))
      ]

  -- The commands use the loop's answer, also for an empty partition.
  check_tags-empty :
      (p : E.Partition) (kc : KeyComposer) (k current : List ℕ) (now : ℕ) (tags : List KeyTag)
      → ((j : List ℕ) → E.get p j ≡ none)
      → check_tags E p kc k current now tags ≡ ok tt
  unfolding check_tags
  check_tags-empty p kc k current now [] none_there = refl
  check_tags-empty p kc k current now (t ∷ tags) none_there =
      elim (Bool-cases (bytes_eq (as_slice t) current)) [
        | inl b ↦ rw b (check_tags-empty p kc k current now tags none_there)
        | inr b ↦
            rw (b, none_there (compose_meta_key_into kc (as_slice t) k))
              (check_tags-empty p kc k current now tags none_there)
      ]

  pub check_composite_meta-check_tags :
      (store : IsStore E) (db : Db E) (k current : List ℕ) (now : ℕ)
      → check_composite_meta_not_other_type E db k current now
        ≡ check_tags E db.meta_ks db.kc k current now all_composite_meta_tags
  unfolding check_composite_meta_not_other_type check_composite_meta_not_other_type_with_buf
  check_composite_meta-check_tags store db k current now =
      elim (Bool-cases (E.is_empty db.meta_ks)) [
        | inl b ↦ rw b (
            sym (
              check_tags-empty db.meta_ks db.kc k current now all_composite_meta_tags
                (λ j. store.get_empty db.meta_ks j b)))
        | inr b ↦ rw b refl
      ]

  module _ {M : Type 0} (ops : MetaOps M) (db : Db E) (k meta_k : List ℕ) (now : ℕ) where
    -- Live metadata is found, unless a live string hides it.
    pub get_meta_checked-found :
        (m : M)
        → holds_string E db k now ≡ false
        → live ops.decode ops.is_expired now (E.get db.meta_ks meta_k) ≡ some m
        → get_meta_checked E ops db k meta_k now ≡ ok (some m)
    unfolding get_meta_checked
    get_meta_checked-found m s l = rw (s, l) refl

    pub get_meta_checked-missing :
        holds_string E db k now ≡ false
        → live ops.decode ops.is_expired now (E.get db.meta_ks meta_k) ≡ none
        → check_composite_meta_not_other_type E db k (as_slice ops.tag) now ≡ ok tt
        → get_meta_checked E ops db k meta_k now ≡ ok none
    unfolding get_meta_checked
    get_meta_checked-missing s l c = rw (s, l, c) refl

    pub get_meta_checked-none :
        get_meta_checked E ops db k meta_k now ≡ ok none
        → (holds_string E db k now ≡ false)
          × (live ops.decode ops.is_expired now (E.get db.meta_ks meta_k) ≡ none)
          × (check_composite_meta_not_other_type E db k (as_slice ops.tag) now ≡ ok tt)
    unfolding get_meta_checked
    get_meta_checked-none h = elim (Bool-cases (holds_string E db k now)) [
      | inl s ↦ cc (rw s at h)
      | inr s ↦ elim (Option-cases (live ops.decode ops.is_expired now (E.get db.meta_ks meta_k))) [
        | inr (m, l) ↦ cc (ok-injective (let z : ok (some m) ≡ ok none = rw (s, l) at h in z))
        | inl l ↦ (
          s,
          l,
          by_check (check_composite_meta_not_other_type E db k (as_slice ops.tag) now)
              (rw (s, l) at h),
        )
      ]
    ]
      where
        by_check :
            (r : Result Unit)
            → (r >>= λ _. let nothing : Result (Option M) = ok none in nothing) ≡ ok none
            → r ≡ ok tt
        by_check (ok _) e = refl
        by_check (err x) e = cc e
