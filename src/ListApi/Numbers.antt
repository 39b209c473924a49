-- ===== src/ListApi/Numbers.antt =====
-- embed/src/api/list/key.rs: the keys of the elements of a list, and their 64-bit numbers.
use wedb_embed.Base.{
  ℕ, ◌≡◌, ◌≢◌, refl, sym, ap, ap₂, ◌∙◌, List, [], ◌++◌, true, false, arith, ◌==◌, ==_iff, length,
  drop, drop-length_append, take_all, Bool-cases, inl, inr,
}
use mathlib.Core.List.{flatten}
use wedb_embed.Bytes.{IsU64, bytes_eq, starts_with, to_be_bytes, from_be_bytes}
use wedb_embed.Bytes.Order.{bytes_eq_refl, bytes_eq→eq, starts_with-append, starts_with→append}
use wedb_embed.Bytes.Words.{from_be_bytes-to_be_bytes}
use wedb_embed.KeyTag.{KeyTag, as_slice}
use wedb_embed.KeyComposer.{
  KeyComposer, compose_prefix, compose_prefix_stack, compose_meta_key_into,
}
use wedb_embed.KeyComposer.Layout.{stack_key_layout, prefix_layout}
use wedb_embed.KeyComposer.Subkey.{compose_sub_u64_be, subkey_composer}
use wedb_embed.KeyComposer.RoundTrip.{IsScope}
use wedb_embed.KeyComposer.Keys.{compose_subkey_stack-prefix, meta_key-data_key}
use wedb_embed.ListMeta.{wrapping_add, wrapping_sub}
use wedb_embed.ListApi.Keys.{prefix_stack, item, key_for_idx, item_key_composer}

-- What all element keys of a list begin with.
abbrev pub prefix : KeyComposer → List ℕ → List ℕ
prefix kc key = compose_prefix kc (as_slice KeyTag.list_data) key

pub prefix_stack_lem : (kc : KeyComposer) (key : List ℕ) → prefix_stack kc key ≡ prefix kc key
unfolding prefix_stack compose_prefix_stack flatten
prefix_stack_lem kc key =
    stack_key_layout kc (as_slice KeyTag.list_data) key []
    ∙ sym (prefix_layout kc (as_slice KeyTag.list_data) key)

pub item_lem :
    (kc : KeyComposer) (key : List ℕ) (n : ℕ) → item kc key n ≡ prefix kc key ++ to_be_bytes 8 n
unfolding item
item_lem kc key n = compose_subkey_stack-prefix kc (as_slice KeyTag.list_data) key (to_be_bytes 8 n)

pub key_for_idx-item :
    (kc : KeyComposer) (key : List ℕ) (n : ℕ) → key_for_idx kc key n ≡ item kc key n
unfolding key_for_idx item_key_composer compose_sub_u64_be subkey_composer
key_for_idx-item kc key n =
    ap₂ ◌++◌
      (take_all (length (prefix_stack kc key)) (prefix_stack kc key) (omega arith)
        ∙ prefix_stack_lem kc key)
      refl
    ∙ sym (item_lem kc key n)

pub starts_with-item :
    (kc : KeyComposer) (key : List ℕ) (n : ℕ) → starts_with (prefix kc key) (item kc key n) ≡ true
starts_with-item kc key n =
    rw (item_lem kc key n) (starts_with-append (prefix kc key) (to_be_bytes 8 n))

item-injective :
    (kc : KeyComposer) (key : List ℕ) (a b : ℕ)
    → IsU64 a
    → IsU64 b
    → item kc key a ≡ item kc key b
    → a ≡ b
item-injective kc key a b ha hb e =
    sym (from_be_bytes-to_be_bytes a ha) ∙ ap from_be_bytes words ∙ from_be_bytes-to_be_bytes b hb
  where
    words : to_be_bytes 8 a ≡ to_be_bytes 8 b
    words =
        sym (drop-length_append (prefix kc key) (to_be_bytes 8 a))
        ∙ ap (drop (length (prefix kc key))) (sym (item_lem kc key a) ∙ e ∙ item_lem kc key b)
        ∙ drop-length_append (prefix kc key) (to_be_bytes 8 b)

-- Element keys are compared by their numbers.
pub bytes_eq-item :
    (kc : KeyComposer) (key : List ℕ) (a b : ℕ)
    → IsU64 a
    → IsU64 b
    → bytes_eq (item kc key a) (item kc key b) ≡ (a == b)
bytes_eq-item kc key a b ha hb = elim (Bool-cases (a == b)) [
  | inl e ↦ rw (e, (==_iff a b).0 e) (bytes_eq_refl (item kc key b))
  | inr n ↦ elim (Bool-cases (bytes_eq (item kc key a) (item kc key b))) [
    | inl same ↦
        absurd
          (cc (sym n ∙ (==_iff a b).1 (item-injective kc key a b ha hb (bytes_eq→eq _ _ same))))
    | inr differ ↦ rw n differ
  ]
]

-- A key outside of the prefix is no element key.
pub bytes_eq-outside :
    (kc : KeyComposer) (key k : List ℕ) (n : ℕ)
    → starts_with (prefix kc key) k ≡ false
    → bytes_eq (item kc key n) k ≡ false
bytes_eq-outside kc key k n h = elim (Bool-cases (bytes_eq (item kc key n) k)) [
  | inl same ↦ absurd (
      cc (
        sym h
        ∙ ap (starts_with (prefix kc key)) (sym (bytes_eq→eq _ _ same))
        ∙ starts_with-item kc key n))
  | inr differ ↦ differ
]

-- No metadata key, and no string's, begins with the prefix.
pub meta_key-outside :
    (kc : KeyComposer) (t : KeyTag) (key other : List ℕ)
    → IsScope kc
    → t ≢ KeyTag.list_data
    → starts_with (prefix kc key) (compose_meta_key_into kc (as_slice t) other) ≡ false
meta_key-outside kc t key other h ne =
    elim (Bool-cases (starts_with (prefix kc key) (compose_meta_key_into kc (as_slice t) other))) [
      | inl b ↦
          let (r, e) =
            starts_with→append (prefix kc key) (compose_meta_key_into kc (as_slice t) other) b in
          absurd (
            ne (
              meta_key-data_key kc kc t KeyTag.list_data other key r h h
                (e ∙ sym (compose_subkey_stack-prefix kc (as_slice KeyTag.list_data) key r))))
      | inr b ↦ b
    ]

pub wrapping_sub-IsU64 : (a b : ℕ) → IsU64 (wrapping_sub a b)
wrapping_sub-IsU64 a b = omega arith

pub wrapping_add-IsU64 : (a b : ℕ) → IsU64 (wrapping_add a b)
wrapping_add-IsU64 a b = omega arith
