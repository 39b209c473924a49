-- ===== src/KeyComposer/Keys.antt =====
-- embed/src/key_composer/composer.rs: laws of the functions that compose and take apart, from those of
-- the layouts.
use mathlib.Core.List.{flatten}
use wedb_embed.Base.{
  ℕ, ◌+◌, ◌^◌, ◌<◌, ◌≡◌, sym, ap, ◌∙◌, List, [], ◌∷◌, ◌++◌, append_assoc, append-nil, true, false,
  some, length, get_or, ap₂,
}
use wedb_embed.Bytes.{IsU64, starts_with, bytes_lt, to_be_bytes}
use wedb_embed.Bytes.Order.{starts_with-append}
use wedb_embed.Oppv.{encode_oppv_u64_slice}
use wedb_embed.Oppv.Order.{encode-prefix_free}
use wedb_embed.KeyTag.{KeyTag, as_slice}
use wedb_embed.SmallKey.{as_bytes}
use wedb_embed.KeyComposer.{
  KeyComposer, compose_meta_key_into, compose_meta_key_stack, compose_prefix, compose_subkey_stack,
  compose_oppv_subkey_stack,
}
use wedb_embed.KeyComposer.Layout.{
  data_layout, meta_key_layout, meta_key_stack_layout, prefix_layout, stack_key_layout,
  oppv_subkey_layout,
}
use wedb_embed.KeyComposer.Subkey.{SubkeyComposer, compose_sub, Composes, compose_sub-buf}
use wedb_embed.KeyComposer.Parse.{holds_bare_key, extract_user_key}
use wedb_embed.KeyComposer.RoundTrip.{IsScope, extract_user_key-meta, extract_user_key-data}
use wedb_embed.KeyComposer.Isolation.{
  data_layout-injective, scope-prefix_free, tag_injective, prefix_scan-isolated, data_layout-order,
  append_split,
}

data_split :
    (kc : KeyComposer) (tag key sub : List ℕ)
    → data_layout kc tag key sub ≡ compose_prefix kc tag key ++ sub
data_split kc tag key sub = rw (prefix_layout kc tag key) (simp append_assoc)

subkey_layout :
    (kc : KeyComposer) (tag key sub : List ℕ)
    → as_bytes (compose_subkey_stack kc tag key sub) ≡ data_layout kc tag key sub
unfolding compose_subkey_stack flatten
subkey_layout kc tag key sub =
    stack_key_layout kc tag key (sub ∷ []) ∙ ap (data_layout kc tag key) (append-nil sub)

-- The metadata key on the stack, by the short path or not, inline or spilled, is the one on the heap.
pub compose_meta_key_stack-heap :
    (kc : KeyComposer) (tag key : List ℕ)
    → as_bytes (compose_meta_key_stack kc tag key) ≡ compose_meta_key_into kc tag key
compose_meta_key_stack-heap kc tag key =
    meta_key_stack_layout kc tag key ∙ sym (meta_key_layout kc tag key)

-- A subkey composed on the stack is the heap's prefix of the value and the subkey, on all paths.
pub compose_subkey_stack-prefix :
    (kc : KeyComposer) (tag key sub : List ℕ)
    → as_bytes (compose_subkey_stack kc tag key sub) ≡ compose_prefix kc tag key ++ sub
compose_subkey_stack-prefix kc tag key sub =
    subkey_layout kc tag key sub ∙ data_split kc tag key sub

-- In a buffer that holds a value's prefix, a subkey composed is the one composed on the stack,
-- whatever the buffer was used for before.
pub compose_sub-stack :
    (kc : KeyComposer) (tag key sub : List ℕ) (c : SubkeyComposer)
    → Composes (compose_prefix kc tag key) c
    → (compose_sub c sub).buf ≡ as_bytes (compose_subkey_stack kc tag key sub)
compose_sub-stack kc tag key sub c h =
    compose_sub-buf (compose_prefix kc tag key) sub c h
    ∙ sym (compose_subkey_stack-prefix kc tag key sub)

-- For scopes of 64-bit numbers and keys with a 64-bit length: two data keys are equal only if scope,
-- tag, user key and subkey are.
pub compose_subkey_stack-injective :
    (kc kd : KeyComposer) (t u : KeyTag) (key other r s : List ℕ)
    → IsScope kc
    → IsScope kd
    → IsU64 (length key)
    → IsU64 (length other)
    → as_bytes (compose_subkey_stack kc (as_slice t) key r)
      ≡ as_bytes (compose_subkey_stack kd (as_slice u) other s)
    → (kc ≡ kd) × (t ≡ u) × (key ≡ other) × (r ≡ s)
compose_subkey_stack-injective kc kd t u key other r s hc hd hk ho e =
    data_layout-injective kc kd t u key other r s hc hd hk ho
      (sym (subkey_layout kc (as_slice t) key r) ∙ e ∙ subkey_layout kd (as_slice u) other s)

-- For scopes of 64-bit numbers and keys with a 64-bit length: a data key that begins with the prefix
-- that is scanned for a value is a key of just that value, so a scan or a removal by prefix meets no
-- data key of another scope, tag or user key.
pub compose_prefix-isolated :
    (kc kd : KeyComposer) (t u : KeyTag) (key other s : List ℕ)
    → IsScope kc
    → IsScope kd
    → IsU64 (length key)
    → IsU64 (length other)
    → starts_with
        (compose_prefix kc (as_slice t) key)
        (as_bytes (compose_subkey_stack kd (as_slice u) other s))
      ≡ true
    → (kc ≡ kd) × (t ≡ u) × (key ≡ other)
compose_prefix-isolated kc kd t u key other s hc hd hk ho h =
    prefix_scan-isolated kc kd t u key other s hc hd hk ho (
      ap₂ starts_with (sym (prefix_layout kc (as_slice t) key))
        (sym (subkey_layout kd (as_slice u) other s))
      ∙ h)

pub compose_prefix-starts :
    (kc : KeyComposer) (tag key s : List ℕ)
    → starts_with (compose_prefix kc tag key) (as_bytes (compose_subkey_stack kc tag key s)) ≡ true
compose_prefix-starts kc tag key s =
    rw (compose_subkey_stack-prefix kc tag key s) (starts_with-append (compose_prefix kc tag key) s)

-- For scopes of 64-bit numbers: a metadata key equals a data key only if the two have the same tag,
-- whatever the scopes and the user's keys.
pub meta_key-data_key :
    (kc kd : KeyComposer) (t u : KeyTag) (key other s : List ℕ)
    → IsScope kc
    → IsScope kd
    → compose_meta_key_into kc (as_slice t) key
      ≡ as_bytes (compose_subkey_stack kd (as_slice u) other s)
    → t ≡ u
meta_key-data_key kc kd t u key other s hc hd e =
    tag_injective t u (unfold as_slice in ap (λ l. get_or l 0 0) scope.1)
  where
    scope :
        (kc ≡ kd)
        × (as_slice t ++ key ≡ as_slice u ++ (encode_oppv_u64_slice (length other) ++ (other ++ s)))
    scope =
        scope-prefix_free kc kd _ _ hc hd
          (sym (meta_key_layout kc (as_slice t) key) ∙ e ∙ subkey_layout kd (as_slice u) other s)

-- The keys of one value whose subkeys are big-endian 64-bit words come in the order of the words.
pub compose_subkey_stack-order :
    (kc : KeyComposer) (tag key : List ℕ) (a b : ℕ)
    → IsU64 b
    → a < b
    → bytes_lt
        (as_bytes (compose_subkey_stack kc tag key (to_be_bytes 8 a)))
        (as_bytes (compose_subkey_stack kc tag key (to_be_bytes 8 b)))
      ≡ true
compose_subkey_stack-order kc tag key a b hb h =
    ap₂ bytes_lt (subkey_layout kc tag key (to_be_bytes 8 a))
      (subkey_layout kc tag key (to_be_bytes 8 b))
    ∙ data_layout-order kc tag key a b hb h

-- The user's key is read back from a metadata key of a tag that holds it bare.
pub extract_user_key-meta_key :
    (kc : KeyComposer) (t : KeyTag) (key : List ℕ)
    → holds_bare_key t ≡ true
    → extract_user_key kc (compose_meta_key_into kc (as_slice t) key) ≡ some key
extract_user_key-meta_key kc t key h =
    ap (extract_user_key kc) (meta_key_layout kc (as_slice t) key)
    ∙ extract_user_key-meta kc t key h

-- The user's key is read back from a data key of any tag that does not hold it bare, whatever the
-- subkey, if its length plus ten is a 64-bit number.
pub extract_user_key-subkey :
    (kc : KeyComposer) (t : KeyTag) (key sub : List ℕ)
    → holds_bare_key t ≡ false
    → length key + 10 < 2 ^ 64
    → extract_user_key kc (as_bytes (compose_subkey_stack kc (as_slice t) key sub)) ≡ some key
extract_user_key-subkey kc t key sub h small =
    ap (extract_user_key kc) (subkey_layout kc (as_slice t) key sub)
    ∙ extract_user_key-data kc t key sub h small

-- For scopes of 64-bit numbers, keys and second fields with a 64-bit length: two keys with a second
-- field are equal only if scope, tag, user key, second field and the rest are.
pub compose_oppv_subkey_stack-injective :
    (kc kd : KeyComposer) (t u : KeyTag) (key other mid nid r s : List ℕ)
    → IsScope kc
    → IsScope kd
    → IsU64 (length key)
    → IsU64 (length other)
    → IsU64 (length mid)
    → IsU64 (length nid)
    → as_bytes (compose_oppv_subkey_stack kc (as_slice t) key mid r)
      ≡ as_bytes (compose_oppv_subkey_stack kd (as_slice u) other nid s)
    → (kc ≡ kd) × (t ≡ u) × (key ≡ other) × (mid ≡ nid) × (r ≡ s)
compose_oppv_subkey_stack-injective kc kd t u key other mid nid r s hc hd hk ho hm hn e =
    (outer.0, outer.1, outer.2, parts.0, parts.1)
  where
    outer :
        (kc ≡ kd)
        × (t ≡ u)
        × (key ≡ other)
        × (encode_oppv_u64_slice (length mid) ++ (mid ++ r)
            ≡ encode_oppv_u64_slice (length nid) ++ (nid ++ s))
    outer = data_layout-injective kc kd t u key other _ _ hc hd hk ho (
        sym (oppv_subkey_layout kc (as_slice t) key mid r)
        ∙ e
        ∙ oppv_subkey_layout kd (as_slice u) other nid s)

    lens : (length mid ≡ length nid) × (mid ++ r ≡ nid ++ s)
    lens = encode-prefix_free _ _ _ _ hm hn outer.3

    parts : (mid ≡ nid) × (r ≡ s)
    parts = append_split mid nid r s lens.0 lens.1
