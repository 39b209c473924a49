-- ===== src/KeyComposer/Isolation.antt =====
-- embed/src/key_composer/composer.rs: layouts of keys compared, by scope, tag, user key and subkey.
use wedb_embed.Base.{
  ℕ, ◌<◌, ◌≡◌, refl, sym, ap, ◌∙◌, List, [], ◌∷◌, ◌++◌, append_assoc, append-nil, true, arith,
  length, get_or, take, take_prefix, drop_prefix, drop, ap₂,
}
use wedb_embed.Bytes.{IsU64, starts_with, bytes_lt, to_be_bytes}
use wedb_embed.Bytes.Order.{starts_with→append, bytes_lt-append_left}
use wedb_embed.Bytes.Words.{bytes_lt-to_be_bytes}
use wedb_embed.Oppv.{encode_oppv_u64_slice}
use wedb_embed.Oppv.Order.{encode-prefix_free}
use wedb_embed.KeyTag.{KeyTag, as_slice, as_u8, from_u8}
use wedb_embed.KeyTag.Laws.{from_u8-as_u8}
use wedb_embed.KeyComposer.{KeyComposer, encode_scope_prefix_fixed}
use wedb_embed.KeyComposer.Layout.{data_layout}
use wedb_embed.KeyComposer.Parse.{is_key_in_ns}
use wedb_embed.KeyComposer.RoundTrip.{IsScope}

cons-tail : {x y : ℕ} {xs ys : List ℕ} → x ∷ xs ≡ y ∷ ys → xs ≡ ys
cons-tail {xs} {ys} e = ap (drop 1) e

-- No prefix of a scope of 64-bit numbers begins another's: from equal texts that begin with such
-- prefixes, the scopes and what follows them are the same.
pub scope-prefix_free :
    (kc kd : KeyComposer) (r s : List ℕ)
    → IsScope kc
    → IsScope kd
    → encode_scope_prefix_fixed kc ++ r ≡ encode_scope_prefix_fixed kd ++ s
    → (kc ≡ kd) × (r ≡ s)
scope-prefix_free kc kd r s hc hd e = (ground (arith, ns.0, db.0), db.1)
  where
    flat :
        (k : KeyComposer) (t : List ℕ)
        → encode_scope_prefix_fixed k ++ t
          ≡ 0 ∷ (encode_oppv_u64_slice k.ns_id ++ (encode_oppv_u64_slice k.db ++ t))
    flat k t =
        unfold encode_scope_prefix_fixed in
        ap (◌∷◌ 0) (append_assoc (encode_oppv_u64_slice k.ns_id) (encode_oppv_u64_slice k.db) t)

    ns :
        (kc.ns_id ≡ kd.ns_id)
        × (encode_oppv_u64_slice kc.db ++ r ≡ encode_oppv_u64_slice kd.db ++ s)
    ns =
        encode-prefix_free kc.ns_id kd.ns_id _ _ hc.0 hd.0
          (cons-tail (sym (flat kc r) ∙ e ∙ flat kd s))

    db : (kc.db ≡ kd.db) × (r ≡ s)
    db = encode-prefix_free kc.db kd.db r s hc.1 hd.1 ns.1

pub tag_injective : (t u : KeyTag) → as_u8 t ≡ as_u8 u → t ≡ u
tag_injective t u e = cc (sym (from_u8-as_u8 t) ∙ ap from_u8 e ∙ from_u8-as_u8 u)

pub append_split :
    (xs ys r s : List ℕ) → length xs ≡ length ys → xs ++ r ≡ ys ++ s → (xs ≡ ys) × (r ≡ s)
append_split xs ys r s l e = (
  sym (take_prefix (length xs) xs r refl)
      ∙ ap (take (length xs)) e
      ∙ take_prefix (length xs) ys s l,
  sym (drop_prefix (length xs) xs r refl)
      ∙ ap (drop (length xs)) e
      ∙ drop_prefix (length xs) ys s l,
)

-- Two data keys with anything behind them are equal only if scope, tag, user key and the rest are.
pub data_layout-injective :
    (kc kd : KeyComposer) (t u : KeyTag) (key other r s : List ℕ)
    → IsScope kc
    → IsScope kd
    → IsU64 (length key)
    → IsU64 (length other)
    → data_layout kc (as_slice t) key r ≡ data_layout kd (as_slice u) other s
    → (kc ≡ kd) × (t ≡ u) × (key ≡ other) × (r ≡ s)
data_layout-injective kc kd t u key other r s hc hd hk ho e =
    (scope.0, tag_injective t u head, parts.0, parts.1)
  where
    scope :
        (kc ≡ kd)
        × (as_slice t ++ (encode_oppv_u64_slice (length key) ++ (key ++ r))
            ≡ as_slice u ++ (encode_oppv_u64_slice (length other) ++ (other ++ s)))
    scope = scope-prefix_free kc kd _ _ hc hd e

    head : as_u8 t ≡ as_u8 u
    head = unfold as_slice in ap (λ l. get_or l 0 0) scope.1

    lens : (length key ≡ length other) × (key ++ r ≡ other ++ s)
    lens = encode-prefix_free _ _ _ _ hk ho (unfold as_slice in ap (drop 1) scope.1)

    parts : (key ≡ other) × (r ≡ s)
    parts = append_split key other r s lens.0 lens.1

-- A key that begins with the data prefix of a user's key is a data key of just that key: a prefix scan
-- of one composite value meets no data key of another value, tag or scope.
pub prefix_scan-isolated :
    (kc kd : KeyComposer) (t u : KeyTag) (key other s : List ℕ)
    → IsScope kc
    → IsScope kd
    → IsU64 (length key)
    → IsU64 (length other)
    → starts_with (data_layout kc (as_slice t) key []) (data_layout kd (as_slice u) other s) ≡ true
    → (kc ≡ kd) × (t ≡ u) × (key ≡ other)
prefix_scan-isolated kc kd t u key other s hc hd hk ho h = (found.0, found.1, found.2)
  where
    rest :
        (r : List ℕ) × (data_layout kd (as_slice u) other s
          ≡ data_layout kc (as_slice t) key [] ++ r)
    rest = starts_with→append _ _ h

    extend :
        (r : List ℕ) → data_layout kc (as_slice t) key [] ++ r ≡ data_layout kc (as_slice t) key r
    extend r = simp append_assoc

    found : (kc ≡ kd) × (t ≡ u) × (key ≡ other) × (rest.0 ≡ s)
    found =
        data_layout-injective kc kd t u key other rest.0 s hc hd hk ho
          (sym (rest.1 ∙ extend rest.0))

-- A scope claims no key of another scope, both of 64-bit numbers.
pub is_key_in_ns-isolated :
    (kc kd : KeyComposer) (rest : List ℕ)
    → IsScope kc
    → IsScope kd
    → is_key_in_ns kd (encode_scope_prefix_fixed kc ++ rest) ≡ true
    → kc ≡ kd
unfolding is_key_in_ns
is_key_in_ns-isolated kc kd rest hc hd h = (scope-prefix_free kc kd rest found.0 hc hd found.1).0
  where
    found :
        (r : List ℕ) × (encode_scope_prefix_fixed kc ++ rest ≡ encode_scope_prefix_fixed kd ++ r)
    found = starts_with→append _ _ (ground arith)

-- Keys of one composite value whose subkeys are big-endian words are in the order of the words.
pub data_layout-order :
    (kc : KeyComposer) (tag key : List ℕ) (a b : ℕ)
    → IsU64 b
    → a < b
    → bytes_lt (data_layout kc tag key (to_be_bytes 8 a)) (data_layout kc tag key (to_be_bytes 8 b))
      ≡ true
data_layout-order kc tag key a b hb h = simp bytes_lt-append_left words
  where
    words : bytes_lt (to_be_bytes 8 a) (to_be_bytes 8 b) ≡ true
    words =
        ap₂ bytes_lt (sym (append-nil (to_be_bytes 8 a))) (sym (append-nil (to_be_bytes 8 b)))
        ∙ bytes_lt-to_be_bytes 8 a b [] [] (omega arith)
