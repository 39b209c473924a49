-- ===== src/KeyComposer/RoundTrip.antt =====
-- embed/src/key_composer/composer.rs: composed keys taken apart.
use wedb_embed.Base.{
  ℕ, suc, ◌+◌, ◌^◌, ◌≤◌, ◌<◌, ◌≡◌, refl, ap, ◌∙◌, List, [], ◌∷◌, ◌++◌, append_assoc, some, true,
  false, ◌&&◌, ◌||◌, not, arith, ltb, leb, lt→ltb, ◌==◌, length, length-append, get_or, drop,
  take-length_append, drop-length_append, drop_prefix,
}
use wedb_embed.Bytes.{IsU64}
use wedb_embed.Bytes.Order.{starts_with-append}
use wedb_embed.Oppv.{oppv_len_u64, encode_oppv_u64_slice, decode_oppv_u64}
use wedb_embed.Oppv.RoundTrip.{length-encode, decode-encode}
use wedb_embed.KeyTag.{KeyTag, as_slice, as_u8}
use wedb_embed.KeyTag.Laws.{from_u8-as_u8}
use wedb_embed.KeyComposer.{
  KeyComposer, encode_scope_prefix_fixed, encode_scope_prefix, scope_prefix_len,
}
use wedb_embed.KeyComposer.Layout.{meta_layout, data_layout, length-scope}
use wedb_embed.KeyComposer.Parse.{
  slice_from, parse_scoped_prefix, is_some, is_key_in_ns, holds_bare_key, counted_key,
  extract_user_key, transform_key_to_target_bytes,
}

-- The identifiers of a scope are 64-bit words.
abbrev pub IsScope : KeyComposer → Type 0
IsScope kc = IsU64 kc.ns_id × IsU64 kc.db

oppv_len_pos : (v : ℕ) → 1 ≤ oppv_len_u64 v
unfolding oppv_len_u64
oppv_len_pos v = ground arith

decode-scope :
    (kc : KeyComposer) (r : List ℕ)
    → IsU64 kc.ns_id
    → decode_oppv_u64 (drop 1 (encode_scope_prefix_fixed kc ++ r))
      ≡ some (kc.ns_id, oppv_len_u64 kc.ns_id)
unfolding encode_scope_prefix_fixed
decode-scope kc r h = rw append_assoc (decode-encode kc.ns_id (encode_oppv_u64_slice kc.db ++ r) h)

length_scope :
    (kc : KeyComposer) → scope_prefix_len kc ≡ 1 + oppv_len_u64 kc.ns_id + oppv_len_u64 kc.db
unfolding scope_prefix_len
length_scope kc = refl

scope_longer :
    (kc : KeyComposer) (b : ℕ) (rest : List ℕ)
    → length (encode_scope_prefix_fixed kc ++ (b ∷ rest)) ≡ scope_prefix_len kc + suc (length rest)
scope_longer kc b rest =
    omega (arith, length-append (encode_scope_prefix_fixed kc) (b ∷ rest), length-scope kc)

scope_head : (kc : KeyComposer) (r : List ℕ) → get_or (encode_scope_prefix_fixed kc ++ r) 0 0 ≡ 0
unfolding encode_scope_prefix_fixed
scope_head kc r = refl

scope_split :
    (kc : KeyComposer) (r : List ℕ)
    → encode_scope_prefix_fixed kc ++ r
      ≡ (0 ∷ encode_oppv_u64_slice kc.ns_id) ++ (encode_oppv_u64_slice kc.db ++ r)
unfolding encode_scope_prefix_fixed
scope_split kc r = append_assoc (0 ∷ encode_oppv_u64_slice kc.ns_id) (encode_oppv_u64_slice kc.db) r

parse_chain :
    (k r : List ℕ) {n d c1 c2 : ℕ}
    → ltb (length k) 3 || not (get_or k 0 0 == 0) ≡ false
    → decode_oppv_u64 (drop 1 k) ≡ some (n, c1)
    → slice_from k (1 + c1) ≡ some r
    → decode_oppv_u64 r ≡ some (d, c2)
    → 1 + c1 + c2 < length k
    → parse_scoped_prefix k ≡ some (record { ns_id = n; db = d }, 1 + c1 + c2, drop (1 + c1 + c2) k)
unfolding parse_scoped_prefix
parse_chain k r long first middle second short = rw (long, first, middle, second, lt→ltb _ _ short)

-- A key of a scope of 64-bit numbers is parsed into the scope, the length of its prefix and the
-- rest, if there is a rest.
pub parse_scoped_prefix-scope :
    (kc : KeyComposer) (b : ℕ) (rest : List ℕ)
    → IsScope kc
    → parse_scoped_prefix (encode_scope_prefix_fixed kc ++ (b ∷ rest))
      ≡ some (kc, scope_prefix_len kc, b ∷ rest)
parse_scoped_prefix-scope kc b rest h =
    parse_chain (encode_scope_prefix_fixed kc ++ (b ∷ rest))
      (encode_oppv_u64_slice kc.db ++ (b ∷ rest)) long (decode-scope kc (b ∷ rest) h.0) middle
      (decode-encode kc.db (b ∷ rest) h.1) (omega (arith, scope_longer kc b rest, length_scope kc))
    ∙ ap some (
        ground (
          arith,
          drop_prefix (1 + oppv_len_u64 kc.ns_id + oppv_len_u64 kc.db)
              (encode_scope_prefix_fixed kc) (b ∷ rest),
          length-scope kc,
          length_scope kc,
        ))
  where
    long :
        ltb (length (encode_scope_prefix_fixed kc ++ (b ∷ rest))) 3
          || not (get_or (encode_scope_prefix_fixed kc ++ (b ∷ rest)) 0 0 == 0)
        ≡ false
    long = ground (
      arith,
      scope_head kc (b ∷ rest),
      scope_longer kc b rest,
      length_scope kc,
      oppv_len_pos kc.ns_id,
      oppv_len_pos kc.db,
    )

    middle :
        slice_from (encode_scope_prefix_fixed kc ++ (b ∷ rest)) (1 + oppv_len_u64 kc.ns_id)
        ≡ some (encode_oppv_u64_slice kc.db ++ (b ∷ rest))
    middle =
        unfold slice_from in
        ground (
          arith,
          scope_longer kc b rest,
          length_scope kc,
          ap (drop (1 + oppv_len_u64 kc.ns_id)) (scope_split kc (b ∷ rest)),
          drop_prefix (1 + oppv_len_u64 kc.ns_id) (0 ∷ encode_oppv_u64_slice kc.ns_id)
              (encode_oppv_u64_slice kc.db ++ (b ∷ rest)),
          length-encode kc.ns_id,
        )

pub extract_user_key-meta :
    (kc : KeyComposer) (t : KeyTag) (key : List ℕ)
    → holds_bare_key t ≡ true
    → extract_user_key kc (meta_layout kc (as_slice t) key) ≡ some key
unfolding extract_user_key as_slice
extract_user_key-meta kc t key h = ground (
  arith,
  starts_with-append (encode_scope_prefix_fixed kc) (as_slice t ++ key),
  drop-length_append (encode_scope_prefix_fixed kc) (as_slice t ++ key),
  from_u8-as_u8 t,
)

get_or-append : (xs : List ℕ) (y : ℕ) (ys : List ℕ) → get_or (xs ++ (y ∷ ys)) (length xs) 0 ≡ y
get_or-append [] y ys = refl
get_or-append (x ∷ xs) y ys = get_or-append xs y ys

oppv_len_le : (v : ℕ) → oppv_len_u64 v ≤ 9
unfolding oppv_len_u64
oppv_len_le v = ground arith

-- A key behind a tag byte and its own length is read back, whatever follows it.
counted_key-data :
    (t : ℕ) (key sub : List ℕ)
    → length key + 10 < 2 ^ 64
    → counted_key (t ∷ (encode_oppv_u64_slice (length key) ++ (key ++ sub))) ≡ some key
unfolding counted_key
counted_key-data t key sub small =
    rw (decode-encode (length key) (key ++ sub) (omega arith), start, fits)
      (ap some (take-length_append key sub))
  where
    start :
        drop
          (1 + oppv_len_u64 (length key))
          (t ∷ (encode_oppv_u64_slice (length key) ++ (key ++ sub)))
        ≡ key ++ sub
    start =
        drop_prefix (1 + oppv_len_u64 (length key)) (t ∷ encode_oppv_u64_slice (length key))
          (key ++ sub) (omega (arith, length-encode (length key)))

    fits :
        ltb (1 + oppv_len_u64 (length key) + length key) (2 ^ 64)
          && leb
              (1 + oppv_len_u64 (length key) + length key)
              (length (t ∷ (encode_oppv_u64_slice (length key) ++ (key ++ sub))))
        ≡ true
    fits = ground (
      arith,
      oppv_len_le (length key),
      length-append (encode_oppv_u64_slice (length key)) (key ++ sub),
      length-append key sub,
      length-encode (length key),
    )

pub extract_user_key-data :
    (kc : KeyComposer) (t : KeyTag) (key sub : List ℕ)
    → holds_bare_key t ≡ false
    → length key + 10 < 2 ^ 64
    → extract_user_key kc (data_layout kc (as_slice t) key sub) ≡ some key
unfolding extract_user_key as_slice
extract_user_key-data kc t key sub h small = ground (
  arith,
  starts_with-append (encode_scope_prefix_fixed kc)
      (as_slice t ++ (encode_oppv_u64_slice (length key) ++ (key ++ sub))),
  drop-length_append (encode_scope_prefix_fixed kc)
      (as_slice t ++ (encode_oppv_u64_slice (length key) ++ (key ++ sub))),
  from_u8-as_u8 t,
  counted_key-data (as_u8 t) key sub small,
)

-- A key of the scope is recognised, whatever tag it has.
pub is_key_in_ns-scope :
    (kc : KeyComposer) (t : KeyTag) (rest : List ℕ)
    → is_key_in_ns kc (encode_scope_prefix_fixed kc ++ (as_u8 t ∷ rest)) ≡ true
unfolding is_key_in_ns is_some
is_key_in_ns-scope kc t rest = ground (
  arith,
  starts_with-append (encode_scope_prefix_fixed kc) (as_u8 t ∷ rest),
  length-append (encode_scope_prefix_fixed kc) (as_u8 t ∷ rest),
  get_or-append (encode_scope_prefix_fixed kc) (as_u8 t) rest,
  from_u8-as_u8 t,
)

-- Moving a key that has a tag to another scope changes the scope and nothing else.
pub transform_key-scope :
    (kc target : KeyComposer) (t : KeyTag) (rest : List ℕ)
    → transform_key_to_target_bytes kc (encode_scope_prefix_fixed kc ++ (as_u8 t ∷ rest)) target
      ≡ some (encode_scope_prefix_fixed target ++ (as_u8 t ∷ rest))
unfolding transform_key_to_target_bytes encode_scope_prefix is_some
transform_key-scope kc target t rest = ground (
  arith,
  starts_with-append (encode_scope_prefix_fixed kc) (as_u8 t ∷ rest),
  drop-length_append (encode_scope_prefix_fixed kc) (as_u8 t ∷ rest),
  from_u8-as_u8 t,
)
