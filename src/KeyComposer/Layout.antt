-- ===== src/KeyComposer/Layout.antt =====
-- embed/src/key_composer/composer.rs: the layouts of metadata keys and data keys, and each function
-- that composes one against them.
use mathlib.Core.List.{flatten}
use wedb_embed.Base.{
  ℕ, ◌+◌, ◌%◌, ◌≤◌, ◌≡◌, refl, sym, ap, ap₂, ◌∙◌, List, [], ◌∷◌, ◌++◌, append_assoc, append-nil,
  true, ◌&&◌, arith, ltb, leb, leb→le, ◌==◌, if◌then◌else◌, length, length-append, get_or,
  Bool-cases, inl, inr,
}
use wedb_embed.Oppv.{oppv_len_u64, encode_oppv_u64_slice, encode_oppv_u64}
use wedb_embed.Oppv.RoundTrip.{length-encode, one_form}
use wedb_embed.SmallKey.{SmallKey, inline_cap, as_bytes}
use wedb_embed.SmallKey.Laws.{inline_write, write_all-flatten}
use wedb_embed.KeyComposer.{
  KeyComposer, is_default, scope_prefix_len, encode_scope_prefix_fixed, encode_scope_prefix,
  compose_meta_key_into, inline_of, compose_meta_key_stack, compose_prefix, add_lengths, heap_key,
  try_compose_stack_key, compose_oppv_subkey_stack,
}

-- The layouts that the documentation of the source gives.
abbrev pub meta_layout : KeyComposer → List ℕ → List ℕ → List ℕ
meta_layout kc tag key = encode_scope_prefix_fixed kc ++ (tag ++ key)

abbrev pub data_layout : KeyComposer → List ℕ → List ℕ → List ℕ → List ℕ
data_layout kc tag key sub =
    encode_scope_prefix_fixed kc ++ (tag ++ (encode_oppv_u64_slice (length key) ++ (key ++ sub)))

default_scope :
    (kc : KeyComposer) → is_default kc ≡ true → encode_scope_prefix_fixed kc ≡ 0 ∷ 0 ∷ 0 ∷ []
unfolding is_default encode_scope_prefix_fixed encode_oppv_u64_slice
default_scope kc h = ground arith

one_byte : (tag : List ℕ) → (length tag == 1) ≡ true → tag ≡ get_or tag 0 0 ∷ []
one_byte [] h = ground arith
one_byte (t ∷ []) h = refl
one_byte (t ∷ u ∷ tag) h = ground arith

pub length-scope : (kc : KeyComposer) → length (encode_scope_prefix_fixed kc) ≡ scope_prefix_len kc
unfolding encode_scope_prefix_fixed scope_prefix_len
length-scope kc = omega (
  arith,
  length-append (encode_oppv_u64_slice kc.ns_id) (encode_oppv_u64_slice kc.db),
  length-encode kc.ns_id,
  length-encode kc.db,
)

-- A small key written piece by piece holds the pieces, if the length given is theirs.
as_bytes-inline_of :
    (pieces : List (List ℕ)) (n : ℕ)
    → n ≡ length (flatten pieces)
    → n ≤ inline_cap
    → as_bytes (inline_of pieces n) ≡ flatten pieces
unfolding inline_of as_bytes
as_bytes-inline_of pieces n e h =
    rw write_all-flatten (inline_write (flatten pieces) (n % 256) (omega arith) (omega arith))

-- The short paths write what the layout says.
meta_short :
    (kc : KeyComposer) (tag key : List ℕ)
    → is_default kc && length tag == 1 ≡ true
    → 0 ∷ 0 ∷ 0 ∷ get_or tag 0 0 ∷ key ≡ meta_layout kc tag key
meta_short kc tag key h =
    sym
      (ap₂ (λ a b. a ++ (b ++ key)) (default_scope kc (ground arith)) (one_byte tag (ground arith)))

data_short :
    (kc : KeyComposer) (tag key sub : List ℕ)
    → is_default kc && length tag == 1 && ltb (length key) 128 ≡ true
    → 0 ∷ 0 ∷ 0 ∷ get_or tag 0 0 ∷ (length key % 256) ∷ (key ++ sub) ≡ data_layout kc tag key sub
data_short kc tag key sub h =
    ap (λ n. 0 ∷ 0 ∷ 0 ∷ get_or tag 0 0 ∷ n ∷ (key ++ sub)) small
    ∙ ap (λ l. 0 ∷ 0 ∷ 0 ∷ get_or tag 0 0 ∷ (l ++ (key ++ sub)))
        (sym (one_form (length key) (ground arith)))
    ∙ meta_short kc tag (encode_oppv_u64_slice (length key) ++ (key ++ sub)) (ground arith)
  where
    small : length key % 256 ≡ length key
    small = ground arith

-- A key that goes to the array if it fits, and elsewhere if not, is the same bytes.
either_way :
    (pieces : List (List ℕ)) (n : ℕ) (other : SmallKey) (layout : List ℕ)
    → flatten pieces ≡ layout
    → n ≡ length layout
    → as_bytes other ≡ layout
    → as_bytes (if leb n inline_cap then inline_of pieces n else other) ≡ layout
either_way pieces n other layout e l o = elim (Bool-cases (leb n inline_cap)) [
  | inl h ↦ rw h (as_bytes-inline_of pieces n (l ∙ ap length (sym e)) (leb→le n inline_cap h) ∙ e)
  | inr h ↦ rw h o
]

length-meta_layout :
    (kc : KeyComposer) (tag key : List ℕ)
    → scope_prefix_len kc + length tag + length key ≡ length (meta_layout kc tag key)
length-meta_layout kc tag key = omega (
  arith,
  length-append (encode_scope_prefix_fixed kc) (tag ++ key),
  length-append tag key,
  length-scope kc,
)

length-data_layout :
    (kc : KeyComposer) (tag key sub : List ℕ)
    → scope_prefix_len kc + length tag + oppv_len_u64 (length key) + length key + length sub
      ≡ length (data_layout kc tag key sub)
length-data_layout kc tag key sub = omega (
  arith,
  length-meta_layout kc tag (encode_oppv_u64_slice (length key) ++ (key ++ sub)),
  length-append (encode_oppv_u64_slice (length key)) (key ++ sub),
  length-append key sub,
  length-encode (length key),
)

meta_pieces :
    (kc : KeyComposer) (tag key : List ℕ)
    → flatten
        ((0 ∷ []) ∷ encode_oppv_u64_slice kc.ns_id ∷ encode_oppv_u64_slice kc.db ∷ tag ∷ key ∷ [])
      ≡ meta_layout kc tag key
unfolding flatten encode_scope_prefix_fixed
meta_pieces kc tag key = simp (append_assoc, append-nil)

pub meta_key_layout :
    (kc : KeyComposer) (tag key : List ℕ)
    → compose_meta_key_into kc tag key ≡ meta_layout kc tag key
unfolding compose_meta_key_into encode_scope_prefix
meta_key_layout kc tag key = elim (Bool-cases (is_default kc && length tag == 1)) [
  | inl d ↦ rw d (meta_short kc tag key d)
  | inr d ↦ rw d (append_assoc (encode_scope_prefix_fixed kc) tag key)
]

-- The key on the stack and the key on the heap are the same bytes.
pub meta_key_stack_layout :
    (kc : KeyComposer) (tag key : List ℕ)
    → as_bytes (compose_meta_key_stack kc tag key) ≡ meta_layout kc tag key
unfolding compose_meta_key_stack encode_scope_prefix
meta_key_stack_layout kc tag key =
    elim (Bool-cases (is_default kc && length tag == 1 && leb (4 + length key) inline_cap)) [
      | inl d ↦ rw d (
          as_bytes-inline_of ((0 ∷ 0 ∷ 0 ∷ get_or tag 0 0 ∷ []) ∷ key ∷ []) (4 + length key)
            (unfold flatten in rw append-nil (omega arith)) (ground arith)
          ∙ (unfold flatten in rw append-nil (meta_short kc tag key (ground arith))))
      | inr d ↦ rw d (
          either_way
            ((0 ∷ [])
              ∷ encode_oppv_u64_slice kc.ns_id
              ∷ encode_oppv_u64_slice kc.db
              ∷ tag
              ∷ key
              ∷ [])
            (scope_prefix_len kc + length tag + length key)
            (SmallKey.heap ((encode_scope_prefix_fixed kc ++ tag) ++ key)) (meta_layout kc tag key)
            (meta_pieces kc tag key) (length-meta_layout kc tag key)
            (unfold as_bytes in append_assoc (encode_scope_prefix_fixed kc) tag key))
    ]

pub prefix_layout :
    (kc : KeyComposer) (tag key : List ℕ) → compose_prefix kc tag key ≡ data_layout kc tag key []
unfolding compose_prefix encode_scope_prefix encode_oppv_u64
prefix_layout kc tag key =
    elim (Bool-cases (is_default kc && length tag == 1 && ltb (length key) 128)) [
      | inl d ↦ rw d (
          ap (λ l. 0 ∷ 0 ∷ 0 ∷ get_or tag 0 0 ∷ (length key % 256) ∷ l) (sym (append-nil key))
          ∙ data_short kc tag key [] d)
      | inr d ↦ rw d (simp (append_assoc, append-nil))
    ]

add_lengths-flatten : (n : ℕ) (ss : List (List ℕ)) → add_lengths n ss ≡ n + length (flatten ss)
unfolding add_lengths flatten
add_lengths-flatten n [] = omega arith
add_lengths-flatten n (s ∷ ss) =
    omega (arith, add_lengths-flatten (n + length s) ss, length-append s (flatten ss))

pub heap_key_layout :
    (kc : KeyComposer) (tag key : List ℕ) (extra : List (List ℕ))
    → as_bytes (heap_key kc tag key extra) ≡ data_layout kc tag key (flatten extra)
unfolding heap_key as_bytes encode_scope_prefix encode_oppv_u64
heap_key_layout kc tag key extra = simp append_assoc

data_length :
    (kc : KeyComposer) (tag key : List ℕ) (extra : List (List ℕ))
    → add_lengths (scope_prefix_len kc + length tag + oppv_len_u64 (length key) + length key) extra
      ≡ length (data_layout kc tag key (flatten extra))
data_length kc tag key extra =
    add_lengths-flatten _ extra ∙ length-data_layout kc tag key (flatten extra)

-- Every key composed on the stack is the layout of its parts.
pub stack_key_layout :
    (kc : KeyComposer) (tag key : List ℕ) (extra : List (List ℕ))
    → as_bytes (try_compose_stack_key kc tag key extra) ≡ data_layout kc tag key (flatten extra)
unfolding try_compose_stack_key flatten
stack_key_layout kc tag key extra =
    elim (Bool-cases (is_default kc && length tag == 1 && ltb (length key) 128)) [
      | inl d ↦ rw d (
          either_way ((0 ∷ 0 ∷ 0 ∷ get_or tag 0 0 ∷ (length key % 256) ∷ []) ∷ key ∷ extra)
            (add_lengths (5 + length key) extra) (heap_key kc tag key extra)
            (data_layout kc tag key (flatten extra)) (data_short kc tag key (flatten extra) d)
            (omega (
              arith,
              add_lengths-flatten (5 + length key) extra,
              length-append key (flatten extra),
              ap length (data_short kc tag key (flatten extra) d),
            ))
            (heap_key_layout kc tag key extra))
      | inr d ↦ rw d (
          either_way
            (encode_scope_prefix_fixed kc ∷ tag ∷ encode_oppv_u64_slice (length key) ∷ key ∷ extra)
            (add_lengths (scope_prefix_len kc + length tag + oppv_len_u64 (length key) + length key)
              extra)
            (heap_key kc tag key extra) (data_layout kc tag key (flatten extra)) refl
            (data_length kc tag key extra) (heap_key_layout kc tag key extra))
    ]

-- The key with a second field behind its own length.
pub oppv_subkey_layout :
    (kc : KeyComposer) (tag key mid sub : List ℕ)
    → as_bytes (compose_oppv_subkey_stack kc tag key mid sub)
      ≡ data_layout kc tag key (encode_oppv_u64_slice (length mid) ++ (mid ++ sub))
unfolding compose_oppv_subkey_stack encode_scope_prefix encode_oppv_u64
oppv_subkey_layout kc tag key mid sub =
    either_way
      (encode_scope_prefix_fixed kc
        ∷ tag
        ∷ encode_oppv_u64_slice (length key)
        ∷ key
        ∷ encode_oppv_u64_slice (length mid)
        ∷ mid
        ∷ sub
        ∷ [])
      (scope_prefix_len kc
        + length tag
        + oppv_len_u64 (length key)
        + length key
        + oppv_len_u64 (length mid)
        + length mid
        + length sub)
      (SmallKey.heap (
        (((((encode_scope_prefix_fixed kc ++ tag) ++ encode_oppv_u64_slice (length key)) ++ key)
            ++ encode_oppv_u64_slice (length mid))
          ++ mid)
        ++ sub))
      (data_layout kc tag key (encode_oppv_u64_slice (length mid) ++ (mid ++ sub)))
      (unfold flatten in rw append-nil)
      (omega (
        arith,
        length-data_layout kc tag key (encode_oppv_u64_slice (length mid) ++ (mid ++ sub)),
        length-append (encode_oppv_u64_slice (length mid)) (mid ++ sub),
        length-append mid sub,
        length-encode (length mid),
      ))
      (unfold as_bytes in simp append_assoc)
