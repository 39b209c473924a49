-- ===== src/KeyMeta/RoundTrip.antt =====
-- embed/src/meta.rs: the two forms of a metadata header, written and read.
use wedb_embed.Base.{
  ℕ, ◌+◌, ◌≤◌, ◌≡◌, refl, sym, ap, ◌∙◌, bit_and, true, false, ◌&&◌, List, [], ◌∷◌, ◌++◌,
  append_assoc, some, arith, leb, ◌==◌, if◌then◌else◌, length, length-append, take_prefix,
  drop_prefix, Bool-cases, inl, inr,
}
use wedb_embed.Bytes.{IsU64, to_be_bytes}
use wedb_embed.Bytes.Words.{length-to_be_bytes, from_be_bytes-to_be_bytes}
use wedb_embed.KeyMeta.{
  RedisType, type_as_u8, type_from_u8, is_single_kv_type, KeyMeta, encode, kvrocks_flags,
  encode_kvrocks, u64_at, decode_kvrocks, decode, is_64bit_encoded_flags,
}

-- The fields that are words fit their width.
pub record IsValid (m : KeyMeta) : Type 0 where
  pub expire : IsU64 m.expire_at
  pub version : IsU64 m.version
  pub size : IsU64 m.size

pub type_from_u8-type_as_u8 : (t : RedisType) → type_from_u8 (type_as_u8 t) ≡ t
unfolding type_from_u8 type_as_u8
type_from_u8-type_as_u8 RedisType.none_type = refl
type_from_u8-type_as_u8 _ = refl

pub type_as_u8-le : (t : RedisType) → type_as_u8 t ≤ 14
unfolding type_as_u8
type_as_u8-le RedisType.none_type = omega arith
type_as_u8-le _ = omega arith

-- A word behind `i` bytes.
pub u64_at-word :
    (i : ℕ) (front : List ℕ) (v : ℕ) (rest : List ℕ)
    → i ≡ length front
    → IsU64 v
    → u64_at (front ++ (to_be_bytes 8 v ++ rest)) i ≡ v
unfolding u64_at
u64_at-word i front v rest e h =
    rw
      (
        drop_prefix i front (to_be_bytes 8 v ++ rest) e,
        take_prefix 8 (to_be_bytes 8 v) rest (sym (length-to_be_bytes 8 v)),
      )
      (from_be_bytes-to_be_bytes v h)

-- Three words behind some bytes.
three_words :
    (i : ℕ) (front : List ℕ) (a b c : ℕ) (rest : List ℕ)
    → i ≡ length front
    → IsU64 a
    → IsU64 b
    → IsU64 c
    → let l = front ++ (to_be_bytes 8 a ++ (to_be_bytes 8 b ++ (to_be_bytes 8 c ++ rest))) in
      (u64_at l i ≡ a) × (u64_at l (i + 8) ≡ b) × (u64_at l (i + 16) ≡ c)
three_words i front a b c rest e ha hb hc = (
  u64_at-word i front a _ e ha,
  rw (← append_assoc front (to_be_bytes 8 a)) (
      u64_at-word (i + 8) (front ++ to_be_bytes 8 a) b _
        (omega (arith, length-append front (to_be_bytes 8 a), length-to_be_bytes 8 a)) hb),
  rw
      (
        ← append_assoc (to_be_bytes 8 a) (to_be_bytes 8 b),
        ← append_assoc front (to_be_bytes 8 a ++ to_be_bytes 8 b),
      )
      (u64_at-word (i + 16) (front ++ (to_be_bytes 8 a ++ to_be_bytes 8 b)) c rest
        (omega (
          arith,
          length-append front (to_be_bytes 8 a ++ to_be_bytes 8 b),
          length-append (to_be_bytes 8 a) (to_be_bytes 8 b),
          length-to_be_bytes 8 a,
          length-to_be_bytes 8 b,
        ))
        hc),
)

pub length-encode_key_meta : (m : KeyMeta) → length (encode m) ≡ 26
unfolding encode
length-encode_key_meta m = omega (
  arith,
  length-append (to_be_bytes 8 m.expire_at) (to_be_bytes 8 m.version ++ to_be_bytes 8 m.size),
  length-append (to_be_bytes 8 m.version) (to_be_bytes 8 m.size),
  length-to_be_bytes 8 m.expire_at,
  length-to_be_bytes 8 m.version,
  length-to_be_bytes 8 m.size,
)

words_assoc : (xs ys zs r : List ℕ) → (xs ++ (ys ++ zs)) ++ r ≡ xs ++ (ys ++ (zs ++ r))
words_assoc xs ys zs r = simp append_assoc

decode_standard :
    (t : RedisType) (f : ℕ) (w : List ℕ) {a b c : ℕ}
    → 24 ≤ length w
    → (u64_at (type_as_u8 t ∷ f ∷ w) 2 ≡ a)
      × (u64_at (type_as_u8 t ∷ f ∷ w) 10 ≡ b)
      × (u64_at (type_as_u8 t ∷ f ∷ w) 18 ≡ c)
    → decode (type_as_u8 t ∷ f ∷ w)
      ≡ some (record { rtype = t; flags = f; expire_at = a; version = b; size = c })
unfolding decode
decode_standard t f w long (ea, eb, ec) =
    rw (not_empty, standard) (rw (type_from_u8-type_as_u8, ea, eb, ec) refl)
  where
    not_empty : (length (type_as_u8 t ∷ f ∷ w) == 0) ≡ false
    not_empty = ground arith

    standard : leb 26 (length (type_as_u8 t ∷ f ∷ w)) && leb (type_as_u8 t) 14 ≡ true
    standard = ground (arith, type_as_u8-le t)

words_length :
    (a b c : ℕ) (rest : List ℕ)
    → 24 ≤ length (to_be_bytes 8 a ++ (to_be_bytes 8 b ++ (to_be_bytes 8 c ++ rest)))
words_length a b c rest = omega (
  arith,
  length-append (to_be_bytes 8 a) (to_be_bytes 8 b ++ (to_be_bytes 8 c ++ rest)),
  length-append (to_be_bytes 8 b) (to_be_bytes 8 c ++ rest),
  length-append (to_be_bytes 8 c) rest,
  length-to_be_bytes 8 a,
  length-to_be_bytes 8 b,
  length-to_be_bytes 8 c,
)

-- The standard header is read back whole, whatever follows it, if its number fields are 64-bit
-- words.
pub decode-encode_key_meta :
    (m : KeyMeta) (rest : List ℕ) → IsValid m → decode (encode m ++ rest) ≡ some m
unfolding encode
decode-encode_key_meta m rest v =
    ap (λ w. decode (type_as_u8 m.rtype ∷ m.flags ∷ w))
      (words_assoc (to_be_bytes 8 m.expire_at) (to_be_bytes 8 m.version) (to_be_bytes 8 m.size)
        rest)
    ∙ decode_standard m.rtype m.flags
        (to_be_bytes 8 m.expire_at ++ (to_be_bytes 8 m.version ++ (to_be_bytes 8 m.size ++ rest)))
        (words_length m.expire_at m.version m.size rest)
        (three_words 2 (type_as_u8 m.rtype ∷ m.flags ∷ []) m.expire_at m.version m.size rest refl
          v.expire v.version v.size)

kvrocks_flags_lem :
    (t : RedisType)
    → (type_from_u8 (bit_and (kvrocks_flags t) 0x0f) ≡ t)
      × (is_64bit_encoded_flags (kvrocks_flags t) ≡ true)
      × (leb (kvrocks_flags t) 14 ≡ false)
unfolding type_from_u8 kvrocks_flags is_64bit_encoded_flags
kvrocks_flags_lem RedisType.none_type = (refl, refl, refl)
kvrocks_flags_lem _ = (refl, refl, refl)

decode_compact :
    (t : RedisType) (w : List ℕ)
    → decode (kvrocks_flags t ∷ w) ≡ decode_kvrocks (kvrocks_flags t ∷ w)
unfolding decode
decode_compact t w = ground (arith, kvrocks_flags_lem t)

decode_complex :
    (t : RedisType) (w : List ℕ) {a b c : ℕ}
    → is_single_kv_type t ≡ false
    → 24 ≤ length w
    → (u64_at (kvrocks_flags t ∷ w) 1 ≡ a)
      × (u64_at (kvrocks_flags t ∷ w) 9 ≡ b)
      × (u64_at (kvrocks_flags t ∷ w) 17 ≡ c)
    → decode_kvrocks (kvrocks_flags t ∷ w)
      ≡ some (record { rtype = t; flags = kvrocks_flags t; expire_at = a; version = b; size = c })
unfolding decode_kvrocks
decode_complex t w s long (ea, eb, ec) = rw ((kvrocks_flags_lem t).0, s) (ground arith)

decode_single :
    (t : RedisType) (w : List ℕ) {a : ℕ}
    → is_single_kv_type t ≡ true
    → 8 ≤ length w
    → u64_at (kvrocks_flags t ∷ w) 1 ≡ a
    → decode_kvrocks (kvrocks_flags t ∷ w)
      ≡ some (record { rtype = t; flags = kvrocks_flags t; expire_at = a; version = 0; size = 0 })
unfolding decode_kvrocks
decode_single t w s long e = rw ((kvrocks_flags_lem t).0, s) (ground arith)

-- If the number fields are 64-bit words, the compact form keeps type, expiry, and for a composite
-- type version and size, whatever follows it; a plain string or a JSON value comes back with version
-- and size 0. The flags are those of the form.
pub decode-encode_kvrocks :
    (m : KeyMeta) (rest : List ℕ)
    → IsValid m
    → decode (encode_kvrocks m ++ rest)
      ≡ some (
          if is_single_kv_type m.rtype
          then record m { flags = kvrocks_flags m.rtype; version = 0; size = 0 }
          else record m { flags = kvrocks_flags m.rtype })
unfolding encode_kvrocks
decode-encode_kvrocks m rest v = elim (Bool-cases (is_single_kv_type m.rtype)) [
  | inl s ↦ rw s (
      decode_compact m.rtype (to_be_bytes 8 m.expire_at ++ rest)
      ∙ decode_single m.rtype (to_be_bytes 8 m.expire_at ++ rest) s
          (omega (
            arith,
            length-append (to_be_bytes 8 m.expire_at) rest,
            length-to_be_bytes 8 m.expire_at,
          ))
          (u64_at-word 1 (kvrocks_flags m.rtype ∷ []) m.expire_at rest refl v.expire))
  | inr s ↦ rw s (
      ap (λ w. decode (kvrocks_flags m.rtype ∷ w))
        (words_assoc (to_be_bytes 8 m.expire_at) (to_be_bytes 8 m.version) (to_be_bytes 8 m.size)
          rest)
      ∙ decode_compact m.rtype _
      ∙ decode_complex m.rtype
          (to_be_bytes 8 m.expire_at ++ (to_be_bytes 8 m.version ++ (to_be_bytes 8 m.size ++ rest)))
          s (words_length m.expire_at m.version m.size rest)
          (three_words 1 (kvrocks_flags m.rtype ∷ []) m.expire_at m.version m.size rest refl
            v.expire v.version v.size))
]
