-- ===== src/ListMeta/RoundTrip.antt =====
-- embed/src/api/list/meta.rs: the standard form of a list's metadata, written and read.
use wedb_embed.Base.{
  ℕ, ◌+◌, ◌≡◌, sym, ap, ◌∙◌, List, [], ◌++◌, append_assoc, append-nil, true, ◌&&◌, ◌||◌, some,
  arith, leb, ◌==◌, length, length-append, take, take_prefix, drop_prefix, get_or,
}
use wedb_embed.Bytes.{IsU64, to_be_bytes}
use wedb_embed.Bytes.Words.{length-to_be_bytes, from_be_bytes-to_be_bytes}
use wedb_embed.KeyMeta
use wedb_embed.KeyMeta.{KeyMeta, RedisType, is_64bit_encoded_flags}
use wedb_embed.KeyMeta.RoundTrip as Header
use wedb_embed.ListMeta.{ListMeta, encode, read_u64_be, decode_at, decode}

pub record IsValid (m : ListMeta) : Type 0 where
  pub base : Header.IsValid m.base
  pub flags : m.base.flags ≡ 0
  pub head : IsU64 m.head
  pub tail : IsU64 m.tail

read_word :
    (i : ℕ) (front : List ℕ) (v : ℕ) (rest : List ℕ)
    → i ≡ length front
    → IsU64 v
    → read_u64_be (front ++ (to_be_bytes 8 v ++ rest)) i ≡ some v
unfolding read_u64_be
read_word i front v rest e h =
    rw
      (
        fits,
        drop_prefix i front (to_be_bytes 8 v ++ rest) e,
        take_prefix 8 (to_be_bytes 8 v) rest (sym (length-to_be_bytes 8 v)),
      )
      (ap some (from_be_bytes-to_be_bytes v h))
  where
    fits : leb (i + 8) (length (front ++ (to_be_bytes 8 v ++ rest))) ≡ true
    fits = ground (
      arith,
      length-append front (to_be_bytes 8 v ++ rest),
      length-append (to_be_bytes 8 v) rest,
      length-to_be_bytes 8 v,
    )

decode_at-parts :
    (bytes : List ℕ) (n : ℕ) {b : KeyMeta} {h t : ℕ}
    → KeyMeta.decode (take n bytes) ≡ some b
    → read_u64_be bytes n ≡ some h
    → read_u64_be bytes (n + 8) ≡ some t
    → decode_at bytes n ≡ some (record { base = b; head = h; tail = t })
unfolding decode_at
decode_at-parts bytes n eb eh et = rw (eb, eh, et)

words-length : (m : ListMeta) → length (encode m) ≡ 42
unfolding encode
words-length m = omega (
  arith,
  length-append (KeyMeta.encode m.base) (to_be_bytes 8 m.head ++ to_be_bytes 8 m.tail),
  length-append (to_be_bytes 8 m.head) (to_be_bytes 8 m.tail),
  Header.length-encode_key_meta m.base,
  length-to_be_bytes 8 m.head,
  length-to_be_bytes 8 m.tail,
)

is_standard :
    (m : ListMeta)
    → m.base.flags ≡ 0
    → let bytes = encode m in
      leb 42 (length bytes)
        && leb (get_or bytes 0 0) 14
        && (get_or bytes 1 0 == 0 || get_or bytes 1 0 == 0x80)
      ≡ true
unfolding encode KeyMeta.encode
is_standard m f = ground (arith, Header.type_as_u8-le m.base.rtype, words-length m)

two_ends :
    (m : ListMeta)
    → encode m ≡ (KeyMeta.encode m.base ++ to_be_bytes 8 m.head) ++ (to_be_bytes 8 m.tail ++ [])
unfolding encode
two_ends m = simp (append_assoc, append-nil)

-- The standard form of a list's metadata is read back whole, if its number fields are 64-bit words
-- and its flags are 0.
pub decode-encode_list_meta : (m : ListMeta) → IsValid m → decode (encode m) ≡ some m
unfolding decode
decode-encode_list_meta m v = rw (is_standard m v.flags) (
    decode_at-parts (encode m) 26 header
      (unfold encode in
        read_word 26 (KeyMeta.encode m.base) m.head (to_be_bytes 8 m.tail)
          (sym (Header.length-encode_key_meta m.base)) v.head)
      (rw (two_ends m) (
        read_word 34 (KeyMeta.encode m.base ++ to_be_bytes 8 m.head) m.tail []
          (omega (
            arith,
            length-append (KeyMeta.encode m.base) (to_be_bytes 8 m.head),
            Header.length-encode_key_meta m.base,
            length-to_be_bytes 8 m.head,
          ))
          v.tail)))
  where
    header : KeyMeta.decode (take 26 (encode m)) ≡ some m.base
    header =
        unfold encode in
        ap KeyMeta.decode (
          take_prefix 26 (KeyMeta.encode m.base) (to_be_bytes 8 m.head ++ to_be_bytes 8 m.tail)
            (sym (Header.length-encode_key_meta m.base))
          ∙ sym (append-nil (KeyMeta.encode m.base)))
        ∙ Header.decode-encode_key_meta m.base [] v.base
