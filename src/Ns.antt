-- ===== src/Ns.antt =====
-- embed/src/key_composer/ns.rs: the system keys that list namespaces and databases, and the counters
-- that number them. The functions that fill a buffer write the same bytes.
use wedb_embed.Base.{
  ℕ, ◌<◌, ◌≡◌, ◌∙◌, sym, ap, List, [], ◌∷◌, ◌++◌, append_assoc, append-nil, Bool, true, ◌==◌, drop,
}
use wedb_embed.Bytes.{IsU64, bytes_lt, starts_with}
use wedb_embed.Bytes.Order.{bytes_lt-append_left, starts_with→append}
use wedb_embed.Oppv.{encode_oppv_u64_slice, encode_oppv_u64}
use wedb_embed.Oppv.Order.{encode-order, encode-prefix_free}
use wedb_embed.KeyTag.{SystemDomainTag, SysMetaTag, domain_as_u8, sys_meta_as_u8}

abbrev pub default_namespace : ℕ
default_namespace = 0

unfoldable pub ns_next_id_key : List ℕ
unfolding domain_as_u8 sys_meta_as_u8
ns_next_id_key =
    0xff ∷ domain_as_u8 SystemDomainTag.sys_meta ∷ sys_meta_as_u8 SysMetaTag.ns_next_id ∷ []

unfoldable pub catalog_prefix : List ℕ
unfolding domain_as_u8
catalog_prefix = 0xff ∷ domain_as_u8 SystemDomainTag.catalog ∷ []

unfoldable pub catalog_ns_prefix : ℕ → List ℕ
catalog_ns_prefix ns_id = encode_oppv_u64 ns_id catalog_prefix

unfoldable pub encode_catalog_ns_prefix_fixed : ℕ → List ℕ
encode_catalog_ns_prefix_fixed ns_id = catalog_prefix ++ encode_oppv_u64_slice ns_id

unfoldable pub catalog_db_key : ℕ → ℕ → List ℕ
catalog_db_key ns_id db_id = encode_oppv_u64 db_id (encode_oppv_u64 ns_id catalog_prefix)

unfoldable pub encode_catalog_db_key_fixed : ℕ → ℕ → List ℕ
encode_catalog_db_key_fixed ns_id db_id =
    catalog_prefix ++ (encode_oppv_u64_slice ns_id ++ encode_oppv_u64_slice db_id)

unfoldable pub db_next_id_prefix : List ℕ
unfolding domain_as_u8 sys_meta_as_u8
db_next_id_prefix =
    0xff ∷ domain_as_u8 SystemDomainTag.sys_meta ∷ sys_meta_as_u8 SysMetaTag.db_next_id ∷ []

unfoldable pub db_next_id_key : ℕ → List ℕ
db_next_id_key ns_id = encode_oppv_u64 ns_id db_next_id_prefix

unfoldable pub encode_db_next_id_key_fixed : ℕ → List ℕ
encode_db_next_id_key_fixed ns_id = db_next_id_prefix ++ encode_oppv_u64_slice ns_id

unfoldable pub is_default_namespace : ℕ → Bool
is_default_namespace ns_id = ns_id == default_namespace

catalog_db_key_layout :
    (ns_id db_id : ℕ)
    → catalog_db_key ns_id db_id
      ≡ catalog_prefix ++ (encode_oppv_u64_slice ns_id ++ encode_oppv_u64_slice db_id)
unfolding catalog_db_key encode_oppv_u64
catalog_db_key_layout ns_id db_id =
    append_assoc catalog_prefix (encode_oppv_u64_slice ns_id) (encode_oppv_u64_slice db_id)

-- The catalog keys of one namespace are in the order of their databases, for 64-bit numbers.
pub catalog_db_key-order :
    (ns_id a b : ℕ)
    → IsU64 b
    → a < b
    → bytes_lt (catalog_db_key ns_id a) (catalog_db_key ns_id b) ≡ true
catalog_db_key-order ns_id a b hb h =
    rw
      (
        catalog_db_key_layout ns_id a,
        catalog_db_key_layout ns_id b,
        bytes_lt-append_left,
        bytes_lt-append_left,
      )
      (simp append-nil at (encode-order a b [] [] hb h))

cancel_catalog : (r s : List ℕ) → catalog_prefix ++ r ≡ catalog_prefix ++ s → r ≡ s
unfolding catalog_prefix
cancel_catalog r s e = ap (drop 2) e

-- A catalog entry that begins with a namespace's prefix is an entry of that namespace, for 64-bit
-- numbers.
pub catalog_ns_prefix-isolated :
    (ns_id other db_id : ℕ)
    → IsU64 ns_id
    → IsU64 other
    → starts_with (catalog_ns_prefix ns_id) (catalog_db_key other db_id) ≡ true
    → ns_id ≡ other
catalog_ns_prefix-isolated ns_id other db_id hn ho h =
    (encode-prefix_free ns_id other rest.0 (encode_oppv_u64_slice db_id) hn ho
      (sym (cancel_catalog _ _ split))).0
  where
    rest : (r : List ℕ) × (catalog_db_key other db_id ≡ catalog_ns_prefix ns_id ++ r)
    rest = starts_with→append _ _ h

    prefix :
        catalog_ns_prefix ns_id ++ rest.0
        ≡ catalog_prefix ++ (encode_oppv_u64_slice ns_id ++ rest.0)
    prefix =
        unfold catalog_ns_prefix encode_oppv_u64 in
        append_assoc catalog_prefix (encode_oppv_u64_slice ns_id) rest.0

    split :
        catalog_prefix ++ (encode_oppv_u64_slice other ++ encode_oppv_u64_slice db_id)
        ≡ catalog_prefix ++ (encode_oppv_u64_slice ns_id ++ rest.0)
    split = sym (catalog_db_key_layout other db_id) ∙ rest.1 ∙ prefix
