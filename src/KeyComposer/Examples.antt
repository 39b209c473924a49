-- ===== src/KeyComposer/Examples.antt =====
-- Concrete keys of two scopes.
use wedb_embed.Base.{ℕ, ◌≡◌, refl, List, [], ◌∷◌, ◌++◌, arith}
use wedb_embed.KeyTag.{KeyTag, as_slice, as_u8}
use wedb_embed.SmallKey.{as_bytes, write_all, write_at, zeroed}
use wedb_embed.KeyComposer.{
  KeyComposer, compose_prefix, try_compose_stack_key, is_default, add_lengths, compose_subkey_stack,
}
use wedb_embed.KeyComposer.Keys.{
  compose_subkey_stack-prefix, compose_subkey_stack-injective, compose_prefix-isolated,
  compose_prefix-starts,
}

abbrev main : KeyComposer
main = record { ns_id = 0; db = 0 }

abbrev tenant : KeyComposer
tenant = record { ns_id = 7; db = 300 }

abbrev user_key : List ℕ
user_key = 107 ∷ 49 ∷ []

abbrev field : List ℕ
field = 102 ∷ []

data_key :
    as_bytes (compose_subkey_stack main (as_slice KeyTag.hash_data) user_key field)
    ≡ 0 ∷ 0 ∷ 0 ∷ as_u8 KeyTag.hash_data ∷ 2 ∷ 107 ∷ 49 ∷ 102 ∷ []
unfolding compose_subkey_stack as_bytes try_compose_stack_key is_default as_slice add_lengths
    write_all write_at zeroed as_u8
data_key = refl

compose_prefix-isolated_example :
    (tenant ≡ tenant) × (KeyTag.hash_data ≡ KeyTag.hash_data) × (user_key ≡ user_key)
compose_prefix-isolated_example =
    compose_prefix-isolated tenant tenant KeyTag.hash_data KeyTag.hash_data user_key user_key field
      (omega arith, omega arith) (omega arith, omega arith) (omega arith) (omega arith)
      (compose_prefix-starts tenant (as_slice KeyTag.hash_data) user_key field)

compose_subkey_stack-injective_example :
    (tenant ≡ tenant)
    × (KeyTag.set_data ≡ KeyTag.set_data)
    × (user_key ≡ user_key)
    × (field ≡ field)
compose_subkey_stack-injective_example =
    compose_subkey_stack-injective tenant tenant KeyTag.set_data KeyTag.set_data user_key user_key
      field field (omega arith, omega arith) (omega arith, omega arith) (omega arith) (omega arith)
      refl

compose_subkey_stack-prefix_example :
    as_bytes (compose_subkey_stack tenant (as_slice KeyTag.hash_data) user_key field)
    ≡ compose_prefix tenant (as_slice KeyTag.hash_data) user_key ++ field
compose_subkey_stack-prefix_example =
    compose_subkey_stack-prefix tenant (as_slice KeyTag.hash_data) user_key field
