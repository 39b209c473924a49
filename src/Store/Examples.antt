-- ===== src/Store/Examples.antt =====
-- The hash `k1` is removed from a store that also has the hash `k2`.
use wedb_embed.Base.{ℕ, ◌≡◌, List, [], ◌∷◌, arith}
use wedb_embed.KeyTag.{KeyTag, as_slice}
use wedb_embed.SmallKey.{as_bytes}
use wedb_embed.KeyComposer.{KeyComposer, compose_prefix, compose_subkey_stack}
use wedb_embed.Store.{Entry, clear_prefix_in_batch}
use wedb_embed.Store.Memory.{memory, memory-IsStore, apply_all}
use wedb_embed.Store.Ordered.{look_up}
use wedb_embed.Store.Clear.{clear_value-others}

abbrev main : KeyComposer
main = record { ns_id = 0; db = 0 }

abbrev k1 : List ℕ
k1 = 107 ∷ 49 ∷ []

abbrev k2 : List ℕ
k2 = 107 ∷ 50 ∷ []

abbrev field : List ℕ
field = 102 ∷ []

abbrev stored : List Entry
stored =
    (as_bytes (compose_subkey_stack main (as_slice KeyTag.hash_data) k1 field), 1 ∷ [])
    ∷ (as_bytes (compose_subkey_stack main (as_slice KeyTag.hash_data) k2 field), 2 ∷ [])
    ∷ []

abbrev prefix_k1 : List ℕ
prefix_k1 = compose_prefix main (as_slice KeyTag.hash_data) k1

clear_value-others_example :
    look_up
      (apply_all (clear_prefix_in_batch memory stored prefix_k1 []) stored)
      (as_bytes (compose_subkey_stack main (as_slice KeyTag.hash_data) k2 field))
    ≡ look_up stored (as_bytes (compose_subkey_stack main (as_slice KeyTag.hash_data) k2 field))
clear_value-others_example =
    clear_value-others memory memory-IsStore stored main main KeyTag.hash_data KeyTag.hash_data k1
      k2 field (omega arith, omega arith) (omega arith, omega arith) (omega arith) (omega arith)
      (λ (s, t, e). ground arith)
