-- ===== src/SetApi/Pop/Examples.antt =====
-- Members drawn from a set in a database in memory, by a generator that always takes the first.
use wedb_embed.Base.{ℕ, ◌≡◌, refl, List, [], ◌∷◌, arith, inl}
use wedb_embed.KeyTag.{as_slice}
use wedb_embed.StringValue.{encode_string_value, raw}
use wedb_embed.SmallKey.{as_bytes}
use wedb_embed.Store.Memory.{memory, memory-IsStore}
use wedb_embed.Store.Ordered.{look_up}
use wedb_embed.Db.{Db}
use wedb_embed.KeyApi.{holds_string}
use wedb_embed.KeyApi.Refused.{refused}
use wedb_embed.SetApi.State.{SetGives}
use wedb_embed.SetApi.Members.{without_all}
use wedb_embed.SetApi.Write.{sadd, srem}
use wedb_embed.SetApi.Read.{smembers, sismember, smismember, scard}
use wedb_embed.SetApi.Move.{smove}
use wedb_embed.SetApi.Pop.{Fastrand, IsFastrand, spop}
use wedb_embed.SetApi.Pop.Results.{Takes, spop-Takes}
use wedb_embed.SetApi.Refused.{Busy, set_commands-refused}
use wedb_embed.SetApi.Examples.{fruits, greens, fruit_set, fresh, both, both-fruits}

abbrev first : Fastrand
first = record { Rng = Unit; usize = λ lo hi rng. (lo, rng); shuffle = λ xs rng. (xs, rng) }

first-IsFastrand : IsFastrand first
first-IsFastrand = record {
  usize_range = λ lo hi rng h. (omega arith, h);
  shuffle_has = λ s xs rng. refl;
  shuffle_length = λ xs rng. refl;
  shuffle_Distinct = λ xs rng d. d;
}

spop-Takes_example :
    (ms : List (List ℕ)) × (rng : Unit) × SetGives memory both fruits 10
      (spop memory first both fruits 1 10 tt)
      (ms, rng)
      (without_all ms fruit_set)
    × Takes ms 1 fruit_set
spop-Takes_example =
    spop-Takes memory memory-IsStore first first-IsFastrand both fruits 10 fruit_set both-fruits 1
      tt

-- A key with a string.
abbrev with_string : Db memory
with_string = record fresh {
  data_ks = (as_bytes (raw fresh.kc fruits), encode_string_value (104 ∷ 105 ∷ []) 0) ∷ [];
}

with_string-Busy : Busy memory with_string fruits 10
unfolding holds_string look_up raw encode_string_value wedb_embed.Bytes.bytes_eq as_bytes
    wedb_embed.KeyComposer.is_default wedb_embed.KeyComposer.compose_meta_key_stack
    wedb_embed.KeyComposer.scope_prefix_len wedb_embed.Oppv.oppv_len_u64 as_slice
    wedb_embed.SmallKey.write_all wedb_embed.SmallKey.write_at wedb_embed.Oppv.encode_oppv_u64_slice
    wedb_embed.SmallKey.zeroed wedb_embed.StringValue.is_string_expired
    wedb_embed.StringValue.decode_string_value wedb_embed.Bytes.to_be_bytes
    wedb_embed.Bytes.from_be_bytes
with_string-Busy = inl refl

set_commands-refused_example :
    (sadd memory with_string fruits (greens ∷ []) 10 7 ≡ refused)
    × (srem memory with_string fruits (greens ∷ []) 10 ≡ refused)
    × (smembers memory with_string fruits 10 ≡ refused)
    × (sismember memory with_string fruits (1 ∷ []) 10 ≡ refused)
    × (scard memory with_string fruits 10 ≡ refused)
    × (smismember memory with_string fruits (greens ∷ []) 10 ≡ refused)
    × (spop memory first with_string fruits 1 10 tt ≡ refused)
    × (smove memory with_string fruits greens (1 ∷ []) 10 7 ≡ refused)
set_commands-refused_example =
    set_commands-refused memory memory-IsStore with_string fruits 10 (greens ∷ []) 7 1 greens
      (1 ∷ []) first tt with_string-Busy (omega arith) (omega arith)
