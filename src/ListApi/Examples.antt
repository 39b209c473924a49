-- ===== src/ListApi/Examples.antt =====
-- Lists in a database in memory, with the calls on them.

use wedb_embed.Base.{
  ℕ, ◌≡◌, refl, ap, List, [], ◌∷◌, ◌++◌, false, true, some, take, drop, arith, inl,
}
use wedb_embed.Base.Int.{pos, negsuc}
use wedb_embed.KeyTag.{as_slice}
use wedb_embed.StringValue.{encode_string_value, raw}
use wedb_embed.SmallKey.{as_bytes}
use wedb_embed.Store.Memory.{memory, memory-IsStore}
use wedb_embed.Store.Ordered.{look_up}
use wedb_embed.Db.{Db}
use wedb_embed.Outcome.{Result, ok, err}
use wedb_embed.KeyApi.{holds_string, check_composite_meta_not_other_type}
use wedb_embed.ListApi.State.{Free, HoldsList, Frame, Gives}
use wedb_embed.ListApi.Push.{lpush, rpush, lpushx, rpushx}
use wedb_embed.ListApi.Push.Results.{rpush-Gives, lpush-Gives}
use wedb_embed.ListApi.Pop.{lpop, rpop}
use wedb_embed.ListApi.Pop.Results.{lpop-Gives}
use wedb_embed.ListApi.Read.{llen, lindex, lset, lrange}
use wedb_embed.ListApi.Read.Results.{place, llen-length, lset-Gives}
use wedb_embed.ListApi.Read.Slice.{lrange-slice, slice}
use wedb_embed.ListApi.Move.{lmpop, lmove}
use wedb_embed.ListApi.Move.Within.{lmove-rotates}
use wedb_embed.ListApi.Move.Between.{lmove-moves}
use wedb_embed.ListApi.Move.Results.{lmpop-first}
use wedb_embed.ListApi.Trim.{ltrim}
use wedb_embed.ListApi.Trim.Results.{ltrim-Gives}
use wedb_embed.ListApi.Others.{HoldsList-Frame}
use wedb_embed.KeyApi.Refused.{refused}
use wedb_embed.ListApi.Refused.{Busy, commands-refused}

abbrev queue : List ℕ
queue = 113 ∷ []

abbrev names : List (List ℕ)
names = (97 ∷ []) ∷ (98 ∷ 98 ∷ []) ∷ (99 ∷ []) ∷ []

abbrev fresh : Db memory
fresh = record { kc = record { ns_id = 1; db = 0 }; data_ks = []; meta_ks = [] }

fresh-Free : (key : List ℕ) → Free memory fresh key 10
unfolding holds_string check_composite_meta_not_other_type look_up
fresh-Free key = record { scope = (omega arith, omega arith); no_string = refl; alone = refl }

fresh-HoldsList : (key : List ℕ) → HoldsList memory fresh key 10 []
unfolding look_up
fresh-HoldsList key = record { free = fresh-Free key; value = inl (refl, refl) }

rpush-Gives_example : Gives memory fresh queue 10 (rpush memory fresh queue names 10 7) 3 names
rpush-Gives_example =
    rpush-Gives memory memory-IsStore fresh queue names 10 7 [] (omega arith) (omega arith)
      (omega arith) (fresh-HoldsList queue)

-- The database after a command.
abbrev after : {A : Type 0} → Result (A × Db memory) → Db memory
after (ok (a, db)) = db
after (err e) = fresh

abbrev filled : Db memory
filled = after (rpush memory fresh queue names 10 7)

after-Gives :
    {A : Type 0} (db : Db memory) (key : List ℕ) (r : Result (A × Db memory)) (a : A)
    (xs : List (List ℕ))
    → Gives memory db key 10 r a xs
    → HoldsList memory (after r) key 10 xs × Frame memory key db (after r)
after-Gives db key r a xs (db', e, holds, frame) = (rw (ap after e) holds, rw (ap after e) frame)

filling : HoldsList memory filled queue 10 names × Frame memory queue fresh filled
filling = after-Gives fresh queue (rpush memory fresh queue names 10 7) 3 names (
    rpush-Gives memory memory-IsStore fresh queue names 10 7 [] (omega arith) (omega arith)
      (omega arith) (fresh-HoldsList queue))

filled-HoldsList : HoldsList memory filled queue 10 names
filled-HoldsList = filling.0

lpush-Gives_example :
    Gives memory filled queue 10
      (lpush memory filled queue ((1 ∷ []) ∷ (2 ∷ []) ∷ []) 10 8)
      5
      ((2 ∷ []) ∷ (1 ∷ []) ∷ names)
lpush-Gives_example =
    lpush-Gives memory memory-IsStore filled queue ((1 ∷ []) ∷ (2 ∷ []) ∷ []) 10 8 names
      (omega arith) (omega arith) (omega arith) filled-HoldsList

lpop-Gives_example :
    Gives memory filled queue 10
      (lpop memory filled queue 2 10)
      ((97 ∷ []) ∷ (98 ∷ 98 ∷ []) ∷ [])
      ((99 ∷ []) ∷ [])
lpop-Gives_example = lpop-Gives memory memory-IsStore filled queue 2 10 names filled-HoldsList

llen-length_example : llen memory filled queue 10 ≡ ok 3
llen-length_example = llen-length memory filled queue 10 names filled-HoldsList

lset-Gives_example :
    Gives memory filled queue 10
      (lset memory filled queue (negsuc 2) (5 ∷ []) 10)
      tt
      ((5 ∷ []) ∷ (98 ∷ 98 ∷ []) ∷ (99 ∷ []) ∷ [])
lset-Gives_example =
    lset-Gives memory filled queue 10 names memory-IsStore (negsuc 2) 0 (5 ∷ [])
      (unfold place in refl) filled-HoldsList

lrange-slice_example :
    lrange memory filled queue (pos 1) (negsuc 0) 10 ≡ ok (slice (pos 1) (negsuc 0) names)
lrange-slice_example =
    lrange-slice memory filled queue 10 names memory-IsStore (pos 1) (negsuc 0) filled-HoldsList

ltrim-Gives_example :
    Gives memory filled queue 10
      (ltrim memory filled queue (pos 1) (pos 1) 10)
      tt
      (slice (pos 1) (pos 1) names)
ltrim-Gives_example =
    ltrim-Gives memory filled queue 10 names memory-IsStore (pos 1) (pos 1) filled-HoldsList

-- A key with a string.
abbrev with_string : Db memory
with_string = record fresh {
  data_ks = (as_bytes (raw fresh.kc queue), encode_string_value (104 ∷ 105 ∷ []) 0) ∷ [];
}

with_string-Busy : Busy memory with_string queue 10
unfolding holds_string look_up raw encode_string_value wedb_embed.Bytes.bytes_eq as_bytes
    wedb_embed.KeyComposer.is_default wedb_embed.KeyComposer.compose_meta_key_stack
    wedb_embed.KeyComposer.scope_prefix_len wedb_embed.Oppv.oppv_len_u64 as_slice
    wedb_embed.SmallKey.write_all wedb_embed.SmallKey.write_at wedb_embed.Oppv.encode_oppv_u64_slice
    wedb_embed.SmallKey.zeroed wedb_embed.StringValue.is_string_expired
    wedb_embed.StringValue.decode_string_value wedb_embed.Bytes.to_be_bytes
    wedb_embed.Bytes.from_be_bytes
with_string-Busy = inl refl

commands-refused_example :
    (lpush memory with_string queue names 10 7 ≡ refused)
    × (rpush memory with_string queue names 10 7 ≡ refused)
    × (lpushx memory with_string queue names 10 7 ≡ refused)
    × (rpushx memory with_string queue names 10 7 ≡ refused)
    × (lpop memory with_string queue 1 10 ≡ refused)
    × (rpop memory with_string queue 1 10 ≡ refused)
    × (llen memory with_string queue 10 ≡ refused)
    × (lindex memory with_string queue (pos 0) 10 ≡ refused)
    × (lset memory with_string queue (pos 0) (5 ∷ []) 10 ≡ refused)
    × (lrange memory with_string queue (pos 0) (pos 1) 10 ≡ refused)
    × (ltrim memory with_string queue (pos 0) (pos 1) 10 ≡ refused)
commands-refused_example =
    commands-refused memory memory-IsStore with_string queue 10 names 7 1 (pos 0) (pos 0) (pos 1)
      (5 ∷ []) with_string-Busy (omega arith) (omega arith)

-- A command on another key.
abbrev inbox : List ℕ
inbox = 105 ∷ 110 ∷ []

abbrev both : Db memory
both = after (rpush memory filled inbox names 10 9)

inbox-missing : HoldsList memory filled inbox 10 []
inbox-missing =
    HoldsList-Frame memory queue inbox fresh filled memory-IsStore 10 [] (omega arith) (omega arith)
      (λ e. cc e) filling.1 (fresh-HoldsList inbox)

filling_both : HoldsList memory both inbox 10 names × Frame memory inbox filled both
filling_both = after-Gives filled inbox (rpush memory filled inbox names 10 9) 3 names (
    rpush-Gives memory memory-IsStore filled inbox names 10 9 [] (omega arith) (omega arith)
      (omega arith) inbox-missing)

HoldsList-Frame_example : HoldsList memory both queue 10 names
HoldsList-Frame_example =
    HoldsList-Frame memory inbox queue filled both memory-IsStore 10 names (omega arith)
      (omega arith) (λ e. cc e) filling_both.1 filled-HoldsList

both-HoldsList : HoldsList memory both queue 10 names
both-HoldsList =
    HoldsList-Frame memory inbox queue filled both memory-IsStore 10 names (omega arith)
      (omega arith) (λ e. cc e) filling_both.1 filled-HoldsList

lmove-moves_example :
    (db : Db memory) × (lmove memory both queue inbox true false 10 11 ≡ ok (some (97 ∷ []), db))
    × HoldsList memory db queue 10 ((98 ∷ 98 ∷ []) ∷ (99 ∷ []) ∷ [])
    × HoldsList memory db inbox 10 (names ++ ((97 ∷ []) ∷ []))
lmove-moves_example =
    lmove-moves memory memory-IsStore both queue inbox (97 ∷ []) ((98 ∷ 98 ∷ []) ∷ (99 ∷ []) ∷ [])
      names true false 10 11 (λ e. cc e) (omega arith) (omega arith) (omega arith) (omega arith)
      both-HoldsList filling_both.0

lmove-rotates_example :
    Gives memory filled queue 10
      (lmove memory filled queue queue false true 10 11)
      (some (99 ∷ []))
      ((99 ∷ []) ∷ (97 ∷ []) ∷ (98 ∷ 98 ∷ []) ∷ [])
lmove-rotates_example =
    lmove-rotates memory filled queue (99 ∷ []) ((98 ∷ 98 ∷ []) ∷ (97 ∷ []) ∷ []) memory-IsStore
      false 10 11 filled-HoldsList

-- The first key holds no list, and the second one does.
lmpop-first_example :
    Gives memory filled queue 10
      (lmpop memory filled (inbox ∷ queue ∷ []) true 2 10)
      (some (queue, take 2 names))
      (drop 2 names)
lmpop-first_example =
    lmpop-first memory memory-IsStore filled true 2 10 (inbox ∷ []) queue [] names (omega arith)
      (omega arith) (inbox-missing, tt) filled-HoldsList
