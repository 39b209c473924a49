-- ===== src/SetApi/Examples.antt =====
-- Sets in a database in memory, with the calls on them.
use wedb_embed.Base.{ℕ, ◌≡◌, refl, ap, List, [], ◌∷◌, false, true, arith, inl}
use wedb_embed.Bytes.{bytes_eq, bytes_lt}
use wedb_embed.Store.{Entry}
use wedb_embed.Store.Memory.{memory, memory-IsStore}
use wedb_embed.Store.Ordered.{look_up, insert_sorted}
use wedb_embed.Store.Finite.{without}
use wedb_embed.Db.{Db}
use wedb_embed.Outcome.{Result, ok, err}
use wedb_embed.KeyApi.{holds_string, check_composite_meta_not_other_type}
use wedb_embed.Composite.State.{Frame}
use wedb_embed.Composite.Others.{Holds-Frame}
use wedb_embed.Composite.Pair.{PairFrame}
use wedb_embed.SetApi.{sets}
use wedb_embed.SetApi.State.{sets-IsKind, HoldsSet, SetGives}
use wedb_embed.SetApi.Members.{add, add_all, without_all}
use wedb_embed.SetApi.Write.{sadd, srem}
use wedb_embed.SetApi.Write.Results.{sadd-Gives}
use wedb_embed.SetApi.Write.Removed.{srem-Gives}
use wedb_embed.SetApi.Read.{smembers, sismember, smismember, scard}
use wedb_embed.SetApi.Read.Results.{smembers-members, reads-HoldsSet}
use wedb_embed.SetApi.Move.{smove, overwrite_set}
use wedb_embed.SetApi.Move.Between.{smove-moves}
use wedb_embed.SetApi.Move.Overwrite.{overwrite_set-Gives}

abbrev pub fruits : List ℕ
fruits = 102 ∷ []

abbrev pub greens : List ℕ
greens = 103 ∷ 114 ∷ []

abbrev a : List ℕ
a = 97 ∷ []

abbrev b : List ℕ
b = 98 ∷ []

abbrev c : List ℕ
c = 99 ∷ []

-- A member is given twice.
abbrev given : List (List ℕ)
given = b ∷ a ∷ b ∷ []

abbrev pub fruit_set : List Entry
fruit_set = (a, []) ∷ (b, []) ∷ []

abbrev pub green_set : List Entry
green_set = (b, []) ∷ (c, []) ∷ []

abbrev pub fresh : Db memory
fresh = record { kc = record { ns_id = 1; db = 0 }; data_ks = []; meta_ks = [] }

fresh-HoldsSet : (key : List ℕ) → HoldsSet memory fresh key 10 []
unfolding holds_string check_composite_meta_not_other_type look_up
fresh-HoldsSet key = record {
  free = record { scope = (omega arith, omega arith); no_string = refl; alone = refl };
  ascending = tt;
  value = inl (refl, refl);
}

sadd-Gives_example :
    SetGives memory fresh fruits 10 (sadd memory fresh fruits given 10 7) 2 fruit_set
unfolding add_all add look_up insert_sorted bytes_lt bytes_eq
sadd-Gives_example =
    sadd-Gives memory memory-IsStore fresh fruits given 10 7 [] (omega arith) (omega arith)
      (fresh-HoldsSet fruits)

-- The database after a command.
abbrev after : {A : Type 0} → Result (A × Db memory) → Db memory
after (ok (x, db)) = db
after (err e) = fresh

after-Gives :
    {A : Type 0} (db : Db memory) (key : List ℕ) (r : Result (A × Db memory)) (x : A)
    (es : List Entry)
    → SetGives memory db key 10 r x es
    → HoldsSet memory (after r) key 10 es × Frame memory sets key db (after r)
after-Gives db key r x es (db', e, holds, frame) = (rw (ap after e) holds, rw (ap after e) frame)

abbrev picked : Db memory
picked = after (sadd memory fresh fruits given 10 7)

picking : HoldsSet memory picked fruits 10 fruit_set × Frame memory sets fruits fresh picked
unfolding add_all add look_up insert_sorted bytes_lt bytes_eq
picking = after-Gives fresh fruits (sadd memory fresh fruits given 10 7) 2 fruit_set (
    sadd-Gives memory memory-IsStore fresh fruits given 10 7 [] (omega arith) (omega arith)
      (fresh-HoldsSet fruits))

picked-HoldsSet : HoldsSet memory picked fruits 10 fruit_set
picked-HoldsSet = picking.0

srem-Gives_example :
    SetGives memory picked fruits 10
      (srem memory picked fruits (c ∷ a ∷ a ∷ []) 10)
      1
      ((b, []) ∷ [])
unfolding without_all without bytes_eq
srem-Gives_example =
    srem-Gives memory memory-IsStore picked fruits (c ∷ a ∷ a ∷ []) 10 fruit_set picked-HoldsSet

smembers-members_example : smembers memory picked fruits 10 ≡ ok (a ∷ b ∷ [])
smembers-members_example =
    smembers-members memory picked fruits 10 fruit_set picked-HoldsSet memory-IsStore

reads-HoldsSet_example :
    (sismember memory picked fruits c 10 ≡ ok false)
    × (smismember memory picked fruits (b ∷ c ∷ []) 10 ≡ ok (true ∷ false ∷ []))
    × (scard memory picked fruits 10 ≡ ok 2)
unfolding look_up bytes_eq
reads-HoldsSet_example =
    reads-HoldsSet memory picked fruits 10 fruit_set picked-HoldsSet c (b ∷ c ∷ [])

overwrite_set-Gives_example :
    SetGives memory picked fruits 10
      (overwrite_set memory picked fruits (c ∷ b ∷ c ∷ []) 10 8)
      2
      green_set
unfolding add_all add look_up insert_sorted bytes_lt bytes_eq
overwrite_set-Gives_example =
    overwrite_set-Gives memory memory-IsStore picked fruits (c ∷ b ∷ c ∷ []) 10 8 fruit_set
      (omega arith) (omega arith) picked-HoldsSet

-- Another set beside it.
abbrev pub both : Db memory
both = after (sadd memory picked greens (c ∷ b ∷ []) 10 9)

filling_both : HoldsSet memory both greens 10 green_set × Frame memory sets greens picked both
unfolding add_all add look_up insert_sorted bytes_lt bytes_eq
filling_both = after-Gives picked greens (sadd memory picked greens (c ∷ b ∷ []) 10 9) 2 green_set (
    sadd-Gives memory memory-IsStore picked greens (c ∷ b ∷ []) 10 9 [] (omega arith) (omega arith)
      (Holds-Frame memory sets fruits greens fresh picked memory-IsStore sets-IsKind 10 []
        (omega arith) (omega arith) (λ e. cc e) picking.1 (fresh-HoldsSet greens)))

Holds-Frame_example : HoldsSet memory both fruits 10 fruit_set
Holds-Frame_example =
    Holds-Frame memory sets greens fruits picked both memory-IsStore sets-IsKind 10 fruit_set
      (omega arith) (omega arith) (λ e. cc e) filling_both.1 picked-HoldsSet

pub both-greens : HoldsSet memory both greens 10 green_set
both-greens = filling_both.0

pub both-fruits : HoldsSet memory both fruits 10 fruit_set
both-fruits =
    Holds-Frame memory sets greens fruits picked both memory-IsStore sets-IsKind 10 fruit_set
      (omega arith) (omega arith) (λ e. cc e) filling_both.1 picked-HoldsSet

smove-moves_example :
    (db : Db memory) × (smove memory both fruits greens a 10 11 ≡ ok (true, db))
    × HoldsSet memory db fruits 10 ((b, []) ∷ [])
    × HoldsSet memory db greens 10 ((a, []) ∷ (b, []) ∷ (c, []) ∷ [])
    × PairFrame memory sets fruits greens both db
unfolding add look_up insert_sorted bytes_lt bytes_eq without
smove-moves_example =
    smove-moves memory memory-IsStore both fruits greens a 10 11 fruit_set green_set (omega arith)
      (omega arith) (λ e. cc e) (omega arith) (omega arith) both-fruits both-greens
