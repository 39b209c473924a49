-- ===== src/ListApi/Refused.antt =====
-- embed/src/api/list/impl.rs and embed/src/api/key/mod.rs: the commands at a key that holds another value.
use wedb_embed.Base.{ℕ, zero, suc, ◌<◌, ◌≡◌, refl, List, [], ◌∷◌, Bool, true, false, arith, length}
use wedb_embed.Base.Int.{ℤ}
use wedb_embed.Store.{Engine, IsStore}
use wedb_embed.Db.{Db}
use wedb_embed.KeyApi.Refused.{refused, get_meta_checked-Busy}
use wedb_embed.KeyApi.Refused as Keys
use wedb_embed.ListApi.Keys.{meta_key, list_ops}
use wedb_embed.ListApi.Push.{
  prepare_list_meta_for_write, list_push_one_internal, list_push_many, list_push_internal, lpush,
  rpush, lpushx, rpushx,
}
use wedb_embed.ListApi.Pop.{list_pop_one_internal, list_pop_many, list_pop_internal, lpop, rpop}
use wedb_embed.ListApi.Read.{llen, lindex, lset, lrange}
use wedb_embed.ListApi.Trim.{ltrim}

module _ (E : Engine) where
  abbrev pub Busy : Db E → List ℕ → ℕ → Type 0
  Busy db key now = Keys.Busy E list_ops db key (meta_key db.kc key) now

  module _ (store : IsStore E) (db : Db E) (key : List ℕ) (now : ℕ) (busy : Busy db key now) where
    pop_refused :
        (count : ℕ) (left : Bool) → 0 < count → list_pop_internal E db key count left now ≡ refused
    unfolding list_pop_internal list_pop_one_internal list_pop_many
    pop_refused zero left h = absurd (omega arith)
    pop_refused (suc zero) left h =
        rw (get_meta_checked-Busy E list_ops store db key (meta_key db.kc key) now busy) refl
    pop_refused (suc (suc n)) left h =
        rw (get_meta_checked-Busy E list_ops store db key (meta_key db.kc key) now busy) refl

    push_refused :
        (values : List (List ℕ)) (create left : Bool) (version : ℕ)
        → 0 < length values
        → list_push_internal E db key values create left now version ≡ refused
    unfolding list_push_internal list_push_one_internal list_push_many prepare_list_meta_for_write
    push_refused [] create left version h = absurd (omega arith)
    push_refused (v ∷ []) create left version h =
        rw (get_meta_checked-Busy E list_ops store db key (meta_key db.kc key) now busy) refl
    push_refused (v ∷ w ∷ values) create left version h =
        rw (get_meta_checked-Busy E list_ops store db key (meta_key db.kc key) now busy) refl

    read_refused :
        (index start stop : ℤ) (v : List ℕ)
        → (llen E db key now ≡ refused)
          × (lindex E db key index now ≡ refused)
          × (lset E db key index v now ≡ refused)
          × (lrange E db key start stop now ≡ refused)
          × (ltrim E db key start stop now ≡ refused)
    unfolding llen lindex lset lrange ltrim
    read_refused index start stop v = (
      rw (get_meta_checked-Busy E list_ops store db key (meta_key db.kc key) now busy) refl,
      rw (get_meta_checked-Busy E list_ops store db key (meta_key db.kc key) now busy) refl,
      rw (get_meta_checked-Busy E list_ops store db key (meta_key db.kc key) now busy) refl,
      rw (get_meta_checked-Busy E list_ops store db key (meta_key db.kc key) now busy) refl,
      rw (get_meta_checked-Busy E list_ops store db key (meta_key db.kc key) now busy) refl,
    )

  -- If the engine is a store and the key holds a live string, or no list but live metadata of another type:
  -- the commands lpush, rpush, lpushx, rpushx, lpop, rpop, llen, lindex, lset, lrange and ltrim on the key all
  -- fail with the error on the wrong type, where at least one value is pushed and at least one element
  -- asked for.
  pub commands-refused :
      (store : IsStore E) (db : Db E) (key : List ℕ) (now : ℕ) (values : List (List ℕ))
      (version count : ℕ) (index start stop : ℤ) (v : List ℕ)
      → Busy db key now
      → 0 < length values
      → 0 < count
      → (lpush E db key values now version ≡ refused)
        × (rpush E db key values now version ≡ refused)
        × (lpushx E db key values now version ≡ refused)
        × (rpushx E db key values now version ≡ refused)
        × (lpop E db key count now ≡ refused)
        × (rpop E db key count now ≡ refused)
        × (llen E db key now ≡ refused)
        × (lindex E db key index now ≡ refused)
        × (lset E db key index v now ≡ refused)
        × (lrange E db key start stop now ≡ refused)
        × (ltrim E db key start stop now ≡ refused)
  unfolding lpush rpush lpushx rpushx lpop rpop
  commands-refused store db key now values version count index start stop v busy hv hc =
      let (r1, r2, r3, r4, r5) = read_refused store db key now busy index start stop v in
      (
        push_refused store db key now busy values true true version hv,
        push_refused store db key now busy values true false version hv,
        push_refused store db key now busy values false true version hv,
        push_refused store db key now busy values false false version hv,
        pop_refused store db key now busy count true hc,
        pop_refused store db key now busy count false hc,
        r1,
        r2,
        r3,
        r4,
        r5,
      )
