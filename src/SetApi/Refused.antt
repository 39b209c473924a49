-- ===== src/SetApi/Refused.antt =====
-- embed/src/api/set and embed/src/api/key/mod.rs: the commands at a key that holds another value.
use wedb_embed.Base.{
  ℕ, zero, suc, ◌<◌, ◌≡◌, refl, List, [], ◌∷◌, false, arith, length, ◌==◌, inl, inr, Bool-cases,
}
use wedb_embed.Bytes.{bytes_eq}
use wedb_embed.Store.{Engine, IsStore}
use wedb_embed.Db.{Db}
use wedb_embed.KeyApi.Refused.{refused, get_meta_checked-Busy}
use wedb_embed.KeyApi.Refused as Keys
use wedb_embed.Composite.{simple_ops}
use wedb_embed.SetApi.{sets, meta, live_set}
use wedb_embed.SetApi.Write.{
  prepare_set_meta_for_write, sadd_one_internal, sadd_many, sadd, srem_one_internal, srem_many,
  srem,
}
use wedb_embed.SetApi.Read.{smembers, sismember, smismember, scard}
use wedb_embed.SetApi.Move.{smove_between, smove}
use wedb_embed.SetApi.Pop.{Fastrand, spop_one, spop_many, spop}

module _ (E : Engine) where
  abbrev pub Busy : Db E → List ℕ → ℕ → Type 0
  Busy db key now = Keys.Busy E (simple_ops sets) db key (meta db.kc key) now

  module _ (store : IsStore E) (db : Db E) (key : List ℕ) (now : ℕ) (busy : Busy db key now) where
    live_set-Busy : live_set E db key now ≡ refused
    unfolding live_set
    live_set-Busy =
        rw (get_meta_checked-Busy E (simple_ops sets) store db key (meta db.kc key) now busy) refl

    sadd-refused :
        (ms : List (List ℕ)) (version : ℕ) → 0 < length ms → sadd E db key ms now version ≡ refused
    unfolding sadd sadd_one_internal sadd_many prepare_set_meta_for_write
    sadd-refused [] version h = absurd (omega arith)
    sadd-refused (m ∷ []) version h =
        rw (get_meta_checked-Busy E (simple_ops sets) store db key (meta db.kc key) now busy) refl
    sadd-refused (m ∷ n ∷ ms) version h =
        rw (get_meta_checked-Busy E (simple_ops sets) store db key (meta db.kc key) now busy) refl

    srem-refused : (ms : List (List ℕ)) → 0 < length ms → srem E db key ms now ≡ refused
    unfolding srem srem_one_internal srem_many
    srem-refused [] h = absurd (omega arith)
    srem-refused (m ∷ []) h = rw live_set-Busy refl
    srem-refused (m ∷ n ∷ ms) h = rw live_set-Busy refl

    smismember-refused : (ms : List (List ℕ)) → 0 < length ms → smismember E db key ms now ≡ refused
    unfolding smismember
    smismember-refused [] h = absurd (omega arith)
    smismember-refused (m ∷ ms) h = rw live_set-Busy refl

    read_refused :
        (m : List ℕ)
        → (smembers E db key now ≡ refused)
          × (sismember E db key m now ≡ refused)
          × (scard E db key now ≡ refused)
    unfolding smembers sismember scard
    read_refused m = (
      rw live_set-Busy refl,
      rw live_set-Busy refl,
      rw (get_meta_checked-Busy E (simple_ops sets) store db key (meta db.kc key) now busy) refl,
    )

    spop-refused :
        (F : Fastrand) (rng : F.Rng) (count : ℕ)
        → 0 < count
        → spop E F db key count now rng ≡ refused
    unfolding spop spop_one spop_many
    spop-refused F rng zero h = absurd (omega arith)
    spop-refused F rng (suc zero) h = rw live_set-Busy refl
    spop-refused F rng (suc (suc n)) h =
        rw
          (
            let z : (suc (suc n) == 0) ≡ false = ground arith in z,
            let z : (suc (suc n) == 1) ≡ false = ground arith in z,
            live_set-Busy,
          )
          refl

    smove-refused : (dst m : List ℕ) (version : ℕ) → smove E db key dst m now version ≡ refused
    unfolding smove smove_between sismember
    smove-refused dst m version = elim (Bool-cases (bytes_eq key dst)) [
      | inl b ↦ rw (b, live_set-Busy) refl
      | inr b ↦ rw (b, live_set-Busy) refl
    ]

  -- If the engine is a store and the key holds a live string, or no set but live metadata of another type: the
  -- commands sadd, srem, smembers, sismember, smismember, scard, spop and smove from the key all fail with the
  -- error on the wrong type, where at least one member is given or asked for.
  pub set_commands-refused :
      (store : IsStore E) (db : Db E) (key : List ℕ) (now : ℕ) (ms : List (List ℕ))
      (version count : ℕ) (dst m : List ℕ) (F : Fastrand) (rng : F.Rng)
      → Busy db key now
      → 0 < length ms
      → 0 < count
      → (sadd E db key ms now version ≡ refused)
        × (srem E db key ms now ≡ refused)
        × (smembers E db key now ≡ refused)
        × (sismember E db key m now ≡ refused)
        × (scard E db key now ≡ refused)
        × (smismember E db key ms now ≡ refused)
        × (spop E F db key count now rng ≡ refused)
        × (smove E db key dst m now version ≡ refused)
  set_commands-refused store db key now ms version count dst m F rng busy hm hc =
      let (r1, r2, r3) = read_refused store db key now busy m in
      (
        sadd-refused store db key now busy ms version hm,
        srem-refused store db key now busy ms hm,
        r1,
        r2,
        r3,
        smismember-refused store db key now busy ms hm,
        spop-refused store db key now busy F rng count hc,
        smove-refused store db key now busy dst m version,
      )
