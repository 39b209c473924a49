-- ===== src/SetApi/State.antt =====
-- embed/src/api/set: when a database holds a set, and what the commands read first.
use wedb_embed.Base.{ℕ, ◌≡◌, refl, List, [], ◌++◌, none, some, arith, inl, inr, ◌⊎◌, ltb, true}
use wedb_embed.KeyTag.{KeyTag, as_slice}
use wedb_embed.KeyComposer.{KeyComposer}
use wedb_embed.KeyComposer.Keys.{compose_subkey_stack-prefix}
use wedb_embed.Store.{Engine, Entry}
use wedb_embed.Db.{Db}
use wedb_embed.Outcome.{Result, ok, ◌>>=◌}
use wedb_embed.KeyApi.{get_meta_checked}
use wedb_embed.Composite.{IsKind, SimpleMeta, simple_ops, prefix}
use wedb_embed.Composite.State.{
  Holds, Stored, Gives, get_meta_checked-Stored, get_meta_checked-Missing,
}
use wedb_embed.Composite.Queue.{key_in_buffer}
use wedb_embed.SetApi.{sets, meta, member, key_for_member, live_set, not_empty}

pub sets-IsKind : IsKind sets
unfolding wedb_embed.KeyMeta.is_emptyable_type
sets-IsKind = record { composite = refl; not_string = λ e. cc e }

pub key_for_member-prefix :
    (kc : KeyComposer) (key m : List ℕ) → key_for_member kc key m ≡ prefix sets kc key ++ m
key_for_member-prefix kc key m = key_in_buffer sets kc key m

pub member-prefix : (kc : KeyComposer) (key m : List ℕ) → member kc key m ≡ prefix sets kc key ++ m
member-prefix kc key m = compose_subkey_stack-prefix kc (as_slice KeyTag.set_data) key m

module _ (E : Engine) where
  -- The members of the set at the key are the keys of `es`; a key without a set has none.
  abbrev pub HoldsSet : Db E → List ℕ → ℕ → List Entry → Type 0
  HoldsSet db key now es = Holds E sets db key now es

  -- The command succeeds with the answer `a`, the set has the members `es` then, and the rest is as it was.
  abbrev pub SetGives :
      Db E → List ℕ → ℕ → {A : Type 0} → Result (A × Db E) → A → List Entry → Type 0
  SetGives db key now r a es = Gives E sets db key now r a es

  module _ (db : Db E) (key : List ℕ) (now : ℕ) (es : List Entry) where
    pub get_meta_checked-HoldsSet :
        HoldsSet db key now es
        → ((es ≡ []) × (get_meta_checked E (simple_ops sets) db key (meta db.kc key) now ≡ ok none))
          ⊎ ((m : SimpleMeta) × Stored E sets db key now m es
              × (get_meta_checked E (simple_ops sets) db key (meta db.kc key) now ≡ ok (some m)))
    get_meta_checked-HoldsSet holds = elim holds.value [
      | inl (e, missing) ↦ inl (e, get_meta_checked-Missing E sets db key now holds.free missing)
      | inr (m, s) ↦
          inr (m, s, get_meta_checked-Stored E sets db key now sets-IsKind m es holds.free s)
    ]

    -- The guard on the size lets every set pass.
    pub live_set-HoldsSet :
        HoldsSet db key now es
        → ((es ≡ []) × (live_set E db key now ≡ ok none))
          ⊎ ((m : SimpleMeta) × Stored E sets db key now m es
              × (live_set E db key now ≡ ok (some m)))
    unfolding live_set
    live_set-HoldsSet holds = elim (get_meta_checked-HoldsSet holds) [
      | inl (e, g) ↦ inl (e, rw g refl)
      | inr (m, s, g) ↦ inr (m, s, rw (g, ◌>>=◌, not_empty, positive m s) refl)
    ]
      where
        positive : (m : SimpleMeta) → Stored E sets db key now m es → ltb 0 m.base.size ≡ true
        positive m s = ground (arith, s.counts.size, s.nonempty)
