-- ===== src/SetApi/Read.antt =====
-- embed/src/api/set/impl.rs and scan.rs: reading a set. A closure that changes variables of its caller
-- is a function on their values, which returns whether to go on.
pub mod Visit
pub mod Results
use wedb_embed.Base.{
  ℕ, ◌+◌, List, [], ◌∷◌, ◌++◌, Bool, true, false, ◌||◌, Option, none, some, ltb, if◌then◌else◌,
  length, drop, map, replicate,
}
use wedb_embed.Bytes.{bytes_eq, starts_with}
use wedb_embed.Glob.{matches_glob_bytes}
use wedb_embed.Store.{Engine, Entry}
use wedb_embed.Db.{Db}
use wedb_embed.Outcome.{Result, ok, ◌>>=◌}
use wedb_embed.KeyApi.{get_meta_checked}
use wedb_embed.Composite.{simple_ops}
use wedb_embed.SetApi.{
  SetMeta, sets, meta, prefix_stack, member, key_for_member, contains_key, live_set,
}

-- The loop over the iterator: it ends at the first key without the prefix, or when the closure says so.
unfoldable pub siter_entries : {S : Type 0} → List ℕ → (List ℕ → S → Bool × S) → List Entry → S → S
siter_entries prefix_bytes f [] state = state
siter_entries prefix_bytes f (entry ∷ entries) state =
    let (go_on, state') = f (drop (length prefix_bytes) entry.0) state in
    let rest = siter_entries prefix_bytes f entries state' in
    if starts_with prefix_bytes entry.0 then (if go_on then rest else state') else state

-- The closure that collects what it is shown.
abbrev pub push : List ℕ → List (List ℕ) → Bool × List (List ℕ)
push m results = (true, results ++ (m ∷ []))

module _ (E : Engine) where
  unfoldable pub siter_prefix : {S : Type 0} → Db E → List ℕ → (List ℕ → S → Bool × S) → S → S
  unfolding siter_entries
  siter_prefix db prefix_bytes f state =
      siter_entries prefix_bytes f (E.prefix db.data_ks prefix_bytes) state

  unfoldable pub siter : {S : Type 0} → Db E → List ℕ → (List ℕ → S → Bool × S) → S → ℕ → Result S
  unfolding live_set siter_prefix
  siter db k_bytes f state now_ms = do
    found ← live_set E db k_bytes now_ms
    elim found [
      | none ↦ ok state
      | some m ↦ ok (siter_prefix db (prefix_stack db.kc k_bytes) f state)
    ]

  unfoldable pub smembers : Db E → List ℕ → ℕ → Result (List (List ℕ))
  unfolding live_set siter_prefix
  smembers db k_bytes now_ms = do
    found ← live_set E db k_bytes now_ms
    elim found [ none ↦ ok [] | some m ↦ ok (siter_prefix db (prefix_stack db.kc k_bytes) push []) ]

  unfoldable pub sismember : Db E → List ℕ → List ℕ → ℕ → Result Bool
  unfolding live_set
  sismember db k_bytes m_bytes now_ms = do
    found ← live_set E db k_bytes now_ms
    elim found [
      | none ↦ ok false
      | some m ↦ ok (contains_key E db.data_ks (member db.kc k_bytes m_bytes))
    ]

  -- No member, or some.
  unfoldable pub smismember : Db E → List ℕ → List (List ℕ) → ℕ → Result (List Bool)
  unfolding live_set
  smismember db k_bytes [] now_ms = ok []
  smismember db k_bytes (n ∷ members) now_ms = do
    found ← live_set E db k_bytes now_ms
    elim found [
      | none ↦ ok (replicate (length (n ∷ members)) false)
      | some m ↦
          ok (map (λ m. contains_key E db.data_ks (key_for_member db.kc k_bytes m)) (n ∷ members))
    ]

  unfoldable pub scard : Db E → List ℕ → ℕ → Result ℕ
  scard db k_bytes now_ms = do
    found ← get_meta_checked E (simple_ops sets) db k_bytes (meta db.kc k_bytes) now_ms
    elim found [ none ↦ ok 0 | some m ↦ ok m.base.size ]
