-- ===== src/SetApi/Pop.antt =====
-- embed/src/api/set/pop.rs: removing members drawn at random. The generator is a package's: what its
-- documentation says of the two calls is `IsFastrand`. Its state is passed on.
pub mod Sample
pub mod Results
mod Examples
use wedb_embed.Base.{
  ℕ, ◌+◌, ◌-◌, ◌<◌, ◌≤◌, ◌≡◌, min, List, [], ◌∷◌, ◌++◌, Bool, true, false, Option, none, some, ◌==◌,
  length, take, drop, get_or, if◌then◌else◌,
}
use wedb_embed.Bytes.{starts_with}
use wedb_embed.Store.{Engine, Entry, clear_prefix_in_batch}
use wedb_embed.Db.{Db, DbBatch, batch, rm_weak_data, rm_meta, commit}
use wedb_embed.Outcome.{Result, ok, ◌>>=◌}
use wedb_embed.Composite.{with_size}
use wedb_embed.SetApi.{SetMeta, meta, prefix_stack, member, key_for_member, has, live_set}
use wedb_embed.SetApi.HashSet.{Distinct, is_nil}
use wedb_embed.SetApi.Write.{commit_set_batch}
use wedb_embed.SetApi.Read.{push, siter}

pub record Fastrand : Type 1 where
  pub Rng : Type 0
  pub usize : ℕ → ℕ → Rng → ℕ × Rng
  pub shuffle : List (List ℕ) → Rng → List (List ℕ) × Rng

-- A number of the range, if there is one, and the same elements in another order.
pub record IsFastrand (F : Fastrand) : Type 0 where
  pub usize_range :
      (lo hi : ℕ) (rng : F.Rng)
      → lo < hi
      → (lo ≤ (F.usize lo hi rng).0) × ((F.usize lo hi rng).0 < hi)
  pub shuffle_has :
      (s : List ℕ) (xs : List (List ℕ)) (rng : F.Rng) → has s (F.shuffle xs rng).0 ≡ has s xs
  pub shuffle_length : (xs : List (List ℕ)) (rng : F.Rng) → length (F.shuffle xs rng).0 ≡ length xs
  pub shuffle_Distinct :
      (xs : List (List ℕ)) (rng : F.Rng) → Distinct xs → Distinct (F.shuffle xs rng).0

-- The loop over the iterator, with the number of the entry.
unfoldable pub sample_entries : List ℕ → ℕ → List Entry → ℕ → Option (List ℕ)
sample_entries prefix target_idx [] current_idx = none
sample_entries prefix target_idx (entry ∷ entries) current_idx =
    let rest = sample_entries prefix target_idx entries (current_idx + 1) in
    if starts_with prefix entry.0
    then (if current_idx == target_idx then some (drop (length prefix) entry.0) else rest)
    else none

module _ (E : Engine) where
  unfoldable pub sample_prefix_element : E.Partition → List ℕ → ℕ → Option (List ℕ)
  unfolding sample_entries
  sample_prefix_element partition prefix target_idx =
      sample_entries prefix target_idx (E.prefix partition prefix) 0

  -- The loop over the members that are popped.
  unfoldable pub rm_popped : Db E → List ℕ → List (List ℕ) → DbBatch → DbBatch
  rm_popped db k_bytes [] b = b
  rm_popped db k_bytes (m ∷ popped) b =
      rm_popped db k_bytes popped (rm_weak_data (key_for_member db.kc k_bytes m) b)

  module _ (F : Fastrand) where
    unfoldable pub spop_one : Db E → List ℕ → ℕ → F.Rng → Result ((Option (List ℕ) × F.Rng) × Db E)
    unfolding live_set sample_prefix_element commit_set_batch
    spop_one db k_bytes now_ms rng = do
      found ← live_set E db k_bytes now_ms
      elim found [
        | none ↦ ok ((none, rng), db)
        | some m ↦
            let (target, next_rng) = F.usize 0 m.base.size rng in
            elim (sample_prefix_element db.data_ks (prefix_stack db.kc k_bytes) target) [
              | none ↦ ok ((none, next_rng), db)
              | some item ↦ ok (
                (some item, next_rng),
                commit_set_batch E db (meta db.kc k_bytes) (with_size (m.base.size - 1) m)
                    (rm_weak_data (member db.kc k_bytes item) batch),
              )
            ]
      ]

    unfoldable pub srandmember_one : Db E → List ℕ → ℕ → F.Rng → Result (Option (List ℕ) × F.Rng)
    unfolding live_set sample_prefix_element
    srandmember_one db k_bytes now_ms rng = do
      found ← live_set E db k_bytes now_ms
      elim found [
        | none ↦ ok (none, rng)
        | some m ↦
            let (target, next_rng) = F.usize 0 m.base.size rng in
            ok (sample_prefix_element db.data_ks (prefix_stack db.kc k_bytes) target, next_rng)
      ]

    -- Some of the members: one by its number, or the first ones after a shuffle.
    unfoldable pub drawn : List (List ℕ) → ℕ → F.Rng → List (List ℕ) × F.Rng
    drawn members pop_count rng =
        let (idx, after_one) = F.usize 0 (length members) rng in
        let (shuffled, after_all) = F.shuffle members rng in
        if pop_count == 1
        then (get_or members idx [] ∷ [], after_one)
        else (take pop_count shuffled, after_all)

    -- The members are read: all of them go, or some.
    unfoldable pub pop_members :
        Db E
        → List ℕ
        → SetMeta
        → List (List ℕ)
        → ℕ
        → F.Rng
        → Result ((List (List ℕ) × F.Rng) × Db E)
    unfolding drawn rm_popped commit_set_batch
    pop_members db k_bytes m members count rng =
        let pop_count = min count (length members) in
        let (popped, next_rng) = drawn members pop_count rng in
        if is_nil members
        then ok (([], rng), db)
        else if pop_count == length members
        then ok (
          (members, rng),
          commit E db (
              rm_meta (meta db.kc k_bytes) (record batch {
                data_ks = clear_prefix_in_batch E db.data_ks (prefix_stack db.kc k_bytes) [];
              })),
        )
        else ok (
          (popped, next_rng),
          commit_set_batch E db (meta db.kc k_bytes) (with_size (m.base.size - pop_count) m)
              (rm_popped db k_bytes popped batch),
        )

    unfoldable pub spop_many :
        Db E → List ℕ → ℕ → ℕ → F.Rng → Result ((List (List ℕ) × F.Rng) × Db E)
    unfolding live_set siter pop_members
    spop_many db k_bytes count now_ms rng = do
      found ← live_set E db k_bytes now_ms
      elim found [
        | none ↦ ok (([], rng), db)
        | some m ↦
            siter E db k_bytes push [] now_ms
            >>= (λ members. pop_members db k_bytes m members count rng)
      ]

    abbrev pub as_list : Option (List ℕ) → List (List ℕ)
    as_list none = []
    as_list (some item) = item ∷ []

    -- No member, one, or more.
    unfoldable pub spop : Db E → List ℕ → ℕ → ℕ → F.Rng → Result ((List (List ℕ) × F.Rng) × Db E)
    unfolding spop_one spop_many
    spop db key count now_ms rng =
        if count == 0
        then ok (([], rng), db)
        else if count == 1
        then (spop_one db key now_ms rng >>= (λ a. ok ((as_list a.0.0, a.0.1), a.1)))
        else spop_many db key count now_ms rng
