-- ===== src/SetApi/Write/Removing.antt =====
-- embed/src/api/set/impl.rs, `srem`: how each member changes the batch.
use wedb_embed.Base.{
  ℕ, ◌+◌, ◌≡◌, refl, ap, ◌∙◌, List, [], ◌∷◌, true, false, arith, length, inl, inr, Bool-cases,
}
use wedb_embed.Bytes.{bytes_eq}
use wedb_embed.Store.{Engine, Entry, Ascending}
use wedb_embed.Store.Finite.{contains, length-without, without, without-Ascending, without_absent}
use wedb_embed.Db.{Db, DbBatch, rm_weak_data}
use wedb_embed.Composite.Queue.{Pending, Pending-rm_weak}
use wedb_embed.SetApi.{sets, key_for_member, has, contains_key}
use wedb_embed.SetApi.State.{key_for_member-prefix}
use wedb_embed.SetApi.Members.{without_all, contains-without, absent}
use wedb_embed.SetApi.Write.{rm_member, rm_members}

module _ (E : Engine) (db : Db E) (key : List ℕ) (start : List Entry) where
  -- The loop has come from the set `start` to `es`: no member seen is in it, the others are in it if they
  -- were before, and those removed are counted.
  pub record Removing (seen : List (List ℕ)) (removed : ℕ) (b : DbBatch) (es : List Entry)
      : Type 0 where
    pub pending : Pending E sets db b key es
    pub ascending : Ascending es
    pub count : length es + removed ≡ length start
    pub unchanged : removed ≡ 0 → es ≡ start
    pub old : (m : List ℕ) → has m seen ≡ false → contains es m ≡ contains start m
    pub gone : (m : List ℕ) → has m seen ≡ true → contains es m ≡ false

  module _ (seen : List (List ℕ)) (removed : ℕ) (b : DbBatch) (es : List Entry) (m : List ℕ) where
    gone_after :
        Removing seen removed b es
        → (s : List ℕ) → has s (m ∷ seen) ≡ true
        → contains (without m es) s ≡ false
    unfolding has
    gone_after a s h = contains-without m s es ∙ elim (Bool-cases (bytes_eq m s)) [
      | inl c ↦ rw c refl
      | inr c ↦ rw c (a.gone s (rw (c, has) at h))
    ]

    old_after :
        Removing seen removed b es
        → (s : List ℕ) → has s (m ∷ seen) ≡ false
        → contains (without m es) s ≡ contains start s
    unfolding has
    old_after a s h = contains-without m s es ∙ elim (Bool-cases (bytes_eq m s)) [
      | inl c ↦ cc (let z : true ≡ false = rw (c, has) at h in z)
      | inr c ↦ rw c (a.old s (rw (c, has) at h))
    ]

    Removing-unknown :
        has m seen ≡ false
        → contains start m ≡ false
        → Removing seen removed b es
        → Removing (m ∷ seen) removed b (without m es)
    Removing-unknown new unknown a =
        let same = without_absent m es (absent es m (a.old m new ∙ unknown)) in
        record {
          pending = rw same a.pending;
          ascending = without-Ascending m es a.ascending;
          count = ap (λ l. length l + removed) same ∙ a.count;
          unchanged = λ z. same ∙ a.unchanged z;
          old = old_after a;
          gone = gone_after a;
        }

    Removing-rm_weak :
        has m seen ≡ false
        → contains start m ≡ true
        → Removing seen removed b es
        → Removing
            (m ∷ seen)
            (removed + 1)
            (rm_weak_data (key_for_member db.kc key m) b)
            (without m es)
    Removing-rm_weak new known a = record {
      pending =
          Pending-rm_weak E sets db b key (key_for_member db.kc key m) m es
            (key_for_member-prefix db.kc key m) a.pending;
      ascending = without-Ascending m es a.ascending;
      count = omega (arith, length-without m es a.ascending (a.old m new ∙ known), a.count);
      unchanged = λ z. absurd (omega arith);
      old = old_after a;
      gone = gone_after a;
    }

  -- The test of a member in the store is that of the set at the start.
  abbrev pub Known : Type 0
  Known = (m : List ℕ) → contains_key E db.data_ks (key_for_member db.kc key m) ≡ contains start m

  Removing-rm_member :
      (m : List ℕ) (seen : List (List ℕ)) (removed : ℕ) (b : DbBatch) (es : List Entry)
      → Known
      → Removing seen removed b es
      → let (seen', removed', b') = rm_member E db key m (seen, removed, b) in
        Removing seen' removed' b' (without m es)
  unfolding rm_member
  Removing-rm_member m seen removed b es known a = elim (Bool-cases (has m seen)) [
    | inl h ↦ rw (h, without_absent m es (absent es m (a.gone m h))) a
    | inr h ↦ elim (Bool-cases (contains start m)) [
      | inl c ↦ rw (h, known m, c) (Removing-rm_weak seen removed b es m h c a)
      | inr c ↦ rw (h, known m, c) (Removing-unknown seen removed b es m h c a)
    ]
  ]

  pub Removing-rm_members :
      (ms : List (List ℕ)) (seen : List (List ℕ)) (removed : ℕ) (b : DbBatch) (es : List Entry)
      → Known
      → Removing seen removed b es
      → let (seen', removed', b') = rm_members E db key ms (seen, removed, b) in
        Removing seen' removed' b' (without_all ms es)
  unfolding rm_members without_all
  Removing-rm_members [] seen removed b es known a = a
  Removing-rm_members (m ∷ ms) seen removed b es known a =
      let (seen', removed', b') = rm_member E db key m (seen, removed, b) in
      Removing-rm_members ms seen' removed' b' (without m es) known
        (Removing-rm_member m seen removed b es known a)
