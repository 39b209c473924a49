-- ===== src/SetApi/Write/Adding.antt =====
-- embed/src/api/set/impl.rs, `sadd`: how each member changes the batch.
use wedb_embed.Base.{
  ℕ, ◌+◌, ◌≡◌, refl, ap, ◌∙◌, List, [], ◌∷◌, Bool, true, false, not, ◌||◌, arith, length, inl, inr,
  Bool-cases,
}
use wedb_embed.Bytes.{bytes_eq}
use wedb_embed.Store.{Engine, Entry, Ascending}
use wedb_embed.Store.Finite.{contains, length-insert_sorted}
use wedb_embed.Db.{Db, DbBatch, insert_data}
use wedb_embed.Composite.Queue.{Pending, Pending-insert}
use wedb_embed.SetApi.{sets, key_for_member, has, contains_key}
use wedb_embed.SetApi.State.{key_for_member-prefix}
use wedb_embed.SetApi.Members.{add, add_all, contains-add, add-Ascending, absent}
use wedb_embed.SetApi.Write.{add_member, add_members}

module _ (E : Engine) (db : Db E) (key : List ℕ) (start : List Entry) where
  -- The loop has come from the set `start` to `es`: the members seen are in it, the others are in it if they
  -- were before, and those added are counted.
  pub record Adding (seen : List (List ℕ)) (added : ℕ) (b : DbBatch) (es : List Entry)
      : Type 0 where
    pub pending : Pending E sets db b key es
    pub ascending : Ascending es
    pub count : length es ≡ length start + added
    pub unchanged : added ≡ 0 → es ≡ start
    pub old : (m : List ℕ) → has m seen ≡ false → contains es m ≡ contains start m
    pub there : (m : List ℕ) → has m seen ≡ true → contains es m ≡ true

  module _ (seen : List (List ℕ)) (added : ℕ) (b : DbBatch) (es : List Entry) (m : List ℕ) where
    there_after :
        Adding seen added b es
        → (s : List ℕ) → has s (m ∷ seen) ≡ true
        → contains (add m es) s ≡ true
    unfolding has
    there_after a s h = contains-add m s es ∙ elim (Bool-cases (bytes_eq m s)) [
      | inl c ↦ rw c refl
      | inr c ↦ rw c (a.there s (rw (c, has) at h))
    ]

    old_after :
        Adding seen added b es
        → (s : List ℕ) → has s (m ∷ seen) ≡ false
        → contains (add m es) s ≡ contains start s
    unfolding has
    old_after a s h = contains-add m s es ∙ elim (Bool-cases (bytes_eq m s)) [
      | inl c ↦ cc (let z : true ≡ false = rw (c, has) at h in z)
      | inr c ↦ rw c (a.old s (rw (c, has) at h))
    ]

    add_there : contains es m ≡ true → add m es ≡ es
    unfolding add
    add_there h = rw h refl

    Adding-known :
        has m seen ≡ false
        → contains start m ≡ true
        → Adding seen added b es
        → Adding (m ∷ seen) added b (add m es)
    Adding-known new known a =
        let same = add_there (a.old m new ∙ known) in
        record {
          pending = rw same a.pending;
          ascending = add-Ascending m es a.ascending;
          count = ap length same ∙ a.count;
          unchanged = λ z. same ∙ a.unchanged z;
          old = old_after a;
          there = there_after a;
        }

    Adding-insert :
        has m seen ≡ false
        → contains start m ≡ false
        → Adding seen added b es
        → Adding (m ∷ seen) (added + 1) (insert_data (key_for_member db.kc key m) [] b) (add m es)
    unfolding add
    Adding-insert new unknown a = record {
      pending =
          rw (a.old m new, unknown)
            (Pending-insert E sets db b key (key_for_member db.kc key m) m es
              (key_for_member-prefix db.kc key m) a.pending []);
      ascending = add-Ascending m es a.ascending;
      count =
          rw (a.old m new, unknown)
            (omega (
              arith,
              length-insert_sorted (m, []) es (absent es m (a.old m new ∙ unknown)),
              a.count,
            ));
      unchanged = λ z. absurd (omega arith);
      old = old_after a;
      there = there_after a;
    }

  -- The test of a member in the store is that of the set at the start.
  abbrev pub Fresh : Bool → Type 0
  Fresh is_new =
      (m : List ℕ)
      → is_new || not (contains_key E db.data_ks (key_for_member db.kc key m))
        ≡ not (contains start m)

  Adding-add_member :
      (is_new : Bool) (m : List ℕ) (seen : List (List ℕ)) (added : ℕ) (b : DbBatch)
      (es : List Entry)
      → Fresh is_new
      → Adding seen added b es
      → let (seen', added', b') = add_member E db key is_new m (seen, added, b) in
        Adding seen' added' b' (add m es)
  unfolding add_member
  Adding-add_member is_new m seen added b es fresh a = elim (Bool-cases (has m seen)) [
    | inl h ↦ rw (h, add_there seen added b es m (a.there m h)) a
    | inr h ↦ elim (Bool-cases (contains start m)) [
      | inl c ↦ rw (h, fresh m, c) (Adding-known seen added b es m h c a)
      | inr c ↦ rw (h, fresh m, c) (Adding-insert seen added b es m h c a)
    ]
  ]

  pub Adding-add_members :
      (is_new : Bool) (ms : List (List ℕ)) (seen : List (List ℕ)) (added : ℕ) (b : DbBatch)
      (es : List Entry)
      → Fresh is_new
      → Adding seen added b es
      → let (seen', added', b') = add_members E db key is_new ms (seen, added, b) in
        Adding seen' added' b' (add_all ms es)
  unfolding add_members add_all
  Adding-add_members is_new [] seen added b es fresh a = a
  Adding-add_members is_new (m ∷ ms) seen added b es fresh a =
      let (seen', added', b') = add_member E db key is_new m (seen, added, b) in
      Adding-add_members is_new ms seen' added' b' (add m es) fresh
        (Adding-add_member is_new m seen added b es fresh a)
