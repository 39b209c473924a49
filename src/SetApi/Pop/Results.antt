-- ===== src/SetApi/Pop/Results.antt =====
-- embed/src/api/set/pop.rs, `spop`, on the set that a key holds.
use wedb_embed.Base.{
  ℕ, zero, suc, ◌-◌, ◌<◌, ◌≤◌, ◌≡◌, refl, sym, ap, ◌∙◌, min, List, [], ◌∷◌, true, false, arith,
  ◌==◌, length, length-take, inl, inr, Bool-cases,
}
use wedb_embed.Bytes.Order.{bytes_eq→eq}
use wedb_embed.SetApi.Read.{push}
use wedb_embed.Store.{Engine, IsStore, Entry, Ascending}
use wedb_embed.Store.Finite.{contains}
use wedb_embed.Db.{Db, DbBatch, batch, rm_weak_data}
use wedb_embed.Outcome.{Result, ok, ◌>>=◌}
use wedb_embed.Composite.{SimpleMeta, with_size}
use wedb_embed.Composite.State.{Stored, Frame-refl}
use wedb_embed.Composite.Queue.{Pending-batch, Pending-cleared, cleared}
use wedb_embed.Composite.Commit.{commit-rm_meta}
use wedb_embed.SetApi.{sets, meta, has}
use wedb_embed.SetApi.State.{
  sets-IsKind, HoldsSet, SetGives, live_set-HoldsSet, member-prefix, key_for_member-prefix,
}
use wedb_embed.SetApi.Members.{members, without_all}
use wedb_embed.SetApi.HashSet.{Distinct, is_nil, has-members, members-Distinct}
use wedb_embed.SetApi.Write.{commit_set_batch}
use wedb_embed.SetApi.Write.Removed.{commit_set_batch-Holds}
use wedb_embed.SetApi.Read.Visit.{siter-visit}
use wedb_embed.SetApi.Read.Results.{visit-push}
use wedb_embed.SetApi.Algebra.Results.{length-members}
use wedb_embed.SetApi.Pop.{
  Fastrand, IsFastrand, rm_popped, spop_one, drawn, pop_members, spop_many, as_list, spop,
}
use wedb_embed.SetApi.Pop.Sample.{
  sample-member, Pending-rm_popped, without_all-Ascending, length-without_all, has-take,
  take-Distinct,
}

-- As many different members of the set as asked for, or all of them if there are not so many.
pub record Takes (ms : List (List ℕ)) (count : ℕ) (es : List Entry) : Type 0 where
  pub different : Distinct ms
  pub members : (s : List ℕ) → has s ms ≡ true → contains es s ≡ true
  pub number : length ms ≡ min count (length es)

Takes-nothing : (es : List Entry) (count : ℕ) → min count (length es) ≡ 0 → Takes [] count es
unfolding has
Takes-nothing es count h = record { different = tt; members = λ s z. cc z; number = sym h }

-- Without all of its members, a set is empty.
without_everything : (es : List Entry) → Ascending es → without_all (members es) es ≡ []
without_everything es h = nothing (without_all (members es) es) (
    omega (
      arith,
      length-members es,
      length-without_all (members es) es h (members-Distinct es h)
          (λ s there. sym (has-members s es) ∙ there),
    ))
  where
    nothing : (fs : List Entry) → length fs ≡ 0 → fs ≡ []
    nothing [] z = refl
    nothing (f ∷ fs) z = absurd (omega arith)

module _ (E : Engine) (store : IsStore E) (F : Fastrand) (fair : IsFastrand F) (db : Db E)
    (key : List ℕ) (now : ℕ) (es : List Entry) (holds : HoldsSet E db key now es) where
  -- The answer is taken from the set.
  abbrev Pops : ℕ → Result ((List (List ℕ) × F.Rng) × Db E) → Type 0
  Pops count r =
      (ms : List (List ℕ)) × (rng : F.Rng) × SetGives E db key now r (ms, rng) (without_all ms es)
      × Takes ms count es

  Pops-nothing :
      (count : ℕ) (rng : F.Rng) (r : Result ((List (List ℕ) × F.Rng) × Db E))
      → min count (length es) ≡ 0
      → r ≡ ok (([], rng), db)
      → Pops count r
  unfolding without_all
  Pops-nothing count rng r h e =
      ([], rng, (db, e, holds, Frame-refl E sets key db), Takes-nothing es count h)

  -- The commit without the members that are taken.
  Pops-some :
      (count size : ℕ) (m : SimpleMeta) (ms : List (List ℕ)) (rng : F.Rng) (b : DbBatch)
      (r : Result ((List (List ℕ) × F.Rng) × Db E))
      → Stored E sets db key now m es
      → b ≡ rm_popped E db key ms batch
      → Takes ms count es
      → size ≡ length es - length ms
      → r ≡ ok ((ms, rng), commit_set_batch E db (meta db.kc key) (with_size size m) b)
      → Pops count r
  Pops-some count size m ms rng b r s same takes e answer =
      let less = length-without_all ms es holds.ascending takes.different takes.members in
      let (holds', frame) =
        commit_set_batch-Holds E store db b key now size m (length es) (without_all ms es)
          holds.free (without_all-Ascending ms es holds.ascending)
          (omega (arith, less, s.counts.valid.size, s.counts.size)) (omega (arith, less, e))
          s.counts
          (rw same
            (Pending-rm_popped E db key ms batch es (Pending-batch E sets db key es s.fields))) in
      (ms, rng, (_, answer, holds', frame), takes)

  module _ (m : SimpleMeta) (s : Stored E sets db key now m es) (count : ℕ) (rng : F.Rng) where
    drawn-Takes :
        (n : ℕ)
        → n ≡ min count (length (members es))
        → (n == 1) ≡ false
        → Takes (drawn E F (members es) n rng).0 count es
    unfolding drawn
    drawn-Takes n e more = rw more (record {
      different =
          take-Distinct n (F.shuffle (members es) rng).0
            (fair.shuffle_Distinct (members es) rng (members-Distinct es holds.ascending));
      members = λ x there.
          sym (has-members x es)
          ∙ sym (fair.shuffle_has x (members es) rng)
          ∙ has-take n x (F.shuffle (members es) rng).0 there;
      number =
          length-take n (F.shuffle (members es) rng).0
          ∙ omega (arith, fair.shuffle_length (members es) rng, length-members es, e);
    })

    all_taken : length es ≤ count → Takes (members es) count es
    all_taken h = record {
      different = members-Distinct es holds.ascending;
      members = λ x there. sym (has-members x es) ∙ there;
      number = omega (arith, length-members es, h);
    }

    pop_members-Pops : 1 < count → Pops count (pop_members E F db key m (members es) count rng)
    unfolding pop_members
    pop_members-Pops h =
        elim (Bool-cases (min count (length (members es)) == length (members es))) [
          | inl z ↦
              let (holds', frame) =
                commit-rm_meta E sets store sets-IsKind db (cleared E sets db key) key now []
                  holds.free (Pending-cleared E sets store db key) in
              (
                members es,
                rng,
                (
                  _,
                  rw (some_members es s.nonempty, z) refl,
                  rw (without_everything es holds.ascending) holds',
                  frame,
                ),
                all_taken (ground (arith, z, length-members es)),
              )
          | inr z ↦
              Pops-some count (m.base.size - min count (length (members es))) m
                (drawn E F (members es) (min count (length (members es))) rng).0
                (drawn E F (members es) (min count (length (members es))) rng).1 _ _ s refl
                (drawn-Takes (min count (length (members es))) refl (several z))
                (let t = drawn-Takes (min count (length (members es))) refl (several z) in
                  omega (arith, t.number, s.counts.size, length-members es))
                (rw (some_members es s.nonempty, z) refl)
        ]
      where
        some_members : (fs : List Entry) → 0 < length fs → is_nil (members fs) ≡ false
        some_members [] k = absurd (omega arith)
        some_members (f ∷ fs) k = refl

        several :
            (min count (length (members es)) == length (members es)) ≡ false
            → (min count (length (members es)) == 1) ≡ false
        several z = let k = s.nonempty in ground (arith, length-members es)

  spop_many-Pops :
      (count : ℕ) (rng : F.Rng) → 1 < count → Pops count (spop_many E F db key count now rng)
  unfolding spop_many
  spop_many-Pops count rng h = elim (live_set-HoldsSet E db key now es holds) [
    | inl (e, g) ↦
        Pops-nothing count rng _ (ap (λ l. min count (length l)) e ∙ omega arith) (rw g refl)
    | inr (m, s, g) ↦
        rw (g, ◌>>=◌, siter-visit E store db key now es push [] holds, visit-push (members es) [])
          (pop_members-Pops m s count rng h)
  ]

  spop_one-Pops :
      (rng : F.Rng)
      → Pops 1 (spop_one E F db key now rng >>= (λ a. ok ((as_list E F a.0.0, a.0.1), a.1)))
  unfolding spop_one rm_popped has
  spop_one-Pops rng = elim (live_set-HoldsSet E db key now es holds) [
    | inl (e, g) ↦ Pops-nothing 1 rng _ (ap (λ l. min 1 (length l)) e ∙ omega arith) (rw g refl)
    | inr (m, s, g) ↦
        let (x, sampled, there) =
          sample-member E store db key es (F.usize 0 m.base.size rng).0 holds.ascending s.fields
            (below m s) in
        Pops-some 1 (m.base.size - 1) m (x ∷ []) (F.usize 0 m.base.size rng).1 _ _ s
          (ap (λ k. rm_weak_data k batch)
            (member-prefix db.kc key x ∙ sym (key_for_member-prefix db.kc key x)))
          (record {
            different = (refl, tt);
            members = λ y h. sym (has-members y es) ∙ same x y h ∙ there;
            number = omega (arith, s.nonempty);
          })
          (omega (arith, s.counts.size)) (rw (g, ◌>>=◌, sampled) refl)
  ]
    where
      below :
          (m : SimpleMeta)
          → Stored E sets db key now m es
          → (F.usize 0 m.base.size rng).0 < length (members es)
      below m s =
          let k = s.nonempty in
          let z = (fair.usize_range 0 m.base.size rng (omega (arith, s.counts.size))).1 in
          omega (arith, length-members es, s.counts.size)

      same : (x y : List ℕ) → has y (x ∷ []) ≡ true → has y (members es) ≡ has x (members es)
      same x y h = ap (λ t. has t (members es)) (sym (bytes_eq→eq x y (ground (arith, h))))

  -- If the engine is a store, the key holds the set `es`, and the generator does what its documentation says:
  -- `spop` answers as many different members of the set as asked for, or all of them if there are not so
  -- many; after it the key holds the set without them, and all that does not belong to the set is as
  -- before.
  pub spop-Takes :
      (count : ℕ) (rng : F.Rng)
      → (ms : List (List ℕ)) × (rng' : F.Rng) × SetGives E db key now
          (spop E F db key count now rng)
          (ms, rng')
          (without_all ms es)
        × Takes ms count es
  unfolding spop
  spop-Takes zero rng = Pops-nothing 0 rng _ (omega arith) refl
  spop-Takes (suc zero) rng = spop_one-Pops rng
  spop-Takes (suc (suc n)) rng =
      rw
        (
          let z : (suc (suc n) == 0) ≡ false = ground arith in z,
          let z : (suc (suc n) == 1) ≡ false = ground arith in z,
        )
        (spop_many-Pops (suc (suc n)) rng (omega arith))
