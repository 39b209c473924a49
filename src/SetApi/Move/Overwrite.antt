-- ===== src/SetApi/Move/Overwrite.antt =====
-- embed/src/api/set/pop.rs, `overwrite_set`, on the set that a key holds.
use wedb_embed.Base.{
  ℕ, ◌≡◌, refl, ap, ◌∙◌, List, [], ◌∷◌, true, arith, ltb, length, inl, inr, Bool-cases, none,
}
use wedb_embed.Bytes.{IsU64}
use wedb_embed.Bytes.Order.{bytes_eq_refl}
use wedb_embed.KeyTag.{KeyTag, as_slice}
use wedb_embed.Store.{Engine, IsStore, Entry}
use wedb_embed.Store.Ordered.{look_up}
use wedb_embed.Db.{Db, DbBatch, commit, rm_meta, insert_data, insert_meta}
use wedb_embed.Db.Laws.{after_meta, after-rm_meta}
use wedb_embed.Outcome.{ok}
use wedb_embed.KeyApi.{check_key_not_other_type}
use wedb_embed.Composite
use wedb_embed.Composite.{SimpleMeta, encode, with_size}
use wedb_embed.Composite.State.{Free}
use wedb_embed.Composite.Queue.{cleared, Pending-cleared, Pending-rm_meta}
use wedb_embed.Composite.Commit.{commit-none}
use wedb_embed.SetApi.{sets, meta, has}
use wedb_embed.SetApi.State.{sets-IsKind, HoldsSet, SetGives}
use wedb_embed.SetApi.Members.{add_all}
use wedb_embed.SetApi.Write.{add_member, add_members}
use wedb_embed.SetApi.Write.Adding.{Adding, Adding-add_members}
use wedb_embed.SetApi.Write.Results.{start_Adding, commit-Holds, Counts-new}
use wedb_embed.SetApi.Move.{write_member, write_members, overwrite_set_iter, overwrite_set}

module _ (E : Engine) where
  -- The loop is that of an addition to a new set.
  write_members-add :
      (db : Db E) (key : List ℕ) (ms : List (List ℕ)) (state : List (List ℕ) × ℕ × DbBatch)
      → write_members E db key ms state ≡ add_members E db key true ms state
  unfolding write_members add_members write_member add_member
  write_members-add db key [] state = refl
  write_members-add db key (m ∷ ms) state =
      write_members-add db key ms (write_member E db key m state)

  -- It leaves the queue of the metadata alone.
  add_member-meta :
      (db : Db E) (key : List ℕ) (m : List ℕ) (seen : List (List ℕ)) (n : ℕ) (b : DbBatch)
      → (add_member E db key true m (seen, n, b)).2.meta_ks ≡ b.meta_ks
  unfolding add_member insert_data
  add_member-meta db key m seen n b = elim (Bool-cases (has m seen)) [
    | inl h ↦ rw h refl
    | inr h ↦ rw h refl
  ]

  add_members-meta :
      (db : Db E) (key : List ℕ) (ms : List (List ℕ)) (seen : List (List ℕ)) (n : ℕ) (b : DbBatch)
      → (add_members E db key true ms (seen, n, b)).2.meta_ks ≡ b.meta_ks
  unfolding add_members
  add_members-meta db key [] seen n b = refl
  add_members-meta db key (m ∷ ms) seen n b =
      let (seen', n', b') = add_member E db key true m (seen, n, b) in
      add_members-meta db key ms seen' n' b' ∙ add_member-meta db key m seen n b

  check-Free :
      (db : Db E) (key : List ℕ) (now : ℕ)
      → Free E sets db key now
      → check_key_not_other_type E db key (as_slice KeyTag.set_meta) now ≡ ok tt
  unfolding check_key_not_other_type
  check-Free db key now f = rw f.no_string f.alone

  -- If the engine is a store, the key holds a set, and the version and the number of different members are of 64
  -- bits: `overwrite_set` answers that number, after it the key holds the set of just these members,
  -- whatever it held before, and all that does not belong to the set is as before.
  pub overwrite_set-Gives :
      (store : IsStore E) (db : Db E) (key : List ℕ) (ms : List (List ℕ)) (now version : ℕ)
      (es : List Entry)
      → IsU64 version
      → IsU64 (length (add_all ms []))
      → HoldsSet E db key now es
      → SetGives E db key now
          (overwrite_set E db key ms now version)
          (length (add_all ms []))
          (add_all ms [])
  unfolding overwrite_set overwrite_set_iter look_up
  overwrite_set-Gives store db key ms now version es hv small holds =
      elim (Bool-cases (ltb 0 count)) [
        | inl some_members ↦
            let (holds', frame) =
              commit-Holds E store db queued key now count (Composite.new sets 0 version 0) 0
                (add_all ms []) holds.free a.ascending (ground (arith, counted, some_members)) small
                counted (Counts-new now version hv) a.pending in
            (
              commit E db (
                  insert_meta (meta db.kc key)
                    (encode (with_size count (Composite.new sets 0 version 0))) queued),
              rw
                  (
                    check-Free db key now holds.free,
                    write_members-add db key ms ([], 0, b),
                    some_members,
                    counted,
                  )
                  refl,
              holds',
              frame,
            )
        | inr no_members ↦
            let (holds', frame) =
              commit-none E sets store sets-IsKind db queued key now (add_all ms []) holds.free own
                a.pending in
            (
              commit E db queued,
              rw
                  (
                    check-Free db key now holds.free,
                    write_members-add db key ms ([], 0, b),
                    no_members,
                    counted,
                  )
                  refl,
              rw (a.unchanged (ground (arith, no_members))) holds',
              frame,
            )
      ]
    where
      b : DbBatch
      b = rm_meta (meta db.kc key) (cleared E sets db key)

      seen : List (List ℕ)
      seen = (add_members E db key true ms ([], 0, b)).0

      count : ℕ
      count = (add_members E db key true ms ([], 0, b)).1

      queued : DbBatch
      queued = (add_members E db key true ms ([], 0, b)).2

      a : Adding E db key [] seen count queued (add_all ms [])
      a =
          Adding-add_members E db key [] true ms [] 0 b [] (λ m. refl)
            (start_Adding E db key b [] tt (
              Pending-rm_meta E sets db (cleared E sets db key) key []
                (Pending-cleared E sets store db key)))

      counted : count ≡ length (add_all ms [])
      counted = omega (arith, a.count)

      own : after_meta E db queued (meta db.kc key) ≡ none
      own =
          ap
            (λ ops.
              wedb_embed.Store.effect ops (meta db.kc key) (E.get db.meta_ks (meta db.kc key)))
            (add_members-meta db key ms [] 0 b)
          ∙ after-rm_meta E db (cleared E sets db key) (meta db.kc key) (meta db.kc key)
          ∙ rw (bytes_eq_refl (meta db.kc key)) refl
