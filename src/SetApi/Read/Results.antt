-- ===== src/SetApi/Read/Results.antt =====
-- embed/src/api/set/impl.rs: what the commands that read answer on the set that a key holds.
use wedb_embed.Base.{
  ℕ, ◌≡◌, refl, sym, ap, ◌∙◌, List, [], ◌∷◌, ◌++◌, append_assoc, append-nil, Bool, false, inl, inr,
  length, map, replicate,
}
use wedb_embed.Store.{Engine, IsStore, Entry}
use wedb_embed.Store.Ordered.{look_up}
use wedb_embed.Store.Finite.{contains, is_some}
use wedb_embed.Db.{Db}
use wedb_embed.Outcome.{ok}
use wedb_embed.SetApi.{key_for_member, contains_key}
use wedb_embed.SetApi.State.{
  HoldsSet, live_set-HoldsSet, get_meta_checked-HoldsSet, member-prefix, key_for_member-prefix,
}
use wedb_embed.SetApi.Members.{members}
use wedb_embed.SetApi.Read.{push, smembers, sismember, smismember, scard}
use wedb_embed.SetApi.Read.Visit.{visit, siter_prefix-visit}

pub visit-push : (ms results : List (List ℕ)) → visit push ms results ≡ results ++ ms
unfolding visit
visit-push [] results = sym (append-nil results)
visit-push (m ∷ ms) results = visit-push ms (results ++ (m ∷ [])) ∙ append_assoc results (m ∷ []) ms

contains_nil : (ms : List (List ℕ)) → replicate (length ms) false ≡ map (contains []) ms
unfolding look_up
contains_nil [] = refl
contains_nil (m ∷ ms) = ap (λ r. false ∷ r) (contains_nil ms)

map_same :
    (f g : List ℕ → Bool) → ((m : List ℕ) → f m ≡ g m) → (ms : List (List ℕ)) → map f ms ≡ map g ms
map_same f g h [] = refl
map_same f g h (m ∷ ms) = rw (map, h m) (ap (λ r. g m ∷ r) (map_same f g h ms))

module _ (E : Engine) (db : Db E) (key : List ℕ) (now : ℕ) (es : List Entry)
    (holds : HoldsSet E db key now es) where
  -- If the engine is a store and the key holds the set `es`: `smembers` answers its members, each once, in the
  -- order of their bytes.
  pub smembers-members : (store : IsStore E) → smembers E db key now ≡ ok (members es)
  unfolding smembers
  smembers-members store = elim (live_set-HoldsSet E db key now es holds) [
    | inl (e, g) ↦ rw (g, e) refl
    | inr (m, s, g) ↦ rw g (
        ap ok (
          siter_prefix-visit E store db key es push [] holds.ascending s.fields
          ∙ visit-push (members es) []))
  ]

  pub sismember-contains : (m : List ℕ) → sismember E db key m now ≡ ok (contains es m)
  unfolding sismember look_up
  sismember-contains m = elim (live_set-HoldsSet E db key now es holds) [
    | inl (e, g) ↦ rw (g, e) refl
    | inr (meta, s, g) ↦ rw (g, member-prefix db.kc key m, s.fields m) refl
  ]

  smismember-contains :
      (ms : List (List ℕ)) → smismember E db key ms now ≡ ok (map (contains es) ms)
  unfolding smismember
  smismember-contains [] = refl
  smismember-contains (m ∷ ms) = elim (live_set-HoldsSet E db key now es holds) [
    | inl (e, g) ↦
        rw g (ap ok (contains_nil (m ∷ ms) ∙ ap (λ l. map (contains l) (m ∷ ms)) (sym e)))
    | inr (meta, s, g) ↦ rw g (
        ap ok (
          map_same (λ f. contains_key E db.data_ks (key_for_member db.kc key f)) (contains es)
            (λ f.
              ap is_some (ap (E.get db.data_ks) (key_for_member-prefix db.kc key f) ∙ s.fields f))
            (m ∷ ms)))
  ]

  pub scard-length : scard E db key now ≡ ok (length es)
  unfolding scard
  scard-length = elim (get_meta_checked-HoldsSet E db key now es holds) [
    | inl (e, g) ↦ rw (g, e) refl
    | inr (m, s, g) ↦ rw g (ap ok s.counts.size)
  ]

  -- If the key holds the set `es`: `sismember` answers whether a string is a member, `smismember` the same for
  -- each of a list of strings, in its order, and `scard` the number of the members.
  pub reads-HoldsSet :
      (m : List ℕ) (ms : List (List ℕ))
      → (sismember E db key m now ≡ ok (contains es m))
        × (smismember E db key ms now ≡ ok (map (contains es) ms))
        × (scard E db key now ≡ ok (length es))
  reads-HoldsSet m ms = (sismember-contains m, smismember-contains ms, scard-length)
