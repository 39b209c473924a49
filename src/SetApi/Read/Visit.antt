-- ===== src/SetApi/Read/Visit.antt =====
-- embed/src/api/set/scan.rs: what the iteration over a prefix shows to the closure.
use wedb_embed.Base.{
  ℕ, ◌≡◌, refl, sym, ap, ◌∙◌, List, [], ◌∷◌, ◌++◌, Bool, inl, inr, drop-length_append,
  if◌then◌else◌,
}
use wedb_embed.Bytes.Order.{bytes_lt-append_left, starts_with-append, starts_with→append}
use wedb_embed.Store.{Engine, IsStore, Entry, Has, Below, Ascending}
use wedb_embed.Store.Ordered.{look_up, Has→look_up, look_up→Has, Ascending-ext}
use wedb_embed.Db.{Db}
use wedb_embed.Outcome.{ok}
use wedb_embed.Composite.{prefix}
use wedb_embed.Composite.Queue.{prefix_stack_lem}
use wedb_embed.SetApi.{sets, prefix_stack}
use wedb_embed.SetApi.State.{HoldsSet, live_set-HoldsSet}
use wedb_embed.SetApi.Members.{members}
use wedb_embed.SetApi.Read.{siter_entries, siter_prefix, siter}

-- The closure sees each of the strings in turn, until it says to stop.
unfoldable pub visit : {S : Type 0} → (List ℕ → S → Bool × S) → List (List ℕ) → S → S
visit f [] state = state
visit f (m ∷ ms) state =
    let (go_on, state') = f m state in
    let rest = visit f ms state' in if go_on then rest else state'

-- The entries of the fields in the store.
abbrev pub stored_at : List ℕ → List Entry → List Entry
stored_at p [] = []
stored_at p (e ∷ es) = (p ++ e.0, e.1) ∷ stored_at p es

Below-stored_at : (p k : List ℕ) (es : List Entry) → Below k es → Below (p ++ k) (stored_at p es)
Below-stored_at p k [] h = tt
Below-stored_at p k (e ∷ es) (he, h) = (bytes_lt-append_left p k e.0 ∙ he, Below-stored_at p k es h)

stored_at-Ascending : (p : List ℕ) (es : List Entry) → Ascending es → Ascending (stored_at p es)
stored_at-Ascending p [] h = tt
stored_at-Ascending p (e ∷ es) (he, h) = (Below-stored_at p e.0 es he, stored_at-Ascending p es h)

Has-stored_at :
    (p k v : List ℕ) (es : List Entry) → Has (k, v) es → Has (p ++ k, v) (stored_at p es)
Has-stored_at p k v [] h = absurd h
Has-stored_at p k v (e ∷ es) (inl same) = inl (ap (λ x. (p ++ x.0, x.1)) same)
Has-stored_at p k v (e ∷ es) (inr h) = inr (Has-stored_at p k v es h)

stored_at-Has :
    (p : List ℕ) (x : Entry) (es : List Entry)
    → Has x (stored_at p es)
    → (k : List ℕ) × (x.0 ≡ p ++ k) × Has (k, x.1) es
stored_at-Has p x [] h = absurd h
stored_at-Has p x (e ∷ es) (inl same) =
    (e.0, ap (λ y. y.0) (sym same), inl (ap (λ y. let z : Entry = (e.0, y.1) in z) same))
stored_at-Has p x (e ∷ es) (inr h) = let (k, at, m) = stored_at-Has p x es h in (k, at, inr m)

-- The iterator over the prefix lists just the fields.
pub prefix-stored_at :
    (E : Engine) (store : IsStore E) (part : E.Partition) (p : List ℕ) (es : List Entry)
    → Ascending es
    → ((s : List ℕ) → E.get part (p ++ s) ≡ look_up es s)
    → E.prefix part p ≡ stored_at p es
prefix-stored_at E store part p es ascending fields =
    Ascending-ext (E.prefix part p) (stored_at p es) (store.prefix_Ascending part p)
      (stored_at-Ascending p es ascending) there back
  where
    there : (e : Entry) → Has e (E.prefix part p) → Has e (stored_at p es)
    there (k, v) m =
        let (value, starts) = (store.prefix_iff part p k v).0 m in
        let (r, at) = starts_with→append p k starts in
        rw at (
          Has-stored_at p r v es
            (look_up→Has es r v (sym (fields r) ∙ ap (E.get part) (sym at) ∙ value)))

    back : (e : Entry) → Has e (stored_at p es) → Has e (E.prefix part p)
    back (k, v) m =
        let (r, at, listed) = stored_at-Has p (k, v) es m in
        rw at (
          (store.prefix_iff part p (p ++ r) v).1
            (fields r ∙ Has→look_up es r v ascending listed, starts_with-append p r))

siter_entries-visit :
    {S : Type 0} (p : List ℕ) (f : List ℕ → S → Bool × S) (es : List Entry) (state : S)
    → siter_entries p f (stored_at p es) state ≡ visit f (members es) state
unfolding siter_entries visit
siter_entries-visit p f [] state = refl
siter_entries-visit p f (e ∷ es) state =
    rw (starts_with-append p e.0, drop-length_append p e.0)
      (ap (λ rest. let (go_on, state') = f e.0 state in if go_on then rest else state')
        (siter_entries-visit p f es (f e.0 state).1))

module _ (E : Engine) where
  pub siter_prefix-visit :
      {S : Type 0} (store : IsStore E) (db : Db E) (key : List ℕ) (es : List Entry)
      (f : List ℕ → S → Bool × S) (state : S)
      → Ascending es
      → ((s : List ℕ) → E.get db.data_ks (prefix sets db.kc key ++ s) ≡ look_up es s)
      → siter_prefix E db (prefix_stack db.kc key) f state ≡ visit f (members es) state
  unfolding siter_prefix
  siter_prefix-visit store db key es f state ascending fields =
      rw
        (
          prefix_stack_lem sets db.kc key,
          prefix-stored_at E store db.data_ks (prefix sets db.kc key) es ascending fields,
        )
        (siter_entries-visit (prefix sets db.kc key) f es state)

  -- If the engine is a store and the key holds the set `es`: `siter` shows the closure each member once, in the
  -- order of their bytes, until the closure says to stop, and answers what it made of the state.
  pub siter-visit :
      {S : Type 0} (store : IsStore E) (db : Db E) (key : List ℕ) (now : ℕ) (es : List Entry)
      (f : List ℕ → S → Bool × S) (state : S)
      → HoldsSet E db key now es
      → siter E db key f state now ≡ ok (visit f (members es) state)
  unfolding siter visit
  siter-visit store db key now es f state holds = elim (live_set-HoldsSet E db key now es holds) [
    | inl (e, g) ↦ rw (g, e) refl
    | inr (m, s, g) ↦
        rw g (ap ok (siter_prefix-visit store db key es f state holds.ascending s.fields))
  ]
