-- ===== src/Store/Clear.antt =====
-- embed/src/api/key/mod.rs, `clear_prefix_in_batch`: what is in the store after the commit.
use wedb_embed.Base.{
  ℕ, ◌≡◌, refl, sym, ap, ◌∙◌, List, [], ◌∷◌, ◌++◌, append_assoc, append-nil, true, false, Option,
  none, some, inl, inr, All, if◌then◌else◌, length, Bool-cases, Option-cases,
}
use wedb_embed.Bytes.{IsU64, bytes_eq, starts_with}
use wedb_embed.Bytes.Order.{bytes_eq_refl, bytes_eq→eq}
use wedb_embed.KeyTag.{KeyTag, as_slice}
use wedb_embed.SmallKey.{as_bytes}
use wedb_embed.KeyComposer.{KeyComposer, compose_prefix, compose_subkey_stack}
use wedb_embed.KeyComposer.RoundTrip.{IsScope}
use wedb_embed.KeyComposer.Keys.{compose_prefix-isolated, compose_prefix-starts}
use wedb_embed.Store.{
  Op, Entry, Engine, effect, Lists, Has, IsStore, clear_entries, clear_prefix_in_batch,
}

-- What holds of the members of a listing.
All-Has : (P : Entry → Type 0) (es : List Entry) → ((e : Entry) → Has e es → P e) → All P es
All-Has P [] h = tt
All-Has P (e ∷ es) h = (h e (inl refl), All-Has P es (λ x m. h x (inr m)))

Has→Lists : (k v : List ℕ) (es : List Entry) → Has (k, v) es → Lists k es
Has→Lists k v [] h = absurd h
Has→Lists k v (e ∷ es) (inl same) = inl (ap (λ x. x.0) same)
Has→Lists k v (e ∷ es) (inr h) = inr (Has→Lists k v es h)

pub prefix_sound :
    (E : Engine) (store : IsStore E) (p : E.Partition) (q : List ℕ)
    → All (λ e. starts_with q e.0 ≡ true) (E.prefix p q)
prefix_sound E store p q =
    All-Has (λ e. starts_with q e.0 ≡ true) (E.prefix p q)
      (λ e m. ((store.prefix_iff p q e.0 e.1).0 m).1)

prefix_complete :
    (E : Engine) (store : IsStore E) (p : E.Partition) (q k v : List ℕ)
    → E.get p k ≡ some v
    → starts_with q k ≡ true
    → Lists k (E.prefix p q)
prefix_complete E store p q k v e h =
    Has→Lists k v (E.prefix p q) ((store.prefix_iff p q k v).1 (e, h))

abbrev removals : List Entry → List Op
removals [] = []
removals (e ∷ es) = Op.rm e.0 ∷ removals es

clear_entries-removals :
    (q : List ℕ) (es : List Entry) (batch : List Op)
    → All (λ e. starts_with q e.0 ≡ true) es
    → clear_entries q es batch ≡ batch ++ removals es
unfolding clear_entries
clear_entries-removals q [] batch h = sym (append-nil batch)
clear_entries-removals q (e ∷ es) batch (he, h) = rw he (
    clear_entries-removals q es (batch ++ (Op.rm e.0 ∷ [])) h
    ∙ append_assoc batch (Op.rm e.0 ∷ []) (removals es))

effect-absent : (es : List Entry) (k : List ℕ) → effect (removals es) k none ≡ none
unfolding effect
effect-absent [] k = refl
effect-absent (e ∷ es) k = elim (Bool-cases (bytes_eq e.0 k)) [
  | inl b ↦ rw (b, effect) (effect-absent es k)
  | inr b ↦ rw (b, effect) (effect-absent es k)
]

effect-listed :
    (es : List Entry) (k : List ℕ) (v : Option (List ℕ))
    → Lists k es
    → effect (removals es) k v ≡ none
unfolding effect
effect-listed [] k v h = absurd h
effect-listed (e ∷ es) k v (inl same) =
    rw (ap (bytes_eq e.0) (sym same) ∙ bytes_eq_refl e.0, effect) (effect-absent es k)
effect-listed (e ∷ es) k v (inr h) = effect-listed es k (if bytes_eq e.0 k then none else v) h

effect-other :
    (q : List ℕ) (es : List Entry) (k : List ℕ) (v : Option (List ℕ))
    → All (λ e. starts_with q e.0 ≡ true) es
    → starts_with q k ≡ false
    → effect (removals es) k v ≡ v
unfolding effect
effect-other q [] k v h out = refl
effect-other q (e ∷ es) k v (he, h) out = elim (Bool-cases (bytes_eq e.0 k)) [
  | inl b ↦ absurd (cc (he, out, ap (starts_with q) (bytes_eq→eq e.0 k b)))
  | inr b ↦ rw (b, effect) (effect-other q es k v h out)
]

-- If the engine is a store: after a commit of what `clear_prefix_in_batch` queues in an empty batch, the
-- keys with the prefix are gone and all others have the value from before.
pub clear_prefix_in_batch-get :
    (E : Engine) (store : IsStore E) (p : E.Partition) (q k : List ℕ)
    → E.get (E.commit (clear_prefix_in_batch E p q []) p) k
      ≡ (if starts_with q k then none else E.get p k)
unfolding clear_prefix_in_batch
clear_prefix_in_batch-get E store p q k =
    store.get-commit (clear_entries q (E.prefix p q) []) p k
    ∙ ap (λ ops. effect ops k (E.get p k))
        (clear_entries-removals q (E.prefix p q) [] (prefix_sound E store p q))
    ∙ elim (Bool-cases (starts_with q k)) [
      | inl b ↦ rw b (elim (Option-cases (E.get p k)) [
        | inl e ↦ rw e (effect-absent (E.prefix p q) k)
        | inr (v, e) ↦
            effect-listed (E.prefix p q) k (E.get p k) (prefix_complete E store p q k v e b)
      ])
      | inr b ↦ rw b (effect-other q (E.prefix p q) k (E.get p k) (prefix_sound E store p q) b)
    ]

-- If the engine is a store, and scopes and lengths are of 64 bits: after the removal by a value's
-- prefix, a data key of any value that differs in scope, tag or user key has the value from before.
pub clear_value-others :
    (E : Engine) (store : IsStore E) (p : E.Partition) (kc kd : KeyComposer) (t u : KeyTag)
    (key other s : List ℕ)
    → IsScope kc
    → IsScope kd
    → IsU64 (length key)
    → IsU64 (length other)
    → ¬ ((kc ≡ kd) × (t ≡ u) × (key ≡ other))
    → let prefix = compose_prefix kc (as_slice t) key in
      let other_key = as_bytes (compose_subkey_stack kd (as_slice u) other s) in
      E.get (E.commit (clear_prefix_in_batch E p prefix []) p) other_key ≡ E.get p other_key
clear_value-others E store p kc kd t u key other s hc hd hk ho differ =
    clear_prefix_in_batch-get E store p (compose_prefix kc (as_slice t) key)
      (as_bytes (compose_subkey_stack kd (as_slice u) other s))
    ∙ rw outside refl
  where
    outside :
        starts_with
          (compose_prefix kc (as_slice t) key)
          (as_bytes (compose_subkey_stack kd (as_slice u) other s))
        ≡ false
    outside =
        elim (Bool-cases (
          starts_with (compose_prefix kc (as_slice t) key)
            (as_bytes (compose_subkey_stack kd (as_slice u) other s)))) [
              | inl b ↦
                  absurd (differ (compose_prefix-isolated kc kd t u key other s hc hd hk ho b))
              | inr b ↦ b
            ]

-- If the engine is a store: after the removal by a value's prefix, none of the value's data is left.
pub clear_value-own :
    (E : Engine) (store : IsStore E) (p : E.Partition) (kc : KeyComposer) (t : KeyTag)
    (key s : List ℕ)
    → E.get
        (E.commit (clear_prefix_in_batch E p (compose_prefix kc (as_slice t) key) []) p)
        (as_bytes (compose_subkey_stack kc (as_slice t) key s))
      ≡ none
clear_value-own E store p kc t key s =
    clear_prefix_in_batch-get E store p (compose_prefix kc (as_slice t) key)
      (as_bytes (compose_subkey_stack kc (as_slice t) key s))
    ∙ rw (compose_prefix-starts kc (as_slice t) key s) refl
