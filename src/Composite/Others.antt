-- ===== src/Composite/Others.antt =====
-- embed/src/api: the values at other keys than a command's.
use wedb_embed.Base.{
  ℕ, ◌≡◌, ◌≢◌, sym, ap, ◌∙◌, List, ◌++◌, true, false, length, Bool-cases, inl, inr,
}
use wedb_embed.Bytes.{IsU64, starts_with}
use wedb_embed.Bytes.Order.{starts_with→append, starts_with-append}
use wedb_embed.KeyTag.{as_slice}
use wedb_embed.KeyComposer.{KeyComposer}
use wedb_embed.KeyComposer.RoundTrip.{IsScope}
use wedb_embed.KeyComposer.Keys.{compose_prefix-isolated, compose_subkey_stack-prefix}
use wedb_embed.KeyApi.Laws.{meta_key-key}
use wedb_embed.Store.{Engine, IsStore, Entry}
use wedb_embed.Db.{Db}
use wedb_embed.Composite.{Kind, IsKind, meta_key, prefix}
use wedb_embed.Composite.State.{meta_key_lem, Free-Frame, Holds, Frame}

-- No key begins as the fields of two values.
pub prefix-apart :
    (kind : Kind) (kc : KeyComposer) (key other k : List ℕ)
    → IsScope kc
    → IsU64 (length key)
    → IsU64 (length other)
    → key ≢ other
    → starts_with (prefix kind kc other) k ≡ true
    → starts_with (prefix kind kc key) k ≡ false
prefix-apart kind kc key other k scope hk ho ne h =
    elim (Bool-cases (starts_with (prefix kind kc key) k)) [
      | inl b ↦
          let (r, e) = starts_with→append (prefix kind kc other) k h in
          absurd (
            ne
              (compose_prefix-isolated kc kc kind.data_tag kind.data_tag key other r scope scope hk
                ho
                (ap (starts_with (prefix kind kc key))
                    (compose_subkey_stack-prefix kc (as_slice kind.data_tag) other r ∙ sym e)
                  ∙ b)).2)
      | inr b ↦ b
    ]

pub other_meta_key :
    (kind : Kind) (kc : KeyComposer) (key other : List ℕ)
    → key ≢ other
    → meta_key kind kc key ≢ meta_key kind kc other
other_meta_key kind kc key other ne e = ne (
    meta_key-key kc kind.meta_tag key other
      (sym (meta_key_lem kind kc key) ∙ e ∙ meta_key_lem kind kc other))

-- What a command on the value at one key leaves as it was includes the values at other keys: another key of
-- the scope holds the same fields after it, if the engine is a store and lengths of keys are of 64 bits.
pub Holds-Frame :
    (E : Engine) (kind : Kind) (key other : List ℕ) (db db' : Db E) (store : IsStore E)
    (is_kind : IsKind kind) (now : ℕ) (es : List Entry)
    → IsU64 (length key)
    → IsU64 (length other)
    → key ≢ other
    → Frame E kind key db db'
    → Holds E kind db other now es
    → Holds E kind db' other now es
Holds-Frame E kind key other db db' store is_kind now es hk ho ne fr holds = record {
  free = Free-Frame E kind store is_kind key other db db' now fr holds.free;
  ascending = holds.ascending;
  value = elim holds.value [
    | inl (e, missing) ↦ inl (e, rw (fr.scope, same_meta) missing)
    | inr (m, s) ↦ inr (
      m,
      record {
        nonempty = s.nonempty;
        counts = s.counts;
        meta = rw (fr.scope, same_meta) s.meta;
        fields = rw fr.scope (λ f.
            fr.others (prefix kind db.kc other ++ f) (
              prefix-apart kind db.kc key other (prefix kind db.kc other ++ f) holds.free.scope hk
                ho ne (starts_with-append (prefix kind db.kc other) f))
            ∙ s.fields f);
      },
    )
  ];
}
  where
    same_meta :
        E.get db'.meta_ks (meta_key kind db.kc other) ≡ E.get db.meta_ks (meta_key kind db.kc other)
    same_meta = fr.other_meta (meta_key kind db.kc other) (other_meta_key kind db.kc key other ne)
