-- ===== src/ListApi/Others.antt =====
-- embed/src/api/list: the lists at other keys than a command's.
use wedb_embed.Base.{ℕ, ◌≡◌, ◌≢◌, sym, ap, ◌∙◌, List, true, false, length, Bool-cases, inl, inr}
use wedb_embed.Bytes.{IsU64, starts_with}
use wedb_embed.Bytes.Order.{starts_with→append}
use wedb_embed.KeyTag.{KeyTag, as_slice}
use wedb_embed.KeyComposer.{KeyComposer}
use wedb_embed.KeyComposer.RoundTrip.{IsScope}
use wedb_embed.KeyComposer.Keys.{compose_prefix-isolated, compose_subkey_stack-prefix}
use wedb_embed.KeyApi.Laws.{meta_key-key}
use wedb_embed.Store.{Engine, IsStore}
use wedb_embed.Db.{Db}
use wedb_embed.ListApi.Keys.{meta_key, item}
use wedb_embed.ListApi.Numbers.{prefix, starts_with-item}
use wedb_embed.ListApi.State.{meta_key_lem, Free-Frame, HoldsList, Frame}

-- No key begins as the elements of two lists.
pub prefix-apart :
    (kc : KeyComposer) (key other k : List ℕ)
    → IsScope kc
    → IsU64 (length key)
    → IsU64 (length other)
    → key ≢ other
    → starts_with (prefix kc other) k ≡ true
    → starts_with (prefix kc key) k ≡ false
prefix-apart kc key other k scope hk ho ne h = elim (Bool-cases (starts_with (prefix kc key) k)) [
  | inl b ↦
      let (r, e) = starts_with→append (prefix kc other) k h in
      absurd (
        ne
          (compose_prefix-isolated kc kc KeyTag.list_data KeyTag.list_data key other r scope scope
            hk ho
            (ap (starts_with (prefix kc key))
                (compose_subkey_stack-prefix kc (as_slice KeyTag.list_data) other r ∙ sym e)
              ∙ b)).2)
  | inr b ↦ b
]

module _ (E : Engine) (key other : List ℕ) (db db' : Db E) where
  pub other_meta_key : key ≢ other → meta_key db.kc key ≢ meta_key db.kc other
  other_meta_key ne e = ne (
      meta_key-key db.kc KeyTag.list_meta key other
        (sym (meta_key_lem db.kc key) ∙ e ∙ meta_key_lem db.kc other))

  -- What a command on the list at one key leaves as it was includes the lists at other keys: another key of
  -- the scope holds the same list after it, if the engine is a store and lengths of keys are of 64 bits.
  pub HoldsList-Frame :
      (store : IsStore E) (now : ℕ) (ys : List (List ℕ))
      → IsU64 (length key)
      → IsU64 (length other)
      → key ≢ other
      → Frame E key db db'
      → HoldsList E db other now ys
      → HoldsList E db' other now ys
  HoldsList-Frame store now ys hk ho ne fr holds = record {
    free = Free-Frame E store key other db db' now fr holds.free;
    value = elim holds.value [
      | inl (e, missing) ↦ inl (e, rw (fr.scope, same_meta) missing)
      | inr (m, s) ↦ inr (
        m,
        record {
          nonempty = s.nonempty;
          window = s.window;
          meta = rw (fr.scope, same_meta) s.meta;
          items = rw fr.scope (record {
            at = λ n h. same (item db.kc other n) (starts_with-item db.kc other n) ∙ s.items.at n h;
            only = λ k v p e. s.items.only k v p (sym (same k p) ∙ e);
          });
        },
      )
    ];
  }
    where
      same_meta : E.get db'.meta_ks (meta_key db.kc other) ≡ E.get db.meta_ks (meta_key db.kc other)
      same_meta = fr.other_meta (meta_key db.kc other) (other_meta_key ne)

      same :
          (k : List ℕ)
          → starts_with (prefix db.kc other) k ≡ true
          → E.get db'.data_ks k ≡ E.get db.data_ks k
      same k h = fr.others k (prefix-apart db.kc key other k holds.free.scope hk ho ne h)
