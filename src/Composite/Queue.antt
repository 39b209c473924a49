-- ===== src/Composite/Queue.antt =====
-- embed/src/api: the state in the middle of a command on a value's fields, a batch with the metadata
-- to come.
use wedb_embed.Base.{
  ℕ, ◌≡◌, ◌≢◌, refl, sym, ap, ◌∙◌, List, [], ◌++◌, false, none, if◌then◌else◌, length, Bool-cases,
  inl, inr, take_all, arith,
}
use mathlib.Core.List.{flatten}
use wedb_embed.Bytes.{bytes_eq, starts_with}
use wedb_embed.Bytes.Order.{differ, bytes_eq→eq, bytes_eq-append_left, starts_with-append}
use wedb_embed.KeyTag.{as_slice}
use wedb_embed.SmallKey.{as_bytes}
use wedb_embed.KeyComposer.{KeyComposer, compose_prefix_stack}
use wedb_embed.KeyComposer.Layout.{stack_key_layout, prefix_layout}
use wedb_embed.KeyComposer.Subkey.{compose_sub, subkey_composer}
use wedb_embed.Store.{Engine, IsStore, Entry, effect, clear_prefix_in_batch}
use wedb_embed.Store.Clear.{clear_prefix_in_batch-get}
use wedb_embed.Store.Ordered.{look_up, insert_sorted, look_up-insert_sorted}
use wedb_embed.Store.Finite.{without, look_up-without}
use wedb_embed.Db.{Db, DbBatch, batch, insert_data, rm_weak_data, rm_meta, insert_meta}
use wedb_embed.Db.Laws.{
  after_data, after_meta, after-insert_data, after-rm_weak_data, after-rm_meta, after-insert_meta,
}
use wedb_embed.Composite.{Kind, meta_key, prefix}

-- The prefix on the stack.
abbrev pub prefix_stack : Kind → KeyComposer → List ℕ → List ℕ
prefix_stack kind kc key = as_bytes (compose_prefix_stack kc (as_slice kind.data_tag) key)

pub prefix_stack_lem :
    (kind : Kind) (kc : KeyComposer) (key : List ℕ) → prefix_stack kind kc key ≡ prefix kind kc key
unfolding compose_prefix_stack flatten
prefix_stack_lem kind kc key =
    stack_key_layout kc (as_slice kind.data_tag) key []
    ∙ sym (prefix_layout kc (as_slice kind.data_tag) key)

-- The key of a field in the buffer that composes one after the other.
pub key_in_buffer :
    (kind : Kind) (kc : KeyComposer) (key s : List ℕ)
    → (compose_sub (subkey_composer (prefix_stack kind kc key)) s).buf ≡ prefix kind kc key ++ s
unfolding compose_sub subkey_composer
key_in_buffer kind kc key s =
    ap (λ p. p ++ s)
      (take_all (length (prefix_stack kind kc key)) (prefix_stack kind kc key) (omega arith)
        ∙ prefix_stack_lem kind kc key)

pub outside_differs : (p s k : List ℕ) → starts_with p k ≡ false → bytes_eq (p ++ s) k ≡ false
outside_differs p s k h = elim (Bool-cases (bytes_eq (p ++ s) k)) [
  | inl b ↦
      absurd (cc (sym h ∙ ap (starts_with p) (sym (bytes_eq→eq _ _ b)) ∙ starts_with-append p s))
  | inr b ↦ b
]

module _ (E : Engine) (kind : Kind) where
  -- The batch makes the fields at the key `es`, and changes no other data and no other metadata.
  pub record Pending (db : Db E) (b : DbBatch) (key : List ℕ) (es : List Entry) : Type 0 where
    pub fields : (s : List ℕ) → after_data E db b (prefix kind db.kc key ++ s) ≡ look_up es s
    pub others :
        (k : List ℕ)
        → starts_with (prefix kind db.kc key) k ≡ false
        → after_data E db b k ≡ E.get db.data_ks k
    pub other_meta :
        (k : List ℕ) → meta_key kind db.kc key ≢ k → after_meta E db b k ≡ E.get db.meta_ks k

  -- The empty batch.
  pub Pending-batch :
      (db : Db E) (key : List ℕ) (es : List Entry)
      → ((s : List ℕ) → E.get db.data_ks (prefix kind db.kc key ++ s) ≡ look_up es s)
      → Pending db batch key es
  unfolding effect
  Pending-batch db key es h = record {
    fields = h;
    others = λ k out. refl;
    other_meta = λ k ne. refl;
  }

  -- The batch that removes what is left of an old value.
  abbrev pub cleared : Db E → List ℕ → DbBatch
  cleared db key = record batch {
    data_ks = clear_prefix_in_batch E db.data_ks (prefix_stack kind db.kc key) [];
  }

  pub after-cleared :
      (store : IsStore E) (db : Db E) (key k : List ℕ)
      → after_data E db (cleared db key) k
        ≡ (if starts_with (prefix kind db.kc key) k then none else E.get db.data_ks k)
  after-cleared store db key k =
      sym (store.get-commit (cleared db key).data_ks db.data_ks k)
      ∙ clear_prefix_in_batch-get E store db.data_ks (prefix_stack kind db.kc key) k
      ∙ rw (prefix_stack_lem kind db.kc key) refl

  pub Pending-cleared :
      (store : IsStore E) (db : Db E) (key : List ℕ) → Pending db (cleared db key) key []
  unfolding look_up effect
  Pending-cleared store db key = record {
    fields = λ s.
        after-cleared store db key (prefix kind db.kc key ++ s)
        ∙ rw (starts_with-append (prefix kind db.kc key) s) refl;
    others = λ k out. after-cleared store db key k ∙ rw out refl;
    other_meta = λ k ne. refl;
  }

  module _ (db : Db E) (b : DbBatch) (key j m : List ℕ) (es : List Entry)
      (at : j ≡ prefix kind db.kc key ++ m) (p : Pending db b key es) where
    -- A field is written.
    pub Pending-insert : (v : List ℕ) → Pending db (insert_data j v b) key (insert_sorted (m, v) es)
    unfolding insert_data
    Pending-insert v = record {
      fields = λ s.
          after-insert_data E db b j v (prefix kind db.kc key ++ s)
          ∙ rw (at, bytes_eq-append_left (prefix kind db.kc key) m s, p.fields s)
              (sym (look_up-insert_sorted (m, v) es s));
      others = λ k out.
          after-insert_data E db b j v k
          ∙ rw (at, outside_differs (prefix kind db.kc key) m k out) (p.others k out);
      other_meta = p.other_meta;
    }

    -- A field is removed.
    pub Pending-rm_weak : Pending db (rm_weak_data j b) key (without m es)
    unfolding rm_weak_data
    Pending-rm_weak = record {
      fields = λ s.
          after-rm_weak_data E db b j (prefix kind db.kc key ++ s)
          ∙ rw (at, bytes_eq-append_left (prefix kind db.kc key) m s, p.fields s)
              (sym (look_up-without m s es));
      others = λ k out.
          after-rm_weak_data E db b j k
          ∙ rw (at, outside_differs (prefix kind db.kc key) m k out) (p.others k out);
      other_meta = p.other_meta;
    }

  -- The value's own metadata is removed.
  pub Pending-rm_meta :
      (db : Db E) (b : DbBatch) (key : List ℕ) (es : List Entry)
      → Pending db b key es
      → Pending db (rm_meta (meta_key kind db.kc key) b) key es
  unfolding rm_meta
  Pending-rm_meta db b key es p = record {
    fields = p.fields;
    others = p.others;
    other_meta = λ k ne.
        after-rm_meta E db b (meta_key kind db.kc key) k
        ∙ rw (differ (meta_key kind db.kc key) k ne) (p.other_meta k ne);
  }

  -- The value's own metadata is written.
  pub Pending-insert_meta :
      (db : Db E) (b : DbBatch) (key bytes : List ℕ) (es : List Entry)
      → Pending db b key es
      → Pending db (insert_meta (meta_key kind db.kc key) bytes b) key es
  unfolding insert_meta
  Pending-insert_meta db b key bytes es p = record {
    fields = p.fields;
    others = p.others;
    other_meta = λ k ne.
        after-insert_meta E db b (meta_key kind db.kc key) bytes k
        ∙ rw (differ (meta_key kind db.kc key) k ne) (p.other_meta k ne);
  }
