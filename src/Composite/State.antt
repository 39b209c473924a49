-- ===== src/Composite/State.antt =====
-- embed/src/api: when a database holds a value of a kind, and what a command does to the rest of it.
use wedb_embed.Base.{
  ℕ, ◌<◌, ◌≡◌, ◌≢◌, refl, sym, ap, ◌∙◌, List, [], ◌++◌, false, ◌&&◌, arith, ltb, leb, length, none,
  some, ◌>>=◌, ==_refl, Bool-cases, inl, inr, ◌⊎◌, append-nil,
}
use wedb_embed.Bytes.{bytes_eq, starts_with}
use wedb_embed.Bytes.Order.{bytes_eq_refl, starts_with→append}
use wedb_embed.KeyTag.{KeyTag, as_slice, all_composite_meta_tags}
use wedb_embed.SmallKey.{as_bytes}
use wedb_embed.KeyComposer.{KeyComposer, compose_meta_key_into}
use wedb_embed.KeyComposer.RoundTrip.{IsScope}
use wedb_embed.KeyComposer.Keys.{
  compose_meta_key_stack-heap, meta_key-data_key, compose_subkey_stack-prefix,
}
use wedb_embed.KeyMeta
use wedb_embed.KeyMeta.{type_as_u8}
use wedb_embed.KeyMeta.RoundTrip as Header
use wedb_embed.StringValue.{raw}
use wedb_embed.Store.{Engine, IsStore, Entry, Ascending}
use wedb_embed.Store.Ordered.{look_up}
use wedb_embed.Db.{Db}
use wedb_embed.Outcome.{Result, ok}
use wedb_embed.KeyApi.{live, holds_string, check_composite_meta_not_other_type, get_meta_checked}
use wedb_embed.KeyApi.Laws.{
  raw_lem, meta_key-tag, check_tags-cong, check_composite_meta-check_tags, get_meta_checked-found,
  get_meta_checked-missing,
}
use wedb_embed.Composite.{
  Kind, IsKind, SimpleMeta, simple_ops, decode, encode, is_expired, meta_key, prefix,
}

pub meta_key_lem :
    (kind : Kind) (kc : KeyComposer) (key : List ℕ)
    → meta_key kind kc key ≡ compose_meta_key_into kc (as_slice kind.meta_tag) key
meta_key_lem kind kc key = compose_meta_key_stack-heap kc (as_slice kind.meta_tag) key

-- The metadata is of the kind, counts `n` fields, and is not expired.
pub record Counts (kind : Kind) (now : ℕ) (m : SimpleMeta) (n : ℕ) : Type 0 where
  pub valid : Header.IsValid m.base
  pub rtype : m.base.rtype ≡ kind.rtype
  pub unexpired : ltb 0 m.base.expire_at && leb m.base.expire_at now ≡ false
  pub size : m.base.size ≡ n

decode-encode_simple :
    (kind : Kind) (now : ℕ) (m : SimpleMeta) (n : ℕ)
    → Counts kind now m n
    → decode kind (encode m) ≡ some m
unfolding decode encode
decode-encode_simple kind now m n c =
    rw
      (
        ap KeyMeta.decode (sym (append-nil (KeyMeta.encode m.base))),
        Header.decode-encode_key_meta m.base [] c.valid,
        ◌>>=◌,
        c.rtype,
        ==_refl (type_as_u8 kind.rtype),
      )
      refl

module _ (E : Engine) (kind : Kind) where
  -- No live value of another type is at the key.
  pub record Free (db : Db E) (key : List ℕ) (now : ℕ) : Type 0 where
    pub scope : IsScope db.kc
    pub no_string : holds_string E db key now ≡ false
    pub alone : check_composite_meta_not_other_type E db key (as_slice kind.meta_tag) now ≡ ok tt

  pub record Stored (db : Db E) (key : List ℕ) (now : ℕ) (m : SimpleMeta) (es : List Entry)
      : Type 0 where
    pub nonempty : 0 < length es
    pub counts : Counts kind now m (length es)
    pub meta : E.get db.meta_ks (meta_key kind db.kc key) ≡ some (encode m)
    pub fields : (s : List ℕ) → E.get db.data_ks (prefix kind db.kc key ++ s) ≡ look_up es s

  -- No live metadata of the kind. Fields of an expired value may still be there.
  abbrev pub Missing : Db E → List ℕ → ℕ → Type 0
  Missing db key now =
      live (decode kind) is_expired now (E.get db.meta_ks (meta_key kind db.kc key)) ≡ none

  -- The fields of the value at the key are `es`; a key without a value has none.
  pub record Holds (db : Db E) (key : List ℕ) (now : ℕ) (es : List Entry) : Type 0 where
    pub free : Free db key now
    pub ascending : Ascending es
    pub value : ((es ≡ []) × Missing db key now) ⊎ ((m : SimpleMeta) × Stored db key now m es)

  -- What a command on the value at `key` leaves as it was: the scope, data keys that do not begin as the
  -- value's fields, and metadata keys but its own.
  pub record Frame (key : List ℕ) (db db' : Db E) : Type 0 where
    pub scope : db'.kc ≡ db.kc
    pub others :
        (k : List ℕ)
        → starts_with (prefix kind db.kc key) k ≡ false
        → E.get db'.data_ks k ≡ E.get db.data_ks k
    pub other_meta :
        (k : List ℕ) → meta_key kind db.kc key ≢ k → E.get db'.meta_ks k ≡ E.get db.meta_ks k

  pub Frame-refl : (key : List ℕ) (db : Db E) → Frame key db db
  Frame-refl key db = record { scope = refl; others = λ k h. refl; other_meta = λ k h. refl }

  -- The command succeeds with the answer `a`, the fields are `es` then, and the rest is as it was.
  abbrev pub Gives : Db E → List ℕ → ℕ → {A : Type 0} → Result (A × Db E) → A → List Entry → Type 0
  Gives db key now r a es =
      (db' : Db E) × (r ≡ ok (a, db')) × Holds db' key now es × Frame key db db'

  module _ (db : Db E) (key : List ℕ) (now : ℕ) where
    pub Stored-live :
        IsKind kind
        → (m : SimpleMeta) (es : List Entry) → Stored db key now m es
        → live (decode kind) is_expired now (E.get db.meta_ks (meta_key kind db.kc key)) ≡ some m
    unfolding is_expired KeyMeta.is_expired
    Stored-live is_kind m es s =
        rw
          (
            s.meta,
            live,
            decode-encode_simple kind now m (length es) s.counts,
            s.counts.rtype,
            is_kind.composite,
          )
          (ground (arith, s.counts.unexpired, s.counts.size, s.nonempty))

    pub get_meta_checked-Stored :
        IsKind kind
        → (m : SimpleMeta) (es : List Entry) → Free db key now
        → Stored db key now m es
        → get_meta_checked E (simple_ops kind) db key (meta_key kind db.kc key) now ≡ ok (some m)
    get_meta_checked-Stored is_kind m es f s =
        get_meta_checked-found E (simple_ops kind) db key (meta_key kind db.kc key) now m
          f.no_string (Stored-live is_kind m es s)

    pub get_meta_checked-Missing :
        Free db key now
        → Missing db key now
        → get_meta_checked E (simple_ops kind) db key (meta_key kind db.kc key) now ≡ ok none
    get_meta_checked-Missing f l =
        get_meta_checked-missing E (simple_ops kind) db key (meta_key kind db.kc key) now
          f.no_string l f.alone

  -- The string's key does not begin as the fields of a value.
  pub raw-outside :
      (kc : KeyComposer) (key other : List ℕ)
      → IsKind kind
      → IsScope kc
      → starts_with (prefix kind kc key) (as_bytes (raw kc other)) ≡ false
  raw-outside kc key other is_kind scope =
      elim (Bool-cases (starts_with (prefix kind kc key) (as_bytes (raw kc other)))) [
        | inl b ↦
            let (r, e) = starts_with→append (prefix kind kc key) (as_bytes (raw kc other)) b in
            absurd (
              is_kind.not_string (
                meta_key-data_key kc kc KeyTag.raw_string kind.data_tag other key r scope scope (
                  sym (raw_lem kc other)
                  ∙ e
                  ∙ sym (compose_subkey_stack-prefix kc (as_slice kind.data_tag) key r))))
        | inr b ↦ b
      ]

  pub meta_key-apart :
      (kc : KeyComposer) (key other : List ℕ) (t : KeyTag)
      → bytes_eq (as_slice t) (as_slice kind.meta_tag) ≡ false
      → meta_key kind kc key ≢ compose_meta_key_into kc (as_slice t) other
  meta_key-apart kc key other t differ e =
      let same = meta_key-tag kc kind.meta_tag t key other (sym (meta_key_lem kind kc key) ∙ e) in
      cc (
        sym differ
        ∙ ap (λ u. bytes_eq (as_slice u) (as_slice kind.meta_tag)) (sym same)
        ∙ bytes_eq_refl (as_slice kind.meta_tag))

  -- What keeps the string's key and the metadata keys of the other tags keeps other types away.
  pub Free-same :
      (store : IsStore E) (other : List ℕ) (db db' : Db E) (now : ℕ)
      → db'.kc ≡ db.kc
      → E.get db'.data_ks (as_bytes (raw db.kc other))
        ≡ E.get db.data_ks (as_bytes (raw db.kc other))
      → ((t : KeyTag)
          → bytes_eq (as_slice t) (as_slice kind.meta_tag) ≡ false
          → E.get db'.meta_ks (compose_meta_key_into db.kc (as_slice t) other)
            ≡ E.get db.meta_ks (compose_meta_key_into db.kc (as_slice t) other))
      → Free db other now
      → Free db' other now
  unfolding holds_string
  Free-same store other db db' now kc_same raw_same meta_same f = record {
    scope = rw kc_same f.scope;
    no_string = rw (kc_same, raw_same) f.no_string;
    alone =
        check_composite_meta-check_tags E store db' other (as_slice kind.meta_tag) now
        ∙ rw kc_same (
            check_tags-cong E db'.meta_ks db.meta_ks db.kc other (as_slice kind.meta_tag) now
              all_composite_meta_tags meta_same)
        ∙ sym (check_composite_meta-check_tags E store db other (as_slice kind.meta_tag) now)
        ∙ f.alone;
  }

  -- What keeps the frame keeps the other types away.
  pub Free-Frame :
      (store : IsStore E) (is_kind : IsKind kind) (key other : List ℕ) (db db' : Db E) (now : ℕ)
      → Frame key db db'
      → Free db other now
      → Free db' other now
  Free-Frame store is_kind key other db db' now fr f =
      Free-same store other db db' now fr.scope
        (fr.others (as_bytes (raw db.kc other)) (raw-outside db.kc key other is_kind f.scope))
        (λ t differ.
          fr.other_meta (compose_meta_key_into db.kc (as_slice t) other)
            (meta_key-apart db.kc key other t differ))
        f
