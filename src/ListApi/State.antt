-- ===== src/ListApi/State.antt =====
-- embed/src/api/list: when a database holds a list, and what a command does to the rest of it.
use wedb_embed.Base.{
  ℕ, ◌^◌, ◌<◌, ◌≡◌, ◌≢◌, refl, sym, ap, ◌∙◌, List, [], false, ◌&&◌, arith, ltb, leb, length, none,
  some, ◌⊎◌,
}
use wedb_embed.Bytes.{bytes_eq, starts_with}
use wedb_embed.Bytes.Order.{bytes_eq_refl}
use wedb_embed.KeyTag.{KeyTag, as_slice, all_composite_meta_tags}
use wedb_embed.SmallKey.{as_bytes}
use wedb_embed.KeyComposer.{KeyComposer, compose_meta_key_into}
use wedb_embed.KeyComposer.RoundTrip.{IsScope}
use wedb_embed.KeyComposer.Keys.{compose_meta_key_stack-heap}
use wedb_embed.StringValue.{raw}
use wedb_embed.Store.{Engine, IsStore}
use wedb_embed.Db.{Db}
use wedb_embed.Outcome.{Result, ok}
use wedb_embed.KeyApi.{live, holds_string, check_composite_meta_not_other_type, get_meta_checked}
use wedb_embed.KeyApi.Laws.{
  raw_lem, meta_key-tag, check_tags-cong, check_composite_meta-check_tags, get_meta_checked-found,
  get_meta_checked-missing,
}
use wedb_embed.ListMeta
use wedb_embed.ListMeta.{ListMeta, wrapping_add}
use wedb_embed.ListMeta.RoundTrip.{IsValid, decode-encode_list_meta}
use wedb_embed.ListApi.Keys.{meta_key, list_ops}
use wedb_embed.ListApi.Numbers.{prefix, meta_key-outside}
use wedb_embed.ListApi.Items.{Items}

pub meta_key_lem :
    (kc : KeyComposer) (key : List ℕ)
    → meta_key kc key ≡ compose_meta_key_into kc (as_slice KeyTag.list_meta) key
unfolding meta_key
meta_key_lem kc key = compose_meta_key_stack-heap kc (as_slice KeyTag.list_meta) key

-- The metadata is that of a list of `n` elements which is not expired.
pub record Window (now : ℕ) (m : ListMeta) (n : ℕ) : Type 0 where
  pub valid : IsValid m
  pub unexpired : ltb 0 m.base.expire_at && leb m.base.expire_at now ≡ false
  pub size : m.base.size ≡ n
  pub tail : m.tail ≡ wrapping_add m.head n
  pub fits : n < 2 ^ 63

module _ (E : Engine) where
  -- No live value of another type is at the key.
  pub record Free (db : Db E) (key : List ℕ) (now : ℕ) : Type 0 where
    pub scope : IsScope db.kc
    pub no_string : holds_string E db key now ≡ false
    pub alone : check_composite_meta_not_other_type E db key (as_slice KeyTag.list_meta) now ≡ ok tt

  pub record Stored (db : Db E) (key : List ℕ) (now : ℕ) (m : ListMeta) (xs : List (List ℕ))
      : Type 0 where
    pub nonempty : 0 < length xs
    pub window : Window now m (length xs)
    pub meta : E.get db.meta_ks (meta_key db.kc key) ≡ some (ListMeta.encode m)
    pub items : Items db.kc key (E.get db.data_ks) m.head xs

  -- No live metadata of a list. Elements of an expired list may still be there.
  abbrev pub Missing : Db E → List ℕ → ℕ → Type 0
  Missing db key now =
      live ListMeta.decode ListMeta.is_expired now (E.get db.meta_ks (meta_key db.kc key)) ≡ none

  -- The value at the key is the list `xs`; a key without a value holds the empty list.
  pub record HoldsList (db : Db E) (key : List ℕ) (now : ℕ) (xs : List (List ℕ)) : Type 0 where
    pub free : Free db key now
    pub value : ((xs ≡ []) × Missing db key now) ⊎ ((m : ListMeta) × Stored db key now m xs)

  -- What a command on the list at `key` leaves as it was: the scope, data keys that do not begin as the
  -- list's elements, and metadata keys but its own.
  pub record Frame (key : List ℕ) (db db' : Db E) : Type 0 where
    pub scope : db'.kc ≡ db.kc
    pub others :
        (k : List ℕ)
        → starts_with (prefix db.kc key) k ≡ false
        → E.get db'.data_ks k ≡ E.get db.data_ks k
    pub other_meta :
        (k : List ℕ) → meta_key db.kc key ≢ k → E.get db'.meta_ks k ≡ E.get db.meta_ks k

  pub Frame-refl : (key : List ℕ) (db : Db E) → Frame key db db
  Frame-refl key db = record { scope = refl; others = λ k h. refl; other_meta = λ k h. refl }

  -- The command succeeds with the answer `a`, its list is `xs` then, and the rest is as it was.
  abbrev pub Gives :
      Db E → List ℕ → ℕ → {A : Type 0} → Result (A × Db E) → A → List (List ℕ) → Type 0
  Gives db key now r a xs =
      (db' : Db E) × (r ≡ ok (a, db')) × HoldsList db' key now xs × Frame key db db'

  module _ (db : Db E) (key : List ℕ) (now : ℕ) where
    pub Stored-live :
        (m : ListMeta) (xs : List (List ℕ))
        → Stored db key now m xs
        → live ListMeta.decode ListMeta.is_expired now (E.get db.meta_ks (meta_key db.kc key))
          ≡ some m
    unfolding ListMeta.is_expired wedb_embed.KeyMeta.is_expired
    Stored-live m xs s =
        rw (s.meta, live, decode-encode_list_meta m s.window.valid)
          (ground (arith, s.window.unexpired, s.window.size, s.nonempty))

    pub get_meta_checked-Stored :
        (m : ListMeta) (xs : List (List ℕ))
        → Free db key now
        → Stored db key now m xs
        → get_meta_checked E list_ops db key (meta_key db.kc key) now ≡ ok (some m)
    get_meta_checked-Stored m xs f s =
        get_meta_checked-found E list_ops db key (meta_key db.kc key) now m f.no_string
          (Stored-live m xs s)

    pub get_meta_checked-Missing :
        Free db key now
        → Missing db key now
        → get_meta_checked E list_ops db key (meta_key db.kc key) now ≡ ok none
    get_meta_checked-Missing f l =
        get_meta_checked-missing E list_ops db key (meta_key db.kc key) now f.no_string l f.alone

  -- What keeps the string's key and the metadata keys of the other tags keeps other types away.
  pub Free-same :
      (store : IsStore E) (other : List ℕ) (db db' : Db E) (now : ℕ)
      → db'.kc ≡ db.kc
      → E.get db'.data_ks (as_bytes (raw db.kc other))
        ≡ E.get db.data_ks (as_bytes (raw db.kc other))
      → ((t : KeyTag)
          → bytes_eq (as_slice t) (as_slice KeyTag.list_meta) ≡ false
          → E.get db'.meta_ks (compose_meta_key_into db.kc (as_slice t) other)
            ≡ E.get db.meta_ks (compose_meta_key_into db.kc (as_slice t) other))
      → Free db other now
      → Free db' other now
  unfolding holds_string
  Free-same store other db db' now kc_same raw_same meta_same f = record {
    scope = rw kc_same f.scope;
    no_string = rw (kc_same, raw_same) f.no_string;
    alone =
        check_composite_meta-check_tags E store db' other (as_slice KeyTag.list_meta) now
        ∙ rw kc_same (
            check_tags-cong E db'.meta_ks db.meta_ks db.kc other (as_slice KeyTag.list_meta) now
              all_composite_meta_tags meta_same)
        ∙ sym (check_composite_meta-check_tags E store db other (as_slice KeyTag.list_meta) now)
        ∙ f.alone;
  }

  -- The string's key does not begin as the elements of a list.
  pub raw-outside :
      (kc : KeyComposer) (key other : List ℕ)
      → IsScope kc
      → starts_with (prefix kc key) (as_bytes (raw kc other)) ≡ false
  raw-outside kc key other scope =
      rw (raw_lem kc other) (meta_key-outside kc KeyTag.raw_string key other scope (λ e. cc e))

  pub meta_key-apart :
      (kc : KeyComposer) (key other : List ℕ) (t : KeyTag)
      → bytes_eq (as_slice t) (as_slice KeyTag.list_meta) ≡ false
      → meta_key kc key ≢ compose_meta_key_into kc (as_slice t) other
  meta_key-apart kc key other t differ e =
      let same = meta_key-tag kc KeyTag.list_meta t key other (sym (meta_key_lem kc key) ∙ e) in
      cc (
        sym differ
        ∙ ap (λ u. bytes_eq (as_slice u) (as_slice KeyTag.list_meta)) (sym same)
        ∙ bytes_eq_refl (as_slice KeyTag.list_meta))

  -- What keeps the frame keeps the other types away.
  pub Free-Frame :
      (store : IsStore E) (key other : List ℕ) (db db' : Db E) (now : ℕ)
      → Frame key db db'
      → Free db other now
      → Free db' other now
  Free-Frame store key other db db' now fr f =
      Free-same store other db db' now fr.scope
        (fr.others (as_bytes (raw db.kc other)) (raw-outside db.kc key other f.scope))
        (λ t differ.
          fr.other_meta (compose_meta_key_into db.kc (as_slice t) other)
            (meta_key-apart db.kc key other t differ))
        f
