-- ===== src/KeyComposer/Subkey.antt =====
-- embed/src/key_composer/composer.rs, `SubkeyComposer`: one buffer that composes the subkeys of one
-- prefix in turn.
use wedb_embed.Base.{
  ℕ, ◌≡◌, refl, ap, List, ◌++◌, arith, length, take, take-length_append, take_all,
}
use wedb_embed.Bytes.{to_be_bytes}

pub record SubkeyComposer : Type 0 where
  pub buf : List ℕ
  pub prefix_len : ℕ

unfoldable pub subkey_composer : List ℕ → SubkeyComposer
subkey_composer prefix = record { buf = prefix; prefix_len = length prefix }

-- The buffer is truncated to the prefix and extended; the reference returned is the buffer.
unfoldable pub compose_sub : SubkeyComposer → List ℕ → SubkeyComposer
compose_sub c subkey = record c { buf = take c.prefix_len c.buf ++ subkey }

unfoldable pub compose_sub_u64_be : SubkeyComposer → ℕ → SubkeyComposer
compose_sub_u64_be c val = record c { buf = take c.prefix_len c.buf ++ to_be_bytes 8 val }

-- The buffer begins with the prefix `p`.
pub record Composes (p : List ℕ) (c : SubkeyComposer) : Type 0 where
  pub len : c.prefix_len ≡ length p
  pub prefix : take c.prefix_len c.buf ≡ p

pub subkey_composer-Composes : (p : List ℕ) → Composes p (subkey_composer p)
unfolding subkey_composer
subkey_composer-Composes p = record { len = refl; prefix = take_all (length p) p (omega arith) }

-- Whatever was composed before, the buffer is the prefix and the new subkey.
pub compose_sub-buf :
    (p s : List ℕ) (c : SubkeyComposer) → Composes p c → (compose_sub c s).buf ≡ p ++ s
unfolding compose_sub
compose_sub-buf p s c h = ap (λ l. l ++ s) h.prefix

pub compose_sub-Composes :
    (p s : List ℕ) (c : SubkeyComposer) → Composes p c → Composes p (compose_sub c s)
unfolding compose_sub
compose_sub-Composes p s c h = record {
  len = h.len;
  prefix = rw (h.prefix, h.len) (take-length_append p s);
}
