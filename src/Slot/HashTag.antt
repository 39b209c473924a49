-- ===== src/Slot/HashTag.antt =====
-- embed/src/key_composer/slot.rs: hash tags, slots and slot prefixes.
use wedb_embed.Base.{
  ℕ, ◌+◌, ◌<◌, ◌≡◌, ◌≢◌, refl, sym, ap, ◌∙◌, List, [], ◌∷◌, ◌++◌, append_assoc, true, false,
  append-nil, lt→ltb, none, some, arith, ltb, ◌==◌, length, length-append, take, drop,
  take-length_append, drop_prefix, All,
}
use wedb_embed.Bytes.{bytes_lt, to_be_bytes}
use wedb_embed.Bytes.Order.{bytes_lt-append_left}
use wedb_embed.Bytes.Words.{bytes_lt-to_be_bytes}
use wedb_embed.Slot.{
  Search, get_tag_from_key, get_slot_id_from_key, compose_slot_key_prefix,
  compose_slot_key_upper_bound, next_slot,
}

-- A text without the byte `c`.
abbrev pub Lacks : ℕ → List ℕ → Type 0
Lacks c = All (λ b. b ≢ c)

-- What the package's `memchr` documents: the position of the first occurrence, if there is one.
pub record IsFirst (memchr : Search) : Type 0 where
  pub absent : (c : ℕ) (xs : List ℕ) → Lacks c xs → memchr c xs ≡ none
  pub found : (c : ℕ) (xs ys : List ℕ) → Lacks c xs → memchr c (xs ++ (c ∷ ys)) ≡ some (length xs)

module _ (memchr : Search) (first : IsFirst memchr) where
  chain :
      (key : List ℕ) (l r : ℕ)
      → memchr b'{' key ≡ some l
      → memchr b'}' (drop (l + 1) key) ≡ some r
      → ltb 0 r ≡ true
      → get_tag_from_key memchr key ≡ take r (drop (l + 1) key)
  unfolding get_tag_from_key
  chain key l r el er pos = rw (el, get_tag_from_key) (rw (er, pos))

  untagged : (xs : List ℕ) → Lacks b'{' xs → get_tag_from_key memchr xs ≡ []
  unfolding get_tag_from_key
  untagged xs h = rw (first.absent b'{' xs h, get_tag_from_key)

  -- If `memchr` finds first occurrences, the tag of a key is what stands between the first `{` and
  -- the next `}`, if that is not empty.
  pub get_tag_from_key-tagged :
      (front tag back : List ℕ)
      → Lacks b'{' front
      → Lacks b'}' tag
      → tag ≢ []
      → get_tag_from_key memchr (front ++ (b'{' ∷ (tag ++ (b'}' ∷ back)))) ≡ tag
  get_tag_from_key-tagged front tag back hf ht ne =
      rw
        (
          chain (front ++ (b'{' ∷ (tag ++ (b'}' ∷ back)))) (length front) (length tag)
              (first.found b'{' front (tag ++ (b'}' ∷ back)) hf)
              (rw after (first.found b'}' tag back ht)) (positive tag ne),
          after,
        )
        (take-length_append tag (b'}' ∷ back))
    where
      after :
          drop (length front + 1) (front ++ (b'{' ∷ (tag ++ (b'}' ∷ back)))) ≡ tag ++ (b'}' ∷ back)
      after =
          ap (drop (length front + 1)) (sym (append_assoc front (b'{' ∷ []) (tag ++ (b'}' ∷ back))))
          ∙ drop_prefix (length front + 1) (front ++ (b'{' ∷ [])) (tag ++ (b'}' ∷ back))
              (omega (arith, length-append front (b'{' ∷ [])))

      positive : (xs : List ℕ) → xs ≢ [] → ltb 0 (length xs) ≡ true
      positive [] ne = absurd (ne refl)
      positive (x ∷ xs) ne = ground arith

  -- If `memchr` finds first occurrences, every key with a tag that is not empty and has no brace has
  -- the slot of the tag alone, so keys that share a tag share a slot.
  pub get_slot_id_from_key-tagged :
      (front tag back : List ℕ)
      → Lacks b'{' front
      → Lacks b'{' tag
      → Lacks b'}' tag
      → tag ≢ []
      → get_slot_id_from_key memchr (front ++ (b'{' ∷ (tag ++ (b'}' ∷ back))))
        ≡ get_slot_id_from_key memchr tag
  unfolding get_slot_id_from_key
  get_slot_id_from_key-tagged front tag back hf hl ht ne =
      rw (get_tag_from_key-tagged front tag back hf ht ne, untagged tag hl, positive tag ne)
    where
      positive : (xs : List ℕ) → xs ≢ [] → (length xs == 0) ≡ false
      positive [] ne = absurd (ne refl)
      positive (x ∷ xs) ne = ground arith

-- The keys of a slot of a namespace come before its upper bound, if the slot is below 0xffff.
pub slot_key-lt-upper_bound :
    (ns_id slot_id : ℕ) (rest : List ℕ)
    → slot_id < 0xffff
    → bytes_lt
        (compose_slot_key_prefix ns_id slot_id ++ rest)
        (compose_slot_key_upper_bound ns_id slot_id)
      ≡ true
unfolding compose_slot_key_prefix compose_slot_key_upper_bound next_slot
slot_key-lt-upper_bound ns_id slot_id rest h =
    rw (append_assoc, lt→ltb slot_id 0xffff h, bytes_lt-append_left) below
  where
    below : bytes_lt (to_be_bytes 2 slot_id ++ rest) (to_be_bytes 2 (slot_id + 1)) ≡ true
    below = rw append-nil at (bytes_lt-to_be_bytes 2 slot_id (slot_id + 1) rest [] (omega arith))
