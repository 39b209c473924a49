-- ===== src/Oppv/Order.antt =====
-- embed/src/key_composer/oppv.rs: encodings in the order of bytes.
use wedb_embed.Base.{
  ℕ, ◌<◌, ◌≡◌, sym, ap, ap₂, drop, drop-length_append, ◌∙◌, true, List, ◌∷◌, ◌++◌, arith, length,
  Option, some,
}
use wedb_embed.Bytes.{IsU64, bytes_lt}
use wedb_embed.Bytes.Words.{bytes_lt-to_be_bytes}
use wedb_embed.Oppv.{encode_oppv_u64_slice, oppv_len_u64, decode_oppv_u64}
use wedb_embed.Oppv.RoundTrip.{
  Range, Range-of, one_form, two_form, three_form, four_form, nine_form, decode-encode,
}

bytes_lt_head : (x y : ℕ) (r s : List ℕ) → x < y → bytes_lt (x ∷ r) (y ∷ s) ≡ true
unfolding bytes_lt
bytes_lt_head x y r s h = ground arith

bytes_lt_tail : (x : ℕ) (r s : List ℕ) → bytes_lt (x ∷ r) (x ∷ s) ≡ bytes_lt r s
unfolding bytes_lt
bytes_lt_tail x r s = ground arith

-- Of two 64-bit numbers, the smaller has the encoding that comes first, whatever follows either.
pub encode-order :
    (a b : ℕ) (r s : List ℕ)
    → IsU64 b
    → a < b
    → bytes_lt (encode_oppv_u64_slice a ++ r) (encode_oppv_u64_slice b ++ s) ≡ true
encode-order a b r s hb h = by_range (Range-of a) (Range-of b)
  where
    first :
        {x y : ℕ} {k l : List ℕ}
        → encode_oppv_u64_slice a ≡ x ∷ k
        → encode_oppv_u64_slice b ≡ y ∷ l
        → x < y
        → bytes_lt (encode_oppv_u64_slice a ++ r) (encode_oppv_u64_slice b ++ s) ≡ true
    first p q lt = rw (p, q) (bytes_lt_head _ _ _ _ lt)

    by_range :
        Range a
        → Range b
        → bytes_lt (encode_oppv_u64_slice a ++ r) (encode_oppv_u64_slice b ++ s) ≡ true
    by_range (Range.one p) (Range.one q) = first (one_form a p) (one_form b q) (omega arith)
    by_range (Range.one p) (Range.two q q') = first (one_form a p) (two_form b q q') (omega arith)
    by_range (Range.one p) (Range.three q q') =
        first (one_form a p) (three_form b q q') (omega arith)
    by_range (Range.one p) (Range.four q q') = first (one_form a p) (four_form b q q') (omega arith)
    by_range (Range.one p) (Range.nine q) = first (one_form a p) (nine_form b q) (omega arith)
    by_range (Range.two p p') (Range.two q q') =
        rw (two_form a p p', two_form b q q') (unfold bytes_lt in ground arith)
    by_range (Range.two p p') (Range.three q q') =
        first (two_form a p p') (three_form b q q') (omega arith)
    by_range (Range.two p p') (Range.four q q') =
        first (two_form a p p') (four_form b q q') (omega arith)
    by_range (Range.two p p') (Range.nine q) = first (two_form a p p') (nine_form b q) (omega arith)
    by_range (Range.three p p') (Range.three q q') =
        rw (three_form a p p', three_form b q q') (unfold bytes_lt in ground arith)
    by_range (Range.three p p') (Range.four q q') =
        first (three_form a p p') (four_form b q q') (omega arith)
    by_range (Range.three p p') (Range.nine q) =
        first (three_form a p p') (nine_form b q) (omega arith)
    by_range (Range.four p p') (Range.four q q') =
        rw (four_form a p p', four_form b q q') (unfold bytes_lt in ground arith)
    by_range (Range.four p p') (Range.nine q) =
        first (four_form a p p') (nine_form b q) (omega arith)
    by_range (Range.nine p) (Range.nine q) =
        rw (nine_form a p, nine_form b q)
          (bytes_lt_tail 248 _ _ ∙ bytes_lt-to_be_bytes 8 a b r s (omega arith))
    by_range (Range.two p p') (Range.one q) = absurd (omega arith)
    by_range (Range.three p p') (Range.one q) = absurd (omega arith)
    by_range (Range.four p p') (Range.one q) = absurd (omega arith)
    by_range (Range.nine p) (Range.one q) = absurd (omega arith)
    by_range (Range.three p p') (Range.two q q') = absurd (omega arith)
    by_range (Range.four p p') (Range.two q q') = absurd (omega arith)
    by_range (Range.nine p) (Range.two q q') = absurd (omega arith)
    by_range (Range.four p p') (Range.three q q') = absurd (omega arith)
    by_range (Range.nine p) (Range.three q q') = absurd (omega arith)
    by_range (Range.nine p) (Range.four q q') = absurd (omega arith)

-- No encoding of a 64-bit number is a proper prefix of another: from two equal texts that begin with
-- an encoding, the numbers and what follows them are the same.
pub encode-prefix_free :
    (a b : ℕ) (r s : List ℕ)
    → IsU64 a
    → IsU64 b
    → encode_oppv_u64_slice a ++ r ≡ encode_oppv_u64_slice b ++ s
    → (a ≡ b) × (r ≡ s)
encode-prefix_free a b r s ha hb e = (same, rest)
  where
    read : ◌≡◌ {A = Option (ℕ × ℕ)} (some (a, oppv_len_u64 a)) (some (b, oppv_len_u64 b))
    read = sym (decode-encode a r ha) ∙ ap decode_oppv_u64 e ∙ decode-encode b s hb

    same : a ≡ b
    same = cc read

    rest : r ≡ s
    rest =
        sym (drop-length_append (encode_oppv_u64_slice a) r)
        ∙ ap₂ drop (ap (λ (t : ℕ). length (encode_oppv_u64_slice t)) same) e
        ∙ drop-length_append (encode_oppv_u64_slice b) s
