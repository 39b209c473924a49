-- ===== src/Glob/Results.antt =====
-- embed/src/key_composer/slot.rs, `matches_glob_bytes`: the matcher always answers, and by the rules.
use native.Mathlib.Decide.{ℕ_discrete}
use wedb_embed.Base.{
  ℕ, zero, suc, ◌<◌, ◌≡◌, ◌≢◌, ◌↔◌, ◌⊎◌, refl, inl, inr, List, [], ◌∷◌, Bool, true, false, Option,
  some, arith, length,
}
use wedb_embed.Glob.{
  skip_stars, negation, in_class, literal, any_byte, escaped, star, round, glob, matches_glob_bytes,
}
use wedb_embed.Glob.Meaning.{
  IsPlain, IsNegation, StartsNegation, Matches, end, star_end, star_more, any, inside, outside,
  literally, last, plain,
}
use wedb_embed.Glob.Decides.{Decides, Decides_iff, Decides_same, Decides-answer}
use wedb_embed.Glob.Class.{Class-shorter}
use wedb_embed.Glob.Star.{star-Decides, skip_stars-le}
use wedb_embed.Glob.Parts.{
  TakesByte, TakesLiteral, TakesClass, TakesEscaped, InClass, DecidesBelow, any_byte-Decides,
  literal-Decides, escaped-Decides, in_class-Decides,
}

-- The rules, one direction and the other, for each first byte.
TakesByte-Matches : {c : ℕ} {p : List ℕ} (t : List ℕ) → c ≡ b'?' → TakesByte p t → Matches (c ∷ p) t
TakesByte-Matches [] h m = absurd m
TakesByte-Matches (x ∷ t) h m = any h m

Matches-TakesByte : {c : ℕ} {p t : List ℕ} → Matches (c ∷ p) t → c ≡ b'?' → TakesByte p t
Matches-TakesByte (star_end e m) h = absurd (omega arith)
Matches-TakesByte (star_more e m) h = absurd (omega arith)
Matches-TakesByte (any e m) h = m
Matches-TakesByte (inside e n r y m) h = absurd (omega arith)
Matches-TakesByte (outside e n r y m) h = absurd (omega arith)
Matches-TakesByte (literally e k m) h = absurd (omega arith)
Matches-TakesByte (last e k m) h = absurd (omega arith)
Matches-TakesByte (plain n k m) h = absurd (n.1 h)

TakesLiteral-Matches :
    {c : ℕ} {p : List ℕ} (t : List ℕ) → IsPlain c → TakesLiteral c p t → Matches (c ∷ p) t
TakesLiteral-Matches [] h m = absurd m
TakesLiteral-Matches (x ∷ t) h (e, m) = plain h e m

Matches-TakesLiteral : {c : ℕ} {p t : List ℕ} → Matches (c ∷ p) t → IsPlain c → TakesLiteral c p t
Matches-TakesLiteral (star_end e m) h = absurd (h.0 e)
Matches-TakesLiteral (star_more e m) h = absurd (h.0 e)
Matches-TakesLiteral (any e m) h = absurd (h.1 e)
Matches-TakesLiteral (inside e n r y m) h = absurd (h.2 e)
Matches-TakesLiteral (outside e n r y m) h = absurd (h.2 e)
Matches-TakesLiteral (literally e k m) h = absurd (h.3 e)
Matches-TakesLiteral (last e k m) h = absurd (h.3 e)
Matches-TakesLiteral (plain n k m) h = (k, m)

TakesEscaped-Matches : {c : ℕ} (p t : List ℕ) → c ≡ b'\\' → TakesEscaped p t → Matches (c ∷ p) t
TakesEscaped-Matches [] [] h m = absurd m
TakesEscaped-Matches [] (x ∷ t) h (e, m) = last h (omega arith) m
TakesEscaped-Matches (d ∷ p) [] h m = absurd m
TakesEscaped-Matches (d ∷ p) (x ∷ t) h (e, m) = literally h e m

Matches-TakesEscaped : {c : ℕ} {p t : List ℕ} → Matches (c ∷ p) t → c ≡ b'\\' → TakesEscaped p t
Matches-TakesEscaped (star_end e m) h = absurd (omega arith)
Matches-TakesEscaped (star_more e m) h = absurd (omega arith)
Matches-TakesEscaped (any e m) h = absurd (omega arith)
Matches-TakesEscaped (inside e n r y m) h = absurd (omega arith)
Matches-TakesEscaped (outside e n r y m) h = absurd (omega arith)
Matches-TakesEscaped (literally e k m) h = (k, m)
Matches-TakesEscaped (last e k m) h = (omega arith, m)
Matches-TakesEscaped (plain n k m) h = absurd (n.3 h)

is_negation : (n : ℕ) → IsNegation n ⊎ ¬ IsNegation n
is_negation n = elim (ℕ_discrete n b'^') [
  | yes h ↦ inl (inl h)
  | no h ↦ elim (ℕ_discrete n b'!') [
    | yes k ↦ inl (inr k)
    | no k ↦ inr (λ e. elim e [ inl a ↦ h a | inr b ↦ k b ])
  ]
]

negation-negated : (n : ℕ) (p : List ℕ) → IsNegation n → negation (n ∷ p) ≡ (true, p)
unfolding negation
negation-negated n p (inl h) = ground arith
negation-negated n p (inr h) = ground arith

negation-plain : (p : List ℕ) → ¬ StartsNegation p → negation p ≡ (false, p)
unfolding negation
negation-plain [] h = refl
negation-plain (n ∷ p) h =
    let a : n ≢ b'^' = λ e. h (inl e) in let b : n ≢ b'!' = λ e. h (inr e) in ground arith

TakesClass-Matches : {c : ℕ} (p t : List ℕ) → c ≡ b'[' → TakesClass p t → Matches (c ∷ p) t
TakesClass-Matches p [] h m = absurd m
TakesClass-Matches [] (x ∷ t) h m = absurd (unclosed (rw (negation-plain [] (λ s. s)) at m))
  where
    unclosed : InClass false [] x t → ⊥
    unclosed (rest, ranges, r, y, m) = omega (arith, Class-shorter r)
TakesClass-Matches {c} (n ∷ p) (x ∷ t) h m = elim (is_negation n) [
  | inl k ↦ negated (rw (negation-negated n p k) at m) k
  | inr k ↦ kept (rw (negation-plain (n ∷ p) k) at m) k
]
  where
    negated : InClass true p x t → IsNegation n → Matches (c ∷ n ∷ p) (x ∷ t)
    negated (rest, ranges, r, y, w) k = outside h k r (ground (arith, y)) w

    kept : InClass false (n ∷ p) x t → ¬ StartsNegation (n ∷ p) → Matches (c ∷ n ∷ p) (x ∷ t)
    kept (rest, ranges, r, y, w) k = inside h k r y w

Matches-TakesClass : {c : ℕ} {p t : List ℕ} → Matches (c ∷ p) t → c ≡ b'[' → TakesClass p t
Matches-TakesClass (star_end e m) h = absurd (omega arith)
Matches-TakesClass (star_more e m) h = absurd (omega arith)
Matches-TakesClass (any e m) h = absurd (omega arith)
Matches-TakesClass (inside {p} {rest} {ranges} e n r y m) h =
    rw (negation-plain p n) (rest, ranges, r, y, m)
Matches-TakesClass (outside {n} {p} {rest} {ranges} e k r y m) h =
    rw (negation-negated n p k) (rest, ranges, r, ground (arith, y), m)
Matches-TakesClass (literally e k m) h = absurd (omega arith)
Matches-TakesClass (last e k m) h = absurd (omega arith)
Matches-TakesClass (plain n k m) h = absurd (n.2 h)

round-Decides :
    (match : List ℕ → List ℕ → Option Bool) (p t : List ℕ)
    → DecidesBelow (length p) match
    → Decides (round match p t) (Matches p t)
unfolding round
round-Decides match [] [] d = end
round-Decides match [] (x ∷ t) d = λ m. elim m [ ]
round-Decides match (c ∷ p) t d = elim (ℕ_discrete c b'*') [
  | yes s ↦
      Decides_same (Matches (c ∷ p) t)
        (let z : round match (c ∷ p) t ≡ star match (skip_stars p) t = ground arith in z)
        (star-Decides match c p t s (λ v. d (skip_stars p) v (omega (arith, skip_stars-le p))))
  | no s ↦ elim (ℕ_discrete c b'?') [
    | yes q ↦
        Decides_same (Matches (c ∷ p) t)
          (let z : round match (c ∷ p) t ≡ any_byte match p t = ground arith in z)
          (Decides_iff (any_byte match p t) (TakesByte-Matches t q) (λ m. Matches-TakesByte m q)
            (any_byte-Decides match p t d))
    | no q ↦ elim (ℕ_discrete c b'[') [
      | yes o ↦
          Decides_same (Matches (c ∷ p) t)
            (let z : round match (c ∷ p) t ≡ in_class match p t = ground arith in z)
            (Decides_iff (in_class match p t) (TakesClass-Matches p t o)
              (λ m. Matches-TakesClass m o) (in_class-Decides match p t d))
      | no o ↦ elim (ℕ_discrete c b'\\') [
        | yes e ↦
            Decides_same (Matches (c ∷ p) t)
              (let z : round match (c ∷ p) t ≡ escaped match p t = ground arith in z)
              (Decides_iff (escaped match p t) (TakesEscaped-Matches p t e)
                (λ m. Matches-TakesEscaped m e) (escaped-Decides match p t d))
        | no e ↦
            Decides_same (Matches (c ∷ p) t)
              (let z : round match (c ∷ p) t ≡ literal match c p t = ground arith in z)
              (Decides_iff (literal match c p t) (TakesLiteral-Matches t (s, q, o, e))
                (λ m. Matches-TakesLiteral m (s, q, o, e)) (literal-Decides match c p t d))
      ]
    ]
  ]
]

glob-Decides : (fuel : ℕ) (p t : List ℕ) → length p < fuel → Decides (glob fuel p t) (Matches p t)
unfolding glob
glob-Decides zero p t h = absurd (omega arith)
glob-Decides (suc fuel) p t h =
    round-Decides (glob fuel) p t (λ q v k. glob-Decides fuel q v (omega arith))

-- The rounds that are given are enough, so that the matcher ends with an answer of its own on every
-- pattern and text; and the answer is true just if the pattern matches the text by the rules.
pub matches_glob_bytes_lem :
    (pattern text : List ℕ)
    → (glob (suc (length pattern)) pattern text ≡ some (matches_glob_bytes pattern text))
      × ((matches_glob_bytes pattern text ≡ true) ↔ Matches pattern text)
unfolding matches_glob_bytes
matches_glob_bytes_lem pattern text =
    Decides-answer (glob (suc (length pattern)) pattern text)
      (glob-Decides (suc (length pattern)) pattern text (omega arith))

-- A star alone matches everything.
pub Matches_star : (t : List ℕ) → Matches (b'*' ∷ []) t
Matches_star [] = star_end refl end
Matches_star (x ∷ t) = star_more refl (Matches_star t)
