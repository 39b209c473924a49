-- ===== src/Glob/Parts.antt =====
-- embed/src/key_composer/slot.rs, `matches_glob_bytes`: what each part of a round decides.
use wedb_embed.Base.{
  ℕ, suc, ◌<◌, ◌≡◌, refl, sym, ◌∙◌, List, [], ◌∷◌, Bool, true, false, not, Option, none, some,
  arith, ◌==◌, if◌then◌else◌, length, ◌||◌,
}
use wedb_embed.Glob.{negation, class_of, class_rest, in_class, literal, any_byte, escaped}
use wedb_embed.Glob.Meaning.{Class, covers, Matches}
use wedb_embed.Glob.Class.{class_of-Class, Class-class_of, Class-shorter}
use wedb_embed.Glob.Decides.{Decides, Decides_iff, Decides_test}

-- The ways in which the first bytes of a pattern can take the first byte of a text.
abbrev pub TakesByte : List ℕ → List ℕ → Type 0
TakesByte p [] = ⊥
TakesByte p (x ∷ t) = Matches p t

abbrev pub TakesLiteral : ℕ → List ℕ → List ℕ → Type 0
TakesLiteral c p [] = ⊥
TakesLiteral c p (x ∷ t) = (x ≡ c) × Matches p t

abbrev pub InClass : Bool → List ℕ → ℕ → List ℕ → Type 0
InClass negated class x t =
    (rest : List ℕ) × (ranges : List (ℕ × ℕ)) × Class class ranges rest
    × ((if negated then not (covers x ranges) else covers x ranges) ≡ true)
    × Matches rest t

abbrev pub TakesClass : List ℕ → List ℕ → Type 0
TakesClass p [] = ⊥
TakesClass p (x ∷ t) = InClass (negation p).0 (negation p).1 x t

abbrev pub TakesEscaped : List ℕ → List ℕ → Type 0
TakesEscaped [] t = TakesLiteral b'\\' [] t
TakesEscaped (c ∷ p) t = TakesLiteral c p t

-- The parts of a round decide these, if what matches the rest decides the rest.
abbrev pub DecidesBelow : ℕ → (List ℕ → List ℕ → Option Bool) → Type 0
DecidesBelow n match = (q v : List ℕ) → length q < n → Decides (match q v) (Matches q v)

pub any_byte-Decides :
    (match : List ℕ → List ℕ → Option Bool) (p t : List ℕ)
    → DecidesBelow (suc (length p)) match
    → Decides (any_byte match p t) (TakesByte p t)
any_byte-Decides match p [] d = λ h. h
any_byte-Decides match p (x ∷ t) d = d p t (omega arith)

pub literal-Decides :
    (match : List ℕ → List ℕ → Option Bool) (c : ℕ) (p t : List ℕ)
    → DecidesBelow (suc (length p)) match
    → Decides (literal match c p t) (TakesLiteral c p t)
literal-Decides match c p [] d = λ h. h
literal-Decides match c p (x ∷ t) d =
    Decides_test (x == c) (match p t)
      (λ y. Decides_iff (match p t) (λ m. (ground (arith, y), m)) (λ m. m.1) (d p t (omega arith)))
      (λ y m. ground (arith, y, m.0))

pub escaped-Decides :
    (match : List ℕ → List ℕ → Option Bool) (p t : List ℕ)
    → DecidesBelow (suc (length p)) match
    → Decides (escaped match p t) (TakesEscaped p t)
escaped-Decides match [] t d = literal-Decides match b'\\' [] t d
escaped-Decides match (c ∷ p) t d = literal-Decides match c p t (λ q v h. d q v (omega arith))

negated_lem :
    (negated b c : Bool)
    → b ≡ (c || false)
    → (if negated then not b else b) ≡ (if negated then not c else c)
negated_lem negated b c h = ground arith

class_rest-Decides :
    (match : List ℕ → List ℕ → Option Bool) (negated : Bool) (class : List ℕ) (x : ℕ) (t : List ℕ)
    → DecidesBelow (length class) match
    → Decides (class_rest match negated t (class_of x class false)) (InClass negated class x t)
class_rest-Decides match negated class x t d = read (class_of x class false) refl
  where
    read :
        (o : Option (Bool × List ℕ))
        → class_of x class false ≡ o
        → Decides (class_rest match negated t o) (InClass negated class x t)
    read none e = λ (rest, ranges, m, y, k). cc (sym e ∙ class_of-Class x false m)
    read (some (b, rest)) e =
        let (ranges, m, z) = Class-class_of x class rest false b e in
        Decides_test (if negated then not b else b) (match rest t)
          (λ y.
            Decides_iff (match rest t)
              (λ k. (rest, ranges, m, sym (negated_lem negated b (covers x ranges) z) ∙ y, k))
              (λ (rest', ranges', m', y', k).
                rw (let w : rest ≡ rest' = cc (sym e ∙ class_of-Class x false m') in w) k)
              (d rest t (Class-shorter m)))
          (λ y (rest', ranges', m', y', k).
            let w : b ≡ (covers x ranges' || false) = cc (sym e ∙ class_of-Class x false m') in
            cc (sym y ∙ negated_lem negated b (covers x ranges') w ∙ y'))

negation_shorter : (p : List ℕ) → length (negation p).1 < suc (length p)
unfolding negation
negation_shorter [] = omega arith
negation_shorter (c ∷ p) = ground arith

pub in_class-Decides :
    (match : List ℕ → List ℕ → Option Bool) (p t : List ℕ)
    → DecidesBelow (suc (length p)) match
    → Decides (in_class match p t) (TakesClass p t)
in_class-Decides match p [] d = λ h. h
in_class-Decides match p (x ∷ t) d =
    class_rest-Decides match (negation p).0 (negation p).1 x t
      (λ q v h. d q v (omega (arith, negation_shorter p)))
