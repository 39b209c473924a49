-- ===== src/Glob/Star.antt =====
-- A run of stars: the search for an end of the text that matches what follows.
use native.Mathlib.Decide.{ℕ_discrete}
use wedb_embed.Base.{
  ℕ, ◌≡◌, ◌⊎◌, inl, inr, List, [], ◌∷◌, Bool, true, false, Option, none, some, arith, length, ◌≤◌,
}
use wedb_embed.Glob.{skip_stars, any_suffix, star}
use wedb_embed.Glob.Decides.{Decides, Decides_iff}
use wedb_embed.Glob.Meaning.{
  Matches, end, star_end, star_more, any, inside, outside, literally, last, plain,
}

pub skip_stars-le : (p : List ℕ) → length (skip_stars p) ≤ length p
unfolding skip_stars
skip_stars-le [] = omega arith
skip_stars-le (c ∷ p) = ground (arith, skip_stars-le p)

-- A predicate holds of some end of a text.
abbrev SomeEnd : (List ℕ → Type 0) → List ℕ → Type 0
SomeEnd P [] = P []
SomeEnd P (x ∷ t) = P (x ∷ t) ⊎ SomeEnd P t

SomeEnd_all : (P : List ℕ → Type 0) (t : List ℕ) → P t → SomeEnd P t
SomeEnd_all P [] h = h
SomeEnd_all P (x ∷ t) h = inl h

SomeEnd_nil : (P : List ℕ → Type 0) (t : List ℕ) → P [] → SomeEnd P t
SomeEnd_nil P [] h = h
SomeEnd_nil P (x ∷ t) h = inr (SomeEnd_nil P t h)

any_suffix-Decides :
    (test : List ℕ → Option Bool) (P : List ℕ → Type 0) (t : List ℕ)
    → ((v : List ℕ) → Decides (test v) (P v))
    → Decides (any_suffix test t) (SomeEnd P t)
unfolding any_suffix
any_suffix-Decides test P [] h = h []
any_suffix-Decides test P (x ∷ t) h =
    first (test (x ∷ t)) (h (x ∷ t)) (any_suffix-Decides test P t h)
  where
    first :
        (o : Option Bool)
        → Decides o (P (x ∷ t))
        → Decides (any_suffix test t) (SomeEnd P t)
        → Decides
            (elim o [
              | none ↦ none
              | some found ↦ elim found [ true ↦ some true | false ↦ any_suffix test t ]
            ])
            (P (x ∷ t) ⊎ SomeEnd P t)
    first none d e = d
    first (some true) d e = inl d
    first (some false) d e =
        Decides_iff (any_suffix test t) inr (λ s. elim s [ inl p ↦ absurd (d p) | inr q ↦ q ]) e

star-SomeEnd :
    (match : List ℕ → List ℕ → Option Bool) (q t : List ℕ)
    → ((v : List ℕ) → Decides (match q v) (Matches q v))
    → Decides (star match q t) (SomeEnd (Matches q) t)
star-SomeEnd match [] t h = SomeEnd_nil (Matches []) t end
star-SomeEnd match (c ∷ q) t h = any_suffix-Decides (match (c ∷ q)) (Matches (c ∷ q)) t h

-- What a star matches, what its run of stars matches too.
starred : (s : ℕ) (r t : List ℕ) → s ≡ b'*' → SomeEnd (Matches r) t → Matches (s ∷ r) t
starred s r [] h m = star_end h m
starred s r (x ∷ t) h (inl m) = star_end h m
starred s r (x ∷ t) h (inr m) = star_more h (starred s r t h m)

unskipped :
    (s : ℕ) (q t : List ℕ) → s ≡ b'*' → SomeEnd (Matches (skip_stars q)) t → Matches (s ∷ q) t
unfolding skip_stars
unskipped s [] t h ends = starred s [] t h ends
unskipped s (c ∷ q) t h ends = elim (ℕ_discrete c b'*') [
  | yes k ↦ star_end h (
      unskipped c q t k
        (rw (let z : skip_stars (c ∷ q) ≡ skip_stars q = ground arith in z) at ends))
  | no k ↦
      starred s (c ∷ q) t h (rw (let z : skip_stars (c ∷ q) ≡ c ∷ q = ground arith in z) at ends)
]

skipped : {s : ℕ} {q t : List ℕ} → Matches (s ∷ q) t → s ≡ b'*' → SomeEnd (Matches (skip_stars q)) t
unfolding skip_stars
skipped (star_end {p = []} {t} e m) h = SomeEnd_all (Matches []) t m
skipped (star_end {p = c ∷ p} {t} e m) h = elim (ℕ_discrete c b'*') [
  | yes k ↦ rw (let z : skip_stars (c ∷ p) ≡ skip_stars p = ground arith in z) (skipped m k)
  | no k ↦
      rw (let z : skip_stars (c ∷ p) ≡ c ∷ p = ground arith in z)
        (SomeEnd_all (Matches (c ∷ p)) t m)
]
skipped (star_more e m) h = inr (skipped m h)
skipped (any e m) h = absurd (omega arith)
skipped (inside e n r y m) h = absurd (omega arith)
skipped (outside e n r y m) h = absurd (omega arith)
skipped (literally e k m) h = absurd (omega arith)
skipped (last e k m) h = absurd (omega arith)
skipped (plain n k m) h = absurd (n.0 h)

pub star-Decides :
    (match : List ℕ → List ℕ → Option Bool) (s : ℕ) (q t : List ℕ)
    → s ≡ b'*'
    → ((v : List ℕ) → Decides (match (skip_stars q) v) (Matches (skip_stars q) v))
    → Decides (star match (skip_stars q) t) (Matches (s ∷ q) t)
star-Decides match s q t h d =
    Decides_iff (star match (skip_stars q) t) (unskipped s q t h) (λ m. skipped m h)
      (star-SomeEnd match (skip_stars q) t d)
